-- ===== src/Files/Parse/Counted.antt =====
-- crates/fs_scanner/src/acl.rs: what the entries of a DACL become on the way to the evaluation, held
-- against the layout of the entries in Windows.
use stars_ad_permission_anal.Base.{
  ℕ, zero, suc, ◌+◌, ◌<◌, ◌==◌, ==_iff, Bool-cases, bit, bit_and, has_bit, true, false, not, List,
  [], ◌∷◌, Option, none, some, Result, ok, err, length, ◌⊎◌, inl, inr, String, ◌∙◌, ◌≡◌, refl,
  arith,
}
use stars_ad_permission_anal.Model.{AceKind, allow, deny, AceEntry, UnsupportedAce}
use stars_ad_permission_anal.Files.Parse.{
  RawAce, RawDacl, ParseAceOutcome, entry, unsupported, sid_unreadable, outcome_at, push, parse_ace,
  supported_ace, parse_aces, parse_dacl, with_count,
}

-- ACCESS_ALLOWED_ACE_TYPE and ACCESS_DENIED_ACE_TYPE.
abbrev type_of : AceKind → ℕ
type_of allow = 0
type_of deny = 1

-- An entry to evaluate: of an Allow or Deny type, with a SID that can be read. INHERITED_ACE is bit
-- 4 of the flags, the object and container bits are 0 and 1, the propagation bits 2 and 3.
abbrev IsEntry : Option RawAce → AceEntry → Type 0
IsEntry none e = false ≡ true
IsEntry (some ace) e =
    (ace.ace_type ≡ type_of e.kind)
    × (ace.sid ≡ ok e.sid)
    × (ace.mask ≡ e.mask)
    × (e.inherited ≡ bit 4 ace.flags)
    × (e.inheritance_flags ≡ bit_and ace.flags 0x03)
    × (e.propagation_flags ≡ bit_and ace.flags 0x0c)

-- An entry to report: it could not be fetched, is of another type, or its SID cannot be read.
abbrev IsGap : Option RawAce → UnsupportedAce → Type 0
IsGap none u = u ≡ record { ace_type = 0xfe; flags = 0; mask = 0 }
IsGap (some ace) u =
    ((1 < ace.ace_type) ⊎ ((code : ℕ) × (ace.sid ≡ err code)))
    × (u ≡ record { ace_type = ace.ace_type; flags = ace.flags; mask = ace.mask })

-- The entries in stored order are each evaluated or reported, and nothing else is.
pub data IsParsed : List (Option RawAce) → List AceEntry → List UnsupportedAce → Type 0 where
  done : IsParsed [] [] []
  evaluated :
      (raw : Option RawAce) (e : AceEntry) {raws : List (Option RawAce)} {es : List AceEntry}
      {us : List UnsupportedAce}
      → IsEntry raw e
      → IsParsed raws es us
      → IsParsed (raw ∷ raws) (e ∷ es) us
  reported :
      (raw : Option RawAce) (u : UnsupportedAce) {raws : List (Option RawAce)} {es : List AceEntry}
      {us : List UnsupportedAce}
      → IsGap raw u
      → IsParsed raws es us
      → IsParsed (raw ∷ raws) es (u ∷ us)

abbrev Means : Option RawAce → ParseAceOutcome → Type 0
Means raw (entry e) = IsEntry raw e
Means raw (unsupported u) = IsGap raw u
Means raw (sid_unreadable u) = IsGap raw u

inherited_bit : (flags : ℕ) → not (bit_and flags 0x10 == 0) ≡ bit 4 flags
inherited_bit flags = ground (arith, has_bit 4 flags)

supported-Means :
    (ace : RawAce) (kind : AceKind) (sid : Result ℕ String)
    → ace.ace_type ≡ type_of kind
    → ace.sid ≡ sid
    → Means (some ace) (supported_ace ace kind sid)
supported-Means ace kind (err code) t e = (inr (code, e), refl)
supported-Means ace kind (ok sid) t e = (t, e, refl, inherited_bit ace.flags, refl, refl)

parse_ace-Means : (ace : RawAce) → Means (some ace) (parse_ace ace)
unfolding parse_ace
parse_ace-Means ace = elim (Bool-cases (ace.ace_type == 0)) [
  | inl allows ↦
      rw allows
        (supported-Means ace allow ace.sid (ground (arith, allows, ==_iff ace.ace_type 0)) refl)
  | inr other ↦ rw other (elim (Bool-cases (ace.ace_type == 1)) [
    | inl denies ↦
        rw denies
          (supported-Means ace deny ace.sid (ground (arith, denies, ==_iff ace.ace_type 1)) refl)
    | inr strange ↦
        rw strange
          (inl (ground (arith, other, strange, ==_iff ace.ace_type 0, ==_iff ace.ace_type 1)), refl)
  ])
]

outcome_at-Means : (raw : Option RawAce) → Means raw (outcome_at raw)
outcome_at-Means none = refl
outcome_at-Means (some ace) = parse_ace-Means ace

push-IsParsed :
    (raw : Option RawAce) (o : ParseAceOutcome) (raws : List (Option RawAce))
    (rest : List AceEntry × List UnsupportedAce)
    → Means raw o
    → IsParsed raws rest.0 rest.1
    → IsParsed (raw ∷ raws) (push o rest).0 (push o rest).1
push-IsParsed raw (entry e) raws rest m h = evaluated raw e m h
push-IsParsed raw (unsupported u) raws rest m h = reported raw u m h
push-IsParsed raw (sid_unreadable u) raws rest m h = reported raw u m h

-- The answers for `left` entries from index `i` on.
abbrev answers : {A : Type 0} → (ℕ → A) → ℕ → ℕ → List A
answers get zero i = []
answers get (suc left) i = get i ∷ answers get left (suc i)

parse_aces-IsParsed :
    (get_ace : ℕ → Option RawAce) (left i : ℕ)
    → IsParsed (answers get_ace left i) (parse_aces get_ace left i).0 (parse_aces get_ace left i).1
unfolding parse_aces
parse_aces-IsParsed get_ace zero i = done
parse_aces-IsParsed get_ace (suc left) i =
    push-IsParsed (get_ace i) (outcome_at (get_ace i)) (answers get_ace left (suc i))
      (parse_aces get_ace left (suc i)) (outcome_at-Means (get_ace i))
      (parse_aces-IsParsed get_ace left (suc i))

IsParsed-length :
    {raws : List (Option RawAce)} {es : List AceEntry} {us : List UnsupportedAce}
    → IsParsed raws es us
    → length es + length us ≡ length raws
IsParsed-length done = refl
IsParsed-length (evaluated raw e m h) = omega (arith, IsParsed-length h)
IsParsed-length (reported raw u m h) = omega (arith, IsParsed-length h)

length-answers : (get_ace : ℕ → Option RawAce) (left i : ℕ) → length (answers get_ace left i) ≡ left
length-answers get_ace zero i = refl
length-answers get_ace (suc left) i = omega (arith, length-answers get_ace left (suc i))

-- What becomes of a DACL, by the number of its entries, which is missing if it cannot be read.
abbrev pub IsAccounted :
    (ℕ → Option RawAce) → Option ℕ → List AceEntry × List UnsupportedAce → Type 0
IsAccounted get_ace none parsed =
    parsed ≡ ([], record { ace_type = 0xff; flags = 0; mask = 0 } ∷ [])
IsAccounted get_ace (some count) parsed =
    IsParsed (answers get_ace count 0) parsed.0 parsed.1
    × (length parsed.0 + length parsed.1 ≡ count)

with_count-IsAccounted :
    (dacl : RawDacl) (ace_count : Option ℕ)
    → IsAccounted dacl.get_ace ace_count (with_count dacl ace_count)
with_count-IsAccounted dacl none = refl
with_count-IsAccounted dacl (some count) =
    let parsed = parse_aces-IsParsed dacl.get_ace count 0 in
    (parsed, IsParsed-length parsed ∙ length-answers dacl.get_ace count 0)

-- The entries of a DACL are each evaluated or reported, as many of them together as it has: in
-- stored order, those of an Allow or Deny type whose SID can be read are evaluated with their kind,
-- SID, mask and flags, and all others are reported as unsupported. A DACL that cannot be read gives
-- no entry and one unsupported one.
pub parse_dacl-counted :
    (dacl : RawDacl) → IsAccounted dacl.get_ace dacl.ace_count (parse_dacl dacl)
unfolding parse_dacl
parse_dacl-counted dacl = with_count-IsAccounted dacl dacl.ace_count
