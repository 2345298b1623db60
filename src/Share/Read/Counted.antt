-- ===== src/Share/Read/Counted.antt =====
-- crates/share_scanner/src/scanner.rs: what the entries of a share's DACL become on the way to the
-- evaluation, held against the layout of the entries in Windows.
use stars_ad_permission_anal.Base.{
  ℕ, zero, suc, ◌+◌, ◌<◌, ◌==◌, ==_iff, Bool-cases, true, false, List, [], ◌∷◌, Option, none, some,
  String, Result, ok, err, length, ◌⊎◌, inl, inr, ◌∙◌, ◌≡◌, refl, arith,
}
use stars_ad_permission_anal.Model.{AceKind, allow, deny}
use stars_ad_permission_anal.Share.{SharePermission, acl}
use stars_ad_permission_anal.Share.Read.{
  RawAce, RawAcl, ShareInfo, permission_of, with_kind, with_sid, supported, joined, read_aces,
  parse_share_dacl, get_share_dacl, classify_dacl,
}

-- ACCESS_ALLOWED_ACE_TYPE and ACCESS_DENIED_ACE_TYPE.
abbrev type_of : AceKind → ℕ
type_of allow = 0
type_of deny = 1

-- An entry to evaluate: of an Allow or Deny type, with a SID that can be read.
abbrev IsPermission : String → Option RawAce → SharePermission → Type 0
IsPermission share_name none p = false ≡ true
IsPermission share_name (some ace) p =
    (ace.ace_type ≡ type_of p.kind)
    × (ace.sid ≡ ok p.sid)
    × (ace.mask ≡ p.mask)
    × (p.share_name ≡ share_name)

-- An entry to count: it could not be fetched, is of another type, or its SID cannot be read.
abbrev IsGap : Option RawAce → Type 0
IsGap none = Unit
IsGap (some ace) = (1 < ace.ace_type) ⊎ ((code : ℕ) × (ace.sid ≡ err code))

-- The entries in stored order are each a permission or counted, and nothing else is.
pub data IsRead (share_name : String)
    : List (Option RawAce) → List SharePermission → ℕ → Type 0 where
  done : IsRead share_name [] [] 0
  evaluated :
      (raw : Option RawAce) (p : SharePermission) {raws : List (Option RawAce)}
      {ps : List SharePermission} {n : ℕ}
      → IsPermission share_name raw p
      → IsRead share_name raws ps n
      → IsRead share_name (raw ∷ raws) (p ∷ ps) n
  counted :
      (raw : Option RawAce) {raws : List (Option RawAce)} {ps : List SharePermission} {n : ℕ}
      → IsGap raw
      → IsRead share_name raws ps n
      → IsRead share_name (raw ∷ raws) ps (suc n)

-- The answers for `left` entries from index `i` on.
abbrev pub answers : (ℕ → Option RawAce) → ℕ → ℕ → List (Option RawAce)
answers get_ace zero i = []
answers get_ace (suc left) i = get_ace i ∷ answers get_ace left (suc i)

module _ (share_name : String) where
  abbrev Means : Option RawAce → Option SharePermission → Type 0
  Means raw none = IsGap raw
  Means raw (some p) = IsPermission share_name raw p

  with_sid-Means :
      (ace : RawAce) (kind : AceKind) (sid : Result ℕ String)
      → ace.ace_type ≡ type_of kind
      → ace.sid ≡ sid
      → Means (some ace) (with_sid share_name ace kind sid)
  with_sid-Means ace kind (err code) t e = inr (code, e)
  with_sid-Means ace kind (ok sid) t e = (t, e, refl, refl)

  kind-Means : (ace : RawAce) → Means (some ace) (with_kind share_name ace (supported ace.ace_type))
  kind-Means ace = elim (Bool-cases (ace.ace_type == 0)) [
    | inl allows ↦
        rw allows
          (with_sid-Means ace allow ace.sid (ground (arith, allows, ==_iff ace.ace_type 0)) refl)
    | inr other ↦ rw other (elim (Bool-cases (ace.ace_type == 1)) [
      | inl denies ↦
          rw denies
            (with_sid-Means ace deny ace.sid (ground (arith, denies, ==_iff ace.ace_type 1)) refl)
      | inr strange ↦
          rw strange
            (inl (ground (arith, other, strange, ==_iff ace.ace_type 0, ==_iff ace.ace_type 1)))
    ])
  ]

  permission_of-Means : (raw : Option RawAce) → Means raw (permission_of share_name raw)
  permission_of-Means none = tt
  permission_of-Means (some ace) = kind-Means ace

  joined-IsRead :
      (raw : Option RawAce) (p : Option SharePermission) (raws : List (Option RawAce))
      (rest : List SharePermission × ℕ)
      → Means raw p
      → IsRead share_name raws rest.0 rest.1
      → IsRead share_name (raw ∷ raws) (joined p rest).0 (joined p rest).1
  joined-IsRead raw none raws rest m h = counted raw m h
  joined-IsRead raw (some p) raws rest m h = evaluated raw p m h

  read_aces-IsRead :
      (get_ace : ℕ → Option RawAce) (left i : ℕ)
      → IsRead share_name
          (answers get_ace left i)
          (read_aces share_name get_ace left i).0
          (read_aces share_name get_ace left i).1
  unfolding read_aces
  read_aces-IsRead get_ace zero i = done
  read_aces-IsRead get_ace (suc left) i =
      joined-IsRead (get_ace i) (permission_of share_name (get_ace i))
        (answers get_ace left (suc i)) (read_aces share_name get_ace left (suc i))
        (permission_of-Means (get_ace i)) (read_aces-IsRead get_ace left (suc i))

  IsRead-length :
      {raws : List (Option RawAce)} {ps : List SharePermission} {n : ℕ}
      → IsRead share_name raws ps n
      → length ps + n ≡ length raws
  IsRead-length done = refl
  IsRead-length (evaluated raw p m h) = omega (arith, IsRead-length h)
  IsRead-length (counted raw m h) = omega (arith, IsRead-length h)

length-answers : (get_ace : ℕ → Option RawAce) (left i : ℕ) → length (answers get_ace left i) ≡ left
length-answers get_ace zero i = refl
length-answers get_ace (suc left) i = omega (arith, length-answers get_ace left (suc i))

parse_share_dacl-IsRead :
    (share_name : String) (raw : RawAcl) (count : ℕ)
    → raw.ace_count ≡ ok count
    → (permissions : List SharePermission) × (unsupported : ℕ) × (parse_share_dacl share_name
          (ok (true, some raw))
        ≡ ok (some (permissions, unsupported)))
      × IsRead share_name (answers raw.get_ace count 0) permissions unsupported
unfolding parse_share_dacl classify_dacl
parse_share_dacl-IsRead share_name raw zero e = ([], 0, rw e refl, done)
parse_share_dacl-IsRead share_name raw (suc n) e =
    let parsed = read_aces share_name raw.get_ace (suc n) 0 in
    (
      parsed.0,
      parsed.1,
      rw e (rw (let some_ace : (suc n == 0) ≡ false = ground arith in some_ace) refl),
      read_aces-IsRead share_name raw.get_ace (suc n) 0,
    )

-- A share whose descriptor has a DACL of `count` entries is read, and each of them is a permission
-- or counted as unsupported, `count` of them together: in stored order, those of an Allow or Deny
-- type whose SID can be read are the permissions, with their kind, SID and mask and the name of the
-- share, and all others are counted.
pub get_share_dacl-counted :
    (net_share_get_info : String → String → ShareInfo) (server share_name : String) (raw : RawAcl)
    (count : ℕ)
    → net_share_get_info server share_name
      ≡ record { status = 0; buffer = some (some (ok (true, some raw))) }
    → raw.ace_count ≡ ok count
    → (permissions : List SharePermission) × (unsupported : ℕ) × (get_share_dacl net_share_get_info
          server share_name
        ≡ ok (record { dacl = acl permissions; unsupported_count = unsupported }))
      × IsRead share_name (answers raw.get_ace count 0) permissions unsupported
      × (length permissions + unsupported ≡ count)
unfolding get_share_dacl
get_share_dacl-counted net_share_get_info server share_name raw count e h =
    let (permissions, unsupported, parsed, kept) = parse_share_dacl-IsRead share_name raw count h in
    (
      permissions,
      unsupported,
      rw e (rw parsed refl),
      kept,
      IsRead-length share_name kept ∙ length-answers raw.get_ace count 0,
    )
