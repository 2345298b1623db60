-- ===== src/Dacl/Walk.antt =====
-- crates/permission_engine/src/engine.rs: `walk_granted_with`, right by right.
use stars_ad_permission_anal.Base.{
  ℕ, Bool, true, false, not, ◌&&◌, ◌||◌, bit_and, bit_or, not32, if◌then◌else◌, List, [], ◌∷◌,
  Option, some, String, ◌≡◌, refl, ◌∙◌, arith, inl, inr, ◌⊎◌, bit, bit-or, bit-without, bit-zero,
  bit_or-IsU32, bit_and-IsU32, IsU32, All,
}
use stars_ad_permission_anal.Model.{AceKind, allow, deny, AceEntry}
use stars_ad_permission_anal.Mask.{expand_generic_rights}
use stars_ad_permission_anal.Mask.Expand.{expand-IsU32}
use stars_ad_permission_anal.Dacl.Decision.{Matching, first_decider, allowed, refused}
use stars_ad_permission_anal.Dacl.{
  is_allow, is_deny, ace_applies_to_current_object, granted_from, walk_granted_with,
}

-- Every mask of the list is a 32-bit word.
abbrev pub AreWords : List AceEntry → Type 0
AreWords dacl = All (λ ace. IsU32 ace.mask) dacl

-- The entries that `walk_granted_with` counts.
abbrev pub counted : (String → Bool) → (String → Bool) → Matching
counted allow_matches deny_matches ace =
    ace_applies_to_current_object ace
    && (if is_allow ace.kind then allow_matches ace.sid else deny_matches ace.sid)

pub kind-cases :
    (k : AceKind)
    → ((is_allow k ≡ true) × (is_deny k ≡ false)) ⊎ ((is_allow k ≡ false) × (is_deny k ≡ true))
kind-cases allow = inl (refl, refl)
kind-cases deny = inr (refl, refl)

-- The bits that an entry may still decide.
unfoldable pub open_bits : ℕ → ℕ → AceEntry → ℕ
open_bits granted denied ace =
    bit_and (expand_generic_rights ace.mask) (not32 (bit_or granted denied))

pub open_bits-IsU32 : (g d : ℕ) (ace : AceEntry) → IsU32 ace.mask → IsU32 (open_bits g d ace)
unfolding open_bits
open_bits-IsU32 g d ace h = bit_and-IsU32 _ (not32 (bit_or g d)) (expand-IsU32 ace.mask h)

pub bit-open_bits :
    (i g d : ℕ) (ace : AceEntry)
    → IsU32 ace.mask
    → bit i (open_bits g d ace)
      ≡ (bit i (expand_generic_rights ace.mask) && not (bit i g || bit i d))
unfolding open_bits
bit-open_bits i g d ace h =
    rw (bit-without i _ (bit_or g d) (expand-IsU32 ace.mask h), bit-or i g d)

-- The Boolean content of one round.
pub head_decides :
    (c : Bool) (ace : AceEntry) (e g d : Bool) (later : Option AceEntry)
    → ((g || ((c && is_allow ace.kind) && (e && not (g || d))))
        || (not (d || ((c && is_deny ace.kind) && (e && not (g || d)))) && allowed later))
      ≡ (g || (not d && allowed (if c && e then some ace else later)))
head_decides c ace e g d later = ground (arith, kind-cases ace.kind)

pub head_refuses :
    (c : Bool) (ace : AceEntry) (e g d : Bool) (later : Option AceEntry)
    → ((d || ((c && is_deny ace.kind) && (e && not (g || d))))
        || (not (g || ((c && is_allow ace.kind) && (e && not (g || d)))) && refused later))
      ≡ (d || (not g && refused (if c && e then some ace else later)))
head_refuses c ace e g d later = ground (arith, kind-cases ace.kind)

-- The bits after a Boolean assignment `if c { w |= x }`.
bit-assign :
    (i : ℕ) (c : Bool) (w x : ℕ) → bit i (if c then bit_or w x else w) ≡ (bit i w || (c && bit i x))
bit-assign i true w x = bit-or i w x
bit-assign i false w x = ground arith

assign-IsU32 : (c : Bool) (w x : ℕ) → IsU32 w → IsU32 x → IsU32 (if c then bit_or w x else w)
assign-IsU32 true w x h k = bit_or-IsU32 w x h k
assign-IsU32 false w x h k = h

bit-granted_from :
    (allows denies : String → Bool) (i : ℕ) (dacl : List AceEntry) (g d : ℕ)
    → AreWords dacl
    → IsU32 g
    → IsU32 d
    → bit i (granted_from allows denies dacl g d)
      ≡ (bit i g || (not (bit i d) && allowed (first_decider (counted allows denies) i dacl)))
unfolding granted_from first_decider
bit-granted_from allows denies i [] g d w hg hd = ground arith
bit-granted_from allows denies i (ace ∷ rest) g d (ha, hr) hg hd =
    let c : Bool = counted allows denies ace in
    let x : ℕ = bit_and (expand_generic_rights ace.mask) (not32 (bit_or g d)) in
    let hx : IsU32 x = unfold open_bits in open_bits-IsU32 g d ace ha in
    let bx : bit i x ≡ (bit i (expand_generic_rights ace.mask) && not (bit i g || bit i d)) =
      unfold open_bits in bit-open_bits i g d ace ha in
    bit-granted_from allows denies i rest (if c && is_allow ace.kind then bit_or g x else g)
      (if c && is_deny ace.kind then bit_or d x else d) hr
      (assign-IsU32 (c && is_allow ace.kind) g x hg hx)
      (assign-IsU32 (c && is_deny ace.kind) d x hd hx)
    ∙ rw (bit-assign i (c && is_allow ace.kind) g x, bit-assign i (c && is_deny ace.kind) d x, bx)
        (head_decides c ace (bit i (expand_generic_rights ace.mask)) (bit i g) (bit i d)
          (first_decider (counted allows denies) i rest))

-- The right `i` is granted by a walk with given matching rules exactly when the first entry that
-- counts and names it is an Allow, for a DACL of 32-bit masks.
pub bit-walk_granted_with :
    (allows denies : String → Bool) (i : ℕ) (dacl : List AceEntry)
    → AreWords dacl
    → bit i (walk_granted_with dacl allows denies)
      ≡ allowed (first_decider (counted allows denies) i dacl)
unfolding walk_granted_with
bit-walk_granted_with allows denies i dacl w =
    bit-granted_from allows denies i dacl 0 0 w (omega arith) (omega arith) ∙ rw (bit-zero i)
