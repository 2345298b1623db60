-- ===== src/Bounds/Possible.antt =====
-- crates/permission_engine/src/engine.rs: the real tokens that the arguments of
-- `logon_dependent_bounds` leave possible, and the rules by which two tokens match a DACL.
use stars_ad_permission_anal.Base.{
  ℕ, Bool, true, ◌||◌, bit_or, List, [], ◌∷◌, String, str_eq, str_eq_iff, str_le, any, sort_by,
  dedup, All-mono, ◌≡◌, ◌∙◌, ap, arith, inl, inr, Bool-cases, BitsIn, All, any-sort_by, any-dedup,
}
use stars_ad_permission_anal.Model.{AceEntry}
use stars_ad_permission_anal.Dacl.{
  is_allow, is_deny, ace_applies_to_current_object, walk_granted_with,
}
use stars_ad_permission_anal.Dacl.Decision.{first_decider, allowed}
use stars_ad_permission_anal.Dacl.Walk.{counted, kind-cases}
use stars_ad_permission_anal.Bounds.{
  BoundsInput, is_uncertain, uncertain_sids, upper_owner_bits, certain_allow, certain_deny,
}

-- On the entries of the list, the second pair of rules allows more and refuses less.
abbrev pub MoreGenerous :
    (String → Bool) → (String → Bool) → (String → Bool) → (String → Bool) → List AceEntry → Type 0
MoreGenerous a d a' d' dacl =
    All
      (λ ace.
        ace_applies_to_current_object ace ≡ true
        → (is_allow ace.kind ≡ true → a ace.sid ≡ true → a' ace.sid ≡ true)
          × (is_deny ace.kind ≡ true → d' ace.sid ≡ true → d ace.sid ≡ true))
      dacl

-- Then it grants every right that the first grants.
pub allowed_mono :
    (a d a' d' : String → Bool) (i : ℕ) (dacl : List AceEntry)
    → MoreGenerous a d a' d' dacl
    → allowed (first_decider (counted a d) i dacl) ≡ true
    → allowed (first_decider (counted a' d') i dacl) ≡ true
unfolding first_decider
allowed_mono a d a' d' i [] h e = e
allowed_mono a d a' d' i (ace ∷ rest) (h, hs) e =
    ground (arith, h, kind-cases ace.kind, allowed_mono a d a' d' i rest hs)

-- The rights of a token that Allow and Deny entries match by these rules, with its owner bits.
abbrev pub rights : List AceEntry → (String → Bool) → (String → Bool) → ℕ → ℕ
rights dacl allows denies owner = bit_or (walk_granted_with dacl allows denies) owner

-- What may be true of the real token, entry by entry: the certain trustees are in it, and a trustee
-- that is in it is certain or uncertain. The owner bits lie between the certain and the upper ones.
pub record IsPossible (input : BoundsInput) (dacl : List AceEntry) (allows denies : String → Bool)
    (owner : ℕ) : Type 0 where
  pub entries :
      All
        (λ ace.
          (certain_allow input ace.sid ≡ true → allows ace.sid ≡ true)
          × (certain_deny input ace.sid ≡ true → denies ace.sid ≡ true)
          × (ace_applies_to_current_object ace ≡ true
              → is_allow ace.kind ≡ true
              → allows ace.sid ≡ true
              → (certain_allow input ace.sid || is_uncertain input ace) ≡ true)
          × (ace_applies_to_current_object ace ≡ true
              → is_deny ace.kind ≡ true
              → denies ace.sid ≡ true
              → (certain_deny input ace.sid || is_uncertain input ace) ≡ true))
        dacl
  pub owner_above : BitsIn input.owner_implicit_bits owner
  pub owner_below : BitsIn owner (upper_owner_bits input dacl)

abbrev pub names : String → List String → Bool
names sid l = any (λ u. str_eq u sid) l

str_eq_congr : (s t u : String) → str_eq s t ≡ true → str_eq s u ≡ str_eq t u
str_eq_congr s t u e = ap (λ (x : String). str_eq x u) ((str_eq_iff s t).0 e)

-- Sorting and dropping copies changes no membership.
pub names-sorted :
    (sid : String) (l : List String) → names sid (dedup str_eq (sort_by str_le l)) ≡ names sid l
names-sorted sid l =
    any-dedup (λ u. str_eq u sid) str_eq (λ s t e. str_eq_congr s t sid e) (sort_by str_le l)
    ∙ any-sort_by (λ u. str_eq u sid) str_le l

-- Every uncertain entry's trustee is in the list.
uncertain-named :
    (input : BoundsInput) (dacl : List AceEntry)
    → All
        (λ ace. is_uncertain input ace ≡ true → names ace.sid (uncertain_sids input dacl) ≡ true)
        dacl
unfolding uncertain_sids
uncertain-named input [] = tt
uncertain-named input (ace ∷ rest) = (
  λ u. rw u (ground (arith, str_eq_iff ace.sid ace.sid)),
  All-mono rest
      (λ other h u. elim (Bool-cases (is_uncertain input ace)) [
        | inl yes' ↦ rw yes' (ground (arith, h u))
        | inr no' ↦ rw no' (h u)
      ])
      (uncertain-named input rest),
)

module _ (input : BoundsInput) (dacl : List AceEntry) where
  abbrev pub uncertain : List String
  uncertain = dedup str_eq (sort_by str_le (uncertain_sids input dacl))

  pub uncertain-listed :
      All (λ ace. is_uncertain input ace ≡ true → names ace.sid uncertain ≡ true) dacl
  uncertain-listed =
      All-mono dacl (λ ace h u. names-sorted ace.sid (uncertain_sids input dacl) ∙ h u)
        (uncertain-named input dacl)
