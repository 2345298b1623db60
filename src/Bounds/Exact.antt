-- ===== src/Bounds/Exact.antt =====
-- crates/permission_engine/src/engine.rs: `logon_dependent_bounds` where it reports nothing, against
-- the result that is shown.
use stars_ad_permission_anal.Base.{
  ℕ, Bool, true, false, ◌&&◌, ◌==◌, bit_or, List, [], ◌∷◌, none, String, is_empty, All-intro,
  BitsIn-antisym, is_empty, ◌≡◌, refl, ◌∙◌, ap, arith, inl, inr, Bool-cases, bit, bit-or, BitsIn,
}
use stars_ad_permission_anal.Model.{AceEntry}
use stars_ad_permission_anal.Mask.{file_read_control, file_write_dac}
use stars_ad_permission_anal.Dacl.{walk_granted_with}
use stars_ad_permission_anal.Dacl.Walk.{AreWords, bit-walk_granted_with}
use stars_ad_permission_anal.Bounds.{
  BoundsInput, uncertain_sids, upper_owner_bits, certain_allow, certain_deny, maybe_allow,
  maybe_deny, upper_bound, lower_bound, logon_dependent_bounds,
}
use stars_ad_permission_anal.Bounds.Possible.{
  MoreGenerous, allowed_mono, rights, IsPossible, names, names-sorted, uncertain,
}
use stars_ad_permission_anal.Bounds.Sound.{lower-in-rights, rights-in-upper}

-- The result that is shown: only the certain trustees count.
abbrev pub shown_rights : BoundsInput → List AceEntry → ℕ
shown_rights input dacl =
    rights dacl (certain_allow input) (certain_deny input) input.owner_implicit_bits

implicit-in-upper :
    (input : BoundsInput) (dacl : List AceEntry)
    → BitsIn input.owner_implicit_bits (upper_owner_bits input dacl)
unfolding upper_owner_bits
implicit-in-upper input dacl i h = ground (
  arith,
  bit-or i (bit_or input.owner_implicit_bits file_read_control) file_write_dac,
  bit-or i input.owner_implicit_bits file_read_control,
)

-- The shown result is itself possible.
pub shown-IsPossible :
    (input : BoundsInput) (dacl : List AceEntry)
    → IsPossible input dacl (certain_allow input) (certain_deny input) input.owner_implicit_bits
shown-IsPossible input dacl = record {
  entries =
      All-intro dacl
        (λ ace. (λ h. h, λ h. h, λ applies kind h. ground arith, λ applies kind h. ground arith));
  owner_above = λ i h. h;
  owner_below = implicit-in-upper input dacl;
}

nothing-named : (sid : String) (l : List String) → is_empty l ≡ true → names sid l ≡ false
nothing-named sid [] e = refl
nothing-named sid (x ∷ l) e = cc

module _ (input : BoundsInput) (dacl : List AceEntry) (words : AreWords dacl) where
  -- With no uncertain trustee and no uncertain owner grant both bounds are the same walk.
  upper-in-lower :
      is_empty (uncertain_sids input dacl) ≡ true
      → upper_owner_bits input dacl ≡ input.owner_implicit_bits
      → BitsIn
          (upper_bound input dacl (uncertain input dacl))
          (lower_bound input dacl (uncertain input dacl))
  unfolding upper_bound lower_bound
  upper-in-lower e o i h = ground (
    arith,
    bit-or i (walk_granted_with dacl (maybe_allow input list) (certain_deny input))
        (upper_owner_bits input dacl),
    bit-or i (walk_granted_with dacl (certain_allow input) (maybe_deny input list))
        input.owner_implicit_bits,
    bit-walk_granted_with (maybe_allow input list) (certain_deny input) i dacl words,
    bit-walk_granted_with (certain_allow input) (maybe_deny input list) i dacl words,
    allowed_mono (maybe_allow input list) (certain_deny input) (certain_allow input)
        (maybe_deny input list) i dacl same_rules,
    ap (bit i) o,
  )
    where
      list : List String
      list = uncertain input dacl

      absent : (sid : String) → names sid list ≡ false
      absent sid =
          names-sorted sid (uncertain_sids input dacl)
          ∙ nothing-named sid (uncertain_sids input dacl) e

      same_rules :
          MoreGenerous
            (maybe_allow input list)
            (certain_deny input)
            (certain_allow input)
            (maybe_deny input list)
            dacl
      same_rules = All-intro dacl (λ ace applies.
          (λ kind h. ground (arith, absent ace.sid), λ kind h. ground (arith, absent ace.sid)))

  -- Without bounds the lower and the upper walk agree.
  no_bounds :
      logon_dependent_bounds input dacl ≡ none
      → BitsIn
          (upper_bound input dacl (uncertain input dacl))
          (lower_bound input dacl (uncertain input dacl))
  unfolding logon_dependent_bounds
  no_bounds e =
      elim (Bool-cases (
        is_empty (uncertain_sids input dacl)
        && upper_owner_bits input dacl == input.owner_implicit_bits)) [
          | inl both ↦ upper-in-lower (ground arith) (ground arith)
          | inr some_left ↦
              let same : lower_bound input dacl (uncertain input dacl)
                  ≡ upper_bound input dacl (uncertain input dacl) =
                ground arith in
              λ i h. ap (bit i) same ∙ h
        ]

  -- Without bounds every possible result is the shown one.
  exact_rights :
      (allows denies : String → Bool) (owner : ℕ)
      → IsPossible input dacl allows denies owner
      → logon_dependent_bounds input dacl ≡ none
      → rights dacl allows denies owner ≡ shown_rights input dacl
  exact_rights allows denies owner possible e =
      let low = lower-in-rights input dacl allows denies owner possible words in
      let high = rights-in-upper input dacl allows denies owner possible words in
      let sure = shown-IsPossible input dacl in
      let low' = lower-in-rights input dacl _ _ _ sure words in
      let high' = rights-in-upper input dacl _ _ _ sure words in
      BitsIn-antisym _ _ (λ i h. low' i (no_bounds e i (high i h)))
        (λ i h. low i (no_bounds e i (high' i h)))

-- For a DACL of 32-bit masks: if no bounds are reported, every possible real token has exactly the
-- rights that are shown.
pub bounds_exact :
    (input : BoundsInput) (dacl : List AceEntry) (allows denies : String → Bool) (owner : ℕ)
    → AreWords dacl
    → IsPossible input dacl allows denies owner
    → logon_dependent_bounds input dacl ≡ none
    → rights dacl allows denies owner ≡ shown_rights input dacl
bounds_exact input dacl allows denies owner words possible e =
    exact_rights input dacl words allows denies owner possible e
