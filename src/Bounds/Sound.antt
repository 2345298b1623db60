-- ===== src/Bounds/Sound.antt =====
-- crates/permission_engine/src/engine.rs: the bounds of `logon_dependent_bounds` against the rights
-- of the possible real tokens.
use stars_ad_permission_anal.Base.{
  ℕ, Bool, List, some, String, All-both, ◌≡◌, ◌∙◌, sym, ap, arith, bit, bit-or, BitsIn,
}
use stars_ad_permission_anal.Model.{AceEntry}
use stars_ad_permission_anal.Dacl.{walk_granted_with}
use stars_ad_permission_anal.Dacl.Walk.{AreWords, bit-walk_granted_with}
use stars_ad_permission_anal.Bounds.{
  LogonDependentBounds, BoundsInput, upper_owner_bits, certain_allow, certain_deny, maybe_allow,
  maybe_deny, upper_bound, lower_bound, logon_dependent_bounds,
}
use stars_ad_permission_anal.Bounds.Possible.{
  MoreGenerous, allowed_mono, rights, IsPossible, uncertain, uncertain-listed,
}

module _ (input : BoundsInput) (dacl : List AceEntry) where
  module _ (allows denies : String → Bool) (owner : ℕ)
      (possible : IsPossible input dacl allows denies owner) where
    above_lower :
        MoreGenerous
          (certain_allow input)
          (maybe_deny input (uncertain input dacl))
          allows
          denies
          dacl
    above_lower =
        All-both dacl
          (λ ace h u applies. (
            λ kind certain. h.0 certain,
            λ kind denied. ground (arith, h.3 applies kind denied, u),
          ))
          possible.entries (uncertain-listed input dacl)

    below_upper :
        MoreGenerous allows denies
          (maybe_allow input (uncertain input dacl))
          (certain_deny input)
          dacl
    below_upper =
        All-both dacl
          (λ ace h u applies. (
            λ kind allowed. ground (arith, h.2 applies kind allowed, u),
            λ kind certain. h.1 certain,
          ))
          possible.entries (uncertain-listed input dacl)

    module _ (words : AreWords dacl) where
      pub lower-in-rights :
          BitsIn (lower_bound input dacl (uncertain input dacl)) (rights dacl allows denies owner)
      unfolding lower_bound
      lower-in-rights i h = ground (
        arith,
        bit-or i
            (walk_granted_with dacl (certain_allow input) (maybe_deny input (uncertain input dacl)))
            input.owner_implicit_bits,
        bit-or i (walk_granted_with dacl allows denies) owner,
        bit-walk_granted_with (certain_allow input) (maybe_deny input (uncertain input dacl)) i dacl
            words,
        bit-walk_granted_with allows denies i dacl words,
        allowed_mono (certain_allow input) (maybe_deny input (uncertain input dacl)) allows denies i
            dacl above_lower,
        possible.owner_above i,
      )

      pub rights-in-upper :
          BitsIn (rights dacl allows denies owner) (upper_bound input dacl (uncertain input dacl))
      unfolding upper_bound
      rights-in-upper i h = ground (
        arith,
        bit-or i
            (walk_granted_with dacl (maybe_allow input (uncertain input dacl)) (certain_deny input))
            (upper_owner_bits input dacl),
        bit-or i (walk_granted_with dacl allows denies) owner,
        bit-walk_granted_with (maybe_allow input (uncertain input dacl)) (certain_deny input) i dacl
            words,
        bit-walk_granted_with allows denies i dacl words,
        allowed_mono allows denies (maybe_allow input (uncertain input dacl)) (certain_deny input) i
            dacl below_upper,
        possible.owner_below i,
      )

-- For a DACL of 32-bit masks and every possible real token: if bounds are reported, the rights that
-- the token has contain the lower bound and lie within the upper bound, bit by bit.
pub bounds_enclose :
    (input : BoundsInput) (dacl : List AceEntry) (allows denies : String → Bool) (owner : ℕ)
    (b : LogonDependentBounds)
    → AreWords dacl
    → IsPossible input dacl allows denies owner
    → logon_dependent_bounds input dacl ≡ some b
    → BitsIn b.min (rights dacl allows denies owner)
      × BitsIn (rights dacl allows denies owner) b.max
unfolding logon_dependent_bounds
bounds_enclose input dacl allows denies owner b words possible e =
    let low : b.min ≡ lower_bound input dacl (uncertain input dacl) = ground arith in
    let high : b.max ≡ upper_bound input dacl (uncertain input dacl) = ground arith in
    (
      λ i h.
          lower-in-rights input dacl allows denies owner possible words i
            (sym (ap (bit i) low) ∙ h),
      λ i h. ap (bit i) high ∙ rights-in-upper input dacl allows denies owner possible words i h,
    )
