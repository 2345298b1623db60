-- ===== src/Bounds/Range.antt =====
-- crates/permission_engine/src/engine.rs: the range that `logon_dependent_bounds` reports, beside the
-- result that is shown.
use stars_ad_permission_anal.Base.{false, ◌==◌, List, some, ◌≡◌, arith, BitsIn}
use stars_ad_permission_anal.Model.{AceEntry}
use stars_ad_permission_anal.Dacl.Walk.{AreWords}
use stars_ad_permission_anal.Bounds.{
  LogonDependentBounds, BoundsInput, certain_allow, certain_deny, logon_dependent_bounds,
}
use stars_ad_permission_anal.Bounds.Sound.{bounds_enclose}
use stars_ad_permission_anal.Bounds.Exact.{shown_rights, shown-IsPossible}

range-differs :
    (input : BoundsInput) (dacl : List AceEntry) (b : LogonDependentBounds)
    → logon_dependent_bounds input dacl ≡ some b
    → (b.min == b.max) ≡ false
unfolding logon_dependent_bounds
range-differs input dacl b e = ground arith

-- For a DACL of 32-bit masks: a range that is reported has two different ends, and the rights that
-- are shown lie between them, bit by bit.
pub shown-in-range :
    (input : BoundsInput) (dacl : List AceEntry) (b : LogonDependentBounds)
    → AreWords dacl
    → logon_dependent_bounds input dacl ≡ some b
    → ((b.min == b.max) ≡ false)
      × BitsIn b.min (shown_rights input dacl)
      × BitsIn (shown_rights input dacl) b.max
shown-in-range input dacl b words e =
    let found =
      bounds_enclose input dacl (certain_allow input) (certain_deny input) input.owner_implicit_bits
        b words (shown-IsPossible input dacl) e in
    (range-differs input dacl b e, found.0, found.1)
