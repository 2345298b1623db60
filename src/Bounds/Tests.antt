-- ===== src/Bounds/Tests.antt =====
-- The bounds of a DACL that names a logon-dependent trustee.
use stars_ad_permission_anal.Base.{
  false, List, [], ◌∷◌, none, some, ◌≡◌, refl, arith, BitsIn, contains, not32, dedup, sort_by,
}
use stars_ad_permission_anal.Model.{allow, AceEntry, remote_smb}
use stars_ad_permission_anal.Dacl.{ace_applies_to_current_object, walk_granted_with, granted_from}
use stars_ad_permission_anal.Mask.{expand_generic_rights, map_generic}
use stars_ad_permission_anal.Token.WellKnown.{is_logon_dependent_for, is_logon_dependent_sid}
use stars_ad_permission_anal.Dacl.Walk.{AreWords}
use stars_ad_permission_anal.Bounds.{
  BoundsInput, is_uncertain, uncertain_sids, named_sids, upper_owner_bits, lower_bound, upper_bound,
  logon_dependent_bounds,
}
use stars_ad_permission_anal.Bounds.Possible.{rights, IsPossible}
use stars_ad_permission_anal.Bounds.Sound.{bounds_enclose}
use stars_ad_permission_anal.Bounds.Exact.{bounds_exact, shown_rights}
use stars_ad_permission_anal.Base.{◌==◌}
use stars_ad_permission_anal.Bounds.Range.{shown-in-range}

abbrev read_for : AceEntry
read_for = record {
  kind = allow;
  sid = "S-1-5-21-7-8-9-1104";
  mask = 0x0012_0089;
  inherited = false;
  inheritance_flags = 0;
  propagation_flags = 0;
}

-- "Local account": whether the token has it depends on the logon.
abbrev write_for_local : AceEntry
write_for_local = record {
  kind = allow;
  sid = "S-1-5-113";
  mask = 0x0000_0002;
  inherited = false;
  inheritance_flags = 0;
  propagation_flags = 0;
}

abbrev dacl : List AceEntry
dacl = read_for ∷ write_for_local ∷ []

abbrev account : BoundsInput
account = record {
  match_sids = "S-1-5-21-7-8-9-1104" ∷ [];
  context = remote_smb;
  logon_dependent_groups = [];
  deny_only_groups = [];
  owner_implicit_bits = 0;
  uncertain_owner = none;
  uac_filter_certain = false;
}

dacl-AreWords : AreWords dacl
dacl-AreWords = (omega arith, (omega arith, tt))

reported :
    logon_dependent_bounds account dacl
    ≡ some (record { sids = "S-1-5-113" ∷ []; min = 0x0012_0089; max = 0x0012_008b })
unfolding logon_dependent_bounds uncertain_sids is_uncertain ace_applies_to_current_object
    is_logon_dependent_for is_logon_dependent_sid lower_bound upper_bound walk_granted_with
    granted_from expand_generic_rights map_generic not32 dedup sort_by upper_owner_bits named_sids
reported = refl

-- A token that has the trustee.
local_token-IsPossible :
    IsPossible account dacl
      (contains ("S-1-5-21-7-8-9-1104" ∷ "S-1-5-113" ∷ []))
      (contains ("S-1-5-21-7-8-9-1104" ∷ "S-1-5-113" ∷ []))
      0
unfolding is_uncertain upper_owner_bits ace_applies_to_current_object is_logon_dependent_for
    is_logon_dependent_sid
local_token-IsPossible = record {
  entries = (
    (λ _. refl, λ _. refl, λ _ _ _. refl, λ _ _ _. refl),
    ((λ _. refl, λ _. refl, λ _ _ _. refl, λ _ _ _. refl), tt),
  );
  owner_above = λ i h. h;
  owner_below = λ i h. h;
}

bounds_enclose_example :
    BitsIn 0x0012_0089 (
      rights dacl
        (contains ("S-1-5-21-7-8-9-1104" ∷ "S-1-5-113" ∷ []))
        (contains ("S-1-5-21-7-8-9-1104" ∷ "S-1-5-113" ∷ []))
        0)
    × BitsIn
        (rights dacl
          (contains ("S-1-5-21-7-8-9-1104" ∷ "S-1-5-113" ∷ []))
          (contains ("S-1-5-21-7-8-9-1104" ∷ "S-1-5-113" ∷ []))
          0)
        0x0012_008b
bounds_enclose_example =
    bounds_enclose account dacl (contains ("S-1-5-21-7-8-9-1104" ∷ "S-1-5-113" ∷ []))
      (contains ("S-1-5-21-7-8-9-1104" ∷ "S-1-5-113" ∷ [])) 0
      (record { sids = "S-1-5-113" ∷ []; min = 0x0012_0089; max = 0x0012_008b }) dacl-AreWords
      local_token-IsPossible reported

nothing_reported : logon_dependent_bounds account (read_for ∷ []) ≡ none
unfolding logon_dependent_bounds uncertain_sids is_uncertain upper_owner_bits
    ace_applies_to_current_object
nothing_reported = refl

plain_token-IsPossible :
    IsPossible account
      (read_for ∷ [])
      (contains ("S-1-5-21-7-8-9-1104" ∷ "S-1-1-0" ∷ []))
      (contains ("S-1-5-21-7-8-9-1104" ∷ "S-1-1-0" ∷ []))
      0
unfolding upper_owner_bits
plain_token-IsPossible = record {
  entries = ((λ _. refl, λ _. refl, λ _ _ _. refl, λ _ _ _. refl), tt);
  owner_above = λ i h. h;
  owner_below = λ i h. h;
}

bounds_exact_example :
    rights
      (read_for ∷ [])
      (contains ("S-1-5-21-7-8-9-1104" ∷ "S-1-1-0" ∷ []))
      (contains ("S-1-5-21-7-8-9-1104" ∷ "S-1-1-0" ∷ []))
      0
    ≡ shown_rights account (read_for ∷ [])
bounds_exact_example =
    bounds_exact account (read_for ∷ []) (contains ("S-1-5-21-7-8-9-1104" ∷ "S-1-1-0" ∷ []))
      (contains ("S-1-5-21-7-8-9-1104" ∷ "S-1-1-0" ∷ [])) 0 (omega arith, tt) plain_token-IsPossible
      nothing_reported

shown-in-range_example :
    ((0x0012_0089 == 0x0012_008b) ≡ false)
    × BitsIn 0x0012_0089 (shown_rights account dacl)
    × BitsIn (shown_rights account dacl) 0x0012_008b
shown-in-range_example =
    shown-in-range account dacl
      (record { sids = "S-1-5-113" ∷ []; min = 0x0012_0089; max = 0x0012_008b }) dacl-AreWords
      reported
