-- ===== src/Dacl/Tests.antt =====
-- The walk on a DACL with an explicit Deny before two Allow entries.
use stars_ad_permission_anal.Base.{
  true, false, List, [], ◌∷◌, ◌≡◌, arith, bit, contains, SidSet, some, map, ◌||◌,
}
use stars_ad_permission_anal.Model.{allow, deny, AceEntry}
use stars_ad_permission_anal.Dacl.Walk.{AreWords}
use stars_ad_permission_anal.Dacl.Decision.{
  first_decider, allowed, refused, allowed_by, decider_marks,
}
use stars_ad_permission_anal.Dacl.StoredOrder.{matching, contributed}
use stars_ad_permission_anal.Dacl.Correct.{walk_decides, walk_contributions, walk_provenance}
use stars_ad_permission_anal.Dacl.Agree.{walk_agrees}
use stars_ad_permission_anal.Dacl.Order.{dacl_order_finding, non_canonical, first_break, classify}
use stars_ad_permission_anal.Dacl.Order.Canonical.{finding_classifies}
use stars_ad_permission_anal.Dacl.{walk_dacl_stored_order, walk_granted_with}

abbrev deny_write : AceEntry
deny_write = record {
  kind = deny;
  sid = "S-1-5-21-7-8-9-1104";
  mask = 0x0000_0002;
  inherited = false;
  inheritance_flags = 3;
  propagation_flags = 0;
}

abbrev allow_all : AceEntry
allow_all = record {
  kind = allow;
  sid = "S-1-5-32-545";
  mask = 0x1000_0000;
  inherited = false;
  inheritance_flags = 3;
  propagation_flags = 0;
}

abbrev allow_read_inherited : AceEntry
allow_read_inherited = record {
  kind = allow;
  sid = "S-1-1-0";
  mask = 0x0012_0089;
  inherited = true;
  inheritance_flags = 3;
  propagation_flags = 0;
}

abbrev three_aces : List AceEntry
three_aces = deny_write ∷ allow_all ∷ allow_read_inherited ∷ []

abbrev out_of_order : List AceEntry
out_of_order = allow_read_inherited ∷ deny_write ∷ []

abbrev token : SidSet
token = "S-1-5-21-7-8-9-1104" ∷ "S-1-1-0" ∷ "S-1-5-32-545" ∷ []

three_aces-AreWords : AreWords three_aces
three_aces-AreWords = (omega arith, (omega arith, (omega arith, tt)))

walk_decides_example :
    (bit 1 (walk_dacl_stored_order three_aces token []).granted
      ≡ allowed (first_decider (matching token []) 1 three_aces))
    × (bit 1 (walk_dacl_stored_order three_aces token []).denied
        ≡ refused (first_decider (matching token []) 1 three_aces))
walk_decides_example = walk_decides three_aces token [] 1 three_aces-AreWords

walk_contributions_example :
    bit 0 (contributed "S-1-5-32-545" (walk_dacl_stored_order three_aces token []).contributions)
    ≡ allowed_by "S-1-5-32-545" (first_decider (matching token []) 0 three_aces)
walk_contributions_example =
    walk_contributions three_aces token [] 0 "S-1-5-32-545" three_aces-AreWords

walk_provenance_example :
    map (bit 1) (walk_dacl_stored_order three_aces token []).decided_per_ace
    ≡ decider_marks (matching token []) 1 three_aces
walk_provenance_example = walk_provenance three_aces token [] 1 three_aces-AreWords

walk_agrees_example :
    (walk_dacl_stored_order three_aces token []).granted
    ≡ walk_granted_with three_aces (contains token) (λ s. contains token s || contains [] s)
walk_agrees_example = walk_agrees three_aces token [] three_aces-AreWords

finding_classifies_example : dacl_order_finding out_of_order ≡ some (non_canonical 1)
unfolding first_break classify
finding_classifies_example = finding_classifies out_of_order
