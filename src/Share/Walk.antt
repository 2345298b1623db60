-- ===== src/Share/Walk.antt =====
-- crates/share_scanner/src/scanner.rs: the share walk beside the walk of the permission engine.
use stars_ad_permission_anal.Base.{
  ℕ, Bool, false, List, [], ◌∷◌, String, map, filter, ◌≡◌, refl, arith, none,
}
use stars_ad_permission_anal.Model.{AccessContext, AceEntry}
use stars_ad_permission_anal.Dacl.{ace_applies_to_current_object, granted_from, walk_granted_with}
use stars_ad_permission_anal.Bounds.{BoundsInput, is_uncertain, uncertain_sids}
use stars_ad_permission_anal.Share.{
  SharePermission, ShareToken, share_from, share_walk, is_uncertain_share,
}

-- The entry of a folder that says the same.
abbrev pub as_ace : SharePermission → AceEntry
as_ace p = record {
  kind = p.kind;
  sid = p.sid;
  mask = p.mask;
  inherited = false;
  inheritance_flags = 0;
  propagation_flags = 0;
}

-- What the bounds of the permission engine would be asked for the token.
abbrev pub as_bounds : ShareToken → AccessContext → BoundsInput
as_bounds token context = record {
  match_sids = token.enabled;
  context = context;
  logon_dependent_groups = token.uncertain;
  deny_only_groups = token.deny_only;
  owner_implicit_bits = 0;
  uncertain_owner = none;
  uac_filter_certain = token.deny_only_certain;
}

share_from-as_ace :
    (allows denies : String → Bool) (perms : List SharePermission) (g d : ℕ)
    → share_from allows denies perms g d ≡ granted_from allows denies (map as_ace perms) g d
unfolding share_from granted_from ace_applies_to_current_object
share_from-as_ace allows denies [] g d = refl
share_from-as_ace allows denies (p ∷ perms) g d = share_from-as_ace allows denies perms _ _

-- The share walk is the walk of the permission engine over the same entries.
pub share_walk-as_ace :
    (perms : List SharePermission) (allows denies : String → Bool)
    → share_walk perms allows denies ≡ walk_granted_with (map as_ace perms) allows denies
unfolding share_walk walk_granted_with
share_walk-as_ace perms allows denies = share_from-as_ace allows denies perms 0 0

uncertain-as_ace :
    (token : ShareToken) (context : AccessContext) (p : SharePermission)
    → is_uncertain (as_bounds token context) (as_ace p) ≡ is_uncertain_share token context p
unfolding is_uncertain is_uncertain_share ace_applies_to_current_object
uncertain-as_ace token context p = ground arith

pub uncertain_sids-as_ace :
    (token : ShareToken) (context : AccessContext) (perms : List SharePermission)
    → uncertain_sids (as_bounds token context) (map as_ace perms)
      ≡ map (λ p. p.sid) (filter (is_uncertain_share token context) perms)
unfolding uncertain_sids
uncertain_sids-as_ace token context [] = refl
uncertain_sids-as_ace token context (p ∷ perms) =
    ground (arith, uncertain-as_ace token context p, uncertain_sids-as_ace token context perms)
