-- ===== src/Share/Whole/Tests.antt =====
-- An administrator's folder behind a share that grants Read.
use stars_ad_permission_anal.Base.{true, [], ◌∷◌, some, map, ◌≡◌, refl, arith, not32}
use stars_ad_permission_anal.Model.{allow, remote_smb}
use stars_ad_permission_anal.Mask.{expand_generic_rights, map_generic}
use stars_ad_permission_anal.Dacl.{ace_applies_to_current_object}
use stars_ad_permission_anal.Token.WellKnown.{is_logon_dependent_for, is_logon_dependent_sid}
use stars_ad_permission_anal.Bounds.{is_uncertain, upper_owner_bits}
use stars_ad_permission_anal.Bounds.Possible.{IsPossible}
use stars_ad_permission_anal.Share.{
  SharePermission, share_from, share_walk, is_uncertain_share, evaluate_share_dacl,
}
use stars_ad_permission_anal.Share.Walk.{as_ace, as_bounds}
use stars_ad_permission_anal.Share.Read.{RawAcl, ShareInfo, parse_share_dacl, get_share_dacl}
use stars_ad_permission_anal.Share.Resolve.{ShareUser, token_of, resolve_share_mask_status}
use stars_ad_permission_anal.Paths.{resolve, parse_unc_components}
use stars_ad_permission_anal.Bounds.{certain_allow, certain_deny}
use stars_ad_permission_anal.Bounds.Exact.{shown-IsPossible}
use stars_ad_permission_anal.Base.{extend, insert}
use stars_ad_permission_anal.Token.WellKnown.{
  identity_uncertain_well_knowns, identity_absent_well_knowns, is_guest_account,
}
use stars_ad_permission_anal.Token.Build.{
  build_token_sids_with_context, add_context, add_well_knowns, add_memberships,
}
use stars_ad_permission_anal.Base.{Bool, ℕ, String, ok, none, false}
use stars_ad_permission_anal.Engine.Example.{modify_entry, request}
use stars_ad_permission_anal.Engine.Example.Determinable.{request-determinable}
use stars_ad_permission_anal.Engine.Rights.{
  bounds_input, match_sids, user_sids, token_before, remove_all, user_is_owner, is_owned_by,
}
use stars_ad_permission_anal.Engine.{evaluate}
use stars_ad_permission_anal.Base.{bit_and, remove}
use stars_ad_permission_anal.Token.Build.{collect_user_sids}
use stars_ad_permission_anal.Token.WellKnown.{anonymous_gets_everyone}
use stars_ad_permission_anal.Bounds.Possible.{rights}
use stars_ad_permission_anal.Share.Whole.{evaluate-through_share}

abbrev read_entry : SharePermission
read_entry = record {
  share_name = "files";
  sid = "S-1-5-21-7-8-9-1104";
  mask = 0x0012_00a9;
  kind = allow;
}

abbrev raw : RawAcl
raw = record {
  ace_count = ok 1;
  get_ace = λ i. some (record { ace_type = 0; mask = 0x0012_00a9; sid = ok "S-1-5-21-7-8-9-1104" });
}

abbrev net : String → String → ShareInfo
net server share_name = record { status = 0; buffer = some (some (ok (true, some raw))) }

abbrev user : ShareUser
user = record {
  user_sid = "S-1-5-21-7-8-9-1104";
  sid_history = [];
  memberships = [];
  local_group_sids = [];
  logon_dependent_group_sids = [];
  uac_filtered_group_sids = [];
  uac_filter_certain = false;
  anonymous_everyone = none;
}

abbrev none_unsupported : ℕ
none_unsupported = 0

taken :
    (request.share_status, request.unsupported_share_ace_count)
    ≡ resolve_share_mask_status net "\\\\fs01\\files" none none user remote_smb
unfolding resolve_share_mask_status resolve parse_unc_components token_of get_share_dacl
    parse_share_dacl evaluate_share_dacl share_walk share_from is_uncertain_share
    is_logon_dependent_for is_logon_dependent_sid expand_generic_rights map_generic not32 extend
    insert identity_uncertain_well_knowns identity_absent_well_knowns is_guest_account
    build_token_sids_with_context add_context add_well_knowns add_memberships
taken = refl

abbrev allows : String → Bool
allows = certain_allow (bounds_input request)

abbrev denies : String → Bool
denies = certain_deny (bounds_input request)

share-IsPossible :
    IsPossible
      (as_bounds (token_of user remote_smb) remote_smb)
      (map as_ace (read_entry ∷ []))
      allows
      denies
      0
unfolding is_uncertain upper_owner_bits ace_applies_to_current_object is_logon_dependent_for
    is_logon_dependent_sid token_of build_token_sids_with_context add_context add_well_knowns
    add_memberships insert extend identity_uncertain_well_knowns identity_absent_well_knowns
    is_guest_account bounds_input match_sids user_sids token_before remove_all user_is_owner
    is_owned_by collect_user_sids remove anonymous_gets_everyone
share-IsPossible = record {
  entries = ((λ _. refl, λ _. refl, λ _ _ _. refl, λ _ _ _. refl), tt);
  owner_above = λ i h. h;
  owner_below = λ i h. h;
}

evaluate-through_share_example :
    (evaluate request).effective_mask
    ≡ bit_and
        (rights (modify_entry ∷ []) allows denies (bounds_input request).owner_implicit_bits)
        (share_walk (read_entry ∷ []) allows denies)
unfolding resolve parse_unc_components get_share_dacl
evaluate-through_share_example =
    evaluate-through_share net "\\\\fs01\\files" none none user
      (record { server = "fs01"; share = "files" }) (read_entry ∷ []) none_unsupported request
      allows denies (bounds_input request).owner_implicit_bits refl refl taken (omega arith, tt)
      share-IsPossible refl (omega arith, tt)
      (shown-IsPossible (bounds_input request) (modify_entry ∷ [])) refl request-determinable
