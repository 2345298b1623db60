-- ===== src/Engine/Example/Determinable.antt =====
-- The evaluation of the example can be determined.
use stars_ad_permission_anal.Base.{
  codes_eq, dedup, extend, insert, join, not32, refl, remove, rsplit_once, sort_by, split_count,
  strip_prefix, true, ◌≡◌,
}
use stars_ad_permission_anal.Model.Effective.{
  add_marker, add_markers, effective_determinable, effective_upper_bound, local_group_uncertainty,
  ntfs_uncertainty, ntfs_upper, restrict_upper, share_uncertainty, uncertainty,
}
use stars_ad_permission_anal.Bounds.{
  is_uncertain, logon_dependent_bounds, lower_bound, named_sids, owner_rights_ace, uncertain_sids,
  upper_bound, upper_owner_bits,
}
use stars_ad_permission_anal.Engine.Rights.{
  bounds_input, crypto_operators_uncertain, is_owned_by, keep_uncertain, logon_dependent,
  logon_dependent_groups, match_sids, matched_aces, ntfs_raw, owner_implicit_bits,
  owner_rights_ace_present, remove_all, share_side, token_before, uncertain_owner, user_is_owner,
  user_sids, walk,
}
use stars_ad_permission_anal.Engine.{
  evaluate, finish, first_result, mark_gap, settle, settle_logon, synchronize_gap,
}
use stars_ad_permission_anal.Dacl.{
  ace_applies_to_current_object, ace_matches, collect_matched_aces, contribute, decide,
  granted_from, skip, walk_ace, walk_dacl_stored_order, walk_from, walk_granted_with,
}
use stars_ad_permission_anal.Base.Format.{dec, hex8}
use stars_ad_permission_anal.Mask.{expand_generic_rights, map_generic}
use stars_ad_permission_anal.Dacl.Order.{dacl_order_finding, order_from, order_round}
use stars_ad_permission_anal.Engine.Markers.{
  authentication_marker, boundary_markers, collect_diagnostics, dacl_markers, dfs_marker,
  diagnostics_of, group_text, guest_sids, identity_markers, name_of, remote_uac_markers,
  trusted_markers,
}
use stars_ad_permission_anal.Token.Build.{
  add_context, add_memberships, add_well_knowns, build_token_sids_with_context, collect_user_sids,
}
use stars_ad_permission_anal.Model.History.{
  count_group, count_history, group_sid_history_diagnostics, sid_history_diagnostics,
}
use stars_ad_permission_anal.Token.WellKnown.{
  anonymous_gets_everyone, depends_on_context, domain_and_rid, identity_absent_well_knowns,
  identity_uncertain_well_knowns, is_guest_account, is_logon_dependent_for, is_logon_dependent_sid,
  uncertain_well_knowns_with,
}
use stars_ad_permission_anal.Model.Diagnostic.{uncertain_layer}
use stars_ad_permission_anal.Model.Diagnostic.Summary.{entry_label, gap_label, summary}
use stars_ad_permission_anal.Engine.Rights.{ntfs_raw}
use stars_ad_permission_anal.Engine.Rights.{user_is_owner, is_owned_by}
use stars_ad_permission_anal.Bounds.{owner_rights_ace}
use stars_ad_permission_anal.Engine.Example.{request}

pub request-determinable : effective_determinable (evaluate request) ≡ true
unfolding evaluate bounds_input effective_upper_bound effective_determinable skip join dedup not32
    extend decide remove insert sort_by settle codes_eq walk_ace finish walk_from dec mark_gap
    contribute split_count ace_matches rsplit_once map_generic hex8 named_sids strip_prefix
    granted_from upper_bound walk lower_bound settle_logon is_uncertain first_result order_from
    uncertain_sids synchronize_gap ntfs_raw order_round walk_granted_with name_of upper_owner_bits
    user_sids add_context owner_rights_ace remove_all share_side match_sids collect_matched_aces
    is_owned_by group_text dfs_marker guest_sids count_group token_before add_marker
    expand_generic_rights matched_aces ntfs_upper add_markers uncertainty dacl_markers user_is_owner
    add_well_knowns count_history walk_dacl_stored_order add_memberships keep_uncertain
    collect_user_sids dacl_order_finding logon_dependent uncertain_owner diagnostics_of
    logon_dependent_bounds domain_and_rid trusted_markers restrict_upper identity_markers
    boundary_markers ntfs_uncertainty uncertain_layer summary is_guest_account share_uncertainty
    owner_implicit_bits remote_uac_markers gap_label collect_diagnostics
    ace_applies_to_current_object depends_on_context authentication_marker entry_label
    logon_dependent_groups sid_history_diagnostics is_logon_dependent_for is_logon_dependent_sid
    owner_rights_ace_present local_group_uncertainty anonymous_gets_everyone
    crypto_operators_uncertain build_token_sids_with_context uncertain_well_knowns_with
    group_sid_history_diagnostics identity_absent_well_knowns identity_uncertain_well_knowns
request-determinable = refl
