-- ===== src/Risk/Tests.antt =====
-- The rules on an evaluation of an account with Full Control.
use stars_ad_permission_anal.Base.{
  [], any, ap, arith, codes_eq, extend, if◌then◌else◌, insert, not32, refl, remove, rsplit_once,
  split_count, strip_prefix, true, ◌+◌, ◌∷◌, ◌≡◌,
}
use stars_ad_permission_anal.Model.{AceEntry, ShareMaskStatus}
use stars_ad_permission_anal.Model.Effective.{effective_upper_bound}
use stars_ad_permission_anal.Mask.{expand_generic_rights, map_generic, mask_full_control}
use stars_ad_permission_anal.Bounds.{certain_allow, certain_deny, owner_rights_ace}
use stars_ad_permission_anal.Bounds.Exact.{shown-IsPossible}
use stars_ad_permission_anal.Engine.Input.{PermissionEvaluationInput}
use stars_ad_permission_anal.Engine.Rights.{
  bounds_input, crypto_operators_uncertain, is_owned_by, keep_uncertain, logon_dependent_groups,
  match_sids, owner_implicit_bits, owner_rights_ace_present, remove_all, token_before,
  uncertain_owner, user_is_owner, user_sids,
}
use stars_ad_permission_anal.Engine.Example.{modify_entry, folder, request}
use stars_ad_permission_anal.Engine.{evaluate}
use stars_ad_permission_anal.Risk.{holds_all, holds_some, content_write_bits}
use stars_ad_permission_anal.Risk.Rules.{full_control, write_access}
use stars_ad_permission_anal.Risk.Registry.{
  accumulator, add_all, finish, with_defaults, evaluate_all,
}
use stars_ad_permission_anal.Risk.Streaming.{finish-with_defaults}
use stars_ad_permission_anal.Risk.Complete.{count, is_about, write_ids, report, write_findings}
use stars_ad_permission_anal.Risk.Sound.{real, full_control-reported, content_write-reported}
use stars_ad_permission_anal.Dacl.{ace_applies_to_current_object, granted_from, walk_granted_with}
use stars_ad_permission_anal.Token.Build.{
  add_context, add_memberships, add_well_knowns, build_token_sids_with_context, collect_user_sids,
}
use stars_ad_permission_anal.Token.WellKnown.{
  anonymous_gets_everyone, domain_and_rid, identity_absent_well_knowns,
  identity_uncertain_well_knowns, is_guest_account, uncertain_well_knowns_with,
}

abbrev full_entry : AceEntry
full_entry = record modify_entry { mask = mask_full_control }

-- The account has Full Control, and no share stands in between.
abbrev full_request : PermissionEvaluationInput
full_request = record request {
  file_system_object = record folder { dacl = full_entry ∷ [] };
  share_status = ShareMaskStatus.not_applicable;
}

full_request-real :
    real full_request
      (certain_allow (bounds_input full_request))
      (certain_deny (bounds_input full_request))
      (bounds_input full_request).owner_implicit_bits
    ≡ mask_full_control
unfolding bounds_input not32 extend remove insert codes_eq rsplit_once map_generic split_count
    granted_from strip_prefix walk_granted_with user_sids add_context owner_rights_ace match_sids
    remove_all is_owned_by token_before expand_generic_rights add_well_knowns add_memberships
    user_is_owner keep_uncertain uncertain_owner collect_user_sids domain_and_rid is_guest_account
    owner_implicit_bits ace_applies_to_current_object logon_dependent_groups
    owner_rights_ace_present anonymous_gets_everyone crypto_operators_uncertain
    build_token_sids_with_context uncertain_well_knowns_with identity_absent_well_knowns
    identity_uncertain_well_knowns
full_request-real = refl

full_control-reported_example :
    any
      (is_about ("FULL_CONTROL" ∷ []) (evaluate full_request))
      (report (λ s. s) [] [] (evaluate full_request))
    ≡ true
full_control-reported_example =
    full_control-reported (λ s. s) [] [] full_request (certain_allow (bounds_input full_request))
      (certain_deny (bounds_input full_request)) (bounds_input full_request).owner_implicit_bits
      refl (omega arith, tt) (shown-IsPossible (bounds_input full_request) (full_entry ∷ [])) refl
      (ap (λ m. holds_all m mask_full_control) full_request-real)

content_write-reported_example :
    any
      (is_about write_ids (evaluate full_request))
      (report (λ s. s) (evaluate request ∷ []) [] (evaluate full_request))
    ≡ true
content_write-reported_example =
    content_write-reported (λ s. s) (evaluate request ∷ []) [] full_request
      (certain_allow (bounds_input full_request)) (certain_deny (bounds_input full_request))
      (bounds_input full_request).owner_implicit_bits refl (omega arith, tt)
      (shown-IsPossible (bounds_input full_request) (full_entry ∷ [])) refl
      (ap (λ m. holds_some m content_write_bits) full_request-real)

write_findings_example :
    count (full_control (evaluate full_request)) + count (write_access (evaluate full_request)) ≡ (
      if holds_some (effective_upper_bound (evaluate full_request)) content_write_bits
      then 1
      else 0)
write_findings_example = write_findings (evaluate full_request)

finish-with_defaults_example :
    finish (
      add_all
        (accumulator (with_defaults (λ s. s)))
        (evaluate full_request ∷ evaluate request ∷ []))
    ≡ evaluate_all (with_defaults (λ s. s)) (evaluate full_request ∷ evaluate request ∷ [])
finish-with_defaults_example =
    finish-with_defaults (λ s. s) (evaluate full_request ∷ evaluate request ∷ [])
