-- ===== src/Engine/Markers.antt =====
-- crates/permission_engine/src/engine.rs: the diagnostic markers that `evaluate` pushes, in order.
use stars_ad_permission_anal.Base.{
  ltb, Bool, true, false, not, ◌&&◌, ◌||◌, if◌then◌else◌, List, [], ◌∷◌, ◌++◌, map, Option, none,
  some, String, str_eq, ◌⊕◌, is_empty, is_some, length,
}
use stars_ad_permission_anal.Model.{
  Sid, AceEntry, IdentityKind, RemoteUacFiltering, filtered, not_filtered, unknown, DfsEvaluation,
}
use stars_ad_permission_anal.Model.Diagnostic.{
  PermissionDiagnostic, non_canonical_dacl_order, inherited_deny_after_inherited_allow,
  unsupported_share_aces, unsupported_ntfs_aces, logon_dependent_trustees,
  domain_group_recursion_incomplete, identity_disabled, identity_not_in_configured_ldap_base,
  identity_disabled_status_unknown, identity_lookup_failed, group_resolution_failed,
  group_resolution_incomplete, uac_filtered_groups, remote_uac_policy, guest_or_anonymous_token,
  non_security_groups_excluded, identity_not_resolvable, identity_orphaned,
  owner_rights_ace_applied, identity_resolved_via_foreign_security_principal,
  group_resolution_via_global_catalog, trust_boundary_effects_not_modeled,
  trusted_domain_account_resolved, dfs_target_evaluated, link_object, directory_identity_unknown,
  selective_authentication_allowed, selective_authentication_denied,
  selective_authentication_unknown,
}
use stars_ad_permission_anal.Model.History.{sid_history_diagnostics, group_sid_history_diagnostics}
use stars_ad_permission_anal.Dacl.Order.{
  DaclOrderFinding, non_canonical, inherited_levels_unknown, dacl_order_finding,
}
use stars_ad_permission_anal.Token.WellKnown.{
  sid_everyone, sid_anonymous_logon, identity_absent_well_knowns, uncertain_well_knowns_with,
}
use stars_ad_permission_anal.Engine.Input.{
  PermissionEvaluationInput, TrustedDomainProvenance, SelectiveAuthenticationCheck,
}
use stars_ad_permission_anal.Engine.Rights.{owner_rights_ace_present, logon_dependent}

abbrev pub Markers : Type 0
Markers = List PermissionDiagnostic

abbrev pub mark_if : Bool → PermissionDiagnostic → Markers
mark_if test marker = if test then marker ∷ [] else []

abbrev pub mark_some {ℓ} : {A : Type ℓ} → Option A → (A → PermissionDiagnostic) → Markers
mark_some none marker = []
mark_some (some a) marker = marker a ∷ []

abbrev pub order_marker : DaclOrderFinding → PermissionDiagnostic
order_marker (non_canonical at) = non_canonical_dacl_order at
order_marker (inherited_levels_unknown at) = inherited_deny_after_inherited_allow at

unfoldable pub collect_diagnostics : List AceEntry → Markers
collect_diagnostics dacl = mark_some (dacl_order_finding dacl) order_marker

-- `sid_names.get(sid)`
unfoldable pub name_of : List (String × String) → String → Option String
name_of [] sid = none
name_of ((k, name) ∷ rest) sid =
    let later = name_of rest sid in if str_eq k sid then some name else later

unfoldable pub group_text : List (String × String) → Sid → String
unfolding name_of
group_text sid_names sid = elim (name_of sid_names sid) [
  | some name ↦ name ⊕ " (" ⊕ sid ⊕ ")"
  | none ↦ sid
]

unfoldable pub remote_uac_markers : RemoteUacFiltering → Markers
remote_uac_markers (filtered reason) = remote_uac_policy true reason ∷ []
remote_uac_markers (not_filtered reason) = remote_uac_policy false reason ∷ []
remote_uac_markers unknown = []

abbrev pub is_some_false : Option Bool → Bool
is_some_false (some false) = true
is_some_false _ = false

unfoldable pub guest_sids : String → Option Bool → List String
guest_sids user_sid anonymous_everyone =
    identity_absent_well_knowns user_sid
    ++ (uncertain_well_knowns_with user_sid anonymous_everyone
        ++ (if str_eq user_sid sid_anonymous_logon && is_some_false anonymous_everyone
            then sid_everyone ∷ []
            else []))

abbrev pub is_orphaned : IdentityKind → Bool
is_orphaned IdentityKind.orphaned = true
is_orphaned _ = false

unfoldable pub trusted_markers : Option TrustedDomainProvenance → Bool → Markers
trusted_markers none checked = []
trusted_markers (some t) checked =
    trusted_domain_account_resolved t.domain t.home_only_groups t.sid_filtered
    ∷ mark_if (t.selective_authentication && not checked) trust_boundary_effects_not_modeled

-- `DfsEvaluation::marker`
unfoldable pub dfs_marker : DfsEvaluation → PermissionDiagnostic
dfs_marker dfs =
    dfs_target_evaluated dfs.requested dfs.target dfs.folder dfs.other_targets
      dfs.other_targets_known

unfoldable pub authentication_marker : SelectiveAuthenticationCheck → PermissionDiagnostic
authentication_marker (SelectiveAuthenticationCheck.allowed server via) =
    selective_authentication_allowed server via
authentication_marker (SelectiveAuthenticationCheck.denied server) =
    selective_authentication_denied server
authentication_marker (SelectiveAuthenticationCheck.unknown server reason) =
    selective_authentication_unknown server reason true

-- The markers about the entries: their order, those not evaluated, and the range that they leave.
unfoldable pub dacl_markers : PermissionEvaluationInput → Markers
dacl_markers input =
    let fso = input.file_system_object in
    (if fso.null_dacl then [] else collect_diagnostics fso.dacl)
    ++ (mark_if (ltb 0 input.unsupported_share_ace_count)
          (unsupported_share_aces input.unsupported_share_ace_count)
        ++ (mark_if (ltb 0 (length fso.unsupported_aces))
              (unsupported_ntfs_aces (length fso.unsupported_aces))
            ++ mark_some (logon_dependent input)
                (λ b. logon_dependent_trustees b.sids b.min b.max)))

-- The markers about the identity and its groups, up to the historical SIDs.
unfoldable pub identity_markers : PermissionEvaluationInput → Markers
identity_markers input =
    let res = input.resolution in
    let guests = guest_sids input.identity.sid input.anonymous_everyone in
    mark_if res.group_resolution_via_sam_fallback domain_group_recursion_incomplete
    ++ (mark_if input.identity.disabled identity_disabled
        ++ (mark_if res.identity_not_in_configured_ldap_base identity_not_in_configured_ldap_base
            ++ (mark_if res.identity_disabled_status_unknown identity_disabled_status_unknown
                ++ (mark_some res.identity_lookup_failure_reason identity_lookup_failed
                    ++ (mark_some res.group_resolution_failure_reason group_resolution_failed
                        ++ (map group_resolution_incomplete res.group_resolution_gaps
                            ++ (mark_if (not (is_empty input.uac_filtered_group_sids)) (
                                  uac_filtered_groups (
                                    map (group_text input.sid_names) input.uac_filtered_group_sids))
                                ++ (remote_uac_markers input.remote_uac
                                    ++ (mark_if (not (is_empty guests))
                                          (guest_or_anonymous_token guests)
                                        ++ (mark_if
                                              (not (is_empty res.excluded_non_security_groups))
                                              (non_security_groups_excluded
                                                res.excluded_non_security_groups)
                                            ++ (mark_some res.identity_unresolvable_reason
                                                  identity_not_resolvable
                                                ++ (mark_if (is_orphaned input.identity.kind)
                                                      identity_orphaned
                                                    ++ (mark_if (owner_rights_ace_present input)
                                                          owner_rights_ace_applied
                                                        ++ (mark_if res.identity_resolved_via_fsp
                                                            identity_resolved_via_foreign_security_principal
                                                            ++ (mark_if
                                                            res.group_resolution_via_global_catalog
                                                            group_resolution_via_global_catalog
                                                            ++ sid_history_diagnostics
                                                            input.identity)))))))))))))))

-- The markers from the groups' historical SIDs on.
unfoldable pub boundary_markers : PermissionEvaluationInput → Markers
boundary_markers input =
    let fso = input.file_system_object in
    let res = input.resolution in
    group_sid_history_diagnostics input.group_memberships
    ++ (mark_if (res.identity_resolved_via_fsp || res.identity_not_in_configured_ldap_base)
          trust_boundary_effects_not_modeled
        ++ (trusted_markers res.trusted_domain (is_some input.selective_authentication)
            ++ (mark_some input.dfs dfs_marker
                ++ (mark_some fso.link (λ link. link_object link.kind link.target)
                    ++ (mark_some fso.identity_unknown directory_identity_unknown
                        ++ mark_some input.selective_authentication authentication_marker)))))

unfoldable pub diagnostics_of : PermissionEvaluationInput → Markers
diagnostics_of input = dacl_markers input ++ (identity_markers input ++ boundary_markers input)
