-- ===== src/Model/Diagnostic.antt =====
-- crates/core/src/model.rs: the diagnostic markers of a result, which part of it each makes
-- uncertain, and how much attention it wants.
pub mod Summary
use stars_ad_permission_anal.Base.{
  ℕ, Bool, true, false, not, ◌||◌, if◌then◌else◌, List, Option, none, some, String, is_empty,
  is_some,
}
use stars_ad_permission_anal.Model.{LinkKind}

pub data SynchronizeGap : Type 0 where
  denied_by_ntfs_ace not_granted_by_ntfs not_granted_by_share : SynchronizeGap

pub data UncertainLayer : Type 0 where
  token ntfs share logon target : UncertainLayer

pub data DiagnosticSeverity : Type 0 where
  neutral notice concern : DiagnosticSeverity

pub data PermissionDiagnostic : Type 0 where
  non_canonical_dacl_order : ℕ → PermissionDiagnostic
  inherited_deny_after_inherited_allow : ℕ → PermissionDiagnostic
  unsupported_share_aces : ℕ → PermissionDiagnostic
  unsupported_ntfs_aces : ℕ → PermissionDiagnostic
  domain_group_recursion_incomplete : PermissionDiagnostic
  identity_disabled : PermissionDiagnostic
  identity_not_in_configured_ldap_base : PermissionDiagnostic
  identity_disabled_status_unknown : PermissionDiagnostic
  identity_lookup_failed : String → PermissionDiagnostic
  group_resolution_failed : String → PermissionDiagnostic
  owner_rights_ace_applied : PermissionDiagnostic
  identity_resolved_via_foreign_security_principal : PermissionDiagnostic
  group_resolution_via_global_catalog : PermissionDiagnostic
  persisted_evidence_decode_failed : String → PermissionDiagnostic
  sid_history_present : ℕ → PermissionDiagnostic
  sid_history_evaluated : ℕ → PermissionDiagnostic
  -- the groups and the count
  group_sid_history_evaluated : ℕ → ℕ → PermissionDiagnostic
  group_sid_history_present : ℕ → PermissionDiagnostic
  trust_boundary_effects_not_modeled : PermissionDiagnostic
  members_via_primary_group_included : ℕ → PermissionDiagnostic
  group_member_enumeration_incomplete : String → PermissionDiagnostic
  universal_group_cross_domain_members_not_visible : PermissionDiagnostic
  identity_not_resolvable : String → PermissionDiagnostic
  -- domain, home-only groups, filtered SIDs
  trusted_domain_account_resolved : String → List String → List String → PermissionDiagnostic
  -- server, via
  selective_authentication_allowed : String → String → PermissionDiagnostic
  selective_authentication_denied : String → PermissionDiagnostic
  -- server, reason, affects_result
  selective_authentication_unknown : String → String → Bool → PermissionDiagnostic
  -- cause, certain
  synchronize_not_granted : SynchronizeGap → Bool → PermissionDiagnostic
  -- requested, target, folder, other_targets, other_targets_known
  dfs_target_evaluated : String → String → Option String → List String → Bool → PermissionDiagnostic
  link_object : LinkKind → String → PermissionDiagnostic
  directory_identity_unknown : String → PermissionDiagnostic
  identity_orphaned : PermissionDiagnostic
  -- sids, min_mask, max_mask
  logon_dependent_trustees : List String → ℕ → ℕ → PermissionDiagnostic
  group_resolution_incomplete : String → PermissionDiagnostic
  non_security_groups_excluded : List String → PermissionDiagnostic
  uac_filtered_groups : List String → PermissionDiagnostic
  guest_or_anonymous_token : List String → PermissionDiagnostic
  -- filtered, reason
  remote_uac_policy : Bool → String → PermissionDiagnostic

-- `condition.then_some(layer)`
abbrev pub then_some : Bool → UncertainLayer → Option UncertainLayer
then_some true layer = some layer
then_some false layer = none

unfoldable pub uncertain_layer : PermissionDiagnostic → Option UncertainLayer
uncertain_layer (unsupported_share_aces _) = some share
uncertain_layer (unsupported_ntfs_aces _) = some ntfs
uncertain_layer (logon_dependent_trustees _ _ _) = some ntfs
uncertain_layer domain_group_recursion_incomplete = some token
uncertain_layer identity_not_in_configured_ldap_base = some token
uncertain_layer (identity_lookup_failed _) = some token
uncertain_layer (group_resolution_failed _) = some token
uncertain_layer identity_resolved_via_foreign_security_principal = some token
uncertain_layer group_resolution_via_global_catalog = some token
uncertain_layer (persisted_evidence_decode_failed _) = some token
uncertain_layer (sid_history_present _) = some token
uncertain_layer (group_sid_history_present _) = some token
uncertain_layer (group_member_enumeration_incomplete _) = some token
uncertain_layer universal_group_cross_domain_members_not_visible = some token
uncertain_layer (identity_not_resolvable _) = some token
uncertain_layer (group_resolution_incomplete _) = some token
uncertain_layer (selective_authentication_unknown _ _ affects_result) =
    then_some affects_result logon
uncertain_layer (dfs_target_evaluated _ _ _ other_targets other_targets_known) =
    then_some (not (is_empty other_targets) || not other_targets_known) target
uncertain_layer (non_canonical_dacl_order _) = none
uncertain_layer (link_object _ _) = none
uncertain_layer (directory_identity_unknown _) = none
uncertain_layer (trusted_domain_account_resolved _ _ _) = none
uncertain_layer (selective_authentication_allowed _ _) = none
uncertain_layer (selective_authentication_denied _) = none
uncertain_layer (synchronize_not_granted _ _) = none
uncertain_layer (inherited_deny_after_inherited_allow _) = none
uncertain_layer identity_disabled = none
uncertain_layer identity_disabled_status_unknown = none
uncertain_layer owner_rights_ace_applied = none
uncertain_layer trust_boundary_effects_not_modeled = none
uncertain_layer (sid_history_evaluated _) = none
uncertain_layer (group_sid_history_evaluated _ _) = none
uncertain_layer (members_via_primary_group_included _) = none
uncertain_layer identity_orphaned = none
uncertain_layer (non_security_groups_excluded _) = none
uncertain_layer (uac_filtered_groups _) = none
uncertain_layer (guest_or_anonymous_token _) = none
uncertain_layer (remote_uac_policy _ _) = none

unfoldable pub is_incompleteness_trigger : PermissionDiagnostic → Bool
unfolding uncertain_layer
is_incompleteness_trigger d = is_some (uncertain_layer d)

unfoldable pub severity : PermissionDiagnostic → DiagnosticSeverity
unfolding uncertain_layer
severity (non_canonical_dacl_order _) = neutral
severity (trusted_domain_account_resolved _ _ _) = neutral
severity (selective_authentication_allowed _ _) = neutral
severity (inherited_deny_after_inherited_allow _) = neutral
severity identity_disabled = neutral
severity identity_disabled_status_unknown = neutral
severity owner_rights_ace_applied = neutral
severity trust_boundary_effects_not_modeled = neutral
severity domain_group_recursion_incomplete = neutral
severity identity_not_in_configured_ldap_base = neutral
severity identity_resolved_via_foreign_security_principal = neutral
severity (members_via_primary_group_included _) = neutral
severity universal_group_cross_domain_members_not_visible = neutral
severity (sid_history_evaluated _) = neutral
severity (group_sid_history_evaluated _ _) = neutral
severity group_resolution_via_global_catalog = neutral
severity identity_orphaned = neutral
severity (non_security_groups_excluded _) = neutral
severity (remote_uac_policy _ _) = neutral
severity (unsupported_share_aces _) = notice
severity (unsupported_ntfs_aces _) = notice
severity (logon_dependent_trustees _ _ _) = notice
severity (uac_filtered_groups _) = notice
severity (guest_or_anonymous_token _) = notice
severity (selective_authentication_denied _) = notice
severity (synchronize_not_granted _ _) = notice
severity (link_object _ _) = notice
severity (directory_identity_unknown _) = notice
severity (sid_history_present _) = concern
severity (group_sid_history_present _) = concern
severity (identity_lookup_failed _) = concern
severity (group_resolution_failed _) = concern
severity (group_member_enumeration_incomplete _) = concern
severity (persisted_evidence_decode_failed _) = concern
severity (identity_not_resolvable _) = concern
severity (group_resolution_incomplete _) = concern
severity (selective_authentication_unknown _ _ affects_result) =
    if affects_result then concern else neutral
severity (dfs_target_evaluated a b c d e) =
    if is_some (uncertain_layer (dfs_target_evaluated a b c d e)) then concern else neutral
