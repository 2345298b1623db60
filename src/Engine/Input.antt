-- ===== src/Engine/Input.antt =====
-- crates/core/src/traits.rs: what an evaluation is given. The share trace and the detail of the
-- membership list serve the explanation alone and are left out.
use stars_ad_permission_anal.Base.{ℕ, Bool, List, Option, String}
use stars_ad_permission_anal.Model.{
  Sid, Identity, GroupMembership, FileSystemObject, ShareMaskStatus, LocalGroupEvalStatus,
  RemoteUacFiltering, AccessContext, DfsEvaluation,
}

pub record TrustedDomainProvenance : Type 0 where
  pub domain : String
  pub home_only_groups : List String
  pub sid_filtered : List String
  pub selective_authentication : Bool

pub record ResolutionProvenance : Type 0 where
  pub group_resolution_via_sam_fallback : Bool
  pub identity_not_in_configured_ldap_base : Bool
  pub identity_disabled_status_unknown : Bool
  pub identity_lookup_failure_reason : Option String
  pub group_resolution_failure_reason : Option String
  pub identity_resolved_via_fsp : Bool
  pub group_resolution_via_global_catalog : Bool
  pub identity_unresolvable_reason : Option String
  pub group_resolution_gaps : List String
  pub excluded_non_security_groups : List String
  pub trusted_domain : Option TrustedDomainProvenance

pub data SelectiveAuthenticationCheck : Type 0 where
  -- server, via
  allowed : String → String → SelectiveAuthenticationCheck
  denied : String → SelectiveAuthenticationCheck
  -- server, reason
  unknown : String → String → SelectiveAuthenticationCheck

pub record PermissionEvaluationInput : Type 0 where
  pub identity : Identity
  pub group_memberships : List GroupMembership
  pub file_system_object : FileSystemObject
  pub share_status : ShareMaskStatus
  pub local_group_sids : List Sid
  pub local_group_status : LocalGroupEvalStatus
  pub logon_dependent_group_sids : List Sid
  pub uac_filtered_group_sids : List Sid
  pub remote_uac : RemoteUacFiltering
  pub anonymous_everyone : Option Bool
  pub selective_authentication : Option SelectiveAuthenticationCheck
  pub dfs : Option DfsEvaluation
  pub access_context : AccessContext
  pub unsupported_share_ace_count : ℕ
  pub sid_names : List (String × String)
  pub resolution : ResolutionProvenance
