-- ===== src/Engine/Example.antt =====
-- Example data for the tests: a folder with one entry for the account, read over a share.
pub mod Determinable
use stars_ad_permission_anal.Base.{[], ◌∷◌, none, some, false, true}
use stars_ad_permission_anal.Model.{
  allow, AceEntry, Identity, IdentityKind, FileSystemObject, ShareMaskStatus, LocalGroupEvalStatus,
  RemoteUacFiltering, remote_smb,
}
use stars_ad_permission_anal.Engine.Input.{PermissionEvaluationInput, ResolutionProvenance}

abbrev pub modify_entry : AceEntry
modify_entry = record {
  kind = allow;
  sid = "S-1-5-21-7-8-9-1104";
  mask = 0x0013_01bf;
  inherited = false;
  inheritance_flags = 0;
  propagation_flags = 0;
}

abbrev pub account : Identity
account = record {
  sid = "S-1-5-21-7-8-9-1104";
  name = some "dana";
  domain = some "CORP";
  kind = IdentityKind.user;
  disabled = false;
  user_principal_name = none;
  sid_history_count = 0;
  sid_history = [];
}

abbrev pub folder : FileSystemObject
folder = record {
  path = "D:/data";
  is_directory = true;
  owner_sid = some "S-1-5-18";
  dacl = modify_entry ∷ [];
  inheritance_disabled = true;
  is_reparse_point = false;
  unsupported_aces = [];
  null_dacl = false;
  sd_hash = none;
  link = none;
  identity_unknown = none;
}

abbrev pub resolved : ResolutionProvenance
resolved = record {
  group_resolution_via_sam_fallback = false;
  identity_not_in_configured_ldap_base = false;
  identity_disabled_status_unknown = false;
  identity_lookup_failure_reason = none;
  group_resolution_failure_reason = none;
  identity_resolved_via_fsp = false;
  group_resolution_via_global_catalog = false;
  identity_unresolvable_reason = none;
  group_resolution_gaps = [];
  excluded_non_security_groups = [];
  trusted_domain = none;
}

-- A share that grants Read.
abbrev pub request : PermissionEvaluationInput
request = record {
  identity = account;
  group_memberships = [];
  file_system_object = folder;
  share_status = ShareMaskStatus.applied 0x0012_00a9;
  local_group_sids = [];
  local_group_status = LocalGroupEvalStatus.applied;
  logon_dependent_group_sids = [];
  uac_filtered_group_sids = [];
  remote_uac = RemoteUacFiltering.unknown;
  anonymous_everyone = none;
  selective_authentication = none;
  dfs = none;
  access_context = remote_smb;
  unsupported_share_ace_count = 0;
  sid_names = [];
  resolution = resolved;
}
