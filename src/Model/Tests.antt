-- ===== src/Model/Tests.antt =====
-- When a result is incomplete: one whose logon-dependent range is open.
use stars_ad_permission_anal.Base.{false, [], ◌∷◌, none, ◌≡◌, ◌||◌, any, ltb}
use stars_ad_permission_anal.Model.{Identity, IdentityKind, ShareEvalStatus, LocalGroupEvalStatus}
use stars_ad_permission_anal.Model.Diagnostic.{
  is_incompleteness_trigger, logon_dependent_trustees, uncertain_layer,
}
use stars_ad_permission_anal.Model.Effective.{
  EffectivePermission, add_marker, add_markers, is_incomplete, local_group_uncertainty,
  ntfs_uncertainty, share_uncertainty, uncertainty,
}
use stars_ad_permission_anal.Model.Effective.Incomplete.{
  is_incomplete_iff, is_read_failed, is_not_available,
}
use stars_ad_permission_anal.Base.{refl, true}
use stars_ad_permission_anal.Model.Effective.{ntfs_determinable, share_determinable}
use stars_ad_permission_anal.Model.Diagnostic.{severity, DiagnosticSeverity}

abbrev somebody : Identity
somebody = record {
  sid = "S-1-5-21-7-8-9-1104";
  name = none;
  domain = none;
  kind = IdentityKind.user;
  disabled = false;
  user_principal_name = none;
  sid_history_count = 0;
  sid_history = [];
}

abbrev open_result : EffectivePermission
open_result = record {
  identity = somebody;
  path = "D:/data";
  ntfs_mask = 0x0012_0089;
  share_mask = none;
  effective_mask = 0x0012_0089;
  share_status = ShareEvalStatus.not_applicable;
  local_group_status = LocalGroupEvalStatus.applied;
  contributing_sids = [];
  unsupported_ace_count = 0;
  matched_aces = [];
  diagnostics = logon_dependent_trustees ("S-1-5-113" ∷ []) 0x0012_0089 0x0012_008b ∷ [];
}

is_incomplete_iff_example : is_incomplete open_result ≡ (
    is_read_failed ShareEvalStatus.not_applicable
    || (ltb 0 0
        || (is_not_available LocalGroupEvalStatus.applied
            || any is_incompleteness_trigger open_result.diagnostics)))
is_incomplete_iff_example = is_incomplete_iff open_result

open_result_ntfs : ntfs_determinable open_result ≡ false
unfolding ntfs_determinable add_marker uncertainty add_markers ntfs_uncertainty uncertain_layer
    share_uncertainty local_group_uncertainty
open_result_ntfs = refl

open_result_share : share_determinable open_result ≡ true
unfolding add_marker add_markers uncertainty uncertain_layer ntfs_uncertainty share_uncertainty
    share_determinable local_group_uncertainty
open_result_share = refl

range_is_notice :
    severity (logon_dependent_trustees ("S-1-5-113" ∷ []) 0x0012_0089 0x0012_008b)
    ≡ DiagnosticSeverity.notice
unfolding severity
range_is_notice = refl
