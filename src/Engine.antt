-- ===== src/Engine.antt =====
-- crates/permission_engine/src/engine.rs: `DefaultPermissionEngine::evaluate`. The explanation path
-- and the trace, which are texts derived from the finished result, are left out.
pub mod Input
pub mod Rights
pub mod Markers
pub mod Kept
pub mod Ranges
pub mod Exact
pub mod UpperBound
pub mod Account
pub mod Masks
pub mod Example
mod Tests
use stars_ad_permission_anal.Base.{
  ℕ, Bool, true, false, not, ◌&&◌, ◌||◌, ◌==◌, bit_and, not32, if◌then◌else◌, List, [], ◌∷◌, ◌++◌,
  map, all, Option, none, some, length,
}
use stars_ad_permission_anal.Mask.{file_synchronize}
use stars_ad_permission_anal.Model.Diagnostic.{
  SynchronizeGap, denied_by_ntfs_ace, not_granted_by_ntfs, not_granted_by_share, UncertainLayer,
  logon, PermissionDiagnostic, selective_authentication_unknown, synchronize_not_granted,
}
use stars_ad_permission_anal.Model.Effective.{
  EffectivePermission, uncertainty, effective_determinable, effective_upper_bound,
}
use Input.{PermissionEvaluationInput, SelectiveAuthenticationCheck}
use Rights.{walk, ntfs_raw, share_side, matched_aces}
use Markers.{diagnostics_of}

-- `Some(SelectiveAuthenticationCheck::Denied { .. })`
abbrev pub is_refused : Option SelectiveAuthenticationCheck → Bool
is_refused (some (SelectiveAuthenticationCheck.denied server)) = true
is_refused _ = false

-- The result as it is first put together.
pub first_result : PermissionEvaluationInput → EffectivePermission
first_result input =
    let (mask, status, effective) = share_side input.share_status (ntfs_raw input) in
    record {
      identity = input.identity;
      path = input.file_system_object.path;
      ntfs_mask = ntfs_raw input;
      share_mask = mask;
      effective_mask = effective;
      share_status = status;
      local_group_status = input.local_group_status;
      contributing_sids = (walk input).contributions;
      unsupported_ace_count = length input.file_system_object.unsupported_aces;
      matched_aces = matched_aces input;
      diagnostics = diagnostics_of input;
    }

abbrev pub is_logon : UncertainLayer → Bool
is_logon logon = true
is_logon UncertainLayer.token = false
is_logon UncertainLayer.ntfs = false
is_logon UncertainLayer.share = false
is_logon UncertainLayer.target = false

-- `*affects_result = false`
pub settle : PermissionDiagnostic → PermissionDiagnostic
settle (selective_authentication_unknown server reason affects_result) =
    selective_authentication_unknown server reason false
settle d = d

-- Nothing granted and only the logon uncertain: both ends of the range meet at No access.
pub settle_logon : EffectivePermission → EffectivePermission
unfolding settle
settle_logon p =
    if p.effective_mask == 0 && all (λ u. is_logon u.layer) (uncertainty p)
    then record p { diagnostics = map settle p.diagnostics }
    else p

pub synchronize_gap : EffectivePermission → ℕ → ℕ → Option SynchronizeGap
synchronize_gap result raw denied_raw =
    if bit_and result.effective_mask (not32 file_synchronize) == 0
      || not (bit_and (effective_upper_bound result) file_synchronize == 0)
    then none
    else if bit_and raw file_synchronize == 0
    then if not (bit_and denied_raw file_synchronize == 0)
      then some denied_by_ntfs_ace
      else some not_granted_by_ntfs
    else some not_granted_by_share

pub mark_gap : Option SynchronizeGap → EffectivePermission → EffectivePermission
mark_gap none p = p
mark_gap (some cause) p = record p {
  diagnostics = p.diagnostics ++ synchronize_not_granted cause (effective_determinable p) ∷ [];
}

-- The logon decision: a refused logon leaves no effective right, whatever the DACL grants.
pub finish : PermissionEvaluationInput → EffectivePermission → EffectivePermission
unfolding mark_gap
finish input p =
    if is_refused input.selective_authentication
    then record p { effective_mask = 0 }
    else mark_gap (synchronize_gap p (ntfs_raw input) (walk input).denied) p

pub evaluate : PermissionEvaluationInput → EffectivePermission
unfolding first_result settle_logon finish
evaluate input = finish input (settle_logon (first_result input))
