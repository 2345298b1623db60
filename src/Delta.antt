-- ===== src/Delta.antt =====
-- crates/persistence/src/delta.rs: two scans of one target beside each other. Here are the fields
-- that are compared and the reasons for a change; `Compare` has the comparison of two scans.
pub mod Compare
pub mod Map
pub mod Diff
pub mod Reasons
pub mod Runs
mod Tests
use native.Mathlib.Decide.{ℕ_discrete}
use mathlib.Core.Logic.{ite}
use stars_ad_permission_anal.Base.{
  ℕ, Bool, List, [], ◌∷◌, ◌++◌, Option, String, str_eq, str_eq_iff, Bool-cases, inl, inr, arith,
}
use stars_ad_permission_anal.Model.{ShareEvalStatus, LocalGroupEvalStatus}
use stars_ad_permission_anal.Model.Diagnostic.{PermissionDiagnostic}
use stars_ad_permission_anal.Model.Effective.{EffectivePermission, effective_determinable}

pub data ShareStatusTag : Type 0 where
  not_applicable applied unrestricted : ShareStatusTag
  read_failed : String → ShareStatusTag

-- `impl From<&ShareEvalStatus> for ShareStatusTag`
unfoldable pub share_tag : ShareEvalStatus → ShareStatusTag
share_tag ShareEvalStatus.not_applicable = ShareStatusTag.not_applicable
share_tag ShareEvalStatus.applied = ShareStatusTag.applied
share_tag ShareEvalStatus.unrestricted = ShareStatusTag.unrestricted
share_tag (ShareEvalStatus.read_failed msg) = ShareStatusTag.read_failed msg

pub data LocalGroupStatusTag : Type 0 where
  not_queried applied : LocalGroupStatusTag
  not_available : String → LocalGroupStatusTag

-- `impl From<&LocalGroupEvalStatus> for LocalGroupStatusTag`
unfoldable pub local_group_tag : LocalGroupEvalStatus → LocalGroupStatusTag
local_group_tag LocalGroupEvalStatus.not_queried = LocalGroupStatusTag.not_queried
local_group_tag LocalGroupEvalStatus.applied = LocalGroupStatusTag.applied
local_group_tag (LocalGroupEvalStatus.not_available msg) = LocalGroupStatusTag.not_available msg

pub record PermissionSignature : Type 0 where
  pub effective_mask : ℕ
  pub ntfs_mask : ℕ
  pub share_mask : Option ℕ
  pub share_status : ShareStatusTag
  pub local_group_status : LocalGroupStatusTag
  pub unsupported_ace_count : ℕ
  pub diagnostics : List PermissionDiagnostic
  pub effective_determinable : Bool

-- `PermissionSignature::from`
unfoldable pub signature_of : EffectivePermission → PermissionSignature
unfolding share_tag local_group_tag
signature_of p = record {
  effective_mask = p.effective_mask;
  ntfs_mask = p.ntfs_mask;
  share_mask = p.share_mask;
  share_status = share_tag p.share_status;
  local_group_status = local_group_tag p.local_group_status;
  unsupported_ace_count = p.unsupported_ace_count;
  diagnostics = p.diagnostics;
  effective_determinable = effective_determinable p;
}

pub data DeltaReason : Type 0 where
  effective_mask_changed determinability_changed ntfs_mask_changed share_mask_changed : DeltaReason
  share_status_changed local_group_status_changed unsupported_ace_count_changed : DeltaReason
  diagnostics_changed : DeltaReason

unfoldable pub label : DeltaReason → String
label effective_mask_changed = "effective mask"
label determinability_changed = "determinability"
label ntfs_mask_changed = "NTFS mask"
label share_mask_changed = "share mask"
label share_status_changed = "share status"
label local_group_status_changed = "local-group status"
label unsupported_ace_count_changed = "unsupported-ACE count"
label diagnostics_changed = "diagnostics"

-- The derived `PartialEq` of the compared fields: equality, decided.
pub String-discrete : Discrete String
String-discrete s t = elim (Bool-cases (str_eq s t)) [
  | inl e ↦ yes ((str_eq_iff s t).0 e)
  | inr e ↦ no (λ p. ground (arith, e, (str_eq_iff s t).1 p))
]

pub share_mask-discrete : Discrete (Option ℕ)
share_mask-discrete = hlevel ℕ_discrete

pub ShareStatusTag-discrete : Discrete ShareStatusTag
ShareStatusTag-discrete = hlevel String-discrete

pub LocalGroupStatusTag-discrete : Discrete LocalGroupStatusTag
LocalGroupStatusTag-discrete = hlevel String-discrete

pub diagnostics-discrete : Discrete (List PermissionDiagnostic)
diagnostics-discrete = hlevel (ℕ_discrete, String-discrete)

pub Bool-discrete : Discrete Bool
Bool-discrete = hlevel

-- `if old.field != new.field { reasons.push(reason) }`
abbrev pub push_if_changed {ℓ} :
    {A : Type ℓ} → Discrete A → A → A → DeltaReason → List DeltaReason → List DeltaReason
push_if_changed same old new reason reasons = ite (same old new) reasons (reasons ++ reason ∷ [])

unfoldable pub signature_diff : PermissionSignature → PermissionSignature → List DeltaReason
signature_diff old new =
    let reasons = [] in
    let reasons =
      push_if_changed ℕ_discrete old.effective_mask new.effective_mask effective_mask_changed
        reasons in
    let reasons =
      push_if_changed Bool-discrete old.effective_determinable new.effective_determinable
        determinability_changed reasons in
    let reasons =
      push_if_changed ℕ_discrete old.ntfs_mask new.ntfs_mask ntfs_mask_changed reasons in
    let reasons =
      push_if_changed share_mask-discrete old.share_mask new.share_mask share_mask_changed
        reasons in
    let reasons =
      push_if_changed ShareStatusTag-discrete old.share_status new.share_status share_status_changed
        reasons in
    let reasons =
      push_if_changed LocalGroupStatusTag-discrete old.local_group_status new.local_group_status
        local_group_status_changed reasons in
    let reasons =
      push_if_changed ℕ_discrete old.unsupported_ace_count new.unsupported_ace_count
        unsupported_ace_count_changed reasons in
    push_if_changed diagnostics-discrete old.diagnostics new.diagnostics diagnostics_changed reasons
