-- ===== src/Model/Effective.antt =====
-- crates/core/src/model.rs: `EffectivePermission` and what it says about its own certainty. Its
-- explanation path and its trace are texts for a reader and are left out.
pub mod Incomplete
use stars_ad_permission_anal.Base.{
  ℕ, ltb, Bool, true, false, not, ◌&&◌, bit_and, bit_or, if◌then◌else◌, List, [], ◌∷◌, ◌++◌, Option,
  none, some, String, ◌⊕◌, any, is_empty, str_eq,
}
use stars_ad_permission_anal.Base.Format.{dec}
use stars_ad_permission_anal.Model.{
  Identity, ShareEvalStatus, LocalGroupEvalStatus, ContributingAce, AceEntry,
}
use stars_ad_permission_anal.Model.Diagnostic.{
  UncertainLayer, token, ntfs, share, logon, target, PermissionDiagnostic, unsupported_ntfs_aces,
  logon_dependent_trustees, uncertain_layer,
}
use stars_ad_permission_anal.Model.Diagnostic.Summary.{summary}

pub record EffectivePermission : Type 0 where
  pub identity : Identity
  pub path : String
  pub ntfs_mask : ℕ
  pub share_mask : Option ℕ
  pub effective_mask : ℕ
  pub share_status : ShareEvalStatus
  pub local_group_status : LocalGroupEvalStatus
  pub contributing_sids : List ContributingAce
  pub unsupported_ace_count : ℕ
  pub matched_aces : List AceEntry
  pub diagnostics : List PermissionDiagnostic

pub record Uncertainty : Type 0 where
  pub layer : UncertainLayer
  pub reason : String

abbrev pub uncertain : UncertainLayer → String → Uncertainty
uncertain l r = record { layer = l; reason = r }

unfoldable pub share_uncertainty : ShareEvalStatus → List Uncertainty
share_uncertainty (ShareEvalStatus.read_failed reason) =
    uncertain share ("The share permissions are not determinable (" ⊕ reason ⊕ ").") ∷ []
share_uncertainty ShareEvalStatus.not_applicable = []
share_uncertainty ShareEvalStatus.applied = []
share_uncertainty ShareEvalStatus.unrestricted = []

abbrev pub is_ntfs_marker : PermissionDiagnostic → Bool
is_ntfs_marker (unsupported_ntfs_aces _) = true
is_ntfs_marker _ = false

unfoldable pub ntfs_uncertainty : ℕ → List PermissionDiagnostic → List Uncertainty
unfolding dec
ntfs_uncertainty count diagnostics =
    if ltb 0 count && not (any is_ntfs_marker diagnostics)
    then uncertain ntfs (
        dec count
        ⊕ " NTFS ACE(s) could not be evaluated — a hidden Deny among them could change the result.")
      ∷ []
    else []

unfoldable pub local_group_uncertainty : LocalGroupEvalStatus → List Uncertainty
local_group_uncertainty (LocalGroupEvalStatus.not_available reason) =
    uncertain token (
      "The local groups of the target server could not be resolved (" ⊕ reason
      ⊕ ") — ACEs for local groups may apply to this identity.")
    ∷ []
local_group_uncertainty LocalGroupEvalStatus.not_queried = []
local_group_uncertainty LocalGroupEvalStatus.applied = []

-- A marker adds its layer and its summary, unless the same reason is listed.
unfoldable pub add_marker : PermissionDiagnostic → List Uncertainty → List Uncertainty
add_marker d out = elim (uncertain_layer d) [
  | none ↦ out
  | some layer ↦
      if not (any (λ u. str_eq u.reason (summary d)) out)
      then out ++ uncertain layer (summary d) ∷ []
      else out
]

unfoldable pub add_markers : List PermissionDiagnostic → List Uncertainty → List Uncertainty
add_markers [] out = out
add_markers (d ∷ rest) out = add_markers rest (add_marker d out)

unfoldable pub uncertainty : EffectivePermission → List Uncertainty
uncertainty p = add_markers p.diagnostics (
    share_uncertainty p.share_status
    ++ (ntfs_uncertainty p.unsupported_ace_count p.diagnostics
        ++ local_group_uncertainty p.local_group_status))

unfoldable pub is_incomplete : EffectivePermission → Bool
is_incomplete p = not (is_empty (uncertainty p))

abbrev pub affects_ntfs : UncertainLayer → Bool
affects_ntfs token = true
affects_ntfs ntfs = true
affects_ntfs target = true
affects_ntfs share = false
affects_ntfs logon = false

abbrev pub affects_share : UncertainLayer → Bool
affects_share token = true
affects_share share = true
affects_share target = true
affects_share ntfs = false
affects_share logon = false

unfoldable pub ntfs_determinable : EffectivePermission → Bool
ntfs_determinable p = not (any (λ u. affects_ntfs u.layer) (uncertainty p))

unfoldable pub share_determinable : EffectivePermission → Bool
share_determinable p = not (any (λ u. affects_share u.layer) (uncertainty p))

unfoldable pub effective_determinable : EffectivePermission → Bool
effective_determinable p = is_empty (uncertainty p)

-- The fold over the markers: each logon-dependent range adds its upper bound.
unfoldable pub ntfs_upper : ℕ → List PermissionDiagnostic → ℕ
ntfs_upper acc [] = acc
ntfs_upper acc (logon_dependent_trustees sids min_mask max_mask ∷ rest) =
    ntfs_upper (bit_or acc max_mask) rest
ntfs_upper acc (_ ∷ rest) = ntfs_upper acc rest

abbrev pub opens_share : UncertainLayer → Bool
opens_share share = true
opens_share target = true
opens_share token = false
opens_share ntfs = false
opens_share logon = false

-- The share restricts the upper bound only if it was read and is not uncertain itself.
unfoldable pub restrict_upper : ShareEvalStatus → Option ℕ → Bool → ℕ → ℕ
restrict_upper ShareEvalStatus.applied (some mask) false upper = bit_and upper mask
restrict_upper ShareEvalStatus.applied (some mask) true upper = upper
restrict_upper ShareEvalStatus.applied none uncertain_share upper = upper
restrict_upper ShareEvalStatus.not_applicable mask uncertain_share upper = upper
restrict_upper ShareEvalStatus.unrestricted mask uncertain_share upper = upper
restrict_upper (ShareEvalStatus.read_failed _) mask uncertain_share upper = upper

unfoldable pub effective_upper_bound : EffectivePermission → ℕ
effective_upper_bound p =
    let uncertain_share = any (λ u. opens_share u.layer) (uncertainty p) in
    let upper =
      restrict_upper p.share_status p.share_mask uncertain_share
        (ntfs_upper p.ntfs_mask p.diagnostics) in
    if is_empty (uncertainty p) then p.effective_mask else bit_or upper p.effective_mask
