-- ===== src/Model/Effective/Incomplete.antt =====
-- crates/core/src/model.rs: `is_incomplete` beside the statuses and the markers of a result.
use stars_ad_permission_anal.Base.{
  ltb, Bool, true, false, not, ◌&&◌, ◌||◌, List, [], ◌∷◌, ◌++◌, any, is_empty, str_eq, ◌≡◌, refl,
  arith, inl, inr, Option-cases,
}
use stars_ad_permission_anal.Model.{ShareEvalStatus, LocalGroupEvalStatus}
use stars_ad_permission_anal.Model.Diagnostic.{
  PermissionDiagnostic, unsupported_ntfs_aces, uncertain_layer, is_incompleteness_trigger,
}
use stars_ad_permission_anal.Model.Diagnostic.Summary.{summary}
use stars_ad_permission_anal.Model.Effective.{
  EffectivePermission, Uncertainty, uncertain, uncertainty, share_uncertainty, ntfs_uncertainty,
  local_group_uncertainty, add_marker, add_markers, is_incomplete, is_ntfs_marker,
}

abbrev pub is_read_failed : ShareEvalStatus → Bool
is_read_failed (ShareEvalStatus.read_failed reason) = true
is_read_failed ShareEvalStatus.not_applicable = false
is_read_failed ShareEvalStatus.applied = false
is_read_failed ShareEvalStatus.unrestricted = false

abbrev pub is_not_available : LocalGroupEvalStatus → Bool
is_not_available (LocalGroupEvalStatus.not_available reason) = true
is_not_available LocalGroupEvalStatus.not_queried = false
is_not_available LocalGroupEvalStatus.applied = false

is_empty-append {ℓ} :
    {A : Type ℓ} (xs ys : List A) → is_empty (xs ++ ys) ≡ (is_empty xs && is_empty ys)
is_empty-append [] ys = refl
is_empty-append (x ∷ xs) ys = refl

-- A reason that is listed shows that the list is not empty.
listed-not_empty :
    (p : Uncertainty → Bool) (out : List Uncertainty) → any p out ≡ true → is_empty out ≡ false
listed-not_empty p [] h = cc
listed-not_empty p (x ∷ out) h = refl

is_empty-add_marker :
    (d : PermissionDiagnostic) (out : List Uncertainty)
    → is_empty (add_marker d out) ≡ (is_empty out && not (is_incompleteness_trigger d))
unfolding add_marker is_incompleteness_trigger
is_empty-add_marker d out = elim (Option-cases (uncertain_layer d)) [
  | inl e ↦ rw (e, add_marker) (ground arith)
  | inr (layer, e) ↦
      rw (e, add_marker)
        (ground (
          arith,
          listed-not_empty (λ u. str_eq u.reason (summary d)) out,
          is_empty-append out (uncertain layer (summary d) ∷ []),
        ))
]

is_empty-add_markers :
    (ds : List PermissionDiagnostic) (out : List Uncertainty)
    → is_empty (add_markers ds out) ≡ (is_empty out && not (any is_incompleteness_trigger ds))
unfolding add_markers
is_empty-add_markers [] out = ground arith
is_empty-add_markers (d ∷ rest) out =
    ground (arith, is_empty-add_markers rest (add_marker d out), is_empty-add_marker d out)

share_uncertainty-empty :
    (s : ShareEvalStatus) → is_empty (share_uncertainty s) ≡ not (is_read_failed s)
unfolding share_uncertainty
share_uncertainty-empty s = ground arith

local_uncertainty-empty :
    (s : LocalGroupEvalStatus) → is_empty (local_group_uncertainty s) ≡ not (is_not_available s)
unfolding local_group_uncertainty
local_uncertainty-empty s = ground arith

marker-trigger :
    (d : PermissionDiagnostic) → is_ntfs_marker d ≡ true → is_incompleteness_trigger d ≡ true
unfolding is_incompleteness_trigger
marker-trigger (unsupported_ntfs_aces n) h = refl
marker-trigger d h = ground arith

markers-trigger :
    (ds : List PermissionDiagnostic)
    → any is_ntfs_marker ds ≡ true
    → any is_incompleteness_trigger ds ≡ true
markers-trigger [] h = h
markers-trigger (d ∷ rest) h = ground (arith, marker-trigger d, markers-trigger rest)

-- A result is incomplete exactly when its share permissions could not be read, an NTFS entry could
-- not be evaluated, the local groups are not available, or a marker makes some part uncertain.
pub is_incomplete_iff :
    (p : EffectivePermission)
    → is_incomplete p ≡ (
        is_read_failed p.share_status
        || (ltb 0 p.unsupported_ace_count
            || (is_not_available p.local_group_status
                || any is_incompleteness_trigger p.diagnostics)))
unfolding is_incomplete uncertainty ntfs_uncertainty
is_incomplete_iff p =
    rw
      (
        is_empty-add_markers p.diagnostics (
            share_uncertainty p.share_status
            ++ (ntfs_uncertainty p.unsupported_ace_count p.diagnostics
                ++ local_group_uncertainty p.local_group_status)),
        is_empty-append,
        is_empty-append,
        share_uncertainty-empty,
        local_uncertainty-empty,
      )
      (ground (arith, markers-trigger p.diagnostics))
