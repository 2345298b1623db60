-- ===== src/Engine/Ranges.antt =====
-- crates/permission_engine/src/engine.rs: the marker of a logon-dependent range, followed through
-- the later steps of `evaluate`.
use stars_ad_permission_anal.Base.{
  ℕ, Bool, true, false, ◌==◌, ltb, Option, none, some, any, ◌≡◌, refl, arith, inl, inr,
  Option-cases, any-append,
}
use stars_ad_permission_anal.Model.Diagnostic.{
  PermissionDiagnostic, logon_dependent_trustees, unsupported_share_aces, is_incompleteness_trigger,
}
use stars_ad_permission_anal.Model.Effective.{effective_determinable}
use stars_ad_permission_anal.Bounds.{LogonDependentBounds}
use stars_ad_permission_anal.Engine.Input.{PermissionEvaluationInput}
use stars_ad_permission_anal.Engine.Kept.{evaluate-kept, determinable-kept}
use stars_ad_permission_anal.Engine.Rights.{logon_dependent}
use stars_ad_permission_anal.Engine.Markers.{dacl_markers, mark_some, mark_if}
use stars_ad_permission_anal.Engine.{evaluate, settle}

-- The marker of a range that reaches up to a mask.
abbrev pub is_range : ℕ → PermissionDiagnostic → Bool
is_range top (logon_dependent_trustees sids min_mask max_mask) = max_mask == top
is_range top _ = false

abbrev range_marker : LogonDependentBounds → PermissionDiagnostic
range_marker b = logon_dependent_trustees b.sids b.min b.max

range-mark :
    (o : Option LogonDependentBounds) (b : LogonDependentBounds)
    → o ≡ some b
    → any (is_range b.max) (mark_some o range_marker) ≡ true
range-mark none b e = cc
range-mark (some b') b e = ground arith

range-dacl :
    (input : PermissionEvaluationInput) (b : LogonDependentBounds)
    → logon_dependent input ≡ some b
    → any (is_range b.max) (dacl_markers input) ≡ true
unfolding dacl_markers
range-dacl input b e = simp (any-append, range-mark (logon_dependent input) b e) (ground arith)

range-settle : (top : ℕ) (d : PermissionDiagnostic) → is_range top (settle d) ≡ is_range top d
unfolding settle
range-settle top (logon_dependent_trustees sids min_mask max_mask) = refl
range-settle top d = ground arith

range-trigger :
    (top : ℕ) (d : PermissionDiagnostic)
    → is_range top d ≡ true
    → is_incompleteness_trigger d ≡ true
unfolding is_incompleteness_trigger
range-trigger top (logon_dependent_trustees sids min_mask max_mask) h = refl
range-trigger top d h = ground arith

-- A range in the bounds stands among the markers of the final result.
pub range-evaluate :
    (input : PermissionEvaluationInput) (b : LogonDependentBounds)
    → logon_dependent input ≡ some b
    → any (is_range b.max) (evaluate input).diagnostics ≡ true
range-evaluate input b e =
    evaluate-kept (is_range b.max) (range-settle b.max) input (range-dacl input b e)

-- A result that is called determinable reports no range.
pub determinable-no_range :
    (input : PermissionEvaluationInput)
    → effective_determinable (evaluate input) ≡ true
    → logon_dependent input ≡ none
determinable-no_range input h = elim (Option-cases (logon_dependent input)) [
  | inl e ↦ e
  | inr (b, e) ↦ ground (
    arith,
    range-dacl input b e,
    determinable-kept (is_range b.max) (range-settle b.max) (range-trigger b.max) input h,
  )
]

-- A share entry that was not evaluated.
abbrev is_share_gap : PermissionDiagnostic → Bool
is_share_gap (unsupported_share_aces count) = true
is_share_gap _ = false

gap-settle : (d : PermissionDiagnostic) → is_share_gap (settle d) ≡ is_share_gap d
unfolding settle
gap-settle d = ground arith

gap-trigger :
    (d : PermissionDiagnostic) → is_share_gap d ≡ true → is_incompleteness_trigger d ≡ true
unfolding is_incompleteness_trigger
gap-trigger d h = ground arith

gap-mark : (n : ℕ) → any is_share_gap (mark_if (ltb 0 n) (unsupported_share_aces n)) ≡ ltb 0 n
gap-mark n = ground arith

gap-dacl :
    (input : PermissionEvaluationInput)
    → ltb 0 input.unsupported_share_ace_count ≡ true
    → any is_share_gap (dacl_markers input) ≡ true
unfolding dacl_markers
gap-dacl input h = simp (any-append, gap-mark input.unsupported_share_ace_count) (ground (arith, h))

-- A result that is called determinable counts no share entry that was not evaluated.
pub determinable-no_share_gap :
    (input : PermissionEvaluationInput)
    → effective_determinable (evaluate input) ≡ true
    → input.unsupported_share_ace_count ≡ 0
determinable-no_share_gap input h =
    ground (arith, gap-dacl input, determinable-kept is_share_gap gap-settle gap-trigger input h)
