-- ===== src/Engine/Kept.antt =====
-- crates/permission_engine/src/engine.rs: a marker that the settling of the logon leaves as it is,
-- followed from where it is pushed through the later steps of `evaluate`.
use stars_ad_permission_anal.Base.{
  Bool, true, false, not, List, [], ◌∷◌, ◌++◌, map, any, ◌≡◌, refl, ◌∙◌, arith, inl, inr,
  Bool-cases, Option-cases, any-append,
}
use stars_ad_permission_anal.Model.Diagnostic.{PermissionDiagnostic, is_incompleteness_trigger}
use stars_ad_permission_anal.Model.Effective.{
  EffectivePermission, effective_determinable, is_incomplete,
}
use stars_ad_permission_anal.Model.Effective.Incomplete.{is_incomplete_iff}
use stars_ad_permission_anal.Engine.Input.{PermissionEvaluationInput}
use stars_ad_permission_anal.Engine.Rights.{ntfs_raw, walk}
use stars_ad_permission_anal.Engine.Markers.{
  dacl_markers, identity_markers, boundary_markers, diagnostics_of,
}
use stars_ad_permission_anal.Engine.{
  evaluate, first_result, settle, settle_logon, finish, synchronize_gap, is_refused,
}

pub any-left {ℓ} :
    {A : Type ℓ} (p : A → Bool) (xs ys : List A) → any p xs ≡ true → any p (xs ++ ys) ≡ true
any-left p xs ys h = any-append p xs ys ∙ ground arith

determinable-is_incomplete :
    (p : EffectivePermission) → effective_determinable p ≡ not (is_incomplete p)
unfolding effective_determinable is_incomplete
determinable-is_incomplete p = ground arith

module _ (kept : PermissionDiagnostic → Bool)
    (settled : (d : PermissionDiagnostic) → kept (settle d) ≡ kept d) where
  any-settle : (ds : List PermissionDiagnostic) → any kept (map settle ds) ≡ any kept ds
  any-settle [] = refl
  any-settle (d ∷ rest) = ground (arith, settled d, any-settle rest)

  settle_logon-kept :
      (p : EffectivePermission) → any kept (settle_logon p).diagnostics ≡ any kept p.diagnostics
  unfolding settle_logon
  settle_logon-kept p = ground (arith, any-settle p.diagnostics)

  finish-kept :
      (input : PermissionEvaluationInput) (p : EffectivePermission)
      → any kept p.diagnostics ≡ true
      → any kept (finish input p).diagnostics ≡ true
  unfolding finish
  finish-kept input p h = elim (Bool-cases (is_refused input.selective_authentication)) [
    | inl refused ↦ rw refused h
    | inr accepted ↦
        rw accepted (elim (Option-cases (synchronize_gap p (ntfs_raw input) (walk input).denied)) [
          | inl e ↦ rw e h
          | inr (cause, e) ↦ rw e (any-left kept p.diagnostics _ h)
        ])
  ]

  marked :
      (input : PermissionEvaluationInput)
      → any kept (dacl_markers input) ≡ true
      → any kept (diagnostics_of input) ≡ true
  unfolding diagnostics_of
  marked input h =
      any-left kept (dacl_markers input) (identity_markers input ++ boundary_markers input) h

  -- A marker about the entries stands among the markers of the final result.
  pub evaluate-kept :
      (input : PermissionEvaluationInput)
      → any kept (dacl_markers input) ≡ true
      → any kept (evaluate input).diagnostics ≡ true
  unfolding evaluate first_result
  evaluate-kept input h =
      finish-kept input (settle_logon (first_result input))
        (settle_logon-kept (first_result input) ∙ marked input h)

  module _
      (trigger : (d : PermissionDiagnostic)
        → kept d ≡ true
        → is_incompleteness_trigger d ≡ true) where
    triggers :
        (ds : List PermissionDiagnostic)
        → any kept ds ≡ true
        → any is_incompleteness_trigger ds ≡ true
    triggers [] h = h
    triggers (d ∷ rest) h = ground (arith, trigger d, triggers rest)

    -- If it makes a result incomplete, a result that is called determinable has none.
    pub determinable-kept :
        (input : PermissionEvaluationInput)
        → effective_determinable (evaluate input) ≡ true
        → any kept (dacl_markers input) ≡ false
    determinable-kept input h = ground (
      arith,
      determinable-is_incomplete (evaluate input),
      is_incomplete_iff (evaluate input),
      triggers (evaluate input).diagnostics,
      evaluate-kept input,
    )
