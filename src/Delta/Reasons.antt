-- ===== src/Delta/Reasons.antt =====
-- crates/persistence/src/delta.rs: the reasons that `signature_diff` gives.
use native.Mathlib.Decide.{ℕ_discrete}
use mathlib.Core.Logic.{ite}
use stars_ad_permission_anal.Base.{
  ℕ, Bool, true, false, ◌&&◌, ◌||◌, ◌==◌, List, [], ◌∷◌, ◌++◌, any, any-append, ◌≡◌, arith,
}
use stars_ad_permission_anal.Delta.{
  PermissionSignature, DeltaReason, effective_mask_changed, determinability_changed,
  ntfs_mask_changed, share_mask_changed, share_status_changed, local_group_status_changed,
  unsupported_ace_count_changed, diagnostics_changed, push_if_changed, signature_diff,
  share_mask-discrete, ShareStatusTag-discrete, LocalGroupStatusTag-discrete, diagnostics-discrete,
  Bool-discrete,
}

abbrev pub differ {ℓ} : {A : Type ℓ} → Discrete A → A → A → Bool
differ same a b = ite (same a b) false true

abbrev position : DeltaReason → ℕ
position effective_mask_changed = 0
position determinability_changed = 1
position ntfs_mask_changed = 2
position share_mask_changed = 3
position share_status_changed = 4
position local_group_status_changed = 5
position unsupported_ace_count_changed = 6
position diagnostics_changed = 7

abbrev pub is_reason : DeltaReason → DeltaReason → Bool
is_reason r s = position r == position s

-- The value that stands for a reason, among one for each reason.
abbrev pub of_reason : DeltaReason → (a b c d e f g h : Bool) → Bool
of_reason effective_mask_changed a b c d e f g h = a
of_reason determinability_changed a b c d e f g h = b
of_reason ntfs_mask_changed a b c d e f g h = c
of_reason share_mask_changed a b c d e f g h = d
of_reason share_status_changed a b c d e f g h = e
of_reason local_group_status_changed a b c d e f g h = f
of_reason unsupported_ace_count_changed a b c d e f g h = g
of_reason diagnostics_changed a b c d e f g h = h

-- The field that a reason names is another one.
abbrev pub has_changed : DeltaReason → PermissionSignature → PermissionSignature → Bool
has_changed r old new =
    of_reason r (differ ℕ_discrete old.effective_mask new.effective_mask)
      (differ Bool-discrete old.effective_determinable new.effective_determinable)
      (differ ℕ_discrete old.ntfs_mask new.ntfs_mask)
      (differ share_mask-discrete old.share_mask new.share_mask)
      (differ ShareStatusTag-discrete old.share_status new.share_status)
      (differ LocalGroupStatusTag-discrete old.local_group_status new.local_group_status)
      (differ ℕ_discrete old.unsupported_ace_count new.unsupported_ace_count)
      (differ diagnostics-discrete old.diagnostics new.diagnostics)

of_reason_lem :
    (r : DeltaReason) (a b c d e f g h : Bool)
    → ((is_reason r effective_mask_changed && a)
        || (is_reason r determinability_changed && b)
        || (is_reason r ntfs_mask_changed && c)
        || (is_reason r share_mask_changed && d)
        || (is_reason r share_status_changed && e)
        || (is_reason r local_group_status_changed && f)
        || (is_reason r unsupported_ace_count_changed && g)
        || (is_reason r diagnostics_changed && h))
      ≡ of_reason r a b c d e f g h
of_reason_lem effective_mask_changed a b c d e f g h = ground arith
of_reason_lem determinability_changed a b c d e f g h = ground arith
of_reason_lem ntfs_mask_changed a b c d e f g h = ground arith
of_reason_lem share_mask_changed a b c d e f g h = ground arith
of_reason_lem share_status_changed a b c d e f g h = ground arith
of_reason_lem local_group_status_changed a b c d e f g h = ground arith
of_reason_lem unsupported_ace_count_changed a b c d e f g h = ground arith
of_reason_lem diagnostics_changed a b c d e f g h = ground arith

any-push_if_changed {ℓ} :
    {A : Type ℓ} (r : DeltaReason) (same : Discrete A) (a b : A) (reason : DeltaReason)
    (reasons : List DeltaReason)
    → any (is_reason r) (push_if_changed same a b reason reasons)
      ≡ (any (is_reason r) reasons || (is_reason r reason && differ same a b))
any-push_if_changed r same a b reason reasons =
    elim (same a b)
      as (λ d.
        any (is_reason r) (ite d reasons (reasons ++ reason ∷ []))
        ≡ (any (is_reason r) reasons || (is_reason r reason && ite d false true))) [
          | yes e ↦ ground arith
          | no e ↦ ground (arith, any-append (is_reason r) reasons (reason ∷ []))
        ]

-- For every reason: it is listed exactly when the field that it names differs.
pub lists-signature_diff :
    (r : DeltaReason) (a b : PermissionSignature)
    → any (is_reason r) (signature_diff a b) ≡ has_changed r a b
unfolding signature_diff
lists-signature_diff r a b =
    rw
      (
        any-push_if_changed r,
        any-push_if_changed r,
        any-push_if_changed r,
        any-push_if_changed r,
        any-push_if_changed r,
        any-push_if_changed r,
        any-push_if_changed r,
        any-push_if_changed r,
      )
      (of_reason_lem r _ _ _ _ _ _ _ _)
