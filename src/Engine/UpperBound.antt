-- ===== src/Engine/UpperBound.antt =====
-- crates/core/src/model.rs: `effective_upper_bound` of a result of `evaluate`, against the real
-- tokens that the known data leaves possible.
use stars_ad_permission_anal.Base.{
  ℕ, Bool, true, false, ◌&&◌, List, [], ◌∷◌, String, any, all, ◌≡◌, refl, ◌∙◌, ap, sym, arith, inl,
  inr, Bool-cases, Option-cases, BitsIn, bit, bit_or, bit-or, bit-and, ==_iff, ◌==◌,
}
use stars_ad_permission_anal.Model.{ShareMaskStatus}
use stars_ad_permission_anal.Model.Diagnostic.{PermissionDiagnostic, logon_dependent_trustees}
use stars_ad_permission_anal.Model.Effective.{
  EffectivePermission, effective_determinable, effective_upper_bound, uncertainty, ntfs_upper,
  restrict_upper, opens_share,
}
use stars_ad_permission_anal.Dacl.Walk.{AreWords}
use stars_ad_permission_anal.Bounds.Possible.{IsPossible, rights}
use stars_ad_permission_anal.Bounds.Sound.{bounds_enclose}
use stars_ad_permission_anal.Engine.Input.{PermissionEvaluationInput}
use stars_ad_permission_anal.Engine.Rights.{
  ntfs_raw, share_side, bounds_input, logon_dependent, walk,
}
use stars_ad_permission_anal.Engine.Ranges.{is_range, range-evaluate}
use stars_ad_permission_anal.Engine.Exact.{through_share, no_bounds-exact, evaluate_exact}
use stars_ad_permission_anal.Engine.{
  evaluate, first_result, settle_logon, finish, synchronize_gap, is_refused, is_logon,
}

-- The fold keeps what it starts with.
start-ntfs_upper :
    (acc : ℕ) (ds : List PermissionDiagnostic) (i : ℕ)
    → bit i acc ≡ true
    → bit i (ntfs_upper acc ds) ≡ true
unfolding ntfs_upper
start-ntfs_upper acc [] i h = h
start-ntfs_upper acc (logon_dependent_trustees sids min_mask max_mask ∷ rest) i h =
    start-ntfs_upper (bit_or acc max_mask) rest i (ground (arith, bit-or i acc max_mask))
start-ntfs_upper acc (d ∷ rest) i h = ground (arith, start-ntfs_upper acc rest i h)

-- It also takes up the top of every range.
range-ntfs_upper :
    (acc top : ℕ) (ds : List PermissionDiagnostic) (i : ℕ)
    → any (is_range top) ds ≡ true
    → bit i top ≡ true
    → bit i (ntfs_upper acc ds) ≡ true
unfolding ntfs_upper
range-ntfs_upper acc top [] i r h = cc
range-ntfs_upper acc top (logon_dependent_trustees sids min_mask max_mask ∷ rest) i r h =
    elim (Bool-cases (max_mask == top)) [
      | inl same ↦
          start-ntfs_upper (bit_or acc max_mask) rest i
            (ground (arith, bit-or i acc max_mask, ap (bit i) ((==_iff max_mask top).0 same)))
      | inr other ↦ range-ntfs_upper (bit_or acc max_mask) top rest i (ground arith) h
    ]
range-ntfs_upper acc top (d ∷ rest) i r h = ground (arith, range-ntfs_upper acc top rest i)

-- A right within the NTFS upper bound stays within it through the share.
through_share-restrict :
    (status : ShareMaskStatus) (shown raw upper : ℕ) (open_share : Bool)
    → BitsIn raw upper
    → BitsIn
        (through_share status raw)
        (restrict_upper (share_side status shown).1 (share_side status shown).0 open_share upper)
unfolding share_side restrict_upper
through_share-restrict ShareMaskStatus.not_applicable shown raw upper open_share h = h
through_share-restrict (ShareMaskStatus.applied mask) shown raw upper true h =
    λ i e. h i (ground (arith, bit-and i raw mask))
through_share-restrict (ShareMaskStatus.applied mask) shown raw upper false h =
    λ i e. ground (arith, bit-and i raw mask, bit-and i upper mask, h i)
through_share-restrict ShareMaskStatus.unrestricted shown raw upper open_share h = h
through_share-restrict (ShareMaskStatus.read_failed msg) shown raw upper open_share h = h

-- The masks and the share status of two results are the same.
abbrev pub SameMasks : EffectivePermission → EffectivePermission → Type 0
SameMasks p q =
    (p.ntfs_mask ≡ q.ntfs_mask) × (p.share_mask ≡ q.share_mask) × (p.share_status ≡ q.share_status)

settle_logon-SameMasks : (p : EffectivePermission) → SameMasks (settle_logon p) p
unfolding settle_logon
settle_logon-SameMasks p =
    elim (Bool-cases (p.effective_mask == 0 && all (λ u. is_logon u.layer) (uncertainty p))) [
      | inl settled ↦ rw settled (refl, refl, refl)
      | inr kept ↦ rw kept (refl, refl, refl)
    ]

finish-SameMasks :
    (input : PermissionEvaluationInput) (p : EffectivePermission) → SameMasks (finish input p) p
unfolding finish
finish-SameMasks input p = elim (Bool-cases (is_refused input.selective_authentication)) [
  | inl refused ↦ rw refused (refl, refl, refl)
  | inr accepted ↦
      rw accepted (elim (Option-cases (synchronize_gap p (ntfs_raw input) (walk input).denied)) [
        | inl e ↦ rw e (refl, refl, refl)
        | inr (cause, e) ↦ rw e (refl, refl, refl)
      ])
]

pub evaluate-SameMasks :
    (input : PermissionEvaluationInput) → SameMasks (evaluate input) (first_result input)
unfolding evaluate
evaluate-SameMasks input =
    let last = finish-SameMasks input (settle_logon (first_result input)) in
    let kept = settle_logon-SameMasks (first_result input) in
    (last.0 ∙ kept.0, last.1 ∙ kept.1, last.2 ∙ kept.2)

-- Every possible token's NTFS rights lie within the fold over the markers of the result.
rights-ntfs_upper :
    (input : PermissionEvaluationInput) (allows denies : String → Bool) (owner : ℕ)
    → input.file_system_object.null_dacl ≡ false
    → AreWords input.file_system_object.dacl
    → IsPossible (bounds_input input) input.file_system_object.dacl allows denies owner
    → BitsIn
        (rights input.file_system_object.dacl allows denies owner)
        (ntfs_upper (ntfs_raw input) (evaluate input).diagnostics)
unfolding logon_dependent
rights-ntfs_upper input allows denies owner null words possible i h =
    elim (Option-cases (logon_dependent input)) [
      | inl none' ↦ start-ntfs_upper (ntfs_raw input) (evaluate input).diagnostics i (
          sym (ap (bit i) (no_bounds-exact input allows denies owner null words possible none'))
          ∙ h)
      | inr (b, some') ↦
          range-ntfs_upper (ntfs_raw input) b.max (evaluate input).diagnostics i
            (range-evaluate input b some')
            ((bounds_enclose (bounds_input input) input.file_system_object.dacl allows denies owner
                b words possible (ground arith)).1
              i h)
    ]

-- What a result that is not determinable has within its upper bound.
open-effective_upper_bound :
    (p : EffectivePermission)
    → effective_determinable p ≡ false
    → BitsIn
        (restrict_upper p.share_status p.share_mask
          (any (λ u. opens_share u.layer) (uncertainty p))
          (ntfs_upper p.ntfs_mask p.diagnostics))
        (effective_upper_bound p)
unfolding effective_upper_bound effective_determinable
open-effective_upper_bound p unsure i h =
    rw unsure (bit-or i _ p.effective_mask ∙ ground (arith, h))

exact-effective_upper_bound :
    (p : EffectivePermission)
    → effective_determinable p ≡ true
    → effective_upper_bound p ≡ p.effective_mask
unfolding effective_upper_bound effective_determinable
exact-effective_upper_bound p sure = ground arith

-- The fields of the result are the ones that the share side was computed with.
shared_fields :
    (input : PermissionEvaluationInput)
    → ((evaluate input).ntfs_mask ≡ ntfs_raw input)
      × ((evaluate input).share_mask ≡ (share_side input.share_status (ntfs_raw input)).0)
      × ((evaluate input).share_status ≡ (share_side input.share_status (ntfs_raw input)).1)
unfolding first_result
shared_fields input = evaluate-SameMasks input

restrict-evaluate :
    (input : PermissionEvaluationInput) (raw : ℕ) (open_share : Bool)
    → BitsIn raw (ntfs_upper (ntfs_raw input) (evaluate input).diagnostics)
    → BitsIn (through_share input.share_status raw) (
        restrict_upper
          (evaluate input).share_status
          (evaluate input).share_mask
          open_share
          (ntfs_upper (evaluate input).ntfs_mask (evaluate input).diagnostics))
restrict-evaluate input raw open_share h =
    let (ntfs, mask, status) = shared_fields input in
    λ i e.
      rw (ntfs, mask, status)
        (through_share-restrict input.share_status (ntfs_raw input) raw
          (ntfs_upper (ntfs_raw input) (evaluate input).diagnostics) open_share h i e)

-- For an object with a DACL of 32-bit masks and an account whose logon is not refused: every right
-- that a possible real token has through the share as it was read lies within the upper bound of
-- the result, whether or not the result is called determinable.
pub evaluate_bounded :
    (input : PermissionEvaluationInput) (allows denies : String → Bool) (owner : ℕ)
    → input.file_system_object.null_dacl ≡ false
    → AreWords input.file_system_object.dacl
    → IsPossible (bounds_input input) input.file_system_object.dacl allows denies owner
    → is_refused input.selective_authentication ≡ false
    → BitsIn
        (through_share input.share_status
          (rights input.file_system_object.dacl allows denies owner))
        (effective_upper_bound (evaluate input))
evaluate_bounded input allows denies owner null words possible accepted i h =
    elim (Bool-cases (effective_determinable (evaluate input))) [
      | inl sure ↦
          ap (bit i) (
            exact-effective_upper_bound (evaluate input) sure
            ∙ evaluate_exact input allows denies owner null words possible accepted sure)
          ∙ h
      | inr unsure ↦ open-effective_upper_bound (evaluate input) unsure i (
          restrict-evaluate input (rights input.file_system_object.dacl allows denies owner)
            (any (λ u. opens_share u.layer) (uncertainty (evaluate input)))
            (rights-ntfs_upper input allows denies owner null words possible) i h)
    ]
