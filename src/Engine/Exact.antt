-- ===== src/Engine/Exact.antt =====
-- crates/permission_engine/src/engine.rs: the effective mask of `evaluate` against the real tokens
-- that the known data leaves possible, where the result is called determinable.
use stars_ad_permission_anal.Base.{
  bit_and, ℕ, Bool, true, false, bit_or, none, String, ◌≡◌, refl, ◌∙◌, ap, sym, arith,
}
use stars_ad_permission_anal.Model.{ShareMaskStatus}
use stars_ad_permission_anal.Model.Effective.{EffectivePermission, effective_determinable}
use stars_ad_permission_anal.Dacl.{walk_dacl_stored_order}
use stars_ad_permission_anal.Dacl.Walk.{AreWords}
use stars_ad_permission_anal.Dacl.Agree.{walk_agrees}
use stars_ad_permission_anal.Bounds.Possible.{IsPossible, rights}
use stars_ad_permission_anal.Bounds.Exact.{shown_rights, bounds_exact}
use stars_ad_permission_anal.Engine.Input.{PermissionEvaluationInput}
use stars_ad_permission_anal.Engine.Rights.{
  walk, ntfs_raw, share_side, bounds_input, logon_dependent, match_sids, owner_implicit_bits,
}
use stars_ad_permission_anal.Engine.Ranges.{determinable-no_range}
use stars_ad_permission_anal.Engine.{evaluate, first_result, settle_logon, finish, is_refused}

-- The effective mask of a token with these rights: only a share whose mask was read restricts it.
abbrev pub through_share : ShareMaskStatus → ℕ → ℕ
through_share ShareMaskStatus.not_applicable raw = raw
through_share (ShareMaskStatus.applied mask) raw = bit_and raw mask
through_share ShareMaskStatus.unrestricted raw = raw
through_share (ShareMaskStatus.read_failed msg) raw = raw

share_side-through_share :
    (status : ShareMaskStatus) (raw : ℕ) → (share_side status raw).2 ≡ through_share status raw
unfolding share_side
share_side-through_share ShareMaskStatus.not_applicable raw = refl
share_side-through_share (ShareMaskStatus.applied mask) raw = refl
share_side-through_share ShareMaskStatus.unrestricted raw = refl
share_side-through_share (ShareMaskStatus.read_failed msg) raw = refl

-- With a DACL present, the grant is the one of the stored-order walk.
pub granted-walk :
    (input : PermissionEvaluationInput)
    → input.file_system_object.null_dacl ≡ false
    → (walk input).granted
      ≡ (walk_dacl_stored_order input.file_system_object.dacl
          (match_sids input)
          input.uac_filtered_group_sids).granted
unfolding walk
granted-walk input null = ground arith

-- The shown NTFS mask is the one of the certain trustees.
ntfs_raw-shown :
    (input : PermissionEvaluationInput)
    → input.file_system_object.null_dacl ≡ false
    → AreWords input.file_system_object.dacl
    → ntfs_raw input ≡ shown_rights (bounds_input input) input.file_system_object.dacl
unfolding ntfs_raw bounds_input
ntfs_raw-shown input null words =
    ap (λ g. bit_or g (owner_implicit_bits input))
      (granted-walk input null
        ∙ walk_agrees input.file_system_object.dacl (match_sids input) input.uac_filtered_group_sids
            words)

settle_logon-mask : (p : EffectivePermission) → (settle_logon p).effective_mask ≡ p.effective_mask
unfolding settle_logon
settle_logon-mask p = ground arith

finish-mask :
    (input : PermissionEvaluationInput) (p : EffectivePermission)
    → is_refused input.selective_authentication ≡ false
    → (finish input p).effective_mask ≡ p.effective_mask
unfolding finish
finish-mask input p e = rw e (ground arith)

first_result-mask :
    (input : PermissionEvaluationInput)
    → (first_result input).effective_mask ≡ through_share input.share_status (ntfs_raw input)
unfolding first_result
first_result-mask input = share_side-through_share input.share_status (ntfs_raw input)

pub evaluate-mask :
    (input : PermissionEvaluationInput)
    → is_refused input.selective_authentication ≡ false
    → (evaluate input).effective_mask ≡ through_share input.share_status (ntfs_raw input)
unfolding evaluate
evaluate-mask input e =
    finish-mask input (settle_logon (first_result input)) e
    ∙ settle_logon-mask (first_result input)
    ∙ first_result-mask input

pub no_bounds-exact :
    (input : PermissionEvaluationInput) (allows denies : String → Bool) (owner : ℕ)
    → input.file_system_object.null_dacl ≡ false
    → AreWords input.file_system_object.dacl
    → IsPossible (bounds_input input) input.file_system_object.dacl allows denies owner
    → logon_dependent input ≡ none
    → rights input.file_system_object.dacl allows denies owner ≡ ntfs_raw input
unfolding logon_dependent
no_bounds-exact input allows denies owner null words possible e =
    bounds_exact (bounds_input input) input.file_system_object.dacl allows denies owner words
      possible (ground arith)
    ∙ sym (ntfs_raw-shown input null words)

-- For an object with a DACL of 32-bit masks and an account whose logon is not refused: if the
-- result is called determinable, every possible real token has exactly the effective mask shown,
-- through the share as it was read.
pub evaluate_exact :
    (input : PermissionEvaluationInput) (allows denies : String → Bool) (owner : ℕ)
    → input.file_system_object.null_dacl ≡ false
    → AreWords input.file_system_object.dacl
    → IsPossible (bounds_input input) input.file_system_object.dacl allows denies owner
    → is_refused input.selective_authentication ≡ false
    → effective_determinable (evaluate input) ≡ true
    → (evaluate input).effective_mask
      ≡ through_share input.share_status (rights input.file_system_object.dacl allows denies owner)
evaluate_exact input allows denies owner null words possible accepted sure =
    evaluate-mask input accepted
    ∙ ap (through_share input.share_status) (
        sym (
          no_bounds-exact input allows denies owner null words possible
            (determinable-no_range input sure)))
