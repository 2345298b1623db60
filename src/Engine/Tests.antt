-- ===== src/Engine/Tests.antt =====
-- An evaluation over a share: a DACL with one entry for the account.
use stars_ad_permission_anal.Base.{BitsIn, [], arith, refl, some, ◌∷◌, ◌≡◌}
use stars_ad_permission_anal.Model.{ShareMaskStatus}
use stars_ad_permission_anal.Model.Effective.{effective_upper_bound}
use stars_ad_permission_anal.Bounds.Possible.{rights}
use stars_ad_permission_anal.Bounds.Exact.{shown-IsPossible}
use stars_ad_permission_anal.Bounds.{certain_allow, certain_deny}
use stars_ad_permission_anal.Engine.Input.{PermissionEvaluationInput}
use stars_ad_permission_anal.Engine.Rights.{bounds_input, match_sids}
use stars_ad_permission_anal.Engine.Exact.{through_share, evaluate_exact}
use stars_ad_permission_anal.Engine.UpperBound.{evaluate_bounded}
use stars_ad_permission_anal.Engine.{evaluate}
use stars_ad_permission_anal.Base.{not, ◌&&◌, ◌||◌, str_eq, contains}
use stars_ad_permission_anal.Engine.Input.{SelectiveAuthenticationCheck}
use stars_ad_permission_anal.Engine.Account.{held, owns, contains-match_sids}
use stars_ad_permission_anal.Engine.Masks.{
  counts, names_owner_rights, let_in, share_lets, bit-ntfs_mask, bit-effective_mask,
}
use stars_ad_permission_anal.Dacl.Decision.{first_decider, allowed}
use stars_ad_permission_anal.Base.{bit, ◌==◌}
use stars_ad_permission_anal.Engine.Example.Determinable.{request-determinable}
use stars_ad_permission_anal.Engine.Example.{modify_entry, folder, request}

evaluate_exact_example :
    (evaluate request).effective_mask
    ≡ through_share (ShareMaskStatus.applied 0x0012_00a9) (
        rights
          (modify_entry ∷ [])
          (certain_allow (bounds_input request))
          (certain_deny (bounds_input request))
          (bounds_input request).owner_implicit_bits)
evaluate_exact_example =
    evaluate_exact request (certain_allow (bounds_input request))
      (certain_deny (bounds_input request)) (bounds_input request).owner_implicit_bits refl
      (omega arith, tt) (shown-IsPossible (bounds_input request) (modify_entry ∷ [])) refl
      request-determinable

evaluate_bounded_example :
    BitsIn
      (through_share (ShareMaskStatus.applied 0x0012_00a9) (
        rights
          (modify_entry ∷ [])
          (certain_allow (bounds_input request))
          (certain_deny (bounds_input request))
          (bounds_input request).owner_implicit_bits))
      (effective_upper_bound (evaluate request))
evaluate_bounded_example =
    evaluate_bounded request (certain_allow (bounds_input request))
      (certain_deny (bounds_input request)) (bounds_input request).owner_implicit_bits refl
      (omega arith, tt) (shown-IsPossible (bounds_input request) (modify_entry ∷ [])) refl

-- The same request where the account owns the folder and Selective Authentication refuses the
-- logon.
abbrev owner_request : PermissionEvaluationInput
owner_request = record request {
  file_system_object = record folder { owner_sid = some "S-1-5-21-7-8-9-1104" };
  selective_authentication = some (SelectiveAuthenticationCheck.denied "files.corp");
}

-- OWNER RIGHTS, which an owner has beside what the account brings.
contains-match_sids_example : contains (match_sids owner_request) "S-1-3-4" ≡ (
    held owner_request "S-1-3-4"
    || (owns (held owner_request) (some "S-1-5-21-7-8-9-1104") && str_eq "S-1-3-4" "S-1-3-4"))
contains-match_sids_example = contains-match_sids owner_request "S-1-3-4"

-- WRITE_DAC is right 18.
bit-ntfs_mask_example : bit 18 (evaluate owner_request).ntfs_mask ≡ (
    allowed (first_decider (counts owner_request) 18 (modify_entry ∷ []))
    || (owns (held owner_request) (some "S-1-5-21-7-8-9-1104")
        && not (names_owner_rights (modify_entry ∷ []))
        && (18 == 17 || 18 == 18)))
bit-ntfs_mask_example = bit-ntfs_mask owner_request 18 (omega arith, tt)

bit-effective_mask_example : bit 18 (evaluate owner_request).effective_mask ≡ (
    let_in (some (SelectiveAuthenticationCheck.denied "files.corp"))
    && bit 18 (evaluate owner_request).ntfs_mask
    && share_lets (ShareMaskStatus.applied 0x0012_00a9) 18)
bit-effective_mask_example = bit-effective_mask owner_request 18
