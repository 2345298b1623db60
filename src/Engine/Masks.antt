-- ===== src/Engine/Masks.antt =====
-- crates/permission_engine/src/engine.rs: the two masks of a result, right by right, from what is
-- evaluated.
use mathlib.Core.Path.{fun_ext}
use stars_ad_permission_anal.Base.{
  ℕ, Bool, true, false, not, ◌&&◌, ◌||◌, ◌==◌, bit, bit-or, bit-and, bit-pow, bit_or, bit-zero,
  if◌then◌else◌, List, Option, none, some, any, str_eq, contains, Bool-cases, inl, inr, ◌≡◌, refl,
  ap, ◌∙◌, arith,
}
use stars_ad_permission_anal.Model.{ShareMaskStatus, AceEntry}
use stars_ad_permission_anal.Mask.{file_read_control, file_write_dac}
use stars_ad_permission_anal.Model.Effective.{EffectivePermission}
use stars_ad_permission_anal.Dacl.{ace_applies_to_current_object, ace_matches, is_deny}
use stars_ad_permission_anal.Dacl.Decision.{first_decider, allowed}
use stars_ad_permission_anal.Dacl.StoredOrder.{matching}
use stars_ad_permission_anal.Dacl.Walk.{AreWords}
use stars_ad_permission_anal.Dacl.Correct.{walk_decides}
use stars_ad_permission_anal.Bounds.{owner_rights_ace}
use stars_ad_permission_anal.Engine.Input.{PermissionEvaluationInput, SelectiveAuthenticationCheck}
use stars_ad_permission_anal.Engine.Rights.{
  match_sids, user_is_owner, owner_rights_ace_present, owner_implicit_bits, ntfs_raw, walk,
}
use stars_ad_permission_anal.Engine.Exact.{through_share, evaluate-mask, granted-walk}
use stars_ad_permission_anal.Engine.UpperBound.{evaluate-SameMasks}
use stars_ad_permission_anal.Engine.{evaluate, first_result, settle_logon, finish, is_refused}
use stars_ad_permission_anal.Engine.Account.{held, owns, contains-match_sids, user_is_owner-owns}

-- An entry counts if it applies to the object and its SID is one that the account surely has
-- enabled, OWNER RIGHTS for an owner, or, for a Deny, one that is filtered.
abbrev pub counts : PermissionEvaluationInput → AceEntry → Bool
counts input ace =
    ace_applies_to_current_object ace
    && (held input ace.sid
        || (owns (held input) input.file_system_object.owner_sid && str_eq "S-1-3-4" ace.sid)
        || (is_deny ace.kind && contains input.uac_filtered_group_sids ace.sid))

-- An entry for OWNER RIGHTS that applies to the object takes the place of what an owner is granted.
abbrev pub names_owner_rights : List AceEntry → Bool
names_owner_rights dacl =
    any (λ ace. str_eq ace.sid "S-1-3-4" && ace_applies_to_current_object ace) dacl

matching-counts :
    (input : PermissionEvaluationInput)
    → matching (match_sids input) input.uac_filtered_group_sids ≡ counts input
unfolding ace_matches
matching-counts input = fun_ext λ ace. ground (arith, contains-match_sids input ace.sid)

-- READ_CONTROL is right 17 and WRITE_DAC right 18.
bit-owner : (i : ℕ) → bit i (bit_or file_read_control file_write_dac) ≡ (i == 17 || i == 18)
bit-owner i = bit-or i file_read_control file_write_dac ∙ ground (arith, bit-pow 17 i, bit-pow 18 i)

bit-owner_implicit_bits :
    (input : PermissionEvaluationInput) (i : ℕ)
    → bit i (owner_implicit_bits input) ≡ (
        owns (held input) input.file_system_object.owner_sid
        && not (names_owner_rights input.file_system_object.dacl)
        && (i == 17 || i == 18))
unfolding owner_implicit_bits owner_rights_ace_present owner_rights_ace
bit-owner_implicit_bits input i =
    rw⁻¹ (user_is_owner-owns input) (elim (Bool-cases (user_is_owner input)) [
      | inl owner ↦ rw owner (elim (Bool-cases (names_owner_rights input.file_system_object.dacl)) [
        | inl named ↦ rw named (bit-zero i)
        | inr unnamed ↦ rw unnamed (bit-owner i)
      ])
      | inr other ↦ rw other (bit-zero i)
    ])

bit-granted :
    (input : PermissionEvaluationInput) (i : ℕ)
    → AreWords input.file_system_object.dacl
    → bit i (walk input).granted ≡ (
        if input.file_system_object.null_dacl
        then bit i 0x001f_01ff
        else allowed (first_decider (counts input) i input.file_system_object.dacl))
unfolding walk
bit-granted input i words = elim (Bool-cases input.file_system_object.null_dacl) [
  | inl null ↦ ground (arith, null)
  | inr present ↦
      ap (bit i) (granted-walk input present)
      ∙ (walk_decides input.file_system_object.dacl (match_sids input) input.uac_filtered_group_sids
          i words).0
      ∙ ap (λ m. allowed (first_decider m i input.file_system_object.dacl)) (matching-counts input)
      ∙ ground (arith, present)
]

-- For an object whose DACL, if it has one, is of 32-bit masks, and every right `i`: the NTFS mask of
-- the result has it exactly in these cases. The first entry that names it, of those that apply to
-- the object and are for a SID that the account surely has enabled, for OWNER RIGHTS if the account
-- surely has the owner enabled, or a Deny for a filtered SID, is an Allow. There is no DACL and the
-- right is one of Full Control. The right is READ_CONTROL or WRITE_DAC, the account surely has the
-- owner enabled and no entry that applies is for OWNER RIGHTS.
pub bit-ntfs_mask :
    (input : PermissionEvaluationInput) (i : ℕ)
    → AreWords input.file_system_object.dacl
    → bit i (evaluate input).ntfs_mask ≡ (
        (if input.file_system_object.null_dacl
          then bit i 0x001f_01ff
          else allowed (first_decider (counts input) i input.file_system_object.dacl))
        || (owns (held input) input.file_system_object.owner_sid
            && not (names_owner_rights input.file_system_object.dacl)
            && (i == 17 || i == 18)))
unfolding first_result ntfs_raw
bit-ntfs_mask input i words =
    ap (bit i) (evaluate-SameMasks input).0
    ∙ bit-or i (walk input).granted (owner_implicit_bits input)
    ∙ ap (λ b. b || bit i (owner_implicit_bits input)) (bit-granted input i words)
    ∙ ap
        (λ b.
          (if input.file_system_object.null_dacl
            then bit i 0x001f_01ff
            else allowed (first_decider (counts input) i input.file_system_object.dacl))
          || b)
        (bit-owner_implicit_bits input i)

-- The logon is let in unless the check for selective authentication denied it.
abbrev pub let_in : Option SelectiveAuthenticationCheck → Bool
let_in none = true
let_in (some (SelectiveAuthenticationCheck.allowed server via)) = true
let_in (some (SelectiveAuthenticationCheck.denied server)) = false
let_in (some (SelectiveAuthenticationCheck.unknown server reason)) = true

-- Only a share whose mask was read withholds a right.
abbrev pub share_lets : ShareMaskStatus → ℕ → Bool
share_lets ShareMaskStatus.not_applicable i = true
share_lets (ShareMaskStatus.applied mask) i = bit i mask
share_lets ShareMaskStatus.unrestricted i = true
share_lets (ShareMaskStatus.read_failed reason) i = true

bit-through_share :
    (status : ShareMaskStatus) (raw i : ℕ)
    → bit i (through_share status raw) ≡ (bit i raw && share_lets status i)
bit-through_share ShareMaskStatus.not_applicable raw i = ground arith
bit-through_share (ShareMaskStatus.applied mask) raw i = bit-and i raw mask
bit-through_share ShareMaskStatus.unrestricted raw i = ground arith
bit-through_share (ShareMaskStatus.read_failed reason) raw i = ground arith

refused-let_in :
    (check : Option SelectiveAuthenticationCheck) → is_refused check ≡ not (let_in check)
refused-let_in none = refl
refused-let_in (some (SelectiveAuthenticationCheck.allowed server via)) = refl
refused-let_in (some (SelectiveAuthenticationCheck.denied server)) = refl
refused-let_in (some (SelectiveAuthenticationCheck.unknown server reason)) = refl

refused-mask :
    (input : PermissionEvaluationInput) (p : EffectivePermission)
    → is_refused input.selective_authentication ≡ true
    → (finish input p).effective_mask ≡ 0
unfolding finish
refused-mask input p e = rw e refl

evaluate-refused :
    (input : PermissionEvaluationInput)
    → is_refused input.selective_authentication ≡ true
    → (evaluate input).effective_mask ≡ 0
unfolding evaluate
evaluate-refused input e = refused-mask input (settle_logon (first_result input)) e

ntfs_mask-raw : (input : PermissionEvaluationInput) → (evaluate input).ntfs_mask ≡ ntfs_raw input
unfolding first_result
ntfs_mask-raw input = (evaluate-SameMasks input).0

-- For every input and every right `i`: the effective mask of the result has it exactly when the
-- logon is not denied, the NTFS mask of the result has it, and the share, where its mask was read,
-- has it too.
pub bit-effective_mask :
    (input : PermissionEvaluationInput) (i : ℕ)
    → bit i (evaluate input).effective_mask ≡ (
        let_in input.selective_authentication
        && bit i (evaluate input).ntfs_mask
        && share_lets input.share_status i)
bit-effective_mask input i = elim (Bool-cases (is_refused input.selective_authentication)) [
  | inl refused ↦
      ap (bit i) (evaluate-refused input refused)
      ∙ ground (arith, bit-zero i, refused, refused-let_in input.selective_authentication)
  | inr accepted ↦
      ap (bit i) (evaluate-mask input accepted)
      ∙ bit-through_share input.share_status (ntfs_raw input) i
      ∙ ground (
        arith,
        ap (bit i) (ntfs_mask-raw input),
        accepted,
        refused-let_in input.selective_authentication,
      )
]
