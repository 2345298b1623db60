-- ===== src/Engine/Rights.antt =====
-- crates/permission_engine/src/engine.rs: the part of `evaluate` that computes the token, the
-- NTFS mask, the bounds and the share intersection.
use stars_ad_permission_anal.Base.{
  ℕ, Bool, true, false, not, ◌&&◌, bit_and, bit_or, if◌then◌else◌, List, [], ◌∷◌, Option, none,
  some, contains, insert, extend, remove, SidSet,
}
use stars_ad_permission_anal.Model.{
  Sid, AceEntry, ShareMaskStatus, ShareEvalStatus, RemoteUacFiltering, filtered, not_filtered,
  unknown,
}
use stars_ad_permission_anal.Mask.{file_read_control, file_write_dac, mask_full_control}
use stars_ad_permission_anal.Dacl.{DaclWalkOutcome, walk_dacl_stored_order, collect_matched_aces}
use stars_ad_permission_anal.Token.WellKnown.{
  sid_everyone, sid_cryptographic_operators, sid_owner_rights, anonymous_gets_everyone,
  uncertain_well_knowns_with,
}
use stars_ad_permission_anal.Token.Build.{collect_user_sids}
use stars_ad_permission_anal.Bounds.{
  LogonDependentBounds, BoundsInput, owner_rights_ace, logon_dependent_bounds,
}
use stars_ad_permission_anal.Engine.Input.{PermissionEvaluationInput}

-- `for filtered in ... { user_sids.remove(&filtered.0); }`
unfoldable pub remove_all : List Sid → SidSet → SidSet
remove_all [] sids = sids
remove_all (s ∷ rest) sids = remove_all rest (remove s sids)

-- The token before Cryptographic Operators is taken out.
unfoldable pub token_before : PermissionEvaluationInput → SidSet
token_before input =
    let sids = remove_all input.uac_filtered_group_sids (
      collect_user_sids input.identity input.group_memberships input.local_group_sids
        input.access_context) in
    if anonymous_gets_everyone input.identity.sid input.anonymous_everyone
    then insert sid_everyone sids
    else sids

unfoldable pub crypto_operators_uncertain : PermissionEvaluationInput → Bool
crypto_operators_uncertain input = contains (token_before input) sid_cryptographic_operators

unfoldable pub user_sids : PermissionEvaluationInput → SidSet
user_sids input = remove sid_cryptographic_operators (token_before input)

unfoldable pub is_owned_by : SidSet → Option Sid → Bool
is_owned_by sids none = false
is_owned_by sids (some owner) = contains sids owner

unfoldable pub user_is_owner : PermissionEvaluationInput → Bool
user_is_owner input = is_owned_by (user_sids input) input.file_system_object.owner_sid

unfoldable pub owner_rights_ace_present : PermissionEvaluationInput → Bool
owner_rights_ace_present input =
    user_is_owner input && owner_rights_ace input.file_system_object.dacl

unfoldable pub match_sids : PermissionEvaluationInput → SidSet
match_sids input =
    if user_is_owner input then insert sid_owner_rights (user_sids input) else user_sids input

abbrev pub is_filtered : RemoteUacFiltering → Bool
is_filtered (filtered reason) = true
is_filtered (not_filtered reason) = false
is_filtered unknown = false

unfoldable pub keep_uncertain : SidSet → Bool → Option Sid → Option Sid
keep_uncertain deny_only certain none = none
keep_uncertain deny_only certain (some owner) =
    if contains deny_only owner && not certain then some owner else none

unfoldable pub uncertain_owner : PermissionEvaluationInput → Option Sid
uncertain_owner input =
    keep_uncertain input.uac_filtered_group_sids (is_filtered input.remote_uac)
      input.file_system_object.owner_sid

-- A NULL DACL grants everything; it has no entries to name.
unfoldable pub walk : PermissionEvaluationInput → DaclWalkOutcome
walk input =
    if input.file_system_object.null_dacl
    then record {
      granted = mask_full_control;
      denied = 0;
      contributions = [];
      decided_per_ace = [];
    }
    else walk_dacl_stored_order input.file_system_object.dacl (match_sids input)
        input.uac_filtered_group_sids

unfoldable pub owner_implicit_bits : PermissionEvaluationInput → ℕ
owner_implicit_bits input =
    if user_is_owner input && not (owner_rights_ace_present input)
    then bit_or file_read_control file_write_dac
    else 0

unfoldable pub ntfs_raw : PermissionEvaluationInput → ℕ
ntfs_raw input = bit_or (walk input).granted (owner_implicit_bits input)

unfoldable pub logon_dependent_groups : PermissionEvaluationInput → SidSet
logon_dependent_groups input =
    let groups = input.logon_dependent_group_sids in
    let groups' =
      if crypto_operators_uncertain input
      then insert sid_cryptographic_operators groups
      else groups in
    extend (uncertain_well_knowns_with input.identity.sid input.anonymous_everyone) groups'

unfoldable pub bounds_input : PermissionEvaluationInput → BoundsInput
bounds_input input = record {
  match_sids = match_sids input;
  context = input.access_context;
  logon_dependent_groups = logon_dependent_groups input;
  deny_only_groups = input.uac_filtered_group_sids;
  owner_implicit_bits = owner_implicit_bits input;
  uncertain_owner = uncertain_owner input;
  uac_filter_certain = is_filtered input.remote_uac;
}

unfoldable pub logon_dependent : PermissionEvaluationInput → Option LogonDependentBounds
logon_dependent input =
    if input.file_system_object.null_dacl
    then none
    else logon_dependent_bounds (bounds_input input) input.file_system_object.dacl

-- The share mask for the output, the status and the effective mask.
unfoldable pub share_side : ShareMaskStatus → ℕ → Option ℕ × ShareEvalStatus × ℕ
share_side ShareMaskStatus.not_applicable raw = (none, ShareEvalStatus.not_applicable, raw)
share_side (ShareMaskStatus.applied mask) raw =
    (some mask, ShareEvalStatus.applied, bit_and raw mask)
share_side ShareMaskStatus.unrestricted raw = (none, ShareEvalStatus.unrestricted, raw)
share_side (ShareMaskStatus.read_failed msg) raw = (none, ShareEvalStatus.read_failed msg, raw)

unfoldable pub matched_aces : PermissionEvaluationInput → List AceEntry
matched_aces input =
    collect_matched_aces input.file_system_object.dacl (match_sids input)
      input.uac_filtered_group_sids
