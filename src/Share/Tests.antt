-- ===== src/Share/Tests.antt =====
-- The permissions of a share that denies writing to administrators, for a filtered token.
use stars_ad_permission_anal.Base.{true, List, [], ◌∷◌, some, map, ◌≡◌, refl, arith, not32}
use stars_ad_permission_anal.Model.{allow, deny, remote_smb}
use stars_ad_permission_anal.Mask.{expand_generic_rights, map_generic}
use stars_ad_permission_anal.Token.WellKnown.{is_logon_dependent_for, is_logon_dependent_sid}
use stars_ad_permission_anal.Dacl.Walk.{AreWords}
use stars_ad_permission_anal.Share.{
  SharePermission, ShareToken, acl, share_from, share_walk, is_uncertain_share, evaluate_share_dacl,
  first_below, first_non_canonical_position,
}
use stars_ad_permission_anal.Share.Walk.{as_ace, as_bounds}
use stars_ad_permission_anal.Share.Decisions.{share_ace_decisions, granted_by, granted_by-evaluate}
use stars_ad_permission_anal.Share.Read.{
  RawAce, RawAcl, ShareInfo, parse_share_dacl, get_share_dacl,
}
use stars_ad_permission_anal.Share.Read.Counted.{IsRead, answers, get_share_dacl-counted}
use stars_ad_permission_anal.Share.Resolve.{
  ShareUser, token_of, resolve_share_mask_status, resolve_share_mask_status-exact,
}
use stars_ad_permission_anal.Paths.{resolve, parse_unc_components}
use stars_ad_permission_anal.Bounds.{BoundsInput, certain_allow, certain_deny}
use stars_ad_permission_anal.Bounds.Exact.{shown-IsPossible}
use stars_ad_permission_anal.Model.{applied}
use stars_ad_permission_anal.Base.{extend, insert}
use stars_ad_permission_anal.Token.WellKnown.{
  identity_uncertain_well_knowns, identity_absent_well_knowns, is_guest_account,
}
use stars_ad_permission_anal.Token.Build.{
  build_token_sids_with_context, add_context, add_well_knowns, add_memberships,
}
use stars_ad_permission_anal.Base.{ℕ, zero, suc, ◌+◌, String, ok, none, false, length}

abbrev denied_write : SharePermission
denied_write = record {
  share_name = "files";
  sid = "S-1-5-32-544";
  mask = 0x0000_0002;
  kind = deny;
}

abbrev allowed_change : SharePermission
allowed_change = record {
  share_name = "files";
  sid = "S-1-5-21-7-8-9-1104";
  mask = 0x0013_01bf;
  kind = allow;
}

abbrev entries : List SharePermission
entries = denied_write ∷ allowed_change ∷ []

-- The token of an administrator that the account control filters: the group denies only.
abbrev filtered : ShareToken
filtered = record {
  enabled = "S-1-5-21-7-8-9-1104" ∷ [];
  deny_only = "S-1-5-32-544" ∷ [];
  uncertain = [];
  deny_only_certain = true;
}

evaluated : evaluate_share_dacl (acl entries) filtered remote_smb ≡ (some 0x0013_01bd, 0)
unfolding evaluate_share_dacl share_walk share_from is_uncertain_share is_logon_dependent_for
    is_logon_dependent_sid expand_generic_rights map_generic not32
evaluated = refl

out_of_order : first_non_canonical_position (allowed_change ∷ denied_write ∷ []) ≡ some 1
unfolding first_non_canonical_position first_below
out_of_order = refl

granted_by-evaluate_example :
    (evaluate_share_dacl (acl entries) filtered remote_smb).0
    ≡ some (granted_by (share_ace_decisions (acl entries) filtered remote_smb))
granted_by-evaluate_example = granted_by-evaluate entries filtered remote_smb

-- The answers of the server "fs01", whose share has an entry of an unknown type as well.
abbrev raw_entry : ℕ → ℕ → String → RawAce
raw_entry ace_type mask sid = record { ace_type = ace_type; mask = mask; sid = ok sid }

abbrev raw : RawAcl
raw = record {
  ace_count = ok 2;
  get_ace = λ i. elim i [
    | zero ↦ some (raw_entry 0 0x0013_01bf "S-1-5-21-7-8-9-1104")
    | suc j ↦ some (raw_entry 5 0x0000_0001 "S-1-1-0")
  ];
}

abbrev net : String → String → ShareInfo
net server share_name = record { status = 0; buffer = some (some (ok (true, some raw))) }

get_share_dacl-counted_example :
    (permissions : List SharePermission) × (unsupported : ℕ) × (get_share_dacl net "fs01" "files"
      ≡ ok (record { dacl = acl permissions; unsupported_count = unsupported }))
    × IsRead "files" (answers raw.get_ace 2 0) permissions unsupported
    × (length permissions + unsupported ≡ 2)
get_share_dacl-counted_example = get_share_dacl-counted net "fs01" "files" raw 2 refl refl

abbrev readable : RawAcl
readable = record {
  ace_count = ok 1;
  get_ace = λ i. some (raw_entry 0 0x0013_01bf "S-1-5-21-7-8-9-1104");
}

abbrev net_readable : String → String → ShareInfo
net_readable server share_name = record {
  status = 0;
  buffer = some (some (ok (true, some readable)));
}

abbrev user : ShareUser
user = record {
  user_sid = "S-1-5-21-7-8-9-1104";
  sid_history = [];
  memberships = [];
  local_group_sids = [];
  logon_dependent_group_sids = [];
  uac_filtered_group_sids = [];
  uac_filter_certain = false;
  anonymous_everyone = none;
}

abbrev user_input : BoundsInput
user_input = as_bounds (token_of user remote_smb) remote_smb

allowed-AreWords : AreWords (map as_ace (allowed_change ∷ []))
allowed-AreWords = (omega arith, tt)

abbrev none_unsupported : ℕ
none_unsupported = 0

shown :
    resolve_share_mask_status net_readable "\\\\fs01\\files\\folder" none none user remote_smb
    ≡ (applied 0x0013_01bf, 0)
unfolding resolve_share_mask_status resolve parse_unc_components token_of get_share_dacl
    parse_share_dacl evaluate_share_dacl share_walk share_from is_uncertain_share
    is_logon_dependent_for is_logon_dependent_sid expand_generic_rights map_generic not32 extend
    insert identity_uncertain_well_knowns identity_absent_well_knowns is_guest_account
    build_token_sids_with_context add_context add_well_knowns add_memberships
shown = refl

resolve_share_mask_status-exact_example :
    (none_unsupported ≡ 0)
    × (share_walk (allowed_change ∷ []) (certain_allow user_input) (certain_deny user_input)
        ≡ 0x0013_01bf)
unfolding resolve parse_unc_components get_share_dacl
resolve_share_mask_status-exact_example =
    resolve_share_mask_status-exact net_readable "\\\\fs01\\files\\folder" none none user remote_smb
      (record { server = "fs01"; share = "files" }) (allowed_change ∷ []) none_unsupported
      0x0013_01bf (certain_allow user_input) (certain_deny user_input) refl refl allowed-AreWords
      (shown-IsPossible user_input (map as_ace (allowed_change ∷ []))) shown
