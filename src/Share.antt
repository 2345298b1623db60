-- ===== src/Share.antt =====
-- crates/share_scanner/src/scanner.rs: the permissions of an SMB share and what they give a token.
-- The reading of a share's security descriptor through the Windows API is a parameter.
pub mod Walk
pub mod Exact
pub mod Decisions
pub mod Read
pub mod Steps
pub mod Resolve
pub mod Whole
mod Tests
use stars_ad_permission_anal.Base.{
  ℕ, zero, suc, Bool, true, false, not, ◌&&◌, ◌||◌, ◌==◌, ltb, bit_and, bit_or, not32,
  if◌then◌else◌, List, [], ◌∷◌, Option, none, some, String, str_eq, contains, insert, extend,
  remove, SidSet, filter, any, length, is_empty,
}
use stars_ad_permission_anal.Model.{Sid, AccessContext, GroupMembership, AceKind, allow, deny}
use stars_ad_permission_anal.Mask.{expand_generic_rights}
use stars_ad_permission_anal.Dacl.{is_allow, is_deny}
use stars_ad_permission_anal.Token.WellKnown.{
  sid_cryptographic_operators, identity_uncertain_well_knowns, is_logon_dependent_for,
}
use stars_ad_permission_anal.Token.Build.{build_token_sids_with_context}

pub record SharePermission : Type 0 where
  pub share_name : String
  pub sid : Sid
  pub mask : ℕ
  pub kind : AceKind

pub data ShareDacl : Type 0 where
  null_dacl no_security_descriptor : ShareDacl
  acl : List SharePermission → ShareDacl

pub record ShareDaclScan : Type 0 where
  pub dacl : ShareDacl
  pub unsupported_count : ℕ

-- The bits that an entry decides after these.
abbrev pub open_share_bits : SharePermission → ℕ → ℕ → ℕ
open_share_bits p granted denied =
    bit_and (expand_generic_rights p.mask) (not32 (bit_or granted denied))

-- The loop of `share_walk` over the granted and the denied bits.
unfoldable pub share_from : (String → Bool) → (String → Bool) → List SharePermission → ℕ → ℕ → ℕ
share_from allow_matches deny_matches [] granted denied = granted
share_from allow_matches deny_matches (p ∷ rest) granted denied =
    let applies = if is_allow p.kind then allow_matches p.sid else deny_matches p.sid in
    let bits = open_share_bits p granted denied in
    share_from allow_matches deny_matches rest
      (if applies && is_allow p.kind then bit_or granted bits else granted)
      (if applies && is_deny p.kind then bit_or denied bits else denied)

unfoldable pub share_walk : List SharePermission → (String → Bool) → (String → Bool) → ℕ
unfolding share_from
share_walk perms allow_matches deny_matches = share_from allow_matches deny_matches perms 0 0

-- The loop of `effective_share_mask`, which passes over an entry with no open bit.
unfoldable pub effective_from : SidSet → List SharePermission → ℕ → ℕ → ℕ
effective_from user_sids [] granted denied = granted
effective_from user_sids (p ∷ rest) granted denied =
    let bits = open_share_bits p granted denied in
    let counts = contains user_sids p.sid && not (bits == 0) in
    effective_from user_sids rest
      (if counts && is_allow p.kind then bit_or granted bits else granted)
      (if counts && is_deny p.kind then bit_or denied bits else denied)

unfoldable pub effective_share_mask : ShareDacl → SidSet → Option ℕ
unfolding effective_from
effective_share_mask null_dacl user_sids = none
effective_share_mask no_security_descriptor user_sids = some 0
effective_share_mask (acl perms) user_sids = some (effective_from user_sids perms 0 0)

pub record ShareToken : Type 0 where
  pub enabled : SidSet
  pub deny_only : SidSet
  pub uncertain : SidSet
  pub deny_only_certain : Bool

-- `for sid in … { enabled.remove(sid); }`
unfoldable pub remove_sids : List String → SidSet → SidSet
remove_sids [] set = set
remove_sids (sid ∷ rest) set = remove_sids rest (remove sid set)

-- The groups that may be in the token or not.
unfoldable pub uncertain_groups : String → List Sid → List Sid → SidSet
uncertain_groups user_sid logon_dependent_group_sids uac_filtered_group_sids =
    extend (identity_uncertain_well_knowns user_sid)
      (filter (λ s. not (contains uac_filtered_group_sids s)) logon_dependent_group_sids)

unfoldable pub share_token :
    String
    → List Sid
    → List GroupMembership
    → List Sid
    → List Sid
    → List Sid
    → AccessContext
    → ShareToken
unfolding remove_sids uncertain_groups
share_token user_sid sid_history memberships local_group_sids logon_dependent_group_sids
      uac_filtered_group_sids access_context =
    let built =
      build_token_sids_with_context user_sid sid_history memberships local_group_sids
        access_context in
    let uncertain = uncertain_groups user_sid logon_dependent_group_sids uac_filtered_group_sids in
    let enabled = remove_sids uncertain (remove_sids uac_filtered_group_sids built) in
    if contains enabled sid_cryptographic_operators
    then record {
      enabled = remove sid_cryptographic_operators enabled;
      deny_only = uac_filtered_group_sids;
      uncertain = insert sid_cryptographic_operators uncertain;
      deny_only_certain = false;
    }
    else record {
      enabled = enabled;
      deny_only = uac_filtered_group_sids;
      uncertain = uncertain;
      deny_only_certain = false;
    }

abbrev pub enabled_in : ShareToken → String → Bool
enabled_in token sid = contains token.enabled sid

abbrev pub denied_in : ShareToken → String → Bool
denied_in token sid = contains token.enabled sid || contains token.deny_only sid

-- Whether the trustee of an entry is in the token is not known.
unfoldable pub is_uncertain_share : ShareToken → AccessContext → SharePermission → Bool
is_uncertain_share token context p =
    not (contains token.enabled p.sid)
    && (contains token.uncertain p.sid
        || is_logon_dependent_for p.sid context token.enabled
        || (is_allow p.kind && contains token.deny_only p.sid && not token.deny_only_certain))

-- `uncertain.iter().any(|u| u.sid.0 == sid)`
abbrev pub maybe_in : List SharePermission → String → Bool
maybe_in uncertain sid = any (λ u. str_eq u.sid sid) uncertain

unfoldable pub evaluate_share_dacl : ShareDacl → ShareToken → AccessContext → Option ℕ × ℕ
unfolding share_walk is_uncertain_share
evaluate_share_dacl null_dacl token context = (none, 0)
evaluate_share_dacl no_security_descriptor token context = (some 0, 1)
evaluate_share_dacl (acl perms) token context =
    let uncertain = filter (is_uncertain_share token context) perms in
    let shown = share_walk perms (enabled_in token) (denied_in token) in
    let max =
      share_walk perms (λ s. enabled_in token s || maybe_in uncertain s) (denied_in token) in
    let min =
      share_walk perms (enabled_in token) (λ s. denied_in token s || maybe_in uncertain s) in
    if is_empty uncertain
    then (some shown, 0)
    else (some shown, if max == min then 0 else length uncertain)

-- Share entries carry no inheritance: Deny is phase 0, Allow is phase 1.
abbrev pub phase : AceKind → ℕ
phase deny = 0
phase allow = 1

unfoldable pub first_below : ℕ → ℕ → List SharePermission → Option ℕ
first_below i max_phase [] = none
first_below i max_phase (p ∷ rest) =
    let later = first_below (suc i) (phase p.kind) rest in
    if ltb (phase p.kind) max_phase then some i else later

unfoldable pub first_non_canonical_position : List SharePermission → Option ℕ
unfolding first_below
first_non_canonical_position perms = first_below 0 0 perms
