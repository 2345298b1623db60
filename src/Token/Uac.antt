-- ===== src/Token/Uac.antt =====
-- crates/permission_engine/src/engine.rs: which groups User Account Control filters, and what the
-- target's policies decide about it.
use stars_ad_permission_anal.Base.{
  ℕ, Bool, true, false, not, ◌&&◌, ◌==◌, if◌then◌else◌, List, [], ◌∷◌, ◌++◌, Option, none, some,
  String, contains, str_eq, str_le, split_count, parse_unsigned, max_u32, any, filter, sort_by,
  dedup, ◌⊕◌,
}
use stars_ad_permission_anal.Base.Format.{dec}
use stars_ad_permission_anal.Model.{
  Sid, AccessContext, local_interactive, remote_smb, unspecified, PolicyDword, value, absent,
  unreadable, RemoteUacFiltering, unknown, filtered, not_filtered,
}
use stars_ad_permission_anal.Token.WellKnown.{domain_and_rid, sid_local_account_and_admin}

abbrev pub uac_filtered_builtin_groups : List String
uac_filtered_builtin_groups =
    "S-1-5-32-544" ∷ "S-1-5-32-547" ∷ "S-1-5-32-548" ∷ "S-1-5-32-549" ∷ "S-1-5-32-550"
    ∷ "S-1-5-32-551" ∷ "S-1-5-32-554" ∷ "S-1-5-32-556" ∷ []

abbrev pub uac_filtered_domain_rids : List ℕ
uac_filtered_domain_rids = 498 ∷ 512 ∷ 516 ∷ 517 ∷ 518 ∷ 519 ∷ 520 ∷ 521 ∷ []

unfoldable pub is_filtered_rid : Option ℕ → Bool
is_filtered_rid none = false
is_filtered_rid (some r) = any (λ rid. rid == r) uac_filtered_domain_rids

unfoldable pub is_uac_filtered_group : String → Bool
unfolding domain_and_rid split_count is_filtered_rid parse_unsigned
is_uac_filtered_group sid =
    if contains uac_filtered_builtin_groups sid then true else elim (domain_and_rid sid) [
      | none ↦ false
      | some (domain, rid) ↦
          split_count b'-' domain == 3 && is_filtered_rid (parse_unsigned max_u32 rid)
    ]

abbrev pub is_remote : AccessContext → Bool
is_remote remote_smb = true
is_remote local_interactive = false
is_remote unspecified = false

unfoldable pub uac_filtered_groups : List Sid → Bool → AccessContext → List Sid
uac_filtered_groups token_groups local_account context =
    let chosen = filter is_uac_filtered_group token_groups in
    let with_admin =
      if local_account && any (λ s. str_eq s "S-1-5-32-544") chosen
      then chosen ++ sid_local_account_and_admin ∷ []
      else chosen in
    if is_remote context && not local_account then [] else dedup str_eq (sort_by str_le with_admin)

-- `flag` of `remote_uac_filtering`: a policy value as a switch.
unfoldable pub flag : PolicyDword → Bool → Option Bool
flag (value n) default = if n == 0 then some false else if n == 1 then some true else none
flag absent default = some default
flag (unreadable reason) default = none

unfoldable pub shown : PolicyDword → String
unfolding dec
shown (value n) = dec n
shown absent = "0 (not set, default)"
shown (unreadable e) = "unreadable (" ⊕ e ⊕ ")"

-- The decision once the three policies are known.
unfoldable pub decide_remote : Bool → Bool → Bool → Bool → String → RemoteUacFiltering
decide_remote builtin_administrator lua latfp fat values =
    if not lua
    then unknown
    else if latfp
    then not_filtered (values ⊕ " — remote User Account Control does not filter local accounts")
    else if builtin_administrator && not fat
    then not_filtered (values ⊕ " — the built-in Administrator keeps its full network token")
    else filtered
        (values ⊕ " — remote User Account Control filters this local account's network token")

unfoldable pub all_three : Option Bool → Option Bool → Option Bool → Option (Bool × Bool × Bool)
all_three (some a) (some b) (some c) = some (a, b, c)
all_three (some a) (some b) none = none
all_three (some a) none c = none
all_three none b c = none

unfoldable pub remote_uac_filtering :
    Bool → PolicyDword → PolicyDword → PolicyDword → RemoteUacFiltering
unfolding flag all_three shown decide_remote
remote_uac_filtering builtin_administrator enable_lua latfp_value fat_value =
    let values =
      "read from the target: LocalAccountTokenFilterPolicy = "
      ⊕ shown latfp_value
      ⊕ ", FilterAdministratorToken = "
      ⊕ shown fat_value in
    elim (all_three (flag enable_lua true) (flag latfp_value false) (flag fat_value false)) [
      | none ↦ unknown
      | some (lua, latfp, fat) ↦ decide_remote builtin_administrator lua latfp fat values
    ]

-- `PolicyDword::Absent | PolicyDword::Value(n)` for the default `n`.
abbrev pub is_absent_or : ℕ → PolicyDword → Bool
is_absent_or n absent = true
is_absent_or n (value v) = v == n
is_absent_or n (unreadable reason) = false

unfoldable pub local_uac_filtering : Bool → PolicyDword → PolicyDword → RemoteUacFiltering
local_uac_filtering builtin_administrator enable_lua fat_value =
    if not builtin_administrator
    then unknown
    else if is_absent_or 1 enable_lua && is_absent_or 0 fat_value
    then not_filtered
        "read from the target: FilterAdministratorToken = 0 — the built-in Administrator's interactive token is not split (full token, measured)"
    else unknown
