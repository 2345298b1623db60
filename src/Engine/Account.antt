-- ===== src/Engine/Account.antt =====
-- crates/permission_engine/src/engine.rs: the token that `evaluate` matches against, and the logon
-- decision at its end.
use stars_ad_permission_anal.Base.{
  Bool, true, false, not, ◌&&◌, ◌||◌, any, List, [], ◌∷◌, Option, none, some, ◌≡◌, refl, arith,
  contains, remove, SidSet, contains-insert, contains-remove, str_eq,
}
use stars_ad_permission_anal.Model.{Sid}
use stars_ad_permission_anal.Token.WellKnown.{
  sid_everyone, sid_authenticated_users, sid_owner_rights, sid_cryptographic_operators,
  anonymous_gets_everyone,
}
use stars_ad_permission_anal.Token.Build.{collect_user_sids}
use stars_ad_permission_anal.Token.Members.{
  brought_by, logon_sid, sure_well_known, contains-build_token_sids_with_context,
}
use stars_ad_permission_anal.Engine.Input.{PermissionEvaluationInput}
use stars_ad_permission_anal.Engine.Rights.{
  remove_all, token_before, user_sids, user_is_owner, is_owned_by, match_sids,
}

contains-remove_all :
    (filtered : List Sid) (set : SidSet) (s : Sid)
    → contains (remove_all filtered set) s ≡ (not (contains filtered s) && contains set s)
unfolding remove_all
contains-remove_all [] set s = refl
contains-remove_all (f ∷ rest) set s =
    ground (arith, contains-remove_all rest (remove f set) s, contains-remove f s set)

-- The policy that an anonymous logon counts as Everyone was read and is on.
abbrev includes_anonymous : Option Bool → Bool
includes_anonymous (some included) = included
includes_anonymous none = false

-- The SIDs that the account surely brings: its own and its historical ones, those of its groups, its
-- local groups, the well-known ones that it has, and the one that tells how it logged on.
abbrev brought : PermissionEvaluationInput → Sid → Bool
brought input s =
    logon_sid input.access_context s
    || any (λ w. str_eq w s && sure_well_known input.identity.sid w)
        (sid_everyone ∷ sid_authenticated_users ∷ [])
    || contains input.local_group_sids s
    || any (brought_by s) input.group_memberships
    || contains input.identity.sid_history s
    || str_eq input.identity.sid s

-- What the account surely has enabled: never Cryptographic Operators; Everyone where the policy
-- gives it to an anonymous logon; else what it brings and User Account Control does not filter.
abbrev pub held : PermissionEvaluationInput → Sid → Bool
held input s =
    not (str_eq "S-1-5-32-569" s)
    && ((str_eq input.identity.sid "S-1-5-7"
          && includes_anonymous input.anonymous_everyone
          && str_eq "S-1-1-0" s)
        || (not (contains input.uac_filtered_group_sids s) && brought input s))

-- The account surely is, or is in, the owner of the object.
abbrev pub owns : (Sid → Bool) → Option Sid → Bool
owns has none = false
owns has (some owner) = has owner

anonymous-held :
    (sid : Sid) (policy : Option Bool)
    → anonymous_gets_everyone sid policy ≡ (str_eq sid "S-1-5-7" && includes_anonymous policy)
unfolding anonymous_gets_everyone
anonymous-held sid none = ground arith
anonymous-held sid (some true) = ground arith
anonymous-held sid (some false) = ground arith

contains-user_sids :
    (input : PermissionEvaluationInput) (s : Sid) → contains (user_sids input) s ≡ held input s
unfolding user_sids token_before collect_user_sids
contains-user_sids input s =
    let base =
      collect_user_sids input.identity input.group_memberships input.local_group_sids
        input.access_context in
    let kept = remove_all input.uac_filtered_group_sids base in
    ground (
      arith,
      contains-remove sid_cryptographic_operators s (token_before input),
      contains-insert sid_everyone s kept,
      contains-remove_all input.uac_filtered_group_sids base s,
      anonymous-held input.identity.sid input.anonymous_everyone,
      contains-build_token_sids_with_context input.identity.sid input.identity.sid_history
          input.group_memberships input.local_group_sids input.access_context s,
    )

owned-owns :
    (input : PermissionEvaluationInput) (owner : Option Sid)
    → is_owned_by (user_sids input) owner ≡ owns (held input) owner
unfolding is_owned_by
owned-owns input none = refl
owned-owns input (some owner) = contains-user_sids input owner

pub user_is_owner-owns :
    (input : PermissionEvaluationInput)
    → user_is_owner input ≡ owns (held input) input.file_system_object.owner_sid
unfolding user_is_owner
user_is_owner-owns input = owned-owns input input.file_system_object.owner_sid

-- The walk of an evaluation matches an Allow entry for a SID exactly when the account surely has the
-- SID enabled, or the SID is OWNER RIGHTS and the account surely has the owner of the object
-- enabled. Everyone by the policy for an anonymous logon counts even if it is listed as filtered.
pub contains-match_sids :
    (input : PermissionEvaluationInput) (s : Sid)
    → contains (match_sids input) s ≡ (
        held input s
        || (owns (held input) input.file_system_object.owner_sid && str_eq "S-1-3-4" s))
unfolding match_sids
contains-match_sids input s = ground (
  arith,
  contains-user_sids input s,
  user_is_owner-owns input,
  contains-insert sid_owner_rights s (user_sids input),
)
