-- ===== src/Token/LocalGroups.antt =====
-- crates/permission_engine/src/engine.rs: `expand_local_groups_with`, the local groups of a target
-- server that an account is in. `str::to_lowercase` orders the names.
use stars_ad_permission_anal.Base.{
  Bool, true, false, not, ◌&&◌, ◌||◌, if◌then◌else◌, List, [], ◌∷◌, Option, none, String, contains,
  insert, SidSet, str_eq, str_le, filter, sort_by, dedup, is_empty,
}
use stars_ad_permission_anal.Model.{
  Sid, AccessContext, GroupMembership, LocalGroupDescriptor, LocalGroupEntry, LocalGroupExpansion,
}
use stars_ad_permission_anal.Token.WellKnown.{
  sid_everyone, anonymous_gets_everyone, uncertain_well_knowns_with, is_logon_dependent_for,
}
use stars_ad_permission_anal.Token.Build.{build_token_sids_with_context}

-- `sort_via`: the account itself first, then by SID.
unfoldable pub via_le : String → Sid → Sid → Bool
via_le user_sid a b =
    if str_eq a user_sid
    then if str_eq b user_sid then str_le a b else true
    else if str_eq b user_sid
    then false
    else str_le a b

unfoldable pub sort_via : String → List Sid → List Sid
unfolding sort_by dedup via_le
sort_via user_sid via = dedup str_eq (sort_by (via_le user_sid) via)

-- The token against which the members are held.
unfoldable pub expansion_token :
    String → List Sid → List GroupMembership → AccessContext → Option Bool → SidSet
expansion_token user_sid sid_history memberships context anonymous_everyone =
    let token = build_token_sids_with_context user_sid sid_history memberships [] context in
    if anonymous_gets_everyone user_sid anonymous_everyone then insert sid_everyone token else token

unfoldable pub is_uncertain_member : String → AccessContext → Option Bool → SidSet → Sid → Bool
is_uncertain_member user_sid context anonymous_everyone token m =
    not (contains token m)
    && (is_logon_dependent_for m context token
        || contains (uncertain_well_knowns_with user_sid anonymous_everyone) m)

unfoldable pub entry_of : String → LocalGroupDescriptor → List Sid → LocalGroupEntry
entry_of user_sid group via = record {
  group = group.sid;
  name = group.name;
  via = sort_via user_sid via;
}

-- The `for group in groups` loop.
unfoldable pub expand_groups :
    String → SidSet → (Sid → Bool) → List LocalGroupDescriptor → LocalGroupExpansion
expand_groups user_sid token uncertain [] = record { certain = []; logon_dependent = [] }
expand_groups user_sid token uncertain (group ∷ rest) =
    let out = expand_groups user_sid token uncertain rest in
    let sure = filter (contains token) group.members in
    let maybe = filter uncertain group.members in
    if not (is_empty sure)
    then record out { certain = entry_of user_sid group sure ∷ out.certain }
    else if not (is_empty maybe)
    then record out { logon_dependent = entry_of user_sid group maybe ∷ out.logon_dependent }
    else out

module _ (to_lowercase : String → String) where
  -- `by_name`
  unfoldable pub by_name : LocalGroupEntry → LocalGroupEntry → Bool
  by_name a b =
      if str_eq (to_lowercase a.name) (to_lowercase b.name)
      then str_le a.group b.group
      else str_le (to_lowercase a.name) (to_lowercase b.name)

  unfoldable pub expand_local_groups_with :
      String
      → List Sid
      → List GroupMembership
      → List LocalGroupDescriptor
      → AccessContext
      → Option Bool
      → LocalGroupExpansion
  expand_local_groups_with user_sid sid_history memberships groups context anonymous_everyone =
      let token = expansion_token user_sid sid_history memberships context anonymous_everyone in
      let out =
        expand_groups user_sid token (is_uncertain_member user_sid context anonymous_everyone token)
          groups in
      record {
        certain = sort_by by_name out.certain;
        logon_dependent = sort_by by_name out.logon_dependent;
      }

  unfoldable pub expand_local_groups :
      String
      → List Sid
      → List GroupMembership
      → List LocalGroupDescriptor
      → AccessContext
      → LocalGroupExpansion
  expand_local_groups user_sid sid_history memberships groups context =
      expand_local_groups_with user_sid sid_history memberships groups context none
