-- ===== src/Token/Tests.antt =====
-- Tokens of single accounts, and what the policies of a target decide.
use stars_ad_permission_anal.Base.{
  List, String, [], any, contains, extend, false, insert, none, not, some, sort_by, str_eq, true,
  ◌&&◌, ◌||◌, ◌∷◌, ◌≡◌,
}
use stars_ad_permission_anal.Model.{
  remote_smb, GroupMembership, LocalGroupDescriptor, value, absent,
}
use stars_ad_permission_anal.Token.Build.{
  add_context, add_memberships, add_well_knowns, build_token_sids_with_context,
}
use stars_ad_permission_anal.Token.LocalGroups.{
  entry_of, expand_groups, expand_local_groups_with, expansion_token, is_uncertain_member,
}
use stars_ad_permission_anal.Token.Uac.{is_remote, uac_filtered_groups, remote_uac_filtering}
use stars_ad_permission_anal.Token.WellKnown.{
  anonymous_gets_everyone, identity_absent_well_knowns, identity_uncertain_well_knowns,
  is_guest_account, sid_authenticated_users, sid_everyone, sid_local_account_and_admin,
}
use stars_ad_permission_anal.Token.Members.{
  brought_by, logon_sid, sure_well_known, contains-build_token_sids_with_context,
  contains-uac_filtered_groups,
}
use stars_ad_permission_anal.Token.FilteredKind.{filtered_kind}
use stars_ad_permission_anal.Token.Groups.{
  lists, sure_group, possible_group, lists-expand_local_groups_with,
}
use stars_ad_permission_anal.Token.Filtering.{
  is_filtered_verdict, is_not_filtered_verdict, verdict-remote_uac_filtering,
}
use stars_ad_permission_anal.Model.{unreadable, unknown}
use stars_ad_permission_anal.Token.Uac.{local_uac_filtering}
use stars_ad_permission_anal.Token.WellKnown.{anonymous_everyone}
use stars_ad_permission_anal.Token.Build.{build_token_sids}
use stars_ad_permission_anal.Base.{map, refl}
use stars_ad_permission_anal.Token.LocalGroups.{expand_local_groups, by_name, sort_via}

abbrev user : String
user = "S-1-5-21-7-8-9-1104"

-- A group that was migrated from another domain.
abbrev sales : GroupMembership
sales = record {
  member_sid = user;
  group_sid = "S-1-5-21-7-8-9-2001";
  direct = true;
  group_name = some "Sales";
  path = none;
  group_sid_history_count = 1;
  group_sid_history = "S-1-5-21-4-5-6-900" ∷ [];
}

abbrev local_users : LocalGroupDescriptor
local_users = record {
  sid = "S-1-5-32-545";
  name = "Users";
  members = "S-1-5-11" ∷ "S-1-5-21-7-8-9-2001" ∷ [];
}

contains-build_token_sids_with_context_example :
    contains (build_token_sids_with_context user [] (sales ∷ []) [] remote_smb) "S-1-5-21-4-5-6-900"
    ≡ (logon_sid remote_smb "S-1-5-21-4-5-6-900"
        || any
            (λ w. str_eq w "S-1-5-21-4-5-6-900" && sure_well_known user w)
            (sid_everyone ∷ sid_authenticated_users ∷ [])
        || contains [] "S-1-5-21-4-5-6-900"
        || any (brought_by "S-1-5-21-4-5-6-900") (sales ∷ [])
        || contains [] "S-1-5-21-4-5-6-900"
        || str_eq user "S-1-5-21-4-5-6-900")
contains-build_token_sids_with_context_example =
    contains-build_token_sids_with_context user [] (sales ∷ []) [] remote_smb "S-1-5-21-4-5-6-900"

contains-uac_filtered_groups_example :
    contains
      (uac_filtered_groups ("S-1-5-32-544" ∷ "S-1-5-32-545" ∷ []) true remote_smb)
      "S-1-5-114"
    ≡ (not (is_remote remote_smb && not true)
        && ((contains ("S-1-5-32-544" ∷ "S-1-5-32-545" ∷ []) "S-1-5-114"
              && filtered_kind "S-1-5-114")
            || (true
                && contains ("S-1-5-32-544" ∷ "S-1-5-32-545" ∷ []) "S-1-5-32-544"
                && str_eq sid_local_account_and_admin "S-1-5-114")))
contains-uac_filtered_groups_example =
    contains-uac_filtered_groups ("S-1-5-32-544" ∷ "S-1-5-32-545" ∷ []) true remote_smb "S-1-5-114"

abbrev expansion_example_token : List String
expansion_example_token = expansion_token user [] (sales ∷ []) remote_smb none

lists-expand_local_groups_with_example :
    let out =
      expand_local_groups_with (λ s. s) user [] (sales ∷ []) (local_users ∷ []) remote_smb none in
    let uncertain = is_uncertain_member user remote_smb none expansion_example_token in
    (lists "S-1-5-32-545" out.certain
      ≡ any (sure_group user expansion_example_token uncertain "S-1-5-32-545") (local_users ∷ []))
    × (lists "S-1-5-32-545" out.logon_dependent
        ≡ any
            (possible_group user expansion_example_token uncertain "S-1-5-32-545")
            (local_users ∷ []))
lists-expand_local_groups_with_example =
    lists-expand_local_groups_with (λ s. s) user [] (sales ∷ []) (local_users ∷ []) remote_smb none
      "S-1-5-32-545"

-- The built-in Administrator with no policy set keeps the full network token.
verdict-remote_uac_filtering_example :
    (is_filtered_verdict (remote_uac_filtering true (value 1) absent absent) ≡ false)
    × (is_not_filtered_verdict (remote_uac_filtering true (value 1) absent absent) ≡ true)
verdict-remote_uac_filtering_example = verdict-remote_uac_filtering true (value 1) absent absent

anonymous_by_default : anonymous_everyone absent ≡ some false
unfolding anonymous_everyone
anonymous_by_default = refl

local_unreadable : local_uac_filtering true (unreadable "no access") absent ≡ unknown
unfolding local_uac_filtering
local_unreadable = refl

token_alone : contains (build_token_sids user []) "S-1-5-11" ≡ true
unfolding build_token_sids build_token_sids_with_context insert extend add_context add_memberships
    add_well_knowns is_guest_account identity_absent_well_knowns identity_uncertain_well_knowns
token_alone = refl

-- The user's own SID comes first among the members that lead into a group.
account_first : sort_via user ("S-1-5-11" ∷ user ∷ []) ≡ user ∷ "S-1-5-11" ∷ []
unfolding sort_via
account_first = refl

users_by_name :
    map
      (λ e. e.name)
      (expand_local_groups (λ s. s) user [] (sales ∷ []) (local_users ∷ []) remote_smb).certain
    ≡ "Users" ∷ []
unfolding by_name expansion_token expand_local_groups expand_local_groups_with
    build_token_sids_with_context insert extend sort_by add_context entry_of add_memberships
    add_well_knowns expand_groups is_guest_account anonymous_gets_everyone
    identity_absent_well_knowns identity_uncertain_well_knowns
users_by_name = refl
