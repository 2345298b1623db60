-- ===== src/Token/Build.antt =====
-- crates/permission_engine/src/engine.rs: `build_token_sids_with_context`, the whole token.
use stars_ad_permission_anal.Base.{
  not, ◌&&◌, if◌then◌else◌, List, [], ◌∷◌, String, contains, insert, extend, SidSet,
}
use stars_ad_permission_anal.Model.{
  Sid, AccessContext, local_interactive, remote_smb, unspecified, GroupMembership, Identity,
}
use stars_ad_permission_anal.Token.WellKnown.{
  sid_everyone, sid_authenticated_users, identity_absent_well_knowns,
  identity_uncertain_well_knowns,
}

-- The `for gm in memberships` loop: the group and its historical SIDs.
unfoldable pub add_memberships : List GroupMembership → SidSet → SidSet
unfolding extend
add_memberships [] sids = sids
add_memberships (gm ∷ rest) sids =
    add_memberships rest (extend gm.group_sid_history (insert gm.group_sid sids))

-- The loop over `Everyone` and `Authenticated Users`.
unfoldable pub add_well_knowns : String → List String → SidSet → SidSet
add_well_knowns user_sid [] sids = sids
add_well_knowns user_sid (well_known ∷ rest) sids = add_well_knowns user_sid rest (
    if not (contains (identity_uncertain_well_knowns user_sid) well_known)
      && not (contains (identity_absent_well_knowns user_sid) well_known)
    then insert well_known sids
    else sids)

unfoldable pub add_context : AccessContext → SidSet → SidSet
add_context remote_smb sids = insert "S-1-5-2" sids
add_context local_interactive sids = insert "S-1-5-4" sids
add_context unspecified sids = sids

unfoldable pub build_token_sids_with_context :
    String → List Sid → List GroupMembership → List Sid → AccessContext → SidSet
build_token_sids_with_context user_sid sid_history memberships local_group_sids access_context =
    let sids = extend sid_history (insert user_sid []) in
    let sids' = extend local_group_sids (add_memberships memberships sids) in
    add_context access_context
      (add_well_knowns user_sid (sid_everyone ∷ sid_authenticated_users ∷ []) sids')

unfoldable pub build_token_sids : String → List GroupMembership → SidSet
build_token_sids user_sid memberships =
    build_token_sids_with_context user_sid [] memberships [] unspecified

unfoldable pub collect_user_sids :
    Identity → List GroupMembership → List Sid → AccessContext → SidSet
collect_user_sids identity memberships local_group_sids access_context =
    build_token_sids_with_context identity.sid identity.sid_history memberships local_group_sids
      access_context
