-- ===== src/Analysis.antt =====
-- crates/analysis/src: the share mask and the filtered groups of an account, for one analysis.
use stars_ad_permission_anal.Base.{Bool, true, false, List, ◌∷◌, ◌++◌, flat_map, Option, String}
use stars_ad_permission_anal.Model.{
  Sid, AccessContext, GroupMembership, Identity, RemoteUacFiltering,
}
use stars_ad_permission_anal.Token.Uac.{uac_filtered_groups}
use stars_ad_permission_anal.Share.Read.{ShareInfo}
use stars_ad_permission_anal.Share.Resolve.{ShareResolution, resolve_share_mask_status_explained}

abbrev is_filtered : RemoteUacFiltering → Bool
is_filtered RemoteUacFiltering.unknown = false
is_filtered (RemoteUacFiltering.filtered policy) = true
is_filtered (RemoteUacFiltering.not_filtered policy) = false

unfoldable pub resolve_share_status :
    (String → String → ShareInfo)
    → String
    → Option String
    → Option String
    → Identity
    → List GroupMembership
    → List Sid
    → List Sid
    → List Sid
    → AccessContext
    → RemoteUacFiltering
    → Option Bool
    → ShareResolution
unfolding resolve_share_mask_status_explained
resolve_share_status net_share_get_info path smb_server share_name identity memberships
      local_group_sids logon_dependent_group_sids uac_filtered_group_sids access_context remote_uac
      anonymous_everyone =
    resolve_share_mask_status_explained net_share_get_info path smb_server share_name
      (record {
        user_sid = identity.sid;
        sid_history = identity.sid_history;
        memberships = memberships;
        local_group_sids = local_group_sids;
        logon_dependent_group_sids = logon_dependent_group_sids;
        uac_filtered_group_sids = uac_filtered_group_sids;
        uac_filter_certain = is_filtered remote_uac;
        anonymous_everyone = anonymous_everyone;
      })
      access_context

-- Over the domain groups with their SID history, and the local groups.
unfoldable pub uac_filtered_token_groups :
    List GroupMembership → List Sid → Bool → AccessContext → List Sid
uac_filtered_token_groups domain_memberships local_group_sids local_account access_context =
    let token_groups =
      flat_map (λ m. m.group_sid ∷ m.group_sid_history) domain_memberships ++ local_group_sids in
    uac_filtered_groups token_groups local_account access_context
