-- ===== src/Model/Diagnostic/Summary.antt =====
-- crates/core/src/model.rs: `PermissionDiagnostic::summary`, the one-line text of a marker, and
-- `DfsEvaluation::entry_label`.
use stars_ad_permission_anal.Base.{
  ℕ, suc, ◌==◌, leb, Bool, true, false, not, if◌then◌else◌, List, [], ◌∷◌, Option, none, some,
  String, ◌⊕◌, join, is_empty, length, codes,
}
use stars_ad_permission_anal.Base.Format.{dec, hex8}
use stars_ad_permission_anal.Model.{LinkKind, junction, symbolic_link}
use stars_ad_permission_anal.Model.Diagnostic.{
  SynchronizeGap, denied_by_ntfs_ace, not_granted_by_ntfs, not_granted_by_share,
  PermissionDiagnostic, non_canonical_dacl_order, inherited_deny_after_inherited_allow,
  unsupported_share_aces, unsupported_ntfs_aces, domain_group_recursion_incomplete,
  identity_disabled, identity_not_in_configured_ldap_base, identity_disabled_status_unknown,
  identity_lookup_failed, group_resolution_failed, owner_rights_ace_applied,
  identity_resolved_via_foreign_security_principal, group_resolution_via_global_catalog,
  persisted_evidence_decode_failed, sid_history_present, sid_history_evaluated,
  group_sid_history_evaluated, group_sid_history_present, trust_boundary_effects_not_modeled,
  members_via_primary_group_included, group_member_enumeration_incomplete,
  universal_group_cross_domain_members_not_visible, identity_not_resolvable,
  trusted_domain_account_resolved, selective_authentication_allowed,
  selective_authentication_denied, selective_authentication_unknown, synchronize_not_granted,
  dfs_target_evaluated, link_object, directory_identity_unknown, identity_orphaned,
  logon_dependent_trustees, group_resolution_incomplete, non_security_groups_excluded,
  uac_filtered_groups, guest_or_anonymous_token, remote_uac_policy,
}

-- `SynchronizeGap::label`
unfoldable pub gap_label : SynchronizeGap → String
gap_label denied_by_ntfs_ace =
    "a Deny ACE takes it away — e.g. the basic permission \"Write\" denied, which includes Synchronize"
gap_label not_granted_by_ntfs = "no NTFS ACE grants it"
gap_label not_granted_by_share = "the share permission does not grant it"

-- `trim_start_matches('\\')`
trim_backslashes : List ℕ → List ℕ
trim_backslashes [] = []
trim_backslashes (c ∷ s) = let rest = trim_backslashes s in if c == b'\\' then rest else c ∷ s

-- `split('\\').filter(|p| !p.is_empty()).count()`; the flag says that a part has begun.
count_parts : Bool → List ℕ → ℕ
count_parts begun [] = 0
count_parts false (c ∷ s) = if c == b'\\' then count_parts false s else suc (count_parts true s)
count_parts true (c ∷ s) = count_parts (not (c == b'\\')) s

unfoldable pub entry_label : String → String
unfolding trim_backslashes count_parts
entry_label entry =
    if leb (count_parts false (trim_backslashes (codes entry))) 2
    then "DFS namespace root " ⊕ entry
    else "DFS folder " ⊕ entry

folder_text : Option String → String
folder_text none = ""
folder_text (some f) = " (" ⊕ entry_label f ⊕ ")"

link_word : LinkKind → String
link_word junction = "a junction"
link_word symbolic_link = "a symbolic link"

unfoldable pub summary : PermissionDiagnostic → String
unfolding dec hex8 join gap_label entry_label folder_text link_word
summary (inherited_deny_after_inherited_allow at_index) =
    "An inherited Allow ACE precedes an inherited Deny ACE (first at ACE #"
    ⊕ dec at_index
    ⊕ "). This is canonical when they come from different ancestor levels (Windows orders inherited ACEs level by level) and non-canonical when they come from the same one — the DACL alone does not say which. The result is unaffected: it is evaluated in stored order like Windows."
summary (non_canonical_dacl_order at_index) =
    "Non-canonical DACL order (first at ACE #"
    ⊕ dec at_index
    ⊕ "); evaluated in stored order like Windows, may differ from canonical expectations."
summary (unsupported_share_aces count) =
    dec count
    ⊕ " share ACE(s) could not be evaluated (unsupported type, unreadable trustee, or a trustee whose presence depends on how the user logs on) — the share mask is potentially incomplete."
summary (unsupported_ntfs_aces count) =
    dec count
    ⊕ " NTFS ACE(s) could not be evaluated (unsupported type, an unreadable trustee SID, or a DACL that could not be read at all) — a hidden Deny among them could change the result."
summary domain_group_recursion_incomplete =
    "Group resolution used the SAM/LSA fallback (no LDAP); nested domain groups are not resolved recursively, ACEs on them may be missed."
summary identity_disabled =
    "Identity is flagged disabled in AD — rights are ACL-theoretically correct, but the account normally cannot authenticate."
summary identity_not_in_configured_ldap_base =
    "Identity resolved via LSA but the configured LDAP base DN does not index its SID; cross-domain nested memberships may be missing."
summary identity_disabled_status_unknown =
    "The disabled flag for this identity could not be determined — rights are correct, but whether the account is enabled is unknown."
summary (identity_lookup_failed reason) =
    "LDAP identity lookup failed (" ⊕ reason
    ⊕ "); analysis ran with a placeholder identity, ACEs on domain groups may be missing."
summary (group_resolution_failed reason) =
    "Recursive group resolution failed or was skipped (" ⊕ reason
    ⊕ "); ACEs on domain groups may be missing."
summary owner_rights_ace_applied =
    "OWNER RIGHTS (S-1-3-4) ACE governs the owner's rights; the implicit READ_CONTROL + WRITE_DAC owner grant was suppressed. Exact — informational."
summary identity_resolved_via_foreign_security_principal =
    "Identity is a trust-forest principal resolved via a Foreign Security Principal; its memberships in its own forest are unknown."
summary group_resolution_via_global_catalog =
    "Memberships came from a Global Catalog bind; only universal groups replicate fully to the GC, foreign-domain global/domain-local may be missing."
summary (persisted_evidence_decode_failed detail) =
    "A persisted (historical) row could not be fully decoded (" ⊕ detail
    ⊕ "); the reconstructed result may be less complete than the original."
summary (sid_history_present count) =
    "Identity carries "
    ⊕ dec count
    ⊕ " historical SID(s) (sIDHistory) that were NOT evaluated into the token — effective rights may be understated."
summary (sid_history_evaluated count) =
    dec count
    ⊕ " historical SID(s) (sIDHistory) of this identity were evaluated into the token — ACEs referencing an old SID match like in the real logon token (see the explanation path)."
summary (group_sid_history_evaluated groups count) =
    dec count
    ⊕ " historical SID(s) (sIDHistory) carried by "
    ⊕ dec groups
    ⊕ " token group(s) were evaluated into the token — ACEs referencing a migrated group's old SID match like in the real logon token (see the membership steps)."
summary (group_sid_history_present count) =
    dec count
    ⊕ " historical SID(s) (sIDHistory) on token groups could NOT be evaluated into the token — effective rights may be understated."
summary trust_boundary_effects_not_modeled =
    "Identity resolved across a domain/trust boundary; if it is a forest trust, SID filtering and Selective Authentication may reduce actual access (not modeled)."
summary (members_via_primary_group_included count) =
    dec count
    ⊕ " member(s) were found via their primaryGroupID — accounts whose primary group is this group do not appear in the 'member' attribute and are included here so the count is complete."
summary (group_member_enumeration_incomplete reason) =
    "Group members could not be enumerated completely (" ⊕ reason
    ⊕ "); the member list is a lower bound and may be missing entries."
summary universal_group_cross_domain_members_not_visible =
    "This is a universal group queried over a domain bind — members from other domains of the forest are not visible here, so in a multi-domain forest the list may be incomplete."
summary (selective_authentication_allowed server via) =
    "The trust uses Selective Authentication; the account may authenticate to " ⊕ server
    ⊕ " — \"Allowed to authenticate\" is granted to " ⊕ via ⊕ "."
summary (selective_authentication_denied server) =
    "The trust uses Selective Authentication, and neither the account nor a group in its token has \"Allowed to authenticate\" on "
    ⊕ server
    ⊕ ": Windows refuses the logon (error 1935), so the account has no access there, whatever the permissions grant."
summary (selective_authentication_unknown server reason true) =
    "The trust uses Selective Authentication, and whether the account may authenticate to " ⊕ server
    ⊕ " is not determinable (" ⊕ reason
    ⊕ ") — the effective right lies between No access and what the permissions grant."
summary (selective_authentication_unknown server reason false) =
    "The trust uses Selective Authentication, and whether the account may authenticate to " ⊕ server
    ⊕ " is not determinable (" ⊕ reason
    ⊕ ") — the permissions grant nothing here, so the effective right is No access either way."
summary (directory_identity_unknown reason) =
    "The volume serial and file ID of this folder could not be read over SMB (" ⊕ reason
    ⊕ "), so a second route to it through a link in this scan is not recognized — its content may be listed twice. The values are exact."
summary (identity_not_resolvable reason) =
    "The identity could not be resolved: " ⊕ reason
    ⊕ ". Its group memberships are unknown, so the rights computed for the bare SID can be too low or too high."
summary identity_orphaned =
    "The SID has no account in its domain any more (orphaned / deleted account): nobody can log on with it. The rights shown are what a logon with this SID would get; an ACE naming it is a dead entry."
summary (group_resolution_incomplete reason) = "Group resolution is incomplete: " ⊕ reason ⊕ "."
summary (trusted_domain_account_resolved domain home_only_groups sid_filtered) =
    let first =
      "Account of the trusted domain " ⊕ domain ⊕ ", resolved on a domain controller of " ⊕ domain
      ⊕ ": its global and universal groups there count (as Windows hands them to other domains), plus the domain-local groups of this domain it reaches through a Foreign Security Principal." in
    let left_out =
      if is_empty home_only_groups
      then ""
      else " Left out because they apply only inside "
        ⊕ domain
        ⊕ ": its memberships in "
        ⊕ join ", " home_only_groups
        ⊕ ".                          (Builtin groups of this domain, such as Users through Authenticated                          Users, are evaluated on their own.)" in
    let removed =
      if is_empty sid_filtered
      then ""
      else " Removed by the trust's SID filtering: " ⊕ join ", " sid_filtered ⊕ "." in
    first ⊕ left_out ⊕ removed
summary (link_object link_kind target) =
    "This object is "
    ⊕ link_word link_kind
    ⊕ " to "
    ⊕ target
    ⊕ ": the rights shown are those on the link itself (who can delete it or change its permissions). Opening this path reaches the target, and the target's own permissions decide what an account can do there."
summary (dfs_target_evaluated requested target folder other_targets other_targets_known) =
    let first =
      "DFS path "
      ⊕ requested
      ⊕ folder_text folder
      ⊕ ": evaluated on "
      ⊕ target
      ⊕ ", the target this machine is referred to — the share permissions, local groups and policies of that server apply, not those of the namespace server." in
    let further =
      " The folder has further targets ("
      ⊕ join ", " other_targets
      ⊕ "); a client referred to one of them can get other rights, so the result is not determinable for every client — scan each target's share on its own." in
    let maybe : String =
      " Whether the folder has further targets could not be read, so a client referred elsewhere may get other rights." in
    first
    ⊕ (if not (is_empty other_targets)
        then further
        else if not other_targets_known
        then maybe
        else "")
summary (synchronize_not_granted cause certain) =
    (if certain
      then "SYNCHRONIZE is not granted"
      else "From the known data, SYNCHRONIZE is not granted")
    ⊕ " ("
    ⊕ gap_label cause
    ⊕ "). Explorer and most Windows programs request it with every open (CreateFile), locally and over SMB, so they get \"access denied\" for this object. The rights shown are nevertheless real: a program that opens without SYNCHRONIZE can use them (lab-measured: reading and listing through the native API, deleting, reading the permissions)."
summary (logon_dependent_trustees sids min_mask max_mask) =
    "ACE(s) for "
    ⊕ join ", " sids
    ⊕ " apply only for certain logons (authentication type, organization, logon type, User Account Control filtering), which Stars does not model — the NTFS right lies between 0x"
    ⊕ hex8 min_mask
    ⊕ " and 0x"
    ⊕ hex8 max_mask
    ⊕ "."
summary (non_security_groups_excluded groups) =
    dec (length groups)
    ⊕ " group(s) are not in the token and were left out — Windows ignores distribution groups and nesting through them: "
    ⊕ join "; " groups
    ⊕ "."
summary (remote_uac_policy filtered reason) =
    "User Account Control "
    ⊕ (if filtered
        then "filters this local account's token: the administrative groups are deny-only, their Allow ACEs do not apply"
        else "does not filter this local account's token: the administrative groups are enabled")
    ⊕ " — "
    ⊕ reason
    ⊕ "."
summary (guest_or_anonymous_token sids) =
    "Guest / anonymous logon: "
    ⊕ join ", " sids
    ⊕ " not in this token the way it is for other accounts — Authenticated Users is never in a Guest or anonymous token (lab-measured), so its ACEs do not apply; Everyone is in an anonymous token only when the target sets EveryoneIncludesAnonymous = 1. Stars reads that policy on the target; only where it cannot be read do ACEs for Everyone bound an anonymous result."
summary (uac_filtered_groups groups) =
    "User Account Control may filter "
    ⊕ join ", " groups
    ⊕ " out of the token (deny-only): in a local session that is not elevated, and for a local account over the network unless LocalAccountTokenFilterPolicy = 1 (built-in Administrator: only with FilterAdministratorToken = 1). Stars cannot see elevation or these settings: Deny ACEs for them apply, Allow ACEs bound the result."
