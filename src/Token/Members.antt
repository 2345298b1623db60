-- ===== src/Token/Members.antt =====
-- crates/permission_engine/src/engine.rs: the membership in `build_token_sids_with_context` and in
-- `uac_filtered_groups`.
use stars_ad_permission_anal.Base.{
  Bool, true, false, not, ◌&&◌, ◌||◌, if◌then◌else◌, List, [], ◌∷◌, ◌++◌, String, ◌≡◌, refl, ◌∙◌,
  sym, ap, arith, any, filter, contains, insert, extend, SidSet, contains-insert, contains-extend,
  str_eq, str_eq_iff, str_le, sort_by, dedup, any-sort_by, any-dedup, Bool-cases, inl, inr,
}
use stars_ad_permission_anal.Model.{
  Sid, AccessContext, local_interactive, remote_smb, unspecified, GroupMembership,
}
use stars_ad_permission_anal.Token.WellKnown.{
  sid_everyone, sid_authenticated_users, sid_local_account_and_admin, identity_absent_well_knowns,
  identity_uncertain_well_knowns,
}
use stars_ad_permission_anal.Token.Build.{
  add_memberships, add_well_knowns, add_context, build_token_sids_with_context,
}
use stars_ad_permission_anal.Token.FilteredKind.{filtered_kind, is_uac_filtered_group-kind}
use stars_ad_permission_anal.Token.Uac.{is_uac_filtered_group, is_remote, uac_filtered_groups}

-- A SID that a membership brings: the group's own or a historical one.
abbrev pub brought_by : Sid → GroupMembership → Bool
brought_by s gm = str_eq gm.group_sid s || contains gm.group_sid_history s

-- The SID that tells how the account logged on.
abbrev pub logon_sid : AccessContext → Sid → Bool
logon_sid remote_smb s = str_eq "S-1-5-2" s
logon_sid local_interactive s = str_eq "S-1-5-4" s
logon_sid unspecified s = false

-- A well-known SID that the identity neither lacks nor may lack.
abbrev pub sure_well_known : String → Sid → Bool
sure_well_known user_sid w =
    not (contains (identity_uncertain_well_knowns user_sid) w)
    && not (contains (identity_absent_well_knowns user_sid) w)

contains-add_memberships :
    (gms : List GroupMembership) (set : SidSet) (s : Sid)
    → contains (add_memberships gms set) s ≡ (any (brought_by s) gms || contains set s)
unfolding add_memberships
contains-add_memberships [] set s = refl
contains-add_memberships (gm ∷ rest) set s = ground (
  arith,
  contains-add_memberships rest (extend gm.group_sid_history (insert gm.group_sid set)) s,
  contains-extend gm.group_sid_history s (insert gm.group_sid set),
  contains-insert gm.group_sid s set,
)

contains-add_well_knowns :
    (user_sid : String) (ws : List String) (set : SidSet) (s : Sid)
    → contains (add_well_knowns user_sid ws set) s
      ≡ (any (λ w. str_eq w s && sure_well_known user_sid w) ws || contains set s)
unfolding add_well_knowns
contains-add_well_knowns user_sid [] set s = refl
contains-add_well_knowns user_sid (w ∷ rest) set s =
    elim (Bool-cases (sure_well_known user_sid w)) [
      | inl sure ↦ rw sure (
          contains-add_well_knowns user_sid rest (insert w set) s
          ∙ ground (arith, contains-insert w s set))
      | inr unsure ↦ rw unsure (contains-add_well_knowns user_sid rest set s ∙ ground arith)
    ]

contains-add_context :
    (context : AccessContext) (set : SidSet) (s : Sid)
    → contains (add_context context set) s ≡ (logon_sid context s || contains set s)
unfolding add_context
contains-add_context remote_smb set s = contains-insert "S-1-5-2" s set
contains-add_context local_interactive set s = contains-insert "S-1-5-4" s set
contains-add_context unspecified set s = refl

-- A SID is in the token exactly when it is the account's own or a historical one, a group's own or
-- historical one, a local group, Everyone or Authenticated Users for an identity that surely has
-- it, or the SID of the logon.
pub contains-build_token_sids_with_context :
    (user_sid : String) (history : List Sid) (gms : List GroupMembership) (local_groups : List Sid)
    (context : AccessContext) (s : Sid)
    → contains (build_token_sids_with_context user_sid history gms local_groups context) s ≡ (
        logon_sid context s
        || any
            (λ w. str_eq w s && sure_well_known user_sid w)
            (sid_everyone ∷ sid_authenticated_users ∷ [])
        || contains local_groups s
        || any (brought_by s) gms
        || contains history s
        || str_eq user_sid s)
unfolding build_token_sids_with_context
contains-build_token_sids_with_context user_sid history gms local_groups context s =
    let own = extend history (insert user_sid []) in
    let joined = extend local_groups (add_memberships gms own) in
    let known = sid_everyone ∷ sid_authenticated_users ∷ [] in
    contains-add_context context (add_well_knowns user_sid known joined) s
    ∙ rw
        (
          contains-add_well_knowns user_sid known joined s,
          contains-extend local_groups s (add_memberships gms own),
          contains-add_memberships gms own s,
          contains-extend history s (insert user_sid []),
          contains-insert user_sid s [],
        )
        (ground arith)

contains-any : (xs : SidSet) (s : Sid) → contains xs s ≡ any (λ x. str_eq x s) xs
contains-any [] s = refl
contains-any (x ∷ xs) s = ground (arith, contains-any xs s)

str_eq_congr : (s t u : String) → str_eq s t ≡ true → str_eq s u ≡ str_eq t u
str_eq_congr s t u e = ap (λ (x : String). str_eq x u) ((str_eq_iff s t).0 e)

contains-sorted :
    (xs : SidSet) (s : Sid) → contains (dedup str_eq (sort_by str_le xs)) s ≡ contains xs s
contains-sorted xs s =
    contains-any (dedup str_eq (sort_by str_le xs)) s
    ∙ any-dedup (λ x. str_eq x s) str_eq (λ a b e. str_eq_congr a b s e) (sort_by str_le xs)
    ∙ any-sort_by (λ x. str_eq x s) str_le xs
    ∙ sym (contains-any xs s)

contains-filter :
    (p : String → Bool) (xs : SidSet) (s : Sid) → contains (filter p xs) s ≡ (contains xs s && p s)
contains-filter p [] s = refl
contains-filter p (x ∷ xs) s =
    ground (arith, contains-filter p xs s, str_eq_iff x s, λ (e : x ≡ s). ap p e)

contains-append :
    (xs ys : SidSet) (s : Sid) → contains (xs ++ ys) s ≡ (contains xs s || contains ys s)
contains-append [] ys s = refl
contains-append (x ∷ xs) ys s = ground (arith, contains-append xs ys s)

contains-optional :
    (add : Bool) (xs : SidSet) (a s : Sid)
    → contains (if add then xs ++ a ∷ [] else xs) s ≡ (contains xs s || (add && str_eq a s))
contains-optional true xs a s = contains-append xs (a ∷ []) s ∙ ground arith
contains-optional false xs a s = ground arith

administrators_filtered : is_uac_filtered_group "S-1-5-32-544" ≡ true
unfolding is_uac_filtered_group
administrators_filtered = refl

-- For every logon but the remote one of a domain account, the filtered groups are the token groups
-- of a kind that User Account Control filters, by the names and RIDs of these groups, and, for a
-- local administrator, Local account and member of Administrators group; for the remote logon of a
-- domain account there are none.
pub contains-uac_filtered_groups :
    (groups : List Sid) (local_account : Bool) (context : AccessContext) (s : Sid)
    → contains (uac_filtered_groups groups local_account context) s ≡ (
        not (is_remote context && not local_account)
        && ((contains groups s && filtered_kind s)
            || (local_account
                && contains groups "S-1-5-32-544"
                && str_eq sid_local_account_and_admin s)))
unfolding uac_filtered_groups
contains-uac_filtered_groups groups local_account context s =
    elim (Bool-cases (is_remote context && not local_account)) [
      | inl none_filtered ↦ rw none_filtered refl
      | inr some_filtered ↦
          let chosen = filter is_uac_filtered_group groups in
          let admin = local_account && any (λ x. str_eq x "S-1-5-32-544") chosen in
          rw some_filtered (
            contains-sorted (if admin then chosen ++ sid_local_account_and_admin ∷ [] else chosen) s
            ∙ contains-optional admin chosen sid_local_account_and_admin s
            ∙ ground (
              arith,
              contains-filter is_uac_filtered_group groups s,
              contains-any chosen "S-1-5-32-544",
              contains-filter is_uac_filtered_group groups "S-1-5-32-544",
              administrators_filtered,
              is_uac_filtered_group-kind s,
            ))
    ]
