-- ===== src/Token/Groups.antt =====
-- crates/permission_engine/src/engine.rs: which local groups `expand_local_groups_with` lists, and in
-- which of its two lists.
use stars_ad_permission_anal.Base.{
  Bool, not, ◌&&◌, List, [], ◌∷◌, Option, String, ◌≡◌, refl, ◌∙◌, arith, any, filter, is_empty,
  contains, SidSet, str_eq, any-sort_by, Bool-cases, inl, inr,
}
use stars_ad_permission_anal.Model.{
  Sid, AccessContext, GroupMembership, LocalGroupDescriptor, LocalGroupEntry,
}
use stars_ad_permission_anal.Token.LocalGroups.{
  expansion_token, is_uncertain_member, entry_of, expand_groups, by_name, expand_local_groups_with,
}

-- The list names the group.
abbrev pub lists : Sid → List LocalGroupEntry → Bool
lists s entries = any (λ e. str_eq e.group s) entries

is_empty-filter : (p : Sid → Bool) (xs : List Sid) → is_empty (filter p xs) ≡ not (any p xs)
is_empty-filter p [] = refl
is_empty-filter p (x ∷ xs) = ground (arith, is_empty-filter p xs)

module _ (user_sid : String) (token : SidSet) (uncertain : Sid → Bool) (s : Sid) where
  -- Named in the list, with a member in the token.
  abbrev pub sure_group : LocalGroupDescriptor → Bool
  sure_group g = str_eq g.sid s && any (contains token) g.members

  -- Named in the list, with no member in the token and an uncertain one.
  abbrev pub possible_group : LocalGroupDescriptor → Bool
  possible_group g =
      str_eq g.sid s && not (any (contains token) g.members) && any uncertain g.members

  lists-expand_groups :
      (groups : List LocalGroupDescriptor)
      → (lists s (expand_groups user_sid token uncertain groups).certain ≡ any sure_group groups)
        × (lists s (expand_groups user_sid token uncertain groups).logon_dependent
            ≡ any possible_group groups)
  unfolding expand_groups entry_of
  lists-expand_groups [] = (refl, refl)
  lists-expand_groups (g ∷ rest) =
      let ih = lists-expand_groups rest in
      let sure = is_empty-filter (contains token) g.members in
      let maybe = is_empty-filter uncertain g.members in
      elim (Bool-cases (any (contains token) g.members)) [
        | inl yes' ↦ rw (sure, yes') (ground arith, ground arith)
        | inr no' ↦ elim (Bool-cases (any uncertain g.members)) [
          | inl open_ ↦ rw (sure, no', maybe, open_) (ground arith, ground arith)
          | inr closed ↦ rw (sure, no', maybe, closed) (ground arith, ground arith)
        ]
      ]

-- For every lower-casing of names, account and list of groups: a SID is among the certain
-- memberships exactly when a group with it has a member in the account's token without local groups,
-- and among the logon-dependent ones exactly when a group with it has no member in that token and
-- one that may be. Sorting the result loses no group.
pub lists-expand_local_groups_with :
    (to_lowercase : String → String) (user_sid : String) (history : List Sid)
    (gms : List GroupMembership) (groups : List LocalGroupDescriptor) (context : AccessContext)
    (anonymous : Option Bool) (s : Sid)
    → let out =
        expand_local_groups_with to_lowercase user_sid history gms groups context anonymous in
      let token = expansion_token user_sid history gms context anonymous in
      let uncertain = is_uncertain_member user_sid context anonymous token in
      (lists s out.certain ≡ any (sure_group user_sid token uncertain s) groups)
      × (lists s out.logon_dependent ≡ any (possible_group user_sid token uncertain s) groups)
unfolding expand_local_groups_with
lists-expand_local_groups_with to_lowercase user_sid history gms groups context anonymous s =
    let token = expansion_token user_sid history gms context anonymous in
    let uncertain = is_uncertain_member user_sid context anonymous token in
    let out = expand_groups user_sid token uncertain groups in
    let found = lists-expand_groups user_sid token uncertain s groups in
    (
      any-sort_by (λ e. str_eq e.group s) (by_name to_lowercase) out.certain ∙ found.0,
      any-sort_by (λ e. str_eq e.group s) (by_name to_lowercase) out.logon_dependent ∙ found.1,
    )
