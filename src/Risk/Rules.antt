-- ===== src/Risk/Rules.antt =====
-- crates/risk_engine/src/rules.rs: the six rules. Each judges every result on its own.
-- `str::to_lowercase` is a parameter of the rule about path names.
use stars_ad_permission_anal.Base.{
  ℕ, Bool, true, false, not, ◌&&◌, ◌||◌, ◌==◌, bit_and, if◌then◌else◌, List, [], ◌∷◌, ◌++◌, Option,
  none, some, String, str_eq, ◌⊕◌, any, find, filter, filter_map, flat_map, map,
}
use stars_ad_permission_anal.Mask.{
  file_delete, file_delete_child, file_write_dac, file_write_owner, mask_full_control, mask_modify,
  mask_write,
}
use stars_ad_permission_anal.Model.{IdentityKind, Sid, ContributingAce}
use stars_ad_permission_anal.Model.Effective.{EffectivePermission}
use stars_ad_permission_anal.Model.Risk.{RiskFinding, critical, high, medium, low}
use stars_ad_permission_anal.Risk.{
  audited, holds_all, holds_some, content_write_bits, shown_name, finding, content_write_bit_names,
}

-- `RiskRule::evaluate` on the findings of a `RiskContext`.
abbrev pub Rule : Type 0
Rule = List EffectivePermission → List RiskFinding

unfoldable pub full_control : EffectivePermission → Option RiskFinding
full_control p =
    let a = audited p in
    if not (holds_all a.mask mask_full_control)
    then none
    else some (
        finding "FULL_CONTROL" critical
          ("'"
            ⊕ shown_name p
            ⊕ "' "
            ⊕ a.has
            ⊕ " Full Control — "
            ⊕ a.can
            ⊕ " read, write, delete and change permissions"
            ⊕ a.note)
          p)

unfoldable pub full_control_rule : Rule
unfolding full_control
full_control_rule = filter_map full_control

unfoldable pub write_access : EffectivePermission → Option RiskFinding
write_access p =
    let a = audited p in
    let m = a.mask in
    let level = if holds_all m mask_modify then "Modify" else "Write" in
    if holds_all m mask_full_control
    then none
    else if holds_all m mask_modify || holds_all m mask_write
    then some (
        finding "WRITE_ACCESS" high
          ("'"
            ⊕ shown_name p
            ⊕ "' "
            ⊕ a.has
            ⊕ " "
            ⊕ level
            ⊕ " access — "
            ⊕ a.can
            ⊕ " create or modify files"
            ⊕ a.note)
          p)
    else if holds_some m content_write_bits
    then some (
        finding "PARTIAL_WRITE" medium
          ("'"
            ⊕ shown_name p
            ⊕ "' "
            ⊕ a.can
            ⊕ " write file content via special permissions ("
            ⊕ content_write_bit_names m
            ⊕ ") without the full Write composite"
            ⊕ a.note)
          p)
    else none

unfoldable pub write_access_rule : Rule
unfolding write_access
write_access_rule = filter_map write_access

-- One right of `AdminRightsRule`: pushed if the mask has it.
abbrev pub push_right : ℕ → ℕ → RiskFinding → List RiskFinding
push_right m bit f = if holds_some m bit then f ∷ [] else []

unfoldable pub admin_rights : EffectivePermission → List RiskFinding
admin_rights p =
    let a = audited p in
    let who = "'" ⊕ shown_name p ⊕ "' " ⊕ a.can in
    if holds_all a.mask mask_full_control
    then []
    else push_right a.mask file_write_dac (
        finding "PERMISSION_CHANGE" high
          (who ⊕ " change permissions (WRITE_DAC) — enables privilege escalation" ⊕ a.note) p)
      ++ (push_right a.mask file_write_owner (
            finding "OWNER_CHANGE" high
              (who ⊕ " take ownership (WRITE_OWNER) — enables privilege escalation" ⊕ a.note) p)
          ++ (push_right a.mask file_delete
                (finding "DELETE_RIGHT" medium (who ⊕ " delete this object (DELETE)" ⊕ a.note) p)
              ++ push_right a.mask file_delete_child (
                  finding "DELETE_CHILD_RIGHT" medium
                    (who ⊕ " delete child objects (DELETE_CHILD)" ⊕ a.note) p)))

unfoldable pub admin_rights_rule : Rule
unfolding admin_rights
admin_rights_rule = flat_map admin_rights

abbrev pub broad_sids : List Sid
broad_sids = "S-1-1-0" ∷ "S-1-5-11" ∷ "S-1-5-7" ∷ "S-1-5-2" ∷ []

abbrev pub is_broad_sid : Sid → Bool
is_broad_sid sid = any (λ s. str_eq s sid) broad_sids

-- The name and the audience of a broad SID.
pub broad_text : Sid → String × String
broad_text sid =
    if str_eq sid "S-1-1-0"
    then ("Everyone", "every user, including guests")
    else if str_eq sid "S-1-5-11"
    then ("Authenticated Users", "every authenticated user in the domain")
    else if str_eq sid "S-1-5-7"
    then ("Anonymous Logon", "unauthenticated clients")
    else if str_eq sid "S-1-5-2"
    then ("NETWORK", "every user connecting over the network")
    else (sid, "a broad built-in principal")

-- The contribution of a broad SID that holds one of the bits.
abbrev pub is_broad_writer : ℕ → ContributingAce → Bool
is_broad_writer bits c = is_broad_sid c.sid && holds_some c.mask bits

unfoldable pub broad_group_write : EffectivePermission → Option RiskFinding
broad_group_write p =
    let a = audited p in
    let eff_w = bit_and a.mask content_write_bits in
    if eff_w == 0 then none else elim (find (is_broad_writer eff_w) p.contributing_sids) [
      | none ↦ none
      | some broad ↦ some (
          finding "BROAD_GROUP_WRITE" critical
            ("'"
              ⊕ shown_name p
              ⊕ "' "
              ⊕ a.has
              ⊕ " write access via '"
              ⊕ (broad_text broad.sid).0
              ⊕ "' — affects "
              ⊕ (broad_text broad.sid).1
              ⊕ a.note)
            p)
    ]

unfoldable pub broad_group_write_rule : Rule
unfolding broad_group_write
broad_group_write_rule = filter_map broad_group_write

abbrev pub is_leaf : IdentityKind → Bool
is_leaf IdentityKind.user = true
is_leaf IdentityKind.computer = true
is_leaf _ = false

abbrev pub has_direct_ace : EffectivePermission → Bool
has_direct_ace p =
    is_leaf p.identity.kind
    && any (λ ace. not ace.inherited && str_eq ace.sid p.identity.sid) p.matched_aces

unfoldable pub direct_user_ace_rule : Rule
direct_user_ace_rule context =
    map
      (λ p.
        finding "DIRECT_USER_ACE" low
          ("'"
            ⊕ shown_name p
            ⊕ "' has a direct explicit ACE — best practice is to assign permissions via groups")
          p)
      (filter has_direct_ace context)
