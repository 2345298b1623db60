-- ===== src/Model/History.antt =====
-- crates/core/src/model.rs: what is said of the historical SIDs of an identity and of its groups.
use stars_ad_permission_anal.Base.{
  ℕ, ◌+◌, ◌-◌, ◌==◌, ltb, Bool, if◌then◌else◌, List, [], ◌∷◌, ◌++◌, length, SidSet, contains,
  insert,
}
use stars_ad_permission_anal.Model.{Identity, GroupMembership}
use stars_ad_permission_anal.Model.Diagnostic.{
  PermissionDiagnostic, sid_history_evaluated, sid_history_present, group_sid_history_evaluated,
  group_sid_history_present,
}

-- `if test { d.push(marker) }`
abbrev pub push_if :
    Bool → PermissionDiagnostic → List PermissionDiagnostic → List PermissionDiagnostic
push_if test marker d = if test then d ++ marker ∷ [] else d

-- `Identity::sid_history_diagnostics`; `-` on ℕ is `saturating_sub`.
unfoldable pub sid_history_diagnostics : Identity → List PermissionDiagnostic
sid_history_diagnostics identity =
    let evaluated = length identity.sid_history in
    let unevaluated = identity.sid_history_count - evaluated in
    push_if (ltb 0 unevaluated) (sid_history_present unevaluated)
      (push_if (ltb 0 evaluated) (sid_history_evaluated evaluated) [])

-- The three counters of the loop.
pub record HistoryCount : Type 0 where
  pub groups : ℕ
  pub evaluated : ℕ
  pub unevaluated : ℕ

-- One group that was not seen before.
unfoldable pub count_group : GroupMembership → HistoryCount → HistoryCount
count_group gm c =
    let parsed = length gm.group_sid_history in
    if gm.group_sid_history_count == 0 then c else record {
      groups = if ltb 0 parsed then c.groups + 1 else c.groups;
      evaluated = c.evaluated + parsed;
      unevaluated = c.unevaluated + (gm.group_sid_history_count - parsed);
    }

-- The loop over the memberships with the set of the groups seen.
unfoldable pub count_history : SidSet → HistoryCount → List GroupMembership → HistoryCount
unfolding count_group
count_history seen c [] = c
count_history seen c (gm ∷ rest) =
    let old = contains seen gm.group_sid in
    count_history (insert gm.group_sid seen) (if old then c else count_group gm c) rest

unfoldable pub group_sid_history_diagnostics : List GroupMembership → List PermissionDiagnostic
unfolding count_history
group_sid_history_diagnostics memberships =
    let c = count_history [] (record { groups = 0; evaluated = 0; unevaluated = 0 }) memberships in
    push_if (ltb 0 c.unevaluated) (group_sid_history_present c.unevaluated)
      (push_if (ltb 0 c.evaluated) (group_sid_history_evaluated c.groups c.evaluated) [])
