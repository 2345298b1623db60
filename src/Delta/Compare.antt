-- ===== src/Delta/Compare.antt =====
-- crates/persistence/src/delta.rs: the comparison of two scans. The queries of the database and the
-- order in which a `HashMap` is walked are parameters.
use stars_ad_permission_anal.Base.{
  ℕ, Bool, not, ◌&&◌, if◌then◌else◌, List, [], ◌∷◌, ◌++◌, Option, none, some, String, str_eq,
  str_le, ◌⊕◌, is_some, flat_map, sort_by, Result, ok, err, ◌>>=◌, ◌>>◌,
}
use stars_ad_permission_anal.Model.Effective.{EffectivePermission}
use stars_ad_permission_anal.Model.Error.{CoreError, validation, database}
use stars_ad_permission_anal.Delta.{DeltaReason, signature_of, signature_diff}

pub data DeltaKind : Type 0 where
  added removed : DeltaKind
  changed : ℕ → ℕ → List DeltaReason → DeltaKind

pub record DeltaEntry : Type 0 where
  pub path : String
  pub kind : DeltaKind
  pub old_perm : Option EffectivePermission
  pub new_perm : Option EffectivePermission

-- The SID of an identity and a path.
abbrev pub Key : Type 0
Key = String × String

abbrev pub key_of : EffectivePermission → Key
key_of p = (p.identity.sid, p.path)

abbrev pub same_key : Key → Key → Bool
same_key a b = str_eq a.0 b.0 && str_eq a.1 b.1

-- A `HashMap<Key, EffectivePermission>`: its entries, one for each key.
abbrev pub KeyMap : Type 0
KeyMap = List (Key × EffectivePermission)

-- `map.insert(key, p)`: a value that the key had is replaced.
unfoldable pub put : Key → EffectivePermission → KeyMap → KeyMap
put key p [] = (key, p) ∷ []
put key p ((k, q) ∷ m) =
    let rest = put key p m in if same_key k key then (key, p) ∷ m else (k, q) ∷ rest

-- `map.get(key)`
unfoldable pub get : KeyMap → Key → Option EffectivePermission
get [] key = none
get ((k, q) ∷ m) key = let rest = get m key in if same_key k key then some q else rest

-- `perms.into_iter().map(|p| (key_of(&p), p)).collect()`
unfoldable pub collect_map : KeyMap → List EffectivePermission → KeyMap
unfolding put
collect_map m [] = m
collect_map m (p ∷ perms) = collect_map (put (key_of p) p m) perms

-- The entry of a row that both scans have, if its signature differs.
unfoldable pub changed_entry : Key → EffectivePermission → EffectivePermission → List DeltaEntry
changed_entry key old_p new_p = elim (signature_diff (signature_of old_p) (signature_of new_p)) [
  | [] ↦ []
  | reason ∷ reasons ↦
      record {
        path = key.1;
        kind = changed old_p.effective_mask new_p.effective_mask (reason ∷ reasons);
        old_perm = some old_p;
        new_perm = some new_p;
      }
      ∷ []
]

abbrev pub added_entry : Key → EffectivePermission → DeltaEntry
added_entry key new_p = record {
  path = key.1;
  kind = added;
  old_perm = none;
  new_perm = some new_p;
}

abbrev pub removed_entry : Key → EffectivePermission → DeltaEntry
removed_entry key old_p = record {
  path = key.1;
  kind = removed;
  old_perm = some old_p;
  new_perm = none;
}

-- One turn of the loop over the new map.
unfoldable pub of_new : KeyMap → Key × EffectivePermission → List DeltaEntry
unfolding get changed_entry
of_new old_map (key, new_p) = elim (get old_map key) [
  | none ↦ added_entry key new_p ∷ []
  | some old_p ↦ changed_entry key old_p new_p
]

-- One turn of the loop over the old map.
unfoldable pub of_old : KeyMap → Key × EffectivePermission → List DeltaEntry
unfolding get
of_old new_map (key, old_p) =
    if not (is_some (get new_map key)) then removed_entry key old_p ∷ [] else []

abbrev pub sid_of_perm : Option EffectivePermission → Option EffectivePermission → String
sid_of_perm (some p) _ = p.identity.sid
sid_of_perm none (some p) = p.identity.sid
sid_of_perm none none = ""

abbrev pub entry_sid : DeltaEntry → String
entry_sid e = sid_of_perm e.new_perm e.old_perm

-- By path, then by SID.
unfoldable pub entry_le : DeltaEntry → DeltaEntry → Bool
entry_le a b =
    if str_eq a.path b.path then str_le (entry_sid a) (entry_sid b) else str_le a.path b.path

-- `walk` lists a map in the order of its iterator.
unfoldable pub diff_permission_lists :
    (KeyMap → KeyMap) → List EffectivePermission → List EffectivePermission → List DeltaEntry
unfolding collect_map of_new of_old entry_le
diff_permission_lists walk old new =
    let old_map = collect_map [] old in
    let new_map = collect_map [] new in
    let entries = flat_map (of_new old_map) (walk new_map) in
    let entries = entries ++ flat_map (of_old new_map) (walk old_map) in sort_by entry_le entries

-- What the row query of a scan run returns: the target, no row, or another error.
pub data TargetRow : Type 0 where
  row : String → TargetRow
  no_rows : TargetRow
  other : String → TargetRow

unfoldable pub run_target : (String → TargetRow) → String → Result CoreError String
run_target query run_id = elim (query run_id) [
  | row target ↦ ok target
  | no_rows ↦ err (validation ("unknown scan run id '" ⊕ run_id ⊕ "'"))
  | other e ↦ err (database ("reading scan run '" ⊕ run_id ⊕ "': " ⊕ e))
]

-- Two scans of different targets are refused.
abbrev pub comparable : String → String → Result CoreError (Unit {0})
comparable old_target new_target =
    if not (str_eq old_target new_target)
    then err (
        validation (
          "scan runs are not comparable: the old run scanned '" ⊕ old_target
          ⊕ "', the new run scanned '" ⊕ new_target ⊕ "'"))
    else ok tt

unfoldable pub compare_scans :
    (walk : KeyMap → KeyMap) (query : String → TargetRow)
    (load : String → Result CoreError (List EffectivePermission)) (old_run_id new_run_id : String)
    → Result CoreError (List DeltaEntry)
unfolding run_target
compare_scans walk query load old_run_id new_run_id = do
  old_target ← run_target query old_run_id
  new_target ← run_target query new_run_id
  comparable old_target new_target
  old_perms ← load old_run_id
  new_perms ← load new_run_id
  ok (diff_permission_lists walk old_perms new_perms)
