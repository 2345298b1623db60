-- ===== src/Delta/Diff.antt =====
-- crates/persistence/src/delta.rs: what `diff_permission_lists` reports for each identity and path.
use stars_ad_permission_anal.Base.{Bool, List, [], ◌∷◌, ◌++◌, Option, none, some, flat_map}
use mathlib.Core.List.{Permᴰ}
use mathlib.Core.List.Permᴰ
use stars_ad_permission_anal.Model.Effective.{EffectivePermission}
use stars_ad_permission_anal.Delta.Compare.{
  DeltaEntry, Key, same_key, collect_map, changed_entry, added_entry, removed_entry, of_new, of_old,
  entry_sid,
}
use stars_ad_permission_anal.Delta.Map.{entry_at}

-- The entry is about this identity and path.
abbrev pub is_at : Key → DeltaEntry → Bool
is_at key e = same_key (entry_sid e, e.path) key

-- The change of a row that both scans have.
abbrev pub change : Key → EffectivePermission → EffectivePermission → Option DeltaEntry
unfolding changed_entry
change key o n = elim (changed_entry key o n) [ [] ↦ none | e ∷ _ ↦ some e ]

-- What a comparison has to say about a key, from the rows that the two scans have for it.
abbrev pub expected :
    Key → Option EffectivePermission → Option EffectivePermission → Option DeltaEntry
expected key none none = none
expected key none (some n) = some (added_entry key n)
expected key (some o) none = some (removed_entry key o)
expected key (some o) (some n) = change key o n

-- The two loops over the rows of one key.
module _ (old new : List EffectivePermission) (key : Key) where
  loops : Option EffectivePermission → Option EffectivePermission → List DeltaEntry
  loops o n =
      flat_map (of_new (collect_map [] old)) (entry_at key n)
      ++ flat_map (of_old (collect_map [] new)) (entry_at key o)
