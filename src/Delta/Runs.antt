-- ===== src/Delta/Runs.antt =====
-- crates/persistence/src/delta.rs: which scan runs `compare_scans` compares.
use stars_ad_permission_anal.Base.{List, String, str_eq_iff, Result, ok, err, ◌≡◌, refl, ◌↔◌, arith}
use stars_ad_permission_anal.Model.Effective.{EffectivePermission}
use stars_ad_permission_anal.Model.Error.{CoreError}
use stars_ad_permission_anal.Delta.Compare.{
  DeltaEntry, KeyMap, TargetRow, row, no_rows, other, diff_permission_lists, compare_scans,
}

module _ (walk : KeyMap → KeyMap) (query : String → TargetRow)
    (load : String → Result CoreError (List EffectivePermission)) (old_run_id new_run_id : String)
    (entries : List DeltaEntry) where
  -- The two runs are known, scanned one target, have readable rows, and these are their entries.
  abbrev pub AreCompared : Type 0
  AreCompared =
      (target : String) × (old : List EffectivePermission) × (new : List EffectivePermission)
      × (query old_run_id ≡ row target)
      × (query new_run_id ≡ row target)
      × (load old_run_id ≡ ok old)
      × (load new_run_id ≡ ok new)
      × (entries ≡ diff_permission_lists walk old new)

  AreCompared-of_ok :
      (x y : TargetRow) (l m : Result CoreError (List EffectivePermission))
      → query old_run_id ≡ x
      → query new_run_id ≡ y
      → load old_run_id ≡ l
      → load new_run_id ≡ m
      → compare_scans walk query load old_run_id new_run_id ≡ ok entries
      → AreCompared
  unfolding compare_scans
  AreCompared-of_ok (row s) (row t) (ok os) (ok ns) p q a b h =
      (s, os, ns, p, ground (arith, str_eq_iff s t), a, b, ground (arith, str_eq_iff s t))
  AreCompared-of_ok (row s) (row t) (ok os) (err e) p q a b h = absurd (ground arith)
  AreCompared-of_ok (row s) (row t) (err e) m p q a b h = absurd (ground arith)
  AreCompared-of_ok (row s) no_rows l m p q a b h = absurd (ground arith)
  AreCompared-of_ok (row s) (other e) l m p q a b h = absurd (ground arith)
  AreCompared-of_ok no_rows y l m p q a b h = absurd (ground arith)
  AreCompared-of_ok (other e) y l m p q a b h = absurd (ground arith)

  -- The comparison of two runs gives entries exactly when both runs are known, have the same target
  -- and have rows that can be read; the entries are then those of their rows. In every other case
  -- it is an error.
  pub compare_scans-ok :
      (compare_scans walk query load old_run_id new_run_id ≡ ok entries) ↔ AreCompared
  unfolding compare_scans
  compare_scans-ok = (
    λ h.
        AreCompared-of_ok (query old_run_id) (query new_run_id) (load old_run_id) (load new_run_id)
          refl refl refl refl h,
    λ c. let t = c.0 in ground (arith, str_eq_iff t t, c.3, c.4, c.5, c.6, c.7),
  )
