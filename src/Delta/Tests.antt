-- ===== src/Delta/Tests.antt =====
-- Two scans of one folder, in which the account's right and the folder's owner changed.
use stars_ad_permission_anal.Base.{
  List, [], ◌∷◌, none, String, any, Result, ok, if◌then◌else◌, str_eq, ◌≡◌, ◌↔◌,
}
use mathlib.Core.List.Permᴰ
use stars_ad_permission_anal.Model.{ShareEvalStatus, LocalGroupEvalStatus}
use stars_ad_permission_anal.Model.Error.{CoreError}
use stars_ad_permission_anal.Model.Effective.{EffectivePermission}
use stars_ad_permission_anal.Engine.Example.{account}
use stars_ad_permission_anal.Delta.{signature_of, signature_diff, effective_mask_changed}
use stars_ad_permission_anal.Delta.Compare.{
  KeyMap, TargetRow, row, no_rows, compare_scans, diff_permission_lists,
}
use stars_ad_permission_anal.Delta.Reasons.{is_reason, has_changed, lists-signature_diff}
use stars_ad_permission_anal.Delta.Runs.{AreCompared, compare_scans-ok}

abbrev read_row : EffectivePermission
read_row = record {
  identity = account;
  path = "D:/data";
  ntfs_mask = 0x0012_00a9;
  share_mask = none;
  effective_mask = 0x0012_00a9;
  share_status = ShareEvalStatus.not_applicable;
  local_group_status = LocalGroupEvalStatus.applied;
  contributing_sids = [];
  unsupported_ace_count = 0;
  matched_aces = [];
  diagnostics = [];
}

abbrev modify_row : EffectivePermission
modify_row = record read_row { ntfs_mask = 0x0013_01bf; effective_mask = 0x0013_01bf }

abbrev other_row : EffectivePermission
other_row = record read_row { path = "D:/old" }

abbrev in_order : KeyMap → KeyMap
in_order m = m

lists-signature_diff_example :
    any
      (is_reason effective_mask_changed)
      (signature_diff (signature_of read_row) (signature_of modify_row))
    ≡ has_changed effective_mask_changed (signature_of read_row) (signature_of modify_row)
lists-signature_diff_example =
    lists-signature_diff effective_mask_changed (signature_of read_row) (signature_of modify_row)

-- A database with two runs on one target.
abbrev two_runs : String → TargetRow
two_runs id = if str_eq id "a" then row "D:/" else if str_eq id "b" then row "D:/" else no_rows

abbrev rows_of : String → Result CoreError (List EffectivePermission)
rows_of id = if str_eq id "a" then ok (read_row ∷ []) else ok (modify_row ∷ [])

compare_scans-ok_example :
    (compare_scans in_order two_runs rows_of "a" "b"
      ≡ ok (diff_permission_lists in_order (read_row ∷ []) (modify_row ∷ [])))
    ↔ AreCompared in_order two_runs rows_of "a" "b"
        (diff_permission_lists in_order (read_row ∷ []) (modify_row ∷ []))
compare_scans-ok_example =
    compare_scans-ok in_order two_runs rows_of "a" "b"
      (diff_permission_lists in_order (read_row ∷ []) (modify_row ∷ []))
