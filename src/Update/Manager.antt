-- ===== src/Update/Manager.antt =====
-- crates/update_manager/src/manager.rs: the install flow, which refuses whatever it is asked for.
use stars_ad_permission_anal.Base.{Option, String, Result, err}
use stars_ad_permission_anal.Model.Error.{CoreError, validation}
use stars_ad_permission_anal.Update.Manifest.{UpdateChannel}

pub record UpdateManager : Type 0 where
  pub channel : UpdateChannel

unfoldable pub new_manager : UpdateChannel → UpdateManager
new_manager channel = record { channel = channel }

unfoldable pub check_for_updates : UpdateManager → Result CoreError (Option String)
check_for_updates m = err (
    validation
      "UpdateManager.check_for_updates: not yet implemented — requires signed update feed, signature verification, and channel configuration. For the read-only version check use crate::checker.")

unfoldable pub verify_package : UpdateManager → String → Result CoreError (Unit {0})
verify_package m path = err (
    validation
      "UpdateManager.verify_package: not yet implemented — requires code-signing certificate and SHA-256 checksum validation")
