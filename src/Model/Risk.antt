-- ===== src/Model/Risk.antt =====
-- crates/core/src/model.rs: the findings of the risk rules.
use stars_ad_permission_anal.Base.{Bool, String, Option}
use stars_ad_permission_anal.Model.{Sid}

pub data RiskSeverity : Type 0 where
  info low medium high critical : RiskSeverity

pub record RiskFinding : Type 0 where
  pub rule_id : String
  pub severity : RiskSeverity
  pub description : String
  pub affected_path : Option String
  pub affected_identity : Option Sid
  pub incomplete : Bool
