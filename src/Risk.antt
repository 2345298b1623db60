-- ===== src/Risk.antt =====
-- crates/risk_engine/src/rules.rs: the right that the rules judge, and how they word it. `Rules` has
-- the rules, `Registry` the two ways to run them.
pub mod Rules
pub mod Sensitive
pub mod Registry
pub mod Streaming
pub mod Complete
pub mod Sound
mod Tests
use stars_ad_permission_anal.Base.{
  ℕ, Bool, not, ◌==◌, bit_and, bit_or, if◌then◌else◌, List, [], ◌∷◌, ◌++◌, Option, none, some,
  String, ◌⊕◌, join,
}
use stars_ad_permission_anal.Base.Format.{hex8}
use stars_ad_permission_anal.Mask.{file_write_data, file_append_data}
use stars_ad_permission_anal.Mask.Label.{display_name, not_determinable}
use stars_ad_permission_anal.Model.Effective.{
  EffectivePermission, effective_determinable, effective_upper_bound, is_incomplete,
}
use stars_ad_permission_anal.Model.Risk.{RiskSeverity, RiskFinding}

pub record AuditedRight : Type 0 where
  pub mask : ℕ
  pub has : String
  pub can : String
  pub note : String

-- The note for a right that is not exact.
pub range_note : ℕ → ℕ → String
range_note shown mask =
    if not (mask == shown)
    then " ("
      ⊕ not_determinable
      ⊕ ": the known data gives "
      ⊕ display_name shown
      ⊕ " (0x"
      ⊕ hex8 shown
      ⊕ "); up to "
      ⊕ display_name mask
      ⊕ " (0x"
      ⊕ hex8 mask
      ⊕ ") is possible)"
    else " (" ⊕ not_determinable ⊕ ": stated from the known data only)"

-- `AuditedRight::of`: the rules judge the upper bound of the effective right.
unfoldable pub audited : EffectivePermission → AuditedRight
audited p =
    let mask = effective_upper_bound p in
    if effective_determinable p
    then record { mask = mask; has = "has"; can = "can"; note = "" }
    else record {
      mask = mask;
      has = "may have";
      can = "may be able to";
      note = range_note p.effective_mask mask;
    }

-- `mask & bits == bits`
abbrev pub holds_all : ℕ → ℕ → Bool
holds_all mask bits = bit_and mask bits == bits

-- `mask & bits != 0`
abbrev pub holds_some : ℕ → ℕ → Bool
holds_some mask bits = not (bit_and mask bits == 0)

abbrev pub content_write_bits : ℕ
content_write_bits = bit_or file_write_data file_append_data

-- `p.identity.name.as_deref().unwrap_or(&p.identity.sid.0)`
abbrev pub name_or_sid : Option String → String → String
name_or_sid (some name) sid = name
name_or_sid none sid = sid

abbrev pub shown_name : EffectivePermission → String
shown_name p = name_or_sid p.identity.name p.identity.sid

-- The finding of a rule about a result.
abbrev pub finding : String → RiskSeverity → String → EffectivePermission → RiskFinding
finding rule_id severity description p = record {
  rule_id = rule_id;
  severity = severity;
  description = description;
  affected_path = some p.path;
  affected_identity = some p.identity.sid;
  incomplete = is_incomplete p;
}

pub content_write_bit_names : ℕ → String
content_write_bit_names mask = join " + " (
    (if holds_some mask file_write_data then "FILE_WRITE_DATA" ∷ [] else [])
    ++ (if holds_some mask file_append_data then "FILE_APPEND_DATA" ∷ [] else []))
