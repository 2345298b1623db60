-- ===== src/Bounds.antt =====
-- crates/permission_engine/src/engine.rs: `logon_dependent_bounds`, the lower and the upper bound
-- of a result over the trustees whose presence in the real token is not known.
pub mod Possible
pub mod Sound
pub mod Exact
pub mod Range
mod Tests
use stars_ad_permission_anal.Base.{
  ℕ, Bool, true, false, not, ◌&&◌, ◌||◌, ◌==◌, bit_or, if◌then◌else◌, List, [], ◌∷◌, Option, none,
  some, String, contains, SidSet, str_eq, str_le, any, filter, map, sort_by, dedup, is_empty,
  is_some,
}
use stars_ad_permission_anal.Model.{AccessContext, AceEntry}
use stars_ad_permission_anal.Mask.{file_read_control, file_write_dac}
use stars_ad_permission_anal.Dacl.{is_allow, ace_applies_to_current_object, walk_granted_with}
use stars_ad_permission_anal.Token.WellKnown.{is_logon_dependent_for, sid_owner_rights}

pub record LogonDependentBounds : Type 0 where
  pub sids : List String
  pub min : ℕ
  pub max : ℕ

-- The arguments of `logon_dependent_bounds` after the DACL.
pub record BoundsInput : Type 0 where
  pub match_sids : SidSet
  pub context : AccessContext
  pub logon_dependent_groups : SidSet
  pub deny_only_groups : SidSet
  pub owner_implicit_bits : ℕ
  pub uncertain_owner : Option String
  pub uac_filter_certain : Bool

-- The filters that make an entry's trustee uncertain.
unfoldable pub is_uncertain : BoundsInput → AceEntry → Bool
is_uncertain input ace =
    ace_applies_to_current_object ace
    && not (contains input.match_sids ace.sid)
    && (is_logon_dependent_for ace.sid input.context input.match_sids
        || contains input.logon_dependent_groups ace.sid
        || (is_allow ace.kind
            && contains input.deny_only_groups ace.sid
            && not input.uac_filter_certain)
        || (is_some input.uncertain_owner && str_eq ace.sid sid_owner_rights))

-- The trustees of those entries, in stored order.
unfoldable pub uncertain_sids : BoundsInput → List AceEntry → List String
uncertain_sids input dacl = map (λ ace. ace.sid) (filter (is_uncertain input) dacl)

unfoldable pub owner_rights_ace : List AceEntry → Bool
owner_rights_ace dacl =
    any (λ ace. str_eq ace.sid sid_owner_rights && ace_applies_to_current_object ace) dacl

unfoldable pub upper_owner_bits : BoundsInput → List AceEntry → ℕ
upper_owner_bits input dacl =
    if is_some input.uncertain_owner && not (owner_rights_ace dacl)
    then bit_or (bit_or input.owner_implicit_bits file_read_control) file_write_dac
    else input.owner_implicit_bits

abbrev pub certain_allow : BoundsInput → String → Bool
certain_allow input sid = contains input.match_sids sid

abbrev pub certain_deny : BoundsInput → String → Bool
certain_deny input sid = contains input.match_sids sid || contains input.deny_only_groups sid

-- `uncertain.iter().any(|u| u == sid)`
abbrev pub maybe_allow : BoundsInput → List String → String → Bool
maybe_allow input uncertain sid = certain_allow input sid || any (λ u. str_eq u sid) uncertain

abbrev pub maybe_deny : BoundsInput → List String → String → Bool
maybe_deny input uncertain sid = certain_deny input sid || any (λ u. str_eq u sid) uncertain

unfoldable pub upper_bound : BoundsInput → List AceEntry → List String → ℕ
upper_bound input dacl uncertain =
    bit_or (walk_granted_with dacl (maybe_allow input uncertain) (certain_deny input))
      (upper_owner_bits input dacl)

unfoldable pub lower_bound : BoundsInput → List AceEntry → List String → ℕ
lower_bound input dacl uncertain =
    bit_or (walk_granted_with dacl (certain_allow input) (maybe_deny input uncertain))
      input.owner_implicit_bits

-- Only the implicit owner grant is uncertain: the owner group is named.
unfoldable pub named_sids : List String → Option String → List String
named_sids [] (some owner) = owner ∷ []
named_sids [] none = []
named_sids (s ∷ rest) owner = s ∷ rest

unfoldable pub logon_dependent_bounds : BoundsInput → List AceEntry → Option LogonDependentBounds
logon_dependent_bounds input dacl =
    let found = uncertain_sids input dacl in
    let uncertain = dedup str_eq (sort_by str_le found) in
    let max = upper_bound input dacl uncertain in
    let min = lower_bound input dacl uncertain in
    if is_empty found && upper_owner_bits input dacl == input.owner_implicit_bits
    then none
    else if min == max
    then none
    else some (record { sids = named_sids uncertain input.uncertain_owner; min = min; max = max })
