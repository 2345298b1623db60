-- ===== src/Dacl.antt =====
-- crates/permission_engine/src/engine.rs: the DACL walk in stored order, the walk behind the
-- bounds, the ACEs that match, and what the order of the ACEs says.
pub mod Decision
pub mod Walk
pub mod StoredOrder
pub mod Correct
pub mod Order
pub mod Agree
mod Tests
use stars_ad_permission_anal.Base.{
  ℕ, zero, suc, Bool, true, false, not, ◌&&◌, ◌||◌, ◌==◌, bit_and, bit_or, not32, if◌then◌else◌,
  List, [], ◌∷◌, ◌++◌, Option, none, some, String, str_eq, contains, SidSet, filter,
}
use stars_ad_permission_anal.Model.{Sid, AceKind, allow, deny, AceEntry, ContributingAce}
use stars_ad_permission_anal.Mask.{inherit_only_ace, expand_generic_rights}

abbrev pub is_deny : AceKind → Bool
is_deny deny = true
is_deny allow = false

abbrev pub is_allow : AceKind → Bool
is_allow allow = true
is_allow deny = false

unfoldable pub ace_applies_to_current_object : AceEntry → Bool
ace_applies_to_current_object ace = bit_and ace.propagation_flags inherit_only_ace == 0

unfoldable pub ace_matches : AceEntry → SidSet → SidSet → Bool
ace_matches ace match_sids deny_only_sids =
    contains match_sids ace.sid || (is_deny ace.kind && contains deny_only_sids ace.sid)

pub record DaclWalkOutcome : Type 0 where
  pub granted : ℕ
  pub denied : ℕ
  pub contributions : List ContributingAce
  pub decided_per_ace : List ℕ

-- `existing.mask.0 |= bits` at the first entry of the SID, or a new entry at the end.
unfoldable pub contribute : Sid → ℕ → List ContributingAce → List ContributingAce
contribute sid bits [] = record { sid = sid; mask = bits } ∷ []
contribute sid bits (c ∷ rest) =
    let later = contribute sid bits rest in
    if str_eq c.sid sid then record c { mask = bit_or c.mask bits } ∷ rest else c ∷ later

-- What an ACE that decides `bits` does to the state.
unfoldable pub decide : AceEntry → ℕ → DaclWalkOutcome → DaclWalkOutcome
decide ace bits w =
    let decided = w.decided_per_ace ++ bits ∷ [] in
    if is_allow ace.kind
    then record {
      granted = bit_or w.granted bits;
      denied = w.denied;
      contributions = contribute ace.sid bits w.contributions;
      decided_per_ace = decided;
    }
    else record w { denied = bit_or w.denied bits; decided_per_ace = decided }

-- `continue`: the entry of the ACE in `decided_per_ace` stays 0.
unfoldable pub skip : DaclWalkOutcome → DaclWalkOutcome
skip w = record w { decided_per_ace = w.decided_per_ace ++ 0 ∷ [] }

-- One round of the loop; `decided_per_ace` grows by the entry of this ACE.
unfoldable pub walk_ace : SidSet → SidSet → AceEntry → DaclWalkOutcome → DaclWalkOutcome
walk_ace match_sids deny_only_sids ace w =
    let undecided = not32 (bit_or w.granted w.denied) in
    let bits = bit_and (expand_generic_rights ace.mask) undecided in
    if not (ace_applies_to_current_object ace)
    then skip w
    else if not (ace_matches ace match_sids deny_only_sids)
    then skip w
    else if bits == 0
    then skip w
    else decide ace bits w

unfoldable pub walk_from : SidSet → SidSet → List AceEntry → DaclWalkOutcome → DaclWalkOutcome
walk_from match_sids deny_only_sids [] w = w
walk_from match_sids deny_only_sids (ace ∷ rest) w =
    walk_from match_sids deny_only_sids rest (walk_ace match_sids deny_only_sids ace w)

abbrev pub undecided_walk : DaclWalkOutcome
undecided_walk = record { granted = 0; denied = 0; contributions = []; decided_per_ace = [] }

unfoldable pub walk_dacl_stored_order : List AceEntry → SidSet → SidSet → DaclWalkOutcome
walk_dacl_stored_order dacl match_sids deny_only_sids =
    walk_from match_sids deny_only_sids dacl undecided_walk

-- The loop of `walk_granted_with` over the granted and the denied bits.
unfoldable pub granted_from : (String → Bool) → (String → Bool) → List AceEntry → ℕ → ℕ → ℕ
granted_from allow_matches deny_matches [] granted denied = granted
granted_from allow_matches deny_matches (ace ∷ rest) granted denied =
    let applies = if is_allow ace.kind then allow_matches ace.sid else deny_matches ace.sid in
    let counts = ace_applies_to_current_object ace && applies in
    let bits = bit_and (expand_generic_rights ace.mask) (not32 (bit_or granted denied)) in
    granted_from allow_matches deny_matches rest
      (if counts && is_allow ace.kind then bit_or granted bits else granted)
      (if counts && is_deny ace.kind then bit_or denied bits else denied)

unfoldable pub walk_granted_with : List AceEntry → (String → Bool) → (String → Bool) → ℕ
walk_granted_with dacl allow_matches deny_matches = granted_from allow_matches deny_matches dacl 0 0

unfoldable pub collect_matched_aces : List AceEntry → SidSet → SidSet → List AceEntry
collect_matched_aces dacl user_sids deny_only_sids =
    filter (λ ace. ace_applies_to_current_object ace && ace_matches ace user_sids deny_only_sids)
      dacl
