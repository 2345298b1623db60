-- ===== src/Token/WellKnown.antt =====
-- crates/permission_engine/src/engine.rs: the well-known SIDs, and which of them depend on the
-- identity or on the logon.
use text.Mathlib.Text.{starts_with}
use stars_ad_permission_anal.Base.{
  ℕ, Bool, true, false, not, ◌&&◌, ◌||◌, ◌==◌, if◌then◌else◌, List, [], ◌∷◌, Option, none, some,
  String, contains, SidSet, str_eq, codes, strip_prefix, rsplit_once, split_count, codes_eq,
  is_some,
}
use stars_ad_permission_anal.Model.{
  AccessContext, local_interactive, remote_smb, unspecified, PolicyDword, value, absent, unreadable,
}

abbrev pub sid_everyone : String
sid_everyone = "S-1-1-0"

abbrev pub sid_authenticated_users : String
sid_authenticated_users = "S-1-5-11"

abbrev pub sid_anonymous_logon : String
sid_anonymous_logon = "S-1-5-7"

abbrev pub sid_cryptographic_operators : String
sid_cryptographic_operators = "S-1-5-32-569"

abbrev pub sid_local_account_and_admin : String
sid_local_account_and_admin = "S-1-5-114"

abbrev pub sid_owner_rights : String
sid_owner_rights = "S-1-3-4"

abbrev pub sid_this_organization : String
sid_this_organization = "S-1-5-15"

abbrev pub sid_other_organization : String
sid_other_organization = "S-1-5-1000"

-- `sid.strip_prefix("S-1-5-21-").and_then(|rest| rest.rsplit_once('-'))`
unfoldable pub domain_and_rid : String → Option (List ℕ × List ℕ)
unfolding strip_prefix rsplit_once
domain_and_rid sid = elim (strip_prefix (codes "S-1-5-21-") (codes sid)) [
  | none ↦ none
  | some rest ↦ rsplit_once b'-' rest
]

unfoldable pub is_guest_account : String → Bool
unfolding domain_and_rid codes_eq split_count
is_guest_account sid = elim (domain_and_rid sid) [
  | none ↦ false
  | some (domain, rid) ↦ codes_eq rid (codes "501") && split_count b'-' domain == 3
]

unfoldable pub identity_absent_well_knowns : String → List String
identity_absent_well_knowns user_sid =
    if str_eq user_sid sid_anonymous_logon || is_guest_account user_sid
    then sid_authenticated_users ∷ []
    else []

unfoldable pub identity_uncertain_well_knowns : String → List String
identity_uncertain_well_knowns user_sid =
    if str_eq user_sid sid_anonymous_logon then sid_everyone ∷ [] else []

unfoldable pub uncertain_well_knowns_with : String → Option Bool → List String
uncertain_well_knowns_with user_sid anonymous_everyone =
    if str_eq user_sid sid_anonymous_logon && is_some anonymous_everyone
    then []
    else identity_uncertain_well_knowns user_sid

abbrev pub is_some_true : Option Bool → Bool
is_some_true (some true) = true
is_some_true _ = false

unfoldable pub anonymous_gets_everyone : String → Option Bool → Bool
anonymous_gets_everyone user_sid anonymous_everyone =
    str_eq user_sid sid_anonymous_logon && is_some_true anonymous_everyone

unfoldable pub anonymous_everyone : PolicyDword → Option Bool
anonymous_everyone absent = some false
anonymous_everyone (value n) = if n == 0 then some false else if n == 1 then some true else none
anonymous_everyone (unreadable reason) = none

-- `ALWAYS`, `LOCAL_LOGON` and `CONTEXT` of `is_logon_dependent_sid`.
abbrev pub always : List String
always = "S-1-5-15" ∷ "S-1-5-1000" ∷ "S-1-5-65-1" ∷ "S-1-5-113" ∷ "S-1-5-114" ∷ []

abbrev pub local_logon : List String
local_logon = "S-1-5-14" ∷ "S-1-2-1" ∷ "S-1-5-13" ∷ "S-1-2-0" ∷ []

abbrev pub context_sids : List String
context_sids = "S-1-5-2" ∷ "S-1-5-4" ∷ "S-1-2-0" ∷ []

-- The `match context` of `is_logon_dependent_sid`.
unfoldable pub depends_on_context : String → AccessContext → Bool
depends_on_context sid remote_smb = false
depends_on_context sid local_interactive = contains local_logon sid
depends_on_context sid unspecified = contains local_logon sid || contains context_sids sid

unfoldable pub is_logon_dependent_sid : String → AccessContext → Bool
unfolding depends_on_context
is_logon_dependent_sid sid context =
    if contains always sid || starts_with sid "S-1-18-" || starts_with sid "S-1-5-64-"
    then true
    else depends_on_context sid context

unfoldable pub is_logon_dependent_for : String → AccessContext → SidSet → Bool
is_logon_dependent_for sid context token =
    let decided_absent =
      if str_eq sid sid_this_organization
      then contains token sid_other_organization
      else if str_eq sid sid_other_organization
      then contains token sid_this_organization
      else false in
    not decided_absent && is_logon_dependent_sid sid context
