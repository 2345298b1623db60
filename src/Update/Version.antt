-- ===== src/Update/Version.antt =====
-- crates/update_manager/src/version.rs: the parsing of a version and the order of two versions.
use Prim.Native.Nat.{Ordering, compare, lt, eq, gt}
use Prim.Native.String.{compare as compare_text}
use stars_ad_permission_anal.Base.{
  ℕ, Bool, not, ◌||◌, ◌==◌, if◌then◌else◌, List, [], ◌∷◌, Option, none, some, String, ◌⊕◌, map,
  is_some, Result, ok, err, ◌>>=◌, ◌>>◌, collect,
}
use stars_ad_permission_anal.Base.Order.{compare_lists, then_with}
use stars_ad_permission_anal.Base.Strings.{
  split, split_once, trim, parse_int, max_u64, text_is_empty, all_codes, is_ascii_alphanumeric,
}
use stars_ad_permission_anal.Model.Error.{CoreError, validation}

pub data PreReleaseId : Type 0 where
  num : ℕ → PreReleaseId
  alpha : String → PreReleaseId

pub record AppVersion : Type 0 where
  pub core : List ℕ
  pub pre : Option (List PreReleaseId)

unfoldable pub is_prerelease : AppVersion → Bool
is_prerelease v = is_some v.pre

abbrev is_identifier_code : ℕ → Bool
is_identifier_code c = is_ascii_alphanumeric c || c == b'-'

-- One turn of the loop of `validate_identifier_list`.
unfoldable pub check_identifier : String → String → String → Result CoreError (Unit {0})
check_identifier what input id =
    if text_is_empty id
    then err (validation (what ⊕ " in '" ⊕ input ⊕ "' contains an empty identifier"))
    else if not (all_codes is_identifier_code id)
    then err (
        validation (
          what ⊕ " identifier '" ⊕ id ⊕ "' in '" ⊕ input
          ⊕ "' contains characters outside [0-9A-Za-z-]"))
    else ok tt

unfoldable pub check_identifiers : String → String → List String → Result CoreError (Unit {0})
unfolding check_identifier
check_identifiers what input [] = ok tt
check_identifiers what input (id ∷ ids) =
    let rest = check_identifiers what input ids in check_identifier what input id >> rest

unfoldable pub validate_identifier_list : String → String → String → Result CoreError (Unit {0})
unfolding check_identifiers split
validate_identifier_list list what input =
    check_identifiers what input (split (λ c. c == b'.') list)

abbrev checked_build : String → Option String → Result CoreError (Unit {0})
unfolding validate_identifier_list
checked_build input none = ok tt
checked_build input (some b) = validate_identifier_list b "build metadata" input

-- One segment of the core.
unfoldable pub parse_segment : String → String → Result CoreError ℕ
unfolding parse_int
parse_segment input seg = elim (parse_int max_u64 seg) [
  | ok n ↦ ok n
  | err e ↦
      err (validation ("version segment '" ⊕ seg ⊕ "' in '" ⊕ input ⊕ "' is not numeric: " ⊕ e))
]

unfoldable pub pre_release_id : String → PreReleaseId
unfolding parse_int
pre_release_id id = elim (parse_int max_u64 id) [ ok n ↦ num n | err e ↦ alpha id ]

unfoldable pub parse_pre : String → Option String → Result CoreError (Option (List PreReleaseId))
unfolding validate_identifier_list pre_release_id split
parse_pre input none = ok none
parse_pre input (some p) =
    validate_identifier_list p "pre-release" input
    >> ok (some (map pre_release_id (split (λ c. c == b'.') p)))

-- `match s.split_once(c) { Some((a, b)) => (a, Some(b)), None => (s, None) }`
abbrev split_off : ℕ → String → String × Option String
unfolding split_once
split_off c s = elim (split_once c s) [ some (a, b) ↦ (a, some b) | none ↦ (s, none) ]

-- `AppVersion::parse`
unfoldable pub parse : String → Result CoreError AppVersion
unfolding validate_identifier_list split_once trim collect parse_segment parse_pre split
parse input =
    let s = trim input in
    let (rest, build) = split_off b'+' s in
    let (core_str, pre_str) = split_off b'-' rest in
    if text_is_empty s then err (validation "version must not be empty") else do
      checked_build input build
      core ← collect (parse_segment input) (split (λ c. c == b'.') core_str)
      pre ← parse_pre input pre_str
      ok (record { core = core; pre = pre })

-- The loop over the longer core, with 0 where a core has ended.
unfoldable pub compare_core : List ℕ → List ℕ → Ordering
compare_core [] [] = eq
compare_core [] (b ∷ bs) = then_with (compare 0 b) (compare_core [] bs)
compare_core (a ∷ as') [] = then_with (compare a 0) (compare_core as' [])
compare_core (a ∷ as') (b ∷ bs) = then_with (compare a b) (compare_core as' bs)

unfoldable pub compare_id : PreReleaseId → PreReleaseId → Ordering
compare_id (num x) (num y) = compare x y
compare_id (num x) (alpha y) = lt
compare_id (alpha x) (num y) = gt
compare_id (alpha x) (alpha y) = compare_text x y

unfoldable pub compare_prerelease : List PreReleaseId → List PreReleaseId → Ordering
unfolding compare_id compare_lists
compare_prerelease = compare_lists compare_id

unfoldable pub compare_pre : Option (List PreReleaseId) → Option (List PreReleaseId) → Ordering
unfolding compare_prerelease
compare_pre none none = eq
compare_pre none (some b) = gt
compare_pre (some a) none = lt
compare_pre (some a) (some b) = compare_prerelease a b

-- `impl Ord for AppVersion`
unfoldable pub cmp : AppVersion → AppVersion → Ordering
unfolding compare_core compare_pre
cmp a b = then_with (compare_core a.core b.core) (compare_pre a.pre b.pre)
