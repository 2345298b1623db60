-- ===== src/Update/Checker.antt =====
-- crates/update_manager/src/checker.rs: whether the published release is newer than the installed
-- one. Reading the JSON answer of the update source is a parameter; the request is not modelled.
use Prim.Native.Nat.{Ordering}
use Prim.Native.Char.{code}
use stars_ad_permission_anal.Base.{
  Bool, true, false, ◌||◌, ◌==◌, if◌then◌else◌, Option, String, ◌⊕◌, Result, ok, err, ◌>>=◌, ◌≡◌,
  refl, ◌↔◌, arith,
}
use stars_ad_permission_anal.Base.Strings.{trim, text_is_empty}
use stars_ad_permission_anal.Model.Error.{CoreError, validation, display}
use stars_ad_permission_anal.Update.Version.{AppVersion, parse, cmp}
use stars_ad_permission_anal.Update.Policy.{IsNewer}

pub record UpdateCheckResult : Type 0 where
  pub current_version : String
  pub latest_version : String
  pub update_available : Bool
  pub release_url : Option String

pub record LatestRelease : Type 0 where
  pub tag_name : String
  pub html_url : Option String

unfoldable pub parse_latest_release :
    (String → Result String LatestRelease) → String → Result CoreError (String × Option String)
unfolding trim
parse_latest_release from_str body = elim (from_str body) [
  | err e ↦ err (validation ("update source did not return valid release JSON: " ⊕ e))
  | ok release ↦
      if text_is_empty (trim release.tag_name)
      then err (validation "update source returned an empty tag_name")
      else ok (trim release.tag_name, release.html_url)
]

-- One leading `v` or `V` is taken off.
unfoldable pub normalize_tag : String → String
normalize_tag String.[] = String.[]
normalize_tag (String.◌∷◌ c s) = if code c == b'v' || code c == b'V' then s else String.◌∷◌ c s

-- `parse(text).map_err(|e| Validation(context: e))`
unfoldable pub parse_as : String → String → Result CoreError AppVersion
parse_as context text = elim (parse text) [
  | ok v ↦ ok v
  | err e ↦ err (validation (context ⊕ display e))
]

abbrev is_greater : Ordering → Bool
is_greater Ordering.gt = true
is_greater _ = false

unfoldable pub evaluate_release_tag :
    String → String → Option String → Result CoreError UpdateCheckResult
unfolding normalize_tag parse_as
evaluate_release_tag current_version tag release_url =
    let latest_str = normalize_tag tag in
    do
      current ←
          parse_as ("installed version '" ⊕ current_version ⊕ "' is not a valid version: ")
            current_version
      latest ← parse_as ("published tag '" ⊕ tag ⊕ "' is not a valid version: ") latest_str
      ok (record {
        current_version = current_version;
        latest_version = latest_str;
        update_available = is_greater (cmp latest current);
        release_url = release_url;
      })

module _ (current_version tag : String) (release_url : Option String) (r : UpdateCheckResult) where
  release_tag_cases :
      (a b : Result CoreError AppVersion)
      → parse current_version ≡ a
      → parse (normalize_tag tag) ≡ b
      → evaluate_release_tag current_version tag release_url ≡ ok r
      → (r.update_available ≡ true) ↔ IsNewer (normalize_tag tag) current_version
  unfolding evaluate_release_tag
  release_tag_cases (ok v) (ok w) p q h =
      let same : r.update_available ≡ is_greater (cmp w v) = ground (arith, h, p, q) in
      (λ t. (w, v, q, p, ground (arith, same, t)), λ n. ground (arith, p, q, same, n))
  release_tag_cases (ok v) (err e) p q h = absurd (ground (arith, p, q))
  release_tag_cases (err e) b p q h = absurd (ground (arith, p))

  -- A check that succeeds reports an update exactly when the published version, its leading `v`
  -- taken off, and the installed one are versions and the published one is newer.
  pub evaluate_release_tag-IsNewer :
      evaluate_release_tag current_version tag release_url ≡ ok r
      → (r.update_available ≡ true) ↔ IsNewer (normalize_tag tag) current_version
  evaluate_release_tag-IsNewer =
      release_tag_cases (parse current_version) (parse (normalize_tag tag)) refl refl

-- `check_release_source`: the request to the source, which answers with the body or with an error,
-- is a parameter.
unfoldable pub check_release_source :
    (String → Result String LatestRelease)
    → (String → Result CoreError String)
    → String
    → String
    → Result CoreError UpdateCheckResult
unfolding parse_latest_release evaluate_release_tag
check_release_source from_str request source_url current_version = do
  body ← request source_url
  found ← parse_latest_release from_str body
  evaluate_release_tag current_version found.0 found.1
