-- ===== src/Update/Verifier.antt =====
-- crates/update_manager/src/verifier.rs: whether a manifest may be trusted, and whether its update
-- may be installed. The hash, the signature check, JSON and the clock's arithmetic are parameters.
use Prim.Native.Nat.{Ordering}
use stars_ad_permission_anal.Base.{
  ℕ, Bool, true, false, not, ◌&&◌, ◌==◌, if◌then◌else◌, List, [], ◌∷◌, Option, none, some, String,
  ◌⊕◌, str_eq, length, map, codes, codes_eq, Result, ok, err, ◌>>=◌, ◌>>◌,
}
use stars_ad_permission_anal.Base.Format.{dec}
use stars_ad_permission_anal.Base.Strings.{lower_code}
use stars_ad_permission_anal.Model.Error.{CoreError, validation}
use stars_ad_permission_anal.Update.Version.{parse, cmp}
use stars_ad_permission_anal.Update.Manifest.{
  UpdateChannel, stable, preview, internal, offline, TargetPlatform, windows_x86_64,
  windows_aarch64, ManifestFile, UpdateManifest, validate_schema, signable_bytes,
}

abbrev invalid : String → Result CoreError (Unit {0})
invalid s = err (validation s)

abbrev pub Bytes : Type 0
Bytes = List ℕ

-- The trait `SignatureVerifier`: the check of a signature against the bytes of a body.
abbrev pub SignatureVerifier : Type 0
SignatureVerifier = Bytes → String → Result CoreError (Unit {0})

unfoldable pub reject_all : SignatureVerifier
reject_all body signature =
    invalid "no signature verifier configured — refusing to trust update manifest"

-- The content that was given for a path: the first pair that names it.
unfoldable pub content_of : List (String × Bytes) → String → Option Bytes
content_of [] path = none
content_of ((p, c) ∷ rest) path =
    let others = content_of rest path in if str_eq p path then some c else others

module _ (sha256_hex : Bytes → String) where
  unfoldable pub verify_file_bytes : ManifestFile → Bytes → Result CoreError (Unit {0})
  unfolding dec codes_eq
  verify_file_bytes entry content =
      if not (length content == entry.size_bytes)
      then invalid (
          "file '"
          ⊕ entry.path
          ⊕ "': size mismatch (expected "
          ⊕ dec entry.size_bytes
          ⊕ ", got "
          ⊕ dec (length content)
          ⊕ ")")
      else if not (codes_eq (codes (sha256_hex content)) (map lower_code (codes entry.sha256)))
      then invalid (
          "file '"
          ⊕ entry.path
          ⊕ "': sha256 mismatch (expected "
          ⊕ entry.sha256
          ⊕ ", got "
          ⊕ sha256_hex content
          ⊕ ")")
      else ok tt

  -- One turn of the loop over the manifest's files.
  unfoldable pub verify_entry : List (String × Bytes) → ManifestFile → Result CoreError (Unit {0})
  unfolding verify_file_bytes content_of
  verify_entry file_contents entry = elim (content_of file_contents entry.path) [
    | none ↦ invalid ("file '" ⊕ entry.path ⊕ "' listed in manifest but not provided to verifier")
    | some content ↦ verify_file_bytes entry content
  ]

  unfoldable pub verify_entries :
      List (String × Bytes) → List ManifestFile → Result CoreError (Unit {0})
  unfolding verify_entry
  verify_entries file_contents [] = ok tt
  verify_entries file_contents (entry ∷ files) =
      let rest = verify_entries file_contents files in verify_entry file_contents entry >> rest

  unfoldable pub verify_manifest_integrity :
      (UpdateManifest → Result String Bytes)
      → UpdateManifest
      → SignatureVerifier
      → List (String × Bytes)
      → Result CoreError (Unit {0})
  unfolding verify_entries validate_schema signable_bytes
  verify_manifest_integrity to_vec manifest verifier file_contents = do
    validate_schema manifest
    body ← signable_bytes to_vec manifest
    verifier body manifest.signature
    verify_entries file_contents manifest.files

-- `{:?}` of the enums.
abbrev channel_name : UpdateChannel → String
channel_name stable = "Stable"
channel_name preview = "Preview"
channel_name internal = "Internal"
channel_name offline = "Offline"

abbrev platform_name : TargetPlatform → String
platform_name windows_x86_64 = "WindowsX86_64"
platform_name windows_aarch64 = "WindowsAarch64"

-- The derived `PartialEq` of the enums.
abbrev pub same_channel : UpdateChannel → UpdateChannel → Bool
same_channel stable stable = true
same_channel preview preview = true
same_channel internal internal = true
same_channel offline offline = true
same_channel _ _ = false

abbrev pub same_platform : TargetPlatform → TargetPlatform → Bool
same_platform windows_x86_64 windows_x86_64 = true
same_platform windows_aarch64 windows_aarch64 = true
same_platform _ _ = false

unfoldable pub compare_dotted_versions : String → String → Result CoreError Ordering
unfolding parse cmp
compare_dotted_versions a b = do a_v ← parse a; b_v ← parse b; ok (cmp a_v b_v)

abbrev is_greater : Ordering → Bool
is_greater Ordering.gt = true
is_greater _ = false

-- What the program uses of chrono: reading a time, moving it, and comparing times and durations.
pub record Chrono : Type 1 where
  pub Time : Type 0
  pub Duration : Type 0
  pub read_time : String → Result String Time
  pub later : Time → Duration → Time
  pub elapsed : Time → Time → Duration
  pub is_after : Time → Time → Bool
  pub is_longer : Duration → Duration → Bool
  pub print_seconds : Duration → String

module _ (chrono : Chrono) where
  open chrono use {Time, Duration, read_time, later, elapsed, is_after, is_longer, print_seconds}

  pub record UpdatePolicyContext : Type 0 where
    pub current_version : String
    pub current_platform : TargetPlatform
    pub allowed_channel : UpdateChannel
    pub allow_downgrade : Bool
    pub now_utc : Time
    pub max_age : Duration
    pub max_future_skew : Duration

  -- The time of issue lies in the window around the policy's clock.
  unfoldable pub check_issued_at :
      UpdateManifest → UpdatePolicyContext → Result CoreError (Unit {0})
  check_issued_at manifest policy = elim (read_time manifest.issued_at) [
    | err e ↦ invalid (
        "manifest issued_at '" ⊕ manifest.issued_at ⊕ "' is not a valid ISO-8601 UTC timestamp: "
        ⊕ e)
    | ok issued_at ↦
        if is_after issued_at (later policy.now_utc policy.max_future_skew)
        then invalid (
            "manifest issued_at '"
            ⊕ manifest.issued_at
            ⊕ "' is further than the allowed clock-skew tolerance ("
            ⊕ print_seconds policy.max_future_skew
            ⊕ "s) in the future")
        else if is_longer (elapsed policy.now_utc issued_at) policy.max_age
        then invalid (
            "manifest issued_at '"
            ⊕ manifest.issued_at
            ⊕ "' is older than max_age ("
            ⊕ print_seconds policy.max_age
            ⊕ "s) — refusing as potentially stale or replayed")
        else ok tt
  ]

  unfoldable pub verify_update_policy :
      UpdateManifest → UpdatePolicyContext → Result CoreError (Unit {0})
  unfolding check_issued_at compare_dotted_versions
  verify_update_policy manifest policy =
      if not (same_platform manifest.platform policy.current_platform)
      then invalid (
          "manifest platform "
          ⊕ platform_name manifest.platform
          ⊕ " does not match current platform "
          ⊕ platform_name policy.current_platform)
      else if not (same_channel manifest.channel policy.allowed_channel)
      then invalid (
          "manifest channel "
          ⊕ channel_name manifest.channel
          ⊕ " does not match allowed channel "
          ⊕ channel_name policy.allowed_channel)
      else do
        ordering ← compare_dotted_versions manifest.app_version policy.current_version
        if not policy.allow_downgrade && not (is_greater ordering)
            then invalid (
                "manifest app_version '" ⊕ manifest.app_version ⊕ "' is not newer than current '"
                ⊕ policy.current_version ⊕ "' (downgrade not allowed)")
            else check_issued_at manifest policy
