-- ===== src/Update/Manifest.antt =====
-- crates/update_manager/src/manifest.rs: the manifest of an update and its schema. The JSON texts of
-- `serde_json` are a parameter.
use stars_ad_permission_anal.Base.{
  ℕ, not, ◌||◌, ◌==◌, if◌then◌else◌, List, [], ◌∷◌, String, ◌⊕◌, is_empty, Result, ok, err, ◌>>◌,
}
use Prim.Native.String.{len}
use stars_ad_permission_anal.Base.Strings.{trim, text_is_empty, all_codes, is_ascii_hexdigit}
use stars_ad_permission_anal.Model.Error.{CoreError, validation, display}
use stars_ad_permission_anal.Update.Version.{parse}
use stars_ad_permission_anal.Update.RelativePath.{validate_manifest_relative_path}

pub data UpdateChannel : Type 0 where
  stable preview internal offline : UpdateChannel

pub data TargetPlatform : Type 0 where
  windows_x86_64 windows_aarch64 : TargetPlatform

pub record ManifestFile : Type 0 where
  pub path : String
  pub sha256 : String
  pub size_bytes : ℕ

pub record UpdateManifest : Type 0 where
  pub manifest_version : ℕ
  pub app_version : String
  pub channel : UpdateChannel
  pub platform : TargetPlatform
  pub issued_at : String
  pub files : List ManifestFile
  pub signature : String

abbrev invalid : String → Result CoreError (Unit {0})
invalid s = err (validation s)

-- One turn of the loop over the files.
unfoldable pub check_file : ManifestFile → Result CoreError (Unit {0})
unfolding validate_manifest_relative_path
check_file f =
    validate_manifest_relative_path f.path
    >> (if not (len f.sha256 == 64) || not (all_codes is_ascii_hexdigit f.sha256)
        then invalid ("file '" ⊕ f.path ⊕ "' has invalid sha256 (must be 64 hex chars)")
        else if f.size_bytes == 0
        then invalid ("file '" ⊕ f.path ⊕ "' size_bytes must be > 0")
        else ok tt)

unfoldable pub check_files : List ManifestFile → Result CoreError (Unit {0})
unfolding check_file
check_files [] = ok tt
check_files (f ∷ files) = let rest = check_files files in check_file f >> rest

-- The version has to be one.
unfoldable pub check_app_version : String → Result CoreError (Unit {0})
unfolding parse
check_app_version app_version = elim (parse app_version) [
  | ok v ↦ ok tt
  | err e ↦ invalid ("app_version is not a valid version: " ⊕ display e)
]

unfoldable pub validate_schema : UpdateManifest → Result CoreError (Unit {0})
unfolding check_files check_app_version trim
validate_schema m =
    if m.manifest_version == 0
    then invalid "manifest_version must be >= 1"
    else if text_is_empty (trim m.app_version)
    then invalid "app_version must not be empty"
    else check_app_version m.app_version
      >> (if text_is_empty (trim m.issued_at)
          then invalid "issued_at must not be empty"
          else if text_is_empty (trim m.signature)
          then invalid "signature must not be empty — unsigned manifests are rejected"
          else if is_empty m.files
          then invalid "files must contain at least one entry"
          else check_files m.files)

module _ (from_str : String → Result String UpdateManifest) where
  unfoldable pub from_json : String → Result CoreError UpdateManifest
  unfolding validate_schema
  from_json input = elim (from_str input) [
    | err e ↦ err (validation ("Invalid manifest JSON: " ⊕ e))
    | ok parsed ↦ validate_schema parsed >> ok parsed
  ]

module _ (to_vec : UpdateManifest → Result String (List ℕ)) where
  -- The bytes that are signed: those of the manifest with an empty signature.
  unfoldable pub signable_bytes : UpdateManifest → Result CoreError (List ℕ)
  signable_bytes m = elim (to_vec (record m { signature = "" })) [
    | err e ↦ err (validation ("Cannot canonicalize manifest: " ⊕ e))
    | ok bytes ↦ ok bytes
  ]
