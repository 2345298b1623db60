-- ===== src/Update/Integrity.antt =====
-- crates/update_manager/src/verifier.rs: which packages `verify_manifest_integrity` accepts.
use stars_ad_permission_anal.Base.{
  true, List, [], ◌∷◌, Option, none, some, String, length, map, codes, codes_eq, All, Result, ok,
  err, ◌≡◌, refl, ◌↔◌, ==_iff, arith,
}
use stars_ad_permission_anal.Base.Strings.{lower_code}
use stars_ad_permission_anal.Model.Error.{CoreError}
use stars_ad_permission_anal.Update.Manifest.{
  ManifestFile, UpdateManifest, validate_schema, signable_bytes,
}
use stars_ad_permission_anal.Update.Verifier.{
  Bytes, SignatureVerifier, reject_all, content_of, verify_file_bytes, verify_entry, verify_entries,
  verify_manifest_integrity,
}

module _ (sha256_hex : Bytes → String) where
  -- The package has content for the file, of its size and its hash.
  abbrev pub IsDelivered : List (String × Bytes) → ManifestFile → Type 0
  IsDelivered file_contents entry =
      (content : Bytes) × (content_of file_contents entry.path ≡ some content)
      × (length content ≡ entry.size_bytes)
      × (codes_eq (codes (sha256_hex content)) (map lower_code (codes entry.sha256)) ≡ true)

  entry_iff :
      (file_contents : List (String × Bytes)) (entry : ManifestFile) (content : Option Bytes)
      → content_of file_contents entry.path ≡ content
      → (verify_entry sha256_hex file_contents entry ≡ ok tt) ↔ IsDelivered file_contents entry
  unfolding verify_file_bytes verify_entry
  entry_iff file_contents entry none e =
      (λ h. absurd (ground (arith, h, e)), λ r. ground (arith, e, r.1))
  entry_iff file_contents entry (some c) e = (
    λ h. (c, e, ground (arith, h, e, ==_iff (length c) entry.size_bytes), ground (arith, h, e)),
    λ r. ground (arith, r.1, r.2, r.3),
  )

  entries_iff :
      (file_contents : List (String × Bytes)) (files : List ManifestFile)
      → (verify_entries sha256_hex file_contents files ≡ ok tt)
        ↔ All (IsDelivered file_contents) files
  unfolding verify_entries
  entries_iff file_contents [] = (λ h. tt, λ h. refl)
  entries_iff file_contents (entry ∷ files) =
      let one = entry_iff file_contents entry (content_of file_contents entry.path) refl in
      let rest = entries_iff file_contents files in
      (
        λ h. (one.0 (ground (arith, h)), rest.0 (ground (arith, h))),
        λ r. ground (arith, one.1 r.0, rest.1 r.1),
      )

  module _ (to_vec : UpdateManifest → Result String Bytes) (manifest : UpdateManifest)
      (verifier : SignatureVerifier) (file_contents : List (String × Bytes)) where
    -- The manifest is well formed, its signature fits the bytes without it, and all is delivered.
    abbrev pub IsTrusted : Type 0
    IsTrusted =
        (validate_schema manifest ≡ ok tt)
        × ((body : Bytes) × (signable_bytes to_vec manifest ≡ ok body)
            × (verifier body manifest.signature ≡ ok tt))
        × All (IsDelivered file_contents) manifest.files

    integrity_iff :
        (b : Result CoreError Bytes)
        → signable_bytes to_vec manifest ≡ b
        → (verify_manifest_integrity sha256_hex to_vec manifest verifier file_contents ≡ ok tt)
          ↔ IsTrusted
    unfolding verify_manifest_integrity
    integrity_iff (ok body) e =
        let rest = entries_iff file_contents manifest.files in
        (
          λ h. (
            ground (arith, h, e),
            (body, e, ground (arith, h, e)),
            rest.0 (ground (arith, h, e)),
          ),
          λ r. ground (arith, r.0, r.1.1, r.1.2, rest.1 r.2),
        )
    integrity_iff (err m) e = (λ h. absurd (ground (arith, h, e)), λ r. ground (arith, e, r.1.1))

    -- A package is accepted exactly when the schema of its manifest holds, the verifier accepts the
    -- signature for the bytes of the manifest without it, and every file that the manifest lists
    -- comes with content of the listed size and the listed hash.
    pub verify_manifest_integrity-ok :
        (verify_manifest_integrity sha256_hex to_vec manifest verifier file_contents ≡ ok tt)
        ↔ IsTrusted
    verify_manifest_integrity-ok = integrity_iff (signable_bytes to_vec manifest) refl

-- With the default verifier, which refuses every signature, no package is accepted.
pub reject_all-refuses :
    (sha256_hex : Bytes → String) (to_vec : UpdateManifest → Result String Bytes)
    (manifest : UpdateManifest) (file_contents : List (String × Bytes))
    → ¬ (verify_manifest_integrity sha256_hex to_vec manifest reject_all file_contents ≡ ok tt)
unfolding reject_all
reject_all-refuses sha256_hex to_vec manifest file_contents h = ground (
  arith,
  ((verify_manifest_integrity-ok sha256_hex to_vec manifest reject_all file_contents).0 h).1.2,
)
