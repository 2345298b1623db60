-- ===== src/Update/Tests.antt =====
-- An installation of 1.0.0-rc.1 that takes 1.1.0, and packages of one file.
use stars_ad_permission_anal.Base.{
  ℕ, ◌+◌, ◌-◌, ◌≢◌, true, false, ltb, [], ◌∷◌, ◌++◌, none, String, All, ok, ◌≡◌, ◌↔◌, refl,
}
use stars_ad_permission_anal.Base.Strings.{split, stem_of, strip_text}
use stars_ad_permission_anal.Update.Version.{parse, cmp, check_identifier}
use stars_ad_permission_anal.Update.Manifest.{UpdateManifest, stable, windows_x86_64}
use stars_ad_permission_anal.Update.RelativePath.{
  is_reserved, check_segment_chars, check_manifest_segment, check_manifest_segments,
  validate_manifest_relative_path,
}
use stars_ad_permission_anal.Update.Verifier.{
  Bytes, Chrono, UpdatePolicyContext, verify_update_policy, verify_manifest_integrity,
  compare_dotted_versions, check_issued_at,
}
use stars_ad_permission_anal.Update.Policy.{
  IsAllowed, verify_update_policy-ok, first, IsNewer, Updates-IsNewer,
}
use stars_ad_permission_anal.Update.Integrity.{IsTrusted, verify_manifest_integrity-ok}
use stars_ad_permission_anal.Update.Leads.{separates, lead, names}
use stars_ad_permission_anal.Update.Below.{IsPlain, validate_manifest_relative_path-below}
use stars_ad_permission_anal.Update.Checker.{
  UpdateCheckResult, normalize_tag, evaluate_release_tag, evaluate_release_tag-IsNewer,
}

-- Times are seconds, and every time of issue reads as 90.
abbrev seconds : Chrono
seconds = record {
  Time = ℕ;
  Duration = ℕ;
  read_time = λ s. ok 90;
  later = λ t d. t + d;
  elapsed = λ t u. t - u;
  is_after = λ t u. ltb u t;
  is_longer = λ d e. ltb e d;
  print_seconds = λ d. "";
}

abbrev release : UpdateManifest
release = record {
  manifest_version = 1;
  app_version = "1.1.0";
  channel = stable;
  platform = windows_x86_64;
  issued_at = "2026-01-01T00:00:00Z";
  files =
      record {
        path = "bin/stars.exe";
        sha256 = "0000000000000000000000000000000000000000000000000000000000000000";
        size_bytes = 2;
      }
      ∷ [];
  signature = "c2ln";
}

abbrev running : UpdatePolicyContext seconds
running = record {
  current_version = "1.0.0-rc.1";
  current_platform = windows_x86_64;
  allowed_channel = stable;
  allow_downgrade = false;
  now_utc = 100;
  max_age = 20;
  max_future_skew = 5;
}

-- The functions that a run of the parser and of the policy goes through.
abbrev zeros : Bytes → String
zeros content = "0000000000000000000000000000000000000000000000000000000000000000"

release-allowed : verify_update_policy seconds release running ≡ ok tt
unfolding verify_update_policy check_issued_at compare_dotted_versions parse cmp check_identifier
release-allowed = refl

verify_update_policy-ok_example :
    (verify_update_policy seconds release running ≡ ok tt) ↔ IsAllowed seconds release running
verify_update_policy-ok_example = verify_update_policy-ok seconds release running

Updates-IsNewer_example : IsNewer "1.1.0" "1.0.0-rc.1"
Updates-IsNewer_example =
    Updates-IsNewer seconds "1.0.0-rc.1" "1.1.0"
      (first (release, running, refl, refl, refl, release-allowed))

verify_manifest_integrity-ok_example :
    (verify_manifest_integrity zeros
        (λ m. ok [])
        release
        (λ body signature. ok tt)
        (("bin/stars.exe", 77 ∷ 90 ∷ []) ∷ [])
      ≡ ok tt)
    ↔ IsTrusted zeros
        (λ m. ok [])
        release
        (λ body signature. ok tt)
        (("bin/stars.exe", 77 ∷ 90 ∷ []) ∷ [])
verify_manifest_integrity-ok_example =
    verify_manifest_integrity-ok zeros (λ m. ok []) release (λ body signature. ok tt)
      (("bin/stars.exe", 77 ∷ 90 ∷ []) ∷ [])

path-accepted : validate_manifest_relative_path "bin/stars.exe" ≡ ok tt
unfolding validate_manifest_relative_path check_manifest_segments check_manifest_segment
    check_segment_chars is_reserved split strip_text stem_of
path-accepted = refl

validate_manifest_relative_path-below_example :
    (lead (λ s. s) ("C:" ∷ "Stars" ∷ []) "" "bin/stars.exe"
      ≡ ("C:" ∷ "Stars" ∷ []) ++ names (λ s. s) (split separates "bin/stars.exe"))
    × All IsPlain (split separates "bin/stars.exe")
validate_manifest_relative_path-below_example =
    validate_manifest_relative_path-below (λ s. s) (λ s up. up) "bin/stars.exe"
      ("C:" ∷ "Stars" ∷ []) path-accepted

-- What is refused: a step up, a drive, a device.
path-up : validate_manifest_relative_path "bin/../x" ≢ ok tt
unfolding validate_manifest_relative_path check_manifest_segments check_manifest_segment
    check_segment_chars is_reserved split strip_text stem_of
path-up h = cc h

abbrev released : UpdateCheckResult
released = record {
  current_version = "1.0.0-rc.1";
  latest_version = "1.0.0";
  update_available = true;
  release_url = none;
}

release-found : evaluate_release_tag "1.0.0-rc.1" "v1.0.0" none ≡ ok released
unfolding evaluate_release_tag parse cmp check_identifier
release-found = refl

evaluate_release_tag-IsNewer_example :
    (released.update_available ≡ true) ↔ IsNewer (normalize_tag "v1.0.0") "1.0.0-rc.1"
evaluate_release_tag-IsNewer_example =
    evaluate_release_tag-IsNewer "1.0.0-rc.1" "v1.0.0" none released release-found
