-- ===== src/Files/Cached.antt =====
-- crates/fs_scanner/src/acl.rs: reading through the cache of security descriptors is reading each
-- path for itself.
use stars_ad_permission_anal.Base.{
  ℕ, true, ◌==◌, ==_iff, List, [], ◌∷◌, Option, none, some, String, map, Result, ok, err,
  Bool-cases, inl, inr, ◌≡◌, refl, sym, ap, ◌∙◌, arith, All, subst,
}
use mathlib.Core.Option.{some-injective}
use stars_ad_permission_anal.Paths.{to_windows_api_path}
use stars_ad_permission_anal.Files.Parse.{RawSecurity, ParsedFields, parse_security}
use stars_ad_permission_anal.Files.{
  FileApi, ParsedSecurity, SdCache, get, fnv1a_64, same_bytes, hit, fields_with, parsed_fields,
  with_security, with_attributes, read_file_system_object_cached, read_file_system_object, read_all,
  object_of,
}

same_bytes-eq : (xs ys : List ℕ) → same_bytes xs ys ≡ true → xs ≡ ys
unfolding same_bytes
same_bytes-eq [] [] h = refl
same_bytes-eq [] (y ∷ ys) h = absurd (ground arith)
same_bytes-eq (x ∷ xs) [] h = absurd (ground arith)
same_bytes-eq (x ∷ xs) (y ∷ ys) h = ground (arith, h, ==_iff x y, same_bytes-eq xs ys)

module _ (meaning : List ℕ → ParsedFields) where
  -- Every cached descriptor holds what its bytes mean.
  abbrev IsSound : SdCache → Type 0
  IsSound cache = All (λ entry. entry.1.fields ≡ meaning entry.1.sd_bytes) cache

  found_sound :
      (hash : ℕ) (cache : SdCache) (p : ParsedSecurity)
      → IsSound cache
      → get hash cache ≡ some p
      → p.fields ≡ meaning p.sd_bytes
  unfolding get
  found_sound hash [] p s h = absurd (ground arith)
  found_sound hash ((key, q) ∷ rest) p (here, s) h = elim (Bool-cases (key == hash)) [
    | inl same ↦
        let found : q ≡ p = some-injective q p (rw⁻¹ h (rw same refl)) in
        subst (λ x. x.fields ≡ meaning x.sd_bytes) found here
    | inr other ↦ found_sound hash rest p s (rw⁻¹ h (rw other refl))
  ]

  fields-IsSound :
      (raw : RawSecurity) (cache : SdCache) (found : Option ParsedSecurity)
      → get (fnv1a_64 raw.sd_bytes) cache ≡ found
      → IsSound cache
      → parse_security raw ≡ meaning raw.sd_bytes
      → ((fields_with raw (fnv1a_64 raw.sd_bytes) cache (hit found raw.sd_bytes)).0
          ≡ parse_security raw)
        × IsSound (fields_with raw (fnv1a_64 raw.sd_bytes) cache (hit found raw.sd_bytes)).1
  fields-IsSound raw cache none e s m = (refl, rw e (m, s))
  fields-IsSound raw cache (some p) e s m = elim (Bool-cases (same_bytes p.sd_bytes raw.sd_bytes)) [
    | inl same ↦ rw same (
        (
          found_sound (fnv1a_64 raw.sd_bytes) cache p s e
              ∙ ap meaning (same_bytes-eq p.sd_bytes raw.sd_bytes same)
              ∙ sym m,
          s,
        ))
    | inr other ↦ rw other ((refl, rw e s))
  ]

  parsed_fields-IsSound :
      (raw : RawSecurity) (cache : SdCache)
      → IsSound cache
      → parse_security raw ≡ meaning raw.sd_bytes
      → ((parsed_fields raw cache).0 ≡ parse_security raw) × IsSound (parsed_fields raw cache).1
  unfolding parsed_fields
  parsed_fields-IsSound raw cache s m =
      fields-IsSound raw cache (get (fnv1a_64 raw.sd_bytes) cache) refl s m

  security-IsSound :
      (api : FileApi) (path : String) (cache : SdCache) (attrs : ℕ) (answer : Result ℕ RawSecurity)
      → IsSound cache
      → ((raw : RawSecurity) → answer ≡ ok raw → parse_security raw ≡ meaning raw.sd_bytes)
      → ((with_security api path cache attrs answer).0 ≡ (with_security api path [] attrs answer).0)
        × IsSound (with_security api path cache attrs answer).1
  security-IsSound api path cache attrs (err code) s m = (refl, s)
  security-IsSound api path cache attrs (ok raw) s m =
      let cached = parsed_fields-IsSound raw cache s (m raw refl) in
      let alone = parsed_fields-IsSound raw [] tt (m raw refl) in
      (
        ap (λ f. ok (object_of api path attrs (fnv1a_64 raw.sd_bytes) f)) (cached.0 ∙ sym alone.0),
        cached.1,
      )

  attributes-IsSound :
      (api : FileApi) (path : String) (cache : SdCache) (answer : Result ℕ ℕ)
      → IsSound cache
      → ((raw : RawSecurity)
          → api.security (to_windows_api_path path) ≡ ok raw
          → parse_security raw ≡ meaning raw.sd_bytes)
      → ((with_attributes api path cache answer).0 ≡ (with_attributes api path [] answer).0)
        × IsSound (with_attributes api path cache answer).1
  attributes-IsSound api path cache (err code) s m = (refl, s)
  attributes-IsSound api path cache (ok attrs) s m =
      security-IsSound api path cache attrs (api.security (to_windows_api_path path)) s m

  read_sound :
      (api : FileApi) (paths : List String) (cache : SdCache)
      → IsSound cache
      → ((path : String) (raw : RawSecurity)
          → api.security path ≡ ok raw
          → parse_security raw ≡ meaning raw.sd_bytes)
      → read_all api paths cache ≡ map (read_file_system_object api) paths
  unfolding read_all read_file_system_object read_file_system_object_cached
  read_sound api [] cache s m = refl
  read_sound api (path ∷ paths) cache s m =
      let (same, sound) =
        attributes-IsSound api path cache (api.attributes (to_windows_api_path path)) s
          (m (to_windows_api_path path)) in
      let others = read_sound api paths _ sound m in λ i. same i ∷ others i

-- For a system on which the fields that are parsed from a descriptor depend on its bytes alone: the
-- reads of a walk that share one cache, which starts empty, give what reading each path for itself
-- gives, errors included, also where two descriptors have the same hash.
pub read_all-read_file_system_object :
    (meaning : List ℕ → ParsedFields) (api : FileApi) (paths : List String)
    → ((path : String) (raw : RawSecurity)
        → api.security path ≡ ok raw
        → parse_security raw ≡ meaning raw.sd_bytes)
    → read_all api paths [] ≡ map (read_file_system_object api) paths
read_all-read_file_system_object meaning api paths m = read_sound meaning api paths [] tt m
