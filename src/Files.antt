-- ===== src/Files.antt =====
-- crates/fs_scanner/src/acl.rs: the attributes, the owner and the DACL of a path. The answers of the
-- Windows API and the target of a link are parameters: `FileApi`.
pub mod Parse
pub mod Cached
mod Tests
use stars_ad_permission_anal.Base.{
  ℕ, ◌*◌, ◌%◌, ◌^◌, Bool, true, false, not, ◌&&◌, ◌||◌, ◌==◌, bit_xor, bit_and, if◌then◌else◌, List,
  [], ◌∷◌, Option, none, some, String, ◌⊕◌, Result, ok, err,
}
use stars_ad_permission_anal.Base.Format.{dec}
use stars_ad_permission_anal.Model.{Sid, FileSystemObject, LinkInfo}
use stars_ad_permission_anal.Model.Error.{
  CoreError, path_not_found, access_denied, invalid_security_descriptor,
}
use stars_ad_permission_anal.Paths.{strip_long_path_prefix, to_windows_api_path}
use stars_ad_permission_anal.Files.Parse.{RawSecurity, ParsedFields, parse_security}

-- `attributes` is the answer of `GetFileAttributesW`, `security` of `GetNamedSecurityInfoW`, an
-- error's code where it fails; `link_target` is read from the reparse point of a path.
pub record FileApi : Type 0 where
  pub attributes : String → Result ℕ ℕ
  pub security : String → Result ℕ RawSecurity
  pub link_target : String → Option LinkInfo

pub record ParsedSecurity : Type 0 where
  pub sd_bytes : List ℕ
  pub fields : ParsedFields

-- `HashMap<u64, ParsedSecurity>`, of which only the entry of a key is read.
abbrev pub SdCache : Type 0
SdCache = List (ℕ × ParsedSecurity)

unfoldable pub get : ℕ → SdCache → Option ParsedSecurity
get hash [] = none
get hash ((key, parsed) ∷ rest) =
    let later = get hash rest in if key == hash then some parsed else later

-- The loop over the bytes.
unfoldable pub fnv_from : ℕ → List ℕ → ℕ
fnv_from hash [] = hash
fnv_from hash (b ∷ bytes) = fnv_from ((bit_xor hash b * 0x0000_0100_0000_01b3) % 2 ^ 64) bytes

unfoldable pub fnv1a_64 : List ℕ → ℕ
unfolding fnv_from
fnv1a_64 bytes = fnv_from 0xcbf2_9ce4_8422_2325 bytes

-- `a == b` on bytes.
unfoldable pub same_bytes : List ℕ → List ℕ → Bool
same_bytes [] [] = true
same_bytes [] (b ∷ later) = false
same_bytes (a ∷ rest) [] = false
same_bytes (a ∷ rest) (b ∷ later) = a == b && same_bytes rest later

-- The fields of a cached descriptor with the same bytes.
abbrev pub hit : Option ParsedSecurity → List ℕ → Option ParsedFields
hit none sd_bytes = none
hit (some cached) sd_bytes =
    if same_bytes cached.sd_bytes sd_bytes then some cached.fields else none

-- `cache.entry(hash).or_insert(p)`
abbrev pub or_insert : ℕ → ParsedSecurity → SdCache → Option ParsedSecurity → SdCache
or_insert hash p cache none = (hash, p) ∷ cache
or_insert hash p cache (some old) = cache

abbrev pub fields_with : RawSecurity → ℕ → SdCache → Option ParsedFields → ParsedFields × SdCache
fields_with raw sd_hash cache (some fields) = (fields, cache)
fields_with raw sd_hash cache none =
    let fields = parse_security raw in
    (
      fields,
      or_insert sd_hash (record { sd_bytes = raw.sd_bytes; fields = fields }) cache
          (get sd_hash cache),
    )

-- From the hash of the bytes to the fields and the cache that is left.
unfoldable pub parsed_fields : RawSecurity → SdCache → ParsedFields × SdCache
unfolding fnv1a_64 get same_bytes
parsed_fields raw cache =
    let sd_hash = fnv1a_64 raw.sd_bytes in
    fields_with raw sd_hash cache (hit (get sd_hash cache) raw.sd_bytes)

abbrev attributes_error : String → ℕ → CoreError
attributes_error path code =
    if code == 2 || code == 3
    then path_not_found path
    else if code == 5
    then access_denied path
    else invalid_security_descriptor ("GetFileAttributesW(" ⊕ path ⊕ ") failed: error " ⊕ dec code)

abbrev security_error : String → ℕ → CoreError
security_error path code =
    if code == 5
    then access_denied path
    else invalid_security_descriptor
        ("GetNamedSecurityInfoW(" ⊕ path ⊕ ") failed: error " ⊕ dec code)

abbrev has_flag : ℕ → ℕ → Bool
has_flag attrs flag = not (bit_and attrs flag == 0)

abbrev pub object_of : FileApi → String → ℕ → ℕ → ParsedFields → FileSystemObject
object_of api path attrs sd_hash parsed = record {
  path = strip_long_path_prefix path;
  is_directory = has_flag attrs 0x10;
  owner_sid = parsed.owner_sid;
  dacl = parsed.dacl;
  inheritance_disabled = parsed.inheritance_disabled;
  is_reparse_point = has_flag attrs 0x400;
  unsupported_aces = parsed.unsupported_aces;
  null_dacl = parsed.null_dacl;
  sd_hash = some sd_hash;
  link = if has_flag attrs 0x400 then api.link_target path else none;
  identity_unknown = none;
}

abbrev pub with_security :
    FileApi
    → String
    → SdCache
    → ℕ
    → Result ℕ RawSecurity
    → Result CoreError FileSystemObject × SdCache
with_security api path cache attrs (err code) = (err (security_error path code), cache)
with_security api path cache attrs (ok raw) =
    let (parsed, cache') = parsed_fields raw cache in
    (ok (object_of api path attrs (fnv1a_64 raw.sd_bytes) parsed), cache')

abbrev pub with_attributes :
    FileApi → String → SdCache → Result ℕ ℕ → Result CoreError FileSystemObject × SdCache
with_attributes api path cache (err code) = (err (attributes_error path code), cache)
with_attributes api path cache (ok attrs) =
    with_security api path cache attrs (api.security (to_windows_api_path path))

unfoldable pub read_file_system_object_cached :
    FileApi → String → SdCache → Result CoreError FileSystemObject × SdCache
unfolding parsed_fields
read_file_system_object_cached api path cache =
    with_attributes api path cache (api.attributes (to_windows_api_path path))

unfoldable pub read_file_system_object : FileApi → String → Result CoreError FileSystemObject
unfolding read_file_system_object_cached
read_file_system_object api path = (read_file_system_object_cached api path []).0

-- The reads of a walk, one after the other, with one cache.
unfoldable pub read_all : FileApi → List String → SdCache → List (Result CoreError FileSystemObject)
unfolding read_file_system_object_cached
read_all api [] cache = []
read_all api (path ∷ paths) cache =
    let (object, cache') = read_file_system_object_cached api path cache in
    object ∷ read_all api paths cache'
