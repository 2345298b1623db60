-- ===== src/Share/Read.antt =====
-- crates/share_scanner/src/scanner.rs: the permissions of a share from the answers of the Windows
-- API, which are parameters: what `NetShareGetInfo`, `GetSecurityDescriptorDacl`,
-- `GetAclInformation`, `GetAce` and `ConvertSidToStringSidW` return.
pub mod Counted
use stars_ad_permission_anal.Base.{
  ℕ, zero, suc, ◌+◌, Bool, true, false, not, ◌&&◌, ◌||◌, ◌==◌, if◌then◌else◌, List, [], ◌∷◌, Option,
  none, some, String, ◌⊕◌, Result, ok, err, ◌>>=◌, is_some,
}
use stars_ad_permission_anal.Base.Format.{dec}
use stars_ad_permission_anal.Model.{AceKind, allow, deny}
use stars_ad_permission_anal.Model.Error.{CoreError, share_enumeration}
use stars_ad_permission_anal.Share.{
  SharePermission, ShareDacl, null_dacl, no_security_descriptor, acl, ShareDaclScan,
}

-- The part of an access control entry that is read; the SID is its text or an error's code.
pub record RawAce : Type 0 where
  pub ace_type : ℕ
  pub mask : ℕ
  pub sid : Result ℕ String

-- `ace_count` is the answer of `GetAclInformation`, `get_ace` of `GetAce`, `none` where that fails.
pub record RawAcl : Type 0 where
  pub ace_count : Result ℕ ℕ
  pub get_ace : ℕ → Option RawAce

-- `GetSecurityDescriptorDacl`: an error's code, or whether a DACL is present and its pointer.
abbrev pub RawDescriptor : Type 0
RawDescriptor = Result ℕ (Bool × Option RawAcl)

-- `NetShareGetInfo`: its status and, where the pointers are not null, the buffer and in it the
-- security descriptor.
pub record ShareInfo : Type 0 where
  pub status : ℕ
  pub buffer : Option (Option RawDescriptor)

pub data DaclClassification : Type 0 where
  null_acl empty_acl normal_acl : DaclClassification

unfoldable pub classify_dacl : Bool → Bool → ℕ → DaclClassification
classify_dacl present ptr_is_null ace_count =
    if not present || ptr_is_null
    then null_acl
    else if ace_count == 0
    then empty_acl
    else normal_acl

abbrev supported : ℕ → Option AceKind
supported ace_type = if ace_type == 0 then some allow else if ace_type == 1 then some deny else none

abbrev with_sid : String → RawAce → AceKind → Result ℕ String → Option SharePermission
with_sid share_name ace kind (ok sid) =
    some (record { share_name = share_name; sid = sid; mask = ace.mask; kind = kind })
with_sid share_name ace kind (err code) = none

abbrev with_kind : String → RawAce → Option AceKind → Option SharePermission
with_kind share_name ace none = none
with_kind share_name ace (some kind) = with_sid share_name ace kind ace.sid

-- The body of the loop over the entries: `none` where it counts the entry as unsupported.
abbrev pub permission_of : String → Option RawAce → Option SharePermission
permission_of share_name none = none
permission_of share_name (some ace) = with_kind share_name ace (supported ace.ace_type)

abbrev pub joined : Option SharePermission → List SharePermission × ℕ → List SharePermission × ℕ
joined none (permissions, unsupported_count) = (permissions, suc unsupported_count)
joined (some p) (permissions, unsupported_count) = (p ∷ permissions, unsupported_count)

-- `for i in 0..ace_count`, with the number of entries that are left.
unfoldable pub read_aces : String → (ℕ → Option RawAce) → ℕ → ℕ → List SharePermission × ℕ
read_aces share_name get_ace zero i = ([], 0)
read_aces share_name get_ace (suc left) i =
    joined (permission_of share_name (get_ace i)) (read_aces share_name get_ace left (suc i))

abbrev count_of : String → Option RawAcl → Result CoreError ℕ
count_of share_name none = ok 0
count_of share_name (some raw) = elim raw.ace_count [
  | ok count ↦ ok count
  | err code ↦
      err
        (share_enumeration ("GetAclInformation failed for '" ⊕ share_name ⊕ "': error " ⊕ dec code))
]

abbrev aces_of : String → Option RawAcl → ℕ → DaclClassification → Option (List SharePermission × ℕ)
aces_of share_name raw count null_acl = none
aces_of share_name raw count empty_acl = some ([], 0)
aces_of share_name none count normal_acl = some ([], 0)
aces_of share_name (some raw) count normal_acl = some (read_aces share_name raw.get_ace count 0)

unfoldable pub parse_share_dacl :
    String → RawDescriptor → Result CoreError (Option (List SharePermission × ℕ))
unfolding classify_dacl read_aces
parse_share_dacl share_name (err code) = err (
    share_enumeration
      ("GetSecurityDescriptorDacl failed for '" ⊕ share_name ⊕ "': error " ⊕ dec code))
parse_share_dacl share_name (ok (present, raw)) = do
  count ← count_of share_name raw
  ok (aces_of share_name raw count (classify_dacl present (not (is_some raw)) count))

abbrev pub scan_of : Option (List SharePermission × ℕ) → ShareDaclScan
scan_of none = record { dacl = null_dacl; unsupported_count = 0 }
scan_of (some (permissions, unsupported)) = record {
  dacl = acl permissions;
  unsupported_count = unsupported;
}

abbrev undescribed : ShareDaclScan
undescribed = record { dacl = no_security_descriptor; unsupported_count = 0 }

abbrev from_buffer : String → Option (Option RawDescriptor) → Result CoreError ShareDaclScan
from_buffer share_name none = ok undescribed
from_buffer share_name (some none) = ok undescribed
from_buffer share_name (some (some sd)) = do
  parsed ← parse_share_dacl share_name sd
  ok (scan_of parsed)

unfoldable pub get_share_dacl :
    (String → String → ShareInfo) → String → String → Result CoreError ShareDaclScan
unfolding parse_share_dacl
get_share_dacl net_share_get_info server share_name =
    let info = net_share_get_info server share_name in
    if info.status == 0
    then from_buffer share_name info.buffer
    else err (
        share_enumeration
          ("NetShareGetInfo(" ⊕ server ⊕ ", " ⊕ share_name ⊕ ") failed: status " ⊕ dec info.status))
