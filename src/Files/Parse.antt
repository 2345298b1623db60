-- ===== src/Files/Parse.antt =====
-- crates/fs_scanner/src/acl.rs: the owner, the entries and the protection that a security descriptor
-- holds, from the answers of the Windows API about it.
pub mod Counted
use stars_ad_permission_anal.Base.{
  ℕ, zero, suc, Bool, true, false, not, ◌&&◌, ◌||◌, ◌==◌, bit_and, if◌then◌else◌, List, [], ◌∷◌,
  Option, none, some, String, Result, ok, err,
}
use stars_ad_permission_anal.Model.{Sid, AceKind, allow, deny, AceEntry, UnsupportedAce}

-- An entry whose header could be read; the SID is its text or an error's code.
pub record RawAce : Type 0 where
  pub ace_type : ℕ
  pub flags : ℕ
  pub mask : ℕ
  pub sid : Result ℕ String

-- `ace_count` is `none` where `GetAclInformation` fails, `get_ace` where `GetAce` does.
pub record RawDacl : Type 0 where
  pub ace_count : Option ℕ
  pub get_ace : ℕ → Option RawAce

-- The bytes of a descriptor and what the API finds in it: the owner and the DACL, `none` for a null
-- pointer, and the control word, `none` where it cannot be read.
pub record RawSecurity : Type 0 where
  pub sd_bytes : List ℕ
  pub owner : Option (Result ℕ String)
  pub dacl : Option RawDacl
  pub control : Option ℕ

pub record ParsedFields : Type 0 where
  pub owner_sid : Option Sid
  pub dacl : List AceEntry
  pub unsupported_aces : List UnsupportedAce
  pub null_dacl : Bool
  pub inheritance_disabled : Bool

pub data ParseAceOutcome : Type 0 where
  entry : AceEntry → ParseAceOutcome
  unsupported sid_unreadable : UnsupportedAce → ParseAceOutcome

-- The object and container bits, and the no-propagate and inherit-only bits.
abbrev pub split_ace_flags : ℕ → ℕ × ℕ
split_ace_flags flags = (bit_and flags 0x03, bit_and flags 0x0c)

abbrev unsupported_of : RawAce → UnsupportedAce
unsupported_of ace = record { ace_type = ace.ace_type; flags = ace.flags; mask = ace.mask }

abbrev supported_ace : RawAce → AceKind → Result ℕ String → ParseAceOutcome
supported_ace ace kind (err code) = sid_unreadable (unsupported_of ace)
supported_ace ace kind (ok sid) =
    let (inheritance_flags, propagation_flags) = split_ace_flags ace.flags in
    entry (record {
      kind = kind;
      sid = sid;
      mask = ace.mask;
      inherited = not (bit_and ace.flags 0x10 == 0);
      inheritance_flags = inheritance_flags;
      propagation_flags = propagation_flags;
    })

unfoldable pub parse_ace : RawAce → ParseAceOutcome
parse_ace ace =
    if ace.ace_type == 0
    then supported_ace ace allow ace.sid
    else if ace.ace_type == 1
    then supported_ace ace deny ace.sid
    else unsupported (unsupported_of ace)

abbrev pub ace_unreadable : UnsupportedAce
ace_unreadable = record { ace_type = 0xfe; flags = 0; mask = 0 }

abbrev pub acl_unreadable : UnsupportedAce
acl_unreadable = record { ace_type = 0xff; flags = 0; mask = 0 }

-- The outcome for the entry at an index.
abbrev pub outcome_at : Option RawAce → ParseAceOutcome
outcome_at none = unsupported ace_unreadable
outcome_at (some ace) = parse_ace ace

abbrev pub push :
    ParseAceOutcome → List AceEntry × List UnsupportedAce → List AceEntry × List UnsupportedAce
push (entry e) (entries, others) = (e ∷ entries, others)
push (unsupported u) (entries, others) = (entries, u ∷ others)
push (sid_unreadable u) (entries, others) = (entries, u ∷ others)

-- `for i in 0..AceCount`, with the number of entries that are left.
unfoldable pub parse_aces : (ℕ → Option RawAce) → ℕ → ℕ → List AceEntry × List UnsupportedAce
unfolding parse_ace
parse_aces get_ace zero i = ([], [])
parse_aces get_ace (suc left) i = push (outcome_at (get_ace i)) (parse_aces get_ace left (suc i))

abbrev with_count : RawDacl → Option ℕ → List AceEntry × List UnsupportedAce
with_count dacl none = ([], acl_unreadable ∷ [])
with_count dacl (some ace_count) = parse_aces dacl.get_ace ace_count 0

unfoldable pub parse_dacl : RawDacl → List AceEntry × List UnsupportedAce
unfolding parse_aces
parse_dacl dacl = with_count dacl dacl.ace_count

abbrev owner_of : Option (Result ℕ String) → Option Sid
owner_of none = none
owner_of (some (ok sid)) = some sid
owner_of (some (err code)) = none

abbrev is_protected : Option ℕ → Bool
is_protected none = false
is_protected (some control) = not (bit_and control 0x1000 == 0)

abbrev dacl_of : Option RawDacl → List AceEntry × List UnsupportedAce × Bool
dacl_of none = ([], [], true)
dacl_of (some dacl) = let (entries, others) = parse_dacl dacl in (entries, others, false)

unfoldable pub parse_security : RawSecurity → ParsedFields
unfolding parse_dacl
parse_security raw =
    let (entries, others, null_dacl) = dacl_of raw.dacl in
    record {
      owner_sid = owner_of raw.owner;
      dacl = entries;
      unsupported_aces = others;
      null_dacl = null_dacl;
      inheritance_disabled = is_protected raw.control;
    }
