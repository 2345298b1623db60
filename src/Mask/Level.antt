-- ===== src/Mask/Level.antt =====
-- crates/permission_engine/src/mask.rs: the standard levels of the basic permissions dialog, the
-- named bits of the advanced one, and `NormalizedRights::base_level`.
use stars_ad_permission_anal.Base.{
  ℕ, Bool, ◌==◌, bit_and, bit_or, not32, List, [], ◌∷◌, Option, String, find, not, if◌then◌else◌,
}
use stars_ad_permission_anal.Mask.{
  file_read_data, file_write_data, file_append_data, file_read_ea, file_write_ea, file_execute,
  file_delete_child, file_read_attributes, file_write_attributes, file_delete, file_read_control,
  file_write_dac, file_write_owner, file_synchronize, generic_all, generic_execute, generic_write,
  generic_read, mask_full_control, mask_modify, mask_read_execute, mask_read, mask_write,
  access_system_security, maximum_allowed,
}

pub data StandardLevel : Type 0 where
  full_control modify read_execute read_write read write : StandardLevel

-- `STANDARD_LEVELS`, highest first.
abbrev pub standard_levels : List StandardLevel
standard_levels = full_control ∷ modify ∷ read_execute ∷ read_write ∷ read ∷ write ∷ []

-- `StandardLevel::mask`
unfoldable pub level_mask : StandardLevel → ℕ
level_mask full_control = mask_full_control
level_mask modify = mask_modify
level_mask read_execute = mask_read_execute
level_mask read_write = bit_or mask_read mask_write
level_mask read = mask_read
level_mask write = mask_write

-- `StandardLevel::name`
unfoldable pub level_name : StandardLevel → String
level_name full_control = "Full Control"
level_name modify = "Modify"
level_name read_execute = "Read & Execute"
level_name read_write = "Read & Write"
level_name read = "Read"
level_name write = "Write"

-- `StandardLevel::short`
unfoldable pub level_short : StandardLevel → String
level_short full_control = "F"
level_short modify = "M"
level_short read_execute = "RX"
level_short read_write = "RW"
level_short read = "R"
level_short write = "W"

pub record NamedBit : Type 0 where
  pub bit : ℕ
  pub name : String
  pub short : String

abbrev pub named : ℕ → String → String → NamedBit
named b n s = record { bit = b; name = n; short = s }

-- `NAMED_BITS`, in the order of the advanced security dialog.
abbrev pub named_bits : List NamedBit
named_bits =
    named file_execute "Traverse folder / execute file" "X"
    ∷ named file_read_data "List folder / read data" "RD"
    ∷ named file_read_attributes "Read attributes" "RA"
    ∷ named file_read_ea "Read extended attributes" "REA"
    ∷ named file_write_data "Create files / write data" "WD"
    ∷ named file_append_data "Create folders / append data" "AD"
    ∷ named file_write_attributes "Write attributes" "WA"
    ∷ named file_write_ea "Write extended attributes" "WEA"
    ∷ named file_delete_child "Delete subfolders and files" "DC"
    ∷ named file_delete "Delete" "DE"
    ∷ named file_read_control "Read permissions" "RC"
    ∷ named file_write_dac "Change permissions" "WDAC"
    ∷ named file_write_owner "Take ownership" "WO"
    ∷ named file_synchronize "Synchronize" "S"
    ∷ named access_system_security "Access system security (SACL)" "AS"
    ∷ named maximum_allowed "Maximum allowed" "MA"
    ∷ named generic_all "Generic all" "GA"
    ∷ named generic_execute "Generic execute" "GE"
    ∷ named generic_write "Generic write" "GW"
    ∷ named generic_read "Generic read" "GR"
    ∷ []

-- `raw & mask == mask`
abbrev pub holds : ℕ → ℕ → Bool
holds raw mask = bit_and raw mask == mask

-- `NormalizedRights::base_level`
unfoldable pub base_level : ℕ → Option StandardLevel
unfolding level_mask
base_level raw = find (λ level. holds raw (level_mask level)) standard_levels

-- `NormalizedRights::has_generic`
unfoldable pub has_generic : ℕ → Bool
has_generic raw = not (
    bit_and raw (bit_or (bit_or (bit_or generic_all generic_execute) generic_write) generic_read)
    == 0)

-- `LimitingSide`
pub data LimitingSide : Type 0 where
  share ntfs neither : LimitingSide

unfoldable pub limiting_side : ℕ → ℕ → LimitingSide
limiting_side n s =
    if not (bit_and n (not32 s) == 0)
    then share
    else if not (bit_and s (not32 n) == 0)
    then ntfs
    else neither
