-- ===== src/Mask.antt =====
-- crates/permission_engine/src/mask.rs: the bits of an NTFS access mask, the mapping of generic
-- rights, the standard levels and what a label is made of.
pub mod Expand
pub mod Level
pub mod Label
mod Tests
use stars_ad_permission_anal.Base.{
  ℕ, Bool, true, false, not, ◌&&◌, ◌||◌, ◌==◌, bit_and, bit_or, not32, if◌then◌else◌, List, [], ◌∷◌,
  Option, none, some, String,
}

abbrev pub file_read_data : ℕ
file_read_data = 0x0000_0001

abbrev pub file_write_data : ℕ
file_write_data = 0x0000_0002

abbrev pub file_append_data : ℕ
file_append_data = 0x0000_0004

abbrev pub file_read_ea : ℕ
file_read_ea = 0x0000_0008

abbrev pub file_write_ea : ℕ
file_write_ea = 0x0000_0010

abbrev pub file_execute : ℕ
file_execute = 0x0000_0020

abbrev pub file_delete_child : ℕ
file_delete_child = 0x0000_0040

abbrev pub file_read_attributes : ℕ
file_read_attributes = 0x0000_0080

abbrev pub file_write_attributes : ℕ
file_write_attributes = 0x0000_0100

abbrev pub file_delete : ℕ
file_delete = 0x0001_0000

abbrev pub file_read_control : ℕ
file_read_control = 0x0002_0000

abbrev pub file_write_dac : ℕ
file_write_dac = 0x0004_0000

abbrev pub file_write_owner : ℕ
file_write_owner = 0x0008_0000

abbrev pub file_synchronize : ℕ
file_synchronize = 0x0010_0000

abbrev pub generic_all : ℕ
generic_all = 0x1000_0000

abbrev pub generic_execute : ℕ
generic_execute = 0x2000_0000

abbrev pub generic_write : ℕ
generic_write = 0x4000_0000

abbrev pub generic_read : ℕ
generic_read = 0x8000_0000

abbrev pub file_generic_read : ℕ
file_generic_read = 0x0012_0089

abbrev pub file_generic_write : ℕ
file_generic_write = 0x0012_0116

abbrev pub file_generic_execute : ℕ
file_generic_execute = 0x0012_00a0

abbrev pub inherit_only_ace : ℕ
inherit_only_ace = 0x08

abbrev pub mask_full_control : ℕ
mask_full_control = 0x001f_01ff

abbrev pub mask_modify : ℕ
mask_modify = 0x0013_01bf

abbrev pub mask_read_execute : ℕ
mask_read_execute = 0x0012_00a9

abbrev pub mask_read : ℕ
mask_read = 0x0012_0089

abbrev pub mask_write : ℕ
mask_write = 0x0012_0116

abbrev pub access_system_security : ℕ
access_system_security = 0x0100_0000

abbrev pub maximum_allowed : ℕ
maximum_allowed = 0x0200_0000

-- One `if mask & generic != 0 { out = (out & !generic) | specific; }`.
unfoldable pub map_generic : ℕ → ℕ → ℕ → ℕ → ℕ
map_generic mask generic specific out =
    if bit_and mask generic == 0 then out else bit_or (bit_and out (not32 generic)) specific

unfoldable pub expand_generic_rights : ℕ → ℕ
expand_generic_rights mask =
    let out = map_generic mask generic_read file_generic_read mask in
    let out' = map_generic mask generic_write file_generic_write out in
    let out'' = map_generic mask generic_execute file_generic_execute out' in
    map_generic mask generic_all mask_full_control out''
