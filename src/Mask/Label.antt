-- ===== src/Mask/Label.antt =====
-- crates/permission_engine/src/mask.rs: `NormalizedRights::decompose` and the texts made of it.
pub mod Complete
mod Tests
use stars_ad_permission_anal.Base.{
  ℕ, Bool, true, false, not, ◌&&◌, ◌==◌, bit_and, not32, if◌then◌else◌, List, [], ◌∷◌, ◌++◌, map,
  Option, none, some, String, str_eq, ◌⊕◌, join,
}
use stars_ad_permission_anal.Base.Format.{hex, hex8}
use stars_ad_permission_anal.Mask.{mask_write}
use stars_ad_permission_anal.Mask.Level.{
  StandardLevel, read_execute, NamedBit, named_bits, level_mask, level_name, level_short,
  base_level, holds,
}

-- An extra right: its name and its abbreviation.
abbrev pub Extra : Type 0
Extra = String × String

-- The `for named in NAMED_BITS` loop: the bits that are left, and the extras in order.
pub name_bits : List NamedBit → ℕ → List Extra → ℕ × List Extra
name_bits [] rest extras = (rest, extras)
name_bits (n ∷ more) rest extras =
    let hit = not (bit_and rest n.bit == 0) in
    name_bits more (if hit then bit_and rest (not32 n.bit) else rest)
      (if hit then extras ++ (n.name, n.short) ∷ [] else extras)

-- `base.map(StandardLevel::mask).unwrap_or(0)`
abbrev pub base_mask : Option StandardLevel → ℕ
base_mask none = 0
base_mask (some level) = level_mask level

abbrev pub is_read_execute : Option StandardLevel → Bool
is_read_execute (some read_execute) = true
is_read_execute _ = false

-- Whether a complete Write set is named as "Write" on top of Read & Execute.
pub names_write : ℕ → Bool
names_write raw = is_read_execute (base_level raw) && holds raw mask_write

-- The bits that the loop starts with.
pub rest_of : ℕ → ℕ
unfolding names_write
rest_of raw =
    let rest = bit_and raw (not32 (base_mask (base_level raw))) in
    if names_write raw then bit_and rest (not32 mask_write) else rest

-- `NormalizedRights::decompose`
pub decompose : ℕ → Option StandardLevel × List Extra
unfolding name_bits rest_of names_write
decompose raw =
    let first = if names_write raw then ("Write", "W") ∷ [] else [] in
    let (rest, extras) = name_bits named_bits (rest_of raw) first in
    (
      base_level raw,
      if not (rest == 0) then extras ++ ("other bits", "0x" ⊕ hex rest) ∷ [] else extras,
    )

-- The text of a level with the extras after it.
label_of : Option StandardLevel → List String → String
label_of (some level) [] = level_short level
label_of (some level) (s ∷ rest) = level_short level ⊕ "+" ⊕ join "," (s ∷ rest)
label_of none shorts = "(" ⊕ join "," shorts ⊕ ")"

-- `NormalizedRights::label`
pub label : ℕ → String
unfolding decompose label_of
label raw =
    if raw == 0
    then "none"
    else let (base, extras) = decompose raw in label_of base (map (λ e. e.1) extras)

extra_name : Extra → String
extra_name (name, short) = if str_eq name "other bits" then "other bits " ⊕ short else name

name_of : Option StandardLevel → List String → String
name_of (some level) [] = level_name level
name_of (some level) (s ∷ rest) = level_name level ⊕ " + " ⊕ join ", " (s ∷ rest)
name_of none names = "Special: " ⊕ join ", " names

-- `NormalizedRights::display_name`
pub display_name : ℕ → String
unfolding decompose name_of extra_name
display_name raw =
    if raw == 0
    then "No access"
    else let (base, extras) = decompose raw in name_of base (map extra_name extras)

abbrev pub not_determinable : String
not_determinable = "NOT DETERMINABLE"

pub rights_statement : ℕ → Bool → String
unfolding display_name
rights_statement mask determinable =
    let label = display_name mask in
    if determinable
    then label ⊕ " (0x" ⊕ hex8 mask ⊕ ")"
    else not_determinable
      ⊕ " — the known data alone gives "
      ⊕ label
      ⊕ " (0x"
      ⊕ hex8 mask
      ⊕ "); the real right may differ"

pub rights_label_compact : ℕ → Bool → String
unfolding display_name
rights_label_compact mask determinable =
    let label = display_name mask in
    if determinable then label else not_determinable ⊕ " (known data: " ⊕ label ⊕ ")"
