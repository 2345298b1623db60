-- ===== src/Mask/Label/Tests.antt =====
-- What the mask texts show of single masks.
use stars_ad_permission_anal.Base.{◌≡◌, refl, join, not32}
use stars_ad_permission_anal.Base.Format.{hex, hex8}
use stars_ad_permission_anal.Mask.Level.{base_level, level_short}
use stars_ad_permission_anal.Mask.Label.{label, display_name}
use stars_ad_permission_anal.Base.{
  ℕ, true, not, ◌==◌, bit, if◌then◌else◌, [], ◌∷◌, ◌++◌, ◌⊕◌, arith,
}
use stars_ad_permission_anal.Mask.Label.{decompose}
use stars_ad_permission_anal.Mask.Label.Complete.{unnamed, listed, shows_bit, decompose_complete}
use stars_ad_permission_anal.Base.{false}
use stars_ad_permission_anal.Mask.Label.{rights_statement, rights_label_compact}

label_read : label 0x0012_0089 ≡ "R"
unfolding label base_level join not32 level_short
label_read = refl

label_read_plus : label 0x001e_0089 ≡ "R+WDAC,WO"
unfolding label base_level join not32 level_short
label_read_plus = refl

display_other : display_name 0x0020_0000 ≡ "Special: other bits 0x200000"
unfolding display_name base_level join not32 hex
display_other = refl

-- Read with "Change permissions" and "Take ownership".
decompose_complete_example :
    (decompose 0x001e_0089 ≡ (
      base_level 0x001e_0089,
      if not (unnamed 0x001e_0089 == 0)
          then listed 0x001e_0089 ++ ("other bits", "0x" ⊕ hex (unnamed 0x001e_0089)) ∷ []
          else listed 0x001e_0089,
    ))
    × ((i : ℕ) → bit i 0x001e_0089 ≡ true → shows_bit i 0x001e_0089 ≡ true)
decompose_complete_example = decompose_complete 0x001e_0089 (omega arith)

statement_nothing : rights_statement 0 true ≡ "No access (0x00000000)"
unfolding rights_statement hex8
statement_nothing = refl

compact_uncertain : rights_label_compact 0 false ≡ "NOT DETERMINABLE (known data: No access)"
unfolding rights_label_compact
compact_uncertain = refl
