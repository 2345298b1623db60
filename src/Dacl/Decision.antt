-- ===== src/Dacl/Decision.antt =====
-- The decision rule of Windows' access check for one right: the first entry that counts and names
-- the right decides it. This is the specification of the walks.
use stars_ad_permission_anal.Base.{
  ℕ, Bool, true, false, ◌&&◌, if◌then◌else◌, List, [], ◌∷◌, Option, none, some, bit, str_eq, map,
}
use stars_ad_permission_anal.Model.{Sid, AceEntry}
use stars_ad_permission_anal.Mask.{expand_generic_rights}
use stars_ad_permission_anal.Dacl.{is_allow, is_deny}

-- Which entries count, by whatever rule.
abbrev pub Matching : Type 0
Matching = AceEntry → Bool

-- The entry counts and its expanded mask holds bit `i`.
abbrev pub names_right : Matching → ℕ → AceEntry → Bool
names_right counts i ace = counts ace && bit i (expand_generic_rights ace.mask)

-- The first entry that counts and whose expanded mask holds bit `i`.
unfoldable pub first_decider : Matching → ℕ → List AceEntry → Option AceEntry
first_decider counts i [] = none
first_decider counts i (ace ∷ rest) =
    let later = first_decider counts i rest in if names_right counts i ace then some ace else later

abbrev pub allowed : Option AceEntry → Bool
allowed none = false
allowed (some ace) = is_allow ace.kind

abbrev pub refused : Option AceEntry → Bool
refused none = false
refused (some ace) = is_deny ace.kind

-- The right is granted by an entry of this trustee.
abbrev pub allowed_by : Sid → Option AceEntry → Bool
allowed_by sid none = false
allowed_by sid (some ace) = is_allow ace.kind && str_eq ace.sid sid

-- For each entry, whether it is the one that decides bit `i`.
unfoldable pub decider_marks : Matching → ℕ → List AceEntry → List Bool
decider_marks counts i [] = []
decider_marks counts i (ace ∷ rest) =
    let later = decider_marks counts i rest in
    if names_right counts i ace then true ∷ map (λ _. false) rest else false ∷ later
