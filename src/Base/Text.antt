-- ===== src/Base/Text.antt =====
-- Texts: equality and order of Rust's `str`, the texts of a list of codes, and the string
-- functions of Rust's standard library that the program calls.
use Prim.Native.Nat.{ℕ, suc, ◌+◌, ◌*◌, ◌-◌, Ordering}
use Prim.Native.Char.{code}
use Prim.Native.String.{String, compare, ◌++◌ as append}
use mathlib.Core.Path.{◌≡◌}
use mathlib.Core.Logic.{◌↔◌}
use mathlib.Core.Bool.{Bool, true, false, ◌&&◌, ◌||◌}
use mathlib.Core.Option.{Option, none, some}
use mathlib.Core.List.{List, [], ◌∷◌}
use text.Mathlib.Text.{◌==◌ as text_eq}
use text.Mathlib.TextEquality.{eq_iff}
use stars_ad_permission_anal.Base.Logic.{leb, ◌==◌, if◌then◌else◌}

-- `a == b` on `str`.
abbrev pub str_eq : String → String → Bool
str_eq = text_eq

pub str_eq_iff : (s t : String) → (str_eq s t ≡ true) ↔ (s ≡ t)
str_eq_iff = eq_iff

-- `a <= b` on `str`: by code points, which is the order of the UTF-8 bytes.
abbrev pub str_le : String → String → Bool
str_le s t = elim (compare s t) [ Ordering.gt ↦ false | _ ↦ true ]

-- `format!("{a}{b}")`
infixr 60 ◌⊕◌
abbrev pub ◌⊕◌ : String → String → String
s ⊕ t = append s t

-- `parts.join(sep)`
unfoldable pub join : String → List String → String
join sep [] = ""
join sep (s ∷ []) = s
join sep (s ∷ t ∷ rest) = s ⊕ sep ⊕ join sep (t ∷ rest)

abbrev pub codes : String → List ℕ
codes String.[] = []
codes (String.◌∷◌ c s) = code c ∷ codes s

-- `s.strip_prefix(p)` on codes.
unfoldable pub strip_prefix : List ℕ → List ℕ → Option (List ℕ)
strip_prefix [] s = some s
strip_prefix (p ∷ ps) [] = none
strip_prefix (p ∷ ps) (c ∷ s) = let rest = strip_prefix ps s in if p == c then rest else none

-- `s.rsplit_once(c)`: at the last occurrence.
unfoldable pub rsplit_once : ℕ → List ℕ → Option (List ℕ × List ℕ)
rsplit_once c [] = none
rsplit_once c (x ∷ s) = elim (rsplit_once c s) [
  | some (before, after) ↦ some (x ∷ before, after)
  | none ↦ if x == c then some ([], s) else none
]

-- `s.split(c).count()`
unfoldable pub split_count : ℕ → List ℕ → ℕ
split_count c [] = 1
split_count c (x ∷ s) = let rest = split_count c s in if x == c then suc rest else rest

-- Equality of texts given by their codes.
unfoldable pub codes_eq : List ℕ → List ℕ → Bool
codes_eq [] [] = true
codes_eq [] (d ∷ t) = false
codes_eq (c ∷ s) [] = false
codes_eq (c ∷ s) (d ∷ t) = c == d && codes_eq s t

abbrev pub is_digit : ℕ → Bool
is_digit c = leb b'0' c && leb c b'9'

-- The digits of an unsigned integer of at most `limit`, after a value read so far.
pub parse_digits : ℕ → ℕ → List ℕ → Option ℕ
parse_digits limit value [] = some value
parse_digits limit value (c ∷ s) =
    let next = value * 10 + (c - b'0') in
    let rest = parse_digits limit next s in if is_digit c && leb next limit then rest else none

-- `s.parse::<uN>()` with the greatest value of the type: a `+` may stand in front of the digits.
unfoldable pub parse_unsigned : ℕ → List ℕ → Option ℕ
unfolding parse_digits
parse_unsigned limit [] = none
parse_unsigned limit (c ∷ []) = parse_digits limit 0 (c ∷ [])
parse_unsigned limit (c ∷ d ∷ s) =
    if c == b'+' then parse_digits limit 0 (d ∷ s) else parse_digits limit 0 (c ∷ d ∷ s)

abbrev pub max_u32 : ℕ
max_u32 = 0xffff_ffff

abbrev pub starts_codes : List ℕ → List ℕ → Bool
starts_codes [] s = true
starts_codes (p ∷ ps) [] = false
starts_codes (p ∷ ps) (c ∷ s) = p == c && starts_codes ps s

-- `s.contains(part)` on codes.
unfoldable pub contains_codes : List ℕ → List ℕ → Bool
contains_codes part [] = starts_codes part []
contains_codes part (c ∷ s) = starts_codes part (c ∷ s) || contains_codes part s
