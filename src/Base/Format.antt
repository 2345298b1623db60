-- ===== src/Base/Format.antt =====
-- Rust's `{}`, `{:X}` and `{:08X}` for unsigned numbers.
use Prim.Native.Nat.{ℕ, zero, suc, ◌/◌, ◌%◌}
use Prim.Native.String.{String}
use mathlib.Core.Bool.{true, false}
use mathlib.Core.List.{List, [], ◌∷◌}
use stars_ad_permission_anal.Base.Logic.{◌==◌}
use stars_ad_permission_anal.Base.Text.{◌⊕◌}

abbrev digit_texts : List String
digit_texts =
    "0" ∷ "1" ∷ "2" ∷ "3" ∷ "4" ∷ "5" ∷ "6" ∷ "7" ∷ "8" ∷ "9" ∷ "A" ∷ "B" ∷ "C" ∷ "D" ∷ "E" ∷ "F"
    ∷ []

pick : List String → ℕ → String
pick [] i = ""
pick (s ∷ rest) zero = s
pick (s ∷ rest) (suc i) = pick rest i

pub digit : ℕ → String
unfolding pick
digit d = pick digit_texts d

-- The digits of `n` to a base, most significant first; the fuel is the number of digits at most.
pub print_digits : ℕ → ℕ → ℕ → String → String
print_digits base zero n acc = acc
print_digits base (suc fuel) n acc =
    let acc' = digit (n % base) ⊕ acc in
    elim (n / base == 0) [ true ↦ acc' | false ↦ print_digits base fuel (n / base) acc' ]

-- `{n}`: a number has no more decimal digits than its value plus one.
unfoldable pub dec : ℕ → String
unfolding print_digits digit
dec n = print_digits 10 (suc n) n ""

-- `{n:X}` for `u32`.
unfoldable pub hex : ℕ → String
unfolding print_digits digit
hex n = print_digits 16 8 n ""

-- The `k` lowest hexadecimal digits.
unfoldable pub hex_fixed : ℕ → ℕ → String → String
hex_fixed zero n acc = acc
hex_fixed (suc k) n acc = hex_fixed k (n / 16) (digit (n % 16) ⊕ acc)

-- `{n:08X}` for `u32`.
unfoldable pub hex8 : ℕ → String
unfolding hex_fixed digit
hex8 n = hex_fixed 8 n ""
