-- ===== src/Base/Bits/Step.antt =====
-- One binary digit of `&`, `|` and `^`: the native operations recurse on digits with the first
-- operand for fuel; here that fuel is gone.
use Prim.Native.Nat.{
  ℕ, zero, suc, ◌+◌, ◌*◌, ◌/◌, ◌%◌, ◌≤◌, min, max, differ, digits, bitwise, bit_and, bit_or,
  bit_xor, bit_and-bitwise, bit_or-bitwise, bit_xor-bitwise,
}
use mathlib.Core.Path.{◌≡◌, refl}
use native.Mathlib.Omega.{arith}

module _ (at_end : ℕ → ℕ) (on_digit : ℕ → ℕ → ℕ) where
  digits-enough :
      (m a b n : ℕ) → a ≤ n → a ≤ m → digits at_end on_digit n a b ≡ digits at_end on_digit m a b
  digits-enough (suc m) (suc a) b (suc n) k h =
      omega (arith, digits-enough m (suc a / 2) (b / 2) n (omega arith) (omega arith))
  digits-enough (suc m) (suc a) b zero k h = elim k [ ]
  digits-enough zero (suc a) b n k h = elim h [ ]
  digits-enough (suc m) zero b (suc n) k h = refl
  digits-enough (suc m) zero b zero k h = refl
  digits-enough zero zero b (suc n) k h = refl
  digits-enough zero zero b zero k h = refl

  low_digit :
      (a b : ℕ)
      → let more = bitwise at_end on_digit (suc a / 2) (b / 2) in
        bitwise at_end on_digit (suc a) b ≡ more * 2 + on_digit (suc a % 2) (b % 2)
  low_digit a b =
      omega (arith, digits-enough (suc a / 2) (suc a / 2) (b / 2) a (omega arith) (omega arith))

pub bit_xor_step : (x y : ℕ) → bit_xor x y ≡ bit_xor (x / 2) (y / 2) * 2 + differ (x % 2) (y % 2)
bit_xor_step (suc x) y = simp bit_xor-bitwise (low_digit (λ r. r) differ x y)
bit_xor_step zero y = simp bit_xor-bitwise (omega arith)

pub bit_and_step : (x y : ℕ) → bit_and x y ≡ bit_and (x / 2) (y / 2) * 2 + min (x % 2) (y % 2)
bit_and_step (suc x) y = simp bit_and-bitwise (low_digit (λ _. 0) min x y)
bit_and_step zero y = simp bit_and-bitwise (omega arith)

pub bit_or_step : (x y : ℕ) → bit_or x y ≡ bit_or (x / 2) (y / 2) * 2 + max (x % 2) (y % 2)
bit_or_step (suc x) y = simp bit_or-bitwise (low_digit (λ r. r) max x y)
bit_or_step zero y = simp bit_or-bitwise (omega arith)
