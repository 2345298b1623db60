-- ===== src/Base/Bits.antt =====
-- The bits of an unsigned word: `&`, `|` and `!` of `u32` work bit by bit, and two words with the
-- same bits are equal.
mod Step
use Step.{bit_and_step, bit_or_step, bit_xor_step}
use Prim.Native.Nat.{ℕ, zero, suc, ◌+◌, ◌-◌, ◌*◌, ◌/◌, ◌%◌, ◌^◌, ◌≤◌, ◌<◌, min, max, differ}
use Prim.Native.Nat.{bit_and, bit_or, bit_xor}
use mathlib.Core.Path.{◌≡◌, refl, ◌∙◌, sym, ap}
use mathlib.Core.Logic.{◌⊎◌, inl, inr}
use mathlib.Core.Bool.{Bool, true, false, not, ◌&&◌, ◌||◌}
use native.Mathlib.Nat.{pow-suc, one-le-pow}
use native.Mathlib.Omega.{arith}
use stars_ad_permission_anal.Base.Logic.{ltb, ◌==◌, lt-or-le, Bool-cases, Bool_ext}

-- Bit `i` of a word.
pub bit : ℕ → ℕ → Bool
bit zero a = a % 2 == 1
bit (suc i) a = bit i (a / 2)

-- `!a` on `u32`.
unfoldable pub not32 : ℕ → ℕ
not32 a = bit_xor a 0xffff_ffff

abbrev pub IsU32 : ℕ → Type 0
IsU32 a = a < 2 ^ 32

-- Every bit of `a` is one of `b`.
abbrev pub BitsIn : ℕ → ℕ → Type 0
BitsIn a b = (i : ℕ) → bit i a ≡ true → bit i b ≡ true

abbrev differs : Bool → Bool → Bool
differs true b = not b
differs false b = b

and_digit : (x y : ℕ) → x < 2 → y < 2 → (min x y == 1) ≡ (x == 1 && y == 1)
and_digit x y h k = ground arith

or_digit : (x y : ℕ) → x < 2 → y < 2 → (max x y == 1) ≡ (x == 1 || y == 1)
or_digit x y h k = ground arith

xor_digit : (x y : ℕ) → x < 2 → y < 2 → (differ x y == 1) ≡ differs (x == 1) (y == 1)
xor_digit zero y h k = refl
xor_digit (suc zero) zero h k = refl
xor_digit (suc zero) (suc zero) h k = refl
xor_digit (suc zero) (suc (suc y)) h k = absurd (omega arith)
xor_digit (suc (suc x)) y h k = absurd (omega arith)

differ-lt : (x y : ℕ) → x < 2 → y < 2 → differ x y < 2
differ-lt zero y h k = k
differ-lt (suc zero) zero h k = omega arith
differ-lt (suc zero) (suc zero) h k = omega arith
differ-lt (suc zero) (suc (suc y)) h k = absurd (omega arith)
differ-lt (suc (suc x)) y h k = absurd (omega arith)

low_digit : (q r : ℕ) → r < 2 → (q * 2 + r) % 2 ≡ r
low_digit q r h = omega arith

high_digits : (q r : ℕ) → r < 2 → (q * 2 + r) / 2 ≡ q
high_digits q r h = omega arith

pub bit-and : (i a b : ℕ) → bit i (bit_and a b) ≡ (bit i a && bit i b)
unfolding bit
bit-and zero a b =
    rw (bit_and_step a b, low_digit _ (min (a % 2) (b % 2)) (omega arith))
      (and_digit (a % 2) (b % 2) (omega arith) (omega arith))
bit-and (suc i) a b =
    rw (bit_and_step a b, high_digits _ (min (a % 2) (b % 2)) (omega arith))
      (bit-and i (a / 2) (b / 2))

pub bit-or : (i a b : ℕ) → bit i (bit_or a b) ≡ (bit i a || bit i b)
unfolding bit
bit-or zero a b =
    rw (bit_or_step a b, low_digit _ (max (a % 2) (b % 2)) (omega arith))
      (or_digit (a % 2) (b % 2) (omega arith) (omega arith))
bit-or (suc i) a b =
    rw (bit_or_step a b, high_digits _ (max (a % 2) (b % 2)) (omega arith))
      (bit-or i (a / 2) (b / 2))

bit-xor : (i a b : ℕ) → bit i (bit_xor a b) ≡ differs (bit i a) (bit i b)
unfolding bit
bit-xor zero a b =
    rw
      (
        bit_xor_step a b,
        low_digit _ (differ (a % 2) (b % 2))
            (differ-lt (a % 2) (b % 2) (omega arith) (omega arith)),
      )
      (xor_digit (a % 2) (b % 2) (omega arith) (omega arith))
bit-xor (suc i) a b =
    rw
      (
        bit_xor_step a b,
        high_digits _ (differ (a % 2) (b % 2))
            (differ-lt (a % 2) (b % 2) (omega arith) (omega arith)),
      )
      (bit-xor i (a / 2) (b / 2))

pub bit-zero : (i : ℕ) → bit i 0 ≡ false
unfolding bit
bit-zero zero = refl
bit-zero (suc i) = bit-zero i

-- Bits above the width are clear.
pub bit_above : (k i a : ℕ) → a < 2 ^ k → k ≤ i → bit i a ≡ false
unfolding bit
bit_above zero i a h le = rw (let z : a ≡ 0 = omega arith in z) (bit-zero i)
bit_above (suc k) zero a h le = absurd (omega arith)
bit_above (suc k) (suc i) a h le = bit_above k i (a / 2) (omega (arith, pow-suc 2 k)) (omega arith)

-- A number with no bit set is 0.
zero_of_bits : (n a : ℕ) → a ≤ n → ((i : ℕ) → bit i a ≡ false) → a ≡ 0
unfolding bit
zero_of_bits n zero le h = refl
zero_of_bits zero (suc a) le h = elim le [ ]
zero_of_bits (suc n) (suc a) le h =
    ground (arith, h 0, zero_of_bits n (suc a / 2) (omega arith) (λ i. h (suc i)))

bit_ext_below : (n a b : ℕ) → a ≤ n → b ≤ n → ((i : ℕ) → bit i a ≡ bit i b) → a ≡ b
unfolding bit
bit_ext_below zero a b la lb h = omega arith
bit_ext_below (suc n) a b la lb h =
    ground
      (arith, h 0, bit_ext_below n (a / 2) (b / 2) (omega arith) (omega arith) (λ i. h (suc i)))

-- Two numbers with the same bits are equal.
pub bit_ext : (a b : ℕ) → ((i : ℕ) → bit i a ≡ bit i b) → a ≡ b
bit_ext a b h = bit_ext_below (a + b) a b (omega arith) (omega arith) h

-- A number whose bits above the width are clear fits the width.
pub lt_of_bits : (k a : ℕ) → ((i : ℕ) → k ≤ i → bit i a ≡ false) → a < 2 ^ k
unfolding bit
lt_of_bits zero a h = omega (arith, zero_of_bits a a (omega arith) (λ i. h i (omega arith)))
lt_of_bits (suc k) a h =
    omega (arith, pow-suc 2 k, lt_of_bits k (a / 2) (λ i le. h (suc i) (omega arith)))

-- The bits of an all-ones word.
bit_ones : (k i : ℕ) → bit i (2 ^ k - 1) ≡ ltb i k
unfolding bit
bit_ones zero i = rw (bit-zero i) (ground arith)
bit_ones (suc k) zero = ground (arith, pow-suc 2 k, one-le-pow k 2)
bit_ones (suc k) (suc i) =
    rw
      (let half : (2 ^ suc k - 1) / 2 ≡ 2 ^ k - 1 = omega (arith, pow-suc 2 k, one-le-pow k 2) in
        half)
      (bit_ones k i ∙ ground arith)

pub bit-not32 : (i a : ℕ) → i < 32 → bit i (not32 a) ≡ not (bit i a)
unfolding not32
bit-not32 i a h = rw (bit-xor i a 0xffff_ffff, bit_ones 32 i) (ground arith)

pub not32-IsU32 : (a : ℕ) → IsU32 a → IsU32 (not32 a)
unfolding not32
not32-IsU32 a h =
    lt_of_bits 32 _
      λ i le. ground (arith, bit-xor i a 0xffff_ffff, bit_ones 32 i, bit_above 32 i a h le)

pub bit_and-IsU32 : (a b : ℕ) → IsU32 a → IsU32 (bit_and a b)
bit_and-IsU32 a b h = lt_of_bits 32 _ λ i le. rw (bit-and i a b, bit_above 32 i a h le)

pub bit_or-IsU32 : (a b : ℕ) → IsU32 a → IsU32 b → IsU32 (bit_or a b)
bit_or-IsU32 a b h k =
    lt_of_bits 32 _ λ i le. rw (bit-or i a b, bit_above 32 i a h le, bit_above 32 i b k le)

-- `a & !b` takes the bits of `b` out of `a`.
pub bit-without : (i a b : ℕ) → IsU32 a → bit i (bit_and a (not32 b)) ≡ (bit i a && not (bit i b))
bit-without i a b h = elim (lt-or-le i 32) [
  | inl lo ↦ rw (bit-and i a (not32 b), bit-not32 i b lo)
  | inr hi ↦ rw (bit-and i a (not32 b), bit_above 32 i a h hi)
]

-- A word is 0 exactly when it has no bit.
pub eq_zero_of_bits : (a : ℕ) → ((i : ℕ) → bit i a ≡ false) → a ≡ 0
eq_zero_of_bits a h = zero_of_bits a a (omega arith) h

-- `a & b == b` says that every bit of `b` is one of `a`.
pub BitsIn-of_and : (a b : ℕ) → bit_and a b ≡ b → BitsIn b a
BitsIn-of_and a b e i h = ground (arith, bit-and i a b, ap (bit i) e)

pub and_of_BitsIn : (a b : ℕ) → BitsIn b a → bit_and a b ≡ b
and_of_BitsIn a b h = bit_ext _ _ λ i. ground (arith, bit-and i a b, h i)

-- Testing the single bit `i`.
pub bit-pow : (i j : ℕ) → bit j (2 ^ i) ≡ (j == i)
unfolding bit
bit-pow zero zero = refl
bit-pow zero (suc j) = rw (bit-zero j) (ground arith)
bit-pow (suc i) zero = ground (arith, pow-suc 2 i)
bit-pow (suc i) (suc j) =
    rw (let half : 2 ^ suc i / 2 ≡ 2 ^ i = omega (arith, pow-suc 2 i) in half)
      (bit-pow i j ∙ ground arith)

-- `a & (1 << i) == 0` says that bit `i` of `a` is clear.
pub has_bit : (i a : ℕ) → (bit_and a (2 ^ i) == 0) ≡ not (bit i a)
has_bit i a = elim (Bool-cases (bit i a)) [
  | inl set ↦ rw set (
      ground (
        arith,
        bit-and i a (2 ^ i),
        bit-pow i i,
        bit-zero i,
        λ (e : bit_and a (2 ^ i) ≡ 0). ap (bit i) e,
      ))
  | inr clear ↦ rw clear (
      ground (
        arith,
        eq_zero_of_bits (bit_and a (2 ^ i)) (λ j.
            ground
              (arith, bit-and j a (2 ^ i), bit-pow i j, λ (e : j ≡ i). ap (λ (k : ℕ). bit k a) e)),
      ))
]

-- Words that hold each other's bits are equal.
pub BitsIn-antisym : (a b : ℕ) → BitsIn a b → BitsIn b a → a ≡ b
BitsIn-antisym a b h k = bit_ext a b λ i. Bool_ext (bit i a) (bit i b) (h i) (k i)

pub bit_or-zero : (a : ℕ) → bit_or a 0 ≡ a
bit_or-zero a = bit_ext (bit_or a 0) a λ i. ground (arith, bit-or i a 0, bit-zero i)
