-- ===== src/Mask/Label/Complete.antt =====
-- crates/permission_engine/src/mask.rs: which bits of a mask `NormalizedRights::decompose` shows, and
-- where.
use stars_ad_permission_anal.Base.{
  ℕ, Bool, true, not, ◌&&◌, ◌||◌, ◌==◌, ==_iff, bit_and, not32, if◌then◌else◌, List, [], ◌∷◌, ◌++◌,
  map, filter, any, all, Option, ◌≡◌, refl, ◌∙◌, sym, ap, arith, bit, bit-and, bit-without,
  bit_and-IsU32, bit_ext, bit-zero, IsU32, Bool-cases, inl, inr,
}
use stars_ad_permission_anal.Base.{◌⊕◌}
use stars_ad_permission_anal.Base.Format.{hex}
use mathlib.Core.List.{append_assoc, append-nil}
use stars_ad_permission_anal.Mask.{mask_write}
use stars_ad_permission_anal.Mask.Level.{StandardLevel, NamedBit, named_bits, base_level}
use stars_ad_permission_anal.Mask.Label.{
  Extra, name_bits, base_mask, names_write, rest_of, decompose,
}

-- The right is among the bits.
abbrev pub hits : ℕ → NamedBit → Bool
hits rest n = not (bit_and rest n.bit == 0)

abbrev pub extra_of : NamedBit → Extra
extra_of n = (n.name, n.short)

-- The bits without those of the rights in the list that are among them.
pub without_named : List NamedBit → ℕ → ℕ
without_named [] rest = rest
without_named (n ∷ more) rest =
    without_named more (if hits rest n then bit_and rest (not32 n.bit) else rest)

-- No right of the list shares a bit with an earlier one.
abbrev separate : List NamedBit → Bool
separate [] = true
separate (n ∷ more) = all (λ m. bit_and n.bit m.bit == 0) more && separate more

named_bits-separate : separate named_bits ≡ true
named_bits-separate = refl

-- Taking out one right leaves the others as they were.
hits-without :
    (rest : ℕ) (n m : NamedBit)
    → IsU32 rest
    → (bit_and n.bit m.bit == 0) ≡ true
    → bit_and (bit_and rest (not32 n.bit)) m.bit ≡ bit_and rest m.bit
hits-without rest n m h apart = bit_ext _ _ λ i. ground (
  arith,
  bit-and i (bit_and rest (not32 n.bit)) m.bit,
  bit-and i rest m.bit,
  bit-without i rest n.bit h,
  bit-and i n.bit m.bit,
  ap (bit i) ((==_iff (bit_and n.bit m.bit) 0).0 apart),
  bit-zero i,
)

filter-without :
    (rest : ℕ) (n : NamedBit) (more : List NamedBit)
    → IsU32 rest
    → all (λ m. bit_and n.bit m.bit == 0) more ≡ true
    → filter (hits (bit_and rest (not32 n.bit))) more ≡ filter (hits rest) more
filter-without rest n [] h apart = refl
filter-without rest n (m ∷ more) h apart =
    rw (hits-without rest n m h (ground arith), filter-without rest n more h (ground arith))

any-without :
    (rest i : ℕ) (n : NamedBit) (more : List NamedBit)
    → IsU32 rest
    → all (λ m. bit_and n.bit m.bit == 0) more ≡ true
    → any (λ m. hits (bit_and rest (not32 n.bit)) m && bit i m.bit) more
      ≡ any (λ m. hits rest m && bit i m.bit) more
any-without rest i n [] h apart = refl
any-without rest i n (m ∷ more) h apart =
    rw (hits-without rest n m h (ground arith), any-without rest i n more h (ground arith))

-- The loop names the rights that are among the bits, in order, and leaves the other bits.
name_bits-listed :
    (l : List NamedBit) (rest : ℕ) (extras : List Extra)
    → IsU32 rest
    → separate l ≡ true
    → name_bits l rest extras
      ≡ (without_named l rest, extras ++ map extra_of (filter (hits rest) l))
unfolding name_bits without_named
name_bits-listed [] rest extras h apart =
    ap (λ (e : List Extra). (rest, e)) (sym (append-nil extras))
name_bits-listed (n ∷ more) rest extras h apart = elim (Bool-cases (hits rest n)) [
  | inl yes' ↦
      let left = bit_and rest (not32 n.bit) in
      rw yes' (
        name_bits-listed more left (extras ++ extra_of n ∷ []) (bit_and-IsU32 rest (not32 n.bit) h)
          (ground arith)
        ∙ rw (filter-without rest n more h (ground arith), append_assoc) refl)
  | inr no' ↦ rw no' (name_bits-listed more rest extras h (ground arith))
]

-- A bit that is left over or lies in a right that was among the bits: no bit is lost.
bit-without_named :
    (i : ℕ) (l : List NamedBit) (rest : ℕ)
    → IsU32 rest
    → separate l ≡ true
    → bit i rest ≡ true
    → (any (λ n. hits rest n && bit i n.bit) l || bit i (without_named l rest)) ≡ true
unfolding without_named
bit-without_named i [] rest h apart e = e
bit-without_named i (n ∷ more) rest h apart e = elim (Bool-cases (hits rest n)) [
  | inl yes' ↦
      let left = bit_and rest (not32 n.bit) in
      rw yes' (
        ground (
          arith,
          bit-without i rest n.bit h,
          any-without rest i n more h,
          bit-without_named i more left (bit_and-IsU32 rest (not32 n.bit) h),
        ))
  | inr no' ↦ rw no' (bit-without_named i more rest h (ground arith) e)
]

rest_of-IsU32 : (raw : ℕ) → IsU32 raw → IsU32 (rest_of raw)
unfolding rest_of
rest_of-IsU32 raw h =
    let left = bit_and raw (not32 (base_mask (base_level raw))) in
    let small = bit_and-IsU32 raw (not32 (base_mask (base_level raw))) h in
    elim (Bool-cases (names_write raw)) [
      | inl w ↦ rw w (bit_and-IsU32 left (not32 mask_write) small)
      | inr w ↦ rw w small
    ]

bit-rest_of :
    (i raw : ℕ)
    → IsU32 raw
    → bit i (rest_of raw) ≡ (
        bit i raw
        && not (bit i (base_mask (base_level raw)))
        && not (names_write raw && bit i mask_write))
unfolding rest_of
bit-rest_of i raw h = elim (Bool-cases (names_write raw)) [
  | inl w ↦ rw w (
      bit-without i _ mask_write (bit_and-IsU32 raw (not32 (base_mask (base_level raw))) h)
      ∙ ground (arith, bit-without i raw (base_mask (base_level raw)) h))
  | inr w ↦ rw w (bit-without i raw (base_mask (base_level raw)) h ∙ ground arith)
]

-- What `decompose` lists before the bits without a name: "Write" where a complete Write set is named
-- on top of Read & Execute, then the named rights among the remaining bits.
abbrev pub listed : ℕ → List Extra
listed raw =
    (if names_write raw then ("Write", "W") ∷ [] else [])
    ++ map extra_of (filter (hits (rest_of raw)) named_bits)

-- The bits that have no name.
abbrev pub unnamed : ℕ → ℕ
unnamed raw = without_named named_bits (rest_of raw)

-- Where bit `i` is shown: in the base level, in the Write set that is named, in a named right, or
-- in the number of the other bits.
abbrev pub shows_bit : ℕ → ℕ → Bool
shows_bit i raw =
    bit i (base_mask (base_level raw))
    || (names_write raw && bit i mask_write)
    || any (λ n. hits (rest_of raw) n && bit i n.bit) named_bits
    || bit i (unnamed raw)

shows_every_bit : (i raw : ℕ) → IsU32 raw → bit i raw ≡ true → shows_bit i raw ≡ true
shows_every_bit i raw h e = ground (
  arith,
  bit-rest_of i raw h,
  bit-without_named i named_bits (rest_of raw) (rest_of-IsU32 raw h) named_bits-separate,
)

-- What `decompose` makes of the result of the loop.
abbrev with_unnamed : ℕ → ℕ × List Extra → Option StandardLevel × List Extra
with_unnamed raw (rest, extras) = (
  base_level raw,
  if not (rest == 0) then extras ++ ("other bits", "0x" ⊕ hex rest) ∷ [] else extras,
)

-- For every 32-bit mask: `decompose` gives the base level, then "Write" where a complete Write set
-- comes on top of Read & Execute, then the named rights that the remaining bits hold, then the bits
-- without a name as a number, if there are any; and every bit of the mask lies in one of these parts.
pub decompose_complete :
    (raw : ℕ)
    → IsU32 raw
    → (decompose raw ≡ (
      base_level raw,
      if not (unnamed raw == 0)
          then listed raw ++ ("other bits", "0x" ⊕ hex (unnamed raw)) ∷ []
          else listed raw,
    ))
      × ((i : ℕ) → bit i raw ≡ true → shows_bit i raw ≡ true)
unfolding decompose
decompose_complete raw h = (
  ap (with_unnamed raw) (
      name_bits-listed named_bits (rest_of raw)
        (if names_write raw then ("Write", "W") ∷ [] else []) (rest_of-IsU32 raw h)
        named_bits-separate),
  λ i. shows_every_bit i raw h,
)
