-- ===== src/Mask/Expand.antt =====
-- crates/permission_engine/src/mask.rs: `expand_generic_rights`, bit by bit.
use stars_ad_permission_anal.Base.{
  ℕ, Bool, true, false, not, ◌&&◌, ◌||◌, ◌==◌, bit_and, not32, if◌then◌else◌, ◌^◌, ◌<◌, ◌≤◌, bit,
  bit-or, bit-without, bit-pow, has_bit, bit_above, bit_or-IsU32, bit_and-IsU32, IsU32, ◌≡◌, arith,
  inl, inr, Bool-cases, lt-or-le, bit_ext, ltb, ap, sym, ◌∙◌, ==_iff, lt_of_bits,
}
use stars_ad_permission_anal.Mask.{
  map_generic, expand_generic_rights, generic_read, generic_write, generic_execute,
  file_generic_read, file_generic_write, file_generic_execute, mask_full_control,
}

map_generic-IsU32 :
    (mask k specific out : ℕ)
    → IsU32 specific
    → IsU32 out
    → IsU32 (map_generic mask (2 ^ k) specific out)
unfolding map_generic
map_generic-IsU32 mask k specific out hs ho = elim (Bool-cases (bit_and mask (2 ^ k) == 0)) [
  | inl clear ↦ rw clear ho
  | inr set ↦ rw set (bit_or-IsU32 _ _ (bit_and-IsU32 out (not32 (2 ^ k)) ho) hs)
]

bit-map_generic :
    (i mask k specific out : ℕ)
    → IsU32 out
    → bit i (map_generic mask (2 ^ k) specific out)
      ≡ (if bit k mask then (bit i out && not (i == k)) || bit i specific else bit i out)
unfolding map_generic
bit-map_generic i mask k specific out ho = elim (Bool-cases (bit k mask)) [
  | inl set ↦ rw (
    has_bit k mask,
    set,
    bit-or i (bit_and out (not32 (2 ^ k))) specific,
    bit-without i out (2 ^ k) ho,
    bit-pow k i,
  )
  | inr clear ↦ rw (has_bit k mask, clear)
]

-- The value of bit `i` of an expanded mask, in the words of the header comment: the specific bits
-- pass, each generic bit stands for its composite.
abbrev expanded_bit : ℕ → ℕ → Bool
expanded_bit i mask =
    (ltb i 28 && bit i mask)
    || (bit 31 mask && bit i file_generic_read)
    || (bit 30 mask && bit i file_generic_write)
    || (bit 29 mask && bit i file_generic_execute)
    || (bit 28 mask && bit i mask_full_control)

-- A generic bit of the mask is the bit that its own test reads.
same_bit : (i k mask : ℕ) → (i == k) ≡ true → bit k mask ≡ bit i mask
same_bit i k mask e = ap (λ (j : ℕ). bit j mask) (sym ((==_iff i k).0 e))

-- The four stages, one after the other, on Booleans.
stages : Bool → Bool → Bool → Bool → Bool
stages b set clears gives = if set then (b && not clears) || gives else b

bit_stages : ℕ → ℕ → Bool
unfolding stages
bit_stages i mask =
    let r = stages (bit i mask) (bit 31 mask) (i == 31) (bit i file_generic_read) in
    let w = stages r (bit 30 mask) (i == 30) (bit i file_generic_write) in
    let x = stages w (bit 29 mask) (i == 29) (bit i file_generic_execute) in
    stages x (bit 28 mask) (i == 28) (bit i mask_full_control)

bit_stages_low : (i mask : ℕ) → i < 28 → bit_stages i mask ≡ expanded_bit i mask
unfolding bit_stages
bit_stages_low i mask h = ground arith

bit_stages_high : (i mask : ℕ) → IsU32 mask → 28 ≤ i → bit_stages i mask ≡ expanded_bit i mask
unfolding bit_stages
bit_stages_high i mask u h =
    rw
      (
        bit_above 28 i file_generic_read (omega arith) h,
        bit_above 28 i file_generic_write (omega arith) h,
        bit_above 28 i file_generic_execute (omega arith) h,
        bit_above 28 i mask_full_control (omega arith) h,
      )
      (ground (
        arith,
        same_bit i 31 mask,
        same_bit i 30 mask,
        same_bit i 29 mask,
        same_bit i 28 mask,
        bit_above 32 i mask u,
      ))

bit-expand-stages :
    (i mask : ℕ) → IsU32 mask → bit i (expand_generic_rights mask) ≡ bit_stages i mask
unfolding expand_generic_rights bit_stages
bit-expand-stages i mask h =
    let out = map_generic mask generic_read file_generic_read mask in
    let out' = map_generic mask generic_write file_generic_write out in
    let out'' = map_generic mask generic_execute file_generic_execute out' in
    let u = map_generic-IsU32 mask 31 file_generic_read mask (omega arith) h in
    let u' = map_generic-IsU32 mask 30 file_generic_write out (omega arith) u in
    let u'' = map_generic-IsU32 mask 29 file_generic_execute out' (omega arith) u' in
    cc (
      bit-map_generic i mask 28 mask_full_control out'' u'',
      bit-map_generic i mask 29 file_generic_execute out' u',
      bit-map_generic i mask 30 file_generic_write out u,
      bit-map_generic i mask 31 file_generic_read mask h,
    )

-- For every bit of a 32-bit mask: the expanded mask holds it exactly when the mask held it as a
-- specific or standard bit, or held a generic right whose composite contains it. The generic bits
-- themselves, 28 to 31, are gone.
bit-expand_generic_rights :
    (i mask : ℕ) → IsU32 mask → bit i (expand_generic_rights mask) ≡ expanded_bit i mask
bit-expand_generic_rights i mask h = elim (lt-or-le i 28) [
  | inl lo ↦ bit-expand-stages i mask h ∙ bit_stages_low i mask lo
  | inr hi ↦ bit-expand-stages i mask h ∙ bit_stages_high i mask h hi
]

pub expand-IsU32 : (mask : ℕ) → IsU32 mask → IsU32 (expand_generic_rights mask)
expand-IsU32 mask h = lt_of_bits 32 _ λ i le.
    bit-expand_generic_rights i mask h
    ∙ ground (
      arith,
      bit_above 28 i file_generic_read (omega arith) (omega arith),
      bit_above 28 i file_generic_write (omega arith) (omega arith),
      bit_above 28 i file_generic_execute (omega arith) (omega arith),
      bit_above 28 i mask_full_control (omega arith) (omega arith),
    )

specific-bits : (i mask : ℕ) → IsU32 mask → 28 ≤ i → bit i (expand_generic_rights mask) ≡ false
specific-bits i mask h le =
    bit-expand_generic_rights i mask h
    ∙ ground (
      arith,
      bit_above 28 i file_generic_read (omega arith) le,
      bit_above 28 i file_generic_write (omega arith) le,
      bit_above 28 i file_generic_execute (omega arith) le,
      bit_above 28 i mask_full_control (omega arith) le,
    )

-- Expanding an expanded mask changes nothing, for every 32-bit mask.
expand_idem :
    (mask : ℕ)
    → IsU32 mask
    → expand_generic_rights (expand_generic_rights mask) ≡ expand_generic_rights mask
expand_idem mask h = bit_ext _ _ λ i. elim (lt-or-le i 28) [
  | inl lo ↦
      bit-expand_generic_rights i _ (expand-IsU32 mask h)
      ∙ ground (
        arith,
        specific-bits 31 mask h (omega arith),
        specific-bits 30 mask h (omega arith),
        specific-bits 29 mask h (omega arith),
        specific-bits 28 mask h (omega arith),
      )
  | inr hi ↦ specific-bits i _ (expand-IsU32 mask h) hi ∙ sym (specific-bits i mask h hi)
]
