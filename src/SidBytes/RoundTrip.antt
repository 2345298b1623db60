-- ===== src/SidBytes/RoundTrip.antt =====
-- crates/ad_resolver/src/sid_util.rs: the text of the bytes of a SID.
use stars_ad_permission_anal.Base.{
  ℕ, ◌+◌, ◌*◌, ◌/◌, ◌%◌, ◌^◌, ◌<◌, false, ltb, List, [], ◌∷◌, flat_map, length, String, ◌⊕◌, All,
  ok, ◌≡◌, refl, ap, ◌∙◌, arith,
}
use stars_ad_permission_anal.Base.Format.{dec}
use stars_ad_permission_anal.SidBytes.{
  le_bytes, sid_bytes, authority_of, le_value, push_subs, bytes_to_sid_str,
}

-- The text of the numbers: `S-revision-authority` and the sub-authorities, each after a dash.
abbrev pub with_subs : List ℕ → String → String
with_subs [] sid = sid
with_subs (n ∷ ns) sid = with_subs ns (sid ⊕ "-" ⊕ dec n)

abbrev pub sid_text : ℕ → ℕ → List ℕ → String
sid_text revision authority subs = with_subs subs ("S-" ⊕ dec revision ⊕ "-" ⊕ dec authority)

le_value-le_bytes :
    (n : ℕ)
    → n < 2 ^ 32
    → le_value (n % 256) (n / 2 ^ 8 % 256) (n / 2 ^ 16 % 256) (n / 2 ^ 24 % 256) ≡ n
le_value-le_bytes n h = omega arith

authority_of-bytes :
    (a : ℕ)
    → a < 2 ^ 48
    → authority_of
        (a / 2 ^ 40 % 256)
        (a / 2 ^ 32 % 256)
        (a / 2 ^ 24 % 256)
        (a / 2 ^ 16 % 256)
        (a / 2 ^ 8 % 256)
        (a % 256)
      ≡ a
authority_of-bytes a h = omega arith

length-le_bytes : (ns : List ℕ) → length (flat_map le_bytes ns) ≡ length ns * 4
length-le_bytes [] = refl
length-le_bytes (n ∷ ns) = omega (arith, length-le_bytes ns)

push_subs-le_bytes :
    (ns : List ℕ) (sid : String)
    → All (λ n. n < 2 ^ 32) ns
    → push_subs (length ns) (flat_map le_bytes ns) sid ≡ with_subs ns sid
unfolding push_subs
push_subs-le_bytes [] sid h = refl
push_subs-le_bytes (n ∷ ns) sid (small, h) =
    push_subs-le_bytes ns _ h
    ∙ ap (λ m. with_subs ns (sid ⊕ "-" ⊕ dec m)) (le_value-le_bytes n small)

-- For a SID with an authority of at most 48 bits and fewer than 256 sub-authorities of 32 bits: its
-- bytes read back as the text of the same numbers.
pub bytes_to_sid_str-sid_bytes :
    (revision authority : ℕ) (subs : List ℕ)
    → authority < 2 ^ 48
    → length subs < 256
    → All (λ n. n < 2 ^ 32) subs
    → bytes_to_sid_str (sid_bytes revision authority subs) ≡ ok (sid_text revision authority subs)
unfolding bytes_to_sid_str sid_bytes
bytes_to_sid_str-sid_bytes revision authority subs wide few small =
    let whole : length subs % 256 ≡ length subs = omega arith in
    let enough : ltb (8 + length (flat_map le_bytes subs)) (8 + length subs * 4) ≡ false =
      ground (arith, length-le_bytes subs) in
    rw whole
      (rw enough (rw (authority_of-bytes authority wide) (ap ok (push_subs-le_bytes subs _ small))))
