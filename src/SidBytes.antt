-- ===== src/SidBytes.antt =====
-- crates/ad_resolver/src/sid_util.rs: a SID as a text and as the bytes that LDAP uses. A byte is a
-- number below 256; `(authority << 8) | b` is `authority * 256 + b`, as its low bits are clear.
pub mod RoundTrip
mod Tests
use stars_ad_permission_anal.Base.{
  ℕ, zero, suc, ◌+◌, ◌*◌, ◌/◌, ◌%◌, ◌^◌, Bool, true, false, not, ltb, ◌==◌, if◌then◌else◌, List, [],
  ◌∷◌, ◌++◌, flat_map, length, String, str_eq, ◌⊕◌, Result, ok, err, ◌>>=◌, collect,
}
use stars_ad_permission_anal.Base.Format.{dec}
use stars_ad_permission_anal.Base.Strings.{parse_int, split, trim, max_u64}
use stars_ad_permission_anal.Model.Error.{CoreError, sid_resolution}

-- `text.parse().map_err(|_| CoreError::SidResolution(message))`
abbrev parsed : String → Result String ℕ → Result CoreError ℕ
parsed message (ok n) = ok n
parsed message (err e) = err (sid_resolution message)

-- Six bytes, the most significant first.
abbrev pub authority_bytes : ℕ → List ℕ
authority_bytes a =
    a / 2 ^ 40 % 256
    ∷ a / 2 ^ 32 % 256
    ∷ a / 2 ^ 24 % 256
    ∷ a / 2 ^ 16 % 256
    ∷ a / 2 ^ 8 % 256
    ∷ a % 256
    ∷ []

-- `sa.to_le_bytes()`
abbrev pub le_bytes : ℕ → List ℕ
le_bytes n = n % 256 ∷ n / 2 ^ 8 % 256 ∷ n / 2 ^ 16 % 256 ∷ n / 2 ^ 24 % 256 ∷ []

-- The bytes of the parsed numbers; the number of sub-authorities is cut to a byte.
unfoldable pub sid_bytes : ℕ → ℕ → List ℕ → List ℕ
sid_bytes revision authority sub_authorities =
    revision
    ∷ length sub_authorities % 256
    ∷ (authority_bytes authority ++ flat_map le_bytes sub_authorities)

abbrev from_parts : String → List String → Result CoreError (List ℕ)
from_parts sid (s ∷ r ∷ i ∷ rest) =
    if not (str_eq s "S") then err (sid_resolution ("Invalid SID format: " ⊕ sid)) else do
      revision ← parsed ("Invalid revision in SID: " ⊕ sid) (parse_int 255 r)
      authority ← parsed ("Invalid identifier authority: " ⊕ sid) (parse_int max_u64 i)
      sub_authorities ←
          collect (λ p. parsed ("Invalid sub-authority in SID: " ⊕ sid) (parse_int 0xffff_ffff p))
            rest
      ok (sid_bytes revision authority sub_authorities)
from_parts sid parts = err (sid_resolution ("Invalid SID format: " ⊕ sid))

unfoldable pub sid_str_to_bytes : String → Result CoreError (List ℕ)
unfolding sid_bytes
sid_str_to_bytes sid = from_parts sid (split (λ c. c == b'-') (trim sid))

abbrev pub authority_of : ℕ → ℕ → ℕ → ℕ → ℕ → ℕ → ℕ
authority_of a b c d e f = ((((a * 256 + b) * 256 + c) * 256 + d) * 256 + e) * 256 + f

-- `u32::from_le_bytes`
abbrev pub le_value : ℕ → ℕ → ℕ → ℕ → ℕ
le_value a b c d = a + b * 2 ^ 8 + c * 2 ^ 16 + d * 2 ^ 24

-- `for i in 0..sub_authority_count`, appending to the text.
unfoldable pub push_subs : ℕ → List ℕ → String → String
push_subs (suc n) (a ∷ b ∷ c ∷ d ∷ rest) sid = push_subs n rest (sid ⊕ "-" ⊕ dec (le_value a b c d))
push_subs n bytes sid = sid

unfoldable pub bytes_to_sid_str : List ℕ → Result CoreError String
unfolding push_subs
bytes_to_sid_str (revision ∷ count ∷ a ∷ b ∷ c ∷ d ∷ e ∷ f ∷ rest) =
    if ltb (8 + length rest) (8 + count * 4)
    then err (
        sid_resolution (
          "SID data incomplete: expected "
          ⊕ dec (8 + count * 4)
          ⊕ " bytes, got "
          ⊕ dec (8 + length rest)))
    else ok (push_subs count rest ("S-" ⊕ dec revision ⊕ "-" ⊕ dec (authority_of a b c d e f)))
bytes_to_sid_str bytes = err (sid_resolution "SID byte sequence too short")
