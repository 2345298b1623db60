-- ===== src/SidBytes/Tests.antt =====
-- The bytes of well-known SIDs, and of an authority that does not fit.
use stars_ad_permission_anal.Base.{[], ◌∷◌, ok, collect, ◌≡◌, refl, arith}
use stars_ad_permission_anal.Base.Format.{dec}
use stars_ad_permission_anal.Base.Strings.{parse_int, split, trim}
use stars_ad_permission_anal.SidBytes.{sid_bytes, sid_str_to_bytes, bytes_to_sid_str}
use stars_ad_permission_anal.SidBytes.RoundTrip.{sid_text, bytes_to_sid_str-sid_bytes}

local_system :
    sid_str_to_bytes "S-1-5-18" ≡ ok (1 ∷ 1 ∷ 0 ∷ 0 ∷ 0 ∷ 0 ∷ 0 ∷ 5 ∷ 18 ∷ 0 ∷ 0 ∷ 0 ∷ [])
unfolding sid_str_to_bytes sid_bytes parse_int split trim collect
local_system = refl

-- An authority of 2 ^ 48 loses its highest bit.
too_wide : sid_str_to_bytes "S-1-281474976710656" ≡ ok (1 ∷ 0 ∷ 0 ∷ 0 ∷ 0 ∷ 0 ∷ 0 ∷ 0 ∷ [])
unfolding sid_str_to_bytes sid_bytes parse_int split trim collect
too_wide = refl

domain_user_text : sid_text 1 5 (21 ∷ 3623811015 ∷ 1013 ∷ []) ≡ "S-1-5-21-3623811015-1013"
unfolding dec
domain_user_text = refl

bytes_to_sid_str-sid_bytes_example :
    bytes_to_sid_str (sid_bytes 1 5 (21 ∷ 3623811015 ∷ 1013 ∷ []))
    ≡ ok (sid_text 1 5 (21 ∷ 3623811015 ∷ 1013 ∷ []))
bytes_to_sid_str-sid_bytes_example =
    bytes_to_sid_str-sid_bytes 1 5 (21 ∷ 3623811015 ∷ 1013 ∷ []) (omega arith) (omega arith)
      (omega arith, (omega arith, (omega arith, tt)))
