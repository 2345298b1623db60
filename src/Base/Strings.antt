-- ===== src/Base/Strings.antt =====
-- Rust's functions on `str` that return parts of the text. A character is read by its code point;
-- where Rust reads bytes and asks for ASCII, the code points give the same answer.
use Prim.Native.Nat.{ℕ, ◌+◌, ◌*◌, ◌-◌}
use Prim.Native.Char.{Char, code}
use Prim.Native.String.{String}
use mathlib.Core.Bool.{Bool, true, false, not, ◌&&◌, ◌||◌}
use mathlib.Core.Option.{Option, none, some}
use mathlib.Core.List.{List, [], ◌∷◌, map}
use stars_ad_permission_anal.Base.Logic.{leb, ltb, ◌==◌, if◌then◌else◌, is_some}
use stars_ad_permission_anal.Base.Lists.{any, all}
use stars_ad_permission_anal.Base.Text.{codes, codes_eq, is_digit}
use stars_ad_permission_anal.Base.Results.{Result, ok, err}

abbrev pub within : ℕ → ℕ → ℕ → Bool
within lo hi c = leb lo c && leb c hi

-- `char::is_whitespace`
abbrev pub is_whitespace : ℕ → Bool
is_whitespace c =
    within 9 13 c
    || c == 0x20
    || c == 0x85
    || c == 0xa0
    || c == 0x1680
    || within 0x2000 0x200a c
    || c == 0x2028
    || c == 0x2029
    || c == 0x202f
    || c == 0x205f
    || c == 0x3000

-- `char::is_control`
abbrev pub is_control : ℕ → Bool
is_control c = leb c 0x1f || within 0x7f 0x9f c

abbrev pub is_ascii_alphabetic : ℕ → Bool
is_ascii_alphabetic c = within b'A' b'Z' c || within b'a' b'z' c

abbrev pub is_ascii_alphanumeric : ℕ → Bool
is_ascii_alphanumeric c = is_digit c || is_ascii_alphabetic c

abbrev pub is_ascii_hexdigit : ℕ → Bool
is_ascii_hexdigit c = is_digit c || within b'A' b'F' c || within b'a' b'f' c

-- `to_ascii_lowercase` of one character.
abbrev pub lower_code : ℕ → ℕ
lower_code c = if within b'A' b'Z' c then c + 32 else c

-- `a.eq_ignore_ascii_case(b)`
unfoldable pub eq_ignore_case : String → String → Bool
unfolding codes_eq
eq_ignore_case a b = codes_eq (map lower_code (codes a)) (map lower_code (codes b))

abbrev pub text_is_empty : String → Bool
text_is_empty String.[] = true
text_is_empty (String.◌∷◌ c s) = false

-- `s.chars().all(p)`, `s.chars().any(p)`
abbrev pub all_codes : (ℕ → Bool) → String → Bool
all_codes p s = all p (codes s)

abbrev pub any_code : (ℕ → Bool) → String → Bool
any_code p s = any p (codes s)

-- `s.chars().find(p)`
abbrev pub find_char : (ℕ → Bool) → String → Option Char
find_char p String.[] = none
find_char p (String.◌∷◌ c s) = let rest = find_char p s in if p (code c) then some c else rest

abbrev pub of_char : Char → String
of_char c = String.◌∷◌ c String.[]

abbrev pub in_front : Char → List String → List String
in_front c [] = String.◌∷◌ c String.[] ∷ []
in_front c (part ∷ parts) = String.◌∷◌ c part ∷ parts

-- `s.split(pattern)`: the parts between the characters that fit.
unfoldable pub split : (ℕ → Bool) → String → List String
split p String.[] = String.[] ∷ []
split p (String.◌∷◌ c s) =
    let rest = split p s in if p (code c) then String.[] ∷ rest else in_front c rest

abbrev before_rest : Char → Option (String × String) → Option (String × String)
before_rest c none = none
before_rest c (some (s, t)) = some (String.◌∷◌ c s, t)

-- `s.split_once(c)`: at the first occurrence.
unfoldable pub split_once : ℕ → String → Option (String × String)
split_once x String.[] = none
split_once x (String.◌∷◌ c s) =
    let rest = split_once x s in if code c == x then some (String.[], s) else before_rest c rest

-- `s.trim_start_matches(pattern)`
unfoldable pub trim_start : (ℕ → Bool) → String → String
trim_start p String.[] = String.[]
trim_start p (String.◌∷◌ c s) =
    let rest = trim_start p s in if p (code c) then rest else String.◌∷◌ c s

abbrev kept : Char → Bool → String → String
kept c true String.[] = String.[]
kept c true (String.◌∷◌ d s) = String.◌∷◌ c (String.◌∷◌ d s)
kept c false s = String.◌∷◌ c s

-- `s.trim_end_matches(pattern)`
unfoldable pub trim_end : (ℕ → Bool) → String → String
trim_end p String.[] = String.[]
trim_end p (String.◌∷◌ c s) = kept c (p (code c)) (trim_end p s)

-- `s.trim()`
unfoldable pub trim : String → String
unfolding trim_start trim_end
trim s = trim_end is_whitespace (trim_start is_whitespace s)

-- `s.strip_prefix(p)`
unfoldable pub strip_text : String → String → Option String
strip_text String.[] s = some s
strip_text (String.◌∷◌ p ps) String.[] = none
strip_text (String.◌∷◌ p ps) (String.◌∷◌ c s) =
    let rest = strip_text ps s in if code p == code c then rest else none

-- `s.starts_with(p)`
abbrev pub starts : String → String → Bool
starts p s = is_some (strip_text p s)

-- The digits of an unsigned integer of at most `limit`, or the text of the error.
pub int_digits : ℕ → ℕ → String → Result String ℕ
int_digits limit value String.[] = ok value
int_digits limit value (String.◌∷◌ c s) =
    let next = value * 10 + (code c - b'0') in
    let rest = int_digits limit next s in
    if not (is_digit (code c))
    then err "invalid digit found in string"
    else if ltb limit next
    then err "number too large to fit in target type"
    else rest

-- `s.parse::<uN>()`, with the message of its error; a `+` may stand in front of the digits.
unfoldable pub parse_int : ℕ → String → Result String ℕ
unfolding int_digits
parse_int limit String.[] = err "cannot parse integer from empty string"
parse_int limit (String.◌∷◌ c String.[]) = int_digits limit 0 (String.◌∷◌ c String.[])
parse_int limit (String.◌∷◌ c (String.◌∷◌ d s)) =
    if code c == b'+'
    then int_digits limit 0 (String.◌∷◌ d s)
    else int_digits limit 0 (String.◌∷◌ c (String.◌∷◌ d s))

abbrev pub max_u64 : ℕ
max_u64 = 0xffff_ffff_ffff_ffff

-- The stem of a file name: what stands in front of its first dot.
abbrev pub first_part : List String → String → String
first_part [] whole = whole
first_part (part ∷ parts) whole = part

unfoldable pub stem_of : String → String
unfolding split
stem_of name = first_part (split (λ c. c == b'.') name) name
