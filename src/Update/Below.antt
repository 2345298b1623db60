-- ===== src/Update/Below.antt =====
-- crates/update_manager/src/manifest.rs: where a path that `validate_manifest_relative_path` accepts
-- leads, by a reading of the path that goes through its characters.
use Prim.Native.Char.{Char, code}
use mathlib.Core.List.{append-nil}
use stars_ad_permission_anal.Base.{
  ℕ, Bool, true, false, ◌&&◌, ◌||◌, ◌==◌, leb, if◌then◌else◌, List, [], ◌∷◌, ◌++◌, none, String,
  ◌⊕◌, str_eq, str_eq_iff, any, map, All, ok, ◌≡◌, refl, sym, ap, ◌∙◌, arith,
}
use stars_ad_permission_anal.Base.Strings.{
  split, in_front, first_part, find_char, any_code, text_is_empty, is_control, stem_of,
  eq_ignore_case,
}
use stars_ad_permission_anal.Update.RelativePath.{
  is_forbidden, is_reserved, check_segment_chars, check_manifest_segment, check_manifest_segments,
  validate_manifest_relative_path,
}
use stars_ad_permission_anal.Update.Leads.{
  separates, step_into, lead, follow, names, lead-split, step-names, not_up,
}

-- The names of the devices of Windows that a number tells apart.
abbrev numbered : String → List String
numbered name =
    map (λ digit. name ⊕ digit) ("0" ∷ "1" ∷ "2" ∷ "3" ∷ "4" ∷ "5" ∷ "6" ∷ "7" ∷ "8" ∷ "9" ∷ [])

-- The name of a device, in either case of its letters.
abbrev is_device : String → Bool
is_device stem =
    any (λ name. eq_ignore_case name stem)
      ("CON" ∷ "PRN" ∷ "AUX" ∷ "NUL" ∷ numbered "COM" ++ numbered "LPT")

-- What stands before the first dot.
abbrev before_dot : String → String
before_dot String.[] = ""
before_dot (String.◌∷◌ c s) =
    let rest = before_dot s in if code c == 46 then "" else String.◌∷◌ c rest

-- What a name on Windows must not hold: a control character, < > : " | ? or *.
abbrev is_barred : ℕ → Bool
is_barred c =
    leb c 31
    || (leb 127 c && leb c 159)
    || any (λ barred. c == barred) (60 ∷ 62 ∷ 58 ∷ 34 ∷ 124 ∷ 63 ∷ 42 ∷ [])

abbrev pub IsPlain : String → Type 0
IsPlain part =
    (any (λ name. str_eq part name) ("" ∷ "." ∷ ".." ∷ []) ≡ false)
    × (any_code is_barred part ≡ false)
    × (is_device (before_dot part) ≡ false)

device-reserved : (stem : String) → is_reserved stem ≡ is_device stem
unfolding is_reserved
device-reserved stem = refl

first_part-front :
    (between : Bool) (c : Char) (name first : String) (parts : List String)
    → first_part parts "" ≡ first
    → first_part (if between then "" ∷ parts else in_front c parts) name
      ≡ (if between then "" else String.◌∷◌ c first)
first_part-front true c name first parts h = refl
first_part-front false c name first [] h = ap (λ s. String.◌∷◌ c s) h
first_part-front false c name first (part ∷ parts) h = ap (λ s. String.◌∷◌ c s) h

first_part-split : (s name : String) → first_part (split (λ c. c == b'.') s) name ≡ before_dot s
unfolding split
first_part-split String.[] name = refl
first_part-split (String.◌∷◌ c s) name =
    first_part-front (code c == 46) c name (before_dot s) (split (λ d. d == b'.') s)
      (first_part-split s "")

stem_of-before_dot : (name : String) → stem_of name ≡ before_dot name
unfolding stem_of
stem_of-before_dot name = first_part-split name name

none-any_code : (p : ℕ → Bool) (s : String) → find_char p s ≡ none → any_code p s ≡ false
none-any_code p String.[] h = refl
none-any_code p (String.◌∷◌ c s) h = ground (arith, h, none-any_code p s)

any_code-is_barred :
    (s : String)
    → any_code is_control s ≡ false
    → any_code is_forbidden s ≡ false
    → any_code (λ c. c == b':') s ≡ false
    → any_code is_barred s ≡ false
any_code-is_barred String.[] a b d = refl
any_code-is_barred (String.◌∷◌ c s) a b d = ground (arith, a, b, d, any_code-is_barred s)

checked :
    (segment full_path : String)
    → check_manifest_segment segment full_path ≡ ok tt
    → (any (λ name. str_eq segment name) ("" ∷ "." ∷ ".." ∷ []) ≡ false)
      × (find_char is_control segment ≡ none)
      × (find_char is_forbidden segment ≡ none)
      × (any_code (λ c. c == b':') segment ≡ false)
      × (is_reserved (stem_of segment) ≡ false)
unfolding check_manifest_segment check_segment_chars
checked segment full_path h =
    ground (arith, h, str_eq_iff segment "", λ (e : segment ≡ ""). ap text_is_empty e)

checked-IsPlain :
    (segment full_path : String)
    → check_manifest_segment segment full_path ≡ ok tt
    → IsPlain segment
checked-IsPlain segment full_path h =
    let (name, control, forbidden, colon, reserved) = checked segment full_path h in
    (
      name,
      any_code-is_barred segment (none-any_code is_control segment control)
          (none-any_code is_forbidden segment forbidden) colon,
      ap is_device (sym (stem_of-before_dot segment))
          ∙ sym (device-reserved (stem_of segment))
          ∙ reserved,
    )

module _ (clean : String → String) (ups : (s : String) → clean s ≡ ".." → s ≡ "..") where
  checked-names :
      (segments : List String) (full_path : String) (folder : List String)
      → check_manifest_segments segments full_path ≡ ok tt
      → (follow clean folder segments ≡ folder ++ names clean segments) × All IsPlain segments
  unfolding check_manifest_segments follow
  checked-names [] full_path folder h = (sym (append-nil folder), tt)
  checked-names (segment ∷ rest) full_path folder h =
      let plain = checked-IsPlain segment full_path (ground (arith, h)) in
      let r = checked-names rest full_path (step_into clean folder segment) (ground (arith, h)) in
      (
        step-names clean folder segment rest (not_up clean ups segment (ground (arith, plain.0)))
            r.0,
        (plain, r.1),
      )

  -- If the system takes only ".." for the folder above, then a path that is accepted, read character
  -- by character from any folder with \ and / between its names, leads below that folder, by the
  -- names that its parts stand for. No part is empty, "." or "..", has a control character or one of
  -- < > : " | ? *, or has before its first dot, in either case, CON, PRN, AUX, NUL, or COM or LPT
  -- with one digit.
  pub validate_manifest_relative_path-below :
      (path : String) (folder : List String)
      → validate_manifest_relative_path path ≡ ok tt
      → (lead clean folder "" path ≡ folder ++ names clean (split separates path))
        × All IsPlain (split separates path)
  unfolding validate_manifest_relative_path
  validate_manifest_relative_path-below path folder h =
      let c = checked-names (split separates path) path folder (ground (arith, h)) in
      (lead-split clean folder path ∙ c.0, c.1)
