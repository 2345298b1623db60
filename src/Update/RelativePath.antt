-- ===== src/Update/RelativePath.antt =====
-- crates/update_manager/src/manifest.rs: `validate_manifest_relative_path`, which a target path of
-- an update has to pass.
use Prim.Native.Char.{code}
use stars_ad_permission_anal.Base.{
  ℕ, Bool, ◌||◌, ◌==◌, if◌then◌else◌, List, [], ◌∷◌, none, some, String, ◌⊕◌, any, str_eq, Result,
  ok, err, ◌>>◌,
}
use stars_ad_permission_anal.Base.Format.{hex_fixed}
use stars_ad_permission_anal.Base.Strings.{
  split, starts, find_char, of_char, any_code, text_is_empty, stem_of, eq_ignore_case, is_control,
}
use stars_ad_permission_anal.Model.Error.{CoreError, validation}

-- `FORBIDDEN_PATH_CHARS`: < > " | ? *
abbrev pub is_forbidden : ℕ → Bool
is_forbidden c = c == b'<' || c == b'>' || c == 0x22 || c == b'|' || c == b'?' || c == b'*'

abbrev pub reserved_device_names : List String
reserved_device_names =
    "CON" ∷ "PRN" ∷ "AUX" ∷ "NUL" ∷ "COM0" ∷ "COM1" ∷ "COM2" ∷ "COM3" ∷ "COM4" ∷ "COM5" ∷ "COM6"
    ∷ "COM7" ∷ "COM8" ∷ "COM9" ∷ "LPT0" ∷ "LPT1" ∷ "LPT2" ∷ "LPT3" ∷ "LPT4" ∷ "LPT5" ∷ "LPT6"
    ∷ "LPT7" ∷ "LPT8" ∷ "LPT9" ∷ []

-- `RESERVED_DEVICE_NAMES.iter().any(|r| r.eq_ignore_ascii_case(stem))`
unfoldable pub is_reserved : String → Bool
unfolding eq_ignore_case
is_reserved stem = any (λ r. eq_ignore_case r stem) reserved_device_names

abbrev invalid : String → Result CoreError (Unit {0})
invalid s = err (validation s)

-- The characters of a segment: no control character, no forbidden one, no `:`, no reserved stem.
unfoldable pub check_segment_chars : String → String → Result CoreError (Unit {0})
check_segment_chars segment full_path = elim (find_char is_control segment) [
  | some c ↦ invalid (
      "file path '"
      ⊕ full_path
      ⊕ "' segment '"
      ⊕ segment
      ⊕ "' contains a control character (U+"
      ⊕ hex_fixed 4 (code c) ""
      ⊕ ")")
  | none ↦ elim (find_char is_forbidden segment) [
    | some bad ↦ invalid (
        "file path '"
        ⊕ full_path
        ⊕ "' segment '"
        ⊕ segment
        ⊕ "' contains a forbidden character '"
        ⊕ of_char bad
        ⊕ "'")
    | none ↦
        if any_code (λ c. c == b':') segment
        then invalid
            ("file path '" ⊕ full_path ⊕ "' segment '" ⊕ segment ⊕ "' must not contain ':'")
        else if is_reserved (stem_of segment)
        then invalid (
            "file path '"
            ⊕ full_path
            ⊕ "' segment '"
            ⊕ segment
            ⊕ "' uses reserved Windows device name '"
            ⊕ stem_of segment
            ⊕ "'")
        else ok tt
  ]
]

unfoldable pub check_manifest_segment : String → String → Result CoreError (Unit {0})
check_manifest_segment segment full_path =
    if text_is_empty segment
    then invalid
        ("file path '" ⊕ full_path ⊕ "' contains an empty segment (consecutive separators)")
    else if str_eq segment "." || str_eq segment ".."
    then invalid (
        "file path '" ⊕ full_path ⊕ "' contains a '" ⊕ segment
        ⊕ "' segment — traversal not allowed")
    else check_segment_chars segment full_path

-- The loop over the segments.
unfoldable pub check_manifest_segments : List String → String → Result CoreError (Unit {0})
check_manifest_segments [] full_path = ok tt
check_manifest_segments (segment ∷ rest) full_path =
    let others = check_manifest_segments rest full_path in
    check_manifest_segment segment full_path >> others

abbrev pub is_separator : ℕ → Bool
is_separator c = c == 0x5c || c == b'/'

unfoldable pub validate_manifest_relative_path : String → Result CoreError (Unit {0})
validate_manifest_relative_path path =
    if text_is_empty path
    then invalid "file.path must not be empty"
    else if any_code (λ c. c == 0) path
    then invalid ("file path '" ⊕ path ⊕ "' must not contain null bytes")
    else if starts "\\\\?\\" path || starts "//?/" path
    then invalid
        ("file path '" ⊕ path ⊕ "' must be relative (Windows long-path prefix not allowed)")
    else if starts "\\\\" path || starts "//" path
    then invalid ("file path '" ⊕ path ⊕ "' must be relative (UNC prefix not allowed)")
    else if starts "\\" path || starts "/" path
    then invalid ("file path '" ⊕ path ⊕ "' must be relative (leading separator not allowed)")
    else check_manifest_segments (split is_separator path) path
