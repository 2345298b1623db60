-- ===== src/Paths.antt =====
-- crates/validation/src/path.rs: the long-path prefix of the Windows API, and the server and the
-- share of a UNC path. A prefix of ASCII characters is compared by code points, where the code
-- compares bytes.
pub mod Prefix
mod Tests
use Prim.Native.Char.{Char, code}
use stars_ad_permission_anal.Base.{
  ℕ, Bool, true, false, not, ◌&&◌, ◌||◌, ◌==◌, if◌then◌else◌, List, [], ◌∷◌, Option, none, some,
  String, ◌⊕◌,
}
use stars_ad_permission_anal.Base.Strings.{
  is_ascii_alphabetic, lower_code, text_is_empty, split, trim_start, strip_text, starts,
}

-- `path.get(..n).is_some_and(|p| p.eq_ignore_ascii_case(prefix))`, with the rest of the text.
unfoldable pub strip_ignore_case : String → String → Option String
strip_ignore_case String.[] s = some s
strip_ignore_case (String.◌∷◌ p ps) String.[] = none
strip_ignore_case (String.◌∷◌ p ps) (String.◌∷◌ c s) =
    let rest = strip_ignore_case ps s in
    if lower_code (code p) == lower_code (code c) then rest else none

abbrev pub or_whole : String → Option String → String
or_whole path none = path
or_whole path (some rest) = rest

abbrev pub after_unc : String → Option String → String
after_unc path none = or_whole path (strip_text "\\\\?\\" path)
after_unc path (some rest) = "\\\\" ⊕ rest

unfoldable pub strip_long_path_prefix : String → String
unfolding strip_ignore_case strip_text
strip_long_path_prefix path = after_unc path (strip_ignore_case "\\\\?\\UNC\\" path)

-- A drive letter and `:\`.
abbrev pub is_drive_path : String → Bool
is_drive_path (String.◌∷◌ c (String.◌∷◌ d (String.◌∷◌ e s))) =
    is_ascii_alphabetic (code c) && code d == b':' && code e == b'\\'
is_drive_path path = false

abbrev pub api_form : String → Option String → String
api_form path none = if is_drive_path path then "\\\\?\\" ⊕ path else path
api_form path (some rest) = "\\\\?\\UNC\\" ⊕ rest

unfoldable pub to_windows_api_path : String → String
unfolding strip_text
to_windows_api_path path =
    if starts "\\\\?\\" path then path else api_form path (strip_text "\\\\" path)

abbrev is_separator : ℕ → Bool
is_separator c = c == b'\\' || c == b'/'

abbrev has_unc_prefix : String → Bool
has_unc_prefix (String.◌∷◌ c (String.◌∷◌ d s)) = is_separator (code c) && is_separator (code d)
has_unc_prefix path = false

-- The two parts, neither of them empty.
abbrev first_two : List String → Option (String × String)
first_two (server ∷ share ∷ rest) =
    if text_is_empty server || text_is_empty share then none else some (server, share)
first_two parts = none

abbrev unc_parts : String → Option (String × String)
unc_parts normalized =
    if has_unc_prefix normalized
    then first_two (split is_separator (trim_start is_separator normalized))
    else none

abbrev unc_or_local : String → Option String → Option (String × String)
unc_or_local path (some rest) = unc_parts ("\\\\" ⊕ rest)
unc_or_local path none =
    if starts "\\\\?\\" path || starts "//?/" path then none else unc_parts path

unfoldable pub parse_unc_components : String → Option (String × String)
unfolding split trim_start strip_text
parse_unc_components path = unc_or_local path (strip_text "\\\\?\\UNC\\" path)

-- `explicit.filter(|s| !s.is_empty())`
abbrev pub given : Option String → Option String
given none = none
given (some s) = if text_is_empty s then none else some s

abbrev pub or_part :
    (String × String → String) → Option String → Option (String × String) → Option String
or_part part (some s) unc = some s
or_part part none none = none
or_part part none (some u) = some (part u)

unfoldable pub effective_smb_target : String → Option String → Option String
unfolding parse_unc_components
effective_smb_target path explicit_smb_server =
    or_part (λ u. u.0) (given explicit_smb_server) (parse_unc_components path)

pub record SmbAuditContext : Type 0 where
  pub server : String
  pub share : String

abbrev both : Option String → Option String → Option SmbAuditContext
both (some server) (some share) = some (record { server = server; share = share })
both (some server) none = none
both none share = none

-- `SmbAuditContext::resolve`
unfoldable pub resolve : String → Option String → Option String → Option SmbAuditContext
unfolding parse_unc_components
resolve path explicit_smb_server explicit_share_name =
    let unc = parse_unc_components path in
    both (or_part (λ u. u.0) (given explicit_smb_server) unc)
      (or_part (λ u. u.1) (given explicit_share_name) unc)
