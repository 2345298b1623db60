-- ===== src/Paths/Prefix.antt =====
-- crates/validation/src/path.rs: the long-path prefix can be put on and taken off.
use Prim.Native.Char.{code}
use Prim.Native.String.append
use mathlib.Core.Option.{some-injective}
use text.Mathlib.TextLemmas.{append_assoc}
use text.Mathlib.TextEquality.{Char-path}
use stars_ad_permission_anal.Base.{
  ℕ, ◌+◌, ◌<◌, true, false, ◌==◌, ==_iff, Option, none, some, String, ◌⊕◌, is_some, ◌⊎◌, ◌≡◌, refl,
  sym, ap, ◌∙◌, arith, Bool-cases, inl, inr,
}
use stars_ad_permission_anal.Base.Strings.{lower_code, within, strip_text, starts}
use stars_ad_permission_anal.Paths.{
  strip_ignore_case, strip_long_path_prefix, to_windows_api_path, api_form, after_unc, or_whole,
  is_drive_path,
}

same_code : (n : ℕ) → (n == n) ≡ true
same_code n = ground (arith, ==_iff n n)

-- A part in front of both texts falls away.
strip_text-front : (p q s : String) → strip_text (p ⊕ q) (p ⊕ s) ≡ strip_text q s
unfolding strip_text
strip_text-front String.[] q s = rw (append.nil q) (rw (append.nil s) refl)
strip_text-front (String.◌∷◌ c p) q s =
    rw (append.cons c p q)
      (rw (append.cons c p s) (rw (same_code (code c)) (strip_text-front p q s)))

strip_ignore_case-front :
    (p q s : String) → strip_ignore_case (p ⊕ q) (p ⊕ s) ≡ strip_ignore_case q s
unfolding strip_ignore_case
strip_ignore_case-front String.[] q s = rw (append.nil q) (rw (append.nil s) refl)
strip_ignore_case-front (String.◌∷◌ c p) q s =
    rw (append.cons c p q) (
      rw (append.cons c p s) (rw (same_code (lower_code (code c))) (strip_ignore_case-front p q s)))

-- What a prefix was taken off is the prefix and the rest.
strip_text-some : (p s rest : String) → strip_text p s ≡ some rest → s ≡ p ⊕ rest
unfolding strip_text
strip_text-some String.[] s rest h = some-injective _ _ h ∙ sym (append.nil rest)
strip_text-some (String.◌∷◌ p ps) String.[] rest h = absurd (ground (arith, h))
strip_text-some (String.◌∷◌ p ps) (String.◌∷◌ c s) rest h = elim (Bool-cases (code p == code c)) [
  | inl same ↦
      let tail : s ≡ ps ⊕ rest = strip_text-some ps s rest (ground (arith, h, same)) in
      let head : c ≡ p = Char-path c p (ground (arith, same, ==_iff (code p) (code c))) in
      ap (λ x. String.◌∷◌ x s) head ∙ ap (String.◌∷◌ p) tail ∙ sym (append.cons p ps rest)
  | inr other ↦ absurd (ground (arith, h, other))
]

-- A symbol that is no letter is compared as it is.
symbol : (p c : ℕ) → p < 97 → within 65 90 p ≡ false → (p == lower_code c) ≡ (p == c)
symbol p c small h = elim (Bool-cases (within 65 90 c)) [
  | inl upper ↦ ground (arith, h, upper, ==_iff p c, ==_iff p (c + 32))
  | inr other ↦ ground (arith, h, other)
]

no_unc_in_local :
    (path : String) → starts "\\\\?\\" path ≡ false → strip_ignore_case "\\\\?\\UNC\\" path ≡ none
unfolding strip_text strip_ignore_case
no_unc_in_local String.[] h = refl
no_unc_in_local (String.◌∷◌ a String.[]) h = ground arith
no_unc_in_local (String.◌∷◌ a (String.◌∷◌ b String.[])) h = ground arith
no_unc_in_local (String.◌∷◌ a (String.◌∷◌ b (String.◌∷◌ c String.[]))) h = ground arith
no_unc_in_local (String.◌∷◌ a (String.◌∷◌ b (String.◌∷◌ c (String.◌∷◌ d s)))) h = ground (
  arith,
  h,
  symbol 92 (code a) (omega arith) refl,
  symbol 92 (code b) (omega arith) refl,
  symbol 63 (code c) (omega arith) refl,
  symbol 92 (code d) (omega arith) refl,
)

drive_is_no-unc :
    (path : String) → is_drive_path path ≡ true → strip_ignore_case "UNC\\" path ≡ none
unfolding strip_ignore_case
drive_is_no-unc String.[] h = absurd (ground arith)
drive_is_no-unc (String.◌∷◌ c String.[]) h = absurd (ground arith)
drive_is_no-unc (String.◌∷◌ c (String.◌∷◌ d String.[])) h = absurd (ground arith)
drive_is_no-unc (String.◌∷◌ c (String.◌∷◌ d (String.◌∷◌ e s))) h =
    let colon : code d ≡ 58 = ground (arith, h, ==_iff (code d) 58) in
    ground (arith, colon, ap lower_code colon)

no_prefix : (path : String) (r : Option String) → is_some r ≡ false → or_whole path r ≡ path
no_prefix path none h = refl
no_prefix path (some rest) h = absurd (ground arith)

strip-api_form :
    (path : String) (unc : Option String)
    → strip_text "\\\\" path ≡ unc
    → starts "\\\\?\\" path ≡ false
    → strip_long_path_prefix (api_form path unc) ≡ path
unfolding strip_long_path_prefix strip_ignore_case strip_text
strip-api_form path (some rest) e h =
    ap (after_unc ("\\\\?\\UNC\\" ⊕ rest)) (strip_ignore_case-front "\\\\?\\UNC\\" "" rest)
    ∙ sym (strip_text-some "\\\\" path rest e)
strip-api_form path none e h = elim (Bool-cases (is_drive_path path)) [
  | inl drive ↦ rw drive (
      ap (after_unc ("\\\\?\\" ⊕ path))
        (strip_ignore_case-front "\\\\?\\" "UNC\\" path ∙ drive_is_no-unc path drive)
      ∙ ap (or_whole ("\\\\?\\" ⊕ path)) (strip_text-front "\\\\?\\" "" path))
  | inr other ↦
      rw other (
        ap (after_unc path) (no_unc_in_local path h) ∙ no_prefix path (strip_text "\\\\?\\" path) h)
]

api_form-starts :
    (path : String) (unc : Option String)
    → (starts "\\\\?\\" (api_form path unc) ≡ true) ⊎ (api_form path unc ≡ path)
unfolding strip_text
api_form-starts path (some rest) = inl (
    ap (starts "\\\\?\\") (append_assoc "\\\\?\\" "UNC\\" rest)
    ∙ ap is_some (strip_text-front "\\\\?\\" "" ("UNC\\" ⊕ rest)))
api_form-starts path none = elim (Bool-cases (is_drive_path path)) [
  | inl drive ↦ inl (rw drive (ap is_some (strip_text-front "\\\\?\\" "" path)))
  | inr other ↦ inr (rw other refl)
]

has_prefix : (path : String) → starts "\\\\?\\" path ≡ true → to_windows_api_path path ≡ path
unfolding to_windows_api_path
has_prefix path h = rw h refl

no_prefix-form :
    (path : String)
    → starts "\\\\?\\" path ≡ false
    → to_windows_api_path path ≡ api_form path (strip_text "\\\\" path)
unfolding to_windows_api_path
no_prefix-form path h = rw h refl

-- A path without the long-path prefix comes back when the form for the Windows API loses its prefix,
-- and the form of that form is itself.
pub strip_long_path_prefix-to_windows_api_path :
    (path : String)
    → starts "\\\\?\\" path ≡ false
    → (strip_long_path_prefix (to_windows_api_path path) ≡ path)
      × (to_windows_api_path (to_windows_api_path path) ≡ to_windows_api_path path)
strip_long_path_prefix-to_windows_api_path path h =
    let form = no_prefix-form path h in
    (
      ap strip_long_path_prefix form ∙ strip-api_form path (strip_text "\\\\" path) refl h,
      elim (api_form-starts path (strip_text "\\\\" path)) [
        | inl prefixed ↦ has_prefix (to_windows_api_path path) (rw form prefixed)
        | inr unchanged ↦ ap to_windows_api_path (form ∙ unchanged)
      ],
    )
