-- ===== src/Update/Leads.antt =====
-- Where a path on Windows leads, read character by character, and by its parts between the
-- separators.
use Prim.Native.Char.{Char, code}
use Prim.Native.String.append
use text.Mathlib.TextLemmas.{append_assoc as text_assoc, append-nil as text-nil}
use mathlib.Core.List.{append_assoc}
use stars_ad_permission_anal.Base.{
  ℕ, Bool, true, false, ◌||◌, ◌==◌, if◌then◌else◌, List, [], ◌∷◌, ◌++◌, String, ◌⊕◌, str_eq,
  str_eq_iff, Bool-cases, inl, inr, ◌≡◌, refl, sym, ap, ◌∙◌, arith,
}
use stars_ad_permission_anal.Base.Strings.{split, in_front, of_char, text_is_empty}

-- The folder above.
abbrev parent : List String → List String
parent [] = []
parent (s ∷ []) = []
parent (s ∷ t ∷ rest) = s ∷ parent (t ∷ rest)

-- What separates the names of a path in Windows.
abbrev pub separates : ℕ → Bool
separates c = c == b'\\' || c == b'/'

module _ (clean : String → String) where
  -- One step from a folder, by what the system makes of a name: an empty one and "." stay, ".."
  -- goes up, another name goes down.
  abbrev pub step_into : List String → String → List String
  step_into folder name =
      let cleaned = clean name in
      if text_is_empty cleaned || str_eq cleaned "."
      then folder
      else if str_eq cleaned ".."
      then parent folder
      else folder ++ cleaned ∷ []

  -- The folder that the rest of a path leads to, after the characters of a name read so far.
  abbrev pub lead : List String → String → String → List String
  lead folder name String.[] = step_into folder name
  lead folder name (String.◌∷◌ c path) =
      let next = lead (step_into folder name) "" path in
      let longer = lead folder (name ⊕ of_char c) path in
      if separates (code c) then next else longer

  unfoldable pub follow : List String → List String → List String
  follow folder [] = folder
  follow folder (name ∷ rest) = follow (step_into folder name) rest

  onto : String → List String → List String
  onto name [] = name ∷ []
  onto name (part ∷ parts) = (name ⊕ part) ∷ parts

  nothing-onto-front :
      (between : Bool) (c : Char) (parts : List String)
      → onto "" (if between then "" ∷ parts else in_front c parts)
        ≡ (if between then "" ∷ parts else in_front c parts)
  unfolding onto
  nothing-onto-front true c parts = ap (λ p. p ∷ parts) (append.nil "")
  nothing-onto-front false c [] = ap (λ p. p ∷ []) (append.nil (of_char c))
  nothing-onto-front false c (part ∷ parts) = ap (λ p. p ∷ parts) (append.nil (String.◌∷◌ c part))

  nothing-onto-split : (path : String) → onto "" (split separates path) ≡ split separates path
  unfolding split onto
  nothing-onto-split String.[] = ap (λ p. p ∷ []) (append.nil "")
  nothing-onto-split (String.◌∷◌ c path) =
      nothing-onto-front (separates (code c)) c (split separates path)

  onto-front :
      (name : String) (c : Char) (parts : List String)
      → onto (name ⊕ of_char c) parts ≡ onto name (in_front c parts)
  unfolding onto
  onto-front name c [] = refl
  onto-front name c (part ∷ parts) =
      ap (λ p. p ∷ parts)
        (text_assoc name (of_char c) part
          ∙ ap (λ p. name ⊕ p) (append.cons c "" part ∙ ap (λ p. String.◌∷◌ c p) (append.nil part)))

  lead-follow :
      (folder : List String) (name path : String)
      → lead folder name path ≡ follow folder (onto name (split separates path))
  unfolding split onto follow
  lead-follow folder name String.[] = ap (step_into folder) (sym (text-nil name))
  lead-follow folder name (String.◌∷◌ c path) =
      let next =
        lead-follow (step_into folder name) "" path
        ∙ ap (follow (step_into folder name)) (nothing-onto-split path)
        ∙ ap (λ n. follow (step_into folder n) (split separates path)) (sym (text-nil name)) in
      let longer =
        lead-follow folder (name ⊕ of_char c) path
        ∙ ap (follow folder) (onto-front name c (split separates path)) in
      elim (Bool-cases (separates (code c))) [
        | inl between ↦ rw between next
        | inr inside ↦ rw inside longer
      ]

  pub lead-split :
      (folder : List String) (path : String)
      → lead folder "" path ≡ follow folder (split separates path)
  lead-split folder path = lead-follow folder "" path ∙ ap (follow folder) (nothing-onto-split path)

  -- The names that the parts of a path stand for, without those that stay.
  abbrev pub names : List String → List String
  names [] = []
  names (part ∷ parts) =
      let cleaned = clean part in
      let rest = names parts in
      if text_is_empty cleaned || str_eq cleaned "." then rest else cleaned ∷ rest

  pub step-names :
      (folder : List String) (part : String) (parts : List String)
      → str_eq (clean part) ".." ≡ false
      → (follow (step_into folder part) parts ≡ step_into folder part ++ names parts)
      → follow folder (part ∷ parts) ≡ folder ++ names (part ∷ parts)
  unfolding follow
  step-names folder part parts down h =
      elim (Bool-cases (text_is_empty (clean part) || str_eq (clean part) ".")) [
        | inl stays ↦ h ∙ rw stays refl
        | inr named ↦ h ∙ rw (named, down) (append_assoc folder (clean part ∷ []) (names parts))
      ]

  module _ (ups : (s : String) → clean s ≡ ".." → s ≡ "..") where
    pub not_up : (s : String) → str_eq s ".." ≡ false → str_eq (clean s) ".." ≡ false
    not_up s h = ground (arith, h, str_eq_iff s "..", str_eq_iff (clean s) "..", ups s)
