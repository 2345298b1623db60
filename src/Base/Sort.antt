-- ===== src/Base/Sort.antt =====
-- `sort_by` and `dedup`: a stable sort and the removal of consecutive equal elements.
use mathlib.Core.Path.{◌≡◌, refl}
use mathlib.Core.Bool.{Bool, true, ◌||◌}
use mathlib.Core.List.{List, [], ◌∷◌}
use native.Mathlib.Omega.{arith}
use stars_ad_permission_anal.Base.Logic.{if◌then◌else◌}
use stars_ad_permission_anal.Base.Lists.{any}

module _ {ℓ} {A : Type ℓ} where
  -- Before the first element that may follow.
  unfoldable pub insert_sorted : (A → A → Bool) → A → List A → List A
  insert_sorted le x [] = x ∷ []
  insert_sorted le x (y ∷ ys) =
      let rest = insert_sorted le x ys in if le x y then x ∷ y ∷ ys else y ∷ rest

  unfoldable pub sort_by : (A → A → Bool) → List A → List A
  unfolding insert_sorted
  sort_by le [] = []
  sort_by le (x ∷ xs) = insert_sorted le x (sort_by le xs)

  pub dedup_after : (A → A → Bool) → A → List A → List A
  dedup_after same x [] = []
  dedup_after same x (y ∷ ys) =
      let rest = dedup_after same y ys in if same x y then rest else y ∷ rest

  unfoldable pub dedup : (A → A → Bool) → List A → List A
  unfolding dedup_after
  dedup same [] = []
  dedup same (x ∷ xs) = x ∷ dedup_after same x xs

  any-insert_sorted :
      (p : A → Bool) (le : A → A → Bool) (x : A) (xs : List A)
      → any p (insert_sorted le x xs) ≡ (p x || any p xs)
  unfolding insert_sorted
  any-insert_sorted p le x [] = refl
  any-insert_sorted p le x (y ∷ ys) = ground (arith, any-insert_sorted p le x ys)

  -- Sorting keeps what a search finds.
  pub any-sort_by :
      (p : A → Bool) (le : A → A → Bool) (xs : List A) → any p (sort_by le xs) ≡ any p xs
  unfolding sort_by
  any-sort_by p le [] = refl
  any-sort_by p le (x ∷ xs) =
      ground (arith, any-insert_sorted p le x (sort_by le xs), any-sort_by p le xs)

  any-dedup_after :
      (p : A → Bool) (same : A → A → Bool)
      → ((x y : A) → same x y ≡ true → p x ≡ p y)
      → (x : A) (xs : List A) → (p x || any p (dedup_after same x xs)) ≡ (p x || any p xs)
  unfolding dedup_after
  any-dedup_after p same h x [] = refl
  any-dedup_after p same h x (y ∷ ys) = ground (arith, h x y, any-dedup_after p same h y ys)

  -- Dropping equal neighbours keeps what a search finds, where it respects the equality.
  pub any-dedup :
      (p : A → Bool) (same : A → A → Bool)
      → ((x y : A) → same x y ≡ true → p x ≡ p y)
      → (xs : List A) → any p (dedup same xs) ≡ any p xs
  unfolding dedup
  any-dedup p same h [] = refl
  any-dedup p same h (x ∷ xs) = any-dedup_after p same h x xs
