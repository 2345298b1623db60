-- ===== src/Base/Perm.antt =====
-- Lists with the same elements in another order.
use mathlib.Core.Path.{◌≡◌, refl, ap, ◌∙◌, subst}
use mathlib.Core.Bool.{Bool, true, false}
use mathlib.Core.Option.{Option, none, some}
use mathlib.Core.List.{List, [], ◌∷◌, ◌++◌, append_assoc, Permᴰ}
use mathlib.Core.List.Permᴰ
use native.Mathlib.Omega.{arith}
use Prim.Native.Nat.{suc}
use stars_ad_permission_anal.Base.Logic.{if◌then◌else◌}
use stars_ad_permission_anal.Base.Lists.{length, filter, flat_map, All}
use stars_ad_permission_anal.Base.Sort.{insert_sorted, sort_by}

abbrev pub to_list {ℓ} : {A : Type ℓ} → Option A → List A
to_list none = []
to_list (some a) = a ∷ []

module _ {ℓ} {A : Type ℓ} where
  pub length-Perm : {xs ys : List A} → Permᴰ xs ys → length xs ≡ length ys
  length-Perm Permᴰ.nil = refl
  length-Perm (Permᴰ.cons e h) = ap suc (length-Perm h)
  length-Perm (Permᴰ.swap e e') = refl
  length-Perm (Permᴰ.trans h k) = length-Perm h ∙ length-Perm k

  pub All-Perm {κ} : (P : A → Type κ) {xs ys : List A} → Permᴰ xs ys → All P xs → All P ys
  All-Perm P Permᴰ.nil h = tt
  All-Perm P (Permᴰ.cons e d) h = (subst P e h.0, All-Perm P d h.1)
  All-Perm P (Permᴰ.swap e e') h = (subst P e' h.1.0, (subst P e h.0, h.1.1))
  All-Perm P (Permᴰ.trans d k) h = All-Perm P k (All-Perm P d h)

  eq_of_Perm-one : (x : A) (xs : List A) → length xs ≡ 1 → All (λ z. z ≡ x) xs → xs ≡ x ∷ []
  eq_of_Perm-one x (y ∷ []) e h = ap (λ (z : A). z ∷ []) h.0
  eq_of_Perm-one x [] e h = absurd (omega arith)
  eq_of_Perm-one x (y ∷ z ∷ xs) e h = absurd (omega arith)

  eq_of_Perm-nil : (xs : List A) → length xs ≡ 0 → xs ≡ []
  eq_of_Perm-nil [] e = refl
  eq_of_Perm-nil (y ∷ ys) e = absurd (omega arith)

  -- A list of one element, or none, has one order.
  pub eq_of_Perm-to_list : (o : Option A) (xs : List A) → Permᴰ xs (to_list o) → xs ≡ to_list o
  eq_of_Perm-to_list none xs h = eq_of_Perm-nil xs (length-Perm h)
  eq_of_Perm-to_list (some x) xs h =
      eq_of_Perm-one x xs (length-Perm h) (All-Perm (λ z. z ≡ x) (Permᴰ.symm h) (refl, tt))

  filter-cons :
      (p : A → Bool) (a : A) (xs ys : List A)
      → Permᴰ (filter p xs) (filter p ys)
      → Permᴰ (filter p (a ∷ xs)) (filter p (a ∷ ys))
  filter-cons p a xs ys h = step (p a)
    where
      step :
          (b : Bool)
          → Permᴰ
              (if b then a ∷ filter p xs else filter p xs)
              (if b then a ∷ filter p ys else filter p ys)
      step true = Permᴰ.cons refl h
      step false = h

  filter-swap :
      (p : A → Bool) (a b : A) (xs : List A) → Permᴰ (filter p (a ∷ b ∷ xs)) (filter p (b ∷ a ∷ xs))
  filter-swap p a b xs = step (p a) (p b)
    where
      two : Bool → Bool → A → A → List A
      two u v x y =
          if u
          then x ∷ (if v then y ∷ filter p xs else filter p xs)
          else (if v then y ∷ filter p xs else filter p xs)

      step : (u v : Bool) → Permᴰ (two u v a b) (two v u b a)
      step true true = Permᴰ.swap refl refl
      step true false = Permᴰ.refl _
      step false true = Permᴰ.refl _
      step false false = Permᴰ.refl _

  pub filter-Perm :
      (p : A → Bool) {xs ys : List A} → Permᴰ xs ys → Permᴰ (filter p xs) (filter p ys)
  filter-Perm p Permᴰ.nil = Permᴰ.nil
  filter-Perm p (Permᴰ.cons {a = a} {l₁ = xs} {l₂ = ys} e h) =
      subst (λ (c : A). Permᴰ (filter p (a ∷ xs)) (filter p (c ∷ ys))) e
        (filter-cons p a xs ys (filter-Perm p h))
  filter-Perm p (Permᴰ.swap {a = a} {b = b} {a' = a'} {l = xs} e e') =
      subst (λ (c : A). Permᴰ (filter p (a ∷ b ∷ xs)) (filter p (a' ∷ c ∷ xs))) e
        (subst (λ (c : A). Permᴰ (filter p (a ∷ b ∷ xs)) (filter p (c ∷ a ∷ xs))) e'
          (filter-swap p a b xs))
  filter-Perm p (Permᴰ.trans h k) = Permᴰ.trans (filter-Perm p h) (filter-Perm p k)

  insert_sorted-Perm :
      (le : A → A → Bool) (x : A) (xs : List A) → Permᴰ (insert_sorted le x xs) (x ∷ xs)
  unfolding insert_sorted
  insert_sorted-Perm le x [] = Permᴰ.refl _
  insert_sorted-Perm le x (y ∷ ys) = step (le x y) (insert_sorted-Perm le x ys)
    where
      step :
          (b : Bool)
          → Permᴰ (insert_sorted le x ys) (x ∷ ys)
          → Permᴰ (if b then x ∷ y ∷ ys else y ∷ insert_sorted le x ys) (x ∷ y ∷ ys)
      step true ih = Permᴰ.refl _
      step false ih = Permᴰ.trans (Permᴰ.cons refl ih) (Permᴰ.swap refl refl)

  -- Sorting reorders.
  pub sort_by-Perm : (le : A → A → Bool) (xs : List A) → Permᴰ (sort_by le xs) xs
  unfolding sort_by
  sort_by-Perm le [] = Permᴰ.nil
  sort_by-Perm le (x ∷ xs) =
      Permᴰ.trans (insert_sorted-Perm le x (sort_by le xs)) (Permᴰ.cons refl (sort_by-Perm le xs))

module _ {ℓ κ} {A : Type ℓ} {B : Type κ} (f : A → List B) where
  flat_map-swap : (a b : A) (zs : List B) → Permᴰ (f a ++ (f b ++ zs)) (f b ++ (f a ++ zs))
  flat_map-swap a b zs =
      subst (λ (l : List B). Permᴰ l (f b ++ (f a ++ zs))) (append_assoc (f a) (f b) zs)
        (subst (λ (l : List B). Permᴰ ((f a ++ f b) ++ zs) l) (append_assoc (f b) (f a) zs)
          (Permᴰ.append_right zs (Permᴰ.append_comm (f a) (f b))))

  pub flat_map-Perm : {xs ys : List A} → Permᴰ xs ys → Permᴰ (flat_map f xs) (flat_map f ys)
  flat_map-Perm Permᴰ.nil = Permᴰ.nil
  flat_map-Perm (Permᴰ.cons {a = a} {l₁ = xs} {l₂ = ys} e h) =
      subst (λ (c : A). Permᴰ (flat_map f (a ∷ xs)) (flat_map f (c ∷ ys))) e
        (Permᴰ.append_left (f a) (flat_map-Perm h))
  flat_map-Perm (Permᴰ.swap {a = a} {b = b} {a' = a'} {l = xs} e e') =
      subst (λ (c : A). Permᴰ (flat_map f (a ∷ b ∷ xs)) (flat_map f (a' ∷ c ∷ xs))) e
        (subst (λ (c : A). Permᴰ (flat_map f (a ∷ b ∷ xs)) (flat_map f (c ∷ a ∷ xs))) e'
          (flat_map-swap a b (flat_map f xs)))
  flat_map-Perm (Permᴰ.trans h k) = Permᴰ.trans (flat_map-Perm h) (flat_map-Perm k)
