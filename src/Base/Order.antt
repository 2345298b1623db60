-- ===== src/Base/Order.antt =====
-- Three-way comparisons, Rust's `Ord`: what makes one an order, for numbers, texts and lists.
use Prim.Native.Nat.{compare, Ordering, lt, eq, gt}
use Prim.Native.String.{String, then, compare as compare_text}
use Prim.Native.String.compare as Text
use mathlib.Core.Path.{◌≡◌, refl, ap}
use text.Mathlib.TextEquality.{path_by_compare}
use mathlib.Core.List.{List, [], ◌∷◌}
use native.Mathlib.Omega.{arith}

-- `Ordering::reverse`
abbrev pub reverse : Ordering → Ordering
reverse lt = gt
reverse eq = eq
reverse gt = lt

-- `Ordering::then`: the first answer that is not `Equal`.
abbrev pub then_with : Ordering → Ordering → Ordering
then_with = then

-- A total order of classes: comparing the other way round gives the other answer, equal elements
-- compare alike, and "less" is transitive.
pub record IsOrder {ℓ} {A : Type ℓ} (cmp : A → A → Ordering) : Type ℓ where
  pub swap : (a b : A) → cmp b a ≡ reverse (cmp a b)
  pub cong : (a b c : A) → cmp a b ≡ eq → cmp a c ≡ cmp b c
  pub trans : (a b c : A) → cmp a b ≡ lt → cmp b c ≡ lt → cmp a c ≡ lt

pub compare-IsOrder : IsOrder compare
compare-IsOrder = record {
  swap = λ a b. ground arith;
  cong = λ a b c h. ground arith;
  trans = λ a b c h k. ground arith;
}

-- The clauses of `compare` on texts are lemmas; `eq` on both sides of a step makes it the rest's.
text-swap : (s t : String) → compare_text t s ≡ reverse (compare_text s t)
text-swap String.[] String.[] = refl
text-swap String.[] (String.◌∷◌ d t) = rw (Text.cons-nil, Text.nil-cons)
text-swap (String.◌∷◌ c s) String.[] = rw (Text.cons-nil, Text.nil-cons)
text-swap (String.◌∷◌ c s) (String.◌∷◌ d t) =
    rw (Text.cons-cons c d s t, Text.cons-cons d c t s) (ground (arith, text-swap s t))

text-cong : (s t u : String) → compare_text s t ≡ eq → compare_text s u ≡ compare_text t u
text-cong s t u h = ap (λ (r : String). compare_text r u) (path_by_compare s t h)

text_trans :
    (s t u : String) → compare_text s t ≡ lt → compare_text t u ≡ lt → compare_text s u ≡ lt
text_trans String.[] String.[] u h k = absurd (ground (arith, h))
text_trans (String.◌∷◌ c s) String.[] u h k = ground (arith, rw Text.cons-nil at h)
text_trans String.[] (String.◌∷◌ d t) String.[] h k = ground (arith, rw Text.cons-nil at k)
text_trans (String.◌∷◌ c s) (String.◌∷◌ d t) String.[] h k = ground (arith, rw Text.cons-nil at k)
text_trans String.[] (String.◌∷◌ d t) (String.◌∷◌ e u) h k = rw Text.nil-cons
text_trans (String.◌∷◌ c s) (String.◌∷◌ d t) (String.◌∷◌ e u) h k = rw (Text.cons-cons c e s u) (
    let h' = rw (Text.cons-cons c d s t) at h in
    let k' = rw (Text.cons-cons d e t u) at k in ground (arith, h', k', text_trans s t u))

pub text-IsOrder : IsOrder compare_text
text-IsOrder = record { swap = text-swap; cong = text-cong; trans = text_trans }

-- Lexicographic order, a shorter list first: `zip`, then the lengths.
module _ {ℓ} {A : Type ℓ} (cmp : A → A → Ordering) where
  unfoldable pub compare_lists : List A → List A → Ordering
  compare_lists [] [] = eq
  compare_lists [] (b ∷ bs) = lt
  compare_lists (a ∷ as') [] = gt
  compare_lists (a ∷ as') (b ∷ bs) = then (cmp a b) (compare_lists as' bs)

  module _ (o : IsOrder cmp) where
    lists-swap : (as' bs : List A) → compare_lists bs as' ≡ reverse (compare_lists as' bs)
    unfolding compare_lists
    lists-swap [] [] = refl
    lists-swap [] (b ∷ bs) = refl
    lists-swap (a ∷ as') [] = refl
    lists-swap (a ∷ as') (b ∷ bs) = ground (arith, o.swap a b, lists-swap as' bs)

    lists-cong :
        (as' bs cs : List A)
        → compare_lists as' bs ≡ eq
        → compare_lists as' cs ≡ compare_lists bs cs
    unfolding compare_lists
    lists-cong [] [] cs h = refl
    lists-cong [] (b ∷ bs) cs h = ground arith
    lists-cong (a ∷ as') [] cs h = ground arith
    lists-cong (a ∷ as') (b ∷ bs) [] h = refl
    lists-cong (a ∷ as') (b ∷ bs) (c ∷ cs) h = ground (arith, o.cong a b c, lists-cong as' bs cs)

    lists_trans :
        (as' bs cs : List A)
        → compare_lists as' bs ≡ lt
        → compare_lists bs cs ≡ lt
        → compare_lists as' cs ≡ lt
    unfolding compare_lists
    lists_trans [] [] cs h k = ground arith
    lists_trans [] (b ∷ bs) [] h k = ground arith
    lists_trans [] (b ∷ bs) (c ∷ cs) h k = refl
    lists_trans (a ∷ as') [] cs h k = ground arith
    lists_trans (a ∷ as') (b ∷ bs) [] h k = ground arith
    lists_trans (a ∷ as') (b ∷ bs) (c ∷ cs) h k = ground (
      arith,
      o.cong a b c,
      o.trans a b c,
      o.swap b c,
      o.swap a c,
      o.cong b c a,
      o.swap a b,
      lists_trans as' bs cs,
    )

    pub compare_lists-IsOrder : IsOrder compare_lists
    compare_lists-IsOrder = record { swap = lists-swap; cong = lists-cong; trans = lists_trans }
