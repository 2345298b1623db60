-- ===== src/Base/Sets.antt =====
-- `HashSet<String>`: the program only inserts, removes and asks for membership, so a set is a list
-- in which the order and the copies do not show.
use Prim.Native.String.{String}
use mathlib.Core.Path.{◌≡◌, refl, ap}
use mathlib.Core.Logic.{inl, inr}
use mathlib.Core.Bool.{Bool, false, not, ◌&&◌, ◌||◌}
use mathlib.Core.List.{List, [], ◌∷◌}
use native.Mathlib.Omega.{arith}
use stars_ad_permission_anal.Base.Logic.{if◌then◌else◌, Bool-cases}
use stars_ad_permission_anal.Base.Text.{str_eq, str_eq_iff}

abbrev pub SidSet : Type 0
SidSet = List String

-- `set.contains(&s)`
abbrev pub contains : SidSet → String → Bool
contains [] s = false
contains (x ∷ xs) s = str_eq x s || contains xs s

-- `set.insert(s)`
unfoldable pub insert : String → SidSet → SidSet
insert s xs = if contains xs s then xs else s ∷ xs

-- `set.extend(list)`
unfoldable pub extend : List String → SidSet → SidSet
extend [] set = set
extend (s ∷ rest) set = extend rest (insert s set)

-- `set.remove(&s)`
unfoldable pub remove : String → SidSet → SidSet
remove s [] = []
remove s (x ∷ xs) = let rest = remove s xs in if str_eq x s then rest else x ∷ rest

pub contains-insert :
    (s t : String) (xs : SidSet) → contains (insert s xs) t ≡ (str_eq s t || contains xs t)
unfolding insert
contains-insert s t xs = elim (Bool-cases (contains xs s)) [
  | inl old ↦ ground (arith, str_eq_iff s t, λ (e : s ≡ t). ap (contains xs) e)
  | inr new ↦ rw new
]

pub contains-remove :
    (s t : String) (xs : SidSet) → contains (remove s xs) t ≡ (not (str_eq s t) && contains xs t)
unfolding remove
contains-remove s t [] = ground arith
contains-remove s t (x ∷ xs) =
    ground (arith, contains-remove s t xs, str_eq_iff x s, str_eq_iff x t, str_eq_iff s t)

pub contains-extend :
    (l : List String) (t : String) (xs : SidSet)
    → contains (extend l xs) t ≡ (contains l t || contains xs t)
unfolding extend
contains-extend [] t xs = refl
contains-extend (s ∷ l) t xs =
    ground (arith, contains-extend l t (insert s xs), contains-insert s t xs)
