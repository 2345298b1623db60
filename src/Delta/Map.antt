-- ===== src/Delta/Map.antt =====
-- crates/persistence/src/delta.rs: the maps of `diff_permission_lists`, keyed by SID and path.
use stars_ad_permission_anal.Base.{
  ◌≤◌, Bool, true, false, if◌then◌else◌, List, [], ◌∷◌, Option, none, some, str_eq_iff, length,
  filter, All, ◌≡◌, refl, ◌∙◌, ap, ◌↔◌, arith, Bool-cases, inl, inr,
}
use stars_ad_permission_anal.Model.Effective.{EffectivePermission}
use stars_ad_permission_anal.Delta.Compare.{Key, key_of, same_key, KeyMap, put, get, collect_map}

pub same_key_iff : (a b : Key) → (same_key a b ≡ true) ↔ (a ≡ b)
same_key_iff (s, p) (t, q) = ground (arith, str_eq_iff s t, str_eq_iff p q)

abbrev pub at : Key → Key × EffectivePermission → Bool
at key e = same_key e.0 key

-- The last row of the list with this SID and path, or else the given one.
abbrev pub last_row :
    Key → Option EffectivePermission → List EffectivePermission → Option EffectivePermission
last_row key o [] = o
last_row key o (p ∷ perms) = last_row key (if same_key (key_of p) key then some p else o) perms

get-put :
    (k : Key) (p : EffectivePermission) (m : KeyMap) (key : Key)
    → get (put k p m) key ≡ (if same_key k key then some p else get m key)
unfolding get put
get-put k p [] key = ground arith
get-put k p ((k', q) ∷ m) key =
    ground (arith, get-put k p m key, same_key_iff k' k, same_key_iff k' key, same_key_iff k key)

pub get-collect_map :
    (key : Key) (m : KeyMap) (perms : List EffectivePermission)
    → get (collect_map m perms) key ≡ last_row key (get m key) perms
unfolding collect_map
get-collect_map key m [] = refl
get-collect_map key m (p ∷ perms) =
    get-collect_map key (put (key_of p) p m) perms
    ∙ ap (λ o. last_row key o perms) (get-put (key_of p) p m key)

-- Each key stands once.
abbrev IsUnique : KeyMap → Type 0
IsUnique m = (key : Key) → length (filter (at key) m) ≤ 1

put-other :
    (k : Key) (p : EffectivePermission) (m : KeyMap) (key : Key)
    → same_key k key ≡ false
    → length (filter (at key) (put k p m)) ≡ length (filter (at key) m)
unfolding put
put-other k p [] key h = ground (arith, h)
put-other k p ((k', q) ∷ m) key h =
    ground
      (arith, h, put-other k p m key h, same_key_iff k' k, same_key_iff k' key, same_key_iff k key)

put-same :
    (k : Key) (p : EffectivePermission) (m : KeyMap) (key : Key)
    → same_key k key ≡ true
    → length (filter (at key) m) ≤ 1
    → length (filter (at key) (put k p m)) ≡ 1
unfolding put
put-same k p [] key h u = ground (arith, h)
put-same k p ((k', q) ∷ m) key h u =
    ground (
      arith,
      h,
      u,
      put-same k p m key h,
      same_key_iff k' k,
      same_key_iff k' key,
      same_key_iff k key,
    )

put-IsUnique : (k : Key) (p : EffectivePermission) (m : KeyMap) → IsUnique m → IsUnique (put k p m)
put-IsUnique k p m u key = elim (Bool-cases (same_key k key)) [
  | inl e ↦ omega (arith, put-same k p m key e (u key))
  | inr e ↦ omega (arith, put-other k p m key e, u key)
]

pub collect_map-IsUnique :
    (m : KeyMap) (perms : List EffectivePermission) → IsUnique m → IsUnique (collect_map m perms)
unfolding collect_map
collect_map-IsUnique m [] u = u
collect_map-IsUnique m (p ∷ perms) u =
    collect_map-IsUnique (put (key_of p) p m) perms (put-IsUnique (key_of p) p m u)

-- Every row stands under its own key.
abbrev pub IsKeyed : Key × EffectivePermission → Type 0
IsKeyed e = key_of e.1 ≡ e.0

put-AreKeyed :
    (p : EffectivePermission) (m : KeyMap) → All IsKeyed m → All IsKeyed (put (key_of p) p m)
unfolding put
put-AreKeyed p [] h = (refl, tt)
put-AreKeyed p ((k, q) ∷ m) h = elim (Bool-cases (same_key k (key_of p))) [
  | inl e ↦ rw e (refl, h.1)
  | inr e ↦ rw e (h.0, put-AreKeyed p m h.1)
]

pub collect_map-AreKeyed :
    (m : KeyMap) (perms : List EffectivePermission)
    → All IsKeyed m
    → All IsKeyed (collect_map m perms)
unfolding collect_map
collect_map-AreKeyed m [] h = h
collect_map-AreKeyed m (p ∷ perms) h =
    collect_map-AreKeyed (put (key_of p) p m) perms (put-AreKeyed p m h)

abbrev pub entry_at : Key → Option EffectivePermission → List (Key × EffectivePermission)
entry_at key none = []
entry_at key (some p) = (key, p) ∷ []

empty_of_length {ℓ} : {A : Type ℓ} (xs : List A) → length xs ≤ 0 → xs ≡ []
empty_of_length [] h = refl
empty_of_length (x ∷ xs) h = absurd (omega arith)

pair_at :
    (q : EffectivePermission) (k key : Key)
    → same_key k key ≡ true
    → ◌≡◌ {A = Key × EffectivePermission} (k, q) (key, q)
pair_at q k key e = ap {B = Key × EffectivePermission} (λ c. (c, q)) ((same_key_iff k key).0 e)

filter-at :
    (key : Key) (m : KeyMap)
    → length (filter (at key) m) ≤ 1
    → filter (at key) m ≡ entry_at key (get m key)
unfolding get
filter-at key [] h = refl
filter-at key ((k, q) ∷ m) h = elim (Bool-cases (same_key k key)) [
  | inl e ↦ ground (arith, e, h, empty_of_length (filter (at key) m), pair_at q k key)
  | inr e ↦ ground (arith, e, h, filter-at key m)
]

-- A collected map has one row for a key, the last one of the list.
pub filter-collect_map :
    (key : Key) (perms : List EffectivePermission)
    → filter (at key) (collect_map [] perms) ≡ entry_at key (last_row key none perms)
unfolding get
filter-collect_map key perms =
    filter-at key (collect_map [] perms) (collect_map-IsUnique [] perms (λ k. omega arith) key)
    ∙ ap (entry_at key) (get-collect_map key [] perms)
