-- ===== src/Update/Precedence.antt =====
-- crates/update_manager/src/version.rs: the order of versions is an order.
use Prim.Native.Nat.{lt, eq}
use stars_ad_permission_anal.Base.{List, [], ◌∷◌, ℕ, Option, none, some, ◌≡◌, refl, arith}
use stars_ad_permission_anal.Base.Order.{
  IsOrder, reverse, text-IsOrder, compare-IsOrder, compare_lists-IsOrder, compare_lists,
}
use stars_ad_permission_anal.Update.Version.{
  PreReleaseId, num, alpha, compare_core, compare_id, compare_pre, cmp,
}

core-swap : (as' bs : List ℕ) → compare_core bs as' ≡ reverse (compare_core as' bs)
unfolding compare_core
core-swap [] [] = refl
core-swap [] (b ∷ bs) = ground (arith, core-swap [] bs)
core-swap (a ∷ as') [] = ground (arith, core-swap as' [])
core-swap (a ∷ as') (b ∷ bs) = ground (arith, core-swap as' bs)

core-cong :
    (as' bs cs : List ℕ) → compare_core as' bs ≡ eq → compare_core as' cs ≡ compare_core bs cs
unfolding compare_core
core-cong [] [] cs h = refl
core-cong [] (b ∷ bs) [] h = ground (arith, core-cong [] bs [])
core-cong [] (b ∷ bs) (c ∷ cs) h = ground (arith, core-cong [] bs cs)
core-cong (a ∷ as') [] [] h = ground (arith, core-cong as' [] [])
core-cong (a ∷ as') [] (c ∷ cs) h = ground (arith, core-cong as' [] cs)
core-cong (a ∷ as') (b ∷ bs) [] h = ground (arith, core-cong as' bs [])
core-cong (a ∷ as') (b ∷ bs) (c ∷ cs) h = ground (arith, core-cong as' bs cs)

core_trans :
    (as' bs cs : List ℕ)
    → compare_core as' bs ≡ lt
    → compare_core bs cs ≡ lt
    → compare_core as' cs ≡ lt
unfolding compare_core
core_trans [] [] cs h k = ground (arith, h)
core_trans [] (b ∷ bs) [] h k = ground (arith, core_trans [] bs [])
core_trans [] (b ∷ bs) (c ∷ cs) h k = ground (arith, core_trans [] bs cs)
core_trans (a ∷ as') [] [] h k = ground (arith, core_trans as' [] [])
core_trans (a ∷ as') [] (c ∷ cs) h k = ground (arith, core_trans as' [] cs)
core_trans (a ∷ as') (b ∷ bs) [] h k = ground (arith, core_trans as' bs [])
core_trans (a ∷ as') (b ∷ bs) (c ∷ cs) h k = ground (arith, core_trans as' bs cs)

core-IsOrder : IsOrder compare_core
core-IsOrder = record { swap = core-swap; cong = core-cong; trans = core_trans }

id-swap : (a b : PreReleaseId) → compare_id b a ≡ reverse (compare_id a b)
unfolding compare_id
id-swap (num x) (num y) = compare-IsOrder.swap x y
id-swap (num x) (alpha y) = refl
id-swap (alpha x) (num y) = refl
id-swap (alpha x) (alpha y) = text-IsOrder.swap x y

id-cong : (a b c : PreReleaseId) → compare_id a b ≡ eq → compare_id a c ≡ compare_id b c
unfolding compare_id
id-cong (num x) (num y) (num z) h = compare-IsOrder.cong x y z h
id-cong (num x) (num y) (alpha z) h = refl
id-cong (num x) (alpha y) c h = ground arith
id-cong (alpha x) (num y) c h = ground arith
id-cong (alpha x) (alpha y) (num z) h = refl
id-cong (alpha x) (alpha y) (alpha z) h = text-IsOrder.cong x y z h

id_trans : (a b c : PreReleaseId) → compare_id a b ≡ lt → compare_id b c ≡ lt → compare_id a c ≡ lt
unfolding compare_id
id_trans (num x) (num y) (num z) h k = compare-IsOrder.trans x y z h k
id_trans (num x) b (alpha z) h k = refl
id_trans (num x) (alpha y) (num z) h k = ground arith
id_trans (alpha x) (num y) c h k = ground arith
id_trans (alpha x) (alpha y) (num z) h k = ground arith
id_trans (alpha x) (alpha y) (alpha z) h k = text-IsOrder.trans x y z h k

id-IsOrder : IsOrder compare_id
id-IsOrder = record { swap = id-swap; cong = id-cong; trans = id_trans }

lists-IsOrder : IsOrder (compare_lists compare_id)
lists-IsOrder = compare_lists-IsOrder compare_id id-IsOrder

pre-swap : (a b : Option (List PreReleaseId)) → compare_pre b a ≡ reverse (compare_pre a b)
unfolding compare_pre
pre-swap none none = refl
pre-swap none (some b) = refl
pre-swap (some a) none = refl
pre-swap (some a) (some b) = lists-IsOrder.swap a b

pre-cong :
    (a b c : Option (List PreReleaseId)) → compare_pre a b ≡ eq → compare_pre a c ≡ compare_pre b c
unfolding compare_pre
pre-cong none none c h = refl
pre-cong none (some b) c h = ground arith
pre-cong (some a) none c h = ground arith
pre-cong (some a) (some b) none h = refl
pre-cong (some a) (some b) (some c) h = lists-IsOrder.cong a b c h

pre_trans :
    (a b c : Option (List PreReleaseId))
    → compare_pre a b ≡ lt
    → compare_pre b c ≡ lt
    → compare_pre a c ≡ lt
unfolding compare_pre
pre_trans none none c h k = ground arith
pre_trans none (some b) c h k = ground arith
pre_trans (some a) b none h k = refl
pre_trans (some a) none (some c) h k = ground arith
pre_trans (some a) (some b) (some c) h k = lists-IsOrder.trans a b c h k

pre-IsOrder : IsOrder compare_pre
pre-IsOrder = record { swap = pre-swap; cong = pre-cong; trans = pre_trans }

-- Versions are ordered: comparing two of them the other way round gives the opposite answer,
-- versions of equal precedence compare alike with every other one, and a version older than an
-- older one is older.
pub cmp-IsOrder : IsOrder cmp
unfolding cmp
cmp-IsOrder = record {
  swap = λ a b. ground (arith, core-swap a.core b.core, pre-IsOrder.swap a.pre b.pre);
  cong =
      λ a b c h. ground (arith, core-cong a.core b.core c.core, pre-IsOrder.cong a.pre b.pre c.pre);
  trans = λ a b c h k. ground (
    arith,
    core_trans a.core b.core c.core,
    pre-IsOrder.trans a.pre b.pre c.pre,
    core-cong a.core b.core c.core,
    core-swap b.core c.core,
    core-swap a.core c.core,
    core-cong b.core c.core a.core,
    core-swap a.core b.core,
  );
}
