-- ===== src/Dacl/Order/Canonical.antt =====
-- crates/permission_engine/src/engine.rs: `dacl_order_finding` beside a search for the first entry
-- out of canonical order.
use stars_ad_permission_anal.Base.{
  ℕ, ◌+◌, Bool, true, false, if◌then◌else◌, List, [], ◌∷◌, Option, none, some, ◌≡◌, refl, arith,
  ltb, ◌∙◌,
}
use Prim.Native.Nat.{max}
use stars_ad_permission_anal.Model.{AceKind, allow, deny, AceEntry}
use stars_ad_permission_anal.Dacl.Order.{
  DaclOrderFinding, Seen, Round, found, next, order_round, order_from, dacl_order_finding,
  canonical_place, coarse_place, first_break, classify, nothing_seen,
}

abbrev top_coarse : Seen → ℕ
top_coarse s = if s.inherited then 2 else if s.explicit_allow then 1 else 0

abbrev top_canonical : Seen → ℕ
top_canonical s = if s.inherited_allow then 3 else top_coarse s

-- A break in the finer order that the loop has already met.
abbrev with_ambiguous : Option ℕ → Option ℕ → Option ℕ
with_ambiguous (some j) fine = some j
with_ambiguous none fine = fine

-- The loop variables in a state: an inherited Allow is inherited.
abbrev IsConsistent : Seen → Type 0
IsConsistent s = s.inherited_allow ≡ true → s.inherited ≡ true

abbrev classified : ℕ → Seen → List AceEntry → Option DaclOrderFinding
classified i s dacl =
    classify (first_break coarse_place i (top_coarse s) dacl)
      (with_ambiguous s.ambiguous (first_break canonical_place i (top_canonical s) dacl))

abbrev seen : Bool → Bool → Bool → Option ℕ → Seen
seen a b c d = record { inherited = a; explicit_allow = b; inherited_allow = c; ambiguous = d }

-- One round against one step of both searches, given the claim for the rest of the list.
abbrev round_result : ℕ → Round → List AceEntry → Option DaclOrderFinding
round_result i (found f) rest = some f
round_result i (next s) rest = classified (i + 1) s rest

abbrev heads : (Bool → AceKind → ℕ) → ℕ → ℕ → Bool → AceKind → List AceEntry → Option ℕ
heads place i top inh k rest =
    if ltb (place inh k) top then some i else first_break place (i + 1) (max top (place inh k)) rest

round-classified :
    (i : ℕ) (inh : Bool) (k : AceKind) (a b c : Bool) (d : Option ℕ) (rest : List AceEntry)
    → IsConsistent (seen a b c d)
    → round_result i (order_round i inh k (seen a b c d)) rest
      ≡ classify
          (heads coarse_place i (top_coarse (seen a b c d)) inh k rest)
          (with_ambiguous d (heads canonical_place i (top_canonical (seen a b c d)) inh k rest))
unfolding order_round classify
round-classified i false deny a b c d rest h = ground arith
round-classified i false allow a b c d rest h = ground arith
round-classified i true deny a b c d rest h = ground arith
round-classified i true allow a b c d rest h = ground arith

round-IsConsistent :
    (i : ℕ) (inh : Bool) (k : AceKind) (s s' : Seen)
    → IsConsistent s
    → order_round i inh k s ≡ next s'
    → IsConsistent s'
unfolding order_round
round-IsConsistent i false deny s s' h e = ground arith
round-IsConsistent i false allow s s' h e = ground arith
round-IsConsistent i true deny s s' h e = ground arith
round-IsConsistent i true allow s s' h e = ground arith

-- The rest of the loop after a round, by the claim for the rest of the list.
after_round :
    (i : ℕ) (rest : List AceEntry) (r : Round)
    → ((s : Seen) → IsConsistent s → order_from (i + 1) s rest ≡ classified (i + 1) s rest)
    → ((s : Seen) → r ≡ next s → IsConsistent s)
    → (elim r as (λ _. Option DaclOrderFinding) [
      | found f ↦ some f
      | next s ↦ order_from (i + 1) s rest
    ])
      ≡ round_result i r rest
after_round i rest (found f) ih ok = refl
after_round i rest (next s) ih ok = ih s (ok s refl)

order_from-classified :
    (i : ℕ) (s : Seen) (dacl : List AceEntry)
    → IsConsistent s
    → order_from i s dacl ≡ classified i s dacl
unfolding order_from first_break classify
order_from-classified i s [] h = ground arith
order_from-classified i s (ace ∷ rest) h =
    after_round i rest (order_round i ace.inherited ace.kind s)
      (λ s' h'. order_from-classified (i + 1) s' rest h')
      (λ s' e. round-IsConsistent i ace.inherited ace.kind s s' h e)
    ∙ round-classified i ace.inherited ace.kind s.inherited s.explicit_allow s.inherited_allow
        s.ambiguous rest h

-- For every DACL, the finding is: not canonical, with the index of the first entry that follows
-- one of a later place (explicit Deny, explicit Allow, inherited), if there is such an entry;
-- otherwise the first inherited Deny that follows an inherited Allow, as undecidable; otherwise
-- nothing.
pub finding_classifies :
    (dacl : List AceEntry)
    → dacl_order_finding dacl
      ≡ classify (first_break coarse_place 0 0 dacl) (first_break canonical_place 0 0 dacl)
unfolding dacl_order_finding
finding_classifies dacl = order_from-classified 0 nothing_seen dacl (λ e. e)
