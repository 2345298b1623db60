-- ===== src/Dacl/Order.antt =====
-- crates/permission_engine/src/engine.rs: `dacl_order_finding`, what the order of a DACL says about
-- canonical form.
pub mod Canonical
use stars_ad_permission_anal.Base.{
  ℕ, suc, ◌+◌, Bool, true, false, not, ◌&&◌, ◌||◌, if◌then◌else◌, List, [], ◌∷◌, Option, none, some,
  is_some, ltb,
}
use Prim.Native.Nat.{max}
use mathlib.Core.Option
use stars_ad_permission_anal.Model.{AceKind, allow, deny, AceEntry}

pub data DaclOrderFinding : Type 0 where
  non_canonical : ℕ → DaclOrderFinding
  inherited_levels_unknown : ℕ → DaclOrderFinding

-- The variables of the loop.
pub record Seen : Type 0 where
  pub inherited : Bool
  pub explicit_allow : Bool
  pub inherited_allow : Bool
  pub ambiguous : Option ℕ

-- What one round does: return a finding, or go on with the variables.
pub data Round : Type 0 where
  found : DaclOrderFinding → Round
  next : Seen → Round

-- The arms of the `match` on `(ace.inherited, &ace.kind)` at index `i`.
unfoldable pub order_round : ℕ → Bool → AceKind → Seen → Round
order_round i false deny s =
    if s.inherited || s.explicit_allow then found (non_canonical i) else next s
order_round i false allow s =
    if s.inherited then found (non_canonical i) else next (record s { explicit_allow = true })
order_round i true deny s = next (record s {
  inherited = true;
  ambiguous = if s.inherited_allow && not (is_some s.ambiguous) then some i else s.ambiguous;
})
order_round i true allow s = next (record s { inherited = true; inherited_allow = true })

unfoldable pub order_from : ℕ → Seen → List AceEntry → Option DaclOrderFinding
order_from i s [] = Option.map inherited_levels_unknown s.ambiguous
order_from i s (ace ∷ rest) = elim (order_round i ace.inherited ace.kind s) [
  | found f ↦ some f
  | next s' ↦ order_from (i + 1) s' rest
]

abbrev pub nothing_seen : Seen
nothing_seen = record {
  inherited = false;
  explicit_allow = false;
  inherited_allow = false;
  ambiguous = none;
}

unfoldable pub dacl_order_finding : List AceEntry → Option DaclOrderFinding
dacl_order_finding dacl = order_from 0 nothing_seen dacl

-- The place of an entry in canonical order: explicit Deny, explicit Allow, inherited Deny,
-- inherited Allow.
abbrev pub canonical_place : Bool → AceKind → ℕ
canonical_place false deny = 0
canonical_place false allow = 1
canonical_place true deny = 2
canonical_place true allow = 3

-- The same with all inherited entries in one place, since the ancestor levels are not recorded.
abbrev pub coarse_place : Bool → AceKind → ℕ
coarse_place false deny = 0
coarse_place false allow = 1
coarse_place true kind = 2

-- The index of the first entry whose place lies before that of an earlier entry; `top` is the
-- highest place so far and `i` the index of the head.
unfoldable pub first_break : (Bool → AceKind → ℕ) → ℕ → ℕ → List AceEntry → Option ℕ
first_break place i top [] = none
first_break place i top (ace ∷ rest) =
    let later = first_break place (i + 1) (max top (place ace.inherited ace.kind)) rest in
    if ltb (place ace.inherited ace.kind) top then some i else later

-- What a break in either order amounts to.
unfoldable pub classify : Option ℕ → Option ℕ → Option DaclOrderFinding
classify (some i) fine = some (non_canonical i)
classify none fine = Option.map inherited_levels_unknown fine
