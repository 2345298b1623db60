-- ===== src/Token/FilteredKind.antt =====
-- crates/permission_engine/src/engine.rs: the groups that User Account Control filters, by name.
use stars_ad_permission_anal.Base.{
  ℕ, Bool, false, ◌&&◌, ◌||◌, ◌==◌, leb, any, List, [], ◌∷◌, Option, none, some, str_eq,
  split_count, parse_unsigned, ◌⊕◌, Bool-cases, inl, inr, ◌≡◌, refl, ap, arith,
}
use stars_ad_permission_anal.Model.{Sid}
use stars_ad_permission_anal.Token.WellKnown.{domain_and_rid}
use stars_ad_permission_anal.Token.Uac.{is_filtered_rid, is_uac_filtered_group}

-- The RIDs of Domain Admins (512), Cert Publishers (517), Schema Admins (518), Enterprise Admins
-- (519) and Group Policy Creator Owners (520), and of the groups of domain controllers (498, 516,
-- 521).
abbrev filtered_rid : Option ℕ → Bool
filtered_rid none = false
filtered_rid (some r) = r == 498 || r == 512 || (leb 516 r && leb r 521)

-- A group of a domain, which has three sub-authorities, by its RID.
abbrev domain_group : Option (List ℕ × List ℕ) → Bool
domain_group none = false
domain_group (some (domain, rid)) =
    split_count b'-' domain == 3 && filtered_rid (parse_unsigned 0xffff_ffff rid)

-- Administrators, Power Users, the operators of accounts, servers, printing and backup,
-- Pre-Windows 2000 Compatible Access and the operators of network configuration.
abbrev builtin_group : Sid → Bool
builtin_group s =
    any (λ rid. str_eq ("S-1-5-32-" ⊕ rid) s)
      ("544" ∷ "547" ∷ "548" ∷ "549" ∷ "550" ∷ "551" ∷ "554" ∷ "556" ∷ [])

abbrev pub filtered_kind : Sid → Bool
filtered_kind s = builtin_group s || domain_group (domain_and_rid s)

is_filtered_rid-range : (r : Option ℕ) → is_filtered_rid r ≡ filtered_rid r
unfolding is_filtered_rid
is_filtered_rid-range none = refl
is_filtered_rid-range (some r) = ground arith

by_domain :
    (s : Sid) (d : Option (List ℕ × List ℕ))
    → (elim d [
      | none ↦ false
      | some (domain, rid) ↦
          split_count b'-' domain == 3 && is_filtered_rid (parse_unsigned 0xffff_ffff rid)
    ])
      ≡ domain_group d
by_domain s none = refl
by_domain s (some (domain, rid)) =
    ap (λ b. split_count b'-' domain == 3 && b)
      (is_filtered_rid-range (parse_unsigned 0xffff_ffff rid))

pub is_uac_filtered_group-kind : (s : Sid) → is_uac_filtered_group s ≡ filtered_kind s
unfolding is_uac_filtered_group
is_uac_filtered_group-kind s = elim (Bool-cases (builtin_group s)) [
  | inl builtin ↦ rw builtin refl
  | inr other ↦ rw other (by_domain s (domain_and_rid s))
]
