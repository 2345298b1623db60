-- ===== src/Risk/Complete.antt =====
-- crates/risk_engine/src/rules.rs: which rights the rules report, and the findings of the default
-- registry about a result of `evaluate`.
use stars_ad_permission_anal.Base.{
  ℕ, ◌+◌, Bool, true, false, ◌&&◌, ◌||◌, ==_iff, bit_and, if◌then◌else◌, List, [], ◌∷◌, ◌++◌,
  Option, none, some, String, str_eq, str_eq_iff, any, any-append, filter_map, Option-cases, ◌≡◌,
  ap, arith, inl, inr, BitsIn-of_and, bit, bit-and, has_bit, bit-zero,
}
use stars_ad_permission_anal.Mask.{mask_full_control, mask_modify, mask_write}
use stars_ad_permission_anal.Model.Effective.{EffectivePermission, effective_upper_bound}
use stars_ad_permission_anal.Model.Risk.{RiskFinding}
use stars_ad_permission_anal.Risk.{audited, holds_all, holds_some, content_write_bits}
use stars_ad_permission_anal.Risk.Rules.{
  full_control, write_access, full_control_rule, write_access_rule,
}
use stars_ad_permission_anal.Risk.Registry.{with_defaults, evaluate_all}

audited-mask : (p : EffectivePermission) → (audited p).mask ≡ effective_upper_bound p
unfolding audited
audited-mask p = ground arith

holds_all-bit : (m b i : ℕ) → holds_all m b ≡ true → bit i b ≡ true → bit i m ≡ true
holds_all-bit m b i h e = BitsIn-of_and m b ((==_iff (bit_and m b) b).0 h) i e

bit-holds_some : (m b i : ℕ) → bit i m ≡ true → bit i b ≡ true → holds_some m b ≡ true
bit-holds_some m b i h e =
    ground (arith, bit-and i m b, bit-zero i, λ (z : bit_and m b ≡ 0). ap (bit i) z)

-- The composites and the content-write bits hold FILE_WRITE_DATA.
holds_write_data :
    (m b : ℕ) → holds_all m b ≡ true → bit 1 b ≡ true → holds_some m content_write_bits ≡ true
holds_write_data m b h e =
    bit-holds_some m content_write_bits 1 (holds_all-bit m b 1 h e)
      (ground (arith, has_bit 1 content_write_bits))

full_control_writes : bit 1 mask_full_control ≡ true
full_control_writes = ground (arith, has_bit 1 mask_full_control)

modify_writes : bit 1 mask_modify ≡ true
modify_writes = ground (arith, has_bit 1 mask_modify)

write_writes : bit 1 mask_write ≡ true
write_writes = ground (arith, has_bit 1 mask_write)

abbrev pub count {ℓ} : {A : Type ℓ} → Option A → ℕ
count none = 0
count (some _) = 1

-- For every result: the Full Control rule and the write rule together report exactly one finding if
-- the upper bound of its effective right can write content, and none otherwise.
pub write_findings :
    (p : EffectivePermission)
    → count (full_control p) + count (write_access p)
      ≡ (if holds_some (effective_upper_bound p) content_write_bits then 1 else 0)
unfolding full_control write_access
write_findings p = rw (audited-mask p) (
    ground (
      arith,
      holds_write_data (effective_upper_bound p) mask_full_control,
      holds_write_data (effective_upper_bound p) mask_modify,
      holds_write_data (effective_upper_bound p) mask_write,
      full_control_writes,
      modify_writes,
      write_writes,
    ))

abbrev pub is_text : String → Option String → Bool
is_text s none = false
is_text s (some t) = str_eq t s

-- A finding of one of these rules about this result.
abbrev pub is_about : List String → EffectivePermission → RiskFinding → Bool
is_about rule_ids p f =
    any (λ id. str_eq f.rule_id id) rule_ids
    && is_text p.path f.affected_path
    && is_text p.identity.sid f.affected_identity

abbrev pub Option_any {ℓ} : {A : Type ℓ} → (A → Bool) → Option A → Bool
Option_any q none = false
Option_any q (some a) = q a

any-filter_map :
    (q : RiskFinding → Bool) (g : EffectivePermission → Option RiskFinding)
    (before after : List EffectivePermission) (p : EffectivePermission)
    → Option_any q (g p) ≡ true
    → any q (filter_map g (before ++ p ∷ after)) ≡ true
any-filter_map q g [] after p h = elim (Option-cases (g p)) [
  | inl e ↦ rw e (ground (arith, h, ap (Option_any q) e))
  | inr (y, e) ↦ rw e (ground (arith, h, ap (Option_any q) e))
]
any-filter_map q g (x ∷ before) after p h =
    let rest = any-filter_map q g before after p h in
    elim (Option-cases (g x)) [ inl e ↦ rw e rest | inr (y, e) ↦ rw e (ground (arith, rest)) ]

pub full_control-is_about :
    (p : EffectivePermission)
    → Option_any (is_about ("FULL_CONTROL" ∷ []) p) (full_control p)
      ≡ holds_all (effective_upper_bound p) mask_full_control
unfolding full_control
full_control-is_about p =
    rw (audited-mask p)
      (ground (arith, str_eq_iff p.path p.path, str_eq_iff p.identity.sid p.identity.sid))

abbrev pub write_ids : List String
write_ids = "FULL_CONTROL" ∷ "WRITE_ACCESS" ∷ "PARTIAL_WRITE" ∷ []

pub write_access-is_about :
    (p : EffectivePermission)
    → (Option_any (is_about write_ids p) (full_control p)
        || Option_any (is_about write_ids p) (write_access p))
      ≡ holds_some (effective_upper_bound p) content_write_bits
unfolding full_control write_access
write_access-is_about p = rw (audited-mask p) (
    ground (
      arith,
      str_eq_iff p.path p.path,
      str_eq_iff p.identity.sid p.identity.sid,
      holds_write_data (effective_upper_bound p) mask_full_control,
      holds_write_data (effective_upper_bound p) mask_modify,
      holds_write_data (effective_upper_bound p) mask_write,
      full_control_writes,
      modify_writes,
      write_writes,
    ))

any-two :
    (q : RiskFinding → Bool) (xs ys zs : List RiskFinding)
    → (any q xs || any q ys) ≡ true
    → any q (xs ++ (ys ++ zs)) ≡ true
any-two q xs ys zs h = ground (arith, h, any-append q xs (ys ++ zs), any-append q ys zs)

module _ (lower : String → String) (before after : List EffectivePermission)
    (p : EffectivePermission) where
  -- The report on results among which this one stands.
  abbrev pub report : List RiskFinding
  report = evaluate_all (with_defaults lower) (before ++ p ∷ after)

  -- Whatever one of the first two rules finds stands in the report.
  pub any-report :
      (q : RiskFinding → Bool)
      → (Option_any q (full_control p) || Option_any q (write_access p)) ≡ true
      → any q report ≡ true
  unfolding evaluate_all with_defaults full_control_rule write_access_rule
  any-report q h =
      any-two q (full_control_rule (before ++ p ∷ after)) (write_access_rule (before ++ p ∷ after))
        _
        (ground (
          arith,
          h,
          any-filter_map q full_control before after p,
          any-filter_map q write_access before after p,
        ))
