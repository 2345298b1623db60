-- ===== src/Risk/Registry.antt =====
-- crates/risk_engine/src/rules.rs: `RuleRegistry`, which runs all rules over all results, and
-- `RiskAccumulator`, which takes the results one at a time.
use stars_ad_permission_anal.Base.{List, [], ◌∷◌, ◌++◌, String, map, flat_map}
use stars_ad_permission_anal.Model.Effective.{EffectivePermission}
use stars_ad_permission_anal.Model.Risk.{RiskFinding}
use stars_ad_permission_anal.Risk.Rules.{
  Rule, full_control_rule, write_access_rule, admin_rights_rule, broad_group_write_rule,
  direct_user_ace_rule,
}
use stars_ad_permission_anal.Risk.Sensitive.{sensitive_path_rule}

pub record RuleRegistry : Type 0 where
  pub rules : List Rule

unfoldable pub new_registry : RuleRegistry
new_registry = record { rules = [] }

unfoldable pub register : RuleRegistry → Rule → RuleRegistry
register r rule = record { rules = r.rules ++ rule ∷ [] }

unfoldable pub with_defaults : (String → String) → RuleRegistry
unfolding new_registry register
with_defaults to_lowercase =
    let r = register new_registry full_control_rule in
    let r = register r write_access_rule in
    let r = register r admin_rights_rule in
    let r = register r broad_group_write_rule in
    let r = register r direct_user_ace_rule in register r (sensitive_path_rule to_lowercase)

unfoldable pub evaluate_all : RuleRegistry → List EffectivePermission → List RiskFinding
evaluate_all r context = flat_map (λ rule. rule context) r.rules

pub record RiskAccumulator : Type 0 where
  pub registry : RuleRegistry
  pub per_rule : List (List RiskFinding)

unfoldable pub accumulator : RuleRegistry → RiskAccumulator
accumulator r = record { registry = r; per_rule = map (λ _. []) r.rules }

-- The loop over `rules.iter().zip(per_rule.iter_mut())`.
unfoldable pub extend_each :
    List Rule → List EffectivePermission → List (List RiskFinding) → List (List RiskFinding)
extend_each [] context outs = outs
extend_each (rule ∷ rules) context [] = []
extend_each (rule ∷ rules) context (out ∷ outs) =
    (out ++ rule context) ∷ extend_each rules context outs

-- The result is handed back.
unfoldable pub add : RiskAccumulator → EffectivePermission → RiskAccumulator × EffectivePermission
unfolding extend_each
add acc perm =
    (record acc { per_rule = extend_each acc.registry.rules (perm ∷ []) acc.per_rule }, perm)

unfoldable pub finish : RiskAccumulator → List RiskFinding
finish acc = flat_map (λ found. found) acc.per_rule

-- A scan that adds its results one after the other.
unfoldable pub add_all : RiskAccumulator → List EffectivePermission → RiskAccumulator
unfolding add
add_all acc [] = acc
add_all acc (perm ∷ rest) = add_all (add acc perm).0 rest
