-- ===== src/Risk/Streaming.antt =====
-- crates/risk_engine/src/rules.rs: the findings of `RiskAccumulator` beside those of `evaluate_all`.
use stars_ad_permission_anal.Base.{
  List, [], ◌∷◌, ◌++◌, String, map, flat_map, filter_map-append, flat_map-append, filter-append,
  ◌≡◌, refl, ◌∙◌, sym, ap, All,
}
use mathlib.Core.List.{append_assoc, append-nil, map-append}
use stars_ad_permission_anal.Model.Effective.{EffectivePermission}
use stars_ad_permission_anal.Model.Risk.{RiskFinding}
use stars_ad_permission_anal.Risk.Rules.{
  Rule, full_control, write_access, admin_rights, broad_group_write, has_direct_ace,
  full_control_rule, write_access_rule, admin_rights_rule, broad_group_write_rule,
  direct_user_ace_rule,
}
use stars_ad_permission_anal.Risk.Sensitive.{is_sensitive, sensitive_path_rule}
use stars_ad_permission_anal.Risk.Registry.{
  RuleRegistry, with_defaults, evaluate_all, accumulator, extend_each, add, add_all, finish,
}

-- The rule judges every result on its own.
abbrev pub IsPointwise : Rule → Type 0
IsPointwise rule =
    (rule [] ≡ []) × ((xs ys : List EffectivePermission) → rule (xs ++ ys) ≡ rule xs ++ rule ys)

extend_each-append :
    (rules : List Rule) (xs ys : List EffectivePermission) (outs : List (List RiskFinding))
    → All IsPointwise rules
    → extend_each rules ys (extend_each rules xs outs) ≡ extend_each rules (xs ++ ys) outs
unfolding extend_each
extend_each-append [] xs ys outs h = refl
extend_each-append (rule ∷ rules) xs ys [] h = refl
extend_each-append (rule ∷ rules) xs ys (out ∷ outs) (h, hs) =
    rw (h.1 xs ys, append_assoc, extend_each-append rules xs ys outs hs) refl

extend_each-nil :
    (rules : List Rule) (outs : List (List RiskFinding))
    → All IsPointwise rules
    → extend_each rules [] outs ≡ outs
unfolding extend_each
extend_each-nil [] outs h = refl
extend_each-nil (rule ∷ rules) [] h = refl
extend_each-nil (rule ∷ rules) (out ∷ outs) (h, hs) =
    rw (h.0, append-nil, extend_each-nil rules outs hs) refl

-- Adding the results one by one extends every list by the rule's findings on all of them.
add_all-per_rule :
    (r : RuleRegistry) (outs : List (List RiskFinding)) (perms : List EffectivePermission)
    → All IsPointwise r.rules
    → (add_all (record { registry = r; per_rule = outs }) perms).per_rule
      ≡ extend_each r.rules perms outs
unfolding add_all add
add_all-per_rule r outs [] h = sym (extend_each-nil r.rules outs h)
add_all-per_rule r outs (perm ∷ rest) h =
    add_all-per_rule r (extend_each r.rules (perm ∷ []) outs) rest h
    ∙ extend_each-append r.rules (perm ∷ []) rest outs h

flat-extend_each :
    (rules : List Rule) (context : List EffectivePermission)
    → flat_map (λ found. found) (extend_each rules context (map (λ _. []) rules))
      ≡ flat_map (λ rule. rule context) rules
unfolding extend_each
flat-extend_each [] context = refl
flat-extend_each (rule ∷ rules) context =
    ap (λ (l : List RiskFinding). rule context ++ l) (flat-extend_each rules context)

full_control_rule-IsPointwise : IsPointwise full_control_rule
unfolding full_control_rule
full_control_rule-IsPointwise = (refl, filter_map-append full_control)

write_access_rule-IsPointwise : IsPointwise write_access_rule
unfolding write_access_rule
write_access_rule-IsPointwise = (refl, filter_map-append write_access)

admin_rights_rule-IsPointwise : IsPointwise admin_rights_rule
unfolding admin_rights_rule
admin_rights_rule-IsPointwise = (refl, flat_map-append admin_rights)

broad_group_write_rule-IsPointwise : IsPointwise broad_group_write_rule
unfolding broad_group_write_rule
broad_group_write_rule-IsPointwise = (refl, filter_map-append broad_group_write)

direct_user_ace_rule-IsPointwise : IsPointwise direct_user_ace_rule
unfolding direct_user_ace_rule
direct_user_ace_rule-IsPointwise =
    (refl, λ xs ys. rw (filter-append has_direct_ace xs ys, map-append) refl)

sensitive_path_rule-IsPointwise :
    (lower : String → String) → IsPointwise (sensitive_path_rule lower)
unfolding sensitive_path_rule
sensitive_path_rule-IsPointwise lower =
    (refl, λ xs ys. rw (filter-append (is_sensitive lower) xs ys, map-append) refl)

with_defaults-IsPointwise : (lower : String → String) → All IsPointwise (with_defaults lower).rules
unfolding with_defaults
with_defaults-IsPointwise lower = (
  full_control_rule-IsPointwise,
  (
    write_access_rule-IsPointwise,
    (
      admin_rights_rule-IsPointwise,
      (
        broad_group_write_rule-IsPointwise,
        (direct_user_ace_rule-IsPointwise, (sensitive_path_rule-IsPointwise lower, tt)),
      ),
    ),
  ),
)

-- For a registry whose rules judge every result on its own: results added one by one give the
-- findings that the registry gives for all of them at once, in the same order.
pub finish-add_all :
    (r : RuleRegistry) (perms : List EffectivePermission)
    → All IsPointwise r.rules
    → finish (add_all (accumulator r) perms) ≡ evaluate_all r perms
unfolding finish accumulator evaluate_all
finish-add_all r perms h =
    ap (flat_map (λ found. found)) (add_all-per_rule r (map (λ _. []) r.rules) perms h)
    ∙ flat-extend_each r.rules perms

-- The built-in rules have that property, so a scan that streams its results through the default
-- registry reports what the registry reports for the whole list, in the same order.
pub finish-with_defaults :
    (lower : String → String) (perms : List EffectivePermission)
    → finish (add_all (accumulator (with_defaults lower)) perms)
      ≡ evaluate_all (with_defaults lower) perms
finish-with_defaults lower perms =
    finish-add_all (with_defaults lower) perms (with_defaults-IsPointwise lower)
