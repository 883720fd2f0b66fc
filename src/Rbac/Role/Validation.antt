-- ===== src/Rbac/Role/Validation.antt =====
-- Role.Validate, RouteAction and HasRouteAccess of internal/rbac/role.go.
use mathlib.Core.Path.{◌≡◌, refl, ap, ◌∙◌}
use mathlib.Core.Logic.{◌≢◌, ◌↔◌, ◌⊎◌, inl, inr, ⊎_elim}
use mathlib.Core.Bool.{Bool, true, false, not}
use mathlib.Core.List.{List, [], ◌∷◌, ◌++◌, Memᴰ}
use mathlib.Core.List.Memᴰ
use native.Mathlib.Omega.{arith}
use grlx.Common.{
  Str, str, dec_str, has_prefix, has_prefix-append_drop, drop, size, Result, ok, err, ◌>>◌, All,
  Bool-cases, contains, contains_iff, Memᴰ-cons, if◌then◌else◌,
}
use grlx.Rbac.Error.{Error, unknown_action}
use grlx.Rbac.Role.{
  Action, action_admin, all_actions, is_valid_action, Rule, Role, route_actions, action_in,
  any_rule_has, has_route_access, validate_scope, validate_rules, validate,
}
use grlx.Rbac.Role.Access.{Concerns, any_rule_has-cons}

-- The scopes that a rule may have.
pub data WellScoped (scope : Str) : Type 0 where
  everything : (scope ≡ []) ⊎ (scope ≡ str "*") → WellScoped scope
  one_sprout : (id : Str) → id ≢ [] → scope ≡ str "sprout:" ++ id → WellScoped scope
  one_cohort : (name : Str) → name ≢ [] → scope ≡ str "cohort:" ++ name → WellScoped scope

append-eq_nil : (p s : Str) → p ++ s ≡ p → s ≡ []
append-eq_nil [] s e = e
append-eq_nil (c ∷ p) s e = append-eq_nil p s (cc)

nonempty_rest : (p scope : Str) → has_prefix p scope ≡ true → scope ≢ p → drop (size p) scope ≢ []
nonempty_rest p scope h ne e =
    ne (has_prefix-append_drop p scope h ∙ ap (λ s. p ++ s) e ∙ append_nil p)
  where
    append_nil : (q : Str) → q ++ [] ≡ q
    append_nil [] = refl
    append_nil (c ∷ q) = ap (λ s. c ∷ s) (append_nil q)

validate_scope_sound : (scope : Str) → validate_scope scope ≡ ok tt → WellScoped scope
unfolding validate_scope
validate_scope_sound scope h = elim (dec_str scope []) [
  | yes e ↦ everything (inl e)
  | no ne ↦ elim (dec_str scope (str "*")) [
    | yes e ↦ everything (inr e)
    | no ns ↦ elim (Bool-cases (has_prefix (str "sprout:") scope)) [
      | inl p ↦
          one_sprout _ (nonempty_rest (str "sprout:") scope p (ground arith))
            (has_prefix-append_drop (str "sprout:") scope p)
      | inr np ↦ elim (Bool-cases (has_prefix (str "cohort:") scope)) [
        | inl q ↦
            one_cohort _ (nonempty_rest (str "cohort:") scope q (ground arith))
              (has_prefix-append_drop (str "cohort:") scope q)
        | inr nq ↦ absurd (ground arith)
      ]
    ]
  ]
]

validate_scope_complete : (scope : Str) → WellScoped scope → validate_scope scope ≡ ok tt
unfolding validate_scope dec_str has_prefix
validate_scope_complete scope (everything (inl e)) = rw e
validate_scope_complete scope (everything (inr e)) = rw e
validate_scope_complete scope (one_sprout [] ne e) = absurd (ne refl)
validate_scope_complete scope (one_sprout (c ∷ id) ne e) = rw e
validate_scope_complete scope (one_cohort [] ne e) = absurd (ne refl)
validate_scope_complete scope (one_cohort (c ∷ name) ne e) = rw e

-- What `Validate` requires of a rule.
abbrev pub WellFormed : Rule → Type 0
WellFormed rule = Memᴰ rule.action all_actions × WellScoped rule.scope

validate_round :
    {P Q : Type 0} (a : Bool) (m rest : Result Error (Unit {0}))
    → (a ≡ true) ↔ P
    → (m ≡ ok tt) ↔ Q
    → ((if not a then err unknown_action else (m >> rest)) ≡ ok tt) ↔ ((P × Q) × (rest ≡ ok tt))
validate_round true (ok tt) rest p q = ground arith
validate_round true (err x) rest p q = ground arith
validate_round false m rest p q = ground arith

validate_rules_iff : (rules : List Rule) → (validate_rules rules ≡ ok tt) ↔ All WellFormed rules
unfolding validate_rules is_valid_action
validate_rules_iff [] = (λ _. tt, λ _. refl)
validate_rules_iff (rule ∷ rules) =
    let step =
      validate_round (contains all_actions rule.action) (validate_scope rule.scope)
        (validate_rules rules) (contains_iff all_actions rule.action)
        (validate_scope_sound rule.scope, validate_scope_complete rule.scope) in
    let ih = validate_rules_iff rules in
    (λ h. ((step.0 h).0, ih.0 (step.0 h).1), λ h. step.1 (h.0, ih.1 h.1))

-- `Validate` accepts a role exactly when it has a name and every rule names a known action and has
-- a scope that is empty, `*`, `sprout:` with an id or `cohort:` with a name.
validate_iff : (r : Role) → (validate r ≡ ok tt) ↔ ((r.name ≢ []) × All WellFormed r.rules)
unfolding validate
validate_iff r = ground (arith, validate_rules_iff r.rules)

-- The route names of a table.
abbrev pub routes : List (Str × Action) → List Str
routes [] = []
routes ((name, _) ∷ table) = name ∷ routes table

action_in_absent :
    (table : List (Str × Action)) (route_name : Str)
    → contains (routes table) route_name ≡ false
    → action_in table route_name ≡ action_admin
unfolding action_in contains
action_in_absent [] route_name h = refl
action_in_absent ((name, action) ∷ table) route_name h = elim (dec_str name route_name) [
  | yes e ↦ absurd (ground arith)
  | no ne ↦ ground (arith, action_in_absent table route_name)
]

any_rule_has_iff :
    (rules : List Rule) (action : Action)
    → (any_rule_has rules action ≡ true) ↔ ((rule : Rule) × Memᴰ rule rules × Concerns rule action)
unfolding any_rule_has
any_rule_has_iff [] action = (λ e. absurd (cc), λ w. absurd (Memᴰ.not-nil w.1))
any_rule_has_iff (rule ∷ rules) action =
    let step = any_rule_has-cons rule rules action in
    let ih = any_rule_has_iff rules action in
    (
      λ h.
          ⊎_elim (λ c. (rule, Memᴰ.head refl, c))
            (λ k. let (q, m, c) = ih.0 k in (q, Memᴰ.tail m, c)) (step.0 h),
      λ (q, m, c). step.1 (
          ⊎_elim (λ e. inl (rw (← e) c)) (λ n. inr (ih.1 (q, n, c)))
            ((Memᴰ-cons q rule rules).0 m)),
    )

-- A route that the table of routes lacks is open to exactly the roles with an admin rule.
has_route_access_unlisted :
    (r : Role) (route_name : Str)
    → contains (routes route_actions) route_name ≡ false
    → (has_route_access r route_name ≡ true)
      ↔ ((rule : Rule) × Memᴰ rule r.rules × (rule.action ≡ action_admin))
unfolding has_route_access
has_route_access_unlisted r route_name h = rw (action_in_absent route_actions route_name h) (
    let all = any_rule_has_iff r.rules action_admin in
    (
      λ g. let (q, m, c) = all.0 g in (q, m, ⊎_elim (λ e. e) (λ e. e) c),
      λ (q, m, c). all.1 (q, m, inl c),
    ))
