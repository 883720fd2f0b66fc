-- ===== src/Rbac/Role/Access.antt =====
-- What the checks of internal/rbac/role.go grant: HasAction, HasScopedAccess, HasScopedAccessMulti
-- and ScopeFilter, against a description of the scopes that does not run them.
use mathlib.Core.Path.{◌≡◌, refl, sym, ◌∙◌, ap, subst}
use mathlib.Core.Logic.{◌↔◌, ◌⊎◌, inl, inr, ⊎_elim}
use mathlib.Core.Bool.{Bool, true, false, not, ◌&&◌, ◌||◌, false≢true}
use mathlib.Core.Option.{Option, none, some}
use mathlib.Core.List.{List, [], ◌∷◌, ◌++◌, Memᴰ}
use mathlib.Core.List.Memᴰ
use native.Mathlib.Omega.{arith}
use grlx.Common.{
  Str, str, dec_str, ◌==◌, has_prefix, drop, size, Result, ok, err, All, Bool-cases,
  has_prefix-append_drop, contains_iff, mem-keep, keep-All, keep_none, ==_refl, not_true, All-mem,
  All-of_mem, if◌then◌else◌, Memᴰ-cons,
}
use grlx.Rbac.Error.{Error}
use grlx.Rbac.Role.{
  Action, action_admin, Rule, Role, Resolver, is_member, resolves_to, scope_matches, any_rule_has,
  has_action, any_rule_grants, has_scoped_access, has_scoped_access_multi, scope_filter,
}

-- The sprouts that a scope covers.
pub data Covers (scope sprout_id : Str) (resolver : Option Resolver) : Type 0 where
  everything : (scope ≡ []) ⊎ (scope ≡ str "*") → Covers scope sprout_id resolver
  this_sprout : scope ≡ str "sprout:" ++ sprout_id → Covers scope sprout_id resolver
  by_cohort :
      (cohort_name : Str) (f : Resolver) (members : List Str)
      → scope ≡ str "cohort:" ++ cohort_name
      → resolver ≡ some f
      → f cohort_name ≡ ok members
      → Memᴰ sprout_id members
      → Covers scope sprout_id resolver

resolves_to_sound :
    (resolver : Option Resolver) (cohort_name sprout_id : Str)
    → resolves_to resolver cohort_name sprout_id ≡ true
    → (f : Resolver) × (members : List Str) × (resolver ≡ some f)
      × (f cohort_name ≡ ok members)
      × Memᴰ sprout_id members
resolves_to_sound none cohort_name sprout_id h = cc
resolves_to_sound (some f) cohort_name sprout_id h = go (f cohort_name) refl h
  where
    go :
        (m : Result Error (List Str))
        → f cohort_name ≡ m
        → is_member m sprout_id ≡ true
        → (g : Resolver) × (members : List Str) × (some f ≡ some g)
          × (g cohort_name ≡ ok members)
          × Memᴰ sprout_id members
    go (ok members) e h = (f, members, refl, e, (contains_iff members sprout_id).0 h)
    go (err x) e h = cc

-- A scope with the prefix names what follows the prefix.
split_prefix :
    (p scope rest : Str)
    → has_prefix p scope ≡ true
    → drop (size p) scope ≡ rest
    → scope ≡ p ++ rest
split_prefix p scope rest h e = has_prefix-append_drop p scope h ∙ ap (λ s. p ++ s) e

scope_matches_sound :
    (scope sprout_id : Str) (resolver : Option Resolver)
    → scope_matches scope sprout_id resolver ≡ true
    → Covers scope sprout_id resolver
unfolding scope_matches
scope_matches_sound scope sprout_id resolver h = elim (dec_str scope []) [
  | yes e ↦ everything (inl e)
  | no ne ↦ elim (dec_str scope (str "*")) [
    | yes e ↦ everything (inr e)
    | no ns ↦ elim (Bool-cases (has_prefix (str "sprout:") scope)) [
      | inl p ↦ this_sprout (split_prefix (str "sprout:") scope sprout_id p (ground arith))
      | inr np ↦ elim (Bool-cases (has_prefix (str "cohort:") scope)) [
        | inl q ↦
            let name = drop (size (str "cohort:")) scope in
            let (f, members, e, answer, m) =
              resolves_to_sound resolver name sprout_id (ground arith) in
            by_cohort name f members (split_prefix (str "cohort:") scope name q refl) e answer m
        | inr nq ↦ absurd (ground arith)
      ]
    ]
  ]
]

scope_matches_complete :
    (scope sprout_id : Str) (resolver : Option Resolver)
    → Covers scope sprout_id resolver
    → scope_matches scope sprout_id resolver ≡ true
unfolding scope_matches dec_str has_prefix
scope_matches_complete scope sprout_id resolver (everything (inl e)) = rw e
scope_matches_complete scope sprout_id resolver (everything (inr e)) = rw e
scope_matches_complete scope sprout_id resolver (this_sprout e) = rw e (==_refl sprout_id)
scope_matches_complete scope sprout_id resolver (by_cohort cohort_name f members e r answer m) =
    rw (e, r, answer) ((contains_iff members sprout_id).1 m)

pub scope_matches_iff :
    (scope sprout_id : Str) (resolver : Option Resolver)
    → (scope_matches scope sprout_id resolver ≡ true) ↔ Covers scope sprout_id resolver
scope_matches_iff scope sprout_id resolver =
    (scope_matches_sound scope sprout_id resolver, scope_matches_complete scope sprout_id resolver)

-- A rule is about an action if it names that action, or admin.
abbrev pub Concerns : Rule → Action → Type 0
Concerns rule action = (rule.action ≡ action_admin) ⊎ (rule.action ≡ action)

eq_or_iff : (x y z : Str) → (((x == y) || (x == z)) ≡ true) ↔ ((x ≡ y) ⊎ (x ≡ z))
eq_or_iff x y z = ground arith

-- The tests of one round, over any tests that decide `P` and `Q`.
round_iff :
    {P Q : Type 0} (a b m rest : Bool)
    → ((a || b) ≡ true) ↔ P
    → (m ≡ true) ↔ Q
    → ((if not a && not b then rest else if m then true else rest) ≡ true)
      ↔ ((P × Q) ⊎ (rest ≡ true))
round_iff a b m rest p q = ground arith

has_round_iff :
    {P : Type 0} (a b rest : Bool)
    → ((a || b) ≡ true) ↔ P
    → ((if a then true else if b then true else rest) ≡ true) ↔ (P ⊎ (rest ≡ true))
has_round_iff a b rest p = ground arith

-- One round of the loop: the first rule grants, or the others do.
any_rule_grants-cons :
    (rule : Rule) (rules : List Rule) (action : Action) (sprout_id : Str)
    (resolver : Option Resolver)
    → (any_rule_grants (rule ∷ rules) action sprout_id resolver ≡ true) ↔ (
        (Concerns rule action × Covers rule.scope sprout_id resolver)
        ⊎ (any_rule_grants rules action sprout_id resolver ≡ true))
unfolding any_rule_grants
any_rule_grants-cons rule rules action sprout_id resolver =
    round_iff _ _ _ _ (eq_or_iff rule.action action_admin action)
      (scope_matches_iff rule.scope sprout_id resolver)

pub any_rule_has-cons :
    (rule : Rule) (rules : List Rule) (action : Action)
    → (any_rule_has (rule ∷ rules) action ≡ true)
      ↔ (Concerns rule action ⊎ (any_rule_has rules action ≡ true))
unfolding any_rule_has
any_rule_has-cons rule rules action =
    has_round_iff _ _ _ (eq_or_iff rule.action action_admin action)

any_rule_grants_iff :
    (rules : List Rule) (action : Action) (sprout_id : Str) (resolver : Option Resolver)
    → (any_rule_grants rules action sprout_id resolver ≡ true) ↔ (
        (rule : Rule) × Memᴰ rule rules
        × Concerns rule action
        × Covers rule.scope sprout_id resolver)
unfolding any_rule_grants
any_rule_grants_iff [] action sprout_id resolver = (λ e. cc, λ w. absurd (Memᴰ.not-nil w.1))
any_rule_grants_iff (rule ∷ rules) action sprout_id resolver =
    let step = any_rule_grants-cons rule rules action sprout_id resolver in
    let ih = any_rule_grants_iff rules action sprout_id resolver in
    (
      λ h.
          ⊎_elim (λ w. (rule, Memᴰ.head refl, w.0, w.1))
            (λ k. let (q, m, c, v) = ih.0 k in (q, Memᴰ.tail m, c, v)) (step.0 h),
      λ (q, m, c, v). step.1 (
          ⊎_elim
            (λ e. inl (
              subst (λ x. Concerns x action) e c,
              subst (λ (x : Rule). Covers x.scope sprout_id resolver) e v,
            ))
            (λ n. inr (ih.1 (q, n, c, v))) ((Memᴰ-cons q rule rules).0 m)),
    )

-- A request is granted exactly when some rule of the role is about the action, which it names or which it
-- covers as an admin rule, and has a scope that covers the sprout. The scope of an admin rule counts, too.
pub has_scoped_access_iff :
    (r : Role) (action : Action) (sprout_id : Str) (resolver : Option Resolver)
    → (has_scoped_access r action sprout_id resolver ≡ true) ↔ (
        (rule : Rule) × Memᴰ rule r.rules
        × Concerns rule action
        × Covers rule.scope sprout_id resolver)
unfolding has_scoped_access
has_scoped_access_iff r action sprout_id resolver =
    any_rule_grants_iff r.rules action sprout_id resolver

multi→All :
    (r : Role) (action : Action) (sprout_ids : List Str) (resolver : Option Resolver)
    → has_scoped_access_multi r action sprout_ids resolver ≡ true
    → All (λ id. has_scoped_access r action id resolver ≡ true) sprout_ids
unfolding has_scoped_access_multi
multi→All r action [] resolver h = tt
multi→All r action (id ∷ sprout_ids) resolver h =
    (ground arith, multi→All r action sprout_ids resolver (ground arith))

filter→multi :
    (r : Role) (action : Action) (sprout_ids : List Str) (resolver : Option Resolver)
    → ((id : Str) → Memᴰ id sprout_ids → has_scoped_access r action id resolver ≡ true)
    → has_scoped_access_multi r action sprout_ids resolver ≡ true
unfolding has_scoped_access_multi
filter→multi r action [] resolver h = refl
filter→multi r action (id ∷ sprout_ids) resolver h =
    rw (h id (Memᴰ.head refl))
      (filter→multi r action sprout_ids resolver (λ j m. h j (Memᴰ.tail m)))

-- Some rule of the role is about the action and has a scope that covers the sprout.
abbrev pub IsGranted : Role → Action → Option Resolver → Str → Type 0
IsGranted r action resolver sprout_id =
    (rule : Rule) × Memᴰ rule r.rules × Concerns rule action × Covers rule.scope sprout_id resolver

-- `HasScopedAccessMulti` grants a batch exactly when for each of its sprouts some rule of the role is
-- about the action and has a scope that covers the sprout, and exactly when `ScopeFilter` drops none of
-- them. `ScopeFilter` keeps exactly the sprouts of the batch that such a rule covers.
pub has_scoped_access_multi-scope_filter :
    (r : Role) (action : Action) (sprout_ids : List Str) (resolver : Option Resolver)
    → ((has_scoped_access_multi r action sprout_ids resolver ≡ true)
        ↔ All (IsGranted r action resolver) sprout_ids)
      × ((has_scoped_access_multi r action sprout_ids resolver ≡ true)
          ↔ (scope_filter r action sprout_ids resolver ≡ sprout_ids))
      × ((id : Str)
          → Memᴰ id (scope_filter r action sprout_ids resolver)
            ↔ (Memᴰ id sprout_ids × IsGranted r action resolver id))
unfolding scope_filter
has_scoped_access_multi-scope_filter r action sprout_ids resolver =
    let granted = λ (id : Str). has_scoped_access r action id resolver in
    let kept = λ (id : Str). mem-keep granted id sprout_ids in
    let meaning = λ (id : Str). has_scoped_access_iff r action id resolver in
    (
      (
        λ h. All-of_mem (IsGranted r action resolver) sprout_ids (λ id m. (meaning id).0 (
            All-mem (λ x. granted x ≡ true) id sprout_ids (multi→All r action sprout_ids resolver h)
              m)),
        λ all.
            filter→multi r action sprout_ids resolver
              (λ id m. (meaning id).1 (All-mem (IsGranted r action resolver) id sprout_ids all m)),
      ),
      (
        λ h. keep-All granted sprout_ids (multi→All r action sprout_ids resolver h),
        λ e.
            filter→multi r action sprout_ids resolver
              (λ id m. ((kept id).0 (subst (Memᴰ id) (sym e) m)).1),
      ),
      λ id. (
        λ m. (((kept id).0 m).0, (meaning id).0 ((kept id).0 m).1),
        λ w. (kept id).1 (w.0, (meaning id).1 w.1),
      ),
    )

any_rule_has_of_grants :
    (rules : List Rule) (action : Action) (sprout_id : Str) (resolver : Option Resolver)
    → any_rule_grants rules action sprout_id resolver ≡ true
    → any_rule_has rules action ≡ true
unfolding any_rule_grants
any_rule_has_of_grants [] action sprout_id resolver h = cc
any_rule_has_of_grants (rule ∷ rules) action sprout_id resolver h =
    (any_rule_has-cons rule rules action).1 (
      ⊎_elim (λ g. inl g.0)
        (λ rest. inr (any_rule_has_of_grants rules action sprout_id resolver rest))
        ((any_rule_grants-cons rule rules action sprout_id resolver).0 h))

-- A role that fails the check of the action alone (`HasAction`) is refused for every sprout, and so
-- `ScopeFilter` leaves it nothing.
scope_filter_of_no_action :
    (r : Role) (action : Action) (sprout_ids : List Str) (resolver : Option Resolver)
    → has_action r action ≡ false
    → ((id : Str) → has_scoped_access r action id resolver ≡ false)
      × (scope_filter r action sprout_ids resolver ≡ [])
unfolding has_scoped_access has_action scope_filter
scope_filter_of_no_action r action sprout_ids resolver h =
    let refused = λ (id : Str).
      not_true _ (λ g. false≢true (sym h ∙ any_rule_has_of_grants r.rules action id resolver g)) in
    (refused, keep_none _ sprout_ids refused)
