-- ===== src/Rbac/Policy/Tests.antt =====
-- The tests of `ValidatePolicy` of internal/rbac/policy.go on one user, one rule and one role.
use mathlib.Core.Path.{◌≡◌, refl, ap, ◌∙◌, subst, sym}
use mathlib.Core.Logic.{◌≢◌, ◌↔◌, inl, inr}
use mathlib.Core.Bool.{true}
use mathlib.Core.Option.{some}
use mathlib.Core.List.{List, [], ◌∷◌, ◌++◌, map}
use native.Mathlib.Omega.{arith}
use grlx.Common.{
  Str, str, has_prefix, drop, size, Result, ok, Bool-cases, Option-cases, has_prefix-append,
  has_prefix-append_drop, drop-append,
}
use grlx.Common.Table.{Table}
use grlx.Rbac.Error.{Error}
use grlx.Rbac.Role.{Rule, Role}
use grlx.Rbac.Cohort.{Cohort}
use grlx.Rbac.Registry.{dec_key, cohort_key}
use grlx.Rbac.Stores.{role_key, user_key, UserRoleRow, get_role, role_rows, list_roles, all_users}
use grlx.Rbac.Policy.{
  PolicyWarning, orphan_cohort_ref, empty_role, collect, warn_user, warn_rule, with_role,
  warn_empty, warn_unused,
}
use grlx.Rbac.Policy.Warnings.{
  collect-map_nil, mem-role_rows, find-role_name, mem-all_users, find-pubkey, contains-map_iff,
}

module _ (rt : Table dec_key role_key) (ut : Table dec_key user_key) (ct : Table dec_key cohort_key)
    (roles : rt.State) (users : ut.State) (cohorts : ct.State)
    (role_tenant user_tenant cohort_tenant : Str) where
  pub warn_user-nil :
      (row : UserRoleRow)
      → (warn_user rt ut ct roles users cohorts role_tenant row ≡ ok [])
        ↔ ((r : Role) × (rt.find roles (role_tenant, row.role_name) ≡ some r))
  unfolding warn_user get_role
  warn_user-nil row = elim (Option-cases (rt.find roles (role_tenant, row.role_name))) [
    | inl absent ↦ (λ h. absurd (ground arith), λ (r, found). absurd (cc))
    | inr (r, found) ↦ (λ h. (r, found), λ k. ground arith)
  ]

  warn_rule-found :
      (name : Str) (rule : Rule)
      → warn_rule rt ut ct roles users cohorts cohort_tenant name rule ≡ ok []
      → has_prefix (str "cohort:") rule.scope ≡ true
      → (c : Cohort) × (ct.find cohorts (cohort_tenant, drop (size (str "cohort:")) rule.scope)
          ≡ some c)
  unfolding warn_rule
  warn_rule-found name rule h named =
      elim (Option-cases
        (ct.find cohorts (cohort_tenant, drop (size (str "cohort:")) rule.scope))) [
          | inr k ↦ k
          | inl absent ↦ absurd (
              let e : warn_rule rt ut ct roles users cohorts cohort_tenant name rule
                  ≡ ok (orphan_cohort_ref name (drop (size (str "cohort:")) rule.scope) ∷ []) =
                rw (warn_rule, named, absent) refl in
              cc)
        ]

  pub warn_rule-nil :
      (name : Str) (rule : Rule)
      → (warn_rule rt ut ct roles users cohorts cohort_tenant name rule ≡ ok []) ↔ (
          (cohort : Str)
          → rule.scope ≡ str "cohort:" ++ cohort
          → (c : Cohort) × (ct.find cohorts (cohort_tenant, cohort) ≡ some c))
  unfolding warn_rule
  warn_rule-nil name rule = (
    λ h cohort e.
        let same : drop (size (str "cohort:")) rule.scope ≡ cohort =
          ap (drop (size (str "cohort:"))) e ∙ drop-append (str "cohort:") cohort in
        let found =
          warn_rule-found name rule h
            (ap (has_prefix (str "cohort:")) e ∙ has_prefix-append (str "cohort:") cohort) in
        subst (λ x. (c : Cohort) × (ct.find cohorts (cohort_tenant, x) ≡ some c)) same found,
    λ h. elim (Bool-cases (has_prefix (str "cohort:") rule.scope)) [
      | inr other ↦ rw (warn_rule, other) refl
      | inl named ↦
          let (c, found) =
            h (drop (size (str "cohort:")) rule.scope)
              (has_prefix-append_drop (str "cohort:") rule.scope named) in
          rw (warn_rule, named, found) refl
    ],
  )

  with_role-found :
      (name : Str) (r : Role) (next : Role → Result Error (List PolicyWarning))
      → rt.find roles (role_tenant, name) ≡ some r
      → next r ≡ with_role rt ut ct roles users cohorts role_tenant name next
  unfolding with_role get_role
  with_role-found name r next found = rw (with_role, found) refl

  -- A loop over the names of the roles, on each role.
  pub roles-nil :
      (next : Str → Role → Result Error (List PolicyWarning))
      → (collect
            (λ name. with_role rt ut ct roles users cohorts role_tenant name (next name))
            (list_roles rt role_tenant roles)
          ≡ ok [])
        ↔ ((name : Str) (r : Role)
            → rt.find roles (role_tenant, name) ≡ some r
            → next name r ≡ ok [])
  unfolding list_roles
  roles-nil next =
      let (to, from) =
        collect-map_nil
          (λ name. with_role rt ut ct roles users cohorts role_tenant name (next name)) Role.name
          (role_rows rt role_tenant roles) in
      (
        λ h name r found.
            let e = find-role_name rt role_tenant roles name r found in
            let found' = subst (λ n. rt.find roles (role_tenant, n) ≡ some r) (sym e) found in
            let w = to h r ((mem-role_rows rt role_tenant roles r).1 found') in
            subst (λ n. next n r ≡ ok []) e (with_role-found r.name r (next r.name) found' ∙ w),
        λ h. from (λ r m.
            let found = (mem-role_rows rt role_tenant roles r).0 m in
            sym (with_role-found r.name r (next r.name) found) ∙ h r.name r found),
      )

  pub warn_empty-nil :
      (name : Str) (r : Role)
      → (warn_empty rt ut ct roles users cohorts name r ≡ ok []) ↔ (r.rules ≢ [])
  unfolding warn_empty
  warn_empty-nil name r = go r.rules refl
    where
      go :
          (rules : List Rule)
          → r.rules ≡ rules
          → (warn_empty rt ut ct roles users cohorts name r ≡ ok []) ↔ (r.rules ≢ [])
      go [] e = (λ h. absurd (let k = warned e in cc), λ ne. absurd (ne e))
        where
          warned :
              r.rules ≡ []
              → warn_empty rt ut ct roles users cohorts name r ≡ ok (empty_role name ∷ [])
          warned e = rw (warn_empty, e) refl
      go (rule ∷ rules) e = (λ h k. cc, λ ne. rw (warn_empty, e) refl)

  pub warn_unused-nil :
      (name : Str)
      → (warn_unused rt ut ct roles users cohorts
            (map UserRoleRow.role_name (all_users ut user_tenant users))
            name
          ≡ ok [])
        ↔ ((pubkey : Str) × (row : UserRoleRow) × (ut.find users (user_tenant, pubkey) ≡ some row)
            × (row.role_name ≡ name))
  unfolding warn_unused
  warn_unused-nil name =
      let (to, from) =
        contains-map_iff UserRoleRow.role_name (all_users ut user_tenant users) name in
      (
        λ h.
            let (row, m, e) = to (ground arith) in
            (row.pubkey, row, (mem-all_users ut user_tenant users row).0 m, e),
        λ (pubkey, row, found, e).
            let same = find-pubkey ut user_tenant users pubkey row found in
            let m =
              (mem-all_users ut user_tenant users row).1
                (subst (λ x. ut.find users (user_tenant, x) ≡ some row) (sym same) found) in
            let k = from (row, m, e) in ground arith,
      )
