-- ===== src/Rbac/Policy/Clean.antt =====
-- When `ValidatePolicy` of internal/rbac/policy.go has nothing to warn of.
use mathlib.Core.Path.{◌≡◌, ◌∙◌, subst, sym}
use mathlib.Core.Logic.{◌≢◌, ◌↔◌}
use mathlib.Core.Option.{some}
use mathlib.Core.List.{[], ◌++◌, map, Memᴰ}
use grlx.Common.{Str, str, ok}
use grlx.Common.Table.{Table}
use grlx.Rbac.Role.{Rule, Role}
use grlx.Rbac.Cohort.{Cohort}
use grlx.Rbac.Registry.{dec_key, cohort_key}
use grlx.Rbac.Stores.{role_key, user_key, UserRoleRow, role_rows, list_roles, all_users}
use grlx.Rbac.Policy.{
  collect, warn_user, warn_rule, with_role, warn_empty, warn_unused, warn_cohorts, warn_all,
  validate_policy,
}
use grlx.Rbac.Policy.Warnings.{
  collect-nil, collect-map_nil, mem-role_rows, find-role_name, mem-all_users, find-pubkey, four_nil,
}
use grlx.Rbac.Policy.Tests.{
  warn_user-nil, warn_rule-nil, roles-nil, warn_empty-nil, warn_unused-nil,
}

module _ (rt : Table dec_key role_key) (ut : Table dec_key user_key) (ct : Table dec_key cohort_key)
    (roles : rt.State) (users : ut.State) (cohorts : ct.State)
    (role_tenant user_tenant cohort_tenant : Str) where
  -- Every user has a role that exists.
  abbrev pub AllHaveRoles : Type 0
  AllHaveRoles =
      (pubkey : Str) (row : UserRoleRow)
      → ut.find users (user_tenant, pubkey) ≡ some row
      → (r : Role) × (rt.find roles (role_tenant, row.role_name) ≡ some r)

  -- Every cohort that a rule of a role names exists.
  abbrev pub AllHaveCohorts : Type 0
  AllHaveCohorts =
      (name : Str) (r : Role) (rule : Rule) (cohort : Str)
      → rt.find roles (role_tenant, name) ≡ some r
      → Memᴰ rule r.rules
      → rule.scope ≡ str "cohort:" ++ cohort
      → (c : Cohort) × (ct.find cohorts (cohort_tenant, cohort) ≡ some c)

  -- Every role has a rule, and a user.
  abbrev pub AllHaveRules : Type 0
  AllHaveRules = (name : Str) (r : Role) → rt.find roles (role_tenant, name) ≡ some r → r.rules ≢ []

  abbrev pub AllHaveUsers : Type 0
  AllHaveUsers =
      (name : Str) (r : Role)
      → rt.find roles (role_tenant, name) ≡ some r
      → (pubkey : Str) × (row : UserRoleRow) × (ut.find users (user_tenant, pubkey) ≡ some row)
        × (row.role_name ≡ name)

  users-nil :
      (collect (warn_user rt ut ct roles users cohorts role_tenant) (all_users ut user_tenant users)
        ≡ ok [])
      ↔ AllHaveRoles
  users-nil =
      let (to, from) =
        collect-nil (warn_user rt ut ct roles users cohorts role_tenant)
          (all_users ut user_tenant users) in
      (
        λ h pubkey row found.
            let same = find-pubkey ut user_tenant users pubkey row found in
            (warn_user-nil rt ut ct roles users cohorts role_tenant user_tenant cohort_tenant row).0
              (to h row (
                (mem-all_users ut user_tenant users row).1
                  (subst (λ x. ut.find users (user_tenant, x) ≡ some row) (sym same) found))),
        λ h. from (λ row m.
            (warn_user-nil rt ut ct roles users cohorts role_tenant user_tenant cohort_tenant row).1
              (h row.pubkey row ((mem-all_users ut user_tenant users row).0 m))),
      )

  cohorts-nil :
      (warn_cohorts rt ut ct roles users cohorts role_tenant (some cohort_tenant) ≡ ok [])
      ↔ AllHaveCohorts
  unfolding warn_cohorts
  cohorts-nil =
      let (to, from) =
        roles-nil rt ut ct roles users cohorts role_tenant user_tenant cohort_tenant
          (λ name r. collect (warn_rule rt ut ct roles users cohorts cohort_tenant name) r.rules) in
      (
        λ h name r rule cohort found m e.
            (warn_rule-nil rt ut ct roles users cohorts role_tenant user_tenant cohort_tenant name
                rule).0
              ((collect-nil (warn_rule rt ut ct roles users cohorts cohort_tenant name) r.rules).0
                (to h name r found) rule m)
              cohort e,
        λ h. from (λ name r found.
            (collect-nil (warn_rule rt ut ct roles users cohorts cohort_tenant name) r.rules).1
              (λ rule m.
                (warn_rule-nil rt ut ct roles users cohorts role_tenant user_tenant cohort_tenant
                    name rule).1
                  (λ cohort e. h name r rule cohort found m e))),
      )

  empties-nil :
      (collect
          (λ name.
            with_role rt ut ct roles users cohorts role_tenant name
              (warn_empty rt ut ct roles users cohorts name))
          (list_roles rt role_tenant roles)
        ≡ ok [])
      ↔ AllHaveRules
  empties-nil =
      let (to, from) =
        roles-nil rt ut ct roles users cohorts role_tenant user_tenant cohort_tenant
          (warn_empty rt ut ct roles users cohorts) in
      (
        λ h name r found.
            (warn_empty-nil rt ut ct roles users cohorts role_tenant user_tenant cohort_tenant name
                r).0
              (to h name r found),
        λ h. from (λ name r found.
            (warn_empty-nil rt ut ct roles users cohorts role_tenant user_tenant cohort_tenant name
                r).1
              (h name r found)),
      )

  unused-nil :
      (collect
          (warn_unused rt ut ct roles users cohorts
            (map UserRoleRow.role_name (all_users ut user_tenant users)))
          (list_roles rt role_tenant roles)
        ≡ ok [])
      ↔ AllHaveUsers
  unfolding list_roles
  unused-nil =
      let referenced = map UserRoleRow.role_name (all_users ut user_tenant users) in
      let (to, from) =
        collect-map_nil (warn_unused rt ut ct roles users cohorts referenced) Role.name
          (role_rows rt role_tenant roles) in
      (
        λ h name r found.
            let e = find-role_name rt role_tenant roles name r found in
            let m =
              (mem-role_rows rt role_tenant roles r).1
                (subst (λ n. rt.find roles (role_tenant, n) ≡ some r) (sym e) found) in
            let (pubkey, row, at, same) =
              (warn_unused-nil rt ut ct roles users cohorts role_tenant user_tenant cohort_tenant
                  r.name).0
                (to h r m) in
            (pubkey, row, at, same ∙ e),
        λ h. from (λ r m.
            (warn_unused-nil rt ut ct roles users cohorts role_tenant user_tenant cohort_tenant
                r.name).1
              (h r.name r ((mem-role_rows rt role_tenant roles r).0 m))),
      )

-- On a policy with its three stores `ValidatePolicy` ends without a fault and without a warning
-- exactly when every user has a role that exists, every cohort that the scope of a rule
-- names exists, every role has a rule, and every role has a user.
pub validate_policy_iff :
    (rt : Table dec_key role_key) (ut : Table dec_key user_key) (ct : Table dec_key cohort_key)
    (roles : rt.State) (users : ut.State) (cohorts : ct.State)
    (role_tenant user_tenant cohort_tenant : Str)
    → (validate_policy rt ut ct roles users cohorts (record {
      roles = some role_tenant;
      users = some user_tenant;
      cohorts = some cohort_tenant;
    })
        ≡ ok [])
      ↔ (AllHaveRoles rt ut ct roles users cohorts role_tenant user_tenant cohort_tenant
          × AllHaveCohorts rt ut ct roles users cohorts role_tenant user_tenant cohort_tenant
          × AllHaveRules rt ut ct roles users cohorts role_tenant user_tenant cohort_tenant
          × AllHaveUsers rt ut ct roles users cohorts role_tenant user_tenant cohort_tenant)
unfolding validate_policy warn_all
validate_policy_iff rt ut ct roles users cohorts role_tenant user_tenant cohort_tenant =
    let (a, a') = users-nil rt ut ct roles users cohorts role_tenant user_tenant cohort_tenant in
    let (b, b') = cohorts-nil rt ut ct roles users cohorts role_tenant user_tenant cohort_tenant in
    let (c, c') = empties-nil rt ut ct roles users cohorts role_tenant user_tenant cohort_tenant in
    let (d, d') = unused-nil rt ut ct roles users cohorts role_tenant user_tenant cohort_tenant in
    let (to, from) =
      four_nil
        (collect (warn_user rt ut ct roles users cohorts role_tenant)
          (all_users ut user_tenant users))
        (warn_cohorts rt ut ct roles users cohorts role_tenant (some cohort_tenant))
        (collect
          (λ name.
            with_role rt ut ct roles users cohorts role_tenant name
              (warn_empty rt ut ct roles users cohorts name))
          (list_roles rt role_tenant roles))
        (collect
          (warn_unused rt ut ct roles users cohorts
            (map UserRoleRow.role_name (all_users ut user_tenant users)))
          (list_roles rt role_tenant roles)) in
    (
      λ h. let (w, x, y, z) = to h in (a w, b x, c y, d z),
      λ (w, x, y, z). from (a' w, b' x, c' y, d' z),
    )
