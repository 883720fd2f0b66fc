-- ===== src/Rbac/Policy.antt =====
-- internal/rbac/policy.go: the check of a policy for misconfigurations, and what a user may do.
pub mod Warnings
pub mod Tests
pub mod Clean
use Prim.Native.Nat.{ℕ, zero, suc, ◌-◌}
use mathlib.Core.Bool.{Bool, true, false, ◌||◌, not}
use mathlib.Core.Option.{Option, none, some}
use mathlib.Core.List.{List, [], ◌∷◌, ◌++◌, map}
use grlx.Common.{
  Str, str, dec_str, ◌==◌, has_prefix, drop, size, leb, contains, Result, ok, err, ◌>>=◌,
  if◌then◌else◌,
}
use grlx.Common.Sort.{sort_strings}
use grlx.Common.Table.{Table}
use grlx.Rbac.Error.{Error, nil_dereference}
use grlx.Rbac.Role.{Action, action_admin, Rule, Role}
use grlx.Rbac.Registry.{dec_key, cohort_key}
use grlx.Rbac.Stores.{role_key, user_key, UserRoleRow, get_role, list_roles, role_name, all_users}

-- The first bytes of a text.
abbrev pub prefix : ℕ → Str → Str
prefix zero s = []
prefix (suc n) [] = []
prefix (suc n) (c ∷ s) = c ∷ prefix n s

-- `truncatePubkey`
unfoldable pub truncate_pubkey : Str → Str
truncate_pubkey pk =
    if leb (size pk) 12 then pk else prefix 6 pk ++ str "..." ++ drop (size pk - 6) pk

-- `PolicyWarning`: a constructor for each kind, with the names in its message; that of an orphan role
-- names no pubkey where it is about the caller.
pub data PolicyWarning : Type 0 where
  orphan_role_ref orphan_cohort_ref : Str → Str → PolicyWarning
  empty_role unused_role : Str → PolicyWarning
  no_policy no_role : PolicyWarning

-- `Policy`, with the tenants of its stores, which may be nil.
pub record Policy : Type 0 where
  pub roles : Option Str
  pub users : Option Str
  pub cohorts : Option Str

-- `ActionSummary`
pub record ActionSummary : Type 0 where
  pub action : Action
  pub scope : Str

-- `PermissionSummary`
pub record PermissionSummary : Type 0 where
  pub pubkey : Str
  pub role_name : Str
  pub is_admin : Bool
  pub actions : List ActionSummary
  pub warnings : List PolicyWarning

-- A loop that appends warnings.
unfoldable pub collect {ℓ} :
    {A : Type ℓ}
    → (A → Result Error (List PolicyWarning))
    → List A
    → Result Error (List PolicyWarning)
collect warn [] = ok []
collect warn (x ∷ xs) = warn x >>= λ here. collect warn xs >>= λ later. ok (here ++ later)

-- The loop of `ExplainAccess` over the rules.
unfoldable pub explain_rules : List Rule → PermissionSummary → PermissionSummary
explain_rules [] summary = summary
explain_rules (rule ∷ rules) summary = explain_rules rules (record summary {
  is_admin = if rule.action == action_admin then true else summary.is_admin;
  actions =
      summary.actions
      ++ record { action = rule.action; scope = if rule.scope == [] then str "*" else rule.scope }
        ∷ [];
})

module _ (rt : Table dec_key role_key) (ut : Table dec_key user_key) (ct : Table dec_key cohort_key)
    (roles : rt.State) (users : ut.State) (cohorts : ct.State) where
  -- The tests of `ValidatePolicy` on a user, a rule and a role.
  unfoldable pub warn_user : Str → UserRoleRow → Result Error (List PolicyWarning)
  unfolding get_role truncate_pubkey
  warn_user role_tenant row = elim (get_role rt role_tenant roles row.role_name) [
    | err e ↦ ok (orphan_role_ref (truncate_pubkey row.pubkey) row.role_name ∷ [])
    | ok r ↦ ok []
  ]

  unfoldable pub warn_rule : Str → Str → Rule → Result Error (List PolicyWarning)
  unfolding has_prefix
  warn_rule cohort_tenant name rule =
      if has_prefix (str "cohort:") rule.scope
      then elim (ct.find cohorts (cohort_tenant, drop (size (str "cohort:")) rule.scope)) [
        | none ↦ ok (orphan_cohort_ref name (drop (size (str "cohort:")) rule.scope) ∷ [])
        | some c ↦ ok []
      ]
      else ok []

  -- `role, _ := p.Roles.Get(roleName)`, where the fields of a nil role cannot be read.
  unfoldable pub with_role :
      Str → Str → (Role → Result Error (List PolicyWarning)) → Result Error (List PolicyWarning)
  unfolding get_role
  with_role role_tenant name next = elim (get_role rt role_tenant roles name) [
    | err e ↦ err nil_dereference
    | ok r ↦ next r
  ]

  unfoldable pub warn_empty : Str → Role → Result Error (List PolicyWarning)
  warn_empty name r = elim r.rules [ [] ↦ ok (empty_role name ∷ []) | rule ∷ rules ↦ ok [] ]

  unfoldable pub warn_unused : List Str → Str → Result Error (List PolicyWarning)
  unfolding contains
  warn_unused referenced name =
      if not (contains referenced name) then ok (unused_role name ∷ []) else ok []

  -- The check of cohorts, which a policy without cohorts skips.
  unfoldable pub warn_cohorts : Str → Option Str → Result Error (List PolicyWarning)
  unfolding collect with_role warn_rule list_roles
  warn_cohorts role_tenant none = ok []
  warn_cohorts role_tenant (some cohort_tenant) =
      collect
        (λ name. with_role role_tenant name (λ r. collect (warn_rule cohort_tenant name) r.rules))
        (list_roles rt role_tenant roles)

  -- The four checks of `ValidatePolicy`.
  unfoldable pub warn_all : Str → Str → Option Str → Result Error (List PolicyWarning)
  unfolding collect warn_user warn_cohorts with_role warn_empty warn_unused list_roles all_users
  warn_all role_tenant user_tenant cohort_tenant = do
    orphans ← collect (warn_user role_tenant) (all_users ut user_tenant users)
    refs ← warn_cohorts role_tenant cohort_tenant
    empties ←
        collect (λ name. with_role role_tenant name (warn_empty name))
          (list_roles rt role_tenant roles)
    unused ←
        collect (warn_unused (map UserRoleRow.role_name (all_users ut user_tenant users)))
          (list_roles rt role_tenant roles)
    ok (orphans ++ refs ++ empties ++ unused)

  -- `ValidatePolicy`
  unfoldable pub validate_policy : Policy → Result Error (List PolicyWarning)
  unfolding warn_all
  validate_policy p = elim p.roles [
    | none ↦ ok []
    | some role_tenant ↦ elim p.users [
      | none ↦ ok []
      | some user_tenant ↦ warn_all role_tenant user_tenant p.cohorts
    ]
  ]

  -- `ExplainAccess`
  unfoldable pub explain_access : Policy → Str → PermissionSummary
  unfolding role_name get_role explain_rules
  explain_access p pubkey =
      let summary : PermissionSummary = record {
        pubkey = pubkey;
        role_name = [];
        is_admin = false;
        actions = [];
        warnings = [];
      } in
      let unloaded : PermissionSummary = record summary { warnings = no_policy ∷ [] } in
      elim p.users [
        | none ↦ unloaded
        | some user_tenant ↦ elim p.roles [
          | none ↦ unloaded
          | some role_tenant ↦
              let name = role_name ut user_tenant users pubkey in
              if name == []
              then record summary { warnings = no_role ∷ [] }
              else elim (get_role rt role_tenant roles name) [
                | err e ↦ record summary {
                  role_name = name;
                  warnings = orphan_role_ref [] name ∷ [];
                }
                | ok r ↦ explain_rules r.rules (record summary { role_name = name })
              ]
        ]
      ]

  -- `ExplainAllUsers`, in the order of the pubkeys.
  unfoldable explain_all_users : Policy → List PermissionSummary
  unfolding explain_access all_users sort_strings
  explain_all_users p = elim p.users [
    | none ↦ []
    | some user_tenant ↦
        map (explain_access p)
          (sort_strings (map UserRoleRow.pubkey (all_users ut user_tenant users)))
  ]
