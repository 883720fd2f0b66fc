-- ===== src/Rbac/Config.antt =====
-- internal/rbac/config.go: the sections of the configuration. A section is a list of its entries in the
-- order in which the runtime passes over the map.
pub mod Values
pub mod Unique
pub mod CohortEntries
use Prim.Native.Nat.{ℕ}
use mathlib.Core.Bool.{Bool, true, false, not}
use mathlib.Core.Option.{Option, none, some}
use mathlib.Core.List.{List, [], ◌∷◌, ◌++◌, map}
use grlx.Common.{Str, str, dec_str, ◌==◌, Result, ok, err, ◌>>=◌, ◌>>◌, if◌then◌else◌}
use grlx.Common.Dict.{lookup, insert}
use grlx.Common.Table.{Table}
use grlx.Rbac.Error.{
  Error, invalid_cohort, missing_operands, malformed_role, duplicate_pubkey, duplicate_username,
}
use grlx.Rbac.Role.{
  Rule, Role, parse_action, action_view, action_cook, action_cmd, action_shell, action_test,
  action_props, action_job_admin, action_user_read,
}
use grlx.Rbac.Cohort.{
  CohortType, static, dynamic, compound, Operator, and, or, except, DynamicMatch, CompoundExpr,
  Cohort, validate_operator, has_few,
}
use grlx.Rbac.Registry.{dec_key, cohort_key, Registry, register}
use grlx.Rbac.Stores.{role_key, user_key, UserRoleRow, register_role, set, set_username, role_name}
use grlx.Rbac.Config.Values.{
  Value, text, items, texts, table, other, Items, nil, cons, Fields, at, text_at,
  parse_string_slice, UserEntry, parse_user_entries,
}

-- `BuiltinViewerRole`
abbrev pub any_sprout : Str → Rule
any_sprout action = record { action = action; scope = str "*" }

abbrev pub builtin_viewer_role : Role
builtin_viewer_role = record {
  name = str "viewer";
  rules = any_sprout action_view ∷ any_sprout action_user_read ∷ [];
  tenant_id = [];
}

-- `BuiltinOperatorRole`
abbrev pub builtin_operator_role : Role
builtin_operator_role = record {
  name = str "operator";
  rules =
      any_sprout action_view
      ∷ any_sprout action_cook
      ∷ any_sprout action_cmd
      ∷ any_sprout action_shell
      ∷ any_sprout action_test
      ∷ any_sprout action_props
      ∷ any_sprout action_job_admin
      ∷ any_sprout action_user_read
      ∷ [];
  tenant_id = [];
}

-- `trim_space` stands for `strings.TrimSpace`, which reads the tables of Unicode.
module _ (trim_space : Str → Str) where
  -- One rule of `parseRoleEntry`.
  unfoldable pub parse_rule : Value → Result Error Rule
  unfolding text_at parse_action
  parse_rule (table m) = parse_action (trim_space (text_at m (str "action"))) >>= λ action.
      let scope = trim_space (text_at m (str "scope")) in
      ok (record { action = action; scope = if scope == [] then str "*" else scope })
  parse_rule (text s) = err malformed_role
  parse_rule (items xs) = err malformed_role
  parse_rule (texts ss) = err malformed_role
  parse_rule other = err malformed_role

  unfoldable pub parse_rules : Items → Result Error (List Rule)
  unfolding parse_rule
  parse_rules nil = ok []
  parse_rules (cons v rest) =
      parse_rule v >>= λ rule. parse_rules rest >>= λ rules. ok (rule ∷ rules)

  -- `parseRoleEntry`
  unfoldable pub parse_role_entry : Str → Value → Result Error Role
  unfolding parse_rules
  parse_role_entry name (items xs) =
      parse_rules xs >>= λ rules. ok (record { name = name; rules = rules; tenant_id = [] })
  parse_role_entry name (text s) = err malformed_role
  parse_role_entry name (texts ss) = err malformed_role
  parse_role_entry name (table m) = err malformed_role
  parse_role_entry name other = err malformed_role

  module _ (rt : Table dec_key role_key) (tenant_id : Str) where
    -- `Delete` of the rows of the tenant.
    unfoldable pub clear_roles : List Role → rt.State → rt.State
    clear_roles [] roles = roles
    clear_roles (r ∷ rows) roles = clear_roles rows (rt.delete roles (role_key r))

    -- `_ = store.Register(b)`
    unfoldable pub register_builtin : rt.State → Role → rt.State
    unfolding register_role
    register_builtin roles r = elim (register_role rt tenant_id tenant_id roles r) [
      | err e ↦ roles
      | ok roles' ↦ roles'
    ]

    -- The loop of `LoadRolesFromConfig`: its error, and the table.
    unfoldable pub load_entries : List (Str × Value) → rt.State → Result Error (Unit {0}) × rt.State
    unfolding parse_role_entry register_role
    load_entries [] roles = (ok tt, roles)
    load_entries ((name, v) ∷ entries) roles =
        elim (parse_role_entry name v >>= register_role rt tenant_id tenant_id roles) [
          | err e ↦ (err e, roles)
          | ok roles' ↦ load_entries entries roles'
        ]

    -- `LoadRolesFromConfig`
    unfoldable pub load_roles_from_config :
        List (Str × Value) → rt.State → Result Error (Unit {0}) × rt.State
    unfolding clear_roles register_builtin load_entries
    load_roles_from_config section roles =
        let cleared = clear_roles (rt.select roles (λ r. r.tenant_id == tenant_id)) roles in
        load_entries section
          (register_builtin (register_builtin cleared builtin_viewer_role) builtin_operator_role)

module _ (ut : Table dec_key user_key) (tenant_id : Str) where
  -- `Delete` of the rows of the tenant.
  unfoldable pub clear_users : List UserRoleRow → ut.State → ut.State
  clear_users [] users = users
  clear_users (row ∷ rows) users = clear_users rows (ut.delete users (user_key row))

  -- The loops of `LoadUsersFromConfig`, over the entries of a role and over the roles.
  unfoldable pub load_user_entries : Str → List UserEntry → ut.State → ut.State
  unfolding set set_username
  load_user_entries role [] users = users
  load_user_entries role (e ∷ entries) users =
      let users' = set ut tenant_id users e.pubkey role in
      load_user_entries role entries
        (if e.username == [] then users' else set_username ut tenant_id users' e.pubkey e.username)

  unfoldable pub load_users : List (Str × Value) → ut.State → ut.State
  unfolding load_user_entries parse_user_entries
  load_users [] users = users
  load_users ((role, v) ∷ section) users =
      load_users section (load_user_entries role (parse_user_entries v) users)

  -- A key of the legacy section does not override one that has a role.
  unfoldable pub load_legacy_keys : Str → List Str → ut.State → ut.State
  unfolding role_name set
  load_legacy_keys role [] users = users
  load_legacy_keys role (k ∷ keys) users =
      load_legacy_keys role keys
        (if role_name ut tenant_id users k == [] then set ut tenant_id users k role else users)

  unfoldable pub load_legacy : List (Str × Value) → ut.State → ut.State
  unfolding load_legacy_keys parse_string_slice
  load_legacy [] users = users
  load_legacy ((role, v) ∷ section) users =
      load_legacy section (load_legacy_keys role (parse_string_slice (some v)) users)

  -- `LoadUsersFromConfig`, of the sections `users` and `pubkeys`.
  unfoldable pub load_users_from_config :
      List (Str × Value) → List (Str × Value) → ut.State → ut.State
  unfolding load_users load_legacy clear_users
  load_users_from_config section pubkeys users =
      load_legacy pubkeys (
        load_users section
          (clear_users (ut.select users (λ row. row.tenant_id == tenant_id)) users))
