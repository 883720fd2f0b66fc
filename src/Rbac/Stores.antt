-- ===== src/Rbac/Stores.antt =====
-- internal/rbac/config.go: `RoleStore` and `UserRoleMap`, over the tables of roles and of users
-- (store.go). A store is its tenant.
use mathlib.Core.Bool.{Bool, true, false, ◌&&◌, not}
use mathlib.Core.Option.{none, some}
use mathlib.Core.List.{List, [], map}
use grlx.Common.{Str, ◌==◌, Result, ok, err, ◌>>◌, if◌then◌else◌}
use grlx.Common.Table.{Table, upsert}
use grlx.Rbac.Error.{Error, unknown_role}
use grlx.Rbac.Role.{Role, validate}
use grlx.Rbac.Registry.{dec_key}

-- The primary key of `rbac_roles`.
abbrev pub role_key : Role → Str × Str
role_key r = (r.tenant_id, r.name)

-- `userRoleRow`
pub record UserRoleRow : Type 0 where
  pub tenant_id : Str
  pub pubkey : Str
  pub role_name : Str
  pub username : Str

abbrev pub user_key : UserRoleRow → Str × Str
user_key row = (row.tenant_id, row.pubkey)

module _ (rt : Table dec_key role_key) (tenant_id : Str) where
  -- `Register`, with `roleRowFrom`, which takes the current tenant where a role has none.
  unfoldable pub register_role : Str → rt.State → Role → Result Error rt.State
  unfolding validate upsert
  register_role current_tenant roles r =
      let r' : Role = if r.tenant_id == [] then record r { tenant_id = tenant_id } else r in
      let row : Role =
        if r'.tenant_id == [] then record r' { tenant_id = current_tenant } else r' in
      validate r' >> ok (upsert rt roles row (λ old. record old { rules = row.rules }))

  -- `RoleStore.Get`
  unfoldable pub get_role : rt.State → Str → Result Error Role
  get_role roles name = elim (rt.find roles (tenant_id, name)) [
    | none ↦ err unknown_role
    | some r ↦ ok r
  ]

  unfoldable pub role_rows : rt.State → List Role
  role_rows roles = rt.select roles (λ r. r.tenant_id == tenant_id)

  -- `RoleStore.List`
  unfoldable pub list_roles : rt.State → List Str
  unfolding role_rows
  list_roles roles = map Role.name (role_rows roles)

module _ (ut : Table dec_key user_key) (tenant_id : Str) where
  -- `RoleName`, empty for an unknown pubkey, and `Username`.
  unfoldable pub role_name : ut.State → Str → Str
  role_name users pubkey = elim (ut.find users (tenant_id, pubkey)) [
    | none ↦ []
    | some row ↦ row.role_name
  ]

  unfoldable pub username : ut.State → Str → Str
  username users pubkey = elim (ut.find users (tenant_id, pubkey)) [
    | none ↦ []
    | some row ↦ row.username
  ]

  -- `upsertUserRoleRow`
  unfoldable pub upsert_user_role_row : ut.State → UserRoleRow → ut.State
  unfolding upsert
  upsert_user_role_row users row =
      upsert ut users row (λ old. record old { role_name = row.role_name; username = row.username })

  -- `Set`
  unfoldable pub set : ut.State → Str → Str → ut.State
  unfolding upsert_user_role_row username
  set users pubkey name = upsert_user_role_row users (record {
    tenant_id = tenant_id;
    pubkey = pubkey;
    role_name = name;
    username = username users pubkey;
  })

  -- `SetUsername`
  unfoldable pub set_username : ut.State → Str → Str → ut.State
  unfolding upsert_user_role_row role_name
  set_username users pubkey name = upsert_user_role_row users (record {
    tenant_id = tenant_id;
    pubkey = pubkey;
    role_name = role_name users pubkey;
    username = name;
  })

  -- `Delete`: whether the key existed, and the table.
  unfoldable pub delete_user : ut.State → Str → Bool × ut.State
  delete_user users pubkey = (
    elim (ut.find users (tenant_id, pubkey)) [ none ↦ false | some row ↦ true ],
    ut.delete users (tenant_id, pubkey),
  )

  -- The rows behind `All`, which maps their pubkeys to their roles.
  unfoldable pub all_users : ut.State → List UserRoleRow
  all_users users = ut.select users (λ row. row.tenant_id == tenant_id)

  -- `AllWithUsernames`
  unfoldable pub all_with_usernames : ut.State → List (Str × Str)
  all_with_usernames users =
      map (λ row. (row.pubkey, row.username))
        (ut.select users (λ row. row.tenant_id == tenant_id && not (row.username == [])))
