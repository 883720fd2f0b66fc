-- ===== src/Pki/Tenancy.antt =====
-- internal/pki/store.go: the check of a sprout and its tenant, `VerifySproutInTenant`. The collation
-- of the database may find a row whose key differs from the one asked for, so the two lookups are
-- parameters without laws.
pub mod Exact
use mathlib.Core.Bool.{Bool, true, false, ◌||◌, not}
use mathlib.Core.Option.{Option, none, some}
use grlx.Common.{Str, dec_str, ◌==◌, test, Result, ok, err, ◌>>◌, if◌then◌else◌}
use grlx.Pki.SproutId.{is_valid_sprout_id, is_valid_tenant_id}
use grlx.Pki.Keys.{
  Error, sprout_id_invalid, sprout_id_not_found, tenant_not_found, tenant_id_invalid, NKeyRow,
  accepted, dec_state,
}

pub record TenantRow : Type 0 where
  pub id : Str
  pub name : Str
  pub deleted : Bool
  pub account_pub : Str

module _ (first_tenant : Str → Option TenantRow) (first_key : Str → Str → Option NKeyRow) where
  -- `getTenantRow`
  unfoldable pub get_tenant_row : Str → Result Error TenantRow
  get_tenant_row id = elim (first_tenant id) [ none ↦ err tenant_not_found | some row ↦ ok row ]

  -- The second part of the check: that the tenant is live.
  pub verify_tenant : Str → Str → Result Error (Unit {0})
  unfolding get_tenant_row dec_str
  verify_tenant current_tenant tenant_id =
      if not (tenant_id == current_tenant)
      then elim (get_tenant_row tenant_id) [
        | err e ↦ err e
        | ok row ↦ if row.deleted || not (row.id == tenant_id) then err tenant_not_found else ok tt
      ]
      else ok tt

  -- The third part: that the sprout is an accepted one of the tenant.
  pub verify_sprout : Str → Str → Result Error (Unit {0})
  unfolding dec_str dec_state
  verify_sprout tenant_id sprout_id = elim (first_key tenant_id sprout_id) [
    | none ↦ err sprout_id_not_found
    | some row ↦
        if not (row.tenant_id == tenant_id)
          || not (row.sprout_id == sprout_id)
          || not (test (dec_state row.state accepted))
        then err sprout_id_not_found
        else ok tt
  ]

  unfoldable pub verify_sprout_in_tenant : Str → Str → Str → Result Error (Unit {0})
  unfolding verify_tenant verify_sprout
  verify_sprout_in_tenant current_tenant tenant_id sprout_id =
      if not (is_valid_tenant_id tenant_id)
      then err tenant_id_invalid
      else if not (is_valid_sprout_id sprout_id)
      then err sprout_id_invalid
      else (verify_tenant current_tenant tenant_id >> verify_sprout tenant_id sprout_id)
