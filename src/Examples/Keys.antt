-- ===== src/Examples/Keys.antt =====
-- The keys of sprouts on small inputs.
use mathlib.Core.Path.{◌≡◌}
use mathlib.Core.Logic.{◌↔◌, ◌≢◌, ◌⊎◌}
use mathlib.Core.Bool.{true, false}
use mathlib.Core.Option.{Option, none, some}
use mathlib.Core.List.{[]}
use grlx.Common.{Str, str, ok}
use grlx.Common.Table.{Table}
use grlx.Common.Table.Rows.{rows_table, no_rows}
use grlx.Pki.Keys.{NKeyRow, unaccepted, nkey_key, dec_key, World, upsert_nkey_row, accept_nkey}
use grlx.Pki.SproutId.{is_valid_sprout_id, is_valid_tenant_id}
use grlx.Pki.Tenancy.{TenantRow, verify_sprout_in_tenant}
use grlx.Pki.Tenancy.Exact.{IsLive, IsAcceptedIn, verify_sprout_in_tenant_iff}
use grlx.Pki.Keys.Accept.{AcceptEffect, accept_effect}
use grlx.Pki.Keys.Transitions.{
  deny, call, key_of, target, CallEffect, call_effect, call_succeeds_iff,
}

abbrev table : Table dec_key nkey_key
table = rows_table dec_key nkey_key

-- A submitted key of the second sprout that calls itself `web`.
abbrev second_web : NKeyRow
second_web = record {
  tenant_id = str "acme";
  sprout_id = str "web_1";
  nkey = str "UABC";
  state = unaccepted;
}

world : World table
world = record { rows = upsert_nkey_row table (no_rows dec_key nkey_key) second_web; reloads = [] }

accept_effect_example :
    AcceptEffect table
      (str "root")
      world
      (str "acme")
      (str "web_1")
      (accept_nkey table (str "root") world (str "acme") (str "web_1"))
accept_effect_example = accept_effect table (str "root") world (str "acme") (str "web_1")

call_effect_example :
    CallEffect table
      (str "root")
      world
      (str "acme")
      (str "web_1")
      deny
      (call table (str "root") world (str "acme") (str "web_1") deny)
call_effect_example = call_effect table (str "root") world (str "acme") (str "web_1") deny

call_succeeds_iff_example :
    ((call table (str "root") world (str "acme") (str "web_1") deny).0 ≡ ok tt) ↔ (
      (is_valid_sprout_id (str "web_1") ≡ true)
      × (((old : NKeyRow) × (table.find world.rows (str "acme", str "web_1") ≡ some old)
            × (old.state ≢ target deny))
          ⊎ ((table.find world.rows (str "acme", str "web_1") ≡ none) × (key_of deny ≢ []))))
call_succeeds_iff_example =
    call_succeeds_iff table (str "root") world (str "acme") (str "web_1") deny

-- A database that finds the row of a tenant whose id differs in case.
abbrev acme_upper : TenantRow
acme_upper = record { id = str "ACME"; name = str "Acme"; deleted = false; account_pub = [] }

abbrev find_tenant : Str → Option TenantRow
find_tenant id = some acme_upper

abbrev find_key : Str → Str → Option NKeyRow
find_key tenant_id sprout_id = some second_web

verify_sprout_in_tenant_iff_example :
    (verify_sprout_in_tenant find_tenant find_key (str "root") (str "acme") (str "web_1") ≡ ok tt)
    ↔ ((is_valid_tenant_id (str "acme") ≡ true)
        × (is_valid_sprout_id (str "web_1") ≡ true)
        × IsLive find_tenant find_key (str "root") (str "acme")
        × IsAcceptedIn find_tenant find_key (str "acme") (str "web_1"))
verify_sprout_in_tenant_iff_example =
    verify_sprout_in_tenant_iff find_tenant find_key (str "root") (str "acme") (str "web_1")
