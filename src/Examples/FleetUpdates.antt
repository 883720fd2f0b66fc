-- ===== src/Examples/FleetUpdates.antt =====
-- A request for a rollout and what it starts, on a small input.
use mathlib.Core.Path.{◌≡◌, refl}
use mathlib.Core.Bool.{true, false}
use mathlib.Core.Option.{none, some}
use mathlib.Core.List.{List, [], ◌∷◌}
use mathlib.Core.List.Memᴰ
use grlx.Common.{Str, str, dec_str, ok}
use grlx.Common.Table.{Table}
use grlx.Common.Table.Rows.{rows_table, no_rows}
use grlx.Saas.Items.{Item, succeeded, queued, failed, terminal, dec_key, item_key}
use grlx.Saas.Dispatch.{Batch, job_status, replied, job_succeeded}
use grlx.Saas.Actions.{Spaces}
use grlx.Saas.FleetUpdate.{
  FleetUpdateRequest, Reads, create_fleet_update_batch, in_progress, new_batch,
}
use grlx.Saas.Rollout.{Surroundings, World}
use grlx.Saas.FleetUpdate.Busy.{create_fleet_update_batch-terminal}
use grlx.Saas.FleetUpdate.Guards.{IsStarted, create_fleet_update_batch-IsStarted}

abbrev spaces : Spaces
spaces = record { trim_space = λ s. s; fields = λ s. s ∷ [] }

abbrev item_table : Table dec_key item_key
item_table = rows_table dec_key item_key

abbrev batch_table : Table dec_str Batch.id
batch_table = rows_table dec_str Batch.id

-- `web` was updated by an old rollout, which has not sent its item for `db` yet.
abbrev web_before : Item
web_before = record {
  batch_id = str "b_1";
  asset_id = str "a";
  tenant_id = str "acme";
  position = 0;
  sprout_id = str "web";
  jid = [];
  status = succeeded;
  error_code = [];
  exit_code = none;
  attempts = 1;
}

abbrev db_before : Item
db_before = record web_before {
  asset_id = str "b";
  position = 1;
  sprout_id = str "db";
  status = queued;
  attempts = 0;
}

abbrev before : item_table.State
before = item_table.save (item_table.save (no_rows dec_key item_key) web_before) db_before

abbrev old_batch : Batch
old_batch = new_batch (str "b_1") (str "acme") 5 job_status

abbrev old_batches : batch_table.State
old_batches = batch_table.save (no_rows dec_str Batch.id) old_batch

abbrev reads : Reads
reads = record {
  spaces = spaces;
  enabled = true;
  is_active = true;
  policy = some (record {
    tenant_id = str "acme";
    approved_version = some (str "2.0");
    auto_update = false;
    rollout_window_start = none;
    rollout_window_end = none;
  });
  now = 0;
  in_catalog = λ v. true;
  is_usable = λ v. true;
  resolve = λ ids.
      record { sprout_id = str "web"; asset_id = str "a"; key_state = str "accepted" }
      ∷ record { sprout_id = str "db"; asset_id = str "b"; key_state = str "accepted" }
      ∷ [];
}

abbrev update_both : FleetUpdateRequest
update_both = record {
  asset_ids = str "a" ∷ str "b" ∷ [];
  target_version = str "2.0";
  batch_size = none;
  gate = [];
}

abbrev web_after : Item
web_after = record web_before { batch_id = str "b_2"; status = queued; attempts = 0 }

abbrev db_after : Item
db_after = record db_before { batch_id = str "b_2"; status = failed; error_code = in_progress }

-- The new rollout sends to `web` alone.
abbrev started : batch_table.State × item_table.State × List Item × Batch × Str
started = (
  batch_table.save old_batches (new_batch (str "b_2") (str "acme") 5 job_status),
  item_table.save (item_table.save before web_after) db_after,
  web_after ∷ [],
  new_batch (str "b_2") (str "acme") 5 job_status,
  str "2.0",
)

create_fleet_update_batch-IsStarted_example :
    IsStarted item_table batch_table reads
      (str "b_2")
      (str "acme")
      update_both
      old_batches
      before
      started
unfolding create_fleet_update_batch rows_table no_rows dec_key dec_str
create_fleet_update_batch-IsStarted_example =
    create_fleet_update_batch-IsStarted item_table batch_table reads (str "b_2") (str "acme")
      update_both old_batches before old_batches before started refl

create_fleet_update_batch-terminal_example : terminal web_before.status ≡ true
unfolding create_fleet_update_batch rows_table no_rows dec_key dec_str
create_fleet_update_batch-terminal_example =
    create_fleet_update_batch-terminal item_table batch_table reads (str "b_2") (str "acme")
      update_both old_batches before old_batches before started web_after web_before
      (str "b_1", str "a") old_batch refl (Memᴰ.head refl) refl refl refl refl refl refl

-- The farmer takes the update, and its job ends well.
abbrev around : Surroundings
around = record {
  policy_at = λ now. ok reads.policy;
  ask_at = λ now item. replied (
      some (record {
        tenant_id = str "acme";
        sprout_id = item.sprout_id;
        status = str "dispatched";
        jid = str "j1";
        error_code = [];
        result = none;
      }));
  outcomes_at = λ now. some (λ item. job_succeeded);
  gets_at = λ now. some (λ item. job_succeeded);
  replies_take = λ now. 1;
  sleep_adds = λ now. 0;
}

abbrev at_start : World item_table
at_start = record { sending = record { items = started.1; sent = [] }; now = 0 }
