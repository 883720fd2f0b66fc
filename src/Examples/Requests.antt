-- ===== src/Examples/Requests.antt =====
-- Requests to the SaaS API on small inputs.
use Prim.Native.Nat.{◌≤◌, ◌<◌}
use mathlib.Core.Path.{◌≡◌, refl}
use mathlib.Core.Logic.{◌⊎◌, ◌↔◌}
use mathlib.Core.Bool.{true}
use mathlib.Core.Option.{none, some}
use mathlib.Core.List.{List, [], ◌∷◌, Memᴰ, map}
use grlx.Common.{Str, str, dec_str, All, length, contains}
use grlx.Common.Table.{Table}
use grlx.Common.Table.Rows.{rows_table, no_rows}
use grlx.Saas.Items.{Item, succeeded, queued, failed, unresolved, dec_key, item_key}
use grlx.Saas.Dispatch.{Batch, job_status}
use grlx.Saas.Actions.{Spaces, CmdRunInput, FarmerCmdRun, parse_action_asset_ids, translate_cmd_run}
use grlx.Saas.Actions.Requests.{
  AreDistinct, IsFine, HasLimits, parse_action_asset_ids-ok, translate_cmd_run-HasLimits,
}
use grlx.Saas.Batches.{Resolved, by_asset, create_batch}
use grlx.Saas.Batches.Creation.{IsGiven}
use grlx.Saas.Batches.Queue.{IsLinked, create_batch-stores}
use grlx.Saas.PolicyCheck.{TenantUpdatePolicy}
use grlx.Saas.UpdatePolicy.{PatchRequest, patch_update_policy, default_policy}
use grlx.Saas.UpdatePolicy.Patching.{IsPatched, patch_update_policy-IsPatched}

-- Texts without spaces.
abbrev spaces : Spaces
spaces = record { trim_space = λ s. s; fields = λ s. s ∷ [] }

parse_action_asset_ids-ok_example :
    AreDistinct (str "a" ∷ str "b" ∷ [])
    × All IsFine (str "a" ∷ str "b" ∷ [])
    × (0 < length (str "a" ∷ str "b" ∷ []))
    × (length (str "a" ∷ str "b" ∷ []) ≤ 100)
    × ((x : Str)
        → contains (str "a" ∷ str "b" ∷ []) x
          ≡ contains (map (λ s. s) (str "a" ∷ str "b" ∷ str "a" ∷ [])) x)
unfolding parse_action_asset_ids contains dec_str
parse_action_asset_ids-ok_example =
    parse_action_asset_ids-ok spaces (str "a" ∷ str "b" ∷ str "a" ∷ []) (str "a" ∷ str "b" ∷ [])
      refl

-- A command with a timeout of more than five hundred years, which wraps to less than a second.
abbrev uptime : CmdRunInput
uptime = record {
  cmd = str "uptime";
  args = none;
  cwd = [];
  run_as = [];
  timeout_seconds = 18446744074;
}

abbrev short_uptime : FarmerCmdRun
short_uptime = record {
  command = str "uptime";
  args = [];
  cwd = [];
  run_as = [];
  timeout = 290448384;
}

translate_cmd_run-HasLimits_example : HasLimits spaces uptime short_uptime
unfolding translate_cmd_run dec_str
translate_cmd_run-HasLimits_example = translate_cmd_run-HasLimits spaces uptime short_uptime refl

abbrev item_table : Table dec_key item_key
item_table = rows_table dec_key item_key

abbrev batch_table : Table dec_str Batch.id
batch_table = rows_table dec_str Batch.id

abbrev batch : Batch
batch = record {
  id = str "b_2";
  tenant_id = str "acme";
  action_type = str "self_update";
  rollout_batch_size = 5;
  rollout_gate = job_status;
}

abbrev old_item : Item
old_item = record {
  batch_id = str "b_1";
  asset_id = str "a";
  tenant_id = str "acme";
  position = 0;
  sprout_id = str "web";
  jid = [];
  status = succeeded;
  error_code = [];
  exit_code = none;
  attempts = 1;
}

abbrev old_items : item_table.State
old_items = item_table.save (no_rows dec_key item_key) old_item

-- `web` is accepted, `db` has an update in progress, and `c` is linked to no sprout.
abbrev resolved : List Resolved
resolved =
    record { sprout_id = str "web"; asset_id = str "a"; key_state = str "accepted" }
    ∷ record { sprout_id = str "db"; asset_id = str "b"; key_state = str "accepted" }
    ∷ []

abbrev busy : List (Str × Str)
busy = (str "db", str "update_already_in_progress") ∷ []

abbrev web_item : Item
web_item = record old_item { batch_id = str "b_2"; status = queued; attempts = 0 }

abbrev db_item : Item
db_item = record web_item {
  asset_id = str "b";
  position = 1;
  sprout_id = str "db";
  status = failed;
  error_code = str "update_already_in_progress";
}

abbrev no_item : Item
no_item = record web_item { asset_id = str "c"; position = 2; sprout_id = []; status = unresolved }

abbrev new_items : item_table.State
new_items = item_table.save (item_table.save (item_table.save old_items web_item) db_item) no_item

abbrev no_batches : batch_table.State
no_batches = no_rows dec_str Batch.id

create_batch-stores_example :
    ((k : Str × Str)
      → (item_table.find old_items k ≡ none)
        ⊎ (item_table.find new_items k ≡ item_table.find old_items k))
    × (batch_table.find no_batches (str "b_2") ≡ none)
    × (batch_table.find (batch_table.save no_batches batch) (str "b_2") ≡ some batch)
    × All (IsGiven item_table batch_table batch resolved busy new_items) (web_item ∷ [])
    × ((a : Str)
        → Memᴰ a (map Item.asset_id (web_item ∷ []))
          ↔ (Memᴰ a (str "a" ∷ str "b" ∷ str "c" ∷ []) × IsLinked (by_asset resolved []) busy a))
unfolding create_batch rows_table no_rows dec_key dec_str
create_batch-stores_example =
    create_batch-stores item_table batch_table batch (str "a" ∷ str "b" ∷ str "c" ∷ []) resolved
      busy no_batches (batch_table.save no_batches batch) old_items new_items (web_item ∷ []) refl

-- A tenant that approves a version of the catalog.
abbrev policy_table : Table dec_str TenantUpdatePolicy.tenant_id
policy_table = rows_table dec_str TenantUpdatePolicy.tenant_id

abbrev approve : PatchRequest
approve = record {
  approved_version = some (some (str "2.0"));
  auto_update = some (some true);
  rollout_window_start = none;
  rollout_window_end = none;
}

abbrev no_policies : policy_table.State
no_policies = no_rows dec_str TenantUpdatePolicy.tenant_id

abbrev approving : policy_table.State
approving = policy_table.save no_policies (record (default_policy (str "acme")) {
  approved_version = some (str "2.0");
  auto_update = true;
})

patch_update_policy-IsPatched_example :
    IsPatched spaces (λ v. true) policy_table (str "acme") approve no_policies approving
unfolding patch_update_policy rows_table no_rows dec_str
patch_update_policy-IsPatched_example =
    patch_update_policy-IsPatched spaces (λ v. true) policy_table (str "acme") approve no_policies
      approving refl
