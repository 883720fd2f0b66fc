-- ===== src/Examples/Rollouts.antt =====
-- A rollout to three sprouts in waves of two.
use Prim.Native.Nat.{ℕ}
use mathlib.Core.Path.{◌≡◌, refl}
use mathlib.Core.Bool.{true, false}
use mathlib.Core.Option.{Option, none, some}
use mathlib.Core.List.{List, [], ◌∷◌}
use native.Mathlib.Omega.{arith}
use grlx.Common.{Str, str, dec_str, ok, All}
use grlx.Common.Table.{Table}
use grlx.Common.Table.Rows.{rows_table, no_rows}
use grlx.Saas.Items.{Item, queued, dec_key, item_key}
use grlx.Saas.Items.Moves.{IsLater}
use grlx.Saas.Dispatch.{Batch, job_status, replied, JobOutcome, job_succeeded, job_failed}
use grlx.Saas.Rollout.{Surroundings, World, run_rollout}
use grlx.Saas.Rollout.Report.{Report}
use grlx.Saas.Rollout.Decided.{IsDecided}
use grlx.Saas.Rollout.Results.{
  AreStored, run_rollout-ends, run_rollout-IsLater, run_rollout-decides,
}

abbrev table : Table dec_key item_key
table = rows_table dec_key item_key

abbrev batch : Batch
batch = record {
  id = str "b_1";
  tenant_id = str "acme";
  action_type = str "self_update";
  rollout_batch_size = 2;
  rollout_gate = job_status;
}

abbrev item_at : ℕ → Str → Item
item_at n asset_id = record {
  batch_id = str "b_1";
  asset_id = asset_id;
  tenant_id = str "acme";
  position = n;
  sprout_id = asset_id;
  jid = [];
  status = queued;
  error_code = [];
  exit_code = none;
  attempts = 0;
}

abbrev queue : List Item
queue = item_at 0 (str "a") ∷ item_at 1 (str "b") ∷ item_at 2 (str "c") ∷ []

-- The farmer takes every update, and each job ends well, but the one of `b`.
abbrev around : Surroundings
around = record {
  policy_at = λ now. ok (
      some (record {
        tenant_id = str "acme";
        approved_version = some (str "2.0");
        auto_update = false;
        rollout_window_start = none;
        rollout_window_end = none;
      }));
  ask_at = λ now item. replied (
      some (record {
        tenant_id = str "acme";
        sprout_id = item.sprout_id;
        status = str "dispatched";
        jid = str "j1";
        error_code = [];
        result = none;
      }));
  outcomes_at = λ now. some (λ item. outcome item.sprout_id);
  gets_at = λ now. some (λ item. outcome item.sprout_id);
  replies_take = λ now. 1;
  sleep_adds = λ now. 0;
}
  where
    outcome : Str → JobOutcome
    outcome sprout_id = elim (dec_str sprout_id (str "b")) [
      | yes _ ↦ job_failed
      | no _ ↦ job_succeeded
    ]

abbrev start : World table
start = record {
  sending = record {
    items =
        table.save
          (table.save (table.save (no_rows dec_key item_key) (item_at 0 (str "a")))
            (item_at 1 (str "b")))
          (item_at 2 (str "c"));
    sent = [];
  };
  now = 0;
}

run_rollout-ends_example :
    (w' : World table) × (run_rollout table around batch true true 121 (str "2.0") queue start
      ≡ some w')
run_rollout-ends_example =
    run_rollout-ends table around batch (str "2.0") true true 120 queue start (omega arith)

some_end :
    (w' : World table) × (run_rollout table around batch true true 121 (str "2.0") queue start
      ≡ some w')
some_end = run_rollout-ends table around batch (str "2.0") true true 120 queue start (omega arith)

abbrev end : World table
end = some_end.0

stored : AreStored table around batch (str "2.0") start.sending.items queue
unfolding rows_table no_rows dec_key dec_str
stored = (((refl, refl), refl), (((refl, refl), refl), (((refl, refl), refl), tt)))

run_rollout-IsLater_example :
    (later : Item) × (table.find end.sending.items (str "b_1", str "c") ≡ some later)
    × IsLater (str "b_1") (str "acme") (item_at 2 (str "c")) later
unfolding rows_table no_rows dec_key dec_str
run_rollout-IsLater_example =
    run_rollout-IsLater table around batch (str "2.0") true true 121 queue start end
      (str "b_1", str "c") (item_at 2 (str "c")) stored some_end.1 refl

run_rollout-decides_example :
    All (IsDecided table batch around 1 (str "2.0") end.sending.items) queue
run_rollout-decides_example =
    run_rollout-decides table around batch (str "2.0") true 121 queue start end stored some_end.1

-- The update of `b` fails, so the one of `c` is not sent.
abbrev codes_of : Option (World table) → List Str
codes_of none = []
codes_of (some w) = elim (table.find w.sending.items (str "b_1", str "c")) [
  | none ↦ []
  | some row ↦ row.error_code ∷ []
]

rollout_stops :
    codes_of (run_rollout table around batch true true 121 (str "2.0") queue start)
    ≡ str "rollout_halted" ∷ []
unfolding run_rollout rows_table no_rows dec_key dec_str
rollout_stops = refl
