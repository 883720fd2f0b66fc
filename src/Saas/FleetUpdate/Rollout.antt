-- ===== src/Saas/FleetUpdate/Rollout.antt =====
-- `CreateFleetUpdateBatch` of internal/saasapi/fleet_update_dispatch.go with the rollout that
-- `startRollout` runs.
use Prim.Native.Nat.{ℕ, ◌≤◌}
use mathlib.Core.Path.{◌≡◌}
use mathlib.Core.Bool.{Bool, true}
use mathlib.Core.Option.{some}
use mathlib.Core.List.{List}
use grlx.Common.{Str, dec_str, All}
use grlx.Common.Table.{Table}
use grlx.Saas.Items.{Item, item_key, dec_key}
use grlx.Saas.Dispatch.{Batch}
use grlx.Saas.Rollout.{Surroundings, World, less_one, run_rollout}
use grlx.Saas.Rollout.Report.{Report}
use grlx.Saas.Rollout.Decided.{IsDecided}

module _ (t : Table dec_key item_key) (bt : Table dec_str Batch.id) (around : Surroundings) where
  open t use {State}

  -- The end of a rollout with its report, whose waves have at most 25 items.
  pub record HasEnded (has_reader : Bool) (polls : ℕ) (queue : List Item) (batch : Batch)
      (version : Str) (w : World t) : Type 0 where
    pub end : World t
    pub is_end : run_rollout t around batch true has_reader polls version queue w ≡ some end
    pub is_small : batch.rollout_batch_size ≤ 25
    pub report : Report t batch around version batch.rollout_batch_size queue w end
    pub decided :
        All
          (IsDecided t batch around (less_one batch.rollout_batch_size) version end.sending.items)
          queue
