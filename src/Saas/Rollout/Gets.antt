-- ===== src/Saas/Rollout/Gets.antt =====
-- What a request for the status of a batch does to the rows, in internal/saasapi.
use Prim.Native.Nat.{ℕ}
use mathlib.Core.Bool.{◌&&◌}
use grlx.Common.{◌==◌, All-of_mem}
use grlx.Common.Table.{Table}
use grlx.Saas.Items.{item_key, dec_key}
use grlx.Saas.Items.Moves.{Follows}
use grlx.Saas.Dispatch.{Batch}
use grlx.Saas.Dispatch.Progress.{InBatch}
use grlx.Saas.Rollout.{by_position, Surroundings, after_get}
use grlx.Saas.Rollout.Reading.{mem-batch}
use grlx.Saas.Rollout.Wave.{refresh_items-effect}

module _ (t : Table dec_key item_key) (around : Surroundings) (batch : Batch) where
  open t use {State, select}
  open around use {gets_at}

  -- The rows of the batch move on, and no other row changes.
  pub after_get-Follows :
      (now : ℕ) (s : State) → Follows t batch.id batch.tenant_id s (after_get t around batch now s)
  unfolding after_get
  after_get-Follows now s =
      let items =
        by_position
          (select s (λ row. row.batch_id == batch.id && row.tenant_id == batch.tenant_id)) in
      (refresh_items-effect t batch (gets_at now) items s
        (All-of_mem (InBatch batch) items (λ x m. (mem-batch t batch s x m).1))
        (λ x m. (mem-batch t batch s x m).0)).0
