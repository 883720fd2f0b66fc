-- ===== src/Saas/Batches.antt =====
-- internal/saasapi/sprout_actions.go: `createBatch`, which writes a batch with its items, and the status
-- of a batch.
pub mod Creation
pub mod Queue
use Prim.Native.Nat.{ℕ, zero, suc, ◌+◌}
use mathlib.Core.Bool.{Bool, true, false, ◌&&◌, ◌||◌, not}
use mathlib.Core.Option.{Option, none, some}
use mathlib.Core.List.{List, [], ◌∷◌}
use grlx.Common.{Str, str, dec_str, ◌==◌, keep, test, Result, ok, err, if◌then◌else◌}
use grlx.Common.Dict.{lookup, insert}
use grlx.Common.Table.{Table}
use grlx.Saas.Items.{
  Item, ItemStatus, unresolved, queued, failed, dec_status, terminal, item_key, dec_key,
}
use grlx.Saas.Dispatch.{Batch}
use grlx.Saas.Actions.{Refusal, conflict}

-- `sproutByAssetItem`, as far as `createBatch` reads it.
pub record Resolved : Type 0 where
  pub sprout_id : Str
  pub asset_id : Str
  pub key_state : Str

-- `byAsset`, in which the last row of an id counts.
unfoldable pub by_asset : List Resolved → List (Str × Resolved) → List (Str × Resolved)
unfolding insert
by_asset [] m = m
by_asset (row ∷ rows) m = by_asset rows (insert row.asset_id row m)

-- `m[key]`, which is empty for a missing key.
abbrev pub text_at : List (Str × Str) → Str → Str
text_at m key = elim (lookup key m) [ none ↦ [] | some s ↦ s ]

unfoldable pub fresh_item : Str → Str → ℕ → Str → Str → ItemStatus → Str → Item
fresh_item id tenant_id position asset_id sprout_id status code = record {
  batch_id = id;
  asset_id = asset_id;
  tenant_id = tenant_id;
  position = position;
  sprout_id = sprout_id;
  jid = [];
  status = status;
  error_code = code;
  exit_code = none;
  attempts = 0;
}

module _ (id tenant_id : Str) (found : List (Str × Resolved)) (blocked : List (Str × Str)) where
  -- One round of the loop of `createBatch`.
  unfoldable pub item_for : ℕ → Str → Item
  unfolding lookup fresh_item dec_str
  item_for position asset_id = elim (lookup asset_id found) [
    | none ↦ fresh_item id tenant_id position asset_id [] unresolved []
    | some row ↦
        if not (row.key_state == str "accepted")
        then fresh_item id tenant_id position asset_id row.sprout_id failed
            (str "sprout_not_accepted")
        else if not (text_at blocked row.sprout_id == [])
        then fresh_item id tenant_id position asset_id row.sprout_id failed
            (text_at blocked row.sprout_id)
        else fresh_item id tenant_id position asset_id row.sprout_id queued []
  ]

  unfoldable pub items_for : ℕ → List Str → List Item
  unfolding item_for
  items_for position [] = []
  items_for position (asset_id ∷ asset_ids) =
      item_for position asset_id ∷ items_for (suc position) asset_ids

-- `batchStatus`: a batch is in progress as long as an item is not at an end, here whether it is
-- completed.
unfoldable pub is_completed : List Item → Bool
unfolding terminal
is_completed [] = true
is_completed (item ∷ items) = terminal item.status && is_completed items

module _ (t : Table dec_key item_key) (bt : Table dec_str Batch.id) where
  -- `Create` of rows, which fails on a key that is there.
  unfoldable pub create_each : List Item → t.State → Option t.State
  create_each [] s = some s
  create_each (item ∷ items) s = elim (t.find s (item_key item)) [
    | none ↦ create_each items (t.save s item)
    | some old ↦ none
  ]

  -- `createBatch`, with the id that `newID` made; the transaction writes all rows or none.
  unfoldable pub create_batch :
      Batch
      → List Str
      → List Resolved
      → List (Str × Str)
      → bt.State
      → t.State
      → Result Refusal (bt.State × t.State × List Item)
  unfolding by_asset items_for create_each keep dec_status
  create_batch batch asset_ids resolved blocked batches s =
      let items = items_for batch.id batch.tenant_id (by_asset resolved []) blocked 0 asset_ids in
      elim (bt.find batches batch.id) [
        | some old ↦ err conflict
        | none ↦ elim (create_each items s) [
          | none ↦ err conflict
          | some s' ↦
              ok (
                bt.save batches batch,
                s',
                keep (λ item. test (dec_status item.status queued)) items,
              )
        ]
      ]
