-- ===== src/Saas/Batches/Queue.antt =====
-- Which asset ids `createBatch` of internal/saasapi/sprout_actions.go gives items to be sent for.
use Prim.Native.Nat.{ℕ, suc}
use mathlib.Core.Path.{◌≡◌, refl, ap, ◌∙◌, sym, subst}
use mathlib.Core.Logic.{◌⊎◌, ◌↔◌, inl, inr}
use mathlib.Core.Bool.{Bool, true}
use mathlib.Core.Option.{none, some}
use mathlib.Core.List.{List, [], ◌∷◌, Memᴰ, map}
use mathlib.Core.List.Memᴰ
use native.Mathlib.Omega.{arith}
use grlx.Common.{Str, str, dec_str, keep, mem-keep, test, All, All-mem, ok, Option-cases}
use grlx.Common.Dict.{lookup}
use grlx.Common.Table.{Table, find-save_self}
use grlx.Saas.Items.{Item, queued, dec_status, item_key, dec_key}
use grlx.Saas.Dispatch.{Batch}
use grlx.Saas.Batches.{Resolved, by_asset, text_at, fresh_item, item_for, items_for, create_batch}
use grlx.Saas.Batches.Creation.{
  IsGiven, items_of, made, items_for-IsSound, create_each-keeps, create_batch-parts,
  create_batch-IsGiven, IsSound,
}

-- An asset id that is linked to a sprout whose key is accepted and that nothing blocks.
abbrev pub IsLinked : List (Str × Resolved) → List (Str × Str) → Str → Type 0
IsLinked found blocked a =
    (row : Resolved) × (lookup a found ≡ some row)
    × (row.key_state ≡ str "accepted")
    × (text_at blocked row.sprout_id ≡ [])

mem-asset_id :
    (x : Item) (items : List Item) → Memᴰ x items → Memᴰ x.asset_id (map Item.asset_id items)
mem-asset_id x [] m = absurd (Memᴰ.not-nil m)
mem-asset_id x (y ∷ items) m = elim (Memᴰ.cases_cons m) [
  | inl e ↦ Memᴰ.head (ap Item.asset_id e)
  | inr n ↦ Memᴰ.tail (mem-asset_id x items n)
]

asset_id-item :
    (a : Str) (items : List Item)
    → Memᴰ a (map Item.asset_id items)
    → (x : Item) × Memᴰ x items × (x.asset_id ≡ a)
asset_id-item a [] m = absurd (Memᴰ.not-nil m)
asset_id-item a (y ∷ items) m = elim (Memᴰ.cases_cons m) [
  | inl e ↦ (y, Memᴰ.head refl, sym e)
  | inr n ↦ (let (x, k, e) = asset_id-item a items n in (x, Memᴰ.tail k, e))
]

module _ (batch : Batch) (found : List (Str × Resolved)) (blocked : List (Str × Str)) where
  abbrev items_from : ℕ → List Str → List Item
  items_from position asset_ids =
      items_for batch.id batch.tenant_id found blocked position asset_ids

  item_for-asset_id : (position : ℕ) (a : Str) → (made batch found blocked position a).asset_id ≡ a
  unfolding item_for fresh_item
  item_for-asset_id position a = ground arith

  items_for-asset_ids :
      (position : ℕ) (asset_ids : List Str)
      → map Item.asset_id (items_from position asset_ids) ≡ asset_ids
  unfolding items_for
  items_for-asset_ids position [] = refl
  items_for-asset_ids position (a ∷ asset_ids) =
      ap (λ x. x ∷ map Item.asset_id (items_from (suc position) asset_ids))
        (item_for-asset_id position a)
      ∙ ap (λ xs. a ∷ xs) (items_for-asset_ids (suc position) asset_ids)

  item_for-queued :
      (position : ℕ) (a : Str)
      → IsLinked found blocked a
      → (made batch found blocked position a).status ≡ queued
  unfolding item_for fresh_item
  item_for-queued position a (row, e, f, g) = ground arith

  mem-items_for :
      (position : ℕ) (asset_ids : List Str) (a : Str)
      → Memᴰ a asset_ids
      → (n : ℕ) × Memᴰ (made batch found blocked n a) (items_from position asset_ids)
  unfolding items_for
  mem-items_for position [] a m = absurd (Memᴰ.not-nil m)
  mem-items_for position (b ∷ asset_ids) a m = elim (Memᴰ.cases_cons m) [
    | inl e ↦ (position, Memᴰ.head (ap (made batch found blocked position) e))
    | inr k ↦ (let (n, there) = mem-items_for (suc position) asset_ids a k in (n, Memᴰ.tail there))
  ]

  is_sent : Item → Bool
  unfolding dec_status
  is_sent item = test (dec_status item.status queued)

  queue_iff :
      (asset_ids : List Str) (a : Str)
      → Memᴰ a (map Item.asset_id (keep is_sent (items_from 0 asset_ids)))
        ↔ (Memᴰ a asset_ids × IsLinked found blocked a)
  unfolding is_sent
  queue_iff asset_ids a = (
    λ m.
        let (x, k, e) = asset_id-item a (keep is_sent (items_from 0 asset_ids)) m in
        let (at, q) = (mem-keep is_sent x (items_from 0 asset_ids)).0 k in
        let (_, reach) =
          All-mem (IsSound batch found blocked) x (items_from 0 asset_ids)
            (items_for-IsSound batch found blocked 0 asset_ids) at in
        (
          subst (λ xs. Memᴰ a xs) (items_for-asset_ids 0 asset_ids)
              (subst (λ b. Memᴰ b (map Item.asset_id (items_from 0 asset_ids))) e
                (mem-asset_id x (items_from 0 asset_ids) at)),
          elim reach [
            | inl ne ↦ absurd (ne (status_of x q))
            | inr (row, f, same, accepted, free) ↦ (
              row,
              ap (λ b. lookup b found) (sym e) ∙ f,
              accepted,
              ap (text_at blocked) same ∙ free,
            )
          ],
        ),
    λ (m, linked).
        let (n, there) = mem-items_for 0 asset_ids a m in
        let x = made batch found blocked n a in
        let sent = is_sent_of x (item_for-queued n a linked) in
        subst (λ b. Memᴰ b (map Item.asset_id (keep is_sent (items_from 0 asset_ids))))
          (item_for-asset_id n a)
          (mem-asset_id x (keep is_sent (items_from 0 asset_ids))
            ((mem-keep is_sent x (items_from 0 asset_ids)).1 (there, sent))),
  )
    where
      status_of : (x : Item) → is_sent x ≡ true → x.status ≡ queued
      status_of x h = elim (dec_status x.status queued) [
        | yes e ↦ e
        | no ne ↦ absurd (ground arith)
      ]

      is_sent_of : (x : Item) → x.status ≡ queued → is_sent x ≡ true
      is_sent_of x h = rw h refl

module _ (t : Table dec_key item_key) (bt : Table dec_str Batch.id) where
  -- A batch that is created has an id that no batch had, and is stored. Every row of an item is as it was,
  -- unless there was none under its key. The items that are given to be sent have their rows, are queued,
  -- and belong to sprouts whose keys are accepted and that nothing blocks; they are for exactly the asset
  -- ids of the batch that are linked to such a sprout.
  pub create_batch-stores :
      (batch : Batch) (asset_ids : List Str) (resolved : List Resolved) (blocked : List (Str × Str))
      (batches batches' : bt.State) (s s' : t.State) (queue : List Item)
      → create_batch t bt batch asset_ids resolved blocked batches s ≡ ok (batches', s', queue)
      → ((k : Str × Str) → (t.find s k ≡ none) ⊎ (t.find s' k ≡ t.find s k))
        × (bt.find batches batch.id ≡ none)
        × (bt.find batches' batch.id ≡ some batch)
        × All (IsGiven t bt batch resolved blocked s') queue
        × ((a : Str)
            → Memᴰ a (map Item.asset_id queue)
              ↔ (Memᴰ a asset_ids × IsLinked (by_asset resolved []) blocked a))
  unfolding is_sent
  create_batch-stores batch asset_ids resolved blocked batches batches' s s' queue h =
      let items = items_of t bt batch asset_ids resolved blocked in
      let (free, created, saved, given) =
        create_batch-parts t bt batch asset_ids resolved blocked batches s (batches', s', queue)
          h in
      (
        λ k. elim (Option-cases (t.find s k)) [
          | inl absent ↦ inl absent
          | inr (row, there) ↦
              inr (create_each-keeps t bt items s s' k row created there ∙ sym there)
        ],
        free,
        ap (λ b. bt.find b batch.id) saved ∙ find-save_self bt batches batch,
        create_batch-IsGiven t bt batch asset_ids resolved blocked batches s (batches', s', queue)
            h,
        λ a.
            subst
              (λ items.
                Memᴰ a (map Item.asset_id items)
                ↔ (Memᴰ a asset_ids × IsLinked (by_asset resolved []) blocked a))
              (sym given) (queue_iff batch (by_asset resolved []) blocked asset_ids a),
      )
