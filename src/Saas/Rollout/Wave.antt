-- ===== src/Saas/Rollout/Wave.antt =====
-- What a wait for a wave of internal/saasapi/fleet_update_dispatch.go leaves in the table.
use mathlib.Core.Path.{◌≡◌, ap, sym, subst}
use mathlib.Core.Logic.{inl, inr}
use mathlib.Core.Option.{Option, none, some}
use mathlib.Core.List.{List, [], ◌∷◌, Memᴰ, map}
use mathlib.Core.List.Memᴰ
use grlx.Common.{All, test, Bool-cases}
use grlx.Common.Table.{Table}
use grlx.Saas.Items.{
  Item, running, unresponsive_after_update, dec_status, item_key, dec_key, Update, only, assign,
  update_item,
}
use grlx.Saas.Items.Moves.{gave_up, Follows, Follows-refl, Follows-trans}
use grlx.Saas.Dispatch.{Batch, JobOutcome, refresh_items}
use grlx.Saas.Dispatch.Progress.{InBatch, move-Follows}
use grlx.Saas.Dispatch.Outcomes.{
  after, refresh_item-cases, refresh_each-Follows, refresh_each-after,
}
use grlx.Saas.Dispatch.Copies.{refresh_each-Done}
use grlx.Saas.Rollout.{mark_unresponsive, unresponsive}

module _ (t : Table dec_key item_key) (batch : Batch) where
  open t use {State, find}

  mem-map :
      (f : Item → Item) (x : Item) (items : List Item) → Memᴰ x items → Memᴰ (f x) (map f items)
  mem-map f x [] m = absurd (Memᴰ.not-nil m)
  mem-map f x (y ∷ items) m = elim (Memᴰ.cases_cons m) [
    | inl e ↦ Memᴰ.head (ap f e)
    | inr n ↦ Memᴰ.tail (mem-map f x items n)
  ]

  after-InBatch :
      (outcomes : Item → JobOutcome) (s : State) (x : Item)
      → InBatch batch x
      → InBatch batch (after t outcomes x)
  unfolding assign
  after-InBatch outcomes s x within = elim (refresh_item-cases t outcomes x s) [
    | inl (_, e) ↦ subst (InBatch batch) (sym e) within
    | inr (u, m, ne, at, e, _) ↦ subst (InBatch batch) (sym e) within
  ]

  map-after-InBatch :
      (outcomes : Item → JobOutcome) (s : State) (items : List Item)
      → All (InBatch batch) items
      → All (InBatch batch) (map (after t outcomes) items)
  map-after-InBatch outcomes s [] within = tt
  map-after-InBatch outcomes s (x ∷ items) (here, within) =
      (after-InBatch outcomes s x here, map-after-InBatch outcomes s items within)

  -- The rows that were read, after `refreshItems`.
  pub refresh_items-effect :
      (o : Option (Item → JobOutcome)) (items : List Item) (s : State)
      → All (InBatch batch) items
      → ((x : Item) → Memᴰ x items → find s (item_key x) ≡ some x)
      → Follows t batch.id batch.tenant_id s (refresh_items t o items s).0
        × All (InBatch batch) (refresh_items t o items s).1
        × ((x : Item)
            → Memᴰ x items
            → (y : Item) × Memᴰ y (refresh_items t o items s).1
              × (find (refresh_items t o items s).0 (item_key x) ≡ some y))
  unfolding refresh_items
  refresh_items-effect none items s within copied =
      (Follows-refl t batch.id batch.tenant_id s, within, λ x m. (x, m, copied x m))
  refresh_items-effect (some outcomes) items s within copied = (
    refresh_each-Follows t outcomes batch items s within,
    subst (All (InBatch batch)) (sym (refresh_each-after t outcomes items s))
        (map-after-InBatch outcomes s items within),
    λ x m. (
      after t outcomes x,
      subst (Memᴰ (after t outcomes x)) (sym (refresh_each-after t outcomes items s))
          (mem-map (after t outcomes) x items m),
      refresh_each-Done t outcomes s items s (λ y n. (copied y n, inl (copied y n))) x m,
    ),
  )

  pub mark_unresponsive-Follows :
      (items : List Item) (s : State)
      → All (InBatch batch) items
      → Follows t batch.id batch.tenant_id s (mark_unresponsive t items s)
  unfolding mark_unresponsive
  mark_unresponsive-Follows [] s within = Follows-refl t batch.id batch.tenant_id s
  mark_unresponsive-Follows (x ∷ items) s (here, within) =
      let u : Update = record (only unresponsive_after_update) { code = some unresponsive } in
      let marked = (update_item t s x running (assign u)).0 in
      elim (Bool-cases (test (dec_status x.status running))) [
        | inl e ↦ rw e (
            Follows-trans t batch.id batch.tenant_id s marked (mark_unresponsive t items marked)
              (move-Follows t batch s x running u gave_up here)
              (mark_unresponsive-Follows items marked within))
        | inr e ↦ rw e (mark_unresponsive-Follows items s within)
      ]
