-- ===== src/Saas/Rollout/Safety.antt =====
-- What a rollout of internal/saasapi/fleet_update_dispatch.go guarantees, wave by wave.
use Prim.Native.Nat.{ℕ, suc}
use mathlib.Core.Path.{◌≡◌, ap, ◌∙◌, sym, subst}
use mathlib.Core.Logic.{inl, inr}
use mathlib.Core.Bool.{true, false}
use mathlib.Core.Option.{some}
use mathlib.Core.List.{List, [], ◌∷◌, Memᴰ, map}
use mathlib.Core.List.Memᴰ
use grlx.Common.{Str, All, All-mem, All-of_mem, Memᴰ-append}
use grlx.Common.Table.{Table}
use grlx.Saas.Items.{Item, item_key, dec_key}
use grlx.Saas.Items.Moves.{Follows, Follows-refl, Follows-trans}
use grlx.Saas.Dispatch.{Batch, dispatch_batch}
use grlx.Saas.Dispatch.Progress.{InBatch, dispatch_batch-Follows}
use grlx.Saas.Rollout.{Surroundings, World, take_items, drop_items, send_wave, halted, after_get}
use grlx.Saas.Rollout.Gets.{after_get-Follows}
use grlx.Saas.Rollout.Halting.{halt-Follows}
use grlx.Saas.Rollout.Passed.{waits-Follows}
use grlx.Saas.Rollout.Waves.{
  Rolls, finished, stopped, failed, passed, wave_of, rest_of, take-append_drop,
}

pub mem-asset_ids :
    (item : Item) (wave : List Item) → Memᴰ item wave → Memᴰ item.asset_id (map Item.asset_id wave)
mem-asset_ids item [] m = absurd (Memᴰ.not-nil m)
mem-asset_ids item (x ∷ wave) m = elim (Memᴰ.cases_cons m) [
  | inl e ↦ Memᴰ.head (ap Item.asset_id e)
  | inr n ↦ Memᴰ.tail (mem-asset_ids item wave n)
]

module _ (t : Table dec_key item_key) (around : Surroundings) (batch : Batch) (size : ℕ)
    (version : Str) where
  open t use {State, find}
  open around use {ask_at}

  abbrev first_of : List Item → List Item
  first_of queue = wave_of t around batch size version queue

  -- The row of an item of the batch is there.
  abbrev pub HasRow : State → Item → Type 0
  HasRow s item =
      InBatch batch item × (row : Item) × (find s (item_key item) ≡ some row) × InBatch batch row

  pub HasRow-later :
      (s s' : State) (item : Item)
      → Follows t batch.id batch.tenant_id s s'
      → HasRow s item
      → HasRow s' item
  HasRow-later s s' item follows (within, row, found, rowed) =
      let (later, there, is_later) = follows (item_key item) row found in
      (
        within,
        later,
        there,
        (ap (λ x. x.0) is_later.same_item ∙ rowed.0, is_later.same_tenant ∙ rowed.1),
      )

  pub AreRowed-later :
      (queue : List Item) (s s' : State)
      → Follows t batch.id batch.tenant_id s s'
      → All (HasRow s) queue
      → All (HasRow s') queue
  AreRowed-later [] s s' follows h = tt
  AreRowed-later (x ∷ queue) s s' follows (here, h) =
      (HasRow-later s s' x follows here, AreRowed-later queue s s' follows h)

  pub part_of :
      (P : Item → Type 0) (queue : List Item)
      → All P queue
      → All P (first_of queue) × All P (rest_of t around batch size version queue)
  part_of P queue h =
      let split = subst (All P) (sym (take-append_drop (suc size) queue)) h in
      (
        All-of_mem P (take_items (suc size) queue)
            (λ x m. All-mem P x _ split ((Memᴰ-append x _ _).1 (inl m))),
        All-of_mem P (drop_items (suc size) queue) (λ x m. All-mem P x _ split (
            (Memᴰ-append x (take_items (suc size) queue) (drop_items (suc size) queue)).1 (inr m))),
      )

  pub send_wave-Follows :
      (wave : List Item) (w : World t)
      → All (HasRow w.sending.items) wave
      → Follows t batch.id batch.tenant_id w.sending.items
          (send_wave t around batch wave w).sending.items
  unfolding send_wave
  send_wave-Follows wave w h =
      let before = after_get t around batch w.now w.sending.items in
      let asked =
        dispatch_batch t (ask_at w.now) batch wave (record w.sending { items = before }) in
      let sent = send_wave t around batch wave w in
      Follows-trans t batch.id batch.tenant_id w.sending.items before sent.sending.items
        (after_get-Follows t around batch w.now w.sending.items)
        (Follows-trans t batch.id batch.tenant_id before asked.items sent.sending.items
          (dispatch_batch-Follows t batch (ask_at w.now) wave (record w.sending { items = before })
            (All-of_mem (InBatch batch) wave
              (λ x m. (All-mem (HasRow w.sending.items) x wave h m).0)))
          (after_get-Follows t around batch sent.now asked.items))

  pub Rolls-Follows :
      (queue : List Item) (w w' : World t)
      → Rolls t around batch size version queue w w'
      → All (HasRow w.sending.items) queue
      → Follows t batch.id batch.tenant_id w.sending.items w'.sending.items
  Rolls-Follows queue w w' (finished _) h = Follows-refl t batch.id batch.tenant_id w.sending.items
  Rolls-Follows queue w w' (stopped _ _ code e) h = halt-Follows t batch code w.sending.items
  Rolls-Follows queue w w' (failed _ _ mid e waits) h =
      let sent = send_wave t around batch (first_of queue) w in
      Follows-trans t batch.id batch.tenant_id w.sending.items sent.sending.items w'.sending.items
        (send_wave-Follows (first_of queue) w (part_of _ queue h).0)
        (Follows-trans t batch.id batch.tenant_id sent.sending.items mid.sending.items
          w'.sending.items (waits-Follows t around batch (first_of queue) sent mid false waits)
          (halt-Follows t batch halted mid.sending.items))
  Rolls-Follows queue w w' (passed _ _ mid _ e waits rest) h =
      let sent = send_wave t around batch (first_of queue) w in
      let before =
        Follows-trans t batch.id batch.tenant_id w.sending.items sent.sending.items
          mid.sending.items (send_wave-Follows (first_of queue) w (part_of _ queue h).0)
          (waits-Follows t around batch (first_of queue) sent mid true waits) in
      Follows-trans t batch.id batch.tenant_id w.sending.items mid.sending.items w'.sending.items
        before
        (Rolls-Follows (rest_of t around batch size version queue) mid w' rest
          (AreRowed-later _ w.sending.items mid.sending.items before (part_of _ queue h).1))
