-- ===== src/Saas/Rollout/Passed.antt =====
-- When a wave of internal/saasapi/fleet_update_dispatch.go passes its gate.
use mathlib.Core.Path.{◌≡◌, refl, ap, ◌∙◌, sym, subst}
use mathlib.Core.Bool.{Bool, true, not, true≢false}
use mathlib.Core.Option.{some}
use mathlib.Core.List.{List, Memᴰ, map}
use grlx.Common.{Str, All, All-of_mem, contains}
use grlx.Common.Table.{Table}
use grlx.Saas.Items.{Item, item_key, dec_key}
use grlx.Saas.Items.Moves.{Follows, Follows-refl, Follows-trans}
use grlx.Saas.Dispatch.{Batch}
use grlx.Saas.Dispatch.Progress.{InBatch}
use grlx.Saas.Rollout.{
  is_accepted, is_unsettled, is_passing, Surroundings, World, with_items, slept, mark_unresponsive,
  after_get,
}
use grlx.Saas.Rollout.Reading.{
  HasPassed, all_of-mem, accepted-HasPassed, passing-HasPassed, mem-load_wave_items,
}
use grlx.Saas.Rollout.Waiting.{Waits, seen, settled, late, again, polled, read}
use grlx.Saas.Rollout.Gets.{after_get-Follows}
use grlx.Saas.Rollout.Wave.{refresh_items-effect, mark_unresponsive-Follows}

module _ (t : Table dec_key item_key) (around : Surroundings) (batch : Batch)
    (wave : List Item) where
  open t use {State, find}
  open around use {outcomes_at}

  read-InBatch : (w : World t) → All (InBatch batch) (read t around batch wave w)
  read-InBatch w =
      All-of_mem (InBatch batch) (read t around batch wave w)
        (λ x m. ((mem-load_wave_items t batch wave w.sending.items x).0 m).1)

  -- What a poll does to the table.
  refreshed-effect :
      (w : World t)
      → let items = read t around batch wave w in
        let after = polled t around batch wave w in
        Follows t batch.id batch.tenant_id w.sending.items after.0
        × All (InBatch batch) after.1
        × ((x : Item)
            → Memᴰ x items
            → (y : Item) × Memᴰ y after.1 × (find after.0 (item_key x) ≡ some y))
  refreshed-effect w =
      refresh_items-effect t batch (outcomes_at w.now) (read t around batch wave w) w.sending.items
        (read-InBatch w) (λ x m. ((mem-load_wave_items t batch wave w.sending.items x).0 m).0)

  -- What a poll and the sleep behind it do to the table.
  again-Follows :
      (w : World t)
      → Follows t batch.id batch.tenant_id w.sending.items
          (slept t around batch (with_items t (polled t around batch wave w).0 w)).sending.items
  again-Follows w =
      let after = polled t around batch wave w in
      Follows-trans t batch.id batch.tenant_id w.sending.items after.0
        (after_get t around batch w.now after.0) (refreshed-effect w).0
        (after_get-Follows t around batch w.now after.0)

  pub waits-Follows :
      (w w' : World t) (b : Bool)
      → Waits t around batch wave w w' b
      → Follows t batch.id batch.tenant_id w.sending.items w'.sending.items
  waits-Follows w w' b (seen _ e) = Follows-refl t batch.id batch.tenant_id w.sending.items
  waits-Follows w w' b (settled _ e h) = (refreshed-effect w).0
  waits-Follows w w' b (late _ e) =
      let (follows, within, _) = refreshed-effect w in
      let after = polled t around batch wave w in
      Follows-trans t batch.id batch.tenant_id w.sending.items after.0
        (mark_unresponsive t after.1 after.0) follows
        (mark_unresponsive-Follows t batch after.1 after.0 within)
  waits-Follows w w' b (again _ _ _ e rest) =
      let next = slept t around batch (with_items t (polled t around batch wave w).0 w) in
      Follows-trans t batch.id batch.tenant_id w.sending.items next.sending.items w'.sending.items
        (again-Follows w) (waits-Follows next w' b rest)

  pub waits-sent :
      (w w' : World t) (b : Bool)
      → Waits t around batch wave w w' b
      → w'.sending.sent ≡ w.sending.sent
  waits-sent w w' b (seen _ e) = refl
  waits-sent w w' b (settled _ e h) = refl
  waits-sent w w' b (late _ e) = refl
  waits-sent w w' b (again _ _ _ e rest) =
      waits-sent (slept t around batch (with_items t (polled t around batch wave w).0 w)) w' b rest

  -- A row of an item of the wave.
  abbrev pub OfWave : State → Str × Str → Item → Type 0
  OfWave s k row =
      (find s k ≡ some row)
      × InBatch batch row
      × (contains (map Item.asset_id wave) row.asset_id ≡ true)

  -- In a wave that passes, each item passes.
  pub waits-passed :
      (w w' : World t) (b : Bool)
      → Waits t around batch wave w w' b
      → b ≡ true
      → (k : Str × Str) (row : Item) → OfWave w.sending.items k row
      → (later : Item) × (find w'.sending.items k ≡ some later)
        × HasPassed batch.rollout_gate later.status
  waits-passed w w' b (seen _ e) h k row (there, within, here) =
      let at : item_key row ≡ k = t.find-key w.sending.items k there in
      let m =
        (mem-load_wave_items t batch wave w.sending.items row).1
          (ap (find w.sending.items) at ∙ there, within, here) in
      (
        row,
        there,
        subst (λ g. HasPassed g row.status) (sym e)
            (accepted-HasPassed row (all_of-mem is_accepted (read t around batch wave w) row h m)),
      )
  waits-passed w w' b (settled _ e f) h k row (there, within, here) =
      let at : item_key row ≡ k = t.find-key w.sending.items k there in
      let m =
        (mem-load_wave_items t batch wave w.sending.items row).1
          (ap (find w.sending.items) at ∙ there, within, here) in
      let after = polled t around batch wave w in
      let (y, n, found) = (refreshed-effect w).2 row m in
      (
        y,
        ap (find after.0) (sym at) ∙ found,
        subst (λ g. HasPassed g y.status) (sym e)
            (passing-HasPassed y (all_of-mem (λ item. not (is_unsettled item)) after.1 y f n)
              (all_of-mem is_passing after.1 y h n)),
      )
  waits-passed w w' b (late _ e) h k row there = absurd (true≢false (sym h))
  waits-passed w w' b (again _ _ _ e rest) h k row (there, within, here) =
      let after = polled t around batch wave w in
      let (later, found, is_later) = again-Follows w k row there in
      waits-passed (slept t around batch (with_items t after.0 w)) w' b rest h k later (
        found,
        (ap (λ x. x.0) is_later.same_item ∙ within.0, is_later.same_tenant ∙ within.1),
        ap (λ x. contains (map Item.asset_id wave) x.1) is_later.same_item ∙ here,
      )
