-- ===== src/Saas/Rollout/Passing.antt =====
-- What a wave of a rollout does to the rows, in internal/saasapi/fleet_update_dispatch.go.
use Prim.Native.Nat.{ℕ}
use mathlib.Core.Path.{◌≡◌, refl, ap, ◌∙◌}
use mathlib.Core.Bool.{Bool, true}
use mathlib.Core.Option.{some}
use mathlib.Core.List.{List, [], ◌∷◌, ◌++◌, map}
use grlx.Common.{Str, All, All-mem, All-of_mem, contains, contains_iff}
use grlx.Common.Table.{Table}
use grlx.Saas.Items.{Item, item_key, dec_key}
use grlx.Saas.Items.Moves.{Follows, Follows-trans}
use grlx.Saas.Dispatch.{Batch}
use grlx.Saas.Rollout.{Surroundings, World, send_wave}
use grlx.Saas.Rollout.Waiting.{Waits}
use grlx.Saas.Rollout.Reading.{HasPassed}
use grlx.Saas.Rollout.Passed.{waits-Follows, waits-passed}
use grlx.Saas.Rollout.Waves.{wave_of, rest_of}
use grlx.Saas.Rollout.Safety.{
  HasRow, HasRow-later, AreRowed-later, part_of, mem-asset_ids, send_wave-Follows,
}

pub both_All :
    {A : Type 0} (P : A → Type 0) (xs ys : List A) → All P xs → All P ys → All P (xs ++ ys)
both_All P [] ys h k = k
both_All P (x ∷ xs) ys (here, h) k = (here, both_All P xs ys h k)

module _ (t : Table dec_key item_key) (batch : Batch) where
  open t use {State, find}

  -- The item passed the gate of its rollout, and has the row of that.
  abbrev pub Passes : State → Item → Type 0
  Passes s item =
      (row : Item) × (find s (item_key item) ≡ some row) × HasPassed batch.rollout_gate row.status

  module _ (around : Surroundings) (size : ℕ) (version : Str) where
    abbrev first_of : List Item → List Item
    first_of queue = wave_of t around batch size version queue

    abbrev later_of : List Item → List Item
    later_of queue = rest_of t around batch size version queue

    abbrev sent_out : List Item → World t → World t
    sent_out queue w = send_wave t around batch (first_of queue) w

    pub first_of-Passes :
        (queue : List Item) (w mid : World t)
        → All (HasRow t around batch size version w.sending.items) (first_of queue)
        → Waits t around batch (first_of queue) (sent_out queue w) mid true
        → All (Passes mid.sending.items) (first_of queue)
    first_of-Passes queue w mid rowed waits =
        All-of_mem (Passes mid.sending.items) (first_of queue) (λ x m.
          let follows = send_wave-Follows t around batch size version (first_of queue) w rowed in
          let here = All-mem (HasRow t around batch size version w.sending.items) x _ rowed m in
          let (_, row, found, within) =
            HasRow-later t around batch size version w.sending.items
              (sent_out queue w).sending.items x follows here in
          let at = t.find-key (sent_out queue w).sending.items (item_key x) found in
          waits-passed t around batch (first_of queue) (sent_out queue w) mid true waits refl
            (item_key x) row
            (
              found,
              within,
              ap (contains (map Item.asset_id (first_of queue))) (ap (λ k. k.1) at)
                  ∙ (contains_iff (map Item.asset_id (first_of queue)) x.asset_id).1
                      (mem-asset_ids x (first_of queue) m),
            ))

    abbrev Rowed : World t → List Item → Type 0
    Rowed w queue = All (HasRow t around batch size version w.sending.items) queue

    -- What a wave does to the table.
    pub first_of-Follows :
        (queue : List Item) (w mid : World t) (b : Bool)
        → Rowed w queue
        → Waits t around batch (first_of queue) (sent_out queue w) mid b
        → Follows t batch.id batch.tenant_id w.sending.items mid.sending.items
    first_of-Follows queue w mid b rowed waits =
        let (of_wave, _) =
          part_of t around batch size version (HasRow t around batch size version w.sending.items)
            queue rowed in
        Follows-trans t batch.id batch.tenant_id w.sending.items (sent_out queue w).sending.items
          mid.sending.items
          (send_wave-Follows t around batch size version (first_of queue) w of_wave)
          (waits-Follows t around batch (first_of queue) (sent_out queue w) mid b waits)

    -- The rows at the end of a wave.
    pub Rowed-later :
        (queue : List Item) (w mid : World t) (b : Bool)
        → Rowed w queue
        → Waits t around batch (first_of queue) (sent_out queue w) mid b
        → Rowed mid (later_of queue)
    Rowed-later queue w mid b rowed waits =
        let (_, of_rest) =
          part_of t around batch size version (HasRow t around batch size version w.sending.items)
            queue rowed in
        AreRowed-later t around batch size version (later_of queue) w.sending.items
          mid.sending.items (first_of-Follows queue w mid b rowed waits) of_rest
