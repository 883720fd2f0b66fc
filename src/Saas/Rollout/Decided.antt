-- ===== src/Saas/Rollout/Decided.antt =====
-- That `runRollout` of internal/saasapi/fleet_update_dispatch.go leaves no item of its queue queued.
use Prim.Native.Nat.{ℕ, suc}
use mathlib.Core.Path.{◌≡◌, refl, ap, ◌∙◌, sym, subst}
use mathlib.Core.Logic.{◌⊎◌, ◌≢◌, inl, inr}
use mathlib.Core.Bool.{true, false}
use mathlib.Core.Option.{some}
use mathlib.Core.List.{List, [], ◌∷◌}
use grlx.Common.{Str, All, All-mem, All-of_mem}
use grlx.Common.Table.{Table}
use grlx.Saas.Items.{Item, ItemStatus, queued, running, terminal, item_key, dec_key}
use grlx.Saas.Items.Moves.{
  Move, claimed, not_taken, accepted, exited, refused, job_failed, gave_up, Moves, stay, move,
  Follows,
}
use grlx.Saas.Dispatch.{Gate, job_status, dispatch, Batch}
use grlx.Saas.Rollout.Reading.{HasPassed}
use grlx.Saas.Rollout.{Surroundings, World, halted, halt_rollout}
use grlx.Saas.Rollout.Halting.{halt-clears}
use grlx.Saas.Rollout.Waves.{
  Rolls, finished, stopped, failed, passed, wave_of, rest_of, take-append_drop,
}
use grlx.Saas.Rollout.Safety.{HasRow, AreRowed-later, part_of, Rolls-Follows}
use grlx.Saas.Rollout.Passing.{Passes, both_All, first_of-Passes, first_of-Follows, Rowed-later}

-- A status of an item that was sent.
abbrev IsOut : ItemStatus → Type 0
IsOut status = (status ≡ running) ⊎ (terminal status ≡ true)

passed-IsOut : (gate : Gate) (status : ItemStatus) → HasPassed gate status → IsOut status
unfolding terminal
passed-IsOut job_status status e = inr (ap terminal e)
passed-IsOut dispatch status (inl e) = inl e
passed-IsOut dispatch status (inr e) = inr (ap terminal e)

Move-IsOut : (a b : ItemStatus) → Move a b → IsOut a → IsOut b
unfolding terminal
Move-IsOut a b claimed (inl e) = absurd (cc)
Move-IsOut a b claimed (inr e) = absurd (cc)
Move-IsOut a b not_taken (inl e) = absurd (cc)
Move-IsOut a b not_taken (inr e) = absurd (cc)
Move-IsOut a b accepted out = inl refl
Move-IsOut a b exited out = inr refl
Move-IsOut a b refused out = inr refl
Move-IsOut a b Move.finished out = inr refl
Move-IsOut a b job_failed out = inr refl
Move-IsOut a b gave_up out = inr refl
Move-IsOut a b Move.halted out = inr refl

Moves-IsOut : (a b : ItemStatus) → Moves a b → IsOut a → IsOut b
Moves-IsOut a b (stay _) out = out
Moves-IsOut a b (move _ c _ first rest) out = Moves-IsOut c b rest (Move-IsOut a c first out)

IsOut-ne-queued : (status : ItemStatus) → IsOut status → status ≢ queued
unfolding terminal
IsOut-ne-queued status (inl e) f = let g : running ≡ queued = sym e ∙ f in cc
IsOut-ne-queued status (inr e) f = let g : terminal queued ≡ true = ap terminal (sym f) ∙ e in cc

module _ (t : Table dec_key item_key) (batch : Batch) (around : Surroundings) (size : ℕ)
    (version : Str) where
  open t use {State, find}

  abbrev first_of : List Item → List Item
  first_of queue = wave_of t around batch size version queue

  abbrev later_of : List Item → List Item
  later_of queue = rest_of t around batch size version queue

  abbrev AreRowed : World t → List Item → Type 0
  AreRowed w queue = All (HasRow t around batch size version w.sending.items) queue

  -- The row of the item is not queued.
  abbrev pub IsDecided : State → Item → Type 0
  IsDecided s item = (row : Item) × (find s (item_key item) ≡ some row) × (row.status ≢ queued)

  -- The rows of a rollout that stops.
  pub halt_rollout-IsDecided :
      (code : Str) (items : List Item) (s : State)
      → All (HasRow t around batch size version s) items
      → All (IsDecided (halt_rollout t batch code s)) items
  halt_rollout-IsDecided code items s rowed =
      All-of_mem (IsDecided (halt_rollout t batch code s)) items (λ x m.
        let (_, row, found, within) =
          All-mem (HasRow t around batch size version s) x items rowed m in
        halt-clears t batch code s (item_key x) row found within)

  -- An item that passed stays out of the queue, however its row moves on.
  Passes-IsDecided :
      (items : List Item) (s s' : State)
      → All (Passes t batch s) items
      → Follows t batch.id batch.tenant_id s s'
      → All (IsDecided s') items
  Passes-IsDecided [] s s' h follows = tt
  Passes-IsDecided (x ∷ items) s s' ((row, found, has), h) follows =
      let (later, there, is_later) = follows (item_key x) row found in
      (
        (
          later,
          there,
          IsOut-ne-queued later.status (
              Moves-IsOut row.status later.status is_later.moves
                (passed-IsOut batch.rollout_gate row.status has)),
        ),
        Passes-IsDecided items s s' h follows,
      )

  pub Rolls-IsDecided :
      (queue : List Item) (w w' : World t)
      → Rolls t around batch size version queue w w'
      → AreRowed w queue
      → All (IsDecided w'.sending.items) queue
  Rolls-IsDecided queue w w' (finished _) rowed = tt
  Rolls-IsDecided queue w w' (stopped _ _ code e) rowed =
      halt_rollout-IsDecided code queue w.sending.items rowed
  Rolls-IsDecided queue w w' (failed _ _ mid e waits) rowed =
      halt_rollout-IsDecided halted queue mid.sending.items (
        AreRowed-later t around batch size version queue w.sending.items mid.sending.items
          (first_of-Follows t batch around size version queue w mid false rowed waits) rowed)
  Rolls-IsDecided queue w w' (passed _ _ mid _ e waits rolls) rowed =
      let (rows, _) =
        part_of t around batch size version (HasRow t around batch size version w.sending.items)
          queue rowed in
      subst (All (IsDecided w'.sending.items)) (take-append_drop (suc size) queue) (
        both_All (IsDecided w'.sending.items) (first_of queue) (later_of queue)
          (Passes-IsDecided (first_of queue) mid.sending.items w'.sending.items
            (first_of-Passes t batch around size version queue w mid rows waits)
            (Rolls-Follows t around batch size version (later_of queue) mid w' rolls
              (Rowed-later t batch around size version queue w mid true rowed waits)))
          (Rolls-IsDecided (later_of queue) mid w' rolls
            (Rowed-later t batch around size version queue w mid true rowed waits)))
