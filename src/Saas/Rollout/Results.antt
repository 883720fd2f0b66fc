-- ===== src/Saas/Rollout/Results.antt =====
-- The results on `runRollout` of internal/saasapi/fleet_update_dispatch.go.
use Prim.Native.Nat.{ℕ, suc, ◌≤◌}
use mathlib.Core.Path.{◌≡◌, refl, ◌∙◌, sym, subst}
use mathlib.Core.Logic.{◌⊎◌, inl, inr}
use mathlib.Core.Bool.{Bool, true, false, ◌&&◌, not}
use mathlib.Core.Option.{Option, some}
use mathlib.Core.List.{List, [], ◌∷◌}
use native.Mathlib.Omega.{arith}
use grlx.Common.{Str, length, All, Bool-cases}
use grlx.Common.Table.{Table}
use grlx.Saas.Items.{Item, item_key, dec_key}
use grlx.Saas.Items.Moves.{Follows, IsLater, Follows-refl}
use grlx.Saas.Dispatch.{Batch}
use grlx.Saas.Dispatch.Progress.{InBatch}
use grlx.Saas.Rollout.{
  Surroundings, World, internal, halted_world, less_one, needs_reader, run_waves, run_rollout,
}
use grlx.Saas.Rollout.Halting.{halt-Follows}
use grlx.Saas.Rollout.Waves.{Rolls, run_waves-Rolls, run_waves-ends}
use grlx.Saas.Rollout.Safety.{HasRow, Rolls-Follows}
use grlx.Saas.Rollout.Report.{Report}
use grlx.Saas.Rollout.Decided.{IsDecided, halt_rollout-IsDecided, Rolls-IsDecided}

module _ (t : Table dec_key item_key) (around : Surroundings) (batch : Batch) (version : Str) where
  open t use {State, find}

  -- The waves that a rollout has, if it has any.
  pub data Runs : Bool → List Item → World t → World t → Type 0 where
    no_bus : (queue : List Item) (w : World t) → Runs false queue w w
    no_reader :
        (queue : List Item) (w : World t)
        → Runs true queue w (halted_world t around batch internal w)
    in_waves :
        (queue : List Item) (w w' : World t)
        → Rolls t around batch (less_one batch.rollout_batch_size) version queue w w'
        → Runs true queue w w'

  same_world : {x y : World t} → ◌≡◌ {A = Option (World t)} (some x) (some y) → x ≡ y
  same_world e = cc

  -- With a message bus, a rollout has its waves, or no reader where its gate needs one.
  run_rollout-cases :
      (has_reader : Bool) (polls : ℕ) (queue : List Item) (w : World t)
      → (run_rollout t around batch true has_reader polls version queue w
          ≡ run_waves t around batch
              (suc (length queue))
              polls
              (less_one batch.rollout_batch_size)
              version
              queue
              w)
        ⊎ (run_rollout t around batch true has_reader polls version queue w
            ≡ some (halted_world t around batch internal w))
  unfolding run_rollout
  run_rollout-cases has_reader polls queue w =
      elim (Bool-cases (needs_reader batch.rollout_gate && not has_reader)) [
        | inl e ↦ inr (rw (run_rollout, e) refl)
        | inr e ↦ inl (rw (run_rollout, e) refl)
      ]

  run_rollout-Runs :
      (has_bus has_reader : Bool) (polls : ℕ) (queue : List Item) (w w' : World t)
      → run_rollout t around batch has_bus has_reader polls version queue w ≡ some w'
      → Runs has_bus queue w w'
  unfolding run_rollout
  run_rollout-Runs false has_reader polls queue w w' h =
      subst (Runs false queue w) (same_world h) (no_bus queue w)
  run_rollout-Runs true has_reader polls queue w w' h =
      elim (run_rollout-cases has_reader polls queue w) [
        | inl e ↦ in_waves queue w w' (
            run_waves-Rolls t around batch (less_one batch.rollout_batch_size) version
              (suc (length queue)) polls queue w w' (sym e ∙ h))
        | inr e ↦ subst (Runs true queue w) (same_world (sym e ∙ h)) (no_reader queue w)
      ]

  -- A rollout ends, whatever it meets, within 121 polls for each of its waves: a poll takes at least
  -- `rolloutPollInterval`, and a wave has `rolloutWaveTimeout`.
  pub run_rollout-ends :
      (has_bus has_reader : Bool) (polls : ℕ) (queue : List Item) (w : World t)
      → 120 ≤ polls
      → (w' : World t) × (run_rollout t around batch has_bus has_reader (suc polls) version queue w
          ≡ some w')
  unfolding run_rollout
  run_rollout-ends false has_reader polls queue w enough = (w, refl)
  run_rollout-ends true has_reader polls queue w enough =
      elim (run_rollout-cases has_reader (suc polls) queue w) [
        | inr e ↦ (_, e)
        | inl e ↦
            (let (w', f) =
                run_waves-ends t around batch (less_one batch.rollout_batch_size) version
                  (suc (length queue)) polls queue w (omega arith) enough in
              (w', e ∙ f))
      ]

  -- The rows of the queue as the batch was created with them.
  abbrev pub AreStored : State → List Item → Type 0
  AreStored s queue = All (λ item. InBatch batch item × (find s (item_key item) ≡ some item)) queue

  abbrev size : ℕ
  size = less_one batch.rollout_batch_size

  stored_rowed :
      (queue : List Item) (s : State)
      → AreStored s queue
      → All (HasRow t around batch size version s) queue
  stored_rowed [] s h = tt
  stored_rowed (x ∷ queue) s ((within, found), h) =
      ((within, x, found, within), stored_rowed queue s h)

  -- Every row of the table has a row with the same columns that identify it, whose status follows by
  -- moves of the state machine; it is the same row, unless it was in the batch and its status not
  -- terminal.
  pub run_rollout-IsLater :
      (has_bus has_reader : Bool) (polls : ℕ) (queue : List Item) (w w' : World t) (k : Str × Str)
      (row : Item)
      → AreStored w.sending.items queue
      → run_rollout t around batch has_bus has_reader polls version queue w ≡ some w'
      → find w.sending.items k ≡ some row
      → (later : Item) × (find w'.sending.items k ≡ some later)
        × IsLater batch.id batch.tenant_id row later
  run_rollout-IsLater has_bus has_reader polls queue w w' k row stored h =
      follows has_bus w' (run_rollout-Runs has_bus has_reader polls queue w w' h) k row
    where
      follows :
          (has_bus : Bool) (w' : World t)
          → Runs has_bus queue w w'
          → Follows t batch.id batch.tenant_id w.sending.items w'.sending.items
      follows _ _ (no_bus _ _) = Follows-refl t batch.id batch.tenant_id w.sending.items
      follows _ _ (no_reader _ _) = halt-Follows t batch internal w.sending.items
      follows _ w' (in_waves _ _ _ rolls) =
          Rolls-Follows t around batch size version queue w w' rolls
            (stored_rowed queue w.sending.items stored)

  -- With a message bus, a rollout that ends leaves no item of its queue queued.
  pub run_rollout-decides :
      (has_reader : Bool) (polls : ℕ) (queue : List Item) (w w' : World t)
      → AreStored w.sending.items queue
      → run_rollout t around batch true has_reader polls version queue w ≡ some w'
      → All (IsDecided t batch around size version w'.sending.items) queue
  run_rollout-decides has_reader polls queue w w' stored h =
      let rowed = stored_rowed queue w.sending.items stored in
      elim (run_rollout-cases has_reader polls queue w) [
        | inl e ↦
            Rolls-IsDecided t batch around size version queue w w'
              (run_waves-Rolls t around batch size version (suc (length queue)) polls queue w w'
                (sym e ∙ h))
              rowed
        | inr e ↦
            subst
              (λ (x : World t). All (IsDecided t batch around size version x.sending.items) queue)
              (same_world (sym e ∙ h))
              (halt_rollout-IsDecided t batch around size version internal queue w.sending.items
                rowed)
      ]
