-- ===== src/Saas/Rollout.antt =====
-- internal/saasapi/fleet_update_dispatch.go: a rollout sends the items of a batch in waves, and stops
-- at the first wave that does not pass its gate.
pub mod Reading
pub mod Waiting
pub mod Wave
pub mod Gets
pub mod Passed
pub mod Waves
pub mod Halting
pub mod Safety
pub mod Passing
pub mod Report
pub mod Decided
pub mod Results
use Prim.Native.Nat.{ℕ, zero, suc, ◌+◌}
use mathlib.Core.Bool.{Bool, true, false, ◌&&◌, ◌||◌, not}
use mathlib.Core.Option.{Option, none, some}
use mathlib.Core.List.{List, [], ◌∷◌, map}
use grlx.Common.{
  Str, str, dec_str, ◌==◌, leb, length, keep, contains, test, Result, ok, err, if◌then◌else◌,
}
use grlx.Common.Table.{Table}
use grlx.Common.Table.Bulk.{update_where}
use grlx.Saas.Items.{
  Item, ItemStatus, unresolved, queued, dispatching, running, succeeded, failed,
  unresponsive_after_update, dec_status, item_key, dec_key, Update, only, failed_update, assign,
  update_item,
}
use grlx.Saas.PolicyCheck.{TenantUpdatePolicy, rollout_policy_check}
use grlx.Saas.Dispatch.{
  Gate, job_status, dispatch, Batch, Answer, JobOutcome, Sending, dispatch_batch, refresh_items,
}

abbrev pub halted : Str
halted = str "rollout_halted"

abbrev pub unresponsive : Str
unresponsive = str "unresponsive_after_update"

abbrev pub internal : Str
internal = str "internal_error"

-- What a rollout meets, at the times at which it looks: the row of the tenant or a failed query, the
-- answers to requests, the outcomes of jobs, those that a request for the status of the batch finds if one
-- comes, and the time that waiting for the replies of a wave and sleeping take.
pub record Surroundings : Type 0 where
  pub policy_at : ℕ → Result Str (Option TenantUpdatePolicy)
  pub ask_at : ℕ → Item → Answer
  pub outcomes_at : ℕ → Option (Item → JobOutcome)
  pub gets_at : ℕ → Option (Item → JobOutcome)
  pub replies_take : ℕ → ℕ
  pub sleep_adds : ℕ → ℕ

-- `rolloutWaveTimeout` and `rolloutPollInterval`, in seconds
abbrev pub wave_timeout : ℕ
wave_timeout = 1800

abbrev pub poll_interval : ℕ
poll_interval = 15

unfoldable pub take_items : ℕ → List Item → List Item
take_items zero items = []
take_items (suc n) [] = []
take_items (suc n) (item ∷ items) = item ∷ take_items n items

unfoldable pub drop_items : ℕ → List Item → List Item
drop_items zero items = items
drop_items (suc n) [] = []
drop_items (suc n) (item ∷ items) = drop_items n items

-- `Order("position")`
unfoldable pub put_by_position : Item → List Item → List Item
put_by_position item [] = item ∷ []
put_by_position item (other ∷ items) =
    let rest = put_by_position item items in
    if leb item.position other.position then item ∷ other ∷ items else other ∷ rest

unfoldable pub by_position : List Item → List Item
unfolding put_by_position
by_position [] = []
by_position (item ∷ items) = put_by_position item (by_position items)

-- The tests of `awaitWave` on the items of a wave.
abbrev pub is_accepted : Item → Bool
is_accepted item = test (dec_status item.status running) || test (dec_status item.status succeeded)

abbrev pub is_unsettled : Item → Bool
is_unsettled item =
    test (dec_status item.status running) || test (dec_status item.status dispatching)

abbrev pub is_passing : Item → Bool
is_passing item = is_unsettled item || test (dec_status item.status succeeded)

unfoldable pub all_of : (Item → Bool) → List Item → Bool
all_of p [] = true
all_of p (item ∷ items) = p item && all_of p items

-- `batch.RolloutGate == gateJobStatus`
abbrev pub needs_reader : Gate → Bool
needs_reader job_status = true
needs_reader dispatch = false

-- `size < 1` gives waves of one item.
abbrev pub less_one : ℕ → ℕ
less_one zero = zero
less_one (suc n) = n

module _ (t : Table dec_key item_key) where
  open t use {State, select}

  -- The table with the requests sent, and the clock.
  pub record World : Type 0 where
    pub sending : Sending t
    pub now : ℕ

  -- `loadWaveItems`
  unfoldable pub load_wave_items : Batch → List Item → State → List Item
  unfolding by_position contains
  load_wave_items batch wave s = by_position (
      select s (λ row.
        row.batch_id == batch.id
        && row.tenant_id == batch.tenant_id
        && contains (map Item.asset_id wave) row.asset_id))

  -- `markUnresponsive`
  unfoldable pub mark_unresponsive : List Item → State → State
  unfolding update_item assign dec_status
  mark_unresponsive [] s = s
  mark_unresponsive (item ∷ items) s =
      let marked =
        (update_item t s item running
          (assign (record (only unresponsive_after_update) { code = some unresponsive }))).0 in
      if test (dec_status item.status running)
      then mark_unresponsive items marked
      else mark_unresponsive items s

  -- `haltRollout`
  unfoldable pub halt_rollout : Batch → Str → State → State
  unfolding update_where assign dec_status
  halt_rollout batch code s =
      update_where t s
        (λ row.
          row.batch_id == batch.id
          && row.tenant_id == batch.tenant_id
          && test (dec_status row.status queued))
        (assign (failed_update code))

  abbrev pub with_items : State → World → World
  with_items s w = record w { sending = record w.sending { items = s } }

  module _ (around : Surroundings) (batch : Batch) where
    open around use {policy_at, ask_at, outcomes_at, gets_at, replies_take, sleep_adds}

    -- The rows after a request for the status of the batch (`writeBatchStatus`), if one comes at the time.
    unfoldable pub after_get : ℕ → State → State
    unfolding by_position refresh_items
    after_get now s =
        (refresh_items t (gets_at now)
          (by_position
            (select s (λ row. row.batch_id == batch.id && row.tenant_id == batch.tenant_id)))
          s).0

    -- Requests come in while a poll sleeps.
    abbrev pub slept : World → World
    slept w = record {
      sending = record w.sending { items = after_get w.now w.sending.items };
      now = w.now + poll_interval + sleep_adds w.now;
    }

    -- The loop of `awaitWave`, which `polls` bounds; whether the wave passed comes with the world.
    unfoldable pub poll : ℕ → ℕ → List Item → World → Option (World × Bool)
    unfolding load_wave_items refresh_items mark_unresponsive all_of after_get
    poll zero deadline wave w = none
    poll (suc polls) deadline wave w =
        let items = load_wave_items batch wave w.sending.items in
        let (s, polled) = refresh_items t (outcomes_at w.now) items w.sending.items in
        elim batch.rollout_gate [
          | dispatch ↦ some (w, all_of is_accepted items)
          | job_status ↦
              if all_of (λ item. not (is_unsettled item)) polled
              then some (with_items s w, all_of is_passing polled)
              else if leb deadline w.now
              then some (with_items (mark_unresponsive polled s) w, false)
              else poll polls deadline wave (slept (with_items s w))
        ]

    -- `awaitWave`
    unfoldable pub await_wave : ℕ → List Item → World → Option (World × Bool)
    unfolding poll
    await_wave polls wave w = poll polls (w.now + wave_timeout) wave w

    -- `dispatchBatch`, which waits for the replies. Requests come in before and after it.
    unfoldable pub send_wave : List Item → World → World
    unfolding dispatch_batch after_get
    send_wave wave w =
        let asked =
          dispatch_batch t (ask_at w.now) batch wave
            (record w.sending { items = after_get w.now w.sending.items }) in
        let now = w.now + replies_take w.now in
        record { sending = record asked { items = after_get now asked.items }; now = now }

    -- The code of the check before a wave; a failed query has one, too.
    unfoldable pub stop_code : Str → ℕ → Option Str
    unfolding rollout_policy_check
    stop_code version now = elim (policy_at now) [
      | err e ↦ some internal
      | ok policy ↦ rollout_policy_check policy version now
    ]

    abbrev pub halted_world : Str → World → World
    halted_world code w = with_items (halt_rollout batch code w.sending.items) w

    -- The waves of `runRollout` of `suc size` items; `waves` bounds their number.
    unfoldable pub run_waves : ℕ → ℕ → ℕ → Str → List Item → World → Option World
    unfolding stop_code await_wave send_wave halt_rollout take_items drop_items
    run_waves zero polls size version queue w = none
    run_waves (suc waves) polls size version [] w = some w
    run_waves (suc waves) polls size version (item ∷ queue) w =
        let wave = take_items (suc size) (item ∷ queue) in
        elim (stop_code version w.now) [
          | some code ↦ some (halted_world code w)
          | none ↦ elim (await_wave polls wave (send_wave wave w)) [
            | none ↦ none
            | some (w', true) ↦
                run_waves waves polls size version (drop_items (suc size) (item ∷ queue)) w'
            | some (w', false) ↦ some (halted_world halted w')
          ]
        ]

    -- `runRollout`, where the message bus and the reader of jobs may be missing.
    unfoldable pub run_rollout : Bool → Bool → ℕ → Str → List Item → World → Option World
    unfolding run_waves halt_rollout
    run_rollout has_bus has_reader polls version queue w =
        if not has_bus
        then some w
        else if needs_reader batch.rollout_gate && not has_reader
        then some (halted_world internal w)
        else run_waves (suc (length queue)) polls (less_one batch.rollout_batch_size) version queue
            w
