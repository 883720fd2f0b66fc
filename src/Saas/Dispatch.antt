-- ===== src/Saas/Dispatch.antt =====
-- internal/saasapi/sprout_actions.go: the dispatch of the items of a batch to the farmer, and the
-- outcomes of the jobs that this started.
pub mod Progress
pub mod Outcomes
pub mod Copies
use Prim.Native.Nat.{ℕ, zero, suc}
use mathlib.Core.Bool.{Bool, true, false, ◌&&◌, ◌||◌, not}
use mathlib.Core.Option.{Option, none, some}
use mathlib.Core.List.{List, [], ◌∷◌, ◌++◌}
use grlx.Common.{Str, str, dec_str, ◌==◌, byte_eq, leb, size, test, if◌then◌else◌}
use grlx.Common.Table.{Table}
use grlx.Saas.Items.{
  Item, ItemStatus, queued, dispatching, running, succeeded, failed, dec_status, item_key, dec_key,
  Update, only, failed_update, assign, update_item,
}

-- The two gates of `fleet_update_dispatch.go` that a rollout may have.
pub data Gate : Type 0 where
  job_status dispatch : Gate

-- `AssetActionBatch`, without the request and the parameters that go to the farmer; `rollout_gate` is
-- read for rollouts alone.
pub record Batch : Type 0 where
  pub id : Str
  pub tenant_id : Str
  pub action_type : Str
  pub rollout_batch_size : ℕ
  pub rollout_gate : Gate

-- `controlplane.SproutActionReply`, with the exit code of its result.
pub record Reply : Type 0 where
  pub tenant_id : Str
  pub sprout_id : Str
  pub status : Str
  pub jid : Str
  pub error_code : Str
  pub result : Option ℕ

-- What `RequestWithContext` gives: no farmer is there, no reply came, or a reply, which may be
-- unreadable.
pub data Answer : Type 0 where
  no_responders no_reply : Answer
  replied : Option Reply → Answer

-- `farmerErrorCode`
unfoldable pub farmer_error_code : Str → Str
unfolding dec_str
farmer_error_code code =
    if code == str "invalid_request"
      || code == str "unsupported_action"
      || code == str "sprout_not_found"
      || code == str "sprout_unreachable"
    then code
    else str "internal_error"

-- `jobTracked`
unfoldable pub job_tracked : Str → Bool
unfolding dec_str
job_tracked action_type = action_type == str "cook" || action_type == str "self_update"

abbrev between : ℕ → ℕ → ℕ → Bool
between low high c = leb low c && leb c high

abbrev are_job_id_bytes : Str → Bool
are_job_id_bytes [] = true
are_job_id_bytes (c ∷ s) =
    (between 48 57 c || between 97 122 c || between 65 90 c || byte_eq c 95 || byte_eq c 45)
    && are_job_id_bytes s

-- `ValidJobID` of internal/controlplane/controlplane.go
unfoldable pub valid_job_id : Str → Bool
valid_job_id [] = false
valid_job_id (c ∷ s) = leb (size (c ∷ s)) 36 && are_job_id_bytes (c ∷ s)

abbrev outcome_unknown : Str
outcome_unknown = str "dispatch_outcome_unknown"

-- The end of `replyUpdate`, where the reply is for the item.
unfoldable pub accepted_update : Batch → Reply → Update
unfolding dec_str farmer_error_code job_tracked valid_job_id
accepted_update batch reply =
    let unexpected = failed_update (str "internal_error") in
    let dispatched =
      if reply.status == str "dispatched" && job_tracked batch.action_type && valid_job_id reply.jid
      then record (only running) { job = some reply.jid }
      else unexpected in
    if reply.status == str "failed"
    then failed_update (farmer_error_code reply.error_code)
    else if reply.status == str "completed" && batch.action_type == str "cmd.run"
    then elim reply.result [
      | none ↦ dispatched
      | some zero ↦ record (only succeeded) { exit = some 0 }
      | some (suc n) ↦ record (failed_update (str "command_failed")) { exit = some (suc n) }
    ]
    else dispatched

-- `replyUpdate`
unfoldable pub reply_update : Batch → Item → Option Reply → Update
unfolding accepted_update dec_str
reply_update batch item none = failed_update outcome_unknown
reply_update batch item (some reply) =
    if not (reply.tenant_id == batch.tenant_id) || not (reply.sprout_id == item.sprout_id)
    then failed_update outcome_unknown
    else accepted_update batch reply

-- The update that `dispatchItem` records for an answer.
unfoldable pub answer_update : Batch → Item → Answer → Update
unfolding reply_update
answer_update batch item no_responders = only queued
answer_update batch item no_reply = failed_update outcome_unknown
answer_update batch item (replied reply) = reply_update batch item reply

unfoldable pub claim : Item → Item
claim row = record row { status = dispatching; attempts = suc row.attempts }

-- `JobOutcome`; a job without an outcome is one that runs, as both leave its item alone.
pub data JobOutcome : Type 0 where
  job_running job_succeeded job_failed : JobOutcome

-- The update for an outcome of a job, if there is one.
unfoldable pub outcome_update : JobOutcome → Option Update
outcome_update job_running = none
outcome_update job_succeeded = some (only succeeded)
outcome_update job_failed = some (failed_update (str "job_failed"))

-- `it.Status == ActionItemRunning && it.JID != ""`
unfoldable pub awaits_job : Item → Bool
unfolding dec_status dec_str
awaits_job item = test (dec_status item.status running) && not (item.jid == [])

module _ (t : Table dec_key item_key) where
  open t use {State}

  -- The table, and the keys of the items that a request was sent for, with the last one first.
  pub record Sending : Type 0 where
    pub items : State
    pub sent : List (Str × Str)

  -- `dispatchItem`: a claim, a request if the claim succeeds, and the outcome.
  unfoldable pub dispatch_item : (Item → Answer) → Batch → Item → Sending → Sending
  unfolding update_item claim answer_update assign
  dispatch_item ask batch item s =
      let (claimed, was_claimed) = update_item t s.items item queued claim in
      if was_claimed
      then record {
        items =
            (update_item t claimed item dispatching
              (assign (answer_update batch item (ask item)))).0;
        sent = item_key item ∷ s.sent;
      }
      else s

  -- `dispatchBatch`: each goroutine reads and writes the row of its item alone.
  unfoldable pub dispatch_batch : (Item → Answer) → Batch → List Item → Sending → Sending
  unfolding dispatch_item
  dispatch_batch ask batch [] s = s
  dispatch_batch ask batch (item ∷ items) s =
      dispatch_batch ask batch items (dispatch_item ask batch item s)

  -- One round of the last loop of `refreshItems`: the row and the copy of it in memory.
  unfoldable pub refresh_item : (Item → JobOutcome) → Item → State → State × Item
  unfolding outcome_update awaits_job update_item assign
  refresh_item outcomes item s =
      if awaits_job item
      then elim (outcome_update (outcomes item)) [
        | none ↦ (s, item)
        | some u ↦ ((update_item t s item running (assign u)).0, assign u item)
      ]
      else (s, item)

  unfoldable pub refresh_each : (Item → JobOutcome) → List Item → State → State × List Item
  unfolding refresh_item
  refresh_each outcomes [] s = (s, [])
  refresh_each outcomes (item ∷ items) s =
      let (s, polled) = refresh_item outcomes item s in
      let (s, rest) = refresh_each outcomes items s in (s, polled ∷ rest)

  -- `refreshItems`; without a reader, or if its query fails, there are no outcomes.
  unfoldable pub refresh_items : Option (Item → JobOutcome) → List Item → State → State × List Item
  unfolding refresh_each
  refresh_items none items s = (s, items)
  refresh_items (some outcomes) items s = refresh_each outcomes items s
