-- ===== src/Saas/Rollout/Report.antt =====
-- How far `runRollout` of internal/saasapi/fleet_update_dispatch.go comes, wave by wave.
use Prim.Native.Nat.{ℕ, suc, ◌≤◌}
use mathlib.Core.Path.{◌≡◌, refl, ◌∙◌, subst}
use mathlib.Core.Bool.{Bool, true, false}
use mathlib.Core.Option.{none}
use mathlib.Core.List.{List, [], ◌++◌, Memᴰ, map}
use grlx.Common.{Str, length, All}
use grlx.Common.Table.{Table}
use grlx.Saas.Items.{Item, item_key, dec_key}
use grlx.Saas.Dispatch.{Batch}
use grlx.Saas.Dispatch.Progress.{dispatch_batch-sent}
use grlx.Saas.Rollout.{Surroundings, World, send_wave, halted, halted_world, stop_code, after_get}
use grlx.Saas.Rollout.Waiting.{Waits}
use grlx.Saas.Rollout.Passed.{waits-sent}
use grlx.Saas.Rollout.Waves.{
  Rolls, finished, stopped, failed, passed, wave_of, rest_of, take-append_drop, length-take-le,
}
use grlx.Saas.Rollout.Safety.{HasRow, part_of}
use grlx.Saas.Rollout.Passing.{Passes, first_of-Passes, Rowed-later}

module _ (t : Table dec_key item_key) (batch : Batch) where
  open t use {State, find}

  module _ (around : Surroundings) (version : Str) (most : ℕ) where
    -- The requests for a wave: the policy of the tenant allows them when they are sent, and they are for
    -- items of the wave alone, which has at most `most`.
    pub record IsSent (wave : List Item) (w w' : World t) : Type 0 where
      pub is_allowed : stop_code t around batch version w.now ≡ none
      pub is_small : length wave ≤ most
      pub new : List (Str × Str)
      pub sent_new : w'.sending.sent ≡ new ++ w.sending.sent
      pub of_wave : All (λ k. Memᴰ k (map item_key wave)) new

    -- What a rollout sends, wave by wave, each the next part of the queue. A wave is followed by others
    -- only from a moment at which each of its items has the status that its gate asks for; nothing is sent
    -- after the last one.
    pub data Report : List Item → World t → World t → Type 0 where
      nothing :
          (queue : List Item) (w w' : World t)
          → w'.sending.sent ≡ w.sending.sent
          → Report queue w w'
      last :
          (wave rest : List Item) (w w' : World t) → IsSent wave w w' → Report (wave ++ rest) w w'
      next :
          (wave rest : List Item) (w passed w' : World t)
          → IsSent wave w passed
          → All (Passes t batch passed.sending.items) wave
          → Report rest passed w'
          → Report (wave ++ rest) w w'

  module _ (around : Surroundings) (size : ℕ) (version : Str) where
    open around use {ask_at}

    abbrev first_of : List Item → List Item
    first_of queue = wave_of t around batch size version queue

    abbrev later_of : List Item → List Item
    later_of queue = rest_of t around batch size version queue

    abbrev sent_out : List Item → World t → World t
    sent_out queue w = send_wave t around batch (first_of queue) w

    first_of-IsSent :
        (queue : List Item) (w mid w' : World t) (b : Bool)
        → stop_code t around batch version w.now ≡ none
        → Waits t around batch (first_of queue) (sent_out queue w) mid b
        → w'.sending.sent ≡ mid.sending.sent
        → IsSent around version (suc size) (first_of queue) w w'
    unfolding send_wave
    first_of-IsSent queue w mid w' b e waits same =
        let (new, sent, of_wave) =
          dispatch_batch-sent t batch (ask_at w.now) (first_of queue)
            (record w.sending { items = after_get t around batch w.now w.sending.items }) in
        record {
          is_allowed = e;
          is_small = length-take-le (suc size) queue;
          new = new;
          sent_new =
              same
              ∙ waits-sent t around batch (first_of queue) (sent_out queue w) mid b waits
              ∙ sent;
          of_wave = of_wave;
        }

    abbrev Rowed : World t → List Item → Type 0
    Rowed w queue = All (HasRow t around batch size version w.sending.items) queue

    abbrev Told : List Item → World t → World t → Type 0
    Told queue w w' = Report around version (suc size) queue w w'

    pub Rolls-Report :
        (queue : List Item) (w w' : World t)
        → Rolls t around batch size version queue w w'
        → Rowed w queue
        → Told queue w w'
    Rolls-Report queue w w' (finished _) rowed = nothing [] w w refl
    Rolls-Report queue w w' (stopped _ _ code e) rowed =
        nothing queue w (halted_world t around batch code w) refl
    Rolls-Report queue w w' (failed _ _ mid e waits) rowed =
        let end = halted_world t around batch halted mid in
        subst (λ q. Told q w end) (take-append_drop (suc size) queue)
          (last (first_of queue) (later_of queue) w end
            (first_of-IsSent queue w mid end false e waits refl))
    Rolls-Report queue w w' (passed _ _ mid _ e waits rolls) rowed =
        let (rows, _) =
          part_of t around batch size version (HasRow t around batch size version w.sending.items)
            queue rowed in
        subst (λ q. Told q w w') (take-append_drop (suc size) queue)
          (next (first_of queue) (later_of queue) w mid w'
            (first_of-IsSent queue w mid mid true e waits refl)
            (first_of-Passes t batch around size version queue w mid rows waits)
            (Rolls-Report (later_of queue) mid w' rolls
              (Rowed-later t batch around size version queue w mid true rowed waits)))
