-- ===== src/Saas/Rollout/Waiting.antt =====
-- `awaitWave` of internal/saasapi/fleet_update_dispatch.go as a relation: what the rows of a wave and of
-- other items are when it ends.
use Prim.Native.Nat.{ℕ, zero, suc, ◌+◌, ◌*◌, ◌≤◌, ◌<◌}
use mathlib.Core.Path.{◌≡◌, refl, ◌∙◌, sym, subst}
use mathlib.Core.Logic.{◌⊎◌, inl, inr}
use mathlib.Core.Bool.{Bool, true, false, not}
use mathlib.Core.Option.{Option, some}
use mathlib.Core.List.{List}
use native.Mathlib.Omega.{arith}
use grlx.Common.{leb, Bool-cases}
use grlx.Common.Table.{Table}
use grlx.Saas.Items.{Item, item_key, dec_key}
use grlx.Saas.Dispatch.{Gate, job_status, dispatch, Batch, refresh_items}
use grlx.Saas.Rollout.{
  all_of, is_accepted, is_unsettled, is_passing, load_wave_items, Surroundings, World, with_items,
  slept, mark_unresponsive, poll, await_wave,
}

module _ (t : Table dec_key item_key) (around : Surroundings) (batch : Batch)
    (wave : List Item) where
  open t use {State}
  open around use {outcomes_at}

  -- What a poll reads, and the rows and the copies after `refreshItems`.
  abbrev pub read : World t → List Item
  read w = load_wave_items t batch wave w.sending.items

  abbrev pub polled : World t → State × List Item
  polled w = refresh_items t (outcomes_at w.now) (read w) w.sending.items

  -- The ways in which the wait ends, the last of them after another poll.
  pub data Waits : World t → World t → Bool → Type 0 where
    seen : (w : World t) → batch.rollout_gate ≡ dispatch → Waits w w (all_of is_accepted (read w))
    settled :
        (w : World t)
        → batch.rollout_gate ≡ job_status
        → all_of (λ item. not (is_unsettled item)) (polled w).1 ≡ true
        → Waits w (with_items t (polled w).0 w) (all_of is_passing (polled w).1)
    late :
        (w : World t)
        → batch.rollout_gate ≡ job_status
        → Waits w (with_items t (mark_unresponsive t (polled w).1 (polled w).0) w) false
    again :
        (w w' : World t) (b : Bool)
        → batch.rollout_gate ≡ job_status
        → Waits (slept t around batch (with_items t (polled w).0 w)) w' b
        → Waits w w' b

  are_settled : World t → Bool
  unfolding all_of
  are_settled w = all_of (λ item. not (is_unsettled item)) (polled w).1

  module _ (polls deadline : ℕ) (w : World t) where
    poll_dispatch :
        batch.rollout_gate ≡ dispatch
        → poll t around batch (suc polls) deadline wave w ≡ some (w, all_of is_accepted (read w))
    unfolding poll
    poll_dispatch e = rw (poll, e) refl

    poll_settled :
        batch.rollout_gate ≡ job_status
        → are_settled w ≡ true
        → poll t around batch (suc polls) deadline wave w
          ≡ some (with_items t (polled w).0 w, all_of is_passing (polled w).1)
    unfolding poll are_settled
    poll_settled e f = rw (poll, e, f) refl

    poll_late :
        batch.rollout_gate ≡ job_status
        → are_settled w ≡ false
        → leb deadline w.now ≡ true
        → poll t around batch (suc polls) deadline wave w
          ≡ some (with_items t (mark_unresponsive t (polled w).1 (polled w).0) w, false)
    unfolding poll are_settled
    poll_late e f g = rw (poll, e, f, g) refl

    poll_again :
        batch.rollout_gate ≡ job_status
        → are_settled w ≡ false
        → leb deadline w.now ≡ false
        → poll t around batch (suc polls) deadline wave w
          ≡ poll t around batch polls deadline wave
              (slept t around batch (with_items t (polled w).0 w))
    unfolding poll are_settled
    poll_again e f g = rw (poll, e, f, g) refl

  gate_cases : (g : Gate) → (g ≡ job_status) ⊎ (g ≡ dispatch)
  gate_cases job_status = inl refl
  gate_cases dispatch = inr refl

  some_inj : {x y : World t × Bool} → ◌≡◌ {A = Option (World t × Bool)} (some x) (some y) → x ≡ y
  some_inj e = cc

  -- A wait that ends is one of them.
  ended :
      (w w' : World t) (b : Bool) (r : World t × Bool)
      → Waits w r.0 r.1
      → ◌≡◌ {A = Option (World t × Bool)} (some r) (some (w', b))
      → Waits w w' b
  ended w w' b r there e = subst (λ (r : World t × Bool). Waits w r.0 r.1) (some_inj e) there

  poll-Waits :
      (polls deadline : ℕ) (w w' : World t) (b : Bool)
      → poll t around batch polls deadline wave w ≡ some (w', b)
      → Waits w w' b
  unfolding poll are_settled
  poll-Waits zero deadline w w' b h = absurd (cc)
  poll-Waits (suc polls) deadline w w' b h = elim (gate_cases batch.rollout_gate) [
    | inr e ↦ ended w w' b _ (seen w e) (sym (poll_dispatch polls deadline w e) ∙ h)
    | inl e ↦ elim (Bool-cases (are_settled w)) [
      | inl f ↦ ended w w' b _ (settled w e f) (sym (poll_settled polls deadline w e f) ∙ h)
      | inr f ↦ elim (Bool-cases (leb deadline w.now)) [
        | inl g ↦ ended w w' b _ (late w e) (sym (poll_late polls deadline w e f g) ∙ h)
        | inr g ↦ again w w' b e (
            poll-Waits polls deadline (slept t around batch (with_items t (polled w).0 w)) w' b
              (sym (poll_again polls deadline w e f g) ∙ h))
      ]
    ]
  ]

  -- The first poll ends the wait, or there is time for another.
  poll-cases :
      (polls deadline : ℕ) (w : World t)
      → ((r : World t × Bool) × (poll t around batch (suc polls) deadline wave w ≡ some r))
        ⊎ ((w.now < deadline)
            × (poll t around batch (suc polls) deadline wave w
                ≡ poll t around batch polls deadline wave
                    (slept t around batch (with_items t (polled w).0 w))))
  poll-cases polls deadline w = elim (gate_cases batch.rollout_gate) [
    | inr e ↦ inl (_, poll_dispatch polls deadline w e)
    | inl e ↦ elim (Bool-cases (are_settled w)) [
      | inl f ↦ inl (_, poll_settled polls deadline w e f)
      | inr f ↦ elim (Bool-cases (leb deadline w.now)) [
        | inl g ↦ inl (_, poll_late polls deadline w e f g)
        | inr g ↦ inr (ground (arith, g), poll_again polls deadline w e f g)
      ]
    ]
  ]

  -- With a poll for each interval before the deadline and one more, the wait ends.
  poll-ends :
      (polls deadline : ℕ) (w : World t)
      → deadline ≤ w.now + 15 * polls
      → (r : World t × Bool) × (poll t around batch (suc polls) deadline wave w ≡ some r)
  poll-ends zero deadline w room = elim (poll-cases zero deadline w) [
    | inl r ↦ r
    | inr (early, _) ↦ absurd (omega arith)
  ]
  poll-ends (suc polls) deadline w room = elim (poll-cases (suc polls) deadline w) [
    | inl r ↦ r
    | inr (early, e) ↦
        (let (r, f) =
            poll-ends polls deadline (slept t around batch (with_items t (polled w).0 w))
              (omega arith) in
          (r, e ∙ f))
  ]

  -- `awaitWave` ends within its 121 polls.
  pub await_wave-ends :
      (polls : ℕ) (w : World t)
      → 120 ≤ polls
      → (r : World t × Bool) × (await_wave t around batch (suc polls) wave w ≡ some r)
  unfolding await_wave
  await_wave-ends polls w enough = poll-ends polls (w.now + 1800) w (omega arith)

  pub await_wave-Waits :
      (polls : ℕ) (w w' : World t) (b : Bool)
      → await_wave t around batch polls wave w ≡ some (w', b)
      → Waits w w' b
  unfolding await_wave
  await_wave-Waits polls w w' b h = poll-Waits polls (w.now + 1800) w w' b h
