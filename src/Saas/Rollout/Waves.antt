-- ===== src/Saas/Rollout/Waves.antt =====
-- `runRollout` of internal/saasapi/fleet_update_dispatch.go as a relation, and the slices of its queue.
use Prim.Native.Nat.{ℕ, zero, suc, ◌≤◌, ◌<◌}
use mathlib.Core.Path.{◌≡◌, refl, ap, ◌∙◌, sym, subst}
use mathlib.Core.Logic.{inl, inr}
use mathlib.Core.Bool.{Bool, true, false}
use mathlib.Core.Option.{Option, none, some}
use mathlib.Core.List.{List, [], ◌∷◌, ◌++◌}
use native.Mathlib.Omega.{arith}
use grlx.Common.{Str, length, Option-cases, Bool-cases}
use grlx.Common.Table.{Table}
use grlx.Saas.Items.{Item, item_key, dec_key}
use grlx.Saas.Dispatch.{Batch}
use grlx.Saas.Rollout.{
  Surroundings, World, take_items, drop_items, stop_code, await_wave, send_wave, halted,
  halted_world, run_waves,
}
use grlx.Saas.Rollout.Waiting.{Waits, await_wave-Waits, await_wave-ends}

pub take-append_drop :
    (n : ℕ) (items : List Item) → take_items n items ++ drop_items n items ≡ items
unfolding take_items drop_items
take-append_drop zero items = refl
take-append_drop (suc n) [] = refl
take-append_drop (suc n) (x ∷ items) = ap (λ xs. x ∷ xs) (take-append_drop n items)

pub length-take-le : (n : ℕ) (items : List Item) → length (take_items n items) ≤ n
unfolding take_items
length-take-le zero items = omega arith
length-take-le (suc n) [] = omega arith
length-take-le (suc n) (x ∷ items) = let rest = length-take-le n items in omega arith

length-drop-le : (n : ℕ) (items : List Item) → length (drop_items n items) ≤ length items
unfolding drop_items
length-drop-le zero items = omega arith
length-drop-le (suc n) [] = omega arith
length-drop-le (suc n) (x ∷ items) = let rest = length-drop-le n items in omega arith

module _ (t : Table dec_key item_key) (around : Surroundings) (batch : Batch) (size : ℕ)
    (version : Str) where
  -- The first wave, and what stays for later ones.
  abbrev pub wave_of : List Item → List Item
  wave_of queue = take_items (suc size) queue

  abbrev pub rest_of : List Item → List Item
  rest_of queue = drop_items (suc size) queue

  pub data Rolls : List Item → World t → World t → Type 0 where
    finished : (w : World t) → Rolls [] w w
    stopped :
        (queue : List Item) (w : World t) (code : Str)
        → stop_code t around batch version w.now ≡ some code
        → Rolls queue w (halted_world t around batch code w)
    failed :
        (queue : List Item) (w w' : World t)
        → stop_code t around batch version w.now ≡ none
        → Waits t around batch (wave_of queue) (send_wave t around batch (wave_of queue) w) w' false
        → Rolls queue w (halted_world t around batch halted w')
    passed :
        (queue : List Item) (w w' w'' : World t)
        → stop_code t around batch version w.now ≡ none
        → Waits t around batch (wave_of queue) (send_wave t around batch (wave_of queue) w) w' true
        → Rolls (rest_of queue) w' w''
        → Rolls queue w w''

  module _ (waves polls : ℕ) (item : Item) (queue : List Item) (w : World t) where
    abbrev waited : Option (World t × Bool)
    waited =
        await_wave t around batch polls (wave_of (item ∷ queue))
          (send_wave t around batch (wave_of (item ∷ queue)) w)

    waves_stop :
        (code : Str)
        → stop_code t around batch version w.now ≡ some code
        → run_waves t around batch (suc waves) polls size version (item ∷ queue) w
          ≡ some (halted_world t around batch code w)
    unfolding run_waves
    waves_stop code e = rw (run_waves, e) refl

    waves_hang :
        stop_code t around batch version w.now ≡ none
        → waited ≡ none
        → run_waves t around batch (suc waves) polls size version (item ∷ queue) w ≡ none
    unfolding run_waves
    waves_hang e f = rw (run_waves, e, f) refl

    waves_fail :
        (w' : World t)
        → stop_code t around batch version w.now ≡ none
        → waited ≡ some (w', false)
        → run_waves t around batch (suc waves) polls size version (item ∷ queue) w
          ≡ some (halted_world t around batch halted w')
    unfolding run_waves
    waves_fail w' e f = rw (run_waves, e, f) refl

    waves_pass :
        (w' : World t)
        → stop_code t around batch version w.now ≡ none
        → waited ≡ some (w', true)
        → run_waves t around batch (suc waves) polls size version (item ∷ queue) w
          ≡ run_waves t around batch waves polls size version (rest_of (item ∷ queue)) w'
    unfolding run_waves
    waves_pass w' e f = rw (run_waves, e, f) refl

  same_world : {x y : World t} → ◌≡◌ {A = Option (World t)} (some x) (some y) → x ≡ y
  same_world e = cc

  reaches :
      (queue : List Item) (w w' x : World t)
      → Rolls queue w x
      → ◌≡◌ {A = Option (World t)} (some x) (some w')
      → Rolls queue w w'
  reaches queue w w' x there e = subst (Rolls queue w) (same_world e) there

  pub run_waves-Rolls :
      (waves polls : ℕ) (queue : List Item) (w w' : World t)
      → run_waves t around batch waves polls size version queue w ≡ some w'
      → Rolls queue w w'
  unfolding run_waves
  run_waves-Rolls zero polls queue w w' h = absurd (cc)
  run_waves-Rolls (suc waves) polls [] w w' h = reaches [] w w' w (finished w) h
  run_waves-Rolls (suc waves) polls (item ∷ queue) w w' h =
      elim (Option-cases (stop_code t around batch version w.now)) [
        | inr (code, e) ↦
            reaches (item ∷ queue) w w' _ (stopped (item ∷ queue) w code e)
              (sym (waves_stop waves polls item queue w code e) ∙ h)
        | inl e ↦ elim (Option-cases (waited waves polls item queue w)) [
          | inl f ↦ absurd (let none_there = waves_hang waves polls item queue w e f in cc)
          | inr ((mid, false), f) ↦
              reaches (item ∷ queue) w w' _
                (failed (item ∷ queue) w mid e
                  (await_wave-Waits t around batch _ polls _ mid false f))
                (sym (waves_fail waves polls item queue w mid e f) ∙ h)
          | inr ((mid, true), f) ↦
              passed (item ∷ queue) w mid w' e
                (await_wave-Waits t around batch _ polls _ mid true f)
                (run_waves-Rolls waves polls (rest_of (item ∷ queue)) mid w'
                  (sym (waves_pass waves polls item queue w mid e f) ∙ h))
        ]
      ]

  -- A wave to each item and one more are enough, with 121 polls to a wave.
  pub run_waves-ends :
      (waves polls : ℕ) (queue : List Item) (w : World t)
      → length queue < waves
      → 120 ≤ polls
      → (w' : World t) × (run_waves t around batch waves (suc polls) size version queue w ≡ some w')
  unfolding run_waves drop_items
  run_waves-ends zero polls queue w room enough = absurd (omega arith)
  run_waves-ends (suc waves) polls [] w room enough = (w, refl)
  run_waves-ends (suc waves) polls (item ∷ queue) w room enough =
      elim (Option-cases (stop_code t around batch version w.now)) [
        | inr (code, e) ↦ (_, waves_stop waves (suc polls) item queue w code e)
        | inl e ↦
            (let ((mid, b), f) =
                await_wave-ends t around batch (wave_of (item ∷ queue)) polls
                  (send_wave t around batch (wave_of (item ∷ queue)) w) enough in
              elim (Bool-cases b) [
                | inr g ↦ (
                  _,
                  waves_fail waves (suc polls) item queue w mid e (f ∙ ap (λ b. some (mid, b)) g),
                )
                | inl g ↦
                    (let shorter = length-drop-le size queue in
                      let (w', h) =
                        run_waves-ends waves polls (rest_of (item ∷ queue)) mid (omega arith)
                          enough in
                      (
                        w',
                        waves_pass waves (suc polls) item queue w mid e
                              (f ∙ ap (λ b. some (mid, b)) g)
                            ∙ h,
                      ))
              ])
      ]
