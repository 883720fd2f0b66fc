-- ===== src/Jobs/StatusIndex/Order.antt =====
-- The counters of a job in terms of the events that it had, in whatever order.
use Prim.Native.Nat.{ℕ, ◌+◌, ◌≤◌}
use mathlib.Core.Path.{◌≡◌, refl, sym, ap, ◌∙◌, subst}
use mathlib.Core.Logic.{◌⊎◌, inl, inr, ◌↔◌}
use mathlib.Core.Bool.{Bool, true, false, ◌||◌}
use mathlib.Core.Option.{none, some}
use mathlib.Core.List.{List, [], ◌∷◌, ◌++◌, Permᴰ}
use native.Mathlib.Omega.{arith}
use grlx.Common.{if◌then◌else◌, length, keep, All}
use grlx.Common.Table.{Table}
use grlx.Jobs.StatusIndex.{
  job_succeeded, JobEvent, JobStatusRow, JobKey, job_key, dec_job, Statement, refreshed, apply_all,
}
use grlx.Jobs.StatusIndex.Counters.{Counters, no_counters, count, count_some, status_of, events_of}
use grlx.Jobs.StatusIndex.Convergence.{apply_all-status}

-- The creation events of a job give one number of steps.
abbrev pub IsTotal : ℕ → JobEvent → Type 0
IsTotal n ev = (ev.steps_total ≡ none) ⊎ (ev.steps_total ≡ some n)

abbrev pub has_total : JobEvent → Bool
has_total ev = elim ev.steps_total [ none ↦ false | some _ ↦ true ]

unfoldable pub any : (JobEvent → Bool) → List JobEvent → Bool
any p [] = false
any p (ev ∷ evs) = p ev || any p evs

All-perm : (P : JobEvent → Type 0) {xs ys : List JobEvent} → Permᴰ xs ys → All P xs → All P ys
All-perm P Permᴰ.nil h = tt
All-perm P (Permᴰ.cons e p) h = (subst P e h.0, All-perm P p h.1)
All-perm P (Permᴰ.swap e f) h = (subst P f h.1.0, (subst P e h.0, h.1.1))
All-perm P (Permᴰ.trans p q) h = All-perm P q (All-perm P p h)

count-count :
    (n : ℕ) (a b : JobEvent) (c : Counters)
    → IsTotal n a
    → IsTotal n b
    → count b (count a c) ≡ count a (count b c)
unfolding count
count-count n a b c (inl ha) (inl hb) = ground arith
count-count n a b c (inl ha) (inr hb) = ground arith
count-count n a b c (inr ha) (inl hb) = ground arith
count-count n a b c (inr ha) (inr hb) = ground arith

-- Events that agree on the number of steps leave the same counters in every order.
count_some-perm :
    (n : ℕ) (c : Counters) {xs ys : List JobEvent}
    → All (IsTotal n) xs
    → Permᴰ xs ys
    → count_some c xs ≡ count_some c ys
unfolding count_some
count_some-perm n c h Permᴰ.nil = refl
count_some-perm n c h (Permᴰ.cons {a} {b} {l₁} {l₂} e p) =
    count_some-perm n (count a c) h.1 p ∙ ap (λ x. count_some (count x c) l₂) e
count_some-perm n c h (Permᴰ.swap {a} {b} {a'} {b'} {l} e f) =
    ap (λ x. count_some x l) (count-count n a b c h.0 h.1.0)
    ∙ ap (λ x. count_some (count a (count x c)) l) f
    ∙ ap (λ x. count_some (count x (count a' c)) l) e
count_some-perm n c h (Permᴰ.trans p q) =
    count_some-perm n c h p ∙ count_some-perm n c (All-perm (IsTotal n) p h) q

-- Each field of the counters.
abbrev Sums : ℕ → Counters → List JobEvent → Counters → Type 0
Sums n c evs d =
    (d.reported ≡ length (keep JobEvent.step evs) + c.reported)
    × (d.failed ≡ (any JobEvent.step_failed evs || c.failed))
    × (d.started ≡ (any JobEvent.started evs || c.started))
    × (d.finished ≡ (any JobEvent.finished evs || c.finished))
    × (d.timed_out ≡ (any JobEvent.timed_out evs || c.timed_out))
    × (d.total ≡ (if any has_total evs then some n else c.total))

count_some-Sums :
    (n : ℕ) (c : Counters) (evs : List JobEvent)
    → All (IsTotal n) evs
    → Sums n c evs (count_some c evs)
unfolding count_some any keep count
count_some-Sums n c [] h = (ground arith, refl, refl, refl, refl, refl)
count_some-Sums n c (ev ∷ evs) (inl e, h) =
    let (reported, failed, started, finished, timed_out, total) =
      count_some-Sums n (count ev c) evs h in
    (ground arith, ground arith, ground arith, ground arith, ground arith, ground arith)
count_some-Sums n c (ev ∷ evs) (inr e, h) =
    let (reported, failed, started, finished, timed_out, total) =
      count_some-Sums n (count ev c) evs h in
    (ground arith, ground arith, ground arith, ground arith, ground arith, ground arith)

status_of-succeeded :
    (c : Counters) (n : ℕ)
    → c.total ≡ some n
    → (status_of c ≡ job_succeeded)
      ↔ ((c.timed_out ≡ false) × (c.finished ≡ true) × (n ≤ c.reported) × (c.failed ≡ false))
unfolding status_of
status_of-succeeded c n e = ground arith

status_of_events-succeeded :
    (n : ℕ) (evs : List JobEvent)
    → All (IsTotal n) evs
    → any has_total evs ≡ true
    → (status_of (count_some no_counters evs) ≡ job_succeeded) ↔ (
        (any JobEvent.timed_out evs ≡ false)
        × (any JobEvent.finished evs ≡ true)
        × (n ≤ length (keep JobEvent.step evs))
        × (any JobEvent.step_failed evs ≡ false))
status_of_events-succeeded n evs h created =
    let (reported, failed, started, finished, timed_out, total) =
      count_some-Sums n no_counters evs h in
    let (to, from) =
      status_of-succeeded (count_some no_counters evs) n
        (total ∙ ap (λ b. if b then some n else none) created) in
    (
      λ s. let (a, b, c, d) = to s in (ground arith, ground arith, ground arith, ground arith),
      λ (a, b, c, d). from (ground arith, ground arith, ground arith, ground arith),
    )

module _ (t : Table dec_job job_key) where
  open t use {State, find}

  -- Two interleavings of the statements of the replicas, on tables without a row of a job, each
  -- with a recomputation of the status of the job at its end. If the events of the job are the same
  -- in both but for their order, and its creation events agree on the number of steps, then both
  -- leave the job with the same status.
  pub apply_all-perm :
      (s s' : State) (os os' : List Statement) (k : JobKey) (now now' n : ℕ) (a b : JobEvent)
      (xs ys : List JobEvent)
      → find s k ≡ none
      → find s' k ≡ none
      → events_of k os ≡ a ∷ xs
      → events_of k os' ≡ b ∷ ys
      → All (IsTotal n) (a ∷ xs)
      → Permᴰ (a ∷ xs) (b ∷ ys)
      → (row row' : JobStatusRow) × (find (apply_all t s (os ++ refreshed k now ∷ [])) k ≡ some row)
        × (find (apply_all t s' (os' ++ refreshed k now' ∷ [])) k ≡ some row')
        × (row.status ≡ row'.status)
  apply_all-perm s s' os os' k now now' n a b xs ys missing missing' events events' agree same =
      let (row, found, _, status) = apply_all-status t s os k now a xs missing events in
      let (row', found', _, status') = apply_all-status t s' os' k now' b ys missing' events' in
      (
        row,
        row',
        found,
        found',
        status ∙ ap status_of (count_some-perm n no_counters agree same) ∙ sym status',
      )

  -- After any interleaving on a table without a row of a job, with a recomputation of the status of
  -- the job at its end, and with the creation of the job with `n` steps among its events: its row
  -- says succeeded exactly when none of its events is a timeout, one says that the run is finished,
  -- at least `n` of them are of steps, and none of these failed.
  pub apply_all-succeeded :
      (s : State) (os : List Statement) (k : JobKey) (now n : ℕ) (ev : JobEvent)
      (evs : List JobEvent)
      → find s k ≡ none
      → events_of k os ≡ ev ∷ evs
      → All (IsTotal n) (ev ∷ evs)
      → any has_total (ev ∷ evs) ≡ true
      → (row : JobStatusRow) × (find (apply_all t s (os ++ refreshed k now ∷ [])) k ≡ some row)
        × ((row.status ≡ job_succeeded) ↔ (
            (any JobEvent.timed_out (ev ∷ evs) ≡ false)
            × (any JobEvent.finished (ev ∷ evs) ≡ true)
            × (n ≤ length (keep JobEvent.step (ev ∷ evs)))
            × (any JobEvent.step_failed (ev ∷ evs) ≡ false)))
  apply_all-succeeded s os k now n ev evs missing events agree created =
      let (row, found, _, status) = apply_all-status t s os k now ev evs missing events in
      let (to, from) = status_of_events-succeeded n (ev ∷ evs) agree created in
      (row, found, (λ e. to (sym status ∙ e), λ h. status ∙ from h))
