-- ===== src/Jobs/StatusIndex/Convergence.antt =====
-- The row of a job after the statements of any number of replicas.
use Prim.Native.Nat.{ℕ}
use mathlib.Core.Path.{◌≡◌, refl, sym, ap, ◌∙◌, subst}
use mathlib.Core.Logic.{◌≢◌, inl, inr}
use mathlib.Core.Option.{Option, none, some, map}
use mathlib.Core.List.{List, [], ◌∷◌, ◌++◌}
use grlx.Common.{Option-cases}
use grlx.Common.Table.{
  Table, update_missing, find-upsert_missing, find-upsert_found, find-upsert_ne, find-update_found,
  find-update_ne,
}
use grlx.Jobs.StatusIndex.{
  JobStatusRow, JobKey, job_key, dec_job, JobEvent, status_expr, first_row, assign_event,
  upsert_job_event, refresh_job_status, Statement, upserted, refreshed, apply, apply_all,
}
use grlx.Jobs.StatusIndex.Counters.{
  Counters, counters_of, no_counters, count_some, count_all, events_of, status_of,
  counters_of-first_row, counters_of-assign_event, job_key-assign_event, count_all-nil,
  count_all-cons, count_all-none, none-ne-some, some_inj, events_of-same, events_of-other,
  status_expr-status_of,
}

module _ (t : Table dec_job job_key) where
  open t use {State, find, save, find-key}

  unfoldable counters_at : State → JobKey → Option Counters
  counters_at s k = map counters_of (find s k)

  -- The counters of a row that is assigned to, or of a row that is found.
  counters_at-some :
      (s : State) (k : JobKey) {row : JobStatusRow}
      → find s k ≡ some row
      → counters_at s k ≡ some (counters_of row)
  unfolding counters_at
  counters_at-some s k e = ap (map counters_of) e

  counters_at-none : (s : State) (k : JobKey) → find s k ≡ none → counters_at s k ≡ none
  unfolding counters_at
  counters_at-none s k e = ap (map counters_of) e

  counters_at-upsert_self :
      (s : State) (k : JobKey) (ev : JobEvent) (now : ℕ)
      → counters_at (upsert_job_event t s k ev now) k ≡ count_all (counters_at s k) (ev ∷ [])
  unfolding upsert_job_event first_row count_all count_some
  counters_at-upsert_self s k ev now = elim (Option-cases (find s k)) [
    | inl missing ↦
        counters_at-some _ k
          (find-upsert_missing t s (first_row k ev now) (assign_event ev now) missing)
        ∙ ap some (counters_of-first_row k ev now)
        ∙ sym (ap (λ o. count_all o (ev ∷ [])) (counters_at-none s k missing))
    | inr (old, found) ↦
        counters_at-some _ k (
          find-upsert_found t (assign_event ev now) (job_key-assign_event ev now) s
            (first_row k ev now) found)
        ∙ ap some (counters_of-assign_event ev now old)
        ∙ sym (ap (λ o. count_all o (ev ∷ [])) (counters_at-some s k found))
  ]

  counters_at-upsert_ne :
      (s : State) (j k : JobKey) (ev : JobEvent) (now : ℕ)
      → j ≢ k
      → counters_at (upsert_job_event t s j ev now) k ≡ counters_at s k
  unfolding upsert_job_event first_row counters_at
  counters_at-upsert_ne s j k ev now ne = ap (map counters_of) (
      find-upsert_ne t (assign_event ev now) (job_key-assign_event ev now) s (first_row j ev now) k
        ne)

  abbrev refreshed_row : ℕ → JobStatusRow → JobStatusRow
  refreshed_row now row = record row { status = status_expr row; updated_at = now }

  counters_at-refresh :
      (s : State) (j k : JobKey) (now : ℕ)
      → counters_at (refresh_job_status t s j now) k ≡ counters_at s k
  unfolding refresh_job_status counters_at
  counters_at-refresh s j k now = elim (dec_job j k) [
    | no ne ↦ ap (map counters_of) (find-update_ne t (refreshed_row now) (λ row. refl) s j k ne)
    | yes e ↦
        subst
          (λ k.
            map counters_of (find (refresh_job_status t s j now) k) ≡ map counters_of (find s k))
          e
          (elim (Option-cases (find s j)) [
            | inl missing ↦
                ap (λ s. map counters_of (find s j))
                  (update_missing t s j (refreshed_row now) missing)
            | inr (old, found) ↦
                ap (map counters_of)
                  (find-update_found t (refreshed_row now) (λ row. refl) s j found)
                ∙ sym (ap (map counters_of) found)
          ])
  ]

  -- The counters of a row are those of its events, in the order of the statements.
  counters_at-apply_all :
      (s : State) (os : List Statement) (k : JobKey)
      → counters_at (apply_all t s os) k ≡ count_all (counters_at s k) (events_of k os)
  unfolding apply_all events_of
  counters_at-apply_all s [] k = count_all-nil (counters_at s k)
  counters_at-apply_all s (upserted j ev now ∷ os) k = elim (dec_job j k) [
    | yes e ↦
        counters_at-apply_all (upsert_job_event t s j ev now) os k
        ∙ ap (λ o. count_all o (events_of k os))
            (subst
              (λ k.
                counters_at (upsert_job_event t s j ev now) k
                ≡ count_all (counters_at s k) (ev ∷ []))
              e (counters_at-upsert_self s j ev now))
        ∙ count_all-cons (counters_at s k) ev (events_of k os)
        ∙ sym (ap (count_all (counters_at s k)) (events_of-same k ev now os e))
    | no ne ↦
        counters_at-apply_all (upsert_job_event t s j ev now) os k
        ∙ ap (λ o. count_all o (events_of k os)) (counters_at-upsert_ne s j k ev now ne)
        ∙ sym (ap (count_all (counters_at s k)) (events_of-other k ev now os ne))
  ]
  counters_at-apply_all s (refreshed j now ∷ os) k =
      counters_at-apply_all (refresh_job_status t s j now) os k
      ∙ ap (λ o. count_all o (events_of k os)) (counters_at-refresh s j k now)

  row_of_counters :
      (s : State) (k : JobKey) {c : Counters}
      → counters_at s k ≡ some c
      → (row : JobStatusRow) × (find s k ≡ some row) × (counters_of row ≡ c)
  row_of_counters s k {c} h = elim (Option-cases (find s k)) [
    | inl missing ↦ absurd (none-ne-some c (sym (counters_at-none s k missing) ∙ h))
    | inr (row, found) ↦ (row, found, some_inj (sym (counters_at-some s k found) ∙ h))
  ]

  apply_all-snoc :
      (s : State) (os : List Statement) (o : Statement)
      → apply_all t s (os ++ o ∷ []) ≡ apply t (apply_all t s os) o
  unfolding apply_all
  apply_all-snoc s [] o = refl
  apply_all-snoc s (p ∷ os) o = apply_all-snoc (apply t s p) os o

  find-apply_refreshed :
      (s : State) (k : JobKey) (now : ℕ) {old : JobStatusRow}
      → find s k ≡ some old
      → find (apply t s (refreshed k now)) k ≡ some (refreshed_row now old)
  unfolding apply refresh_job_status
  find-apply_refreshed s k now found =
      find-update_found t (refreshed_row now) (λ row. refl) s k found

  -- The statements of any number of replicas on the rows of any number of jobs, in any order, the
  -- last of them a recomputation of the status of a job that had no row before and has an event
  -- among them: the job has a row, with the counters of its own events only, and its status is the
  -- one that these counters stand for.
  pub apply_all-status :
      (s : State) (os : List Statement) (k : JobKey) (now : ℕ) (ev : JobEvent) (evs : List JobEvent)
      → find s k ≡ none
      → events_of k os ≡ ev ∷ evs
      → (row : JobStatusRow) × (find (apply_all t s (os ++ refreshed k now ∷ [])) k ≡ some row)
        × (counters_of row ≡ count_some no_counters (ev ∷ evs))
        × (row.status ≡ status_of (count_some no_counters (ev ∷ evs)))
  apply_all-status s os k now ev evs missing events =
      let (old, found, same) = row_of_counters (apply_all t s os) k total in
      (
        refreshed_row now old,
        ap (λ s. find s k) (apply_all-snoc s os (refreshed k now))
            ∙ find-apply_refreshed (apply_all t s os) k now found,
        same,
        status_expr-status_of old ∙ ap status_of same,
      )
    where
      total : counters_at (apply_all t s os) k ≡ some (count_some no_counters (ev ∷ evs))
      total =
          counters_at-apply_all s os k
          ∙ ap (count_all (counters_at s k)) events
          ∙ ap (λ o. count_all o (ev ∷ evs)) (counters_at-none s k missing)
          ∙ count_all-none ev evs
