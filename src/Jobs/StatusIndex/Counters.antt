-- ===== src/Jobs/StatusIndex/Counters.antt =====
-- The counters of a job: those of its row, and those of a list of events.
use Prim.Native.Nat.{ℕ, ◌+◌}
use mathlib.Core.Path.{◌≡◌, refl}
use mathlib.Core.Logic.{◌≢◌}
use mathlib.Core.Bool.{Bool, false, ◌&&◌, ◌||◌}
use mathlib.Core.Option.{Option, none, some}
use mathlib.Core.List.{List, [], ◌∷◌}
use native.Mathlib.Omega.{arith}
use grlx.Common.{if◌then◌else◌, leb, test}
use grlx.Jobs.StatusIndex.{
  IndexStatus, job_pending, job_running, job_succeeded, job_failed, JobStatusRow, JobKey, job_key,
  dec_job, JobEvent, status_expr, first_row, assign_event, Statement, upserted, refreshed,
}

-- What the status is computed from.
pub record Counters : Type 0 where
  pub total : Option ℕ
  pub reported : ℕ
  pub failed : Bool
  pub started : Bool
  pub finished : Bool
  pub timed_out : Bool

abbrev pub counters_of : JobStatusRow → Counters
counters_of row = record {
  total = row.steps_total;
  reported = row.steps_reported;
  failed = row.step_failed;
  started = row.started;
  finished = row.finished;
  timed_out = row.timed_out;
}

abbrev pub no_counters : Counters
no_counters = record {
  total = none;
  reported = 0;
  failed = false;
  started = false;
  finished = false;
  timed_out = false;
}

unfoldable pub count : JobEvent → Counters → Counters
count ev c = record {
  total = elim ev.steps_total [ none ↦ c.total | some n ↦ some n ];
  reported = if ev.step then c.reported + 1 else c.reported;
  failed = ev.step_failed || c.failed;
  started = ev.started || c.started;
  finished = ev.finished || c.finished;
  timed_out = ev.timed_out || c.timed_out;
}

-- The counters after a list of events, none where there is no event.
unfoldable pub count_some : Counters → List JobEvent → Counters
unfolding count
count_some c [] = c
count_some c (ev ∷ evs) = count_some (count ev c) evs

unfoldable pub count_all : Option Counters → List JobEvent → Option Counters
unfolding count_some count
count_all o [] = o
count_all none (ev ∷ evs) = some (count_some (count ev no_counters) evs)
count_all (some c) (ev ∷ evs) = some (count_some (count ev c) evs)

-- The events of one job in a list of statements.
unfoldable pub events_of : JobKey → List Statement → List JobEvent
unfolding dec_job
events_of k [] = []
events_of k (upserted j ev now ∷ os) =
    let rest = events_of k os in if test (dec_job j k) then ev ∷ rest else rest
events_of k (refreshed j now ∷ os) = events_of k os

-- The status that the columns of a row stand for.
unfoldable pub status_of : Counters → IndexStatus
status_of c =
    let all_reported : Bool = elim c.total [ none ↦ false | some total ↦ leb total c.reported ] in
    if c.timed_out
    then job_failed
    else if c.finished && all_reported
    then if c.failed then job_failed else job_succeeded
    else if c.started || c.finished || leb 1 c.reported
    then job_running
    else job_pending

pub status_expr-status_of : (row : JobStatusRow) → status_expr row ≡ status_of (counters_of row)
unfolding status_expr status_of
status_expr-status_of row = refl

pub counters_of-first_row :
    (k : JobKey) (ev : JobEvent) (now : ℕ) → counters_of (first_row k ev now) ≡ count ev no_counters
unfolding first_row count
counters_of-first_row k ev now = ground arith

pub counters_of-assign_event :
    (ev : JobEvent) (now : ℕ) (row : JobStatusRow)
    → counters_of (assign_event ev now row) ≡ count ev (counters_of row)
unfolding assign_event count
counters_of-assign_event ev now row = ground arith

pub job_key-assign_event :
    (ev : JobEvent) (now : ℕ) (row : JobStatusRow) → job_key (assign_event ev now row) ≡ job_key row
unfolding assign_event
job_key-assign_event ev now row = refl

pub count_all-some :
    (c : Counters) (evs : List JobEvent) → count_all (some c) evs ≡ some (count_some c evs)
unfolding count_all count_some
count_all-some c [] = refl
count_all-some c (ev ∷ evs) = refl

pub count_all-nil : (o : Option Counters) → o ≡ count_all o []
unfolding count_all
count_all-nil none = refl
count_all-nil (some c) = refl

pub count_all-cons :
    (o : Option Counters) (ev : JobEvent) (evs : List JobEvent)
    → count_all (count_all o (ev ∷ [])) evs ≡ count_all o (ev ∷ evs)
unfolding count_all count_some
count_all-cons none ev evs = count_all-some (count ev no_counters) evs
count_all-cons (some c) ev evs = count_all-some (count ev c) evs

pub count_all-none :
    (ev : JobEvent) (evs : List JobEvent)
    → count_all none (ev ∷ evs) ≡ some (count_some no_counters (ev ∷ evs))
unfolding count_all count_some
count_all-none ev evs = refl

pub none-ne-some : (c : Counters) → none ≡ some c → ⊥
none-ne-some c e = cc

pub some_inj : {c d : Counters} → some c ≡ some d → c ≡ d
some_inj e = cc

pub events_of-same :
    {j : JobKey} (k : JobKey) (ev : JobEvent) (now : ℕ) (os : List Statement)
    → j ≡ k
    → events_of k (upserted j ev now ∷ os) ≡ ev ∷ events_of k os
unfolding events_of
events_of-same k ev now os e = ground arith

pub events_of-other :
    {j : JobKey} (k : JobKey) (ev : JobEvent) (now : ℕ) (os : List Statement)
    → j ≢ k
    → events_of k (upserted j ev now ∷ os) ≡ events_of k os
unfolding events_of
events_of-other k ev now os ne = ground arith
