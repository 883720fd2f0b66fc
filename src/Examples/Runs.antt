-- ===== src/Examples/Runs.antt =====
-- A run of a recipe on small inputs.
use Prim.Native.Nat.{◌+◌, ◌*◌, ◌≤◌}
use mathlib.Core.Path.{◌≡◌, refl, subst}
use mathlib.Core.Logic.{◌⊎◌, ◌≢◌, inl}
use mathlib.Core.Option.{some}
use mathlib.Core.List.{List, [], ◌∷◌}
use native.Mathlib.Omega.{arith}
use grlx.Common.{Str, str, dec_str, contains, length}
use grlx.Common.Dict.{lookup, insert}
use grlx.Cook.Steps.{Step, StepCompletion, completed, skipped, all_ids}
use grlx.Cook.Requisites.{Completions, requisites_are_met}
use grlx.Cook.Run.{
  Job, Run, Reaches, start, next, sent, received, ends, cooking, completion, start_run, receive,
  start_id, fresh_completions, step_of, finish, timed_out,
}
use grlx.Cook.Run.Counting.{occurs, waiting}
use grlx.Cook.Run.Reports.{finished_reports}
use grlx.Cook.Run.Quiet.{keys_of, keys_of-Covers}
use grlx.Cook.Run.Liveness.{run_goes_on}
use grlx.Cook.Run.Events.{events, events-le}
use grlx.Cook.Trees.{requisite_ids}
use grlx.Cook.Cycles.Paths.{Requires, grounded}
use grlx.Cook.Cycles.Validation.{IsSound}
use grlx.Examples.Recipes.{install}

-- A run of a recipe of one step, to its end.
abbrev job : Str
job = str "7"

abbrev only_install : List Step
only_install = install ∷ []

-- The maps that the loop passes over.
abbrev first_map : Completions
first_map =
    insert (start_id job) (completion (start_id job) completed)
      (start_run only_install job).completions

abbrev after_start : Run
after_start =
    receive only_install job (keys_of first_map) (completion (start_id job) completed)
      (record (start_run only_install job) { queue = [] })

abbrev after_install : Run
after_install = record after_start { jobs = []; queue = completion (str "install") completed ∷ [] }

abbrev last_map : Completions
last_map = insert (str "install") (completion (str "install") completed) after_install.completions

abbrev at_end : Run
at_end =
    receive only_install job (keys_of last_map) (completion (str "install") completed)
      (record after_install { queue = [] })

after_start-Reaches : Reaches only_install job after_start
unfolding start_run
after_start-Reaches = next start (
    received (completion (start_id job) completed) [] (keys_of first_map) refl refl
      (keys_of-Covers first_map))

at_end-Reaches : Reaches only_install job at_end
unfolding start_run receive requisites_are_met fresh_completions step_of finish lookup insert
at_end-Reaches =
    next
      (next after_start-Reaches (
        sent (cooking (str "install")) [] [] (completion (str "install") completed) refl
          (ends refl (inl refl))))
      (received (completion (str "install") completed) [] (keys_of last_map) refl refl
        (keys_of-Covers last_map))

finished_reports_example :
    (waiting at_end.completions ≡ 0)
    × (at_end.jobs ≡ [])
    × (at_end.queue ≡ [])
    × (at_end.reported ≡ length only_install + 1)
unfolding occurs receive requisites_are_met fresh_completions step_of finish lookup insert start_run
finished_reports_example =
    finished_reports only_install job at_end (refl, tt) refl at_end-Reaches refl

-- `install` requires nothing, so the recipe is one that is accepted.
install_alone : IsSound only_install
unfolding occurs contains requisite_ids step_of all_ids lookup dec_str
install_alone = (
  (refl, tt),
  λ dep m. absurd (cc),
  λ v m. grounded (λ w r.
      let same : v ≡ install.id = ground arith in
      let nothing : Requires only_install install.id w =
        subst (λ x. Requires only_install x w) same r in
      absurd (cc)),
)

at_end-ne : at_end.phase ≢ timed_out
unfolding receive requisites_are_met fresh_completions step_of finish lookup insert start_run
at_end-ne e = cc

events-le_example : events at_end-Reaches ≤ 2 * length only_install + 1
unfolding occurs
events-le_example = events-le only_install job at_end at_end-Reaches (refl, tt) refl at_end-ne

unskipped :
    (id : Str) (c : StepCompletion)
    → lookup id after_start.completions ≡ some c
    → c.completion_status ≢ skipped
unfolding receive requisites_are_met fresh_completions step_of finish lookup insert start_run
    dec_str
unskipped id c found = ground arith

run_goes_on_example :
    ((c : StepCompletion) × (rest : List StepCompletion) × (after_start.queue ≡ c ∷ rest))
    ⊎ ((j : Job) × (rest : List Job) × (after_start.jobs ≡ j ∷ rest))
unfolding occurs receive requisites_are_met fresh_completions step_of finish lookup insert start_run
run_goes_on_example =
    run_goes_on only_install job after_start install_alone refl after_start-Reaches unskipped refl
