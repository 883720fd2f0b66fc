-- ===== src/Cook/Trees/Summaries.antt =====
-- What `SummarizeSteps` counts.
use Prim.Native.Nat.{ℕ, suc, ◌+◌}
use mathlib.Core.Path.{◌≡◌, ap}
use mathlib.Core.Bool.{Bool, ◌&&◌}
use mathlib.Core.List.{List, [], ◌∷◌}
use native.Mathlib.Omega.{arith}
use grlx.Common.{Str, dec_str, ◌==◌, test, if◌then◌else◌}
use grlx.Common.Dict.{lookup, insert, lookup-insert}
use grlx.Cook.Steps.{
  CompletionStatus, dec_status, not_started, in_progress, completed, failed, skipped,
  StepCompletion,
}
use grlx.Cook.Trees.{Summary, summary_at, add_status, add_step, summarize_steps}

-- How many steps of a sprout have a status, and how many made changes.
unfoldable pub count_of : Str → (StepCompletion → Bool) → List (Str × StepCompletion) → ℕ
unfolding dec_str
count_of sprout p [] = 0
count_of sprout p ((name, c) ∷ steps) =
    (if name == sprout && p c then 1 else 0) + count_of sprout p steps

abbrev pub has_status : CompletionStatus → StepCompletion → Bool
has_status status c = test (dec_status c.completion_status status)

abbrev Adds : Summary → Summary → ℕ → ℕ → ℕ → Type 0
Adds after before done broken changed =
    (after.succeeded ≡ before.succeeded + done)
    × (after.failures ≡ before.failures + broken)
    × (after.changes ≡ before.changes + changed)

abbrev one_if : Bool → ℕ
one_if b = if b then 1 else 0

add_status-Adds :
    (status : CompletionStatus) (s : Summary)
    → Adds
        (add_status status s)
        s
        (one_if (test (dec_status status completed)))
        (one_if (test (dec_status status failed)))
        0
unfolding add_status dec_status
add_status-Adds not_started s = ground arith
add_status-Adds in_progress s = ground arith
add_status-Adds completed s = ground arith
add_status-Adds failed s = ground arith
add_status-Adds skipped s = ground arith

add_step-Adds :
    (c : StepCompletion) (s : Summary)
    → Adds
        (add_step c s)
        s
        (one_if (has_status completed c))
        (one_if (has_status failed c))
        (one_if c.changes_made)
unfolding add_step
add_step-Adds c s =
    let (a, b, d) =
      add_status-Adds c.completion_status
        (if c.changes_made then record s { changes = suc s.changes } else s) in
    (ground arith, ground arith, ground arith)

summary_at-insert :
    (name sprout : Str) (s : Summary) (m : List (Str × Summary))
    → summary_at sprout (insert name s m) ≡ (if name == sprout then s else summary_at sprout m)
summary_at-insert name sprout s m = ground (arith, lookup-insert name sprout s m)

summarize_steps-Adds :
    (sprout : Str) (steps : List (Str × StepCompletion)) (m : List (Str × Summary))
    → Adds
        (summary_at sprout (summarize_steps steps m))
        (summary_at sprout m)
        (count_of sprout (has_status completed) steps)
        (count_of sprout (has_status failed) steps)
        (count_of sprout StepCompletion.changes_made steps)
unfolding summarize_steps count_of
summarize_steps-Adds sprout [] m = (ground arith, ground arith, ground arith)
summarize_steps-Adds sprout ((name, c) ∷ steps) m =
    let (a, b, d) =
      summarize_steps-Adds sprout steps (insert name (add_step c (summary_at name m)) m) in
    let (a', b', d') = add_step-Adds c (summary_at name m) in
    let e = summary_at-insert name sprout (add_step c (summary_at name m)) m in
    elim (dec_str name sprout) [
      | yes same ↦
          let f : summary_at name m ≡ summary_at sprout m = ap (λ n. summary_at n m) same in
          (ground arith, ground arith, ground arith)
      | no other ↦ (ground arith, ground arith, ground arith)
    ]

-- `SummarizeSteps` gives each sprout the numbers of its own steps that completed, that failed and
-- that made changes; a sprout without steps has none of them.
summarize_steps-count_of :
    (sprout : Str) (steps : List (Str × StepCompletion))
    → ((summary_at sprout (summarize_steps steps [])).succeeded
        ≡ count_of sprout (has_status completed) steps)
      × ((summary_at sprout (summarize_steps steps [])).failures
          ≡ count_of sprout (has_status failed) steps)
      × ((summary_at sprout (summarize_steps steps [])).changes
          ≡ count_of sprout StepCompletion.changes_made steps)
unfolding lookup
summarize_steps-count_of sprout steps =
    let (a, b, d) = summarize_steps-Adds sprout steps [] in
    (ground arith, ground arith, ground arith)
