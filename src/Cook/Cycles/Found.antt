-- ===== src/Cook/Cycles/Found.antt =====
-- `findCycle` of internal/cook/rootball.go: what it finds, and that it ends.
use Prim.Native.Nat.{ℕ, zero, suc}
use mathlib.Core.Path.{◌≡◌, refl, ◌∙◌}
use mathlib.Core.Logic.{◌≢◌, inl, inr}
use mathlib.Core.Bool.{true}
use mathlib.Core.Option.{some}
use mathlib.Core.List.{List, [], ◌∷◌, ◌++◌, append_assoc}
use native.Mathlib.Omega.{arith}
use grlx.Common.{
  Str, dec_str, contains, Result, ok, ◌>>=◌, >>=-eq-ok, Option-cases, Bool-cases, if◌then◌else◌,
}
use grlx.Common.Dict.{lookup}
use grlx.Cook.Steps.{Step, all_ids}
use grlx.Cook.Run.{step_of, step_at}
use grlx.Cook.Trees.{ids_of}
use grlx.Cook.Cycles.{Stop, Answer, follow, find_cycle}
use grlx.Cook.Cycles.Paths.{requires, Requires, Walk, arrive, along, IsClosedAt}

-- The map of the steps has an entry for the id of every step.
pub step_of-ids_of :
    (steps : List Step) (id : Str)
    → contains (ids_of steps) id ≡ true
    → (step : Step) × (step_of steps id ≡ some step)
unfolding step_of contains lookup
step_of-ids_of [] id h = cc
step_of-ids_of (step ∷ steps) id h = elim (Option-cases (step_of steps id)) [
  | inr (s, found) ↦ (s, rw found refl)
  | inl absent ↦ elim (dec_str id step.id) [
    | yes e ↦ (step, ground arith)
    | no ne ↦ let (s, found) = step_of-ids_of steps id (ground arith) in absurd (ground arith)
  ]
]

-- A loop over requisites that finds a path, if what it calls does.
follow-Walk :
    (steps : List Step) (find : Str → List Str → Result Stop Answer) (top : Str)
    (ws chain r : List Str)
    → ((w : Str) (c r : List Str)
        → contains ws w ≡ true
        → find w c ≡ ok (true, r)
        → (ids : List Str) × (r ≡ c ++ ids) × Walk steps top w ids)
    → follow find top ws chain ≡ ok (true, r)
    → (w : Str) × (ids : List Str) × (contains ws w ≡ true)
      × (r ≡ chain ++ ids)
      × Walk steps top w ids
unfolding follow contains
follow-Walk steps find top [] chain r sound h = absurd (cc)
follow-Walk steps find top (w ∷ ws) chain r sound h = elim (dec_str w top) [
  | yes e ↦ (w, w ∷ [], ground arith, ground arith, arrive e)
  | no ne ↦
      let go : (find w chain >>= λ f. if f.0 then ok (true, f.1) else follow find top ws chain)
          ≡ ok (true, r) =
        ground arith in
      let ((b, found), first, rest) = >>=-eq-ok (find w chain) _ go in
      elim (Bool-cases b) [
        | inl yes_b ↦
            let (ids, e, p) = sound w chain found (ground arith) (ground arith) in
            (w, ids, ground arith, ground arith, p)
        | inr no_b ↦
            let (v, ids, m, e, p) =
              follow-Walk steps find top ws chain r (λ v c r m. sound v c r (ground arith))
                (ground arith) in
            (v, ids, ground arith, e, p)
      ]
]

module _ (steps : List Step) (named : (id w : Str) → Requires steps id w → w ≢ []) where
  find_cycle-Walk :
      (fuel : ℕ) (top current : Str) (chain r : List Str)
      → current ≢ []
      → find_cycle fuel steps top current chain ≡ ok (true, r)
      → (ids : List Str) × (r ≡ chain ++ ids) × Walk steps top current ids
  unfolding find_cycle
  find_cycle-Walk zero top current chain r ne h = absurd (cc)
  find_cycle-Walk (suc fuel) top current chain r ne h = elim (dec_str current top) [
    | yes e ↦ (current ∷ [], ground arith, arrive e)
    | no other ↦ elim (Option-cases (step_of steps current)) [
      | inl absent ↦ absurd (ground arith)
      | inr (step, found) ↦
          let same : requires steps current ≡ all_ids step.requisites = rw (step_at, found) refl in
          let (w, ids, m, e, p) =
            follow-Walk steps (find_cycle fuel steps top) top (requires steps current)
              (chain ++ current ∷ []) r
              (λ w c r m. find_cycle-Walk fuel top w c r (named current w m)) (ground arith) in
          (current ∷ ids, e ∙ append_assoc chain (current ∷ []) ids, along m p)
    ]
  ]

  -- What `dfs` reports from an id that it visits is a closed path.
  pub find_cycle-IsClosedAt :
      (fuel : ℕ) (top : Str) (r : List Str)
      → top ≢ []
      → find_cycle fuel steps top [] [] ≡ ok (true, r)
      → IsClosedAt steps top r
  unfolding find_cycle
  find_cycle-IsClosedAt zero top r ne h = absurd (cc)
  find_cycle-IsClosedAt (suc fuel) top r ne h = elim (Option-cases (step_of steps top)) [
    | inl absent ↦ absurd (ground arith)
    | inr (step, found) ↦
        let same : requires steps top ≡ all_ids step.requisites = rw (step_at, found) refl in
        let (w, ids, m, e, p) =
          follow-Walk steps (find_cycle fuel steps top) top (requires steps top) (top ∷ []) r
            (λ w c r m. find_cycle-Walk fuel top w c r (named top w m)) (ground arith) in
        (w, ids, m, p, e)
  ]
