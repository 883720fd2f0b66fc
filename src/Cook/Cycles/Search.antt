-- ===== src/Cook/Cycles/Search.antt =====
-- `dfs` of internal/cook/rootball.go: that it ends, and what it has found then.
use Prim.Native.Nat.{ℕ, ◌+◌, ◌≤◌}
use mathlib.Core.Path.{◌≡◌, refl, subst, sym}
use mathlib.Core.Bool.{true, false}
use mathlib.Core.List.{List, [], ◌∷◌, ◌++◌}
use native.Mathlib.Omega.{arith}
use grlx.Common.{Str, dec_str, contains, Result, ok, contains-append}
use grlx.Cook.Steps.{Step}
use grlx.Cook.Cycles.{Stop, Answer, Marks, descend, dfs}
use grlx.Cook.Cycles.Paths.{Grounded, IsClosed}

-- Every id of a list is grounded.
abbrev pub AreGrounded : List Step → List Str → Type 0
AreGrounded steps ids = (v : Str) → contains ids v ≡ true → Grounded steps v

pub AreGrounded-nil : (steps : List Step) → AreGrounded steps []
unfolding contains
AreGrounded-nil steps v m = absurd (cc)

pub AreGrounded-cons :
    (steps : List Step) (x : Str) (ids : List Str)
    → Grounded steps x
    → AreGrounded steps ids
    → AreGrounded steps (x ∷ ids)
unfolding contains
AreGrounded-cons steps x ids g gs v m = elim (dec_str v x) [
  | yes e ↦ subst (Grounded steps) (sym e) g
  | no ne ↦ gs v (ground arith)
]

pub AreGrounded-snoc :
    (steps : List Step) (x : Str) (ids : List Str)
    → Grounded steps x
    → AreGrounded steps ids
    → AreGrounded steps (ids ++ x ∷ [])
unfolding contains
AreGrounded-snoc steps x ids g gs v m = elim (dec_str v x) [
  | yes e ↦ subst (Grounded steps) (sym e) g
  | no ne ↦ gs v (ground (arith, contains-append ids (x ∷ []) v))
]

-- A search that reports a closed path, or that leaves the marks in order and what it searched
-- grounded.
pub data Outcome (steps : List Step) (visited : List Str) (P : Type 0)
    : Result Stop (Answer × Marks) → Type 0 where
  cycle :
      {r : Result Stop (Answer × Marks)} (chain : List Str) (marks : Marks)
      → r ≡ ok ((true, chain), marks)
      → IsClosed steps chain
      → ¬ P
      → Outcome steps visited P r
  clear :
      {r : Result Stop (Answer × Marks)} (marks : Marks)
      → r ≡ ok ((false, []), marks)
      → marks.visited ≡ visited
      → AreGrounded steps marks.validated
      → P
      → Outcome steps visited P r

-- A search that ends so from some fuel on, whatever was validated before.
abbrev pub Searches :
    List Step → List Str → Type 0 → (ℕ → Marks → Result Stop (Answer × Marks)) → Type 0
Searches steps visited P search =
    (n : ℕ) × ((fuel : ℕ)
      → n ≤ fuel
      → (validated : List Str) → AreGrounded steps validated
      → Outcome steps visited P (search fuel (record { visited = visited; validated = validated })))

-- One more requisite in the loop of `dfs`.
descend-cycle :
    (steps : List Step) (search : Str → Marks → Result Stop (Answer × Marks)) (id : Str)
    (ids : List Str) (marks out : Marks) (chain : List Str)
    → search id marks ≡ ok ((true, chain), out)
    → descend search (id ∷ ids) marks ≡ ok ((true, chain), out)
unfolding descend
descend-cycle steps search id ids marks out chain h = rw h refl

descend-clear :
    (steps : List Step) (search : Str → Marks → Result Stop (Answer × Marks)) (id : Str)
    (ids : List Str) (marks out : Marks)
    → search id marks ≡ ok ((false, []), out)
    → descend search (id ∷ ids) marks ≡ descend search ids out
unfolding descend
descend-clear steps search id ids marks out h = rw h refl

module _ (steps : List Step) (visited : List Str) (id : Str) (ids : List Str) where
  abbrev First : Type 0
  First = Searches steps visited (Grounded steps id) (λ fuel. dfs fuel steps id)

  abbrev Rest : Type 0
  Rest = Searches steps visited (AreGrounded steps ids) (λ fuel. descend (dfs fuel steps) ids)

  abbrev Whole : Type 0
  Whole =
      Searches steps visited (AreGrounded steps (id ∷ ids))
        (λ fuel. descend (dfs fuel steps) (id ∷ ids))

  apart : ¬ Grounded steps id → ¬ AreGrounded steps (id ∷ ids)
  unfolding contains
  apart np gs = np (gs id (ground arith))

  all_apart : ¬ AreGrounded steps ids → ¬ AreGrounded steps (id ∷ ids)
  unfolding contains
  all_apart np gs = np (λ v m. gs v (ground arith))

  join :
      {r : Result Stop (Answer × Marks)}
      → Grounded steps id
      → Outcome steps visited (AreGrounded steps ids) r
      → Outcome steps visited (AreGrounded steps (id ∷ ids)) r
  join g (cycle chain marks h c np) = cycle chain marks h c (all_apart np)
  join g (clear marks h same v p) = clear marks h same v (AreGrounded-cons steps id ids g p)

  after_cycle : First → ¬ Grounded steps id → Whole
  after_cycle (n, first) np =
      (n, λ fuel le validated v. go fuel validated (first fuel le validated v))
    where
      go :
          (fuel : ℕ) (validated : List Str)
          → Outcome steps visited
              (Grounded steps id)
              (dfs fuel steps id (record { visited = visited; validated = validated }))
          → Outcome steps visited (AreGrounded steps (id ∷ ids)) (
              descend
                (dfs fuel steps)
                (id ∷ ids)
                (record { visited = visited; validated = validated }))
      go fuel validated (cycle chain marks h c n) =
          cycle chain marks (descend-cycle steps (dfs fuel steps) id ids _ marks chain h) c
            (apart np)
      go fuel validated (clear marks h same v p) = absurd (np p)

  after_clear : First → Grounded steps id → Rest → Whole
  after_clear (n, first) g (k, rest) = (
    n + k,
    λ fuel le validated v.
        go fuel validated (first fuel (omega arith) validated v) (rest fuel (omega arith)),
  )
    where
      go :
          (fuel : ℕ) (validated : List Str)
          → Outcome steps visited
              (Grounded steps id)
              (dfs fuel steps id (record { visited = visited; validated = validated }))
          → ((validated : List Str)
              → AreGrounded steps validated
              → Outcome steps visited (AreGrounded steps ids) (
                  descend
                    (dfs fuel steps)
                    ids
                    (record { visited = visited; validated = validated })))
          → Outcome steps visited (AreGrounded steps (id ∷ ids)) (
              descend
                (dfs fuel steps)
                (id ∷ ids)
                (record { visited = visited; validated = validated }))
      go fuel validated (cycle chain marks h c np) later =
          cycle chain marks (descend-cycle steps (dfs fuel steps) id ids _ marks chain h) c
            (apart np)
      go fuel validated (clear marks h same v p) later =
          subst (Outcome steps visited (AreGrounded steps (id ∷ ids)))
            (sym (descend-clear steps (dfs fuel steps) id ids _ marks h))
            (join g (
              subst
                (λ seen. Outcome steps visited (AreGrounded steps ids) (
                  descend (dfs fuel steps) ids
                    (record { visited = seen; validated = marks.validated })))
                (sym same) (later marks.validated v)))

  pub descend-cons : First → (Grounded steps id → Rest) → Whole
  descend-cons (n, first) rest = go (first n (omega arith) [] (AreGrounded-nil steps))
    where
      go : {r : Result Stop (Answer × Marks)} → Outcome steps visited (Grounded steps id) r → Whole
      go (cycle chain marks h c np) = after_cycle (n, first) np
      go (clear marks h same v p) = after_clear (n, first) p (rest p)
