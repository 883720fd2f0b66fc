-- ===== src/Cook/Cycles/Verdict.antt =====
-- `HasCycle` and `ValidateTrees` of internal/cook/rootball.go: that they end, and what they accept.
use Prim.Native.Nat.{ℕ, zero, suc, ◌+◌, ◌≤◌, ◌<◌}
use mathlib.Core.Path.{◌≡◌, refl, ap, ◌∙◌, subst, sym}
use mathlib.Core.Logic.{◌⊎◌, inl, inr}
use mathlib.Core.Bool.{true, false, not}
use mathlib.Core.List.{List, [], ◌∷◌, ◌++◌, append_assoc}
use native.Mathlib.Omega.{arith}
use grlx.Common.{
  Str, dec_str, ◌==◌, contains, keep, Result, ok, ◌>>=◌, Bool-cases, if◌then◌else◌, contains-append,
  keep_absent, remaining, remaining-lt,
}
use grlx.Cook.Steps.{Step, all_ids}
use grlx.Cook.Run.{step_at}
use grlx.Cook.Trees.{ids_of}
use grlx.Cook.Cycles.{Stop, Answer, find_cycle, Marks, descend, leave, dfs, scan}
use grlx.Cook.Cycles.Paths.{
  requires, Requires, Grounded, grounded, IsClosed, IsClosedAt-open, Grounded-below,
}
use grlx.Cook.Cycles.Found.{step_of-ids_of, find_cycle-IsClosedAt}
use grlx.Cook.Cycles.Ending.{IsLinked, IsLinked-ne, Finds, Finds-inner, Finds-start, Finds-top}
use grlx.Cook.Cycles.Search.{
  AreGrounded, AreGrounded-nil, AreGrounded-cons, AreGrounded-snoc, Outcome, cycle, clear, Searches,
  descend-cons,
}

module _ (steps : List Step) (l : IsLinked steps) where
  -- From the id, the search of `findCycle` comes back to each visited id whose requisites lead to it.
  abbrev Lifts : List Str → Str → Type 0
  Lifts visited x =
      (top : Str) → contains visited top ≡ true → Finds steps top x → Finds steps top []

  Lifts-below :
      (visited : List Str) (x w : Str) (done ws : List Str)
      → contains (ids_of steps) x ≡ true
      → requires steps x ≡ done ++ w ∷ ws
      → AreGrounded steps done
      → Lifts visited x
      → Lifts (x ∷ visited) w
  unfolding contains
  Lifts-below visited x w done ws def split past lift top m found = elim (dec_str top x) [
    | yes e ↦ Finds-start steps l top x def done w ws split past (sym e) found
    | no ne ↦ lift top (ground arith) (Finds-inner steps l top x def done w ws split past found)
  ]

  requires-middle :
      (x w : Str) (done ws : List Str) → requires steps x ≡ done ++ w ∷ ws → Requires steps x w
  unfolding contains
  requires-middle x w done ws split =
      subst (λ ids. contains ids w ≡ true) (sym split)
        (ground (arith, contains-append done (w ∷ ws) w))

  descend-nil :
      (visited : List Str)
      → Searches steps visited (AreGrounded steps []) (λ fuel. descend (dfs fuel steps) [])
  unfolding descend
  descend-nil visited = (0, λ fuel le validated v. clear _ refl refl v (AreGrounded-nil steps))

  descend-Searches :
      (visited : List Str) (x : Str)
      → contains (ids_of steps) x ≡ true
      → Lifts visited x
      → ((w : Str)
          → contains (ids_of steps) w ≡ true
          → Lifts (x ∷ visited) w
          → Searches steps (x ∷ visited) (Grounded steps w) (λ fuel. dfs fuel steps w))
      → (done ws : List Str) → requires steps x ≡ done ++ ws
      → AreGrounded steps done
      → Searches steps (x ∷ visited) (AreGrounded steps ws) (λ fuel. descend (dfs fuel steps) ws)
  descend-Searches visited x def lift each done [] split past = descend-nil (x ∷ visited)
  descend-Searches visited x def lift each done (w ∷ ws) split past =
      descend-cons steps (x ∷ visited) w ws
        (each w (l.defined x w (requires-middle x w done ws split))
          (Lifts-below visited x w done ws def split past lift))
        (λ g.
          descend-Searches visited x def lift each (done ++ w ∷ []) ws
            (split ∙ sym (append_assoc done (w ∷ []) ws)) (AreGrounded-snoc steps w done g past))

  -- The two cases of `dfs`.
  dfs-visited :
      (fuel : ℕ) (x : Str) (marks : Marks) (r : List Str)
      → contains marks.visited x ≡ true
      → find_cycle fuel steps x [] [] ≡ ok (true, r)
      → dfs (suc fuel) steps x marks ≡ ok ((true, r), marks)
  unfolding dfs
  dfs-visited fuel x marks r seen h = rw (dfs, seen, h) refl

  dfs-new :
      (fuel : ℕ) (x : Str) (marks : Marks)
      → contains (ids_of steps) x ≡ true
      → contains marks.visited x ≡ false
      → dfs (suc fuel) steps x marks ≡ (
          descend (dfs fuel steps) (requires steps x) (record marks { visited = x ∷ marks.visited })
          >>= leave x)
  unfolding dfs
  dfs-new fuel x marks def new =
      let (step, found) = step_of-ids_of steps x def in
      let same : requires steps x ≡ all_ids step.requisites = rw (step_at, found) refl in
      ground arith

  leave_outcome :
      (visited : List Str) (x : Str) {r : Result Stop (Answer × Marks)}
      → contains visited x ≡ false
      → Outcome steps (x ∷ visited) (AreGrounded steps (requires steps x)) r
      → Outcome steps visited (Grounded steps x) (r >>= leave x)
  unfolding leave keep
  leave_outcome visited x new (cycle chain marks h c np) =
      cycle chain marks (rw h refl) c (λ g. np (λ v m. Grounded-below steps g m))
  leave_outcome visited x new (clear marks h same v p) =
      clear
        (record {
          visited = keep (λ v. not (v == x)) marks.visited;
          validated = x ∷ marks.validated;
        })
        (rw h refl) (ground (arith, keep_absent x visited new, ap (keep (λ v. not (v == x))) same))
        (AreGrounded-cons steps x marks.validated (grounded p) v) (grounded p)

  dfs-Searches :
      (k : ℕ) (visited : List Str) (x : Str)
      → remaining (ids_of steps) visited < k
      → contains (ids_of steps) x ≡ true
      → Lifts visited x
      → Searches steps visited (Grounded steps x) (λ fuel. dfs fuel steps x)
  dfs-Searches zero visited x lt def lift = absurd (omega arith)
  dfs-Searches (suc k) visited x lt def lift = elim (Bool-cases (contains visited x)) [
    | inl seen ↦
        let (n, find) = lift x seen (Finds-top steps l x) in
        (suc n, λ fuel le validated v. again n find seen fuel le validated)
    | inr new ↦
        let (n, each) =
          descend-Searches visited x def lift
            (λ w.
              dfs-Searches k (x ∷ visited) w
                (omega (arith, lt, remaining-lt (ids_of steps) x visited def new)))
            [] (requires steps x) refl (AreGrounded-nil steps) in
        (suc n, λ fuel le validated v. first n each new fuel le validated v)
  ]
    where
      again :
          (n : ℕ)
          → ((fuel : ℕ)
              → n ≤ fuel
              → (chain : List Str)
              → (r : List Str) × (find_cycle fuel steps x [] chain ≡ ok (true, r)))
          → contains visited x ≡ true
          → (fuel : ℕ) → suc n ≤ fuel
          → (validated : List Str)
          → Outcome steps visited
              (Grounded steps x)
              (dfs fuel steps x (record { visited = visited; validated = validated }))
      again n find seen zero le validated = absurd (omega (arith, le))
      again n find seen (suc fuel) le validated =
          let (r, h) = find fuel (omega arith) [] in
          let closed =
            find_cycle-IsClosedAt steps (λ id w m. IsLinked-ne steps l w (l.defined id w m)) fuel x
              r (IsLinked-ne steps l x def) h in
          cycle r _ (dfs-visited fuel x _ r seen h) (x, closed) (IsClosedAt-open steps closed)

      first :
          (n : ℕ)
          → ((fuel : ℕ)
              → n ≤ fuel
              → (validated : List Str) → AreGrounded steps validated
              → Outcome steps (x ∷ visited) (AreGrounded steps (requires steps x)) (
                  descend
                    (dfs fuel steps)
                    (requires steps x)
                    (record { visited = x ∷ visited; validated = validated })))
          → contains visited x ≡ false
          → (fuel : ℕ) → suc n ≤ fuel
          → (validated : List Str) → AreGrounded steps validated
          → Outcome steps visited
              (Grounded steps x)
              (dfs fuel steps x (record { visited = visited; validated = validated }))
      first n each new zero le validated v = absurd (omega (arith, le))
      first n each new (suc fuel) le validated v =
          subst (Outcome steps visited (Grounded steps x)) (sym (dfs-new fuel x _ def new))
            (leave_outcome visited x new (each fuel (omega arith) validated v))

  -- What the loop of `HasCycle` finds.
  abbrev pub Found : List Step → Result Stop Answer → Type 0
  Found rest r =
      ((chain : List Str) × (r ≡ ok (true, chain)) × IsClosed steps chain)
      ⊎ ((r ≡ ok (false, [])) × AreGrounded steps (ids_of rest))

  Lifts-nil : (x : Str) → Lifts [] x
  unfolding contains
  Lifts-nil x top m = absurd (cc)

  pub scan-ends :
      (rest : List Step)
      → ((id : Str) → contains (ids_of rest) id ≡ true → contains (ids_of steps) id ≡ true)
      → (n : ℕ) × ((fuel : ℕ)
          → n ≤ fuel
          → (validated : List Str) → AreGrounded steps validated
          → Found rest (scan fuel steps rest (record { visited = []; validated = validated })))
  unfolding scan contains
  scan-ends [] known = (0, λ fuel le validated v. inr (refl, AreGrounded-nil steps))
  scan-ends (step ∷ rest) known =
      let (n, first) =
        dfs-Searches (suc (remaining (ids_of steps) [])) [] step.id (omega arith)
          (known step.id (ground arith)) (Lifts-nil step.id) in
      let (k, later) = scan-ends rest (λ id m. known id (ground arith)) in
      (
        n + k,
        λ fuel le validated v. elim (Bool-cases (contains validated step.id)) [
          | inl old ↦ rw (scan, old) (skip (v step.id old) (later fuel (omega arith) validated v))
          | inr new ↦
              rw (scan, new)
                (join fuel (first fuel (omega arith) validated v) (later fuel (omega arith)))
        ],
      )
    where
      skip :
          {r : Result Stop Answer} → Grounded steps step.id → Found rest r → Found (step ∷ rest) r
      skip g (inl f) = inl f
      skip g (inr (e, gs)) = inr (e, AreGrounded-cons steps step.id (ids_of rest) g gs)

      join :
          (fuel : ℕ) {r : Result Stop (Answer × Marks)}
          → Outcome steps [] (Grounded steps step.id) r
          → ((validated : List Str)
              → AreGrounded steps validated
              → Found rest (scan fuel steps rest (record { visited = []; validated = validated })))
          → Found
              (step ∷ rest)
              (r >>= λ s. if s.0.0 then ok (true, s.0.1) else scan fuel steps rest s.1)
      join fuel (cycle chain marks h c np) later = inl (chain, rw h refl, c)
      join fuel (clear marks h same v g) later = rw h (
          skip g (
            subst
              (λ seen.
                Found rest
                  (scan fuel steps rest (record { visited = seen; validated = marks.validated })))
              (sym same) (later marks.validated v)))
