-- ===== src/Cook/Cycles/Ending.antt =====
-- `findCycle` of internal/cook/rootball.go: the fuel with which it ends.
use Prim.Native.Nat.{ℕ, zero, suc, ◌+◌, ◌≤◌}
use mathlib.Core.Path.{◌≡◌, refl, ap, ◌∙◌, subst, sym}
use mathlib.Core.Logic.{◌≢◌, inl, inr}
use mathlib.Core.Bool.{true, false, ◌||◌}
use mathlib.Core.List.{List, [], ◌∷◌, ◌++◌}
use native.Mathlib.Omega.{arith}
use grlx.Common.{Str, dec_str, contains, Result, ok, Bool-cases, contains-append}
use grlx.Cook.Steps.{Step, all_ids}
use grlx.Cook.Run.{step_at}
use grlx.Cook.Trees.{ids_of}
use grlx.Cook.Cycles.{Stop, Answer, follow, find_cycle}
use grlx.Cook.Cycles.Paths.{requires, Requires, Grounded, grounded}
use grlx.Cook.Cycles.Found.{step_of-ids_of}

-- A search that gives an answer, and one that answers that there is a cycle.
abbrev Answers : (List Str → Result Stop Answer) → Type 0
Answers find = (chain : List Str) → (a : Answer) × (find chain ≡ ok a)

abbrev Succeeds : (List Str → Result Stop Answer) → Type 0
Succeeds find = (chain : List Str) → (r : List Str) × (find chain ≡ ok (true, r))

follow-Answers :
    (find : Str → List Str → Result Stop Answer) (top : Str) (ws : List Str)
    → ((w : Str) → contains ws w ≡ true → Answers (find w))
    → Answers (follow find top ws)
unfolding follow contains
follow-Answers find top [] each chain = ((false, []), refl)
follow-Answers find top (w ∷ ws) each chain = elim (dec_str w top) [
  | yes e ↦ ((true, chain ++ w ∷ []), ground arith)
  | no ne ↦
      let ((b, r), found) = each w (ground arith) chain in
      let (a, rest) = follow-Answers find top ws (λ v m. each v (ground arith)) chain in
      elim (Bool-cases b) [ inl e ↦ ((true, r), ground arith) | inr e ↦ (a, ground arith) ]
]

follow-Succeeds :
    (find : Str → List Str → Result Stop Answer) (top : Str) (done : List Str) (w : Str)
    (rest : List Str)
    → ((v : Str) → contains done v ≡ true → Answers (find v))
    → Succeeds (find w)
    → Succeeds (follow find top (done ++ w ∷ rest))
unfolding follow contains
follow-Succeeds find top [] w rest each last chain = elim (dec_str w top) [
  | yes e ↦ (chain ++ w ∷ [], ground arith)
  | no ne ↦ let (r, found) = last chain in (r, ground arith)
]
follow-Succeeds find top (v ∷ done) w rest each last chain = elim (dec_str v top) [
  | yes e ↦ (chain ++ v ∷ [], ground arith)
  | no ne ↦
      let ((b, r), found) = each v (ground arith) chain in
      let (r', later) =
        follow-Succeeds find top done w rest (λ u m. each u (ground arith)) last chain in
      elim (Bool-cases b) [ inl e ↦ (r, ground arith) | inr e ↦ (r', ground arith) ]
]

module _ (steps : List Step) (top : Str) where
  -- With enough fuel the search from an id ends, or ends in a cycle.
  abbrev pub Ends : Str → Type 0
  Ends x = (n : ℕ) × ((fuel : ℕ) → n ≤ fuel → Answers (find_cycle fuel steps top x))

  abbrev pub Finds : Str → Type 0
  Finds x = (n : ℕ) × ((fuel : ℕ) → n ≤ fuel → Succeeds (find_cycle fuel steps top x))

  -- One bound of the fuel for all the ids of a list.
  bound :
      (ws : List Str)
      → ((w : Str) → contains ws w ≡ true → Ends w)
      → (n : ℕ) × ((fuel : ℕ)
          → n ≤ fuel
          → (w : Str) → contains ws w ≡ true
          → Answers (find_cycle fuel steps top w))
  unfolding contains
  bound [] each = (0, λ fuel le w m. absurd (cc))
  bound (v ∷ ws) each =
      let (n, rest) = bound ws (λ w m. each w (ground arith)) in
      let (k, first) = each v (ground arith) in
      (
        n + k,
        λ fuel le w m. elim (dec_str w v) [
          | yes e ↦
              subst (λ x. Answers (find_cycle fuel steps top x)) (sym e) (first fuel (omega arith))
          | no ne ↦ rest fuel (omega arith) w (ground arith)
        ],
      )

  -- The two cases of `findCycle` that read the requisites of a step.
  find_cycle-inner :
      (fuel : ℕ) (x : Str) (chain : List Str)
      → contains (ids_of steps) x ≡ true
      → x ≢ []
      → x ≢ top
      → find_cycle (suc fuel) steps top x chain
        ≡ follow (find_cycle fuel steps top) top (requires steps x) (chain ++ x ∷ [])
  unfolding find_cycle
  find_cycle-inner fuel x chain def ne other =
      let (step, found) = step_of-ids_of steps x def in
      let same : requires steps x ≡ all_ids step.requisites = rw (step_at, found) refl in
      ground arith

  at_top :
      (fuel : ℕ) (x : Str) (chain : List Str)
      → x ≡ top
      → (r : List Str) × (find_cycle (suc fuel) steps top x chain ≡ ok (true, r))
  unfolding find_cycle
  at_top fuel x chain e = (chain ++ x ∷ [], ground arith)

  find_cycle-start :
      (fuel : ℕ) (chain : List Str)
      → contains (ids_of steps) top ≡ true
      → top ≢ []
      → find_cycle (suc fuel) steps top [] chain
        ≡ follow (find_cycle fuel steps top) top (requires steps top) (chain ++ top ∷ [])
  unfolding find_cycle
  find_cycle-start fuel chain def ne =
      let (step, found) = step_of-ids_of steps top def in rw (find_cycle, found) (ground arith)

-- Of a recipe whose requisites are ids of its steps, and whose ids are not empty.
pub record IsLinked (steps : List Step) : Type 0 where
  pub defined : (id w : Str) → Requires steps id w → contains (ids_of steps) w ≡ true
  pub named : contains (ids_of steps) [] ≡ false

pub IsLinked-ne :
    (steps : List Step) → IsLinked steps → (x : Str) → contains (ids_of steps) x ≡ true → x ≢ []
IsLinked-ne steps l x def e = let n = l.named in absurd (cc)

module _ (steps : List Step) (l : IsLinked steps) (top : Str) where
  -- Below a grounded id, the search ends.
  pub Grounded-Ends :
      (x : Str) → contains (ids_of steps) x ≡ true → Grounded steps x → Ends steps top x
  Grounded-Ends x def (grounded below) =
      let (n, each) =
        bound steps top (requires steps x) (λ w r. Grounded-Ends w (l.defined x w r) (below w r)) in
      (suc n, λ fuel le chain. within n each fuel le chain)
    where
      within :
          (n : ℕ)
          → ((fuel : ℕ)
              → n ≤ fuel
              → (w : Str) → contains (requires steps x) w ≡ true
              → Answers (find_cycle fuel steps top w))
          → (fuel : ℕ) → suc n ≤ fuel
          → Answers (find_cycle fuel steps top x)
      within n each zero le chain = absurd (omega (arith, le))
      within n each (suc fuel) le chain = elim (dec_str x top) [
        | yes e ↦ let (r, h) = at_top steps top fuel x chain e in ((true, r), h)
        | no ne ↦
            let (a, h) =
              follow-Answers (find_cycle fuel steps top) top (requires steps x)
                (each fuel (omega arith)) (chain ++ x ∷ []) in
            (a, find_cycle-inner steps top fuel x chain def (IsLinked-ne steps l x def) ne ∙ h)
      ]

  -- From an id whose next requisite leads to the top, behind requisites that are grounded.
  module _ (x : Str) (def : contains (ids_of steps) x ≡ true) (done : List Str) (w : Str)
      (rest : List Str) (split : requires steps x ≡ done ++ w ∷ rest)
      (past : (v : Str) → contains done v ≡ true → Grounded steps v) where
    through :
        Finds steps top w
        → (n : ℕ) × ((fuel : ℕ)
            → n ≤ fuel
            → Succeeds (follow (find_cycle fuel steps top) top (requires steps x)))
    through (k, last) =
        let (n, each) = bound steps top done (λ v m. Grounded-Ends v (known v m) (past v m)) in
        (
          n + k,
          λ fuel le.
              subst (λ ws. Succeeds (follow (find_cycle fuel steps top) top ws)) (sym split)
                (follow-Succeeds (find_cycle fuel steps top) top done w rest
                  (each fuel (omega arith)) (last fuel (omega arith))),
        )
      where
        known : (v : Str) → contains done v ≡ true → contains (ids_of steps) v ≡ true
        known v m = l.defined x v (
            subst (λ ws. contains ws v ≡ true) (sym split)
              (contains-append done (w ∷ rest) v ∙ ap (λ b. b || contains (w ∷ rest) v) m))

    pub Finds-inner : Finds steps top w → Finds steps top x
    Finds-inner found =
        let (n, h) = through found in (suc n, λ fuel le chain. within n h fuel le chain)
      where
        within :
            (n : ℕ)
            → ((fuel : ℕ)
                → n ≤ fuel
                → Succeeds (follow (find_cycle fuel steps top) top (requires steps x)))
            → (fuel : ℕ) → suc n ≤ fuel
            → Succeeds (find_cycle fuel steps top x)
        within n h zero le chain = absurd (omega (arith, le))
        within n h (suc fuel) le chain = elim (dec_str x top) [
          | yes e ↦ at_top steps top fuel x chain e
          | no ne ↦
              let (r, e) = h fuel (omega arith) (chain ++ x ∷ []) in
              (r, find_cycle-inner steps top fuel x chain def (IsLinked-ne steps l x def) ne ∙ e)
        ]

    pub Finds-start : x ≡ top → Finds steps top w → Finds steps top []
    Finds-start same found =
        let (n, h) = through found in (suc n, λ fuel le chain. within n h fuel le chain)
      where
        top_def : contains (ids_of steps) top ≡ true
        top_def = subst (λ y. contains (ids_of steps) y ≡ true) same def

        within :
            (n : ℕ)
            → ((fuel : ℕ)
                → n ≤ fuel
                → Succeeds (follow (find_cycle fuel steps top) top (requires steps x)))
            → (fuel : ℕ) → suc n ≤ fuel
            → Succeeds (find_cycle fuel steps top [])
        within n h zero le chain = absurd (omega (arith, le))
        within n h (suc fuel) le chain =
            let (r, e) = h fuel (omega arith) (chain ++ top ∷ []) in
            (
              r,
              find_cycle-start steps top fuel chain top_def (IsLinked-ne steps l top top_def)
                  ∙ ap
                      (λ y.
                        follow (find_cycle fuel steps top) top (requires steps y)
                          (chain ++ top ∷ []))
                      (sym same)
                  ∙ e,
            )

  pub Finds-top : Finds steps top top
  Finds-top = (1, λ fuel le chain. within fuel le chain)
    where
      within : (fuel : ℕ) → 1 ≤ fuel → Succeeds (find_cycle fuel steps top top)
      within zero le chain = absurd (omega (arith, le))
      within (suc fuel) le chain = at_top steps top fuel top chain refl
