-- ===== src/Cook/Pruning/Closure.antt =====
-- What a visit by `PruneToTarget` of internal/cook/helpers.go keeps, or where it
-- stops.
use Prim.Native.Nat.{ℕ, ◌≤◌}
use mathlib.Core.Path.{◌≡◌, refl}
use mathlib.Core.Logic.{◌⊎◌, inl, inr}
use mathlib.Core.Bool.{true, false}
use mathlib.Core.List.{List, [], ◌∷◌}
use native.Mathlib.Omega.{arith}
use grlx.Common.{Str, dec_str, contains, Result, ok, err, remaining, remaining_mono}
use grlx.Cook.Steps.{Step}
use grlx.Cook.Trees.{ids_of}
use grlx.Cook.Cycles.Paths.{requires, Requires}
use grlx.Cook.Pruning.{PruneError, dangling_requisite, visit_all}

-- A chain of requisites leads from one id to another.
pub data Leads (steps : List Step) (to : Str) : Str → Type 0 where
  here : {id : Str} → id ≡ to → Leads steps to id
  via : {id w : Str} → Requires steps id w → Leads steps to w → Leads steps to id

-- A chain from one of the ids of a list.
abbrev pub LeadsFrom : List Step → List Str → Str → Type 0
LeadsFrom steps starts to = (start : Str) × (contains starts start ≡ true) × Leads steps to start

abbrev pub IsSubset : List Str → List Str → Type 0
IsSubset xs ys = (x : Str) → contains xs x ≡ true → contains ys x ≡ true

-- A visit of some ids: it ends at a requisite that no step has, or it keeps the ids, what they lead
-- to, and the requisites of all that it keeps anew.
pub data Visited (steps : List Step) (starts kept : List Str)
    : Result PruneError (List Str) → Type 0 where
  dangles :
      {r : Result PruneError (List Str)} (d : Str)
      → r ≡ err (dangling_requisite d)
      → LeadsFrom steps starts d
      → contains (ids_of steps) d ≡ false
      → Visited steps starts kept r
  keeps :
      {r : Result PruneError (List Str)} (more : List Str)
      → r ≡ ok more
      → IsSubset kept more
      → IsSubset starts more
      → ((x : Str)
          → contains more x ≡ true
          → (contains kept x ≡ true)
            ⊎ (LeadsFrom steps starts x × IsSubset (requires steps x) more))
      → Visited steps starts kept r

module _ (steps : List Step) where
  LeadsFrom-cons :
      (w : Str) (ws : List Str) (x : Str) → LeadsFrom steps ws x → LeadsFrom steps (w ∷ ws) x
  unfolding contains
  LeadsFrom-cons w ws x (s, m, l) = (s, ground arith, l)

  LeadsFrom-head :
      (w : Str) (ws : List Str) (x : Str) → LeadsFrom steps (w ∷ []) x → LeadsFrom steps (w ∷ ws) x
  unfolding contains
  LeadsFrom-head w ws x (s, m, l) = (s, ground arith, l)

  IsSubset-cons :
      (w : Str) (ws first more : List Str)
      → IsSubset (w ∷ []) first
      → IsSubset first more
      → IsSubset ws more
      → IsSubset (w ∷ ws) more
  unfolding contains
  IsSubset-cons w ws first more a b c x m = elim (dec_str x w) [
    | yes e ↦ b x (a x (ground arith))
    | no ne ↦ c x (ground arith)
  ]

  pub visit_all_run :
      (go : Str → List Str → Result PruneError (List Str)) (n : ℕ)
      → ((w : Str) (kept : List Str)
          → remaining (ids_of steps) kept ≤ n
          → Visited steps (w ∷ []) kept (go w kept))
      → (ws kept : List Str) → remaining (ids_of steps) kept ≤ n
      → Visited steps ws kept (visit_all go ws kept)
  unfolding visit_all contains
  visit_all_run go n each [] kept le =
      keeps kept refl (λ x m. m) (λ x m. absurd (cc)) (λ x m. inl m)
  visit_all_run go n each (w ∷ ws) kept le = first (each w kept le) (λ more sub.
      visit_all_run go n each ws more
        (omega (arith, remaining_mono (ids_of steps) kept more sub, le)))
    where
      first :
          Visited steps (w ∷ []) kept (go w kept)
          → ((more : List Str) → IsSubset kept more → Visited steps ws more (visit_all go ws more))
          → Visited steps (w ∷ ws) kept (visit_all go (w ∷ ws) kept)
      first (dangles d e l u) rest = dangles d (rw (visit_all, e) refl) (LeadsFrom-head w ws d l) u
      first (keeps more e sub start new) rest = second (rest more sub)
        where
          second :
              Visited steps ws more (visit_all go ws more)
              → Visited steps (w ∷ ws) kept (visit_all go (w ∷ ws) kept)
          second (dangles d f l u) = dangles d (rw (visit_all, e) f) (LeadsFrom-cons w ws d l) u
          second (keeps last f sub' start' new') =
              keeps last (rw (visit_all, e) f) (λ x m. sub' x (sub x m))
                (IsSubset-cons w ws more last start sub' start')
                (λ x m. elim (new' x m) [
                  | inr (l, r) ↦ inr (LeadsFrom-cons w ws x l, r)
                  | inl old ↦ elim (new x old) [
                    | inl k ↦ inl k
                    | inr (l, r) ↦ inr (LeadsFrom-head w ws x l, λ v q. sub' v (r v q))
                  ]
                ])
