-- ===== src/Cook/Cycles/Paths.antt =====
-- Paths along the requisites of the steps of a recipe, and the steps below which they end.
use mathlib.Core.Path.{◌≡◌, refl, subst, sym}
use mathlib.Core.Bool.{true}
use mathlib.Core.List.{List, [], ◌∷◌, ◌++◌}
use grlx.Common.{Str, contains}
use grlx.Cook.Steps.{Step, all_ids}
use grlx.Cook.Run.{step_at}

abbrev pub requires : List Step → Str → List Str
requires steps id = all_ids (step_at steps id).requisites

-- Whether a step names another as a requisite.
abbrev pub Requires : List Step → Str → Str → Type 0
Requires steps id w = contains (requires steps id) w ≡ true

-- A path along the requisites from one id to another, with the ids on it.
pub data Walk (steps : List Step) (top : Str) : Str → List Str → Type 0 where
  arrive : {id : Str} → id ≡ top → Walk steps top id (id ∷ [])
  along :
      {id w : Str} {ids : List Str}
      → Requires steps id w
      → Walk steps top w ids
      → Walk steps top id (id ∷ ids)

-- A path from an id back to itself.
abbrev pub IsClosedAt : List Step → Str → List Str → Type 0
IsClosedAt steps top chain =
    (w : Str) × (ids : List Str) × Requires steps top w × Walk steps top w ids × (chain ≡ top ∷ ids)

abbrev pub IsClosed : List Step → List Str → Type 0
IsClosed steps chain = (top : Str) × IsClosedAt steps top chain

-- The requisites of the id, their requisites, and so on, end.
pub data Grounded (steps : List Step) : Str → Type 0 where
  grounded : {id : Str} → ((w : Str) → Requires steps id w → Grounded steps w) → Grounded steps id

module _ (steps : List Step) where
  pub Grounded-below : {id w : Str} → Grounded steps id → Requires steps id w → Grounded steps w
  Grounded-below {id} {w} (grounded below) r = below w r

  snoc :
      {top w id : Str} {ids : List Str}
      → Walk steps top id ids
      → Requires steps top w
      → Walk steps w id (ids ++ w ∷ [])
  snoc {w} (arrive e) r = along (subst (λ x. Requires steps x w) (sym e) r) (arrive refl)
  snoc (along r' p) r = along r' (snoc p r)

  turn :
      {top id : Str} {ids : List Str}
      → Requires steps top id
      → Walk steps top id ids
      → (w : Str) × (rest : List Str) × Requires steps id w × Walk steps id w rest
  turn {top} {id} r (arrive e) =
      (id, id ∷ [], subst (λ x. Requires steps x id) (sym e) r, arrive refl)
  turn {id} r (along {w} {ids} r' p) = (w, ids ++ id ∷ [], r', snoc p r)

  -- No path below a grounded id comes back to it.
  pub Grounded-open :
      {top : Str}
      → Grounded steps top
      → (w : Str) (ids : List Str) → Requires steps top w
      → Walk steps top w ids
      → ⊥
  Grounded-open {top} (grounded below) w ids r p =
      let (v, rest, r', p') = turn r p in Grounded-open (below w r) v rest r' p'

  pub IsClosedAt-open :
      {top : Str} {chain : List Str} → IsClosedAt steps top chain → ¬ Grounded steps top
  IsClosedAt-open (w, ids, r, p, e) g = Grounded-open g w ids r p
