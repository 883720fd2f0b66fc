-- ===== src/Rbac/Registry/Listing.antt =====
-- The rows of the cohorts of a tenant, and what the loops of `ValidateReferencesAll` say of each.
use Prim.Native.Nat.{ℕ, suc, ◌≤◌}
use mathlib.Core.Path.{◌≡◌, refl, sym, ap, ◌∙◌}
use mathlib.Core.Logic.{◌≢◌, ⊎_elim}
use mathlib.Core.Bool.{true}
use mathlib.Core.Option.{Option, none, some}
use mathlib.Core.List.{List, [], ◌∷◌, ◌++◌, Memᴰ}
use mathlib.Core.List.Memᴰ
use native.Mathlib.Omega.{arith}
use grlx.Common.{Str, dec_str, ◌==◌, Result, ok, err, length, Memᴰ-cons}
use grlx.Common.Table.{Table}
use grlx.Rbac.Error.{Error}
use grlx.Rbac.Cohort.{Cohort}
use grlx.Rbac.Registry.{
  cohort_key, dec_key, named, is_compound, depth_error, depth_errors, errors_of, compute_depth,
  list_cohorts,
}

pub named-mem :
    (cohorts : List Cohort) (name : Str) (c : Cohort)
    → named cohorts name ≡ some c
    → Memᴰ c cohorts × (c.name ≡ name)
unfolding named
named-mem [] name c h = cc
named-mem (b ∷ cohorts) name c h = elim (dec_str b.name name) [
  | yes e ↦ ground (arith, Memᴰ-cons c b cohorts, ap Cohort.name)
  | no ne ↦ ground (arith, named-mem cohorts name c, Memᴰ-cons c b cohorts)
]

pub named-ne-none :
    (cohorts : List Cohort) (c : Cohort) → Memᴰ c cohorts → named cohorts c.name ≢ none
unfolding named
named-ne-none [] c m h = Memᴰ.not-nil m
named-ne-none (b ∷ cohorts) c m h = elim (dec_str b.name c.name) [
  | yes e ↦ ground arith
  | no ne ↦
      ⊎_elim (λ e. ne (rw e)) (λ k. named-ne-none cohorts c k (ground arith))
        ((Memᴰ-cons c b cohorts).0 m)
]

pub append-eq_nil {ℓ} : {A : Type ℓ} (xs ys : List A) → xs ++ ys ≡ [] → ys ≡ []
append-eq_nil [] ys h = h
append-eq_nil (x ∷ xs) ys h = cc

pub append-eq_nil_left {ℓ} : {A : Type ℓ} (xs ys : List A) → xs ++ ys ≡ [] → xs ≡ []
append-eq_nil_left [] ys h = refl
append-eq_nil_left (x ∷ xs) ys h = cc

pub errors_of-nil :
    (f : Cohort → List Error) (cohorts : List Cohort)
    → errors_of f cohorts ≡ []
    → (c : Cohort) → Memᴰ c cohorts
    → f c ≡ []
unfolding errors_of
errors_of-nil f [] h c m = absurd (Memᴰ.not-nil m)
errors_of-nil f (b ∷ cohorts) h c m =
    ⊎_elim (λ e. ap f e ∙ append-eq_nil_left (f b) (errors_of f cohorts) h)
      (errors_of-nil f cohorts (append-eq_nil (f b) (errors_of f cohorts) h) c)
      ((Memᴰ-cons c b cohorts).0 m)

pub depth_errors-nil :
    (cohorts : List Cohort) (c : Cohort)
    → is_compound c.type ≡ true
    → depth_errors cohorts c ≡ []
    → (d : ℕ) × (left : List Str) × (compute_depth (suc (length cohorts)) cohorts c.name []
        ≡ ok (d, left))
      × (d ≤ 16)
depth_errors-nil cohorts c isc h =
    go (compute_depth (suc (length cohorts)) cohorts c.name []) refl (rw isc at h)
  where
    go :
        (m : Result Error (ℕ × List Str))
        → compute_depth (suc (length cohorts)) cohorts c.name [] ≡ m
        → depth_error m ≡ []
        → (d : ℕ) × (left : List Str) × (compute_depth (suc (length cohorts)) cohorts c.name []
            ≡ ok (d, left))
          × (d ≤ 16)
    go (ok (d, left)) e k = (d, left, e, ground arith)
    go (err x) e k = cc

module _ (t : Table dec_key cohort_key) where
  open t use {State, find, find-key, mem-select}

  module _ (db : State) (tenant_id name : Str) where
    stored :
        (c : Cohort)
        → Memᴰ c (list_cohorts t db tenant_id) × (c.name ≡ name)
        → find db (tenant_id, name) ≡ some c
    unfolding list_cohorts
    stored c (m, n) =
        let (row, tested) = (mem-select db (λ row. row.tenant_id == tenant_id) c).0 m in
        let e : c.tenant_id ≡ tenant_id = ground arith in
        ap (find db) (λ i. (sym e i, sym n i)) ∙ row

    pub listed :
        (c : Cohort)
        → find db (tenant_id, name) ≡ some c
        → Memᴰ c (list_cohorts t db tenant_id) × (c.name ≡ name)
    unfolding list_cohorts
    listed c q =
        let k = find-key db (tenant_id, name) q in
        let e : c.tenant_id ≡ tenant_id = ap (λ (x : Str × Str). x.0) k in
        (
          (mem-select db (λ row. row.tenant_id == tenant_id) c).1
              (ap (find db) k ∙ q, ground arith),
          ap (λ (x : Str × Str). x.1) k,
        )

    -- The map of `listCohorts` and the query of `getCohort` agree.
    pub named-list_cohorts : named (list_cohorts t db tenant_id) name ≡ find db (tenant_id, name)
    named-list_cohorts = go (find db (tenant_id, name)) refl (named cohorts name) refl
      where
        cohorts : List Cohort
        cohorts = list_cohorts t db tenant_id

        go :
            (a : Option Cohort)
            → find db (tenant_id, name) ≡ a
            → (b : Option Cohort) → named cohorts name ≡ b
            → named cohorts name ≡ find db (tenant_id, name)
        go none p none q = q ∙ sym p
        go none p (some c) q = cc (stored c (named-mem cohorts name c q))
        go (some c) p none q =
            let (m, n) = listed c p in absurd (named-ne-none cohorts c m (ap (named cohorts) n ∙ q))
        go (some c) p (some d) q = q ∙ sym (stored d (named-mem cohorts name d q))
