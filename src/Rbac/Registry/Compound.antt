-- ===== src/Rbac/Registry/Compound.antt =====
-- What `Resolve` of internal/rbac/cohort.go makes of a compound cohort, in terms of `Resolve` at
-- its operands.
use Prim.Native.Nat.{ℕ, zero, suc, ◌+◌, ◌≤◌}
use mathlib.Core.Path.{◌≡◌, refl, sym, ap, ◌∙◌, subst}
use mathlib.Core.Logic.{inl, inr, ◌↔◌}
use mathlib.Core.Bool.{true, false}
use mathlib.Core.Option.{Option, none, some}
use mathlib.Core.List.{List, [], ◌∷◌}
use native.Mathlib.Omega.{arith}
use grlx.Common.{Str, contains, Result, ok, ◌>>=◌, Option-cases, >>=-eq-ok}
use grlx.Common.Table.{Table}
use grlx.Rbac.Error.{Error}
use grlx.Rbac.Cohort.{CohortType, compound, Operator, CompoundExpr, Cohort, combine}
use grlx.Rbac.Cohort.Members.{contains-combine}
use grlx.Rbac.Registry.{
  cohort_key, dec_key, Registry, get_cohort, combine_operands, resolve_operands, resolve_compound,
  resolve_type, resolve_from, resolve,
}
use grlx.Rbac.Registry.Resolution
use grlx.Rbac.Registry.Operands.{
  Each, nil, cons, Meaning, combined, combined_iff, visit_mono, Each-mono,
}

module _ (t : Table dec_key cohort_key) (get_prop : Str → Str → Str → Str) where
  open t use {State, find}

  combine_operands_sets :
      (answer : Str → Result Error (List Str)) (op : Operator) (operands result ms : List Str)
      → combine_operands t get_prop answer op operands result ≡ ok ms
      → (sets : List (List Str)) × Each answer operands sets
        × ((x : Str) → contains ms x ≡ combined op (contains result x) x sets)
  unfolding combine_operands combined
  combine_operands_sets answer op [] result ms h = ([], nil, λ x. ground arith)
  combine_operands_sets answer op (o ∷ operands) result ms h =
      let (set, first, rest) = >>=-eq-ok (answer o) _ h in
      let (sets, each, same) =
        combine_operands_sets answer op operands (combine op result set) ms rest in
      (
        set ∷ sets,
        cons first each,
        λ x. same x ∙ ap (λ b. combined op b x sets) (contains-combine op result set x),
      )

  resolve_operands_sets :
      (answer : Str → Result Error (List Str)) (op : Operator) (operands ms : List Str)
      → resolve_operands t get_prop answer op operands ≡ ok ms
      → (sets : List (List Str)) × Each answer operands sets
        × ((x : Str) → (contains ms x ≡ true) ↔ Meaning op x sets)
  unfolding resolve_operands
  resolve_operands_sets answer op [] ms h = cc
  resolve_operands_sets answer op (o ∷ []) ms h = cc
  resolve_operands_sets answer op (o ∷ p ∷ operands) ms h =
      let (set, first, rest) = >>=-eq-ok (answer o) _ h in
      let (sets, each, same) = combine_operands_sets answer op (p ∷ operands) set ms rest in
      (set ∷ sets, cons first each, λ x. rw (same x) (combined_iff op x set sets))

  -- An answer that another function gives too.
  abbrev Agrees : (Str → Result Error (List Str)) → (Str → Result Error (List Str)) → Type 0
  Agrees f g = (o : Str) (ms : List Str) → f o ≡ ok ms → g o ≡ ok ms

  combine_operands_mono :
      (f g : Str → Result Error (List Str)) (op : Operator) (operands result ms : List Str)
      → Agrees f g
      → combine_operands t get_prop f op operands result ≡ ok ms
      → combine_operands t get_prop g op operands result ≡ ok ms
  unfolding combine_operands
  combine_operands_mono f g op [] result ms agree h = h
  combine_operands_mono f g op (o ∷ operands) result ms agree h =
      let (set, first, rest) = >>=-eq-ok (f o) _ h in
      ap (λ m. m >>= λ s. combine_operands t get_prop g op operands (combine op result s))
        (agree o set first)
      ∙ combine_operands_mono f g op operands (combine op result set) ms agree rest

  resolve_operands_mono :
      (f g : Str → Result Error (List Str)) (op : Operator) (operands ms : List Str)
      → Agrees f g
      → resolve_operands t get_prop f op operands ≡ ok ms
      → resolve_operands t get_prop g op operands ≡ ok ms
  unfolding resolve_operands
  resolve_operands_mono f g op [] ms agree h = h
  resolve_operands_mono f g op (o ∷ []) ms agree h = h
  resolve_operands_mono f g op (o ∷ p ∷ operands) ms agree h =
      let (set, first, rest) = >>=-eq-ok (f o) _ h in
      ap (λ m. m >>= λ s. combine_operands t get_prop g op (p ∷ operands) s) (agree o set first)
      ∙ combine_operands_mono f g op (p ∷ operands) set ms agree rest

  resolve_compound_mono :
      (f g : Str → Result Error (List Str)) (expr : Option CompoundExpr) (ms : List Str)
      → Agrees f g
      → resolve_compound t get_prop f expr ≡ ok ms
      → resolve_compound t get_prop g expr ≡ ok ms
  unfolding resolve_compound
  resolve_compound_mono f g none ms agree h = h
  resolve_compound_mono f g (some expr) ms agree h =
      resolve_operands_mono f g expr.operator expr.operands ms agree h

  resolve_type_mono :
      (f g : Str → Result Error (List Str)) (tenant_id : Str) (ids : List Str) (type : CohortType)
      (c : Cohort) (ms : List Str)
      → Agrees f g
      → resolve_type t get_prop f tenant_id ids type c ≡ ok ms
      → resolve_type t get_prop g tenant_id ids type c ≡ ok ms
  unfolding resolve_type
  resolve_type_mono f g tenant_id ids compound c ms agree h =
      resolve_compound_mono f g c.compound ms agree h
  resolve_type_mono f g tenant_id ids type c ms agree h = h

  -- The case of `resolve` that returns a set.
  resolve_from-eq-ok :
      (fuel : ℕ) (r : Registry) (db : State) (ids : List Str) (name : Str) (visited : List Str)
      (depth : ℕ) (ms : List Str)
      → resolve_from t get_prop (suc fuel) r db ids name visited depth ≡ ok ms
      → (c : Cohort) × (depth ≤ 16)
        × (contains visited name ≡ false)
        × (find db (r.tenant_id, name) ≡ some c)
        × (resolve_type t get_prop
              (λ operand.
                resolve_from t get_prop fuel r db ids operand (name ∷ visited) (depth + 1))
              r.tenant_id
              ids
              c.type
              c
            ≡ ok ms)
  unfolding resolve_from get_cohort
  resolve_from-eq-ok fuel r db ids name visited depth ms h =
      elim (Option-cases (find db (r.tenant_id, name))) [
        | inl missing ↦ absurd (ground arith)
        | inr (c, found) ↦ (c, ground arith, ground arith, found, ground arith)
      ]

  -- A set that `resolve` finds it finds with more fuel, fewer names visited and less depth too.
  resolve_from_mono :
      (fuel more : ℕ) (r : Registry) (db : State) (ids : List Str) (name : Str)
      (visited fewer : List Str) (depth less : ℕ) (ms : List Str)
      → fuel ≤ more
      → ((x : Str) → contains visited x ≡ false → contains fewer x ≡ false)
      → less ≤ depth
      → resolve_from t get_prop fuel r db ids name visited depth ≡ ok ms
      → resolve_from t get_prop more r db ids name fewer less ≡ ok ms
  unfolding resolve_from
  resolve_from_mono zero more r db ids name visited fewer depth less ms le sub shallow h = cc
  resolve_from_mono (suc fuel) zero r db ids name visited fewer depth less ms le sub shallow h =
      absurd (omega arith)
  resolve_from_mono (suc fuel) (suc more) r db ids name visited fewer depth less ms le sub shallow
        h =
      let (c, fits, new, found, body) = resolve_from-eq-ok fuel r db ids name visited depth ms h in
      Resolution.resolve_from-step t get_prop more r db ids name fewer less c (omega arith)
        (sub name new) found
      ∙ resolve_type_mono _ _ r.tenant_id ids c.type c ms
          (λ o set e.
            resolve_from_mono fuel more r db ids o (name ∷ visited) (name ∷ fewer) (depth + 1)
              (less + 1) set (omega arith) (visit_mono name visited fewer sub) (omega arith) e)
          body

  -- When a compound cohort resolves, each of its operands resolves by itself, and a sprout is in the
  -- result exactly when it is in all of the operands' sets (AND), in some of them (OR), or in the
  -- first and in none of the others (EXCEPT).
  pub resolve_compound_members :
      (r : Registry) (db : State) (name : Str) (ids : List Str) {c : Cohort} {expr : CompoundExpr}
      {ms : List Str}
      → find db (r.tenant_id, name) ≡ some c
      → c.type ≡ compound
      → c.compound ≡ some expr
      → resolve t get_prop r db name ids ≡ ok ms
      → (sets : List (List Str)) × Each (λ o. resolve t get_prop r db o ids) expr.operands sets
        × ((x : Str) → (contains ms x ≡ true) ↔ Meaning expr.operator x sets)
  unfolding resolve
  resolve_compound_members r db name ids {c} {expr} {ms} row ty e h =
      let below = λ (o : Str). resolve_from t get_prop 17 r db ids o (name ∷ []) (0 + 1) in
      let (d, fits, new, found, body) = resolve_from-eq-ok 17 r db ids name [] 0 ms h in
      let same : d ≡ c = cc in
      let loop : resolve_operands t get_prop below expr.operator expr.operands ≡ ok ms =
        sym (Resolution.resolve_type-compound t get_prop below r.tenant_id ids c expr ty e)
        ∙ subst (λ (k : Cohort). resolve_type t get_prop below r.tenant_id ids k.type k ≡ ok ms)
            same body in
      let (sets, each, members) = resolve_operands_sets below expr.operator expr.operands ms loop in
      (
        sets,
        Each-mono below (λ o. resolve t get_prop r db o ids)
            (λ o set q.
              resolve_from_mono 17 18 r db ids o (name ∷ []) [] 1 0 set (omega arith)
                (λ x _. unfold contains in refl) (omega arith) q)
            each,
        members,
      )
