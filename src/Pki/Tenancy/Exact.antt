-- ===== src/Pki/Tenancy/Exact.antt =====
-- `VerifySproutInTenant` of internal/pki/store.go, with any rows that the database finds.
use mathlib.Core.Path.{◌≡◌, refl, sym, ap, ◌∙◌}
use mathlib.Core.Logic.{◌⊎◌, inl, inr, ◌↔◌}
use mathlib.Core.Bool.{Bool, true, false, not}
use mathlib.Core.Option.{Option, none, some}
use native.Mathlib.Omega.{arith}
use grlx.Common.{Str, dec_str, if◌then◌else◌, Result, ok, err, Option-cases, >>=-eq-ok}
use grlx.Pki.SproutId.{is_valid_sprout_id, is_valid_tenant_id}
use grlx.Pki.Keys.{Error, tenant_id_invalid, sprout_id_invalid, NKeyRow, accepted}
use grlx.Pki.Tenancy.{TenantRow, verify_tenant, verify_sprout, verify_sprout_in_tenant}

some_inj : {A : Type 0} {a b : A} → some a ≡ some b → a ≡ b
some_inj e = cc

none-ne-some : {A : Type 0} (a : A) → none ≡ some a → ⊥
none-ne-some a e = cc

checks :
    (valid valid' : Bool) (rest : Result Error (Unit {0}))
    → (if not valid
        then err tenant_id_invalid
        else if not valid'
        then err sprout_id_invalid
        else rest)
      ≡ ok tt
    → (valid ≡ true) × (valid' ≡ true) × (rest ≡ ok tt)
checks true true rest h = (refl, refl, h)
checks true false rest h = cc
checks false valid' rest h = cc

module _ (first_tenant : Str → Option TenantRow) (first_key : Str → Str → Option NKeyRow) where
  -- A tenant that is the one of the process, or has a row of exactly its id that is not deleted.
  abbrev pub IsLive : Str → Str → Type 0
  IsLive current_tenant tenant_id =
      (tenant_id ≡ current_tenant)
      ⊎ ((row : TenantRow) × (first_tenant tenant_id ≡ some row)
          × (row.deleted ≡ false)
          × (row.id ≡ tenant_id))

  -- A sprout with a row of exactly its tenant and id, in the state accepted.
  abbrev pub IsAcceptedIn : Str → Str → Type 0
  IsAcceptedIn tenant_id sprout_id =
      (row : NKeyRow) × (first_key tenant_id sprout_id ≡ some row)
      × (row.tenant_id ≡ tenant_id)
      × (row.sprout_id ≡ sprout_id)
      × (row.state ≡ accepted)

  verify_tenant_iff :
      (current_tenant tenant_id : Str)
      → (verify_tenant first_tenant first_key current_tenant tenant_id ≡ ok tt)
        ↔ IsLive current_tenant tenant_id
  unfolding verify_tenant
  verify_tenant_iff current_tenant tenant_id = elim (Option-cases (first_tenant tenant_id)) [
    | inl missing ↦ (
      λ h. inl (ground arith),
      λ l. elim l [
        | inl e ↦ ground arith
        | inr (r, f, _, _) ↦ absurd (none-ne-some r (sym missing ∙ f))
      ],
    )
    | inr (row, found) ↦ (
      λ h. elim (dec_str tenant_id current_tenant) [
        | yes e ↦ inl e
        | no ne ↦ inr (row, found, ground arith, ground arith)
      ],
      λ l. elim l [
        | inl e ↦ ground arith
        | inr (r, f, live, same) ↦
            let q : r ≡ row = some_inj (sym f ∙ found) in
            let live' : row.deleted ≡ false = sym (ap TenantRow.deleted q) ∙ live in
            let same' : row.id ≡ tenant_id = sym (ap TenantRow.id q) ∙ same in ground arith
      ],
    )
  ]

  verify_sprout_iff :
      (tenant_id sprout_id : Str)
      → (verify_sprout first_tenant first_key tenant_id sprout_id ≡ ok tt)
        ↔ IsAcceptedIn tenant_id sprout_id
  unfolding verify_sprout
  verify_sprout_iff tenant_id sprout_id = elim (Option-cases (first_key tenant_id sprout_id)) [
    | inl missing ↦
        (λ h. absurd (ground arith), λ (r, f, _, _, _). absurd (none-ne-some r (sym missing ∙ f)))
    | inr (row, found) ↦ (
      λ h. (row, found, ground arith, ground arith, ground arith),
      λ (r, f, a, b, c).
          let q : r ≡ row = some_inj (sym f ∙ found) in
          let a' : row.tenant_id ≡ tenant_id = sym (ap NKeyRow.tenant_id q) ∙ a in
          let b' : row.sprout_id ≡ sprout_id = sym (ap NKeyRow.sprout_id q) ∙ b in
          let c' : row.state ≡ accepted = sym (ap NKeyRow.state q) ∙ c in ground arith,
    )
  ]

  -- Whatever rows the database finds for the ids, `VerifySproutInTenant` passes exactly when both
  -- ids are well formed, the tenant is the one of the process or has a row of exactly its id that
  -- is not deleted, and the sprout's row has exactly this tenant and this id and is accepted.
  pub verify_sprout_in_tenant_iff :
      (current_tenant tenant_id sprout_id : Str)
      → (verify_sprout_in_tenant first_tenant first_key current_tenant tenant_id sprout_id ≡ ok tt)
        ↔ ((is_valid_tenant_id tenant_id ≡ true)
            × (is_valid_sprout_id sprout_id ≡ true)
            × IsLive current_tenant tenant_id
            × IsAcceptedIn tenant_id sprout_id)
  unfolding verify_sprout_in_tenant
  verify_sprout_in_tenant_iff current_tenant tenant_id sprout_id =
      let (to, from) = verify_tenant_iff current_tenant tenant_id in
      let (to', from') = verify_sprout_iff tenant_id sprout_id in
      (
        λ h.
            let (valid, valid', rest) =
              checks (is_valid_tenant_id tenant_id) (is_valid_sprout_id sprout_id) _ h in
            let (_, a, b) =
              >>=-eq-ok (verify_tenant first_tenant first_key current_tenant tenant_id) _ rest in
            (valid, valid', to a, to' b),
        λ (valid, valid', live, there). let a = from live in let b = from' there in ground arith,
      )
