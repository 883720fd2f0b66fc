-- ===== src/Pki/Keys/Accept.antt =====
-- `AcceptNKey` and `DeleteNKey` of internal/pki/pki.go.
use mathlib.Core.Path.{◌≡◌, refl, sym, ap, ◌∙◌, subst}
use mathlib.Core.Logic.{◌≢◌, ◌⊎◌, inl, inr}
use mathlib.Core.Bool.{true, false}
use mathlib.Core.Option.{none, some}
use mathlib.Core.List.{[], ◌∷◌}
use native.Mathlib.Omega.{arith}
use grlx.Common.{Str, dec_str, ok, err, Option-cases, Bool-cases}
use grlx.Common.Table.{Table, find-save_self, find-save_ne, find-delete_self, find-delete_ne}
use grlx.Pki.SproutId.{is_valid_sprout_id, base_of, has_underscore}
use grlx.Pki.Keys.{
  Error, sprout_id_invalid, sprout_id_not_found, already_accepted, accepted, dec_state, NKeyRow,
  nkey_key, dec_key, World, Outcome, accept_transaction, accept_found, accept_row, delete_nkey,
  accept_nkey, and_reload,
}
use grlx.Pki.Keys.Rows.{upsert_nkey_row-save}

-- An id without an underscore is its own base, one with an underscore is not.
base_of-same : (id : Str) → has_underscore id ≡ false → base_of id ≡ id
unfolding base_of has_underscore
base_of-same [] h = refl
base_of-same (c ∷ s) h = ground (arith, base_of-same s)

base_of-other : (id : Str) → has_underscore id ≡ true → base_of id ≢ id
unfolding base_of has_underscore
base_of-other [] h e = cc
base_of-other (c ∷ s) h e = ground (arith, base_of-other s)

module _ (t : Table dec_key nkey_key) (current_tenant : Str) where
  open t use {State, find, save, delete}

  find-delete_nkey_ne :
      (w : World t) (tenant_id id : Str) (k : Str × Str)
      → (tenant_id, id) ≢ k
      → find (delete_nkey t current_tenant w tenant_id id).1.rows k ≡ find w.rows k
  unfolding delete_nkey
  find-delete_nkey_ne w tenant_id id k ne = elim (Bool-cases (is_valid_sprout_id id)) [
    | inr bad ↦ rw bad
    | inl valid ↦ elim (Option-cases (find w.rows (tenant_id, id))) [
      | inl missing ↦ ground (arith, find-delete_ne t w.rows (tenant_id, id) k ne)
      | inr (old, found) ↦ ground (arith, find-delete_ne t w.rows (tenant_id, id) k ne)
    ]
  ]

  find-accept_transaction_self :
      (rows : State) (tenant_id id base nkey : Str)
      → find (accept_transaction t current_tenant rows tenant_id id base nkey) (tenant_id, base)
        ≡ some (record { tenant_id = tenant_id; sprout_id = base; nkey = nkey; state = accepted })
  unfolding accept_transaction
  find-accept_transaction_self rows tenant_id id base nkey =
      let row : NKeyRow = record {
        tenant_id = tenant_id;
        sprout_id = base;
        nkey = nkey;
        state = accepted;
      } in
      ap (λ s. find s (tenant_id, base)) (upsert_nkey_row-save t (delete rows (tenant_id, id)) row)
      ∙ find-save_self t (delete rows (tenant_id, id)) row

  find-accept_transaction_ne :
      (rows : State) (tenant_id id base nkey : Str) (k : Str × Str)
      → (tenant_id, base) ≢ k
      → find (accept_transaction t current_tenant rows tenant_id id base nkey) k
        ≡ find (delete rows (tenant_id, id)) k
  unfolding accept_transaction
  find-accept_transaction_ne rows tenant_id id base nkey k ne =
      let row : NKeyRow = record {
        tenant_id = tenant_id;
        sprout_id = base;
        nkey = nkey;
        state = accepted;
      } in
      ap (λ s. find s k) (upsert_nkey_row-save t (delete rows (tenant_id, id)) row)
      ∙ find-save_ne t (delete rows (tenant_id, id)) row k ne

  -- The ways through the body of `AcceptNKey`.
  data Way (w : World t) (tenant_id id : Str) (o : Outcome t) : Type 0 where
    refused : (e : Error) → o ≡ (err e, w) → Way w tenant_id id o
    taken :
        (old : NKeyRow) (w' : World t)
        → find w.rows (tenant_id, id) ≡ some old
        → ((k : Str × Str) → (tenant_id, base_of id) ≢ k → find w'.rows k ≡ find w.rows k)
        → o ≡ (
          ok tt,
          record w' {
            rows = accept_transaction t current_tenant w'.rows tenant_id id (base_of id) old.nkey;
          },
        )
        → Way w tenant_id id o

  accept_found-Way :
      (w : World t) (tenant_id id : Str) (old : NKeyRow)
      → find w.rows (tenant_id, id) ≡ some old
      → Way w tenant_id id (accept_found t current_tenant w tenant_id id (base_of id) old)
  unfolding accept_found
  accept_found-Way w tenant_id id old found = elim (Bool-cases (has_underscore id)) [
    | inl suffixed ↦
        taken old (delete_nkey t current_tenant w tenant_id (base_of id)).1 found
          (find-delete_nkey_ne w tenant_id (base_of id))
          (let other = base_of-other id suffixed in ground arith)
    | inr plain ↦ elim (dec_state old.state accepted) [
      | yes same ↦ refused already_accepted (let e = base_of-same id plain in ground arith)
      | no ne ↦ taken old w found (λ k d. refl) (ground arith)
    ]
  ]

  accept_row-Way :
      (w : World t) (tenant_id id : Str)
      → Way w tenant_id id (accept_row t current_tenant w tenant_id id)
  unfolding accept_row
  accept_row-Way w tenant_id id = elim (Bool-cases (is_valid_sprout_id (base_of id))) [
    | inr bad ↦ refused sprout_id_invalid (rw bad)
    | inl valid ↦ elim (Bool-cases (is_valid_sprout_id id)) [
      | inr bad ↦ refused sprout_id_invalid (rw (valid, bad))
      | inl ok_id ↦ elim (Option-cases (find w.rows (tenant_id, id))) [
        | inl missing ↦ refused sprout_id_not_found (rw (valid, ok_id, missing))
        | inr (old, found) ↦ elim (accept_found-Way w tenant_id id old found) [
          | refused e p ↦ refused e (rw (valid, ok_id, found, p))
          | taken old' w' found' same p ↦ taken old' w' found' same (rw (valid, ok_id, found, p))
        ]
      ]
    ]
  ]

  -- What an accept leaves in the table, for the outcome that it returns.
  pub AcceptEffect : World t → Str → Str → Outcome t → Type 0
  AcceptEffect w tenant_id id (ok _, after) =
      ((old : NKeyRow) × (find w.rows (tenant_id, id) ≡ some old)
        × (find after.rows (tenant_id, base_of id)
            ≡ some (record {
              tenant_id = tenant_id;
              sprout_id = base_of id;
              nkey = old.nkey;
              state = accepted;
            })))
      × ((base_of id ≡ id) ⊎ (find after.rows (tenant_id, id) ≡ none))
      × ((k : Str × Str)
          → ((tenant_id, base_of id) ≡ k)
            ⊎ ((tenant_id, id) ≡ k)
            ⊎ (find after.rows k ≡ find w.rows k))
  AcceptEffect w tenant_id id (err e, after) = after.rows ≡ w.rows

  Way-AcceptEffect :
      (w : World t) (tenant_id id : Str) (o : Outcome t)
      → Way w tenant_id id o
      → AcceptEffect w tenant_id id (and_reload t current_tenant tenant_id o)
  unfolding AcceptEffect
  Way-AcceptEffect w tenant_id id o (refused e p) =
      subst (λ o. AcceptEffect w tenant_id id (and_reload t current_tenant tenant_id o)) (sym p)
        refl
  Way-AcceptEffect w tenant_id id o (taken old w' found same p) =
      subst (λ o. AcceptEffect w tenant_id id (and_reload t current_tenant tenant_id o)) (sym p)
        (
          (old, found, find-accept_transaction_self w'.rows tenant_id id (base_of id) old.nkey),
          elim (dec_str (base_of id) id) [
            | yes e ↦ inl e
            | no other ↦ inr (
                find-accept_transaction_ne w'.rows tenant_id id (base_of id) old.nkey
                  (tenant_id, id) (λ e. other (ap (λ k. k.1) e))
                ∙ find-delete_self t w'.rows (tenant_id, id))
          ],
          λ k. elim (dec_key (tenant_id, base_of id) k) [
            | yes e ↦ inl e
            | no nb ↦ elim (dec_key (tenant_id, id) k) [
              | yes e ↦ inr (inl e)
              | no ni ↦ inr (
                  inr (
                    find-accept_transaction_ne w'.rows tenant_id id (base_of id) old.nkey k nb
                    ∙ find-delete_ne t w'.rows (tenant_id, id) k ni
                    ∙ same k nb))
            ]
          ],
        )

  -- `AcceptNKey` on any table. When it succeeds, the accepted id had a row, its base id now has a
  -- row with the nkey of that row in the state accepted, the accepted id is its own base or has no
  -- row left, and no other key changed. When it fails, the table is as before. This is for a database that
  -- takes ids that differ for different keys, also where they differ in case alone.
  pub accept_effect :
      (w : World t) (tenant_id id : Str)
      → AcceptEffect w tenant_id id (accept_nkey t current_tenant w tenant_id id)
  unfolding accept_nkey
  accept_effect w tenant_id id =
      Way-AcceptEffect w tenant_id id (accept_row t current_tenant w tenant_id id)
        (accept_row-Way w tenant_id id)
