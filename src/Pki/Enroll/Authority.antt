-- ===== src/Pki/Enroll/Authority.antt =====
-- Whom `Enroll` of internal/pki/enroll.go admits.
use Prim.Native.Nat.{ℕ, ◌+◌, ◌≤◌, ◌<◌}
use mathlib.Core.Path.{◌≡◌, refl, ap, ◌∙◌, subst, sym}
use mathlib.Core.Logic.{◌⊎◌, inl, inr}
use mathlib.Core.Bool.{Bool, true, false, ◌&&◌}
use mathlib.Core.Option.{some}
use mathlib.Core.List.{List, [], ◌∷◌, Memᴰ}
use native.Mathlib.Omega.{arith}
use grlx.Common.{Str, dec_str, ◌==◌, test, ok, Bool-cases, Option-cases}
use grlx.Common.Table.{Table, find-save_self}
use grlx.Pki.SproutId.{is_valid_tenant_id}
use grlx.Pki.Keys.{accepted, dec_state, NKeyRow, nkey_key, dec_key}
use grlx.Pki.Enroll.{
  EnrollmentKeyRow, EnrollResult, dec_box, box_key, Farm, Services, answer, first_row, row_for_nkey,
  check_enrollment_key, is_redeemable, redeem, Enrollment, accept_enrolled_nkey,
  upsert_sprout_box_key_active, accept_and_answer, enroll,
}
use grlx.Pki.Enroll.Names.{split_join_token}
use grlx.Pki.Enroll.Ways.{Way, refused, replayed, used_up, admitted, enroll-Way}
use grlx.Pki.Enroll.Safety.{accept_and_answer-rows, accept_and_answer-keys}

module _ (t : Table dec_key nkey_key) (kt : Table dec_str EnrollmentKeyRow.key_id)
    (bt : Table dec_box box_key) (services : Services t kt bt) where
  answer-sprout_id :
      (farm : Farm t kt bt) (tenant_id sprout_id nkey_pub : Str) (result : EnrollResult)
      → answer t kt bt services farm tenant_id sprout_id nkey_pub ≡ ok result
      → result.sprout_id ≡ sprout_id
  unfolding answer
  answer-sprout_id farm tenant_id sprout_id nkey_pub result h = ground arith

  accept_and_answer-sprout_id :
      (farm : Farm t kt bt) (tenant_id sprout_id nkey_pub sprout_pub : Str) (result : EnrollResult)
      → (accept_and_answer t kt bt services farm tenant_id sprout_id nkey_pub sprout_pub).0
        ≡ ok result
      → result.sprout_id ≡ sprout_id
  unfolding accept_and_answer
  accept_and_answer-sprout_id farm tenant_id sprout_id nkey_pub sprout_pub result h =
      elim (Option-cases (
        upsert_sprout_box_key_active t kt bt services farm.box_keys tenant_id sprout_id
          sprout_pub)) [
            | inl bad ↦ absurd (ground arith)
            | inr (box_keys, stored) ↦
                answer-sprout_id
                  (record farm {
                    sprouts =
                        accept_enrolled_nkey t kt bt services farm.sprouts tenant_id sprout_id
                          nkey_pub;
                    box_keys = box_keys;
                  })
                  tenant_id sprout_id nkey_pub result (ground arith)
          ]

  first_row-mem :
      (rows : List NKeyRow) (row : NKeyRow)
      → first_row t kt bt services rows ≡ some row
      → Memᴰ row rows
  unfolding first_row
  first_row-mem [] row h = absurd (cc)
  first_row-mem (r ∷ rows) row h = Memᴰ.head (ground arith)

  row_for_nkey-some :
      (farm : Farm t kt bt) (nkey : Str) (row : NKeyRow)
      → row_for_nkey t kt bt services farm.sprouts nkey ≡ some row
      → (t.find farm.sprouts.rows (row.tenant_id, row.sprout_id) ≡ some row)
        × (row.nkey ≡ nkey)
        × (row.state ≡ accepted)
  unfolding row_for_nkey
  row_for_nkey-some farm nkey row h =
      let p : NKeyRow → Bool = λ row. row.nkey == nkey && test (dec_state row.state accepted) in
      let (found, passes) =
        (t.mem-select farm.sprouts.rows p row).0
          (first_row-mem (t.select farm.sprouts.rows p) row h) in
      (found, ground arith, ground arith)

  check-passed :
      (now : ℕ) (secret : Str) (row : EnrollmentKeyRow)
      → check_enrollment_key t kt bt services now secret row ≡ ok tt
      → (services.sha256_hex secret ≡ row.key_hash)
        × (is_valid_tenant_id row.tenant_id ≡ true)
        × (row.revoked ≡ false)
        × (now ≤ row.expiry)
        × (row.used_count < row.max_uses)
  unfolding check_enrollment_key
  check-passed now secret row h = ground arith

  -- The statement of `redeem`, when it changed a row.
  abbrev pub IsRedeemed : ℕ → kt.State → kt.State → Str → Type 0
  IsRedeemed db_now before after key_id =
      (row : EnrollmentKeyRow) × (kt.find before key_id ≡ some row)
      × (row.revoked ≡ false)
      × (db_now < row.expiry)
      × (row.used_count < row.max_uses)
      × (kt.find after key_id ≡ some (record row { used_count = row.used_count + 1 }))

  redeem-IsRedeemed :
      (db_now : ℕ) (keys : kt.State) (key_id : Str)
      → (redeem t kt bt services db_now keys key_id).0 ≡ true
      → IsRedeemed db_now keys (redeem t kt bt services db_now keys key_id).1 key_id
  unfolding redeem
  redeem-IsRedeemed db_now keys key_id h = elim (Option-cases (kt.find keys key_id)) [
    | inl absent ↦ absurd (ground arith)
    | inr (row, found) ↦ elim (Bool-cases (is_redeemable t kt bt services db_now row)) [
      | inr no_use ↦ absurd (ground arith)
      | inl usable ↦
          (let new : EnrollmentKeyRow = record row { used_count = row.used_count + 1 } in
            rw (redeem, found, usable)
              (
                row,
                refl,
                ground arith,
                ground arith,
                ground arith,
                ap (kt.find (kt.save keys new)) (sym (kt.find-key keys key_id found))
                    ∙ find-save_self kt keys new,
              ))
    ]
  ]

  -- The caller's nkey was accepted before, under the returned id, and nothing changed.
  abbrev pub IsReplay : Farm t kt bt → Str → EnrollResult → Farm t kt bt → Type 0
  IsReplay farm nkey_pub result farm' =
      (row : NKeyRow) × (t.find farm.sprouts.rows (row.tenant_id, row.sprout_id) ≡ some row)
      × (row.nkey ≡ nkey_pub)
      × (row.state ≡ accepted)
      × (result.sprout_id ≡ row.sprout_id)
      × (farm' ≡ farm)

  -- The token names a key whose hash its secret has, the key was not revoked, expired or used up, one
  -- use of it was counted, and the returned id is accepted in the tenant of the key.
  abbrev pub IsAdmission :
      ℕ
      → ℕ
      → (Farm t kt bt → Farm t kt bt)
      → Farm t kt bt
      → Str
      → Str
      → EnrollResult
      → Farm t kt bt
      → Type 0
  IsAdmission now db_now others farm join_token nkey_pub result farm' =
      (key_id secret : Str) × (row : EnrollmentKeyRow) × (split_join_token join_token
        ≡ some (key_id, secret))
      × (kt.find farm.enrollment_keys key_id ≡ some row)
      × (services.sha256_hex secret ≡ row.key_hash)
      × (is_valid_tenant_id row.tenant_id ≡ true)
      × (row.revoked ≡ false)
      × (now ≤ row.expiry)
      × (row.used_count < row.max_uses)
      × IsRedeemed db_now (others farm).enrollment_keys farm'.enrollment_keys key_id
      × (t.find farm'.sprouts.rows (row.tenant_id, result.sprout_id)
          ≡ some (record {
            tenant_id = row.tenant_id;
            sprout_id = result.sprout_id;
            nkey = nkey_pub;
            state = accepted;
          }))

  module _ (now db_now : ℕ) (others : Farm t kt bt → Farm t kt bt) (farm : Farm t kt bt)
      (join_token nkey_pub hostname sprout_pub : Str) where
    admitted-IsAdmission :
        (key_id secret : Str) (row : EnrollmentKeyRow) (id : Str) (result : EnrollResult)
        → split_join_token join_token ≡ some (key_id, secret)
        → kt.find farm.enrollment_keys key_id ≡ some row
        → check_enrollment_key t kt bt services now secret row ≡ ok tt
        → (redeem t kt bt services db_now (others farm).enrollment_keys row.key_id).0 ≡ true
        → (accept_and_answer t kt bt services
            (record (others farm) {
              enrollment_keys =
                  (redeem t kt bt services db_now (others farm).enrollment_keys row.key_id).1;
            })
            row.tenant_id
            id
            nkey_pub
            sprout_pub).0
          ≡ ok result
        → IsAdmission now db_now others farm join_token nkey_pub result
            (accept_and_answer t kt bt services
              (record (others farm) {
                enrollment_keys =
                    (redeem t kt bt services db_now (others farm).enrollment_keys row.key_id).1;
              })
              row.tenant_id
              id
              nkey_pub
              sprout_pub).1
    admitted-IsAdmission key_id secret row id result split found c won h =
        let farm' : Farm t kt bt = record (others farm) {
          enrollment_keys =
              (redeem t kt bt services db_now (others farm).enrollment_keys row.key_id).1;
        } in
        let (hash, tenant, live, early, left) = check-passed now secret row c in
        let same : row.key_id ≡ key_id = kt.find-key farm.enrollment_keys key_id found in
        let keys =
          accept_and_answer-keys t kt bt services farm' row.tenant_id id nkey_pub sprout_pub in
        let rows =
          accept_and_answer-rows t kt bt services farm' row.tenant_id id nkey_pub sprout_pub in
        let named =
          accept_and_answer-sprout_id farm' row.tenant_id id nkey_pub sprout_pub result h in
        (
          key_id,
          secret,
          row,
          split,
          found,
          hash,
          tenant,
          live,
          early,
          left,
          subst (λ after. IsRedeemed db_now (others farm).enrollment_keys after key_id) (sym keys)
              (subst (IsRedeemed db_now (others farm).enrollment_keys farm'.enrollment_keys) same
                (redeem-IsRedeemed db_now (others farm).enrollment_keys row.key_id won)),
          subst
              (λ x.
                t.find
                  (accept_and_answer t kt bt services farm' row.tenant_id id nkey_pub
                    sprout_pub).1.sprouts.rows
                  (row.tenant_id, x)
                ≡ some (record {
                  tenant_id = row.tenant_id;
                  sprout_id = x;
                  nkey = nkey_pub;
                  state = accepted;
                }))
              (sym named)
              (ap (λ s. t.find s (row.tenant_id, id)) rows
                ∙ find-save_self t (others farm).sprouts.rows (record {
                  tenant_id = row.tenant_id;
                  sprout_id = id;
                  nkey = nkey_pub;
                  state = accepted;
                })),
        )

    Way-Authorised :
        {e : Enrollment t kt bt services} (result : EnrollResult)
        → Way t kt bt services now db_now others farm join_token nkey_pub hostname sprout_pub e
        → e.0 ≡ ok result
        → IsReplay farm nkey_pub result e.1
          ⊎ IsAdmission now db_now others farm join_token nkey_pub result e.1
    Way-Authorised result (refused e) h = absurd (let r = ap (λ x. x.0) e in cc)
    Way-Authorised result (used_up keys e) h = absurd (let r = ap (λ x. x.0) e in cc)
    Way-Authorised result (replayed row known e) h =
        let (found, nkey, state) = row_for_nkey-some farm nkey_pub row known in
        inl (
          row,
          found,
          nkey,
          state,
          answer-sprout_id farm row.tenant_id row.sprout_id nkey_pub result
              (sym (ap (λ x. x.0) e) ∙ h),
          ap (λ x. x.1) e,
        )
    Way-Authorised result (admitted key_id secret row id split found c named won e) h = inr (
        subst (λ x. IsAdmission now db_now others farm join_token nkey_pub result x)
          (sym (ap (λ x. x.1) e))
          (admitted-IsAdmission key_id secret row id result split found c won
            (sym (ap (λ x. x.0) e) ∙ h)))

-- When `Enroll` succeeds, the caller's nkey was accepted before under the id that it returns, and
-- nothing changed; or the token is one of an enrollment key that was not revoked, not expired
-- and not used up, with the secret of its hash, the statement that counts the use found it so
-- and added exactly one to its count, and the id that is returned has the nkey, accepted in the
-- tenant of the enrollment key.
pub enroll-authorised :
    (t : Table dec_key nkey_key) (kt : Table dec_str EnrollmentKeyRow.key_id)
    (bt : Table dec_box box_key) (services : Services t kt bt) (now db_now : ℕ)
    (others : Farm t kt bt → Farm t kt bt) (farm : Farm t kt bt)
    (join_token nkey_pub hostname sprout_pub : Str) (result : EnrollResult)
    → (enroll t kt bt services now db_now others farm join_token nkey_pub hostname sprout_pub).0
      ≡ ok result
    → IsReplay t kt bt services farm nkey_pub result
        (enroll t kt bt services now db_now others farm join_token nkey_pub hostname sprout_pub).1
      ⊎ IsAdmission t kt bt services now db_now others farm join_token nkey_pub result
          (enroll t kt bt services now db_now others farm join_token nkey_pub hostname sprout_pub).1
enroll-authorised t kt bt services now db_now others farm join_token nkey_pub hostname sprout_pub
      result h =
    Way-Authorised t kt bt services now db_now others farm join_token nkey_pub hostname sprout_pub
      result
      (enroll-Way t kt bt services now db_now others farm join_token nkey_pub hostname sprout_pub) h
