-- ===== src/Pki/Enroll/Ways.antt =====
-- The ways through `Enroll` of internal/pki/enroll.go.
use Prim.Native.Nat.{ℕ}
use mathlib.Core.Path.{◌≡◌, refl, subst, sym}
use mathlib.Core.Logic.{inl, inr}
use mathlib.Core.Bool.{true}
use mathlib.Core.Option.{some}
use grlx.Common.{Str, dec_str, Result, ok, err, Bool-cases, Option-cases}
use grlx.Common.Table.{Table}
use grlx.Pki.Keys.{Error, enrollment_failed, NKeyRow, nkey_key, dec_key}
use grlx.Pki.Enroll.{
  EnrollmentKeyRow, dec_box, box_key, Farm, Services, is_box_pub, answer, row_for_nkey,
  check_enrollment_key, redeem, Enrollment, accept_and_answer, redeem_and_accept, enroll_new,
  enroll,
}
use grlx.Pki.Enroll.Names.{split_join_token, resolve_enroll_sprout_id}

module _ (t : Table dec_key nkey_key) (kt : Table dec_str EnrollmentKeyRow.key_id)
    (bt : Table dec_box box_key) (services : Services t kt bt) (now db_now : ℕ)
    (others : Farm t kt bt → Farm t kt bt) (farm : Farm t kt bt)
    (join_token nkey_pub hostname sprout_pub : Str) where
  -- A refusal that changes nothing, the replay of an accepted nkey, a token that was used up in
  -- between, and an acceptance with all that it was tested for.
  pub data Way : Enrollment t kt bt services → Type 0 where
    refused : {e : Enrollment t kt bt services} → e ≡ (err enrollment_failed, farm) → Way e
    replayed :
        {e : Enrollment t kt bt services} (row : NKeyRow)
        → row_for_nkey t kt bt services farm.sprouts nkey_pub ≡ some row
        → e ≡ (answer t kt bt services farm row.tenant_id row.sprout_id nkey_pub, farm)
        → Way e
    used_up :
        {e : Enrollment t kt bt services} (keys : kt.State)
        → e ≡ (err enrollment_failed, record (others farm) { enrollment_keys = keys })
        → Way e
    admitted :
        {e : Enrollment t kt bt services} (key_id secret : Str) (row : EnrollmentKeyRow)
        (sprout_id : Str)
        → split_join_token join_token ≡ some (key_id, secret)
        → kt.find farm.enrollment_keys key_id ≡ some row
        → check_enrollment_key t kt bt services now secret row ≡ ok tt
        → resolve_enroll_sprout_id t services.to_lower farm.sprouts.rows row.tenant_id hostname
            nkey_pub
          ≡ ok sprout_id
        → (redeem t kt bt services db_now (others farm).enrollment_keys row.key_id).0 ≡ true
        → e
          ≡ accept_and_answer t kt bt services
              (record (others farm) {
                enrollment_keys =
                    (redeem t kt bt services db_now (others farm).enrollment_keys row.key_id).1;
              })
              row.tenant_id
              sprout_id
              nkey_pub
              sprout_pub
        → Way e

  enroll_new-Way :
      (key_id secret : Str)
      → split_join_token join_token ≡ some (key_id, secret)
      → Way (
          enroll_new t kt bt services now db_now others farm
            (key_id, secret)
            nkey_pub
            hostname
            sprout_pub)
  unfolding enroll_new redeem_and_accept
  enroll_new-Way key_id secret split = elim (Option-cases (kt.find farm.enrollment_keys key_id)) [
    | inl absent ↦ refused (rw (enroll_new, absent) refl)
    | inr (row, found) ↦
        checked row found (check_enrollment_key t kt bt services now secret row) refl
  ]
    where
      checked :
          (row : EnrollmentKeyRow)
          → kt.find farm.enrollment_keys key_id ≡ some row
          → (r : Result Error (Unit {0})) → check_enrollment_key t kt bt services now secret row ≡ r
          → Way (
              enroll_new t kt bt services now db_now others farm
                (key_id, secret)
                nkey_pub
                hostname
                sprout_pub)
      checked row found (err e) c = refused (rw (enroll_new, found, c) refl)
      checked row found (ok tt) c =
          resolved
            (resolve_enroll_sprout_id t services.to_lower farm.sprouts.rows row.tenant_id hostname
              nkey_pub)
            refl
        where
          resolved :
              (r : Result Error Str)
              → resolve_enroll_sprout_id t services.to_lower farm.sprouts.rows row.tenant_id
                  hostname nkey_pub
                ≡ r
              → Way (
                  enroll_new t kt bt services now db_now others farm
                    (key_id, secret)
                    nkey_pub
                    hostname
                    sprout_pub)
          resolved (err e) n = refused (rw (enroll_new, found, c, n) refl)
          resolved (ok id) n =
              elim (Bool-cases
                (redeem t kt bt services db_now (others farm).enrollment_keys row.key_id).0) [
                  | inl won ↦
                      admitted key_id secret row id split found c n won
                        (rw (enroll_new, found, c, n, won) refl)
                  | inr lost ↦
                      used_up
                        (redeem t kt bt services db_now (others farm).enrollment_keys row.key_id).1
                        (rw (enroll_new, found, c, n, lost) refl)
                ]

  pub enroll-Way :
      Way (enroll t kt bt services now db_now others farm join_token nkey_pub hostname sprout_pub)
  unfolding enroll
  enroll-Way = elim (Bool-cases (services.is_valid_public_user_key nkey_pub)) [
    | inr bad ↦ refused (rw (enroll, bad) refl)
    | inl good ↦ elim (Bool-cases (is_box_pub t kt bt services sprout_pub)) [
      | inr bad ↦ refused (rw (enroll, good, bad) refl)
      | inl fine ↦ elim (Option-cases (row_for_nkey t kt bt services farm.sprouts nkey_pub)) [
        | inr (row, known) ↦ replayed row known (rw (enroll, good, fine, known) refl)
        | inl new ↦ elim (Option-cases (split_join_token join_token)) [
          | inl malformed ↦ refused (rw (enroll, good, fine, new, malformed) refl)
          | inr ((key_id, secret), split) ↦
              subst Way (sym (rw (enroll, good, fine, new, split) refl))
                (enroll_new-Way key_id secret split)
        ]
      ]
    ]
  ]
