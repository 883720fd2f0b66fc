-- ===== src/Examples/Enrollments.antt =====
-- Enrollments on small inputs.
use mathlib.Core.Path.{◌≡◌, refl}
use mathlib.Core.Logic.{◌↔◌, ◌≢◌, ◌⊎◌}
use mathlib.Core.Bool.{true, false}
use mathlib.Core.Option.{some}
use mathlib.Core.List.{[], ◌∷◌, ◌++◌}
use native.Mathlib.Decide.{ℕ_discrete}
use grlx.Common.{Str, str, dec_str}
use grlx.Common.Table.{Table}
use grlx.Common.Table.Rows.{rows_table, no_rows}
use grlx.Pki.SproutId.{is_valid_sprout_id, is_valid_tenant_id}
use grlx.Pki.Keys.{nkey_key, dec_key}
use grlx.Pki.Enroll.{EnrollmentKeyRow, dec_box, box_key, Farm, Services, EnrollResult, enroll}
use grlx.Pki.Enroll.Names.{split_join_token}
use grlx.Pki.Enroll.Tokens.{has_dot, split_join_token_iff}
use grlx.Pki.Enroll.Safety.{AreValid, IsKept, enroll-IsKept}
use grlx.Pki.Enroll.Authority.{IsReplay, IsAdmission, enroll-authorised}

abbrev sprouts : Table dec_key nkey_key
sprouts = rows_table dec_key nkey_key

abbrev keys : Table dec_str EnrollmentKeyRow.key_id
keys = rows_table dec_str EnrollmentKeyRow.key_id

abbrev boxes : Table dec_box box_key
boxes = rows_table dec_box box_key

-- A key for one use, whose secret is `s3`.
abbrev one_use : EnrollmentKeyRow
one_use = record {
  key_id = str "k1";
  tenant_id = str "acme";
  key_hash = str "s3";
  expiry = 100;
  max_uses = 1;
  used_count = 0;
  revoked = false;
}

farm : Farm sprouts keys boxes
farm = record {
  enrollment_keys = keys.save (no_rows dec_str EnrollmentKeyRow.key_id) one_use;
  sprouts = record { rows = no_rows dec_key nkey_key; reloads = [] };
  box_keys = no_rows dec_box box_key;
}

-- Hashes and texts as they are, one token for all.
abbrev services : Services sprouts keys boxes
services = record {
  to_lower = λ s. s;
  is_valid_public_user_key = λ s. true;
  decode_base64 = λ s. some s;
  sha256_hex = λ s. s;
  read_jwt = λ farm tenant_id sprout_id. some (str "jwt");
  tenant_x25519_public_key = some (str "box");
  mint_gateway_jwt = some (λ nkey tenant_id sprout_id. some (str "gateway"));
}

abbrev box_pub : Str
box_pub = str "0123456789abcdef0123456789abcdef"

split_join_token_iff_example : (split_join_token (str "k1.s3") ≡ some (str "k1", str "s3")) ↔ (
    (str "k1.s3" ≡ str "k1" ++ b'.' ∷ str "s3")
    × (has_dot (str "k1") ≡ false)
    × (str "k1" ≢ [])
    × (str "s3" ≢ []))
split_join_token_iff_example = split_join_token_iff (str "k1.s3") (str "k1") (str "s3")

no_sprouts : AreValid sprouts farm.sprouts.rows
unfolding farm no_rows rows_table
no_sprouts k row found = absurd (cc)

enroll-IsKept_example :
    IsKept sprouts keys boxes services 50 50
      (λ s. s)
      farm
      (str "k1.s3")
      (str "UABC")
      (str "web_1")
      box_pub
      (str "acme", str "web-1")
      (enroll sprouts keys boxes services 50 50
        (λ s. s)
        farm
        (str "k1.s3")
        (str "UABC")
        (str "web_1")
        box_pub)
enroll-IsKept_example =
    enroll-IsKept sprouts keys boxes services 50 50 (λ s. s) farm (str "k1.s3") (str "UABC")
      (str "web_1") box_pub (str "acme", str "web-1") no_sprouts

abbrev enrolled : EnrollResult
enrolled = record {
  sprout_id = str "web-1";
  jwt = str "jwt";
  gateway_jwt = str "gateway";
  tenant_x25519_pub = str "box";
}

enroll-authorised_example :
    IsReplay sprouts keys boxes services farm
      (str "UABC")
      enrolled
      (enroll sprouts keys boxes services 50 50
        (λ s. s)
        farm
        (str "k1.s3")
        (str "UABC")
        (str "web_1")
        box_pub).1
    ⊎ IsAdmission sprouts keys boxes services 50 50
        (λ s. s)
        farm
        (str "k1.s3")
        (str "UABC")
        enrolled
        (enroll sprouts keys boxes services 50 50
          (λ s. s)
          farm
          (str "k1.s3")
          (str "UABC")
          (str "web_1")
          box_pub).1
unfolding enroll farm no_rows rows_table dec_key dec_str dec_box ℕ_discrete is_valid_sprout_id
    is_valid_tenant_id split_join_token
enroll-authorised_example =
    enroll-authorised sprouts keys boxes services 50 50 (λ s. s) farm (str "k1.s3") (str "UABC")
      (str "web_1") box_pub enrolled refl
