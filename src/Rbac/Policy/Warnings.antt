-- ===== src/Rbac/Policy/Warnings.antt =====
-- The loops of `ValidatePolicy` of internal/rbac/policy.go that give no warning.
use mathlib.Core.Path.{◌≡◌, refl, ap, ◌∙◌, subst, sym}
use mathlib.Core.Logic.{◌↔◌, ⊎_elim}
use mathlib.Core.Bool.{true}
use mathlib.Core.Option.{some}
use mathlib.Core.List.{List, [], ◌∷◌, ◌++◌, map, Memᴰ}
use mathlib.Core.List.Memᴰ
use native.Mathlib.Omega.{arith}
use grlx.Common.{Str, dec_str, ◌==◌, contains, Result, ok, err, ◌>>=◌, Memᴰ-cons}
use grlx.Common.Table.{Table}
use grlx.Rbac.Error.{Error}
use grlx.Rbac.Role.{Role}
use grlx.Rbac.Registry.{dec_key}
use grlx.Rbac.Stores.{role_key, user_key, UserRoleRow, role_rows, all_users}
use grlx.Rbac.Policy.{PolicyWarning, collect}

append-nil_inv : (xs ys : List PolicyWarning) → xs ++ ys ≡ [] → (xs ≡ []) × (ys ≡ [])
append-nil_inv [] ys h = (refl, h)
append-nil_inv (x ∷ xs) ys h = absurd (cc)

ok_inj :
    (xs ys : List PolicyWarning)
    → ◌≡◌ {A = Result Error (List PolicyWarning)} (ok xs) (ok ys)
    → xs ≡ ys
ok_inj xs ys e = cc

-- Two warnings in a row.
pub then_nil :
    (first rest : Result Error (List PolicyWarning))
    → ((first >>= λ here. rest >>= λ later. ok (here ++ later)) ≡ ok [])
      ↔ ((first ≡ ok []) × (rest ≡ ok []))
then_nil (err e) rest = (λ h. absurd (cc), λ h. absurd (cc))
then_nil (ok here) (err e) = (λ h. absurd (cc), λ h. absurd (cc))
then_nil (ok here) (ok later) = (
  λ h.
      let joined = ok_inj (here ++ later) [] h in
      let (a, b) = append-nil_inv here later joined in (ap ok a, ap ok b),
  λ (a, b). let a' = ok_inj here [] a in let b' = ok_inj later [] b in rw (a', b') refl,
)

-- The four checks in a row.
pub four_nil :
    (a b c d : Result Error (List PolicyWarning))
    → ((a >>= λ w. b >>= λ x. c >>= λ y. d >>= λ z. ok (w ++ x ++ y ++ z)) ≡ ok [])
      ↔ ((a ≡ ok []) × (b ≡ ok []) × (c ≡ ok []) × (d ≡ ok []))
four_nil (err e) b c d = (λ h. absurd (cc), λ h. absurd (cc))
four_nil (ok w) (err e) c d = (λ h. absurd (cc), λ h. absurd (cc))
four_nil (ok w) (ok x) (err e) d = (λ h. absurd (cc), λ h. absurd (cc))
four_nil (ok w) (ok x) (ok y) (err e) = (λ h. absurd (cc), λ h. absurd (cc))
four_nil (ok w) (ok x) (ok y) (ok z) = (
  λ h.
      let (r, ez) = append-nil_inv (w ++ x ++ y) z (ok_inj (w ++ x ++ y ++ z) [] h) in
      let (r', ey) = append-nil_inv (w ++ x) y r in
      let (ew, ex) = append-nil_inv w x r' in (ap ok ew, ap ok ex, ap ok ey, ap ok ez),
  λ (ew, ex, ey, ez).
      let a = ok_inj w [] ew in
      let b = ok_inj x [] ex in
      let c = ok_inj y [] ey in let d = ok_inj z [] ez in rw (a, b, c, d) refl,
)

pub collect-nil :
    {A : Type 0} (warn : A → Result Error (List PolicyWarning)) (xs : List A)
    → (collect warn xs ≡ ok []) ↔ ((x : A) → Memᴰ x xs → warn x ≡ ok [])
unfolding collect
collect-nil warn [] = (λ h x m. absurd (Memᴰ.not-nil m), λ h. refl)
collect-nil warn (x ∷ xs) =
    let (to, from) = collect-nil warn xs in
    let (split, join) = then_nil (warn x) (collect warn xs) in
    (
      λ h y m.
          let (a, b) = split h in ⊎_elim (λ e. ap warn e ∙ a) (to b y) ((Memᴰ-cons y x xs).0 m),
      λ h. join (h x (Memᴰ.head refl), from (λ y m. h y (Memᴰ.tail m))),
    )

pub collect-map_nil :
    {A B : Type 0} (warn : B → Result Error (List PolicyWarning)) (f : A → B) (xs : List A)
    → (collect warn (map f xs) ≡ ok []) ↔ ((x : A) → Memᴰ x xs → warn (f x) ≡ ok [])
unfolding collect
collect-map_nil warn f [] = (λ h x m. absurd (Memᴰ.not-nil m), λ h. refl)
collect-map_nil warn f (x ∷ xs) =
    let (to, from) = collect-map_nil warn f xs in
    let (split, join) = then_nil (warn (f x)) (collect warn (map f xs)) in
    (
      λ h y m.
          let (a, b) = split h in
          ⊎_elim (λ e. ap (λ z. warn (f z)) e ∙ a) (to b y) ((Memᴰ-cons y x xs).0 m),
      λ h. join (h x (Memᴰ.head refl), from (λ y m. h y (Memᴰ.tail m))),
    )

pub contains-map_iff :
    {A : Type 0} (f : A → Str) (xs : List A) (name : Str)
    → (contains (map f xs) name ≡ true) ↔ ((x : A) × Memᴰ x xs × (f x ≡ name))
unfolding contains
contains-map_iff f [] name = (λ h. absurd (cc), λ (x, m, e). absurd (Memᴰ.not-nil m))
contains-map_iff f (x ∷ xs) name =
    let (to, from) = contains-map_iff f xs name in
    (
      λ h. elim (dec_str name (f x)) [
        | yes e ↦ (x, Memᴰ.head refl, sym e)
        | no ne ↦ let (y, m, e) = to (ground arith) in (y, Memᴰ.tail m, e)
      ],
      λ (y, m, e).
          ⊎_elim (λ s. let k : f y ≡ f x = ap f s in ground arith)
            (λ n. let k = from (y, n, e) in ground arith) ((Memᴰ-cons y x xs).0 m),
    )

-- The rows of a tenant are those that are found under its keys.
module _ (rt : Table dec_key role_key) (tenant_id : Str) (roles : rt.State) where
  pub mem-role_rows :
      (r : Role)
      → Memᴰ r (role_rows rt tenant_id roles) ↔ (rt.find roles (tenant_id, r.name) ≡ some r)
  unfolding role_rows
  mem-role_rows r =
      let (to, from) = rt.mem-select roles (λ r. r.tenant_id == tenant_id) r in
      (
        λ m.
            let (found, same) = to m in
            let e : r.tenant_id ≡ tenant_id = ground arith in
            subst (λ x. rt.find roles (x, r.name) ≡ some r) e found,
        λ found.
            let e : r.tenant_id ≡ tenant_id =
              ap (λ k. k.0) (rt.find-key roles (tenant_id, r.name) found) in
            from (subst (λ x. rt.find roles (x, r.name) ≡ some r) (sym e) found, ground arith),
      )

  pub find-role_name :
      (name : Str) (r : Role) → rt.find roles (tenant_id, name) ≡ some r → r.name ≡ name
  find-role_name name r found = ap (λ k. k.1) (rt.find-key roles (tenant_id, name) found)

module _ (ut : Table dec_key user_key) (tenant_id : Str) (users : ut.State) where
  pub mem-all_users :
      (row : UserRoleRow)
      → Memᴰ row (all_users ut tenant_id users) ↔ (ut.find users (tenant_id, row.pubkey) ≡ some row)
  unfolding all_users
  mem-all_users row =
      let (to, from) = ut.mem-select users (λ row. row.tenant_id == tenant_id) row in
      (
        λ m.
            let (found, same) = to m in
            let e : row.tenant_id ≡ tenant_id = ground arith in
            subst (λ x. ut.find users (x, row.pubkey) ≡ some row) e found,
        λ found.
            let e : row.tenant_id ≡ tenant_id =
              ap (λ k. k.0) (ut.find-key users (tenant_id, row.pubkey) found) in
            from
              (subst (λ x. ut.find users (x, row.pubkey) ≡ some row) (sym e) found, ground arith),
      )

  pub find-pubkey :
      (pubkey : Str) (row : UserRoleRow)
      → ut.find users (tenant_id, pubkey) ≡ some row
      → row.pubkey ≡ pubkey
  find-pubkey pubkey row found = ap (λ k. k.1) (ut.find-key users (tenant_id, pubkey) found)
