-- ===== src/Rbac/Config/Unique/Apart.antt =====
-- When `ValidateUserUniqueness` of internal/rbac/config.go accepts the configuration.
use mathlib.Core.Path.{◌≡◌, refl, sym, ◌∙◌, ap}
use mathlib.Core.Logic.{◌↔◌, ◌⊎◌, inl, inr}
use mathlib.Core.Bool.{Bool, true, false, true≢false}
use mathlib.Core.Option.{Option, none, some}
use mathlib.Core.List.{List, [], ◌∷◌, ◌++◌}
use native.Mathlib.Omega.{arith}
use grlx.Common.{Str, ◌==◌, ok, Bool-cases}
use grlx.Common.Dict.{lookup, insert, lookup-insert}
use grlx.Rbac.Config.Values.{Value}
use grlx.Rbac.Config.Unique.{
  list_at, gather, has_several, any_several, user_pairs, legacy_pairs, validate_user_uniqueness,
}

-- No pair has the key.
abbrev pub Lacks : Str → List (Str × Str) → Type 0
Lacks key [] = Unit
Lacks key ((other, value) ∷ pairs) = ((key == other) ≡ false) × Lacks key pairs

-- No two pairs have the same key.
abbrev pub AreApart : List (Str × Str) → Type 0
AreApart [] = Unit
AreApart ((key, value) ∷ pairs) = Lacks key pairs × AreApart pairs

abbrev is_some : Option (List Str) → Bool
is_some none = false
is_some (some xs) = true

abbrev AreNew : List (Str × List Str) → List (Str × Str) → Type 0
AreNew seen [] = Unit
AreNew seen ((key, value) ∷ pairs) = (is_some (lookup key seen) ≡ false) × AreNew seen pairs

abbrev is_empty : List Str → Bool
is_empty [] = true
is_empty (x ∷ xs) = false

-- Every entry lists something.
abbrev AreFull : List (Str × List Str) → Type 0
AreFull [] = Unit
AreFull ((key, xs) ∷ seen) = (is_empty xs ≡ false) × AreFull seen

several-append :
    (xs : List Str) (value : Str) → has_several xs ≡ true → has_several (xs ++ value ∷ []) ≡ true
several-append [] value h = absurd (cc)
several-append (x ∷ []) value h = absurd (cc)
several-append (x ∷ y ∷ xs) value h = refl

several-append_full :
    (xs : List Str) (value : Str) → is_empty xs ≡ false → has_several (xs ++ value ∷ []) ≡ true
several-append_full [] value h = absurd (cc)
several-append_full (x ∷ []) value h = refl
several-append_full (x ∷ y ∷ xs) value h = refl

full-append : (xs : List Str) (value : Str) → is_empty (xs ++ value ∷ []) ≡ false
full-append [] value = refl
full-append (x ∷ xs) value = refl

-- The map after one more pair.
abbrev add : Str → Str → List (Str × List Str) → List (Str × List Str)
add key value seen = insert key (list_at key seen ++ value ∷ []) seen

any_several-insert :
    (key : Str) (xs : List Str) (seen : List (Str × List Str))
    → has_several xs ≡ true
    → any_several (insert key xs seen) ≡ true
unfolding insert any_several
any_several-insert key xs [] h = ground arith
any_several-insert key xs ((name, ys) ∷ seen) h = ground (arith, any_several-insert key xs seen h)

any_several-add :
    (key value : Str) (seen : List (Str × List Str))
    → any_several seen ≡ true
    → any_several (add key value seen) ≡ true
unfolding insert any_several lookup
any_several-add key value [] h = absurd (cc)
any_several-add key value ((name, ys) ∷ seen) h = elim (Bool-cases (name == key)) [
  | inl e ↦ elim (Bool-cases (has_several ys)) [
    | inl f ↦ ground (arith, several-append ys value f)
    | inr f ↦ ground arith
  ]
  | inr e ↦ elim (Bool-cases (has_several ys)) [
    | inl f ↦ rw (e, f) refl
    | inr f ↦ ground (arith, any_several-add key value seen)
  ]
]

lookup-full :
    (key : Str) (xs : List Str) (seen : List (Str × List Str))
    → AreFull seen
    → lookup key seen ≡ some xs
    → is_empty xs ≡ false
unfolding lookup
lookup-full key xs [] full h = absurd (cc)
lookup-full key xs ((name, ys) ∷ seen) (here, full) h = elim (Bool-cases (name == key)) [
  | inl e ↦ ground arith
  | inr e ↦ lookup-full key xs seen full (sym (rw e refl) ∙ h)
]

insert-AreFull :
    (key : Str) (xs : List Str) (seen : List (Str × List Str))
    → is_empty xs ≡ false
    → AreFull seen
    → AreFull (insert key xs seen)
unfolding insert
insert-AreFull key xs [] some_there full = (some_there, tt)
insert-AreFull key xs ((name, ys) ∷ seen) some_there (here, full) =
    elim (Bool-cases (name == key)) [
      | inl e ↦ rw e (some_there, full)
      | inr e ↦ rw e (here, insert-AreFull key xs seen some_there full)
    ]

any_several-new :
    (key value : Str) (seen : List (Str × List Str))
    → is_some (lookup key seen) ≡ false
    → any_several seen ≡ false
    → any_several (insert key (value ∷ []) seen) ≡ false
unfolding insert any_several lookup
any_several-new key value [] new h = refl
any_several-new key value ((name, ys) ∷ seen) new h = ground (arith, any_several-new key value seen)

AreNew-insert :
    (key : Str) (xs : List Str) (seen : List (Str × List Str)) (pairs : List (Str × Str))
    → AreNew (insert key xs seen) pairs ↔ (AreNew seen pairs × Lacks key pairs)
AreNew-insert key xs seen [] = (λ h. (tt, tt), λ h. tt)
AreNew-insert key xs seen ((other, value) ∷ pairs) =
    let found = lookup-insert key other xs seen in
    let (to, from) = AreNew-insert key xs seen pairs in
    elim (Bool-cases (key == other)) [
      | inl e ↦
          (let at : is_some (lookup other (insert key xs seen)) ≡ true = rw (found, e) refl in
            (λ h. absurd (cc), λ h. absurd (cc)))
      | inr e ↦
          (let at : lookup other (insert key xs seen) ≡ lookup other seen = rw (found, e) refl in
            (
              λ (new, rest). ((sym (ap is_some at) ∙ new, (to rest).0), (e, (to rest).1)),
              λ ((new, rest), (apart, lacks)). (ap is_some at ∙ new, from (rest, lacks)),
            ))
    ]

any_several-gather :
    (pairs : List (Str × Str)) (seen : List (Str × List Str))
    → any_several seen ≡ true
    → any_several (gather pairs seen) ≡ true
unfolding gather
any_several-gather [] seen h = h
any_several-gather ((key, value) ∷ pairs) seen h =
    any_several-gather pairs (add key value seen) (any_several-add key value seen h)

listed_or_not : (m : Option (List Str)) → ((xs : List Str) × (m ≡ some xs)) ⊎ (m ≡ none)
listed_or_not none = inr refl
listed_or_not (some xs) = inl (xs, refl)

gather_iff :
    (pairs : List (Str × Str)) (seen : List (Str × List Str))
    → AreFull seen
    → any_several seen ≡ false
    → (any_several (gather pairs seen) ≡ false) ↔ (AreNew seen pairs × AreApart pairs)
unfolding gather
gather_iff [] seen full h = (λ e. (tt, tt), λ e. h)
gather_iff ((key, value) ∷ pairs) seen full h = elim (listed_or_not (lookup key seen)) [
  | inl (xs, e) ↦
      (let several = several-append_full xs value (lookup-full key xs seen full e) in
        let listed : list_at key seen ≡ xs = rw (list_at, e) refl in
        let here : any_several (add key value seen) ≡ true =
          rw listed (any_several-insert key (xs ++ value ∷ []) seen several) in
        let after = any_several-gather pairs (add key value seen) here in
        let old : is_some (lookup key seen) ≡ true = rw e refl in
        (
          λ g. absurd (true≢false (sym after ∙ g)),
          λ ((new, rest), apart). absurd (true≢false (sym old ∙ new)),
        ))
  | inr e ↦
      (let new : is_some (lookup key seen) ≡ false = rw e refl in
        let same : add key value seen ≡ insert key (value ∷ []) seen = rw (list_at, e) refl in
        let (split, join) = AreNew-insert key (value ∷ []) seen pairs in
        let (to, from) =
          gather_iff pairs (insert key (value ∷ []) seen)
            (insert-AreFull key (value ∷ []) seen refl full)
            (any_several-new key value seen new h) in
        (
          λ g.
              let (rest, apart) = to (sym (ap (λ s. any_several (gather pairs s)) same) ∙ g) in
              ((new, (split rest).0), ((split rest).1, apart)),
          λ ((fresh, rest), (lacks, apart)).
              ap (λ s. any_several (gather pairs s)) same ∙ from (join (rest, lacks), apart),
        ))
]

AreNew-nil : (pairs : List (Str × Str)) → AreNew [] pairs
unfolding lookup
AreNew-nil [] = tt
AreNew-nil ((key, value) ∷ pairs) = (refl, AreNew-nil pairs)

-- `ValidateUserUniqueness` accepts the two sections exactly when no pubkey is listed twice in them,
-- be it under different roles or under the same.
pub validate_user_uniqueness_iff :
    (users pubkeys : List (Str × Value))
    → (validate_user_uniqueness users pubkeys ≡ ok tt)
      ↔ (AreApart (user_pairs users ++ legacy_pairs pubkeys))
unfolding validate_user_uniqueness any_several
validate_user_uniqueness_iff users pubkeys =
    let pairs = user_pairs users ++ legacy_pairs pubkeys in
    let (to, from) = gather_iff pairs [] tt refl in
    elim (Bool-cases (any_several (gather pairs []))) [
      | inl e ↦ (λ h. absurd (cc), λ apart. absurd (let k = from (AreNew-nil pairs, apart) in cc))
      | inr e ↦ (λ h. (to e).1, λ apart. rw e refl)
    ]
