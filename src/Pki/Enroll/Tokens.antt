-- ===== src/Pki/Enroll/Tokens.antt =====
-- `splitJoinToken` of internal/pki/enroll.go.
use mathlib.Core.Path.{◌≡◌, refl, ap, ◌∙◌}
use mathlib.Core.Logic.{◌≢◌, ◌↔◌, inl, inr}
use mathlib.Core.Bool.{Bool, false, ◌||◌}
use mathlib.Core.Option.{some}
use mathlib.Core.List.{[], ◌∷◌, ◌++◌}
use native.Mathlib.Omega.{arith}
use native.Mathlib.Decide.{ℕ_discrete}
use grlx.Common.{Str, byte_eq, Option-cases}
use grlx.Pki.Enroll.Names.{cut_at_dot, both_halves, split_join_token}

-- Whether a text has a dot.
unfoldable pub has_dot : Str → Bool
has_dot [] = false
has_dot (c ∷ s) = byte_eq c b'.' || has_dot s

cut_at_dot-some :
    (token before after : Str)
    → cut_at_dot token ≡ some (before, after)
    → (token ≡ before ++ b'.' ∷ after) × (has_dot before ≡ false)
unfolding cut_at_dot has_dot
cut_at_dot-some [] before after h = absurd (cc)
cut_at_dot-some (c ∷ s) before after h = elim (ℕ_discrete c b'.') [
  | yes e ↦ ground arith
  | no ne ↦ elim (Option-cases (cut_at_dot s)) [
    | inl none_in ↦ absurd (ground arith)
    | inr ((b, a), found) ↦ let (same, free) = cut_at_dot-some s b a found in ground arith
  ]
]

cut_at_dot-append :
    (before after : Str)
    → has_dot before ≡ false
    → cut_at_dot (before ++ b'.' ∷ after) ≡ some (before, after)
unfolding cut_at_dot has_dot ℕ_discrete
cut_at_dot-append [] after h = refl
cut_at_dot-append (c ∷ before) after h = ground (arith, cut_at_dot-append before after)

both_halves_iff :
    (halves : Str × Str) (key_id secret : Str)
    → (both_halves halves ≡ some (key_id, secret))
      ↔ ((halves ≡ (key_id, secret)) × (key_id ≢ []) × (secret ≢ []))
unfolding both_halves
both_halves_iff (a, b) key_id secret = (λ h. ground arith, λ h. ground arith)

-- `splitJoinToken` accepts exactly the tokens that are a key id, a dot and a secret, both of them not
-- empty and the key id without a dot, and it returns the two.
pub split_join_token_iff :
    (token key_id secret : Str)
    → (split_join_token token ≡ some (key_id, secret)) ↔ (
        (token ≡ key_id ++ b'.' ∷ secret)
        × (has_dot key_id ≡ false)
        × (key_id ≢ [])
        × (secret ≢ []))
unfolding split_join_token
split_join_token_iff token key_id secret = (
  λ h. elim (Option-cases (cut_at_dot token)) [
    | inl none_in ↦ absurd (ground arith)
    | inr (halves, found) ↦
        let k : both_halves halves ≡ some (key_id, secret) = ground arith in
        let (e, ne, ne') = (both_halves_iff halves key_id secret).0 k in
        let (same, free) = cut_at_dot-some token key_id secret (ground arith) in
        (same, free, ne, ne')
  ],
  λ (same, free, ne, ne').
      let cut : cut_at_dot token ≡ some (key_id, secret) =
        ap cut_at_dot same ∙ cut_at_dot-append key_id secret free in
      let k = (both_halves_iff (key_id, secret) key_id secret).1 (refl, ne, ne') in ground arith,
)
