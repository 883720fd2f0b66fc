-- ===== src/Saas/UpdatePolicy/Patching.antt =====
-- What a PATCH of internal/saasapi/fleet_updates.go leaves of the update policy of a tenant.
use Prim.Native.Nat.{ℕ, ◌<◌, ◌≤◌}
use mathlib.Core.Path.{◌≡◌, refl, ap, ◌∙◌, sym, subst}
use mathlib.Core.Logic.{◌⊎◌, inl, inr}
use mathlib.Core.Bool.{Bool, true, false, ◌&&◌, ◌||◌, not}
use mathlib.Core.Option.{Option, none, some}
use mathlib.Core.List.{[], ◌∷◌}
use native.Mathlib.Omega.{arith}
use grlx.Common.{Str, dec_str, ◌==◌, leb, size, Result, ok, >>=-eq-ok, Bool-cases, Option-cases}
use grlx.Common.Table.{Table, find-save_self, find-save_ne}
use grlx.Saas.Actions.{Spaces}
use grlx.Saas.PolicyCheck.{TenantUpdatePolicy}
use grlx.Saas.UpdatePolicy.{
  PatchField, PatchRequest, Refusal, merged, merged_flag, is_none, validate_window,
  validate_update_policy, check_version, check_fields, merge, policy_of, patch_update_policy,
}

-- What `validateUpdatePolicy` asks for.
abbrev pub IsWindow : Option ℕ → Option ℕ → Type 0
IsWindow none none = Unit
IsWindow none (some end) = ⊥
IsWindow (some start) none = ⊥
IsWindow (some start) (some end) = start < end

abbrev pub IsValid : TenantUpdatePolicy → Type 0
IsValid p =
    ((p.auto_update ≡ false) ⊎ (is_none p.approved_version ≡ false))
    × IsWindow p.rollout_window_start p.rollout_window_end

validate_window-IsWindow :
    (start end : Option ℕ) → validate_window start end ≡ ok tt → IsWindow start end
unfolding validate_window
validate_window-IsWindow none none h = tt
validate_window-IsWindow none (some end) h = absurd (cc)
validate_window-IsWindow (some start) none h = absurd (cc)
validate_window-IsWindow (some start) (some end) h = ground arith

pub validate_update_policy-IsValid :
    (p : TenantUpdatePolicy) → validate_update_policy p ≡ ok tt → IsValid p
unfolding validate_update_policy
validate_update_policy-IsValid p h =
    elim (Bool-cases (p.auto_update && is_none p.approved_version)) [
      | inl e ↦ absurd (ground arith)
      | inr e ↦
          (let k : validate_window p.rollout_window_start p.rollout_window_end ≡ ok tt =
              ground arith in
            (
              elim (Bool-cases p.auto_update) [ inr f ↦ inl f | inl f ↦ inr (ground arith) ],
              validate_window-IsWindow p.rollout_window_start p.rollout_window_end k,
            ))
    ]

size_pos : (s : Str) → (s == []) ≡ false → 1 ≤ size s
unfolding dec_str
size_pos [] h = absurd (cc)
size_pos (c ∷ s) h = omega arith

ok_inj {ℓ} : {A : Type ℓ} {a b : A} → ◌≡◌ {A = Result Refusal A} (ok a) (ok b) → a ≡ b
ok_inj e = cc

-- A field after a request: as it was where the request leaves it out, and else what the request has.
abbrev pub IsField : PatchField ℕ → Option ℕ → Option ℕ → Type 0
IsField none old new = new ≡ old
IsField (some field) old new = new ≡ field

merged-IsField : (field : PatchField ℕ) (old : Option ℕ) → IsField field old (merged field old)
merged-IsField none old = refl
merged-IsField (some field) old = refl

abbrev pub IsFlag : PatchField Bool → Bool → Bool → Type 0
IsFlag none old new = new ≡ old
IsFlag (some none) old new = new ≡ old
IsFlag (some (some flag)) old new = new ≡ flag

merged-IsFlag : (field : PatchField Bool) (old : Bool) → IsFlag field old (merged_flag field old)
merged-IsFlag none old = refl
merged-IsFlag (some none) old = refl
merged-IsFlag (some (some flag)) old = refl

module _ (spaces : Spaces) (is_known : Str → Bool) where
  -- The approved version after a request: as it was where the request leaves it out, none where it has a
  -- null, and else the trimmed text of the request, which is a version of the catalog.
  abbrev pub IsApproved : PatchField Str → Option Str → Option Str → Type 0
  IsApproved none old new = new ≡ old
  IsApproved (some none) old new = new ≡ none
  IsApproved (some (some raw)) old new =
      (new ≡ some (spaces.trim_space raw))
      × (is_known (spaces.trim_space raw) ≡ true)
      × (1 ≤ size (spaces.trim_space raw))
      × (size (spaces.trim_space raw) ≤ 64)

  check_version-IsApproved :
      (field version : PatchField Str) (old : Option Str)
      → check_version spaces is_known field ≡ ok version
      → IsApproved field old (merged version old)
  unfolding check_version
  check_version-IsApproved none version old h =
      subst (λ f. IsApproved none old (merged f old)) (ok_inj h) refl
  check_version-IsApproved (some none) version old h =
      subst (λ f. IsApproved (some none) old (merged f old)) (ok_inj h) refl
  check_version-IsApproved (some (some raw)) version old h =
      let v = spaces.trim_space raw in
      elim (Bool-cases (v == [] || not (leb (size v) 64))) [
        | inl e ↦ absurd (ground arith)
        | inr e ↦ elim (Bool-cases (is_known v)) [
          | inr f ↦ absurd (ground arith)
          | inl f ↦
              (let k : check_version spaces is_known (some (some raw)) ≡ ok (some (some v)) =
                  rw (check_version, e, f) refl in
                subst (λ g. IsApproved (some (some raw)) old (merged g old)) (ok_inj (sym k ∙ h))
                  (refl, f, size_pos v (ground arith), ground arith))
        ]
      ]

  module _ (t : Table dec_str TenantUpdatePolicy.tenant_id) where
    open t use {State, find, save}

    before : State → Str → TenantUpdatePolicy
    before s tenant_id = policy_of spaces is_known t s tenant_id

    policy_of-tenant :
        (s : State) (tenant_id : Str)
        → (policy_of spaces is_known t s tenant_id).tenant_id ≡ tenant_id
    policy_of-tenant s tenant_id = elim (Option-cases (find s tenant_id)) [
      | inl e ↦ rw (policy_of, e) refl
      | inr (p, e) ↦ rw (policy_of, e) (t.find-key s tenant_id e)
    ]

    -- The policy of a tenant after a request that succeeds.
    pub record IsPatched (tenant_id : Str) (req : PatchRequest) (s s' : State) : Type 0 where
      pub policy : TenantUpdatePolicy
      pub stored : find s' tenant_id ≡ some policy
      pub is_valid : IsValid policy
      pub approved :
          IsApproved req.approved_version
            (policy_of spaces is_known t s tenant_id).approved_version
            policy.approved_version
      pub flag :
          IsFlag req.auto_update
            (policy_of spaces is_known t s tenant_id).auto_update
            policy.auto_update
      pub window_start :
          IsField req.rollout_window_start
            (policy_of spaces is_known t s tenant_id).rollout_window_start
            policy.rollout_window_start
      pub window_end :
          IsField req.rollout_window_end
            (policy_of spaces is_known t s tenant_id).rollout_window_end
            policy.rollout_window_end
      pub others : (other : Str) → (tenant_id ≡ other) ⊎ (find s' other ≡ find s other)

    saved :
        (tenant_id : Str) (req : PatchRequest) (version : PatchField Str) (s : State)
        → check_version spaces is_known req.approved_version ≡ ok version
        → validate_update_policy
            (merge spaces is_known req version (policy_of spaces is_known t s tenant_id))
          ≡ ok tt
        → IsPatched tenant_id req s
            (save s (merge spaces is_known req version (policy_of spaces is_known t s tenant_id)))
    saved tenant_id req version s checked valid =
        let old = policy_of spaces is_known t s tenant_id in
        let new = merge spaces is_known req version old in
        let at : new.tenant_id ≡ tenant_id = policy_of-tenant s tenant_id in
        record {
          policy = new;
          stored = ap (find (save s new)) (sym at) ∙ find-save_self t s new;
          is_valid = validate_update_policy-IsValid new valid;
          approved =
              check_version-IsApproved req.approved_version version old.approved_version checked;
          flag = merged-IsFlag req.auto_update old.auto_update;
          window_start = merged-IsField req.rollout_window_start old.rollout_window_start;
          window_end = merged-IsField req.rollout_window_end old.rollout_window_end;
          others = λ other. elim (dec_str tenant_id other) [
            | yes e ↦ inl e
            | no ne ↦ inr (find-save_ne t s new other (λ e. ne (sym at ∙ e)))
          ];
        }

    -- A PATCH that succeeds stores for its tenant, and for no other, a policy that is valid: updates are
    -- automatic only with an approved version, and the window has both ends in order or none. A field
    -- that the request leaves out is as it was, one with a null is cleared, and one with a value has that
    -- value; for the approved version that is the text without the spaces around it, which is in the
    -- catalog and has between 1 and 64 bytes.
    pub patch_update_policy-IsPatched :
        (tenant_id : Str) (req : PatchRequest) (s s' : State)
        → patch_update_policy spaces is_known t tenant_id req s ≡ ok s'
        → IsPatched tenant_id req s s'
    unfolding patch_update_policy
    patch_update_policy-IsPatched tenant_id req s s' h =
        let old = policy_of spaces is_known t s tenant_id in
        let (_, _, h1) = >>=-eq-ok (check_fields spaces is_known req) _ h in
        let (version, checked, h2) =
          >>=-eq-ok (check_version spaces is_known req.approved_version) _ h1 in
        let (_, valid, h3) =
          >>=-eq-ok (validate_update_policy (merge spaces is_known req version old)) _ h2 in
        subst (IsPatched tenant_id req s) (ok_inj h3) (saved tenant_id req version s checked valid)
