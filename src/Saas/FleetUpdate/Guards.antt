-- ===== src/Saas/FleetUpdate/Guards.antt =====
-- What holds of a rollout that `CreateFleetUpdateBatch` of internal/saasapi starts.
use Prim.Native.Nat.{ℕ, ◌≤◌}
use mathlib.Core.Path.{◌≡◌, refl, subst}
use mathlib.Core.Logic.{◌⊎◌, ◌↔◌, inl, inr}
use mathlib.Core.Bool.{Bool, true, false}
use mathlib.Core.Option.{Option, none, some}
use mathlib.Core.List.{List, [], ◌∷◌, Memᴰ, map}
use native.Mathlib.Omega.{arith}
use grlx.Common.{Str, str, dec_str, leb, size, All, Result, ok, err, >>=-eq-ok, Bool-cases}
use grlx.Common.Table.{Table}
use grlx.Saas.Items.{Item, item_key, dec_key}
use grlx.Saas.Dispatch.{Gate, job_status, dispatch, Batch}
use grlx.Saas.Actions.{Refusal, parse_action_asset_ids}
use grlx.Saas.PolicyCheck.{rollout_policy_check, parse_update_batch_size, parse_update_gate}
use grlx.Saas.Batches.{by_asset, create_batch}
use grlx.Saas.Batches.Creation.{IsGiven}
use grlx.Saas.Batches.Queue.{IsLinked, create_batch-stores}
use grlx.Saas.FleetUpdate.{
  Response, FleetUpdateRequest, Reads, or_refuse, guard, parsed, is_version, not_found,
  tenant_not_active, unsupported, unknown_version, internal_error, blocked_by, allowed, version_of,
  new_batch, sprouts_with_update_in_progress, create_fleet_update_batch,
}

parsed-ok {ℓ} : {A : Type ℓ} (r : Result Refusal A) (a : A) → parsed r ≡ ok a → r ≡ ok a
parsed-ok (ok b) a h = cc
parsed-ok (err e) a h = absurd (cc)

refuse-ok {ℓ} :
    {A : Type ℓ} (response : Response) (o : Option A) (a : A)
    → or_refuse response o ≡ ok a
    → o ≡ some a
refuse-ok response none a h = absurd (cc)
refuse-ok response (some b) a h = cc

allowed-ok : (o : Option Str) → allowed o ≡ ok tt → o ≡ none
allowed-ok none h = refl
allowed-ok (some code) h = absurd (cc)

guard-ok : (b : Bool) (response : Response) → guard b response ≡ ok tt → b ≡ true
guard-ok true response h = refl
guard-ok false response h = absurd (cc)

-- The size of waves that a request asks for.
abbrev pub IsSize : Option ℕ → ℕ → Type 0
IsSize none n = n ≡ 5
IsSize (some k) n = (n ≡ k) × (1 ≤ k) × (k ≤ 25)

parse_update_batch_size-IsSize :
    (o : Option ℕ) (n : ℕ) → parse_update_batch_size o ≡ some n → IsSize o n
unfolding parse_update_batch_size
parse_update_batch_size-IsSize none n h = cc
parse_update_batch_size-IsSize (some k) n h = elim (Bool-cases (leb 1 k)) [
  | inr e ↦ absurd (ground arith)
  | inl e ↦ elim (Bool-cases (leb k 25)) [
    | inr f ↦ absurd (ground arith)
    | inl f ↦
        (let same : some k ≡ some n = ground arith in
          let kn : n ≡ k = cc in (kn, ground arith, ground arith))
  ]
]

pub IsSize-bounds : (o : Option ℕ) (n : ℕ) → IsSize o n → (1 ≤ n) × (n ≤ 25)
IsSize-bounds none n h = (omega arith, omega arith)
IsSize-bounds (some k) n (e, some_items, few_items) = (omega arith, omega arith)

-- The gate that a request asks for.
abbrev pub IsGate : Str → Gate → Type 0
IsGate text job_status = (text ≡ []) ⊎ (text ≡ str "job_status")
IsGate text dispatch = text ≡ str "dispatch"

parse_update_gate-IsGate :
    (text : Str) (gate : Gate) → parse_update_gate text ≡ some gate → IsGate text gate
unfolding parse_update_gate
parse_update_gate-IsGate text gate h = elim (dec_str text []) [
  | yes e ↦
      (let same : some job_status ≡ some gate = ground arith in
        let g : job_status ≡ gate = cc in subst (IsGate text) g (inl e))
  | no ne ↦ elim (dec_str text (str "job_status")) [
    | yes e ↦
        (let same : some job_status ≡ some gate = ground arith in
          let g : job_status ≡ gate = cc in subst (IsGate text) g (inr e))
    | no no_status ↦ elim (dec_str text (str "dispatch")) [
      | yes e ↦
          (let same : some dispatch ≡ some gate = ground arith in
            let g : dispatch ≡ gate = cc in subst (IsGate text) g e)
      | no no_dispatch ↦ absurd (ground arith)
    ]
  ]
]

version-ok : (version : Str) → is_version version ≡ true → (1 ≤ size version) × (size version ≤ 64)
version-ok [] h = absurd (ground arith)
version-ok (c ∷ version) h = (omega arith, ground arith)

ok_inj {ℓ} : {A : Type ℓ} {a b : A} → ◌≡◌ {A = Result Response A} (ok a) (ok b) → a ≡ b
ok_inj e = cc

module _ (t : Table dec_key item_key) (bt : Table dec_str Batch.id) where
  open t use {State, find}

  -- What a request that starts a rollout has passed, with the rollout that it starts. Each part of that is
  -- what the request or the tables say.
  pub record IsStarted (reads : Reads) (id tenant_id : Str) (req : FleetUpdateRequest)
      (seen_batches : bt.State) (seen : State) (out : bt.State × State × List Item × Batch × Str)
      : Type 0 where
    pub is_enabled : reads.enabled ≡ true
    pub is_active : reads.is_active ≡ true
    pub version : out.4 ≡ reads.spaces.trim_space req.target_version
    pub version_fits : (1 ≤ size out.4) × (size out.4 ≤ 64)
    pub in_catalog : reads.in_catalog out.4 ≡ true
    pub is_usable : reads.is_usable out.4 ≡ true
    pub is_allowed : rollout_policy_check reads.policy out.4 reads.now ≡ none
    pub size : ℕ
    pub asked_size : IsSize req.batch_size size
    pub gate : Gate
    pub asked_gate : IsGate req.gate gate
    pub batch : out.3 ≡ new_batch id tenant_id size gate
    pub asset_ids : List Str
    pub asked_ids : parse_action_asset_ids reads.spaces req.asset_ids ≡ ok asset_ids
    pub given :
        All
          (IsGiven t bt
            (new_batch id tenant_id size gate)
            (reads.resolve asset_ids)
            (blocked_by (
              sprouts_with_update_in_progress t bt seen_batches seen tenant_id
                (reads.resolve asset_ids)))
            out.1)
          out.2
    pub queued_for :
        (a : Str)
        → Memᴰ a (map Item.asset_id out.2) ↔ (
            Memᴰ a asset_ids
            × IsLinked
                (by_asset (reads.resolve asset_ids) [])
                (blocked_by (
                  sprouts_with_update_in_progress t bt seen_batches seen tenant_id
                    (reads.resolve asset_ids)))
                a)

  -- A request starts a rollout only where the feature is on, the tenant active, and its version, without
  -- the spaces around it, has between 1 and 64 bytes, is in the catalog, usable there, and the one that the
  -- policy of the tenant allows at that time. The size of its waves is that of the request, between 1 and
  -- 25, or 5, and its gate is that of the request or the status of jobs. The items that it is started with
  -- have their rows and are queued, and each goes to the sprout that its asset id is linked to, by what the
  -- asset ids of the request are resolved to, whose key is accepted and which had no update in progress
  -- when that was looked up; there is one for each asset id of the request with such a sprout.
  pub create_fleet_update_batch-IsStarted :
      (reads : Reads) (id tenant_id : Str) (req : FleetUpdateRequest) (seen_batches : bt.State)
      (seen : State) (batches : bt.State) (s : State)
      (out : bt.State × State × List Item × Batch × Str)
      → create_fleet_update_batch t bt reads id tenant_id req seen_batches seen batches s ≡ ok out
      → IsStarted reads id tenant_id req seen_batches seen out
  unfolding create_fleet_update_batch
  create_fleet_update_batch-IsStarted reads id tenant_id req seen_batches seen batches s out h =
      let version = version_of reads req in
      let (_, on, h1) = >>=-eq-ok (guard reads.enabled not_found) _ h in
      let (_, active, h2) = >>=-eq-ok (guard reads.is_active tenant_not_active) _ h1 in
      let (asset_ids, asked, h3) =
        >>=-eq-ok (parsed (parse_action_asset_ids reads.spaces req.asset_ids)) _ h2 in
      let (size, sized, h4) =
        >>=-eq-ok (or_refuse unsupported (parse_update_batch_size req.batch_size)) _ h3 in
      let (gate, gated, h5) = >>=-eq-ok (or_refuse unsupported (parse_update_gate req.gate)) _ h4 in
      let (_, versioned, h6) = >>=-eq-ok (guard (is_version version) unsupported) _ h5 in
      let (_, known, h7) = >>=-eq-ok (guard (reads.in_catalog version) unknown_version) _ h6 in
      let (_, usable, h8) = >>=-eq-ok (guard (reads.is_usable version) internal_error) _ h7 in
      let (_, policy, h9) =
        >>=-eq-ok (allowed (rollout_policy_check reads.policy version reads.now)) _ h8 in
      let resolved = reads.resolve asset_ids in
      let blocked =
        blocked_by (sprouts_with_update_in_progress t bt seen_batches seen tenant_id resolved) in
      let new = new_batch id tenant_id size gate in
      let (made, created, h10) =
        >>=-eq-ok (parsed (create_batch t bt new asset_ids resolved blocked batches s)) _ h9 in
      let stored =
        create_batch-stores t bt new asset_ids resolved blocked batches made.0 s made.1 made.2
          (parsed-ok (create_batch t bt new asset_ids resolved blocked batches s) made created) in
      subst (IsStarted reads id tenant_id req seen_batches seen) (ok_inj h10) (record {
        is_enabled = guard-ok reads.enabled not_found on;
        is_active = guard-ok reads.is_active tenant_not_active active;
        version = refl;
        version_fits = version-ok version (guard-ok (is_version version) unsupported versioned);
        in_catalog = guard-ok (reads.in_catalog version) unknown_version known;
        is_usable = guard-ok (reads.is_usable version) internal_error usable;
        is_allowed = allowed-ok (rollout_policy_check reads.policy version reads.now) policy;
        size = size;
        asked_size =
            parse_update_batch_size-IsSize req.batch_size size
              (refuse-ok unsupported (parse_update_batch_size req.batch_size) size sized);
        gate = gate;
        asked_gate =
            parse_update_gate-IsGate req.gate gate
              (refuse-ok unsupported (parse_update_gate req.gate) gate gated);
        batch = refl;
        asset_ids = asset_ids;
        asked_ids = parsed-ok (parse_action_asset_ids reads.spaces req.asset_ids) asset_ids asked;
        given = stored.3;
        queued_for = stored.4;
      })
