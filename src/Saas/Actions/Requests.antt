-- ===== src/Saas/Actions/Requests.antt =====
-- What the checks of a request in internal/saasapi/sprout_actions.go let through.
use Prim.Native.Nat.{ℕ, zero, suc, ◌+◌, ◌≤◌, ◌<◌}
use mathlib.Core.Path.{◌≡◌, refl, ap, ◌∙◌, sym, subst}
use mathlib.Core.Logic.{◌⊎◌, inl, inr}
use mathlib.Core.Bool.{true, false, ◌||◌}
use mathlib.Core.List.{List, [], ◌∷◌, ◌++◌, map}
use native.Mathlib.Omega.{arith}
use grlx.Common.{
  Str, dec_str, ◌==◌, leb, size, length, contains, contains-append, All, Result, ok, ◌>>=◌,
  >>=-eq-ok, Bool-cases, length-append,
}
use grlx.Saas.Actions.{
  Refusal, Spaces, in_nanoseconds, is_negative, CmdRunInput, FarmerCmdRun, is_bad_cmd_run,
  command_of, with_limits, translate_cmd_run, collect_ids, parse_action_asset_ids, some_ids,
  max_cmd_timeout, default_cmd_timeout, timeout_of,
}

-- Each text stands once.
abbrev pub AreDistinct : List Str → Type 0
AreDistinct [] = Unit
AreDistinct (x ∷ xs) = (contains xs x ≡ false) × AreDistinct xs

snoc-AreDistinct :
    (xs : List Str) (x : Str) → AreDistinct xs → contains xs x ≡ false → AreDistinct (xs ++ x ∷ [])
unfolding contains
snoc-AreDistinct [] x h new = (refl, tt)
snoc-AreDistinct (y ∷ xs) x (apart, h) new =
    let split = contains-append xs (x ∷ []) y in
    (ground arith, snoc-AreDistinct xs x h (ground arith))

-- An id that is neither empty nor longer than its column.
abbrev pub IsFine : Str → Type 0
IsFine id = ((id == []) ≡ false) × (size id ≤ 191)

snoc-All :
    {A : Type 0} (P : A → Type 0) (xs : List A) (x : A) → All P xs → P x → All P (xs ++ x ∷ [])
snoc-All P [] x h k = (k, tt)
snoc-All P (y ∷ xs) x (here, h) k = (here, snoc-All P xs x h k)

module _ (spaces : Spaces) where
  open spaces use {trim_space, fields}

  -- What the loop adds to the ids that it has.
  abbrev Collected : List Str → List Str → List Str → Type 0
  Collected raws ids out =
      AreDistinct out
      × All IsFine out
      × (length out ≤ length ids + length raws)
      × ((x : Str) → contains out x ≡ (contains ids x || contains (map trim_space raws) x))

  collect_ids-Collected :
      (raws ids out : List Str)
      → AreDistinct ids
      → All IsFine ids
      → collect_ids spaces raws ids ≡ ok out
      → Collected raws ids out
  unfolding collect_ids contains
  collect_ids-Collected [] ids out distinct fine h =
      subst (Collected [] ids) (ok_inj h) (distinct, fine, omega arith, λ x. ground arith)
    where
      ok_inj : {a b : List Str} → ◌≡◌ {A = Result Refusal (List Str)} (ok a) (ok b) → a ≡ b
      ok_inj e = cc
  collect_ids-Collected (raw ∷ raws) ids out distinct fine h =
      let id = trim_space raw in
      elim (Bool-cases (id == [])) [
        | inl e ↦ absurd (ground arith)
        | inr e ↦ elim (Bool-cases (leb (size id) 191)) [
          | inr f ↦ absurd (ground arith)
          | inl f ↦ elim (Bool-cases (contains ids id)) [
            | inl g ↦
                (let k : collect_ids spaces raws ids ≡ ok out = ground arith in
                  let (a, b, c, d) = collect_ids-Collected raws ids out distinct fine k in
                  (
                    a,
                    b,
                    omega arith,
                    λ x.
                        (let at = d x in
                          elim (dec_str x (trim_space raw)) [
                            | yes same ↦
                                (let had : contains ids x ≡ true =
                                    subst (λ y. contains ids y ≡ true) (sym same) g in
                                  ground arith)
                            | no ne ↦ ground arith
                          ]),
                  ))
            | inr g ↦
                (let k : collect_ids spaces raws (ids ++ id ∷ []) ≡ ok out = ground arith in
                  let (a, b, c, d) =
                    collect_ids-Collected raws (ids ++ id ∷ []) out
                      (snoc-AreDistinct ids id distinct g)
                      (snoc-All IsFine ids id fine (e, ground arith)) k in
                  (
                    a,
                    b,
                    (let l = length-append ids (id ∷ []) in omega arith),
                    λ x.
                        (let at = d x in
                          let split = contains-append ids (id ∷ []) x in ground arith),
                  ))
          ]
        ]
      ]

  some_ids-ok : (ids out : List Str) → some_ids ids ≡ ok out → (out ≡ ids) × (0 < length out)
  some_ids-ok [] out h = absurd (cc)
  some_ids-ok (x ∷ ids) out h = let same : out ≡ x ∷ ids = cc in (same, ap_length (sym same))
    where
      ap_length : {ys : List Str} → x ∷ ids ≡ ys → 0 < length ys
      ap_length e = subst (λ ys. 0 < length ys) e (omega arith)

  -- The ids that a request is let through with: between 1 and 100, each once, neither empty nor longer
  -- than their column, and the trimmed ones of the request.
  pub parse_action_asset_ids-ok :
      (raws out : List Str)
      → parse_action_asset_ids spaces raws ≡ ok out
      → AreDistinct out
        × All IsFine out
        × (0 < length out)
        × (length out ≤ 100)
        × ((x : Str) → contains out x ≡ contains (map trim_space raws) x)
  unfolding parse_action_asset_ids contains
  parse_action_asset_ids-ok raws out h = elim (Bool-cases (leb (length raws) 100)) [
    | inr e ↦ absurd (ground arith)
    | inl e ↦
        (let k : (collect_ids spaces raws [] >>= some_ids) ≡ ok out = ground arith in
          let (ids, f, g) = >>=-eq-ok (collect_ids spaces raws []) some_ids k in
          let (same, has_some) = some_ids-ok ids out g in
          let (a, b, c, d) = collect_ids-Collected raws [] ids tt tt f in
          let short : length raws ≤ 100 = ground arith in
          (
            subst AreDistinct (sym same) a,
            subst (All IsFine) (sym same) b,
            has_some,
            subst (λ xs. length xs ≤ 100) (sym same) (omega arith),
            λ x. ap (λ xs. contains xs x) same ∙ d x,
          ))
  ]

  -- The limits of a command for the farmer, as far as the code keeps them.
  abbrev pub HasLimits : CmdRunInput → FarmerCmdRun → Type 0
  HasLimits p out =
      (size out.cwd ≤ 4096)
      × (size out.run_as ≤ 255)
      × (size p.cmd ≤ 4096)
      × (is_negative p.timeout_seconds ≡ false)
      × (((p.timeout_seconds ≡ 0) × (out.timeout ≡ default_cmd_timeout))
          ⊎ ((0 < p.timeout_seconds) × (out.timeout ≡ in_nanoseconds p.timeout_seconds)))
      × ((is_negative out.timeout ≡ true) ⊎ (out.timeout ≤ max_cmd_timeout))

  guards :
      (cmd : Str) (p : CmdRunInput)
      → is_bad_cmd_run cmd p ≡ false
      → (size p.cmd ≤ 4096)
        × (is_negative p.timeout_seconds ≡ false)
        × ((is_negative (in_nanoseconds p.timeout_seconds) ≡ true)
            ⊎ (in_nanoseconds p.timeout_seconds ≤ max_cmd_timeout))
  unfolding is_bad_cmd_run
  guards cmd p h = elim (Bool-cases (leb (size p.cmd) 4096)) [
    | inr e ↦ absurd (ground arith)
    | inl e ↦ elim (Bool-cases (is_negative p.timeout_seconds)) [
      | inl f ↦ absurd (ground arith)
      | inr f ↦ elim (Bool-cases (is_negative (in_nanoseconds p.timeout_seconds))) [
        | inl g ↦ (ground arith, f, inl g)
        | inr g ↦ elim (Bool-cases (leb (in_nanoseconds p.timeout_seconds) max_cmd_timeout)) [
          | inl k ↦ (ground arith, f, inr (ground arith))
          | inr k ↦ absurd (ground arith)
        ]
      ]
    ]
  ]

  -- The wrapped product is negative, or not above the limit.
  abbrev IsBounded : ℕ → Type 0
  IsBounded word = (is_negative word ≡ true) ⊎ (word ≤ max_cmd_timeout)

  timeout_of-IsBounded :
      (n : ℕ)
      → IsBounded (in_nanoseconds n)
      → (((n ≡ 0) × (timeout_of n ≡ default_cmd_timeout))
          ⊎ ((0 < n) × (timeout_of n ≡ in_nanoseconds n)))
        × IsBounded (timeout_of n)
  timeout_of-IsBounded zero h = (inl (refl, refl), inr (omega arith))
  timeout_of-IsBounded (suc n) h = (inr (omega arith, refl), h)

  with_limits-ok :
      (p : CmdRunInput) (command : Str) (args : List Str) (out : FarmerCmdRun)
      → (size p.cmd ≤ 4096)
        × (is_negative p.timeout_seconds ≡ false)
        × IsBounded (in_nanoseconds p.timeout_seconds)
      → with_limits p (command, args) ≡ ok out
      → HasLimits p out
  unfolding with_limits
  with_limits-ok p command args out (short, positive, bounded) h =
      elim (Bool-cases (leb (size p.cwd) 4096)) [
        | inr e ↦ absurd (ground arith)
        | inl e ↦ elim (Bool-cases (leb (size p.run_as) 255)) [
          | inr f ↦ absurd (ground arith)
          | inl f ↦
              (let made : with_limits p (command, args) ≡ ok line = rw (with_limits, e, f) refl in
                let (time, limit) = timeout_of-IsBounded p.timeout_seconds bounded in
                subst (HasLimits p) (ok_inj (sym made ∙ h))
                  (ground arith, ground arith, short, positive, time, limit))
        ]
      ]
    where
      line : FarmerCmdRun
      line = record {
        command = command;
        args = args;
        cwd = p.cwd;
        run_as = p.run_as;
        timeout = timeout_of p.timeout_seconds;
      }

      ok_inj : {a b : FarmerCmdRun} → ◌≡◌ {A = Result Refusal FarmerCmdRun} (ok a) (ok b) → a ≡ b
      ok_inj e = cc

  -- A command that is let through has a directory, a user and a text within their limits. Its timeout is
  -- the default for 0 seconds, and else the product of the seconds, which wraps; it is negative or not
  -- above ten minutes.
  pub translate_cmd_run-HasLimits :
      (p : CmdRunInput) (out : FarmerCmdRun) → translate_cmd_run spaces p ≡ ok out → HasLimits p out
  unfolding translate_cmd_run
  translate_cmd_run-HasLimits p out h =
      let cmd = trim_space p.cmd in
      elim (Bool-cases (is_bad_cmd_run cmd p)) [
        | inl e ↦ absurd (ground arith)
        | inr e ↦
            (let k : (command_of spaces cmd p.args >>= with_limits p) ≡ ok out = ground arith in
              let (line, f, g) = >>=-eq-ok (command_of spaces cmd p.args) (with_limits p) k in
              with_limits-ok p line.0 line.1 out (guards cmd p e) g)
      ]
