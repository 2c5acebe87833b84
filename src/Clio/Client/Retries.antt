-- ===== src/Clio/Client/Retries.antt =====
-- The retry policy of client.ts: how many rounds it makes, what it returns, and that every slot it
-- takes is given back.
use xrpl_registrar.Common.{
  ℕ, zero, suc, ◌+◌, ◌≤◌, ◌<◌, String, ◌≡◌, refl, sym, ap, ◌∙◌, subst, ◌⊎◌, inl, inr, Bool, true,
  false, ◌&&◌, some, List, [], ◌∷◌, arith, ◌==◌, if◌then◌else◌, Option-cases, or_else,
}
use mathlib.Core.Path.{ap₂}
use xrpl_registrar.Clio.Classify.{classify_error}
use xrpl_registrar.Clio.Client.{
  ClioRequest, Outcome, answered, failed, Round, Call, acquires, releases, sends, Result, ok,
  Exchange, prepare, wrap, give_up, request_loop, request,
}

abbrev pub is_acquire : Call → Bool
is_acquire acquires = true
is_acquire _ = false

abbrev pub is_release : Call → Bool
is_release releases = true
is_release _ = false

abbrev pub is_send : Call → Bool
is_send (sends req) = true
is_send _ = false

-- Whether every request of the list speaks version 2.
abbrev pub all_v2 : List Call → Bool
all_v2 [] = true
all_v2 (sends req ∷ cs) = or_else req.api_version 0 == 2 && all_v2 cs
all_v2 (_ ∷ cs) = all_v2 cs

pub count : (Call → Bool) → List Call → ℕ
count p [] = 0
count p (c ∷ cs) = if p c then suc (count p cs) else count p cs

-- A round that is retried: the transport failed with a load signal.
abbrev pub is_load_failure : Outcome → Bool
is_load_failure (answered raw) = false
is_load_failure (failed err) = (classify_error err).retryable

module _ (endpoint : String) (rounds : ℕ → Round) where
  -- What a round that is not retried ends the request with.
  abbrev pub final : ClioRequest → ℕ → Outcome → Result
  final req attempt (answered raw) = ok (wrap endpoint rounds attempt raw)
  final req attempt (failed err) = give_up endpoint rounds req attempt err

  abbrev pub counted : Exchange → ℕ × Result
  counted x = (count is_send x.calls, x.result)

  stop_at :
      (req : ClioRequest) (retries attempt : ℕ)
      → (is_load_failure (rounds attempt).outcome ≡ false) ⊎ (retries ≡ 0)
      → counted (request_loop endpoint rounds req retries attempt)
        ≡ (1, final req attempt (rounds attempt).outcome)
  unfolding request_loop count
  stop_at req zero attempt h = ground arith
  stop_at req (suc n) attempt h = ground arith

  retry_at :
      (req : ClioRequest) (retries attempt : ℕ)
      → is_load_failure (rounds attempt).outcome ≡ true
      → counted (request_loop endpoint rounds req (suc retries) attempt) ≡ (
          let (n, r) = counted (request_loop endpoint rounds req retries (attempt + 1)) in
          (suc n, r))
  unfolding request_loop count
  retry_at req n attempt h = ground arith

  loop_settles :
      (req : ClioRequest) (retries attempt k : ℕ)
      → k ≤ retries
      → ((j : ℕ) → j < k → is_load_failure (rounds (attempt + j)).outcome ≡ true)
      → (is_load_failure (rounds (attempt + k)).outcome ≡ false) ⊎ (k ≡ retries)
      → counted (request_loop endpoint rounds req retries attempt)
        ≡ (suc k, final req (attempt + k) (rounds (attempt + k)).outcome)
  loop_settles req retries attempt zero h earlier here =
      let e : attempt + 0 ≡ attempt = omega arith in
      rw e (
        stop_at req retries attempt (elim here [
          | inl l ↦ inl (subst (λ a. is_load_failure (rounds a).outcome ≡ false) e l)
          | inr z ↦ inr (sym z)
        ]))
  loop_settles req zero attempt (suc k) h earlier here = absurd (omega arith)
  loop_settles req (suc n) attempt (suc k) h earlier here =
      let first : attempt + 0 ≡ attempt = omega arith in
      let e : attempt + suc k ≡ attempt + 1 + k = omega arith in
      retry_at req n attempt
        (subst (λ a. is_load_failure (rounds a).outcome ≡ true) first (earlier 0 (omega arith)))
      ∙ ap (λ (x : ℕ × Result). (suc x.0, x.1))
          (loop_settles req n (attempt + 1) k (omega arith)
            (λ j l.
              subst (λ a. is_load_failure (rounds a).outcome ≡ true) (shift j)
                (earlier (suc j) (omega arith)))
            (elim here [
              | inl l ↦ inl (subst (λ a. is_load_failure (rounds a).outcome ≡ false) e l)
              | inr z ↦ inr (omega arith)
            ]))
      ∙ ap (λ (a : ℕ). (suc (suc k), final req a (rounds a).outcome)) (sym e)
    where
      shift : (j : ℕ) → attempt + suc j ≡ attempt + 1 + j
      shift j = omega arith

  loop_balanced :
      (req : ClioRequest) (retries attempt : ℕ)
      → let x = request_loop endpoint rounds req retries attempt in
        (count is_acquire x.calls ≡ count is_send x.calls)
        × (count is_release x.calls ≡ count is_send x.calls)
        × (count is_send x.calls ≤ retries + 1)
        × (or_else req.api_version 0 ≡ 2 → all_v2 x.calls ≡ true)
  unfolding request_loop count
  loop_balanced req zero attempt = ground arith
  loop_balanced req (suc n) attempt = ground (arith, loop_balanced req n (attempt + 1))

  prepare_v2 :
      (req outbound : ClioRequest)
      → prepare req ≡ some outbound
      → or_else outbound.api_version 0 ≡ 2
  unfolding prepare
  prepare_v2 req outbound h = ground arith

  -- For a request that names version 2 or none: if the rounds before `k` all fail with a load
  -- signal, and round `k` does not, or is the last that `maxRetries` allows, then exactly k + 1
  -- requests are sent, and the result is what round `k` ends with: its answer in the client's
  -- envelope, or an error that counts k + 1 attempts and carries its code.
  pub request-final :
      (max_retries k : ℕ) (req outbound : ClioRequest)
      → prepare req ≡ some outbound
      → k ≤ max_retries
      → ((j : ℕ) → j < k → is_load_failure (rounds j).outcome ≡ true)
      → (is_load_failure (rounds k).outcome ≡ false) ⊎ (k ≡ max_retries)
      → counted (request endpoint rounds max_retries req)
        ≡ (k + 1, final outbound k (rounds k).outcome)
  unfolding request
  request-final max_retries k req outbound p h earlier here = rw p (
      loop_settles outbound max_retries 0 k h
        (λ j l. subst (λ a. is_load_failure (rounds a).outcome ≡ true) (from_zero j) (earlier j l))
        (elim here [
          | inl l ↦ inl (subst (λ a. is_load_failure (rounds a).outcome ≡ false) (from_zero k) l)
          | inr z ↦ inr z
        ])
      ∙ ap₂ (λ (n a : ℕ). (n, final outbound a (rounds a).outcome)) (omega arith)
          (sym (from_zero k)))
    where
      from_zero : (j : ℕ) → j ≡ 0 + j
      from_zero j = omega arith

  -- On every path, refusals included: each slot that is acquired is released once, one request is
  -- sent for each, there are at most `maxRetries` + 1 of them, and each of them speaks version 2.
  pub request_balanced :
      (max_retries : ℕ) (req : ClioRequest)
      → let x = request endpoint rounds max_retries req in
        (count is_acquire x.calls ≡ count is_send x.calls)
        × (count is_release x.calls ≡ count is_send x.calls)
        × (count is_send x.calls ≤ max_retries + 1)
        × (all_v2 x.calls ≡ true)
  unfolding request count
  request_balanced max_retries req = elim (Option-cases (prepare req)) [
    | inl e ↦ rw e (refl, refl, omega arith, refl)
    | inr (outbound, e) ↦
        let b = loop_balanced outbound max_retries 0 in
        rw e (b.0, b.1, b.2, b.3 (prepare_v2 req outbound e))
  ]
