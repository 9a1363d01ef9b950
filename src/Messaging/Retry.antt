-- ===== src/Messaging/Retry.antt =====
-- `Retry` of pkg/messaging/reliability.go. The function, the context and the float64 product by which the
-- backoff grows are parameters: `fn a` is what attempt `a` returns, `done a` and `cut a` say whether the
-- context is done before attempt `a` and during the wait after it.
use msg2agent.Prelude.{
  ℕ, zero, suc, ◌+◌, ◌≤◌, ◌≡◌, refl, Bool, ltb, not, Option, none, some, List, [], ◌∷◌, length,
  if◌then◌else◌, inl, inr, Option-cases, if_elim, arith,
}

pub record RetryPolicy (E : Type 0) : Type 0 where
  pub max_retries : ℕ
  pub initial_backoff : ℕ
  pub max_backoff : ℕ
  pub grow : ℕ → ℕ
  pub retryable_error : E → Bool

pub data RetryError (E : Type 0) : Type 0 where
  context_done : RetryError E
  not_retryable max_retries_exceeded : E → RetryError E

-- What a call of `Retry` did: its result, how often it called the function, and its waits.
pub record Outcome (E : Type 0) : Type 0 where
  pub error : Option (RetryError E)
  pub calls : ℕ
  pub waits : List ℕ

module _ {E : Type 0} (policy : RetryPolicy E) (fn : ℕ → Option E) (done cut : ℕ → Bool) where
  abbrev next_backoff : ℕ → ℕ
  next_backoff b =
      if ltb policy.max_backoff (policy.grow b) then policy.max_backoff else policy.grow b

  -- One attempt; `again` is what follows an error that can be retried.
  unfoldable pub attempt : ℕ → (E → Outcome E) → Outcome E
  attempt a again =
      if done a then record { error = some context_done; calls = 0; waits = [] } else elim (fn a) [
        | none ↦ record { error = none; calls = 1; waits = [] }
        | some e ↦
            if not (policy.retryable_error e)
            then record { error = some (not_retryable e); calls = 1; waits = [] }
            else record (again e) { calls = (again e).calls + 1 }
      ]

  -- The wait `b` after attempt `a`, and the attempts after it.
  unfoldable pub wait : ℕ → ℕ → Outcome E → Outcome E
  wait a b rest =
      if cut a
      then record { error = some context_done; calls = 0; waits = b ∷ [] }
      else record rest { waits = b ∷ rest.waits }

  -- The loop from attempt `a` with `n` retries left.
  unfoldable pub retry_from : ℕ → ℕ → ℕ → Outcome E
  unfolding attempt wait
  retry_from zero a b =
      attempt a (λ e. record { error = some (max_retries_exceeded e); calls = 0; waits = [] })
  retry_from (suc n) a b = attempt a (λ e. wait a b (retry_from n (suc a) (next_backoff b)))

  unfoldable pub retry : Outcome E
  unfolding retry_from
  retry = retry_from policy.max_retries 0 policy.initial_backoff

  -- What the loop keeps to from attempt `a` with `n` retries left.
  pub record Bounded (n a : ℕ) (o : Outcome E) : Type 0 where
    pub calls_le : o.calls ≤ n + 1
    pub waits_le : length o.waits ≤ n
    pub success : o.error ≡ none → (j : ℕ) × (o.calls ≡ j + 1) × (fn (a + j) ≡ none)

  module _ (a : ℕ) where
    -- A property of every outcome of an attempt.
    attempt_cases :
        (P : Outcome E → Type 0) (again : E → Outcome E)
        → P (record { error = some context_done; calls = 0; waits = [] })
        → (fn a ≡ none → P (record { error = none; calls = 1; waits = [] }))
        → ((e : E) → P (record { error = some (not_retryable e); calls = 1; waits = [] }))
        → ((e : E) → P (record (again e) { calls = (again e).calls + 1 }))
        → P (attempt a again)
    unfolding attempt
    attempt_cases P again d s n r =
        if_elim P (done a) (λ _. d)
          (λ _. elim (Option-cases (fn a)) [
            | inl f ↦ rw f (s f)
            | inr (e, f) ↦ rw f (if_elim P (not (policy.retryable_error e)) (λ _. n e) (λ _. r e))
          ])

  wait-Bounded :
      (n a b : ℕ) (o : Outcome E)
      → Bounded n (suc a) o
      → Bounded (suc n) a (record (wait a b o) { calls = (wait a b o).calls + 1 })
  unfolding wait
  wait-Bounded n a b o v =
      if_elim {A = Outcome E} (λ w. Bounded (suc n) a (record w { calls = w.calls + 1 })) (cut a)
        (λ _. record {
          calls_le = omega arith;
          waits_le = omega arith;
          success = λ h. absurd (cc h);
        })
        (λ _. record {
          calls_le = omega (arith, v.calls_le);
          waits_le = omega (arith, v.waits_le);
          success = λ h.
              let (j, c, f) = v.success h in
              let e : a + suc j ≡ suc a + j = omega arith in (suc j, omega (arith, c), rw e f);
        })

  retry_from-Bounded : (n a b : ℕ) → Bounded n a (retry_from n a b)
  unfolding retry_from
  retry_from-Bounded zero a b =
      attempt_cases a (Bounded zero a)
        (λ e. record { error = some (max_retries_exceeded e); calls = 0; waits = [] })
        (record { calls_le = omega arith; waits_le = omega arith; success = λ h. absurd (cc h) })
        (λ f.
          let e : a + 0 ≡ a = omega arith in
          record {
            calls_le = omega arith;
            waits_le = omega arith;
            success = λ _. (0, refl, rw e f);
          })
        (λ x. record {
          calls_le = omega arith;
          waits_le = omega arith;
          success = λ h. absurd (cc h);
        })
        (λ x. record {
          calls_le = omega arith;
          waits_le = omega arith;
          success = λ h. absurd (cc h);
        })
  retry_from-Bounded (suc n) a b =
      attempt_cases a (Bounded (suc n) a) (λ e. wait a b (retry_from n (suc a) (next_backoff b)))
        (record { calls_le = omega arith; waits_le = omega arith; success = λ h. absurd (cc h) })
        (λ f.
          let e : a + 0 ≡ a = omega arith in
          record {
            calls_le = omega arith;
            waits_le = omega arith;
            success = λ _. (0, refl, rw e f);
          })
        (λ x. record {
          calls_le = omega arith;
          waits_le = omega arith;
          success = λ h. absurd (cc h);
        })
        (λ x.
          wait-Bounded n a b (retry_from n (suc a) (next_backoff b))
            (retry_from-Bounded n (suc a) (next_backoff b)))

  -- `Retry` calls the function at most once more than there are retries and waits at most once for each
  -- retry; where it returns no error, the last call it made was the one that succeeded.
  pub retry-Bounded : Bounded policy.max_retries 0 retry
  unfolding retry
  retry-Bounded = retry_from-Bounded policy.max_retries 0 policy.initial_backoff
