-- ===== src/Messaging/Tests.antt =====
-- Concrete runs of the circuit breaker and of the retries.
use msg2agent.Prelude.{
  ℕ, ◌+◌, true, false, leb, Option, none, some, List, [], ◌∷◌, if◌then◌else◌, arith,
}
use msg2agent.Messaging.Breaker.{
  circuit_open, CircuitBreaker, new_circuit_breaker, asked, has_failed, has_succeeded, run_events,
  IsValid, run_events-IsValid,
}
use msg2agent.Messaging.Retry.{RetryPolicy, Bounded, retry, retry-Bounded}

abbrev opened : CircuitBreaker
opened = record {
  max_failures = 2;
  reset_timeout = 30;
  half_open_max = 1;
  state = circuit_open;
  failures = 2;
  successes = 0;
  last_failure = 10;
}

run_events-IsValid_example : IsValid (
    run_events
      (has_failed 5 ∷ has_failed 10 ∷ asked 20 ∷ asked 41 ∷ has_succeeded ∷ [])
      (new_circuit_breaker 2 30 1))
run_events-IsValid_example =
    run_events-IsValid (has_failed 5 ∷ has_failed 10 ∷ asked 20 ∷ asked 41 ∷ has_succeeded ∷ []) 2
      30 1 (omega arith) (omega arith)

abbrev times : List ℕ
times = 5 ∷ 10 ∷ []

abbrev doubling : RetryPolicy ℕ
doubling = record {
  max_retries = 3;
  initial_backoff = 100;
  max_backoff = 300;
  grow = λ b. b + b;
  retryable_error = λ _. true;
}

-- Fails twice and then succeeds.
abbrev flaky : ℕ → Option ℕ
flaky a = if leb 2 a then none else some 7

retry-Bounded_example :
    Bounded doubling flaky
      (λ _. false)
      (λ _. false)
      3
      0
      (retry doubling flaky (λ _. false) (λ _. false))
retry-Bounded_example = retry-Bounded doubling flaky (λ _. false) (λ _. false)
