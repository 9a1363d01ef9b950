-- ===== src/Messaging/Breaker.antt =====
-- The circuit breaker of pkg/messaging/reliability.go. The mutex makes each method one step; `execute` is
-- two steps, with the call of the function between them, so runs are sequences of steps of any callers.
use msg2agent.Prelude.{
  ℕ, ◌+◌, ◌≤◌, ◌<◌, ◌≡◌, refl, Bool, true, false, ltb, leb, Option, none, some, List, [], ◌∷◌,
  if◌then◌else◌, inl, inr, Bool-cases, if_elim, length, ◌∙◌, arith,
}

pub data CircuitState : Type 0 where
  circuit_closed circuit_open circuit_half_open : CircuitState

pub record CircuitBreaker : Type 0 where
  pub max_failures : ℕ
  pub reset_timeout : ℕ
  pub half_open_max : ℕ
  pub state : CircuitState
  pub failures : ℕ
  pub successes : ℕ
  pub last_failure : ℕ

-- `NewCircuitBreaker`; the zero time is 0.
unfoldable pub new_circuit_breaker : ℕ → ℕ → ℕ → CircuitBreaker
new_circuit_breaker max_failures reset_timeout half_open_max = record {
  max_failures = max_failures;
  reset_timeout = reset_timeout;
  half_open_max = half_open_max;
  state = circuit_closed;
  failures = 0;
  successes = 0;
  last_failure = 0;
}

-- `allowRequest`
unfoldable pub allow_request : ℕ → CircuitBreaker → CircuitBreaker × Bool
allow_request now cb = elim cb.state [
  | circuit_closed ↦ (cb, true)
  | circuit_half_open ↦ (cb, true)
  | circuit_open ↦
      if ltb (cb.last_failure + cb.reset_timeout) now
      then (record cb { state = circuit_half_open; successes = 0 }, true)
      else (cb, false)
]

-- `recordFailure`
unfoldable pub record_failure : ℕ → CircuitBreaker → CircuitBreaker
record_failure now cb =
    let cb' = record cb { failures = cb.failures + 1; last_failure = now } in
    let opened = record cb' { state = circuit_open } in
    elim cb.state [
      | circuit_half_open ↦ opened
      | circuit_closed ↦ if leb cb.max_failures (cb.failures + 1) then opened else cb'
      | circuit_open ↦ if leb cb.max_failures (cb.failures + 1) then opened else cb'
    ]

-- `recordSuccess`
unfoldable pub record_success : CircuitBreaker → CircuitBreaker
record_success cb =
    let reset = record cb { failures = 0 } in
    elim cb.state [
      | circuit_half_open ↦
          let cb' = record cb { successes = cb.successes + 1 } in
          if leb cb.half_open_max (cb.successes + 1)
          then record cb' { state = circuit_closed; failures = 0 }
          else cb'
      | circuit_closed ↦ reset
      | circuit_open ↦ reset
    ]

-- `Reset`
unfoldable pub reset : CircuitBreaker → CircuitBreaker
reset cb = record cb { state = circuit_closed; failures = 0; successes = 0 }

pub data ExecuteError (E : Type 0) : Type 0 where
  breaker_open : ExecuteError E
  failed : E → ExecuteError E

-- `Execute`, with no other caller between its steps: `fn` is what the function returns, `now` and `later`
-- are the times of the check and of a failure.
unfoldable pub execute :
    {E : Type 0} → ℕ → ℕ → Option E → CircuitBreaker → CircuitBreaker × Option (ExecuteError E)
execute now later fn cb =
    let (cb', allowed) = allow_request now cb in
    if allowed
    then elim fn [
      | none ↦ (record_success cb', none)
      | some e ↦ (record_failure later cb', some (failed e))
    ]
    else (cb', some breaker_open)

-- The steps of any callers.
pub data Event : Type 0 where
  asked : ℕ → Event
  has_failed : ℕ → Event
  has_succeeded was_reset : Event

unfoldable pub apply : Event → CircuitBreaker → CircuitBreaker
apply (asked now) cb = (allow_request now cb).0
apply (has_failed now) cb = record_failure now cb
apply has_succeeded cb = record_success cb
apply was_reset cb = reset cb

unfoldable pub run_events : List Event → CircuitBreaker → CircuitBreaker
unfolding apply
run_events [] cb = cb
run_events (e ∷ es) cb = run_events es (apply e cb)

-- The invariant: a closed breaker has counted fewer failures than open it, and a half-open one fewer
-- successes than close it.
abbrev pub IsValidIn : CircuitState → CircuitBreaker → Type 0
IsValidIn circuit_closed cb = cb.failures < cb.max_failures
IsValidIn circuit_half_open cb = cb.successes < cb.half_open_max
IsValidIn circuit_open cb = Unit

pub record IsValid (cb : CircuitBreaker) : Type 0 where
  pub opens : 0 < cb.max_failures
  pub closes : 0 < cb.half_open_max
  pub counted : IsValidIn cb.state cb

abbrev in_state : CircuitState → CircuitBreaker → CircuitBreaker
in_state s cb = record cb { state = s }

apply-IsValid_in :
    (e : Event) (s : CircuitState) (cb : CircuitBreaker)
    → IsValid (in_state s cb)
    → IsValid (apply e (in_state s cb))
unfolding apply allow_request record_failure record_success reset
apply-IsValid_in (asked now) circuit_closed cb v = v
apply-IsValid_in (asked now) circuit_half_open cb v = v
apply-IsValid_in (asked now) circuit_open cb v =
    if_elim {A = CircuitBreaker × Bool} (λ r. IsValid r.0)
      (ltb (cb.last_failure + cb.reset_timeout) now)
      (λ _. record { opens = v.opens; closes = v.closes; counted = v.closes }) (λ _. v)
apply-IsValid_in (has_failed now) circuit_half_open cb v = record {
  opens = v.opens;
  closes = v.closes;
  counted = tt;
}
apply-IsValid_in (has_failed now) circuit_closed cb v =
    if_elim IsValid (leb cb.max_failures (cb.failures + 1))
      (λ _. record { opens = v.opens; closes = v.closes; counted = tt })
      (λ n. record { opens = v.opens; closes = v.closes; counted = ground arith })
apply-IsValid_in (has_failed now) circuit_open cb v =
    if_elim IsValid (leb cb.max_failures (cb.failures + 1))
      (λ _. record { opens = v.opens; closes = v.closes; counted = tt })
      (λ n. record { opens = v.opens; closes = v.closes; counted = tt })
apply-IsValid_in has_succeeded circuit_closed cb v = record {
  opens = v.opens;
  closes = v.closes;
  counted = v.opens;
}
apply-IsValid_in has_succeeded circuit_open cb v = record {
  opens = v.opens;
  closes = v.closes;
  counted = tt;
}
apply-IsValid_in has_succeeded circuit_half_open cb v =
    if_elim IsValid (leb cb.half_open_max (cb.successes + 1))
      (λ _. record { opens = v.opens; closes = v.closes; counted = v.opens })
      (λ n. record { opens = v.opens; closes = v.closes; counted = ground arith })
apply-IsValid_in was_reset s cb v = record { opens = v.opens; closes = v.closes; counted = v.opens }

run_events-IsValid_from :
    (es : List Event) (cb : CircuitBreaker) → IsValid cb → IsValid (run_events es cb)
unfolding run_events
run_events-IsValid_from [] cb v = v
run_events-IsValid_from (e ∷ es) cb v =
    run_events-IsValid_from es (apply e cb) (apply-IsValid_in e cb.state cb v)

-- After any steps of any callers of a new breaker whose limits are positive, a closed breaker has counted
-- fewer failures than open it and a half-open one fewer successes than close it.
pub run_events-IsValid :
    (es : List Event) (max_failures reset_timeout half_open_max : ℕ)
    → 0 < max_failures
    → 0 < half_open_max
    → IsValid (run_events es (new_circuit_breaker max_failures reset_timeout half_open_max))
unfolding new_circuit_breaker
run_events-IsValid es max_failures reset_timeout half_open_max f c =
    run_events-IsValid_from es (new_circuit_breaker max_failures reset_timeout half_open_max)
      (record { opens = f; closes = c; counted = f })

-- Consecutive failures at the times `ts`.
abbrev pub fail_all : List ℕ → CircuitBreaker → CircuitBreaker
fail_all [] cb = cb
fail_all (t ∷ ts) cb = fail_all ts (record_failure t cb)

fail_all-open :
    (ts : List ℕ) (cb : CircuitBreaker)
    → cb.state ≡ circuit_open
    → (fail_all ts cb).state ≡ circuit_open
unfolding record_failure
fail_all-open [] cb e = e
fail_all-open (t ∷ ts) cb e = fail_all-open ts (record_failure t cb) (ground arith)

-- A closed breaker that sees only failures is open once they have reached the maximum, and closed until
-- then.
pub fail_all-state :
    (ts : List ℕ) (cb : CircuitBreaker)
    → cb.state ≡ circuit_closed
    → cb.failures < cb.max_failures
    → (fail_all ts cb).state
      ≡ (if leb cb.max_failures (cb.failures + length ts) then circuit_open else circuit_closed)
unfolding record_failure
fail_all-state [] cb e lt = ground arith
fail_all-state (t ∷ ts) cb e lt =
    let r = record_failure t cb in
    elim (Bool-cases (leb cb.max_failures (cb.failures + 1))) [
      | inl y ↦ fail_all-open ts r (ground arith) ∙ ground arith
      | inr n ↦ fail_all-state ts r (ground arith) (ground arith) ∙ ground arith
    ]

allow_request-refused :
    (now : ℕ) (cb : CircuitBreaker)
    → cb.state ≡ circuit_open
    → now ≤ cb.last_failure + cb.reset_timeout
    → allow_request now cb ≡ (cb, false)
unfolding allow_request
allow_request-refused now cb o le = ground arith

allow_request-half_open :
    (now : ℕ) (cb : CircuitBreaker)
    → cb.state ≡ circuit_open
    → cb.last_failure + cb.reset_timeout < now
    → allow_request now cb ≡ (record cb { state = circuit_half_open; successes = 0 }, true)
unfolding allow_request
allow_request-half_open now cb o lt = ground arith

-- While it is open and the timeout has not passed since the last failure, `Execute` returns the breaker's
-- error and changes nothing, whatever the function would return.
pub execute-refused :
    {E : Type 0} (now later : ℕ) (fn : Option E) (cb : CircuitBreaker)
    → cb.state ≡ circuit_open
    → now ≤ cb.last_failure + cb.reset_timeout
    → execute now later fn cb ≡ (cb, some breaker_open)
unfolding execute
execute-refused now later fn cb o le = rw (allow_request-refused now cb o le) refl

-- Once the timeout has passed since the last failure, an open breaker calls the function; if it fails, the
-- caller gets its error, the breaker is open again, and the timeout runs from that failure.
pub execute-failed_probe :
    {E : Type 0} (now later : ℕ) (e : E) (cb : CircuitBreaker)
    → cb.state ≡ circuit_open
    → cb.last_failure + cb.reset_timeout < now
    → ((execute now later (some e) cb).1 ≡ some (failed e))
      × ((execute now later (some e) cb).0.state ≡ circuit_open)
      × ((execute now later (some e) cb).0.last_failure ≡ later)
unfolding execute record_failure
execute-failed_probe now later e cb o lt =
    rw (allow_request-half_open now cb o lt) (refl, refl, refl)
