-- ===== src/Billing/Meter/Quota.antt =====
-- What taking and giving back quota does to the counters.
use msg2agent.Prelude.{
  ℕ, Text, text_eq, text_beq_iff, ◌==◌, ◌≡◌, ◌≢◌, ap, sym, ◌∙◌, Bool, true, false, if◌then◌else◌,
  if_elim, arith,
}
use msg2agent.Prelude.Dict.{get-put}
use msg2agent.Prelude.Ints.{ℤ, add, sub, sub-add}
use msg2agent.Billing.Meter.{
  CounterKey, key_eq, key_beq_iff, UsageMeter, counter_key, counter, set_counter, is_over,
  try_consume, release_quota, CallOutcome, quota_error, call_failed, served, QuotaConfig,
  tool_event, tool_limit, after_consume, meter_tool_call,
}

pub counter-set_counter :
    (k j : CounterKey) (n : ℤ) (m : UsageMeter)
    → counter j (set_counter k n m) ≡ (if k == j then n else counter j m)
unfolding counter set_counter
counter-set_counter k j n m = ground (arith, get-put k j n m.counters)

pub counter-set_counter_self :
    (k : CounterKey) (n : ℤ) (m : UsageMeter) → counter k (set_counter k n m) ≡ n
counter-set_counter_self k n m = ground (arith, counter-set_counter k k n m, key_beq_iff k k)

-- What taking quota did: nothing when the limit would be passed, or the counter grew.
abbrev pub Consumed : CounterKey → ℕ → ℕ → UsageMeter → UsageMeter × Bool → Type 0
Consumed k limit delta m (t, true) =
    (is_over limit (add delta (counter k m)) ≡ true)
    × ((j : CounterKey) → counter j t ≡ counter j m)
Consumed k limit delta m (t, false) =
    (is_over limit (counter k t) ≡ false)
    × ((j : CounterKey) → counter j t ≡ (if k == j then add delta (counter k m) else counter j m))

-- Taking quota is refused exactly when the counter would pass a limit that is not 0, and then leaves
-- every counter as it was; else the counter of the tenant, the month and the event grows by the delta, to
-- at most the limit, and every other counter stays.
pub try_consume_lem :
    (period tenant_id event : Text) (limit delta : ℕ) (m : UsageMeter)
    → Consumed
        (counter_key tenant_id period event)
        limit
        delta
        m
        (try_consume period tenant_id event limit delta m)
unfolding try_consume
try_consume_lem period tenant_id event limit delta m =
    let k = counter_key tenant_id period event in
    let n = add delta (counter k m) in
    let m' = set_counter k n m in
    if_elim (Consumed k limit delta m) (is_over limit n)
      (λ over. (
        over,
        λ j. ground (
          arith,
          counter-set_counter k j (sub delta (counter k m')) m',
          counter-set_counter k j n m,
          counter-set_counter_self k n m,
          sub-add delta (counter k m),
          key_beq_iff k j,
        ),
      ))
      (λ under. (
        ap (is_over limit) (counter-set_counter_self k n m) ∙ under,
        λ j. counter-set_counter k j n m,
      ))

-- What a tool call did to the counters, by whether its handler fails and by its outcome.
abbrev pub Called : CounterKey → ℕ → Bool → UsageMeter → UsageMeter × CallOutcome → Type 0
Called k limit fails m (t, quota_error) =
    (is_over limit (add 1 (counter k m)) ≡ true) × ((j : CounterKey) → counter j t ≡ counter j m)
Called k limit true m (t, call_failed) =
    (is_over limit (add 1 (counter k m)) ≡ false) × ((j : CounterKey) → counter j t ≡ counter j m)
Called k limit false m (t, call_failed) = ⊥
Called k limit true m (t, served) = ⊥
Called k limit false m (t, served) =
    (is_over limit (counter k t) ≡ false)
    × ((j : CounterKey) → counter j t ≡ (if k == j then add 1 (counter k m) else counter j m))

after_consume-Called :
    (period tenant_id event : Text) (limit : ℕ) (fails : Bool) (m : UsageMeter)
    (u : UsageMeter × Bool)
    → Consumed (counter_key tenant_id period event) limit 1 m u
    → Called
        (counter_key tenant_id period event)
        limit
        fails
        m
        (after_consume period tenant_id event fails u)
unfolding after_consume release_quota
after_consume-Called period tenant_id event limit fails m (t, true) c = c
after_consume-Called period tenant_id event limit false m (t, false) c = c
after_consume-Called period tenant_id event limit true m (t, false) c =
    let k = counter_key tenant_id period event in
    (
      ap (is_over limit) (sym (c.1 k ∙ ground (arith, key_beq_iff k k))) ∙ c.0,
      λ j. ground (
        arith,
        counter-set_counter k j (sub 1 (counter k t)) t,
        c.1 j,
        c.1 k,
        sub-add 1 (counter k m),
        key_beq_iff k k,
        key_beq_iff k j,
      ),
    )

-- A tool call within one month is refused when it would take the counter of the tenant, the month and the
-- kind of the tool past the limit, and then leaves every counter as it was. Else, when its handler fails,
-- the answer says so and every counter is as it was; and when its handler does not fail, the call is
-- served, that counter is one more, at most the limit, and every other counter stays.
pub meter_tool_call_lem :
    (period tenant_id name : Text) (quota : QuotaConfig) (fails : Bool) (m : UsageMeter)
    → Called
        (counter_key tenant_id period (tool_event name))
        (tool_limit quota name)
        fails
        m
        (meter_tool_call period period tenant_id quota name fails m)
unfolding meter_tool_call
meter_tool_call_lem period tenant_id name quota fails m =
    after_consume-Called period tenant_id (tool_event name) (tool_limit quota name) fails m
      (try_consume period tenant_id (tool_event name) (tool_limit quota name) 1 m)
      (try_consume_lem period tenant_id (tool_event name) (tool_limit quota name) 1 m)

after_consume-rollover :
    (period period' tenant_id event : Text) (limit : ℕ) (m : UsageMeter) (u : UsageMeter × Bool)
    → Consumed (counter_key tenant_id period event) limit 1 m u
    → u.1 ≡ false
    → period ≢ period'
    → let t = (after_consume period' tenant_id event true u).0 in
      (counter (counter_key tenant_id period event) t
        ≡ add 1 (counter (counter_key tenant_id period event) m))
      × (counter (counter_key tenant_id period' event) t
          ≡ sub 1 (counter (counter_key tenant_id period' event) m))
unfolding after_consume release_quota
after_consume-rollover period period' tenant_id event limit m (t, true) c e ne = absurd (cc e)
after_consume-rollover period period' tenant_id event limit m (t, false) c e ne =
    let k = counter_key tenant_id period event in
    let k' = counter_key tenant_id period' event in
    (
      ground (
        arith,
        counter-set_counter k' k (sub 1 (counter k' t)) t,
        c.1 k,
        key_beq_iff k k,
        text_beq_iff period' period,
        (λ (q : period' ≡ period). ne (sym q)),
      ),
      ground (
        arith,
        counter-set_counter k' k' (sub 1 (counter k' t)) t,
        c.1 k',
        key_beq_iff k' k',
        text_beq_iff period period',
      ),
    )

-- A tool call that takes its quota in one month and fails in the next gives the quota back to the wrong
-- month: the counter of the first month keeps the call, and the counter of the second loses one.
pub meter_tool_call-rollover :
    (period period' tenant_id name : Text) (quota : QuotaConfig) (m : UsageMeter)
    → (try_consume period tenant_id (tool_event name) (tool_limit quota name) 1 m).1 ≡ false
    → period ≢ period'
    → let t = (meter_tool_call period period' tenant_id quota name true m).0 in
      (counter (counter_key tenant_id period (tool_event name)) t
        ≡ add 1 (counter (counter_key tenant_id period (tool_event name)) m))
      × (counter (counter_key tenant_id period' (tool_event name)) t
          ≡ sub 1 (counter (counter_key tenant_id period' (tool_event name)) m))
unfolding meter_tool_call
meter_tool_call-rollover period period' tenant_id name quota m e ne =
    after_consume-rollover period period' tenant_id (tool_event name) (tool_limit quota name) m
      (try_consume period tenant_id (tool_event name) (tool_limit quota name) 1 m)
      (try_consume_lem period tenant_id (tool_event name) (tool_limit quota name) 1 m) e ne
