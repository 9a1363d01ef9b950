-- ===== src/Billing/Meter.antt =====
-- pkg/billing/meter.go: the usage meter. A counter is an atomic int64, and each of its operations one step.
-- The period of the current month, `periodKey(time.Now().UTC())`, is an argument, read anew by each call.
-- Deltas are not negative, and a limit that is not positive is 0. Notifications, the channel of audit
-- events and the gauges are left out.
pub mod Quota
pub mod Race
pub mod Snapshots
mod Tests
use msg2agent.Prelude.{
  ℕ, Text, text, text_eq, text_beq_iff, ◌==◌, ◌≡◌, ◌↔◌, Bool, true, false, ◌&&◌, ◌||◌, Option, none,
  some, List, [], ◌∷◌, ap, Eq, if◌then◌else◌, nat_beq, ltb, leb, arith,
}
use msg2agent.Prelude.Dict.{Dict, get, put}
use msg2agent.Prelude.Ints.{ℤ, pos, negsuc, add, sub, exceeds}

pub record CounterKey : Type 0 where
  pub tenant_id : Text
  pub period : Text
  pub event : Text

abbrev pub key_beq : CounterKey → CounterKey → Bool
key_beq a b = (a.tenant_id == b.tenant_id) && (a.period == b.period) && (a.event == b.event)

pub key_beq_iff : (a b : CounterKey) → (key_beq a b ≡ true) ↔ (a ≡ b)
key_beq_iff a b = (
  λ h.
      let p : a.tenant_id ≡ b.tenant_id = ground (arith, text_beq_iff a.tenant_id b.tenant_id) in
      let q : a.period ≡ b.period = ground (arith, text_beq_iff a.period b.period) in
      let r : a.event ≡ b.event = ground (arith, text_beq_iff a.event b.event) in
      (λ i. record { tenant_id = p i; period = q i; event = r i }),
  λ e. ground (
    arith,
    text_beq_iff a.tenant_id b.tenant_id,
    text_beq_iff a.period b.period,
    text_beq_iff a.event b.event,
    ap (λ k. k.tenant_id) e,
    ap (λ k. k.period) e,
    ap (λ k. k.event) e,
  ),
)

instance abbrev pub key_eq : Eq CounterKey
key_eq = record { beq = key_beq; beq_iff = key_beq_iff }

pub record UsageMeter : Type 0 where
  pub counters : Dict CounterKey ℤ

unfoldable pub new_usage_meter : UsageMeter
new_usage_meter = record { counters = [] }

abbrev pub counter_key : Text → Text → Text → CounterKey
counter_key tenant_id period event = record {
  tenant_id = tenant_id;
  period = period;
  event = event;
}

abbrev pub count_of : Option ℤ → ℤ
count_of none = pos 0
count_of (some n) = n

-- The value of a counter; one that was not created yet counts from 0.
unfoldable pub counter : CounterKey → UsageMeter → ℤ
counter k m = count_of (get k m.counters)

unfoldable pub set_counter : CounterKey → ℤ → UsageMeter → UsageMeter
set_counter k n m = record { counters = put k n m.counters }

unfoldable pub record_usage : Text → Text → Text → ℕ → UsageMeter → UsageMeter
unfolding counter set_counter add
record_usage period tenant_id event delta m =
    let k = counter_key tenant_id period event in set_counter k (add delta (counter k m)) m

-- `limit > 0 && newVal > limit`
abbrev pub is_over : ℕ → ℤ → Bool
is_over limit n = ltb 0 limit && exceeds n limit

-- The result says whether the quota is exceeded.
unfoldable pub try_consume : Text → Text → Text → ℕ → ℕ → UsageMeter → UsageMeter × Bool
unfolding counter set_counter add sub exceeds
try_consume period tenant_id event limit delta m =
    let k = counter_key tenant_id period event in
    let new_val = add delta (counter k m) in
    let m' = set_counter k new_val m in
    if is_over limit new_val
    then (set_counter k (sub delta (counter k m')) m', true)
    else (m', false)

unfoldable pub release_quota : Text → Text → Text → ℕ → UsageMeter → UsageMeter
unfolding counter set_counter sub
release_quota period tenant_id event delta m =
    let k = counter_key tenant_id period event in set_counter k (sub delta (counter k m)) m

unfoldable pub current : Text → Text → Text → UsageMeter → ℤ
unfolding counter
current period tenant_id event m = counter (counter_key tenant_id period event) m

-- `current >= limit`
abbrev pub is_reached : ℤ → ℕ → Bool
is_reached (pos n) limit = leb limit n
is_reached (negsuc n) limit = false

-- `limit <= 0` passes; the result says whether the limit is reached.
unfoldable pub check_quota : Text → Text → Text → ℕ → UsageMeter → Bool
unfolding current
check_quota period tenant_id event limit m =
    if nat_beq limit 0 then false else is_reached (current period tenant_id event m) limit

-- The loop of `ResetTenant`.
unfoldable pub reset_counters : Text → Text → Dict CounterKey ℤ → Dict CounterKey ℤ
reset_counters tenant_id period [] = []
reset_counters tenant_id period ((k, n) ∷ rest) =
    let rest' = reset_counters tenant_id period rest in
    if (k.tenant_id == tenant_id) && (k.period == period)
    then (k, pos 0) ∷ rest'
    else (k, n) ∷ rest'

unfoldable pub reset_tenant : Text → Text → UsageMeter → UsageMeter
unfolding reset_counters
reset_tenant period tenant_id m = record { counters = reset_counters tenant_id period m.counters }

-- A snapshot is the key of a counter and its count.
abbrev pub UsageSnapshot : Type 0
UsageSnapshot = CounterKey × ℤ

-- `Snapshot`: the counters above 0.
unfoldable pub above_zero : Dict CounterKey ℤ → List UsageSnapshot
unfolding exceeds
above_zero [] = []
above_zero ((k, n) ∷ rest) =
    let rest' = above_zero rest in if exceeds n 0 then (k, n) ∷ rest' else rest'

unfoldable pub snapshot : UsageMeter → List UsageSnapshot
unfolding above_zero
snapshot m = above_zero m.counters

-- `RestoreFromAggregates` with the snapshots that `LoadAggregates` returned: a counter that is there stays.
unfoldable pub restore : List UsageSnapshot → UsageMeter → UsageMeter
restore [] m = m
restore ((k, n) ∷ rest) m =
    restore rest
      (elim (get k m.counters) [ some v ↦ m | none ↦ record { counters = put k n m.counters } ])

pub data CallOutcome : Type 0 where
  quota_error call_failed served : CallOutcome

-- The rates of the token bucket, which are float64, are left out.
pub record QuotaConfig : Type 0 where
  pub max_agent_dids : ℕ
  pub max_messages_per_month : ℕ
  pub max_tool_calls_per_month : ℕ

-- `messageTools`
unfoldable pub is_message_tool : Text → Bool
is_message_tool name =
    (name == text "send_message")
    || (name == text "submit_task")
    || (name == text "send_task_input")

unfoldable pub tool_event : Text → Text
unfolding is_message_tool
tool_event name = if is_message_tool name then text "message" else text "tool_call"

unfoldable pub tool_limit : QuotaConfig → Text → ℕ
unfolding is_message_tool
tool_limit quota name =
    if is_message_tool name then quota.max_messages_per_month else quota.max_tool_calls_per_month

-- What follows the taking of quota: `fails` says whether `next` returned an error.
unfoldable pub after_consume :
    Text → Text → Text → Bool → UsageMeter × Bool → UsageMeter × CallOutcome
unfolding release_quota
after_consume period tenant_id event fails (m, true) = (m, quota_error)
after_consume period tenant_id event fails (m, false) =
    if fails then (release_quota period tenant_id event 1 m, call_failed) else (m, served)

-- A tool call through `MCPToolMeterMiddleware` with a tenant and a meter; the periods are those when the quota is taken and when it
-- is given back.
unfoldable pub meter_tool_call :
    Text → Text → Text → QuotaConfig → Text → Bool → UsageMeter → UsageMeter × CallOutcome
unfolding tool_event tool_limit try_consume after_consume
meter_tool_call period period' tenant_id quota name fails m =
    let event = tool_event name in
    after_consume period' tenant_id event fails
      (try_consume period tenant_id event (tool_limit quota name) 1 m)
