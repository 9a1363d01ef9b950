-- ===== src/Billing/Meter/Tests.antt =====
-- Concrete runs of the usage meter.
use msg2agent.Prelude.{
  ◌+◌, if◌then◌else◌, Text, text, text_eq, text_beq_iff, ◌==◌, ◌&&◌, ◌<◌, ◌≤◌, ◌≡◌, refl, true,
  false, none, [], ◌∷◌,
}
use msg2agent.Prelude.Dict.{get, IsUnique}
use msg2agent.Prelude.Ints.{pos, add, sub, exceeds}
use msg2agent.Billing.Meter.{
  CounterKey, key_eq, UsageMeter, counter_key, counter, current, QuotaConfig, tool_event,
  tool_limit, is_message_tool, try_consume, meter_tool_call, reset_tenant, snapshot,
}
use msg2agent.Billing.Meter.Quota.{Called, meter_tool_call_lem, meter_tool_call-rollover}
use msg2agent.Billing.Meter.Race.{
  Shared, unused, Steps, IsQuiet, here, next, take, reset_counter, refuse, granted_within_limit,
}
use msg2agent.Billing.Meter.Snapshots.{reset_tenant-snapshot}

abbrev july : Text
july = text "2026-07"

abbrev august : Text
august = text "2026-08"

abbrev calls : CounterKey
calls = counter_key (text "t1") july (text "tool_call")

abbrev meter : UsageMeter
meter = record { counters = (calls, pos 4) ∷ [] }

abbrev quota : QuotaConfig
quota = record { max_agent_dids = 5; max_messages_per_month = 3; max_tool_calls_per_month = 5 }

meter_tool_call_lem_example :
    Called
      (counter_key (text "t1") july (tool_event (text "list_agents")))
      (tool_limit quota (text "list_agents"))
      true
      meter
      (meter_tool_call july july (text "t1") quota (text "list_agents") true meter)
meter_tool_call_lem_example =
    meter_tool_call_lem july (text "t1") (text "list_agents") quota true meter

under_quota :
    (try_consume july
      (text "t1")
      (tool_event (text "list_agents"))
      (tool_limit quota (text "list_agents"))
      1
      meter).1
    ≡ false
unfolding try_consume tool_event tool_limit is_message_tool counter get add exceeds
under_quota = refl

meter_tool_call-rollover_example :
    let t = (meter_tool_call july august (text "t1") quota (text "list_agents") true meter).0 in
    (counter (counter_key (text "t1") july (tool_event (text "list_agents"))) t
      ≡ add 1 (counter (counter_key (text "t1") july (tool_event (text "list_agents"))) meter))
    × (counter (counter_key (text "t1") august (tool_event (text "list_agents"))) t
        ≡ sub 1 (counter (counter_key (text "t1") august (tool_event (text "list_agents"))) meter))
meter_tool_call-rollover_example =
    meter_tool_call-rollover july august (text "t1") (text "list_agents") quota meter under_quota
      (λ e. let q : false ≡ true = (text_beq_iff july august).1 e in absurd (cc q))

meter-IsUnique : IsUnique meter.counters
unfolding get
meter-IsUnique = (refl, tt)

reset_tenant-snapshot_example :
    let t = reset_tenant july (text "t1") meter in
    ((event : Text) → current july (text "t1") event t ≡ pos 0)
    × ((event : Text) → get (counter_key (text "t1") july event) (snapshot t) ≡ none)
    × ((k : CounterKey)
        → ((k.tenant_id == text "t1") && (k.period == july)) ≡ false
        → counter k t ≡ counter k meter)
reset_tenant-snapshot_example = reset_tenant-snapshot july (text "t1") meter meter-IsUnique

abbrev after_take : Shared
after_take = record unused { value = pos 1; running = 1 }

abbrev during_refusal : Shared
during_refusal = record after_take { value = pos 2; pending = 1 }

one_of_two : Steps 1 unused during_refusal
unfolding add exceeds
one_of_two = next (next here (take unused refl)) (refuse after_take refl)

one_of_two-IsQuiet : IsQuiet one_of_two
unfolding one_of_two
one_of_two-IsQuiet = ((tt, refl), refl)

-- With a reset between two calls that run, both are within a limit of one.
two_of_one : Steps 1 unused (record unused { value = pos 1; running = 2 })
unfolding add exceeds
two_of_one =
    next (next (next here (take unused refl)) (reset_counter after_take))
      (take (record after_take { value = pos 0 }) refl)

abbrev shared_meter : UsageMeter
shared_meter = record { counters = (calls, pos 2) ∷ [] }

granted_within_limit_example :
    (0 < 1 → during_refusal.running + during_refusal.served ≤ 1)
    × (during_refusal.value
        ≡ pos (
            during_refusal.running + during_refusal.served + during_refusal.recorded
            + during_refusal.pending))
    × (let (m', refused) = try_consume july (text "t1") (text "tool_call") 1 1 shared_meter in
        (t : Shared) × (r' : Steps 1 unused t) × IsQuiet r'
        × (counter (counter_key (text "t1") july (text "tool_call")) m' ≡ t.value)
        × (t.running ≡ (if refused then during_refusal.running else during_refusal.running + 1))
        × (t.pending ≡ during_refusal.pending))
unfolding counter get
granted_within_limit_example =
    granted_within_limit 1 during_refusal one_of_two one_of_two-IsQuiet july (text "t1")
      (text "tool_call") shared_meter refl
