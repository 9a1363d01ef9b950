-- ===== src/Billing/Rollover/Tests.antt =====
-- Concrete runs of the check of the rollover.
use msg2agent.Prelude.{text, text_eq, ◌≡◌, refl, none, some, [], ◌∷◌, arith, nat_eq}
use msg2agent.Prelude.Dict.{put}
use msg2agent.Prelude.Ints.{pos}
use msg2agent.Billing.Meter.{CounterKey, UsageMeter, counter_key, counter}
use msg2agent.Billing.Store.{
  Tenant, MemoryStore, new_memory_store, put_tenant, list_tenants, hardcoded_quota, starter, active,
}
use msg2agent.Billing.Rollover.{Clock, check_rollover, check_rollover-again}

abbrev tenant : Tenant
tenant = record {
  id = text "t1";
  name = [];
  email = [];
  plan = starter;
  status = active;
  quota = hardcoded_quota starter;
  created_at = 1;
  updated_at = 1;
  stripe_customer_id = [];
  stripe_subscription_id = [];
  current_period_end = some 5;
  billing_status = [];
  email_verified_at = none;
}

abbrev store : MemoryStore
store = put_tenant tenant new_memory_store

abbrev clock : Clock
clock = record { now = 20; day = 3; hour = 7 }

abbrev meter : UsageMeter
meter = record {
  counters = (counter_key (text "t1") (text "2026-07") (text "message"), pos 4) ∷ [];
}

-- One hour after `clock`, with 9 messages more.
abbrev hour_later : Clock
hour_later = record { now = 21; day = 3; hour = 8 }

abbrev key : CounterKey
key = counter_key (text "t1") (text "2026-07") (text "message")

abbrev used_again : UsageMeter
used_again = record { counters = (key, pos 9) ∷ [] }

check_rollover-again_example :
    let (store', t) = check_rollover (text "2026-07") clock store meter in
    (counter key t ≡ pos 0)
    × (counter key (check_rollover (text "2026-07") hour_later store' used_again).1 ≡ pos 0)
unfolding list_tenants put_tenant new_memory_store put
check_rollover-again_example =
    check_rollover-again (text "2026-07") clock hour_later store meter used_again (text "t1")
      (text "message") refl (omega arith)
