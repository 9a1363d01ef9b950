-- ===== src/Billing/Rollover.antt =====
-- `checkRollover` of pkg/billing/meter.go, which the hourly checker calls. A reading of the clock is the
-- time, the day of the month and the hour; ListTenants of the in-memory store does not fail. Logging is
-- left out.
mod Tests
use msg2agent.Prelude.{
  ℕ, Text, text_eq, ◌==◌, ◌≡◌, ◌≤◌, refl, inl, inr, Bool, true, false, ◌&&◌, ◌||◌, Option-cases,
  Option, none, some, List, [], ◌∷◌, if◌then◌else◌, nat_eq, ltb, arith, text_beq_iff,
}
use msg2agent.Prelude.Ints.{pos}
use msg2agent.Billing.Meter.{CounterKey, UsageMeter, counter, counter_key, reset_tenant}
use msg2agent.Billing.Meter.Snapshots.{is_reset, get-reset_counters}
use msg2agent.Billing.Store.{Tenant, MemoryStore, is_past, list_tenants}

pub record Clock : Type 0 where
  pub now : ℕ
  pub day : ℕ
  pub hour : ℕ

-- `t.CurrentPeriodEnd != nil && now.After(*t.CurrentPeriodEnd)`, or for a tenant without one
-- `now.Day() == 1 && now.Hour() == 0`.
abbrev pub rolls_over : Clock → Option ℕ → Bool
rolls_over c none = (c.day == 1) && (c.hour == 0)
rolls_over c (some period_end) = ltb period_end c.now

unfoldable pub check_tenants : Text → Clock → List Tenant → UsageMeter → UsageMeter
unfolding reset_tenant
check_tenants period c [] m = m
check_tenants period c (t ∷ rest) m =
    check_tenants period c rest
      (if rolls_over c t.current_period_end then reset_tenant period t.id m else m)

-- What the check leaves of the store and of the meter: it calls ListTenants and ResetTenant only.
unfoldable pub check_rollover : Text → Clock → MemoryStore → UsageMeter → MemoryStore × UsageMeter
unfolding check_tenants list_tenants
check_rollover period c store m = (store, check_tenants period c (list_tenants store) m)

-- Some tenant of the list with the identifier rolls over.
abbrev pub is_due : Clock → Text → List Tenant → Bool
is_due c id [] = false
is_due c id (t ∷ rest) = ((t.id == id) && rolls_over c t.current_period_end) || is_due c id rest

counter-reset_tenant :
    (period id : Text) (k : CounterKey) (m : UsageMeter)
    → counter k (reset_tenant period id m) ≡ (if is_reset id period k then pos 0 else counter k m)
unfolding counter reset_tenant
counter-reset_tenant period id k m = ground (arith, get-reset_counters id period k m.counters)

counter-check_tenants :
    (period : Text) (c : Clock) (k : CounterKey) (l : List Tenant) (m : UsageMeter)
    → counter k (check_tenants period c l m)
      ≡ (if is_due c k.tenant_id l && (k.period == period) then pos 0 else counter k m)
unfolding check_tenants
counter-check_tenants period c k [] m = refl
counter-check_tenants period c k (t ∷ rest) m = ground (
  arith,
  counter-check_tenants period c k rest m,
  counter-check_tenants period c k rest (reset_tenant period t.id m),
  counter-reset_tenant period t.id k m,
  text_beq_iff t.id k.tenant_id,
  text_beq_iff k.tenant_id t.id,
)

-- A check of the rollover sets to 0 the counters of the month of the tenants that are due, those with a
-- period that has ended and, in the first hour of the first day of a month, those without one, and
-- changes no other.
pub check_rollover_lem :
    (period : Text) (c : Clock) (store : MemoryStore) (m : UsageMeter) (k : CounterKey)
    → counter k (check_rollover period c store m).1 ≡ (
        if is_due c k.tenant_id (list_tenants store) && (k.period == period)
        then pos 0
        else counter k m)
unfolding check_rollover
check_rollover_lem period c store m k = counter-check_tenants period c k (list_tenants store) m

-- Some tenant of the list with the identifier has a period that has ended.
abbrev pub is_overdue : ℕ → Text → List Tenant → Bool
is_overdue now id [] = false
is_overdue now id (t ∷ rest) =
    ((t.id == id) && is_past now t.current_period_end) || is_overdue now id rest

is_overdue-is_due :
    (now : ℕ) (id : Text) (c : Clock) (l : List Tenant)
    → now ≤ c.now
    → is_overdue now id l ≡ true
    → is_due c id l ≡ true
is_overdue-is_due now id c [] le h = ground arith
is_overdue-is_due now id c (t ∷ rest) le h = elim (Option-cases t.current_period_end) [
  | inl e ↦ ground (arith, is_overdue-is_due now id c rest le)
  | inr (period_end, e) ↦ ground (arith, is_overdue-is_due now id c rest le)
]

counter-is_overdue :
    (period : Text) (now : ℕ) (c : Clock) (store : MemoryStore) (m : UsageMeter) (id event : Text)
    → is_overdue now id (list_tenants store) ≡ true
    → now ≤ c.now
    → counter (counter_key id period event) (check_rollover period c store m).1 ≡ pos 0
counter-is_overdue period now c store m id event h le = ground (
  arith,
  check_rollover_lem period c store m (counter_key id period event),
  is_overdue-is_due now id c (list_tenants store) le h,
  text_beq_iff period period,
)

-- Two checks in a row, from a store with a tenant whose period has ended: the first sets the counters of
-- the tenant for the month to 0, and so does the second, at the same time or later, with the store that
-- the first left, whatever was used in between.
pub check_rollover-again :
    (period : Text) (c later : Clock) (store : MemoryStore) (m m' : UsageMeter) (id event : Text)
    → is_overdue c.now id (list_tenants store) ≡ true
    → c.now ≤ later.now
    → let (store', t) = check_rollover period c store m in
      (counter (counter_key id period event) t ≡ pos 0)
      × (counter (counter_key id period event) (check_rollover period later store' m').1 ≡ pos 0)
unfolding check_rollover
check_rollover-again period c later store m m' id event h le = (
  counter-is_overdue period c.now c store m id event h (omega arith),
  counter-is_overdue period c.now later store m' id event h le,
)
