-- ===== src/Billing/Meter/Snapshots.antt =====
-- Snapshots of the counters, and what a reset leaves in them.
use msg2agent.Prelude.{
  Text, text_eq, text_beq_iff, ◌==◌, ◌≡◌, refl, ap, inl, inr, Bool, false, ◌&&◌, Bool-cases, Option,
  none, some, [], ◌∷◌, if◌then◌else◌, arith,
}
use msg2agent.Prelude.Dict.{Dict, get, IsUnique}
use msg2agent.Prelude.Ints.{ℤ, pos, exceeds}
use msg2agent.Billing.Meter.{
  CounterKey, key_eq, key_beq_iff, UsageMeter, counter_key, counter, current, reset_counters,
  reset_tenant, above_zero, snapshot,
}

-- The count if it is above 0.
abbrev pub if_above_zero : Option ℤ → Option ℤ
if_above_zero none = none
if_above_zero (some n) = if exceeds n 0 then some n else none

get-above_zero :
    (k : CounterKey) (d : Dict CounterKey ℤ)
    → IsUnique d
    → get k (above_zero d) ≡ if_above_zero (get k d)
unfolding above_zero get
get-above_zero k [] u = refl
get-above_zero k ((j, n) ∷ d) u = ground (arith, get-above_zero k d u.1, key_beq_iff j k)

abbrev pub is_reset : Text → Text → CounterKey → Bool
is_reset tenant_id period k = (k.tenant_id == tenant_id) && (k.period == period)

pub get-reset_counters :
    (tenant_id period : Text) (k : CounterKey) (d : Dict CounterKey ℤ)
    → get k (reset_counters tenant_id period d) ≡ elim (get k d) [
      | none ↦ none
      | some n ↦ if is_reset tenant_id period k then some (pos 0) else some n
    ]
unfolding get reset_counters
get-reset_counters tenant_id period k [] = refl
get-reset_counters tenant_id period k ((j, n) ∷ d) = elim (Bool-cases (j == k)) [
  | inl y ↦
      (let e : j ≡ k = (key_beq_iff j k).0 y in
        ground (arith, get-reset_counters tenant_id period k d, ap (is_reset tenant_id period) e))
  | inr z ↦ ground (arith, get-reset_counters tenant_id period k d)
]

reset_counters-IsUnique :
    (tenant_id period : Text) (d : Dict CounterKey ℤ)
    → IsUnique d
    → IsUnique (reset_counters tenant_id period d)
unfolding reset_counters
reset_counters-IsUnique tenant_id period [] u = tt
reset_counters-IsUnique tenant_id period ((k, n) ∷ d) u =
    ground (
      arith,
      reset_counters-IsUnique tenant_id period d u.1,
      get-reset_counters tenant_id period k d,
    )

-- A reset sets every counter of the tenant for the month to 0 and changes no other; the next snapshot has
-- no entry for the counters that were reset, so nothing tells a store of the reset. No counter of the
-- meter stands twice.
pub reset_tenant-snapshot :
    (period tenant_id : Text) (m : UsageMeter)
    → IsUnique m.counters
    → let t = reset_tenant period tenant_id m in
      ((event : Text) → current period tenant_id event t ≡ pos 0)
      × ((event : Text) → get (counter_key tenant_id period event) (snapshot t) ≡ none)
      × ((k : CounterKey) → is_reset tenant_id period k ≡ false → counter k t ≡ counter k m)
unfolding current counter reset_tenant snapshot exceeds
reset_tenant-snapshot period tenant_id m u =
    let d = reset_counters tenant_id period m.counters in
    (
      λ event.
          let k = counter_key tenant_id period event in
          ground (
            arith,
            get-reset_counters tenant_id period k m.counters,
            text_beq_iff tenant_id tenant_id,
            text_beq_iff period period,
          ),
      λ event.
          let k = counter_key tenant_id period event in
          ground (
            arith,
            get-above_zero k d (reset_counters-IsUnique tenant_id period m.counters u),
            get-reset_counters tenant_id period k m.counters,
            text_beq_iff tenant_id tenant_id,
            text_beq_iff period period,
          ),
      λ k n. ground (arith, get-reset_counters tenant_id period k m.counters),
    )
