-- ===== src/Billing/Meter/Race.antt =====
-- Concurrent use of one counter, that of a tenant, a month and a kind of tool: the tool calls, which take
-- and give back 1, and everything else in pkg/billing/meter.go that changes the counter. Each `Add` or
-- `Store` of the atomic counter is a step; between the `Add` of a call that is refused and the `Add` that
-- takes it back, anything else runs.
use msg2agent.Prelude.{
  Text, if◌then◌else◌, ℕ, ◌+◌, ◌-◌, ◌<◌, ◌≤◌, ◌≡◌, refl, ap, sym, ◌∙◌, Bool, true, false, arith,
}
use msg2agent.Prelude.Ints.{ℤ, pos, add, sub, sub-add, exceeds}
use msg2agent.Billing.Meter.{
  CounterKey, key_eq, key_beq_iff, UsageMeter, counter_key, counter, is_over, try_consume,
}
use msg2agent.Billing.Meter.Quota.{Consumed, try_consume_lem}

-- The counter; the refused calls that have not yet taken their 1 back, the calls whose handler runs and
-- the calls that were served; and what `Record` added.
pub record Shared : Type 0 where
  pub value : ℤ
  pub pending : ℕ
  pub running : ℕ
  pub served : ℕ
  pub recorded : ℕ

abbrev pub unused : Shared
unused = record { value = pos 0; pending = 0; running = 0; served = 0; recorded = 0 }

-- The index says whether the step is neither a reset nor the release of quota that was not taken from
-- the counter as it stands.
pub data Step (limit : ℕ) : Bool → Shared → Shared → Type 0 where
  -- `TryConsume` adds and finds the sum within the limit: the handler runs.
  take :
      (s : Shared)
      → is_over limit (add 1 s.value) ≡ false
      → Step limit true s (record s { value = add 1 s.value; running = s.running + 1 })
  -- `TryConsume` adds and finds the sum past the limit.
  refuse :
      (s : Shared)
      → is_over limit (add 1 s.value) ≡ true
      → Step limit true s (record s { value = add 1 s.value; pending = s.pending + 1 })
  -- `c.Add(-delta)` of a call that is refused.
  roll_back :
      (s : Shared)
      → 0 < s.pending
      → Step limit true s (record s { value = sub 1 s.value; pending = s.pending - 1 })
  -- The handler of a call returns without an error.
  finish :
      (s : Shared)
      → 0 < s.running
      → Step limit true s (record s { running = s.running - 1; served = s.served + 1 })
  -- The handler of a call fails: `ReleaseQuota`.
  give_back :
      (s : Shared)
      → 0 < s.running
      → Step limit true s (record s { value = sub 1 s.value; running = s.running - 1 })
  -- `Record`, also by way of `RecordAudit`, tests no limit.
  record_delta :
      (s : Shared) (delta : ℕ)
      → Step limit true s (record s { value = add delta s.value; recorded = s.recorded + delta })
  -- `ReleaseQuota` of a call that took its quota in another month.
  release_other : (s : Shared) → Step limit false s (record s { value = sub 1 s.value })
  -- `c.Store(0)` of `ResetTenant`.
  reset_counter : (s : Shared) → Step limit false s (record s { value = pos 0 })

pub data Steps (limit : ℕ) (s : Shared) : Shared → Type 0 where
  here : Steps limit s s
  next : {b : Bool} {t u : Shared} → Steps limit s t → Step limit b t u → Steps limit s u

-- A run without resets and without releases of quota that was taken in another month.
abbrev pub IsQuiet : {limit : ℕ} {s t : Shared} → Steps limit s t → Type 0
IsQuiet here = Unit
IsQuiet (next {b} r c) = IsQuiet r × (b ≡ true)

-- A counter of the meter next to the state of its calls, which a quiet run has led to.
module _ (period tenant_id event : Text) (limit : ℕ) (m : UsageMeter) (s : Shared)
    (r : Steps limit unused s) (q : IsQuiet r) where
  abbrev key : CounterKey
  key = counter_key tenant_id period event

  -- What the meter and the answer of a call are, a quiet run leads to.
  abbrev Reached : UsageMeter × Bool → Type 0
  Reached (m', refused) =
      (t : Shared) × (r' : Steps limit unused t) × IsQuiet r'
      × (counter key m' ≡ t.value)
      × (t.running ≡ (if refused then s.running else s.running + 1))
      × (t.pending ≡ s.pending)

  Consumed-Reached :
      (u : UsageMeter × Bool) → s.value ≡ counter key m → Consumed key limit 1 m u → Reached u
  Consumed-Reached (m', true) e (over, same) =
      let added = record s { value = add 1 s.value; pending = s.pending + 1 } in
      (
        record s { value = sub 1 (add 1 s.value); pending = s.pending + 1 - 1 },
        next (next r (refuse s (ap (λ v. is_over limit (add 1 v)) e ∙ over)))
            (roll_back added (omega arith)),
        ((q, refl), refl),
        same key ∙ sym e ∙ sym (sub-add 1 s.value),
        refl,
        omega arith,
      )
  Consumed-Reached (m', false) e (under, grown) =
      let one : counter key m' ≡ add 1 s.value =
        grown key ∙ ground (arith, key_beq_iff key key) ∙ ap (add 1) (sym e) in
      (
        record s { value = add 1 s.value; running = s.running + 1 },
        next r (take s (ap (is_over limit) (sym one) ∙ under)),
        (q, refl),
        one,
        refl,
        refl,
      )

-- The counter is what was taken and what was recorded, and no more than the limit was taken.
pub record IsExact (limit : ℕ) (s : Shared) : Type 0 where
  pub exact : s.value ≡ pos (s.running + s.served + s.recorded + s.pending)
  pub within : 0 < limit → s.running + s.served ≤ limit

add_pos : (d n k : ℕ) (v : ℤ) → v ≡ pos n → n + d ≡ k → add d v ≡ pos k
unfolding add
add_pos d n k v e h = ap (add d) e ∙ ap pos h

sub_pos : (d n k : ℕ) (v : ℤ) → v ≡ pos n → n ≡ k + d → sub d v ≡ pos k
unfolding sub
sub_pos d n k v e h = ap (sub d) e ∙ ground arith

under_limit : (limit n : ℕ) → is_over limit (pos n) ≡ false → 0 < limit → n ≤ limit
unfolding exceeds
under_limit limit n h l = ground arith

step-IsExact :
    (limit : ℕ) (b : Bool) (s t : Shared)
    → Step limit b s t
    → b ≡ true
    → IsExact limit s
    → IsExact limit t
step-IsExact limit _ _ _ (take s h) q v =
    let n = s.running + s.served + s.recorded + s.pending in
    let e = add_pos 1 n (n + 1) s.value v.exact refl in
    record {
      exact = e ∙ ap pos (omega arith);
      within =
          λ l. let u = under_limit limit (n + 1) (ap (is_over limit) (sym e) ∙ h) l in omega arith;
    }
step-IsExact limit _ _ _ (refuse s h) q v = record {
  exact =
      add_pos 1 (s.running + s.served + s.recorded + s.pending)
        (s.running + s.served + s.recorded + (s.pending + 1)) s.value v.exact (omega arith);
  within = v.within;
}
step-IsExact limit _ _ _ (roll_back s h) q v = record {
  exact =
      sub_pos 1 (s.running + s.served + s.recorded + s.pending)
        (s.running + s.served + s.recorded + (s.pending - 1)) s.value v.exact (omega arith);
  within = v.within;
}
step-IsExact limit _ _ _ (finish s h) q v = record {
  exact = v.exact ∙ ap pos (omega arith);
  within = λ l. omega (arith, v.within l);
}
step-IsExact limit _ _ _ (give_back s h) q v = record {
  exact =
      sub_pos 1 (s.running + s.served + s.recorded + s.pending)
        (s.running - 1 + s.served + s.recorded + s.pending) s.value v.exact (omega arith);
  within = λ l. omega (arith, v.within l);
}
step-IsExact limit _ _ _ (record_delta s delta) q v = record {
  exact =
      add_pos delta (s.running + s.served + s.recorded + s.pending)
        (s.running + s.served + (s.recorded + delta) + s.pending) s.value v.exact (omega arith);
  within = v.within;
}
step-IsExact limit _ _ _ (release_other s) q v = absurd (cc q)
step-IsExact limit _ _ _ (reset_counter s) q v = absurd (cc q)

Steps-IsExact : (limit : ℕ) (s : Shared) (r : Steps limit unused s) → IsQuiet r → IsExact limit s
Steps-IsExact limit _ here q = record { exact = refl; within = λ l. omega arith }
Steps-IsExact limit _ (next {b} {t} {u} r c) q =
    step-IsExact limit b t u c q.1 (Steps-IsExact limit t r q.0)

-- However the tool calls and the recordings on an unused counter interleave, as long as the counter is
-- not reset and no call gives back quota that it took in another month: when there is a limit, the calls
-- that run and those that were served are together at most the limit, and the counter is their number,
-- with what was recorded and one for each refused call that has not yet taken its 1 back. From there,
-- `TryConsume` of 1 on a meter with that counter leads to such a state again, in which one call more runs
-- if it was not refused.
pub granted_within_limit :
    (limit : ℕ) (s : Shared) (r : Steps limit unused s)
    → IsQuiet r
    → (period tenant_id event : Text) (m : UsageMeter)
    → s.value ≡ counter (counter_key tenant_id period event) m
    → (0 < limit → s.running + s.served ≤ limit)
      × (s.value ≡ pos (s.running + s.served + s.recorded + s.pending))
      × (let (m', refused) = try_consume period tenant_id event limit 1 m in
          (t : Shared) × (r' : Steps limit unused t) × IsQuiet r'
          × (counter (counter_key tenant_id period event) m' ≡ t.value)
          × (t.running ≡ (if refused then s.running else s.running + 1))
          × (t.pending ≡ s.pending))
granted_within_limit limit s r q period tenant_id event m e =
    let v = Steps-IsExact limit s r q in
    (
      v.within,
      v.exact,
      Consumed-Reached period tenant_id event limit m s r q
          (try_consume period tenant_id event limit 1 m) e
          (try_consume_lem period tenant_id event limit 1 m),
    )
