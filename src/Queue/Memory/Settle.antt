-- ===== src/Queue/Memory/Settle.antt =====
-- `Ack` and `Nack` of pkg/queue/memory.go: a message is settled by its id.
use msg2agent.Prelude.{
  ℕ, ◌+◌, ◌-◌, ◌<◌, ◌≤◌, Text, ◌==◌, text_eq, nat_eq, ◌≡◌, ◌≢◌, refl, ap, ◌⊎◌, inl, inr, false,
  Option, none, some, [], ◌∷◌, ◌++◌, length, length-remove_at, length-set, get_elem?, remove_at,
  set, ltb, leb, ◌&&◌, if_elim, All, All-remove_at, All-set, All-get_elem?, if◌then◌else◌,
  text_beq_iff, arith,
}
use msg2agent.Prelude.Dict.{
  slice_at, slice_at_of_some, slice_at-put, slice_at-set_slice, set_slice, put, measure, AllEntries,
  AllEntries-put, put-IsUnique, total-put, length-slice_at-le-total, AllEntries-get,
}
use msg2agent.Queue.{QueuedMessage, DeadLetterMessage, QueueError, not_found}
use msg2agent.Queue.Memory.{MemoryStore, Place, locate, ack_at, ack, nack_at, nack, attempted}
use msg2agent.Queue.Memory.Valid.{
  GoodMessage, GoodQueue, Leaves, IsValid, Valid, set_slice-IsValid, LocatedIn, OnlyQueue,
  locate-LocatedIn,
}

-- Removing a message from the queue where it stands keeps the invariant.
removed-IsValid :
    (s : MemoryStore) (p : Place) (id : ℕ)
    → Valid s
    → LocatedIn id s.queues (some p)
    → IsValid s.config (set_slice p.did (remove_at p.idx p.queue) s.queues) (s.total_count - 1)
removed-IsValid s p id v h =
    let g = AllEntries-get (GoodQueue s.config) p.did s.queues v.entries h.0 in
    let l = length-remove_at p.idx p.queue h.1 in
    let q = slice_at_of_some p.did s.queues h.0 in
    set_slice-IsValid s.config s.queues s.total_count v p.did (remove_at p.idx p.queue)
      (s.total_count - 1)
      (rw q (omega (arith, l, v.counted, length-slice_at-le-total p.did s.queues, ap length q)))
      (λ z. (All-remove_at _ p.idx p.queue g.0, (λ y. omega (arith, g.1 y, l)), z))

-- So does replacing it by one that may stay.
updated-IsValid :
    (s : MemoryStore) (p : Place) (id : ℕ) (m : QueuedMessage)
    → Valid s
    → LocatedIn id s.queues (some p)
    → GoodMessage s.config p.did m
    → IsValid s.config (put p.did (set p.queue p.idx m) s.queues) s.total_count
updated-IsValid s p id m v h good =
    let g = AllEntries-get (GoodQueue s.config) p.did s.queues v.entries h.0 in
    let l = length-set p.queue p.idx m in
    record {
      unique = put-IsUnique p.did (set p.queue p.idx m) s.queues v.unique;
      counted = omega (
        arith,
        total-put length p.did (set p.queue p.idx m) s.queues,
        ap (measure length) h.0,
        l,
        v.counted,
      );
      entries = AllEntries-put (GoodQueue s.config) p.did (set p.queue p.idx m) s.queues v.entries (
        All-set _ p.queue p.idx m g.0 good,
        (λ y. omega (arith, g.1 y, l)),
        omega (arith, g.2, l),
      );
    }

ack_at-Valid :
    (id : ℕ) (o : Option Place) (s : MemoryStore)
    → Valid s
    → LocatedIn id s.queues o
    → Leaves (ack_at o s)
unfolding ack_at
ack_at-Valid id none s v h = v
ack_at-Valid id (some p) s v h = removed-IsValid s p id v h

nack_at-Valid :
    (now id : ℕ) (reason : Text) (o : Option Place) (s : MemoryStore)
    → Valid s
    → LocatedIn id s.queues o
    → Leaves (nack_at now reason o s)
unfolding nack_at
nack_at-Valid now id reason none s v h = v
nack_at-Valid now id reason (some p) s v h =
    let g = AllEntries-get (GoodQueue s.config) p.did s.queues v.entries h.0 in
    let good = All-get_elem? _ p.queue p.idx g.0 h.1 in
    if_elim Valid
      (ltb 0 s.config.max_delivery_attempts
        && leb s.config.max_delivery_attempts (p.msg.delivery_attempts + 1))
      (λ _. removed-IsValid s p id v h)
      (λ stays. updated-IsValid s p id (attempted now p.msg) v h (good.0, (λ z. ground arith)))

pub ack-Valid : (id : ℕ) (s : MemoryStore) → Valid s → Valid (ack id s).0
unfolding ack
ack-Valid id s v =
    if_elim Leaves s.closed (λ _. v)
      (λ _. ack_at-Valid id (locate id s.queues) s v (locate-LocatedIn id s.queues v.unique))

pub nack-Valid :
    (now id : ℕ) (reason : Text) (s : MemoryStore) → Valid s → Valid (nack now id reason s).0
unfolding nack
nack-Valid now id reason s v =
    if_elim Leaves s.closed (λ _. v)
      (λ _.
        nack_at-Valid now id reason (locate id s.queues) s v
          (locate-LocatedIn id s.queues v.unique))

-- The message with that id at place `i` of the queue of `did`.
abbrev pub Holds : MemoryStore → ℕ → Text → ℕ → QueuedMessage → Type 0
Holds s id did i m = (get_elem? (slice_at did s.queues) i ≡ some m) × (m.id ≡ id)

abbrev pub Absent : MemoryStore → ℕ → Type 0
Absent s id = AllEntries (λ did q. All (λ m. m.id ≢ id) q) s.queues

-- What `Ack` does on an open store, for what `locate` returned.
abbrev pub Acked : MemoryStore → ℕ → MemoryStore × Option QueueError → Type 0
Acked s id r =
    ((did : Text) × (i : ℕ) × (m : QueuedMessage) × Holds s id did i m
      × OnlyQueue s r.0 did (remove_at i (slice_at did s.queues))
      × (r.0.dlq ≡ s.dlq)
      × (r.1 ≡ none))
    ⊎ (Absent s id × (r ≡ (s, some not_found)))

ack_at-Acked :
    (id : ℕ) (o : Option Place) (s : MemoryStore)
    → LocatedIn id s.queues o
    → Acked s id (ack_at o s)
unfolding ack_at
ack_at-Acked id none s h = inr (h, refl)
ack_at-Acked id (some p) s h =
    let q = slice_at_of_some p.did s.queues h.0 in
    inl (
      p.did,
      p.idx,
      p.msg,
      (rw q h.1, h.2),
      (λ j. rw q (slice_at-set_slice p.did j (remove_at p.idx p.queue) s.queues)),
      refl,
      refl,
    )

-- `Ack` on an open, valid store removes one message with that id from its queue and nothing else, or
-- reports `ErrNotFound`, changes nothing, and no queued message has that id.
pub ack-Acked : (id : ℕ) (s : MemoryStore) → Valid s → s.closed ≡ false → Acked s id (ack id s)
unfolding ack
ack-Acked id s v open_ =
    if_elim (Acked s id) s.closed (λ y. absurd (cc (y, open_)))
      (λ _. ack_at-Acked id (locate id s.queues) s (locate-LocatedIn id s.queues v.unique))

abbrev pub letter : ℕ → Text → QueuedMessage → DeadLetterMessage
letter now reason m = record {
  message = record m { delivery_attempts = m.delivery_attempts + 1; last_attempt = some now };
  fail_reason = reason;
  moved_at = now;
}

-- A failed message goes back with one more attempt while attempts are left, and else to the dead
-- letters of its recipient, if these are enabled.
abbrev pub Nacked : ℕ → Text → MemoryStore → Text → ℕ → QueuedMessage → MemoryStore → Type 0
Nacked now reason s did i m t =
    let limit = s.config.max_delivery_attempts in
    (((limit ≡ 0) ⊎ (m.delivery_attempts + 1 < limit))
      × OnlyQueue s t did (
          set (slice_at did s.queues) i
            (record m { delivery_attempts = m.delivery_attempts + 1; last_attempt = some now }))
      × (t.dlq ≡ s.dlq)
      × (t.total_count ≡ s.total_count))
    ⊎ ((0 < limit)
        × (limit ≤ m.delivery_attempts + 1)
        × OnlyQueue s t did (remove_at i (slice_at did s.queues))
        × ((j : Text)
            → slice_at j t.dlq ≡ (
                if s.config.enable_dlq && (did == j)
                then slice_at j s.dlq ++ letter now reason m ∷ []
                else slice_at j s.dlq))
        × (t.total_count ≡ s.total_count - 1))

nack_at-Nacked :
    (now id : ℕ) (reason : Text) (p : Place) (s : MemoryStore)
    → LocatedIn id s.queues (some p)
    → Nacked now reason s p.did p.idx p.msg (nack_at now reason (some p) s).0
unfolding nack_at
nack_at-Nacked now id reason p s h =
    let q = slice_at_of_some p.did s.queues h.0 in
    let c = s.config in
    if_elim (Nacked now reason s p.did p.idx p.msg)
      (ltb 0 c.max_delivery_attempts && leb c.max_delivery_attempts (p.msg.delivery_attempts + 1))
      (λ y. inr (
        ground arith,
        ground arith,
        (λ j. rw q (slice_at-set_slice p.did j (remove_at p.idx p.queue) s.queues)),
        (λ j. ground (
          arith,
          text_beq_iff p.did j,
          slice_at-put p.did j (slice_at p.did s.dlq ++ letter now reason p.msg ∷ []) s.dlq,
        )),
        refl,
      ))
      (λ n. inl (
        ground arith,
        (λ j. rw q (slice_at-put p.did j (set p.queue p.idx (attempted now p.msg)) s.queues)),
        refl,
        refl,
      ))

abbrev pub NackResult : ℕ → Text → MemoryStore → ℕ → MemoryStore × Option QueueError → Type 0
NackResult now reason s id r =
    ((did : Text) × (i : ℕ) × (m : QueuedMessage) × Holds s id did i m
      × Nacked now reason s did i m r.0
      × (r.1 ≡ none))
    ⊎ (Absent s id × (r ≡ (s, some not_found)))

nack_at-NackResult :
    (now id : ℕ) (reason : Text) (o : Option Place) (s : MemoryStore)
    → LocatedIn id s.queues o
    → NackResult now reason s id (nack_at now reason o s)
unfolding nack_at
nack_at-NackResult now id reason none s h = inr (h, refl)
nack_at-NackResult now id reason (some p) s h = inl (
  p.did,
  p.idx,
  p.msg,
  (rw (slice_at_of_some p.did s.queues h.0) h.1, h.2),
  nack_at-Nacked now id reason p s h,
  refl,
)

-- `Nack` on an open, valid store: a message with that id gets one more attempt and, if attempts are
-- left, stays at its place with the time of this one, or else leaves its queue and, if dead letters
-- are enabled, becomes the last dead letter of its recipient with the reason; no other queue changes,
-- and nothing changes if no queued message has that id.
pub nack-NackResult :
    (now id : ℕ) (reason : Text) (s : MemoryStore)
    → Valid s
    → s.closed ≡ false
    → NackResult now reason s id (nack now id reason s)
unfolding nack
nack-NackResult now id reason s v open_ =
    if_elim (NackResult now reason s id) s.closed (λ y. absurd (cc (y, open_)))
      (λ _.
        nack_at-NackResult now id reason (locate id s.queues) s
          (locate-LocatedIn id s.queues v.unique))
