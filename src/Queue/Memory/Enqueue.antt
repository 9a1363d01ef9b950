-- ===== src/Queue/Memory/Enqueue.antt =====
-- `Enqueue` of pkg/queue/memory.go.
use msg2agent.Prelude.{
  ℕ, ◌+◌, ◌<◌, ◌≤◌, Text, ◌==◌, text_eq, ◌≡◌, refl, ap, ◌∙◌, ◌⊎◌, inl, inr, true, false, Bool-cases,
  Option, none, some, [], ◌∷◌, ◌++◌, length, length-append, length-remove_at-le, remove_at, ltb,
  leb, ◌&&◌, is_nil, if_elim, All-append, if◌then◌else◌, text_beq_iff, arith,
}
use msg2agent.Prelude.Dict.{
  get, slice_at, slice_at-put, slice_at-set_slice, AllEntries-put, put-IsUnique, total-put,
  measure-slice_at,
}
use msg2agent.Queue.{Config, QueuedMessage, QueueError, queue_full, queue_closed}
use msg2agent.Queue.Memory.{
  MemoryStore, Oldest, is_at_limit, evict_found, oldest_of, make_room, evict_oldest, append_message,
  enqueue, delete_at,
}
use msg2agent.Queue.Memory.Valid.{OnlyQueue, GoodMessage, GoodQueue, Leaves, Valid, slice_at-good}
use msg2agent.Queue.Memory.Evict.{evict_oldest-oldest, evict_oldest-Valid}

-- A message that may be queued has attempts left.
abbrev pub IsFresh : Config → QueuedMessage → Type 0
IsFresh c m = 0 < c.max_delivery_attempts → m.delivery_attempts < c.max_delivery_attempts

append-Valid :
    (m : QueuedMessage) (s : MemoryStore)
    → Valid s
    → IsFresh s.config m
    → (0 < s.config.max_queue_size
        → length (slice_at m.recipient_did s.queues) < s.config.max_queue_size)
    → Valid (append_message m s)
append-Valid m s v fresh room =
    let did = m.recipient_did in
    let q = slice_at did s.queues in
    let g = slice_at-good s.config s.queues s.total_count v did in
    let n : length (q ++ m ∷ []) ≡ length q + 1 = length-append q (m ∷ []) in
    record {
      unique = put-IsUnique did (q ++ m ∷ []) s.queues v.unique;
      counted = omega (
        arith,
        total-put length did (q ++ m ∷ []) s.queues,
        measure-slice_at did s.queues,
        v.counted,
        n,
      );
      entries = AllEntries-put (GoodQueue s.config) did (q ++ m ∷ []) s.queues v.entries (
        All-append (GoodMessage s.config did) q (m ∷ []) g.0 ((refl, fresh), tt),
        (λ z. omega (arith, room z, n)),
        omega (arith, n),
      );
    }

length-delete_at-le :
    (did j : Text) (i : ℕ) (s : MemoryStore)
    → length (slice_at j (delete_at did i s).queues) ≤ length (slice_at j s.queues)
unfolding delete_at
length-delete_at-le did j i s =
    let q = slice_at did s.queues in
    ground (
      arith,
      slice_at-set_slice did j (remove_at i q) s.queues,
      text_beq_iff did j,
      length-remove_at-le i q,
    )

-- Making room removes at most messages: no queue grows, and the configuration stays.
module _ (s : MemoryStore) where
  evict_oldest-le :
      (j : Text) → length (slice_at j (evict_oldest s).queues) ≤ length (slice_at j s.queues)
  unfolding evict_oldest evict_found
  evict_oldest-le j = go (oldest_of s.queues none)
    where
      go :
          (o : Option Oldest)
          → length (slice_at j (evict_found o s).queues) ≤ length (slice_at j s.queues)
      go none = omega arith
      go (some o) = elim (Bool-cases (is_nil o.did)) [
        | inl y ↦ rw y (omega arith)
        | inr n ↦ rw n (length-delete_at-le o.did j o.idx s)
      ]

  evict_oldest-config : (evict_oldest s).config ≡ s.config
  unfolding evict_oldest delete_at
  evict_oldest-config = ground arith

  pub make_room-le :
      (j : Text) → length (slice_at j (make_room s).queues) ≤ length (slice_at j s.queues)
  unfolding make_room
  make_room-le j = ground (arith, evict_oldest-le j)

  pub make_room-config : (make_room s).config ≡ s.config
  unfolding make_room
  make_room-config = ground (arith, evict_oldest-config)

  pub make_room-Valid : Valid s → Valid (make_room s)
  unfolding make_room
  make_room-Valid v =
      elim (Bool-cases
        (ltb 0 s.config.max_total_messages && leb s.config.max_total_messages s.total_count)) [
          | inl y ↦ rw y (evict_oldest-Valid s v)
          | inr n ↦ rw n v
        ]

-- Where `Enqueue` accepts, the recipient's queue has room after `make_room` too.
room-after :
    (m : QueuedMessage) (s : MemoryStore)
    → is_at_limit m.recipient_did s ≡ false
    → 0 < (make_room s).config.max_queue_size
    → length (slice_at m.recipient_did (make_room s).queues) < (make_room s).config.max_queue_size
room-after m s room p = ground (arith, make_room-le s m.recipient_did, make_room-config s)

-- Every call of `Enqueue` with a fresh message keeps the invariant, whether it is accepted, refused or
-- evicts another message.
pub enqueue-Valid :
    (m : QueuedMessage) (s : MemoryStore) → Valid s → IsFresh s.config m → Valid (enqueue m s).0
unfolding enqueue
enqueue-Valid m s v fresh =
    if_elim Leaves s.closed (λ _. v)
      (λ _.
        if_elim Leaves (is_at_limit m.recipient_did s) (λ _. v)
          (λ room.
            append-Valid m (make_room s) (make_room-Valid s v) (rw (make_room-config s) fresh)
              (room-after m s room)))

-- With nothing queued for the empty DID, an eviction at the limit brings the count below it.
make_room-lt :
    (s : MemoryStore)
    → Valid s
    → get [] s.queues ≡ none
    → 0 < s.config.max_total_messages
    → s.total_count ≤ s.config.max_total_messages
    → (make_room s).total_count < s.config.max_total_messages
unfolding make_room delete_at
make_room-lt s v e p le =
    if_elim {A = MemoryStore} (λ t. t.total_count < s.config.max_total_messages)
      (ltb 0 s.config.max_total_messages && leb s.config.max_total_messages s.total_count)
      (λ y.
        let (did, i, m, here, oldest, only, r) = evict_oldest-oldest s v e (ground arith) in
        rw r (omega arith))
      (λ n. ground arith)

-- On a valid store that is within a positive global limit and has nothing queued for the empty DID,
-- `Enqueue` leaves the store within the limit.
pub enqueue-le-max_total :
    (m : QueuedMessage) (s : MemoryStore)
    → Valid s
    → get [] s.queues ≡ none
    → 0 < s.config.max_total_messages
    → s.total_count ≤ s.config.max_total_messages
    → (enqueue m s).0.total_count ≤ s.config.max_total_messages
unfolding enqueue
enqueue-le-max_total m s v e p le = ground (arith, make_room-lt s v e p le)

-- `Enqueue` refuses exactly a closed store and a full queue, and then changes nothing.
pub enqueue-refused :
    (m : QueuedMessage) (s : MemoryStore) {x : QueueError}
    → (enqueue m s).1 ≡ some x
    → ((enqueue m s).0 ≡ s)
      × (((x ≡ queue_closed) × (s.closed ≡ true))
          ⊎ ((x ≡ queue_full)
              × (0 < s.config.max_queue_size)
              × (s.config.max_queue_size ≤ length (slice_at m.recipient_did s.queues))))
unfolding enqueue
enqueue-refused m s h = ground arith

-- An accepted message is the last of its recipient's queue, behind what `make_room` left there; every
-- other queue is what `make_room` left.
pub enqueue-slice_at :
    (m : QueuedMessage) (s : MemoryStore) (j : Text)
    → (enqueue m s).1 ≡ none
    → slice_at j (enqueue m s).0.queues ≡ (
        if m.recipient_did == j
        then slice_at j (make_room s).queues ++ m ∷ []
        else slice_at j (make_room s).queues)
unfolding enqueue
enqueue-slice_at m s j h = ground (
  arith,
  slice_at-put m.recipient_did j (slice_at m.recipient_did (make_room s).queues ++ m ∷ [])
      (make_room s).queues,
  text_beq_iff m.recipient_did j,
)

-- On an open store at or past a positive global limit whose oldest message is queued for the empty DID,
-- `Enqueue` for a recipient with room succeeds and evicts nothing: the recipient's queue has the message
-- behind what it had, every other queue is as it was, and the store counts one message more and is past
-- the limit.
pub enqueue-past_max_total :
    (m : QueuedMessage) (s : MemoryStore) (o : Oldest)
    → s.closed ≡ false
    → is_at_limit m.recipient_did s ≡ false
    → 0 < s.config.max_total_messages
    → s.config.max_total_messages ≤ s.total_count
    → oldest_of s.queues none ≡ some o
    → is_nil o.did ≡ true
    → ((enqueue m s).1 ≡ none)
      × OnlyQueue s (enqueue m s).0 m.recipient_did (slice_at m.recipient_did s.queues ++ m ∷ [])
      × ((enqueue m s).0.total_count ≡ s.total_count + 1)
      × (s.config.max_total_messages < (enqueue m s).0.total_count)
unfolding enqueue make_room evict_oldest evict_found
enqueue-past_max_total m s o open_ room limited full oldest empty =
    let kept : make_room s ≡ s = ground arith in
    (
      ground arith,
      (λ j.
          enqueue-slice_at m s j (ground arith)
          ∙ ap
              (λ (t : MemoryStore).
                if m.recipient_did == j then slice_at j t.queues ++ m ∷ [] else slice_at j t.queues)
              kept
          ∙ ground (arith, text_beq_iff m.recipient_did j)),
      ground arith,
      ground arith,
    )
