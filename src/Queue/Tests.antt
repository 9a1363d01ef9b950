-- ===== src/Queue/Tests.antt =====
-- Concrete runs of the in-memory queue store: three messages for two recipients.
use msg2agent.Prelude.{
  ◌+◌, ◌++◌, ℕ, Text, text, text_eq, ◌≡◌, refl, true, false, none, some, List, [], ◌∷◌, ok, err,
  ◌<◌, ◌≤◌, arith,
}
use msg2agent.Prelude.Dict.{get, total, slice_at}
use msg2agent.Prelude.Sort.{SortFunc, insertion_sort, insert_sorted, by_insertion}
use msg2agent.Queue.{Config, QueuedMessage, queue_closed}
use msg2agent.Queue.Memory.{
  MemoryStore, new_memory_store, oldest_in, oldest_of, evict_oldest, enqueue, dequeue, peek,
  split_queue, ack, nack, get_queue_size, get_dlq, cleanup,
}
use msg2agent.Queue.Memory.Valid.{OnlyQueue, Valid}
use msg2agent.Queue.Memory.Split.{time}
use msg2agent.Queue.Memory.Evict.{EvictsOldest, evict_oldest-oldest}
use msg2agent.Queue.Memory.Enqueue.{enqueue-le-max_total, enqueue-past_max_total}
use msg2agent.Queue.Memory.Dequeue.{DequeueResult, dequeue-Dequeued}
use msg2agent.Queue.Memory.Settle.{NackResult, nack-NackResult}
use msg2agent.Queue.Memory.Run.{
  Call, enqueues, dequeues, acks, nacks, cleans, closes, run, IsSafe, run-IsSafe, run-closed,
}

abbrev by_time : SortFunc time
by_time = by_insertion time

abbrev alice : Text
alice = text "did:wba:a"

abbrev bob : Text
bob = text "did:wba:b"

abbrev small_config : Config
small_config = record {
  message_ttl = 100;
  max_queue_size = 2;
  max_total_messages = 3;
  max_delivery_attempts = 2;
  ack_timeout = 30;
  enable_dlq = true;
}

abbrev queued : ℕ → Text → ℕ → ℕ → ℕ → QueuedMessage
queued id to at_ until attempts = record {
  id = id;
  recipient_did = to;
  body = text "hello";
  queued_at = at_;
  expires_at = until;
  delivery_attempts = attempts;
  last_attempt = none;
  sender_did = bob;
}

abbrev older : QueuedMessage
older = queued 1 alice 10 200 0

abbrev newer : QueuedMessage
newer = queued 2 alice 20 200 1

abbrev stale : QueuedMessage
stale = queued 3 bob 5 30 0

abbrev full_store : MemoryStore
full_store = record {
  config = small_config;
  queues = (alice, newer ∷ older ∷ []) ∷ (bob, stale ∷ []) ∷ [];
  dlq = [];
  total_count = 3;
  closed = false;
}

full_store-Valid : Valid full_store
unfolding get total
full_store-Valid = record {
  unique = (refl, (refl, tt));
  counted = refl;
  entries = (
    (((refl, λ _. omega arith), ((refl, λ _. omega arith), tt)), (λ _. omega arith), omega arith),
    ((((refl, λ _. omega arith), tt), (λ _. omega arith), omega arith), tt),
  );
}

-- The calls of a history that hands out, acknowledges, fails, evicts and cleans up.
abbrev history : List Call
history =
    enqueues older
    ∷ enqueues stale
    ∷ dequeues alice 1 15
    ∷ enqueues older
    ∷ nacks 16 1 (text "no route")
    ∷ acks 1
    ∷ cleans 40
    ∷ []

run-IsSafe_example : IsSafe small_config (run by_time history (new_memory_store small_config))
run-IsSafe_example =
    run-IsSafe by_time small_config history
      ((λ _. omega arith), ((λ _. omega arith), (tt, ((λ _. omega arith), (tt, (tt, (tt, tt)))))))

run-closed_example :
    let t = run by_time (closes ∷ history) full_store in
    ((enqueue older t).1 ≡ some queue_closed)
    × ((dequeue by_time.sort alice 5 50 t).1 ≡ err queue_closed)
    × (peek by_time.sort alice 5 50 t ≡ err queue_closed)
    × ((ack 1 t).1 ≡ some queue_closed)
    × ((nack 50 1 [] t).1 ≡ some queue_closed)
    × ((cleanup 50 t).1 ≡ err queue_closed)
    × (get_queue_size alice 50 t ≡ err queue_closed)
    × (get_dlq alice 5 t ≡ err queue_closed)
run-closed_example = run-closed by_time history full_store alice 5 50 1 [] older

dequeue-Dequeued_example :
    DequeueResult by_time alice 1 50 full_store (dequeue by_time.sort alice 1 50 full_store)
dequeue-Dequeued_example = dequeue-Dequeued by_time alice 1 50 full_store refl

-- The older of alice's messages comes out first, though it was queued behind the newer one.
dequeue_run : (dequeue by_time.sort alice 1 50 full_store).1 ≡ ok (older ∷ [])
unfolding dequeue get slice_at insertion_sort insert_sorted split_queue
dequeue_run = refl

evict_oldest-oldest_example : EvictsOldest full_store (evict_oldest full_store)
evict_oldest-oldest_example =
    unfold get in evict_oldest-oldest full_store full_store-Valid refl (omega arith)

enqueue-le-max_total_example : (enqueue (queued 4 bob 60 90 0) full_store).0.total_count ≤ 3
unfolding get
enqueue-le-max_total_example =
    enqueue-le-max_total (queued 4 bob 60 90 0) full_store full_store-Valid refl (omega arith)
      (omega arith)

-- A store whose oldest message is queued for the empty DID.
abbrev nameless_store : MemoryStore
nameless_store = record full_store {
  queues = (alice, newer ∷ older ∷ []) ∷ ([], queued 5 [] 5 30 0 ∷ []) ∷ [];
}

enqueue-past_max_total_example :
    ((enqueue (queued 4 bob 60 90 0) nameless_store).1 ≡ none)
    × OnlyQueue nameless_store
        (enqueue (queued 4 bob 60 90 0) nameless_store).0
        bob
        (slice_at bob nameless_store.queues ++ queued 4 bob 60 90 0 ∷ [])
    × ((enqueue (queued 4 bob 60 90 0) nameless_store).0.total_count
        ≡ nameless_store.total_count + 1)
    × (3 < (enqueue (queued 4 bob 60 90 0) nameless_store).0.total_count)
unfolding get slice_at oldest_of oldest_in
enqueue-past_max_total_example =
    enqueue-past_max_total (queued 4 bob 60 90 0) nameless_store
      (record { time = 5; did = []; idx = 0 }) refl refl (omega arith) (omega arith) refl refl

nack-NackResult_example :
    NackResult 60 (text "no route") full_store 2 (nack 60 2 (text "no route") full_store)
nack-NackResult_example = nack-NackResult 60 2 (text "no route") full_store full_store-Valid refl
