-- ===== src/Queue/Memory.antt =====
-- pkg/queue/memory.go: the in-memory store. The mutex makes each method one step, so a method is a
-- function from the store to the store and its result. The clock is read once in a call (`now`).
pub mod Valid
pub mod Evict
pub mod Enqueue
pub mod Settle
pub mod Split
pub mod Dequeue
pub mod Cleanup
pub mod Run
use msg2agent.Prelude.{
  ℕ, suc, ◌+◌, ◌-◌, Text, ◌==◌, nat_eq, text_eq, Bool, true, false, not, ◌&&◌, ltb, leb, is_nil,
  Option, none, some, List, [], ◌∷◌, ◌++◌, length, take, keep, remove_at, set, Result, ok, err,
  if◌then◌else◌,
}
use msg2agent.Prelude.Dict.{Dict, slice_at, set_slice, put}
use msg2agent.Queue.{
  QueueError, queue_full, queue_closed, not_found, Config, QueuedMessage, is_expired,
  DeadLetterMessage,
}

pub record MemoryStore : Type 0 where
  pub config : Config
  pub queues : Dict Text (List QueuedMessage)
  pub dlq : Dict Text (List DeadLetterMessage)
  pub total_count : ℕ
  pub closed : Bool

unfoldable pub new_memory_store : Config → MemoryStore
new_memory_store c = record { config = c; queues = []; dlq = []; total_count = 0; closed = false }

-- The variables of the search in `evictOldestLocked`; `first` is the absence of a candidate.
pub record Oldest : Type 0 where
  pub time : ℕ
  pub did : Text
  pub idx : ℕ

abbrev pub is_older : QueuedMessage → Option Oldest → Bool
is_older m none = true
is_older m (some o) = ltb m.queued_at o.time

unfoldable pub oldest_in : Text → ℕ → List QueuedMessage → Option Oldest → Option Oldest
oldest_in did i [] best = best
oldest_in did i (m ∷ q) best =
    oldest_in did (suc i) q
      (if is_older m best then some (record { time = m.queued_at; did = did; idx = i }) else best)

unfoldable pub oldest_of : Dict Text (List QueuedMessage) → Option Oldest → Option Oldest
oldest_of [] best = best
oldest_of ((did, q) ∷ rest) best = oldest_of rest (oldest_in did 0 q best)

-- `s.queues[did] = slices.Delete(…)`, `s.totalCount--`, and the deletion of an empty queue.
unfoldable pub delete_at : Text → ℕ → MemoryStore → MemoryStore
delete_at did i s = record s {
  queues = set_slice did (remove_at i (slice_at did s.queues)) s.queues;
  total_count = s.total_count - 1;
}

unfoldable pub evict_found : Option Oldest → MemoryStore → MemoryStore
evict_found none s = s
evict_found (some o) s = if is_nil o.did then s else delete_at o.did o.idx s

unfoldable pub evict_oldest : MemoryStore → MemoryStore
unfolding evict_found
evict_oldest s = evict_found (oldest_of s.queues none) s

-- The check of the global limit in `Enqueue`.
unfoldable pub make_room : MemoryStore → MemoryStore
make_room s =
    let limit = s.config.max_total_messages in
    if ltb 0 limit && leb limit s.total_count then evict_oldest s else s

abbrev pub append_message : QueuedMessage → MemoryStore → MemoryStore
append_message m s = record s {
  queues = put m.recipient_did (slice_at m.recipient_did s.queues ++ m ∷ []) s.queues;
  total_count = s.total_count + 1;
}

-- The check of the limit of one recipient.
abbrev pub is_at_limit : Text → MemoryStore → Bool
is_at_limit did s =
    ltb 0 s.config.max_queue_size && leb s.config.max_queue_size (length (slice_at did s.queues))

unfoldable pub enqueue : QueuedMessage → MemoryStore → MemoryStore × Option QueueError
enqueue m s =
    if s.closed
    then (s, some queue_closed)
    else if is_at_limit m.recipient_did s
    then (s, some queue_full)
    else (append_message m (make_room s), none)

abbrev pub is_full : ℕ → ℕ → Bool
is_full limit taken = ltb 0 limit && leb limit taken

abbrev pub hold :
    QueuedMessage
    → List QueuedMessage × List QueuedMessage
    → List QueuedMessage × List QueuedMessage
hold m (result, remaining) = (result, m ∷ remaining)

abbrev pub hand :
    QueuedMessage
    → List QueuedMessage × List QueuedMessage
    → List QueuedMessage × List QueuedMessage
hand m (result, remaining) = (m ∷ result, remaining)

-- The loop of `Dequeue`: the messages handed out and those that stay, given how many were taken.
unfoldable pub split_queue :
    ℕ → ℕ → ℕ → List QueuedMessage → List QueuedMessage × List QueuedMessage
split_queue now limit taken [] = ([], [])
split_queue now limit taken (m ∷ q) =
    let stays = hold m (split_queue now limit taken q) in
    let goes = hand m (split_queue now limit (suc taken) q) in
    if is_expired now m then stays else if is_full limit taken then stays else goes

-- The loop of `Peek`, which breaks at the limit.
unfoldable pub peek_queue : ℕ → ℕ → ℕ → List QueuedMessage → List QueuedMessage
peek_queue now limit taken [] = []
peek_queue now limit taken (m ∷ q) =
    let skip = peek_queue now limit taken q in
    let next = m ∷ peek_queue now limit (suc taken) q in
    if is_expired now m then skip else if is_full limit taken then [] else next

-- `slices.SortFunc` by `QueuedAt` is not stable, so the order of equal times is a parameter.
module _ (sort : List QueuedMessage → List QueuedMessage) where
  unfoldable pub dequeue :
      Text → ℕ → ℕ → MemoryStore → MemoryStore × Result QueueError (List QueuedMessage)
  dequeue did limit now s =
      let queue = slice_at did s.queues in
      if s.closed
      then (s, err queue_closed)
      else if is_nil queue
      then (s, ok [])
      else let (result, remaining) = split_queue now limit 0 (sort queue) in
        (
          record s {
            queues = set_slice did remaining s.queues;
            total_count = s.total_count - length result;
          },
          ok result,
        )

  unfoldable pub peek : Text → ℕ → ℕ → MemoryStore → Result QueueError (List QueuedMessage)
  peek did limit now s =
      let queue = slice_at did s.queues in
      if s.closed
      then err queue_closed
      else if is_nil queue
      then ok []
      else ok (peek_queue now limit 0 (sort queue))

-- Where a message stands: the variables `did`, `queue`, `i` and `msg` of the loops of `Ack`, `Nack`.
pub record Place : Type 0 where
  pub did : Text
  pub queue : List QueuedMessage
  pub idx : ℕ
  pub msg : QueuedMessage

abbrev pub shift : Option (ℕ × QueuedMessage) → Option (ℕ × QueuedMessage)
shift none = none
shift (some (i, m)) = some (suc i, m)

unfoldable pub find_index : ℕ → List QueuedMessage → Option (ℕ × QueuedMessage)
find_index id [] = none
find_index id (m ∷ q) = if m.id == id then some (0, m) else shift (find_index id q)

abbrev pub place_or :
    Text → List QueuedMessage → Option (ℕ × QueuedMessage) → Option Place → Option Place
place_or did q none later = later
place_or did q (some (i, m)) later = some (record { did = did; queue = q; idx = i; msg = m })

unfoldable pub locate : ℕ → Dict Text (List QueuedMessage) → Option Place
locate id [] = none
locate id ((did, q) ∷ rest) = place_or did q (find_index id q) (locate id rest)

unfoldable pub ack_at : Option Place → MemoryStore → MemoryStore × Option QueueError
ack_at none s = (s, some not_found)
ack_at (some p) s = (
  record s {
    queues = set_slice p.did (remove_at p.idx p.queue) s.queues;
    total_count = s.total_count - 1;
  },
  none,
)

unfoldable pub ack : ℕ → MemoryStore → MemoryStore × Option QueueError
unfolding ack_at
ack id s = if s.closed then (s, some queue_closed) else ack_at (locate id s.queues) s

abbrev pub attempted : ℕ → QueuedMessage → QueuedMessage
attempted now m = record m { delivery_attempts = m.delivery_attempts + 1; last_attempt = some now }

abbrev pub bury :
    Config
    → Text
    → DeadLetterMessage
    → Dict Text (List DeadLetterMessage)
    → Dict Text (List DeadLetterMessage)
bury c did d dlq = if c.enable_dlq then put did (slice_at did dlq ++ d ∷ []) dlq else dlq

unfoldable pub nack_at : ℕ → Text → Option Place → MemoryStore → MemoryStore × Option QueueError
nack_at now reason none s = (s, some not_found)
nack_at now reason (some p) s =
    let m = attempted now p.msg in
    let c = s.config in
    (
      if ltb 0 c.max_delivery_attempts && leb c.max_delivery_attempts m.delivery_attempts
          then record s {
            dlq = bury c p.did (record { message = m; fail_reason = reason; moved_at = now }) s.dlq;
            queues = set_slice p.did (remove_at p.idx p.queue) s.queues;
            total_count = s.total_count - 1;
          }
          else record s { queues = put p.did (set p.queue p.idx m) s.queues },
      none,
    )

unfoldable pub nack : ℕ → ℕ → Text → MemoryStore → MemoryStore × Option QueueError
unfolding nack_at
nack now id reason s =
    if s.closed then (s, some queue_closed) else nack_at now reason (locate id s.queues) s

abbrev pub is_live : ℕ → QueuedMessage → Bool
is_live now m = not (is_expired now m)

unfoldable pub get_queue_size : Text → ℕ → MemoryStore → Result QueueError ℕ
get_queue_size did now s =
    if s.closed then err queue_closed else ok (length (keep (is_live now) (slice_at did s.queues)))

unfoldable pub get_dlq : Text → ℕ → MemoryStore → Result QueueError (List DeadLetterMessage)
get_dlq did limit s =
    if s.closed
    then err queue_closed
    else ok (if ltb 0 limit then take limit (slice_at did s.dlq) else slice_at did s.dlq)

-- The loop of `Cleanup` over the map: the entries that stay, and how many messages went.
unfoldable pub cleanup_entries :
    ℕ → Dict Text (List QueuedMessage) → Dict Text (List QueuedMessage) × ℕ
cleanup_entries now [] = ([], 0)
cleanup_entries now ((did, q) ∷ rest) =
    let remaining = keep (is_live now) q in
    let (entries, removed) = cleanup_entries now rest in
    (
      if is_nil remaining then entries else (did, remaining) ∷ entries,
      (length q - length remaining) + removed,
    )

unfoldable pub cleanup : ℕ → MemoryStore → MemoryStore × Result QueueError ℕ
cleanup now s =
    if s.closed
    then (s, err queue_closed)
    else let (entries, removed) = cleanup_entries now s.queues in
      (record s { queues = entries; total_count = s.total_count - removed }, ok removed)

unfoldable pub close : MemoryStore → MemoryStore
close s = record s { closed = true; queues = []; dlq = [] }
