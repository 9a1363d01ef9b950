-- ===== src/Conversation/Memory.antt =====
-- pkg/conversation/memory.go: the in-memory conversation store. What is stored or handed out is a copy,
-- which is what a value is here. `uuid_string` is the UUID package's printing of a UUID, which the keys of
-- the receipts begin with. The files below it hold the queries and the receipts, and the proofs.
pub mod Queries
pub mod Marks
pub mod Participants
pub mod Counts
pub mod Steps
pub mod Listing
pub mod Receipts
mod Tests
use msg2agent.Prelude.{
  ℕ, nat_eq, Text, text_eq, ◌==◌, Bool, true, false, not, ◌&&◌, ltb, Option, none, some, List, [],
  ◌∷◌, keep, length, take, if◌then◌else◌, Result, ok, err,
}
use msg2agent.Prelude.Dict.{Dict, get, put, delete, slice_at}
use msg2agent.Prelude.Ints.{increment, decrement}
use msg2agent.Prelude.Occurs.{append_to, remove_from}
use msg2agent.Conversation.{
  ConversationError, thread_not_found, message_not_found, store_closed, Thread, has_participant,
  StoredMessage, MessageReceipt, StoreConfig,
}

pub record MemoryStore : Type 0 where
  pub threads : Dict ℕ Thread
  pub messages : Dict ℕ StoredMessage
  pub receipts : Dict Text MessageReceipt
  pub messages_by_thread : Dict ℕ (List ℕ)
  pub threads_by_did : Dict Text (List ℕ)
  pub config : StoreConfig
  pub closed : Bool

unfoldable pub new_memory_store : StoreConfig → MemoryStore
new_memory_store config = record {
  threads = [];
  messages = [];
  receipts = [];
  messages_by_thread = [];
  threads_by_did = [];
  config = config;
  closed = false;
}

-- `s.threadsByDID[did] = append(s.threadsByDID[did], id)` for the DIDs of a slice that pass a test.
unfoldable pub index_each : (Text → Bool) → ℕ → List Text → Dict Text (List ℕ) → Dict Text (List ℕ)
unfolding append_to
index_each p id [] idx = idx
index_each p id (did ∷ dids) idx =
    index_each p id dids (if p did then append_to did id idx else idx)

unfoldable pub remove_thread_from_did : Text → ℕ → Dict Text (List ℕ) → Dict Text (List ℕ)
unfolding remove_from
remove_thread_from_did did id idx = remove_from did id idx

-- The same for the DIDs of a slice that pass a test.
unfoldable pub unindex_each :
    (Text → Bool) → ℕ → List Text → Dict Text (List ℕ) → Dict Text (List ℕ)
unfolding remove_thread_from_did
unindex_each p id [] idx = idx
unindex_each p id (did ∷ dids) idx =
    unindex_each p id dids (if p did then remove_thread_from_did did id idx else idx)

-- What `CreateThread` leaves of an open store.
unfoldable pub with_new_thread : Thread → MemoryStore → MemoryStore
unfolding put index_each
with_new_thread t s = record s {
  threads = put t.id t s.threads;
  threads_by_did = index_each (λ did. true) t.id t.participants s.threads_by_did;
}

unfoldable pub create_thread : Thread → MemoryStore → MemoryStore × Option ConversationError
unfolding with_new_thread
create_thread t s = if s.closed then (s, some store_closed) else (with_new_thread t s, none)

unfoldable pub get_thread : ℕ → MemoryStore → Result ConversationError Thread
unfolding get
get_thread id s =
    if s.closed
    then err store_closed
    else elim (get id s.threads) [ none ↦ err thread_not_found | some t ↦ ok t ]

-- The index after the two loops of `UpdateThread`.
unfoldable pub reindex : Thread → Thread → Dict Text (List ℕ) → Dict Text (List ℕ)
unfolding index_each unindex_each has_participant
reindex old t idx =
    index_each (λ did. not (has_participant old did)) t.id t.participants
      (unindex_each (λ did. not (has_participant t did)) t.id old.participants idx)

-- What `UpdateThread` leaves of a store that holds `old` under the id of `t`.
unfoldable pub with_thread : Thread → Thread → MemoryStore → MemoryStore
unfolding put reindex
with_thread t old s = record s {
  threads = put t.id t s.threads;
  threads_by_did = reindex old t s.threads_by_did;
}

unfoldable pub update_thread : Thread → MemoryStore → MemoryStore × Option ConversationError
unfolding get with_thread
update_thread t s = if s.closed then (s, some store_closed) else elim (get t.id s.threads) [
  | none ↦ (s, some thread_not_found)
  | some old ↦ (with_thread t old s, none)
]

-- `thread.MessageCount++` and the times of the thread.
abbrev pub count_up : ℕ → ℕ → Thread → Thread
count_up timestamp now t = record t {
  message_count = increment t.message_count;
  last_message = some timestamp;
  updated_at = now;
}

-- What `SaveMessage` leaves of a store that holds the thread.
unfoldable pub with_message : ℕ → StoredMessage → Thread → MemoryStore → MemoryStore
unfolding put append_to increment
with_message now m t s = record s {
  messages = put m.id m s.messages;
  messages_by_thread = append_to m.thread_id m.id s.messages_by_thread;
  threads = put m.thread_id (count_up m.timestamp now t) s.threads;
}

unfoldable pub save_message :
    ℕ → StoredMessage → MemoryStore → MemoryStore × Option ConversationError
unfolding get with_message
save_message now m s =
    if s.closed then (s, some store_closed) else elim (get m.thread_id s.threads) [
      | none ↦ (s, some thread_not_found)
      | some t ↦ (with_message now m t s, none)
    ]

unfoldable pub get_message : ℕ → MemoryStore → Result ConversationError StoredMessage
unfolding get
get_message id s =
    if s.closed
    then err store_closed
    else elim (get id s.messages) [ none ↦ err message_not_found | some m ↦ ok m ]

-- `if thread, ok := s.threads[id]; ok { thread.MessageCount-- }`
unfoldable pub count_down : ℕ → Dict ℕ Thread → Dict ℕ Thread
unfolding get put decrement
count_down id threads = elim (get id threads) [
  | none ↦ threads
  | some t ↦ put id (record t { message_count = decrement t.message_count }) threads
]

module _ (uuid_string : ℕ → Text) where
  -- `len(key) > 36 && key[:36] == id.String()`
  unfoldable pub is_receipt_of : ℕ → Text → Bool
  is_receipt_of id key = ltb 36 (length key) && (take 36 key == uuid_string id)

  -- `for key := range s.receipts { if … { delete(s.receipts, key) } }`
  unfoldable pub delete_receipts : ℕ → Dict Text MessageReceipt → Dict Text MessageReceipt
  unfolding is_receipt_of
  delete_receipts id m = keep (λ e. not (is_receipt_of id e.0)) m

  -- The loop of `DeleteThread` over the messages of the thread.
  unfoldable pub delete_messages : List ℕ → MemoryStore → MemoryStore
  unfolding delete delete_receipts
  delete_messages [] s = s
  delete_messages (id ∷ ids) s =
      delete_messages ids
        (record s { messages = delete id s.messages; receipts = delete_receipts id s.receipts })

  -- What `DeleteThread` leaves of a store that holds the thread.
  unfoldable pub without_thread : ℕ → Thread → MemoryStore → MemoryStore
  unfolding delete slice_at unindex_each delete_messages
  without_thread id t s =
      let idx = unindex_each (λ did. true) id t.participants s.threads_by_did in
      let s' =
        delete_messages (slice_at id s.messages_by_thread) (record s { threads_by_did = idx }) in
      record s' {
        messages_by_thread = delete id s'.messages_by_thread;
        threads = delete id s'.threads;
      }

  unfoldable pub delete_thread : ℕ → MemoryStore → MemoryStore × Option ConversationError
  unfolding get without_thread
  delete_thread id s = if s.closed then (s, some store_closed) else elim (get id s.threads) [
    | none ↦ (s, some thread_not_found)
    | some t ↦ (without_thread id t s, none)
  ]

  -- What `DeleteMessage` leaves of a store that holds the message.
  unfoldable pub without_message : ℕ → StoredMessage → MemoryStore → MemoryStore
  unfolding delete remove_from count_down delete_receipts
  without_message id m s = record s {
    messages_by_thread = remove_from m.thread_id id s.messages_by_thread;
    threads = count_down m.thread_id s.threads;
    receipts = delete_receipts id s.receipts;
    messages = delete id s.messages;
  }

  unfoldable pub delete_message : ℕ → MemoryStore → MemoryStore × Option ConversationError
  unfolding get without_message
  delete_message id s = if s.closed then (s, some store_closed) else elim (get id s.messages) [
    | none ↦ (s, some message_not_found)
    | some m ↦ (without_message id m s, none)
  ]

unfoldable pub close : MemoryStore → MemoryStore
close s = record {
  threads = [];
  messages = [];
  receipts = [];
  messages_by_thread = [];
  threads_by_did = [];
  config = s.config;
  closed = true;
}
