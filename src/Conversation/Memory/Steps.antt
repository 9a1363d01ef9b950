-- ===== src/Conversation/Memory/Steps.antt =====
-- The callers of a conversation store, one operation at a time, and what holds of every store that they
-- reach.
use msg2agent.Prelude.{
  ℕ, nat_eq, Text, text_eq, ◌≡◌, refl, Option, none, some, if_elim, if◌then◌else◌,
}
use msg2agent.Prelude.Dict.{get}
use msg2agent.Prelude.Ints.{pos}
use msg2agent.Conversation.{
  Thread, StoredMessage, StoreConfig, ConversationError, store_closed, thread_not_found,
  message_not_found,
}
use msg2agent.Conversation.Memory.{
  MemoryStore, new_memory_store, create_thread, with_thread, update_thread, without_thread,
  delete_thread, with_message, save_message, without_message, delete_message, close,
}
use msg2agent.Conversation.Memory.Marks.{with_delivery, mark_delivered, with_reading, mark_read}
use msg2agent.Conversation.Memory.Participants.{
  IsIndexed, IsDistinct, new_memory_store-IsIndexed, with_new_thread-IsIndexed,
  with_thread-IsIndexed, without_thread-IsIndexed, with_message-IsIndexed, count_down-AreListed,
}
use msg2agent.Conversation.Memory.Counts.{
  IsCounted, new_memory_store-IsCounted, with_new_thread-IsCounted, with_thread-IsCounted,
  without_thread-IsCounted, with_message-IsCounted, without_message-IsCounted,
}

-- A call of the store. Callers create threads and save messages under fresh ids, name a participant
-- once, and leave the count of a thread to the store.
pub data Step (uuid_string : ℕ → Text) : MemoryStore → MemoryStore → Type 0 where
  create :
      (s : MemoryStore) (t : Thread)
      → get t.id s.threads ≡ none
      → IsDistinct t
      → t.message_count ≡ pos 0
      → Step uuid_string s (create_thread t s).0
  update :
      (s : MemoryStore) (t : Thread)
      → IsDistinct t
      → ((old : Thread) → get t.id s.threads ≡ some old → t.message_count ≡ old.message_count)
      → Step uuid_string s (update_thread t s).0
  discard : (s : MemoryStore) (id : ℕ) → Step uuid_string s (delete_thread uuid_string id s).0
  save :
      (s : MemoryStore) (now : ℕ) (m : StoredMessage)
      → get m.id s.messages ≡ none
      → Step uuid_string s (save_message now m s).0
  erase : (s : MemoryStore) (id : ℕ) → Step uuid_string s (delete_message uuid_string id s).0
  deliver :
      (s : MemoryStore) (now id : ℕ) (did : Text)
      → Step uuid_string s (mark_delivered uuid_string now id did s).0
  read :
      (s : MemoryStore) (now id : ℕ) (did : Text)
      → Step uuid_string s (mark_read uuid_string now id did s).0
  shut : (s : MemoryStore) → Step uuid_string s (close s)

pub data Reachable (uuid_string : ℕ → Text) (config : StoreConfig) : MemoryStore → Type 0 where
  fresh : Reachable uuid_string config (new_memory_store config)
  after :
      {s s' : MemoryStore}
      → Reachable uuid_string config s
      → Step uuid_string s s'
      → Reachable uuid_string config s'

abbrev pub IsConsistent : MemoryStore → Type 0
IsConsistent s = IsIndexed s × IsCounted s

abbrev LeavesConsistent : MemoryStore × Option ConversationError → Type 0
LeavesConsistent (s, e) = IsConsistent s

-- The operations that need an open store and a key that is there.
guarded :
    {V : Type 0} (s : MemoryStore) (o : Option V) (e : ConversationError) (f : V → MemoryStore)
    → IsConsistent s
    → ((v : V) → o ≡ some v → IsConsistent (f v))
    → LeavesConsistent (
        if s.closed
        then (s, some store_closed)
        else elim o [ none ↦ (s, some e) | some v ↦ (f v, none) ])
guarded s none e f h g = if_elim LeavesConsistent s.closed (λ _. h) (λ _. h)
guarded s (some v) e f h g = if_elim LeavesConsistent s.closed (λ _. h) (λ _. g v refl)

create_thread-IsConsistent :
    (s : MemoryStore) (t : Thread)
    → IsConsistent s
    → get t.id s.threads ≡ none
    → IsDistinct t
    → t.message_count ≡ pos 0
    → IsConsistent (create_thread t s).0
unfolding create_thread
create_thread-IsConsistent s t v f d c =
    if_elim LeavesConsistent s.closed (λ _. v)
      (λ _. (with_new_thread-IsIndexed t s v.0 f d, with_new_thread-IsCounted t s v.1 f c))

close-IsConsistent : (s : MemoryStore) → IsConsistent (close s)
unfolding close new_memory_store
close-IsConsistent s = (new_memory_store-IsIndexed s.config, new_memory_store-IsCounted s.config)

without_message-IsIndexed :
    (uuid_string : ℕ → Text) (id : ℕ) (m : StoredMessage) (s : MemoryStore)
    → IsIndexed s
    → IsIndexed (without_message uuid_string id m s)
unfolding without_message
without_message-IsIndexed uuid_string id m s v =
    count_down-AreListed m.thread_id s.threads s.threads_by_did v

step-IsConsistent :
    (uuid_string : ℕ → Text) (s s' : MemoryStore)
    → Step uuid_string s s'
    → IsConsistent s
    → IsConsistent s'
unfolding update_thread delete_thread save_message delete_message mark_delivered mark_read
step-IsConsistent uuid_string _ _ (create s t f d c) v = create_thread-IsConsistent s t v f d c
step-IsConsistent uuid_string _ _ (update s t d c) v =
    guarded s (get t.id s.threads) thread_not_found (λ old. with_thread t old s) v
      (λ old h.
        (with_thread-IsIndexed t old s v.0 h d, with_thread-IsCounted t old s v.1 h (c old h)))
step-IsConsistent uuid_string _ _ (discard s id) v =
    guarded s (get id s.threads) thread_not_found (λ t. without_thread uuid_string id t s) v
      (λ t h. (
        without_thread-IsIndexed uuid_string id t s v.0 h,
        without_thread-IsCounted uuid_string id t s v.1 h,
      ))
step-IsConsistent uuid_string _ _ (save s now m f) v =
    guarded s (get m.thread_id s.threads) thread_not_found (λ t. with_message now m t s) v
      (λ t h. (with_message-IsIndexed now m t s v.0 h, with_message-IsCounted now m t s v.1 h f))
step-IsConsistent uuid_string _ _ (erase s id) v =
    guarded s (get id s.messages) message_not_found (λ m. without_message uuid_string id m s) v
      (λ m h. (
        without_message-IsIndexed uuid_string id m s v.0,
        without_message-IsCounted uuid_string id m s v.1 h,
      ))
step-IsConsistent uuid_string _ _ (deliver s now id did) v =
    guarded s (get id s.messages) message_not_found
      (λ m. record s { receipts = with_delivery uuid_string now id did s.receipts }) v (λ m h. v)
step-IsConsistent uuid_string _ _ (read s now id did) v =
    guarded s (get id s.messages) message_not_found
      (λ m. record s { receipts = with_reading uuid_string now id did s.receipts }) v (λ m h. v)
step-IsConsistent uuid_string _ _ (shut s) v = close-IsConsistent s

-- Every store that calls reach from a new one is consistent: under each DID it lists exactly the threads
-- that have it as a participant, once each; each thread lists exactly its messages, once each; and the
-- count of a thread is the number of its messages. The callers are those of `Step`: they create threads
-- and save messages under fresh ids, name a participant once, and do not change the count.
pub Reachable-IsConsistent :
    (uuid_string : ℕ → Text) (config : StoreConfig) (s : MemoryStore)
    → Reachable uuid_string config s
    → IsConsistent s
Reachable-IsConsistent uuid_string config _ fresh =
    (new_memory_store-IsIndexed config, new_memory_store-IsCounted config)
Reachable-IsConsistent uuid_string config _ (after {s} {s'} r c) =
    step-IsConsistent uuid_string s s' c (Reachable-IsConsistent uuid_string config s r)
