-- ===== src/Conversation/Memory/Tests.antt =====
-- Concrete runs of the conversation store. UUIDs are printed here as the number and 35 zeros, and the
-- sorts leave the order as it is.
use mathlib.Core.List.Permᴰ
use msg2agent.Prelude.{
  ℕ, suc, zero, nat_eq, ◌≤◌, Text, text, text_eq, text_beq_iff, ◌==◌, Bool-cases, inl, inr, subst,
  arith, some, ◌≡◌, ◌≢◌, ◌⊎◌, refl, false, true, none, List, [], ◌∷◌, map, length, ok, err,
}
use msg2agent.Prelude.Dict.{get, put, measure}
use msg2agent.Prelude.Ints.{pos}
use msg2agent.Prelude.Occurs.{occurs}
use msg2agent.Conversation.{
  Thread, StoredMessage, MessageReceipt, ThreadFilter, MessageFilter, StoreConfig, is_delivered,
  unset, message_not_found, receipt_not_found,
}
use msg2agent.Conversation.Memory.{
  MemoryStore, new_memory_store, create_thread, with_new_thread, save_message, with_message,
  get_message, delete_message,
}
use msg2agent.Conversation.Memory.Marks.{mark_read, get_receipt}
use msg2agent.Conversation.Memory.Queries.{list_threads}
use msg2agent.Conversation.Memory.Participants.{IsDistinct}
use msg2agent.Conversation.Memory.Steps.{
  create, save, Reachable, fresh, after, IsConsistent, Reachable-IsConsistent,
}
use msg2agent.Conversation.Memory.Listing.{page_of, shows_thread, list_threads_lem}
use msg2agent.Conversation.Memory.Receipts.{mark_read_lem, delete_message-receipts}

abbrev zeros : ℕ → Text
zeros zero = []
zeros (suc n) = 0 ∷ zeros n

abbrev uuid : ℕ → Text
uuid id = id ∷ zeros 35

uuid-36 : (id : ℕ) → length (uuid id) ≡ 36
uuid-36 id = refl

uuid-distinct : (i j : ℕ) → uuid i ≡ uuid j → i ≡ j
uuid-distinct i j h = cc h

abbrev config : StoreConfig
config = record { max_threads = 0; max_messages_per_thread = 0; retention_days = 0 }

abbrev chat : Thread
chat = record {
  id = 1;
  title = [];
  participants = text "alice" ∷ text "bob" ∷ [];
  created_at = 10;
  updated_at = 10;
  last_message = none;
  message_count = pos 0;
  state = unset;
  task_ids = [];
  session_ids = [];
}

abbrev hello : StoredMessage
hello = record {
  id = 5;
  thread_id = 1;
  parent_id = none;
  from = text "alice";
  to = text "bob";
  kind = text "request";
  body = text "hello";
  timestamp = 11;
  thread_seq_no = 1;
  encrypted = false;
}

abbrev store₀ : MemoryStore
store₀ = new_memory_store config

abbrev store₁ : MemoryStore
store₁ = (create_thread chat store₀).0

abbrev store₂ : MemoryStore
store₂ = (save_message 12 hello store₁).0

chat-IsDistinct : IsDistinct chat
unfolding occurs
chat-IsDistinct did = elim (Bool-cases (text "alice" == did)) [
  | inl y ↦
      (let e : text "alice" ≡ did = (text_beq_iff (text "alice") did).0 y in
        subst (λ d. occurs d chat.participants ≤ 1) e (ground arith))
  | inr n ↦ ground arith
]

store₂-Reachable : Reachable uuid config store₂
unfolding new_memory_store create_thread with_new_thread get
store₂-Reachable =
    after (after fresh (create store₀ chat refl chat-IsDistinct refl)) (save store₁ 12 hello refl)

Reachable-IsConsistent_example : IsConsistent store₂
Reachable-IsConsistent_example = Reachable-IsConsistent uuid config store₂ store₂-Reachable

store₂-open : store₂.closed ≡ false
unfolding new_memory_store create_thread with_new_thread save_message with_message get put
store₂-open = refl

hello-stored : get_message 5 store₂ ≡ ok hello
unfolding get_message new_memory_store create_thread with_new_thread save_message with_message get
    put
hello-stored = refl

abbrev for_bob : ThreadFilter
for_bob = record { participant_did = text "bob"; since = none; limit = 1; offset = 0 }

abbrev in_chat : MessageFilter
in_chat = record { thread_id = 1; since = none; before = none; types = []; limit = 0; offset = 0 }

list_threads_lem_example :
    (l : List Thread) × (list_threads (λ xs. xs) for_bob store₂ ≡ ok (page_of 0 1 l))
    × ((id : ℕ)
        → occurs id (map (λ t. t.id) l) ≡ measure (shows_thread for_bob) (get id store₂.threads))
list_threads_lem_example =
    list_threads_lem (λ xs. xs) Permᴰ.refl for_bob store₂ Reachable-IsConsistent_example.0
      store₂-open refl

mark_read_lem_example :
    let t = (mark_read uuid 14 5 (text "bob") store₂).0 in
    ((r : MessageReceipt) × (get_receipt uuid 5 (text "bob") t ≡ ok r)
      × (is_delivered r ≡ true)
      × (r.read_at ≡ some 14)
      × ((old : MessageReceipt)
          → get_receipt uuid 5 (text "bob") store₂ ≡ ok old
          → is_delivered old ≡ true
          → r.delivered_at ≡ old.delivered_at))
    × ((j : ℕ) (c : Text)
        → (5 ≢ j) ⊎ (text "bob" ≢ c)
        → get_receipt uuid j c t ≡ get_receipt uuid j c store₂)
mark_read_lem_example =
    mark_read_lem uuid uuid-36 uuid-distinct 14 5 (text "bob") store₂ hello hello-stored

delete_message-receipts_example :
    let t = (delete_message uuid 5 store₂).0 in
    (get_message 5 t ≡ err message_not_found)
    × ((did : Text) → get_receipt uuid 5 did t ≡ err receipt_not_found)
    × ((j : ℕ) (did : Text) → j ≢ 5 → get_receipt uuid j did t ≡ get_receipt uuid j did store₂)
delete_message-receipts_example =
    delete_message-receipts uuid uuid-36 uuid-distinct 5 store₂ hello hello-stored
