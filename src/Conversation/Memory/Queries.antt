-- ===== src/Conversation/Memory/Queries.antt =====
-- pkg/conversation/memory.go: ListThreads and GetMessages. `sort_threads` and `sort_messages` are
-- `slices.SortFunc` with the comparisons of the code.
use msg2agent.Prelude.{
  ℕ, nat_eq, text_eq, Bool, true, false, not, ◌&&◌, ltb, leb, Option, none, some, List, [], ◌∷◌,
  map, keep, length, take, drop, is_nil, if◌then◌else◌, Result, ok, err,
}
use msg2agent.Prelude.Dict.{Dict, get, slice_at}
use msg2agent.Prelude.Occurs.{contains}
use msg2agent.Conversation.{
  ConversationError, store_closed, Thread, StoredMessage, ThreadFilter, MessageFilter,
}
use msg2agent.Conversation.Memory.{MemoryStore}

-- `if filter.Since != nil && thread.UpdatedAt.Before(*filter.Since) { return false }`
abbrev pub is_before : ℕ → Option ℕ → Bool
is_before t none = false
is_before t (some since) = ltb t since

abbrev pub is_after : ℕ → Option ℕ → Bool
is_after t none = false
is_after t (some before) = ltb before t

unfoldable pub thread_matches_filter : Thread → ThreadFilter → Bool
thread_matches_filter t f = not (is_before t.updated_at f.since)

unfoldable pub message_matches_filter : StoredMessage → MessageFilter → Bool
unfolding contains
message_matches_filter m f =
    if is_before m.timestamp f.since
    then false
    else if is_after m.timestamp f.before
    then false
    else if is_nil f.types
    then true
    else contains m.kind f.types

-- The slicing at the end of `ListThreads` and of `GetMessages`.
unfoldable pub paginate {ℓ} : {A : Type ℓ} → ℕ → ℕ → List A → List A
paginate offset limit result =
    if ltb 0 offset && leb (length result) offset
    then []
    else let rest = drop offset result in
      if ltb 0 limit && ltb limit (length rest) then take limit rest else rest

-- `for _, id := range ids { if v, ok := m[id]; ok { … } }`
unfoldable pub stored_at : {A : Type 0} → List ℕ → Dict ℕ A → List A
unfolding get
stored_at [] m = []
stored_at (id ∷ ids) m = elim (get id m) [ none ↦ stored_at ids m | some v ↦ v ∷ stored_at ids m ]

module _ (sort_threads : List Thread → List Thread) where
  unfoldable pub list_threads : ThreadFilter → MemoryStore → Result ConversationError (List Thread)
  unfolding slice_at stored_at thread_matches_filter paginate
  list_threads f s =
      if s.closed
      then err store_closed
      else let found =
          if is_nil f.participant_did
          then map (λ e. e.1) s.threads
          else stored_at (slice_at f.participant_did s.threads_by_did) s.threads in
        ok (paginate f.offset f.limit (sort_threads (keep (λ t. thread_matches_filter t f) found)))

module _ (sort_messages : List StoredMessage → List StoredMessage) where
  unfoldable pub get_messages :
      MessageFilter → MemoryStore → Result ConversationError (List StoredMessage)
  unfolding slice_at stored_at message_matches_filter paginate
  get_messages f s =
      if s.closed
      then err store_closed
      else ok (
          paginate f.offset f.limit (
            sort_messages (
              keep (λ m. message_matches_filter m f)
                (stored_at (slice_at f.thread_id s.messages_by_thread) s.messages))))
