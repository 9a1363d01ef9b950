-- ===== src/Conversation/Memory/Marks.antt =====
-- pkg/conversation/memory.go: MarkDelivered, MarkRead, GetReceipt and GetReceipts. `uuid_string` is the
-- printing of a UUID, which the keys of the receipts begin with.
use msg2agent.Prelude.{
  ℕ, nat_eq, Text, text, text_eq, ◌==◌, ◌&&◌, ltb, Option, none, some, List, ◌++◌, map, keep,
  length, take, if◌then◌else◌, Result, ok, err,
}
use msg2agent.Prelude.Dict.{Dict, get, put}
use msg2agent.Conversation.{
  ConversationError, message_not_found, receipt_not_found, store_closed, MessageReceipt,
}
use msg2agent.Conversation.Memory.{MemoryStore}

-- `if t == nil { t = &now }`
abbrev pub first_time : ℕ → Option ℕ → Option ℕ
first_time now none = some now
first_time now (some t) = some t

-- The receipt that `MarkDelivered` leaves: the time of the first delivery stays.
abbrev pub delivered : ℕ → ℕ → Text → Option MessageReceipt → MessageReceipt
delivered now id did none = record {
  message_id = id;
  recipient_did = did;
  delivered_at = some now;
  read_at = none;
}
delivered now id did (some r) = record r { delivered_at = first_time now r.delivered_at }

-- The receipt that `MarkRead` leaves.
abbrev pub read_receipt : ℕ → ℕ → Text → Option MessageReceipt → MessageReceipt
read_receipt now id did none = record {
  message_id = id;
  recipient_did = did;
  delivered_at = some now;
  read_at = some now;
}
read_receipt now id did (some r) = record r {
  delivered_at = first_time now r.delivered_at;
  read_at = some now;
}

module _ (uuid_string : ℕ → Text) where
  unfoldable pub receipt_key : ℕ → Text → Text
  receipt_key message_id did = uuid_string message_id ++ (text ":" ++ did)

  unfoldable pub with_delivery : ℕ → ℕ → Text → Dict Text MessageReceipt → Dict Text MessageReceipt
  unfolding get put receipt_key
  with_delivery now id did m =
      let key = receipt_key id did in put key (delivered now id did (get key m)) m

  unfoldable pub mark_delivered :
      ℕ → ℕ → Text → MemoryStore → MemoryStore × Option ConversationError
  unfolding get with_delivery
  mark_delivered now id did s =
      if s.closed then (s, some store_closed) else elim (get id s.messages) [
        | none ↦ (s, some message_not_found)
        | some m ↦ (record s { receipts = with_delivery now id did s.receipts }, none)
      ]

  unfoldable pub with_reading : ℕ → ℕ → Text → Dict Text MessageReceipt → Dict Text MessageReceipt
  unfolding get put receipt_key
  with_reading now id did m =
      let key = receipt_key id did in put key (read_receipt now id did (get key m)) m

  unfoldable pub mark_read : ℕ → ℕ → Text → MemoryStore → MemoryStore × Option ConversationError
  unfolding get with_reading
  mark_read now id did s = if s.closed then (s, some store_closed) else elim (get id s.messages) [
    | none ↦ (s, some message_not_found)
    | some m ↦ (record s { receipts = with_reading now id did s.receipts }, none)
  ]

  unfoldable pub get_receipt : ℕ → Text → MemoryStore → Result ConversationError MessageReceipt
  unfolding get receipt_key
  get_receipt id did s =
      if s.closed then err store_closed else elim (get (receipt_key id did) s.receipts) [
        | none ↦ err receipt_not_found
        | some r ↦ ok r
      ]

  unfoldable pub get_receipts : ℕ → MemoryStore → Result ConversationError (List MessageReceipt)
  get_receipts id s =
      if s.closed
      then err store_closed
      else let prefix = uuid_string id ++ text ":" in
        ok (map (λ e. e.1) (keep (λ e. ltb 36 (length e.0) && (take 37 e.0 == prefix)) s.receipts))
