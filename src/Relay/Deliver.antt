-- ===== src/Relay/Deliver.antt =====
-- `deliverQueuedMessages` of cmd/relay/client.go. The clock is read several times in
-- one delivery: `clock i` is the i-th reading. The client's writer takes nothing out of its buffer
-- meanwhile.
pub mod Batch
pub mod Rounds
use msg2agent.Prelude.{
  ℕ, zero, suc, ◌+◌, Text, text_eq, Bool, true, false, not, ◌&&◌, ltb, is_nil, Option, none, some,
  List, [], ◌∷◌, length, Result, ok, err, if◌then◌else◌,
}
use msg2agent.Queue.{QueueError, QueuedMessage, is_expired}
use msg2agent.Queue.Memory.{MemoryStore, enqueue, dequeue}
use msg2agent.Relay.Hub.{Client, RelayHub, routed, send}

abbrev pub batch_size : ℕ
batch_size = 100

-- `_ = c.hub.queue.Enqueue(msg)`
unfoldable pub requeue : QueuedMessage → RelayHub → RelayHub
requeue m h = elim h.queue [ none ↦ h | some q ↦ record h { queue = some (enqueue m q).0 } ]

-- The loop over one batch for client `k`; the result says whether the loop reached its end.
unfoldable pub deliver_batch : (ℕ → ℕ) → ℕ → ℕ → List QueuedMessage → RelayHub → RelayHub × Bool
deliver_batch clock i k [] h = (h, true)
deliver_batch clock i k (m ∷ ms) h =
    let (t, sent) = send k (routed m.body) h in
    let continued = deliver_batch clock (suc i) k ms h in
    let went_on = deliver_batch clock (suc i) k ms t in
    if is_expired (clock i) m then continued else if sent then went_on else (requeue m t, false)

-- One round of the outer loop after `Dequeue`; the result says whether there is another round.
unfoldable pub deliver_dequeued :
    (ℕ → ℕ)
    → ℕ
    → ℕ
    → MemoryStore × Result QueueError (List QueuedMessage)
    → RelayHub
    → RelayHub × Bool
unfolding deliver_batch
deliver_dequeued clock i k (q, err e) h = (record h { queue = some q }, false)
deliver_dequeued clock i k (q, ok msgs) h =
    let h' = record h { queue = some q } in
    let (t, finished) = deliver_batch clock i k msgs h' in
    if is_nil msgs then (h', false) else (t, finished && not (ltb (length msgs) batch_size))

module _ (sort : List QueuedMessage → List QueuedMessage) (clock : ℕ → ℕ) where
  -- The outer loop, on fuel: `none` is a loop that has not ended.
  unfoldable pub deliver_rounds : ℕ → ℕ → Text → ℕ → RelayHub → Option RelayHub
  unfolding deliver_dequeued
  deliver_rounds zero i did k h = none
  deliver_rounds (suc n) i did k h = elim h.queue [
    | none ↦ some h
    | some q ↦
        let (t, again) =
          deliver_dequeued clock (suc i) k (dequeue sort did batch_size (clock i) q) h in
        let rest = deliver_rounds n (suc i + batch_size) did k t in if again then rest else some t
  ]

  unfoldable pub deliver_queued_messages : ℕ → ℕ → Client → RelayHub → Option RelayHub
  unfolding deliver_rounds
  deliver_queued_messages n i c h =
      if is_nil c.did then some h else deliver_rounds n i c.did c.handle h
