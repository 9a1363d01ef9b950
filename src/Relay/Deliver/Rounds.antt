-- ===== src/Relay/Deliver/Rounds.antt =====
-- The outer loop of `deliverQueuedMessages`: that it ends, and what it delivers.
use msg2agent.Prelude.{
  ℕ, zero, suc, ◌+◌, ◌≤◌, ◌<◌, Text, nat_eq, text_eq, ◌==◌, text_beq_iff, ◌≡◌, refl, ◌∙◌, ap, true,
  inl, inr, is_nil, Bool-cases, Option, none, some, List, [], ◌∷◌, length, length-append,
  if◌then◌else◌, Result, ok, err, arith,
}
use msg2agent.Prelude.Dict.{slice_at}
use msg2agent.Prelude.Sort.{SortFunc, length-perm}
use msg2agent.Queue.{QueueError, QueuedMessage}
use msg2agent.Queue.Memory.{MemoryStore, dequeue}
use msg2agent.Queue.Memory.Split.{time}
use msg2agent.Queue.Memory.Dequeue.{dequeue-Dequeued}
use msg2agent.Relay.Hub.{Client, RelayHub}
use msg2agent.Relay.Deliver.{batch_size, deliver_dequeued, deliver_rounds, deliver_queued_messages}
use msg2agent.Relay.Deliver.Batch.{deliver_batch-Finished}

-- How many messages are queued for the DID.
abbrev pub pending : Text → Option MemoryStore → ℕ
pending did none = 0
pending did (some q) = length (slice_at did q.queues)

-- What a `Dequeue` hands out and what it leaves count up to `n`.
abbrev Counts : Text → ℕ → MemoryStore × Result QueueError (List QueuedMessage) → Type 0
Counts did n (q, ok r) = length r + pending did (some q) ≡ n
Counts did n (q, err e) = Unit

Counts-of_ok :
    (did : Text) (n : ℕ) (p : MemoryStore × Result QueueError (List QueuedMessage))
    (r : List QueuedMessage)
    → p.1 ≡ ok r
    → length r + pending did (some p.0) ≡ n
    → Counts did n p
Counts-of_ok did n (q, ok x) r e c = let d : x ≡ r = cc e in rw d c
Counts-of_ok did n (q, err x) r e c = tt

module _ (f : SortFunc time) where
  open f use {sort, perm, sorted}

  closed-Counts :
      (did : Text) (limit now : ℕ) (q : MemoryStore)
      → q.closed ≡ true
      → Counts did (pending did (some q)) (dequeue sort did limit now q)
  unfolding dequeue
  closed-Counts did limit now q c = rw c tt

  dequeue-Counts :
      (did : Text) (limit now : ℕ) (q : MemoryStore)
      → Counts did (pending did (some q)) (dequeue sort did limit now q)
  dequeue-Counts did limit now q = elim (Bool-cases q.closed) [
    | inl c ↦ closed-Counts did limit now q c
    | inr o ↦
        let (r, rest, e, d) = dequeue-Dequeued f did limit now q o in
        let (p, s, live, few, later, stale, only, dlq) = d in
        Counts-of_ok did _ (dequeue sort did limit now q) r e (
          let same : (did == did) ≡ true = (text_beq_iff did did).1 refl in
          let only' : pending did (some (dequeue sort did limit now q).0) ≡ length rest =
            ap length (only did) ∙ (rw same refl) in
          omega (arith, only', length-append r rest, length-perm p))
  ]

-- A round after which there is another has taken a whole batch out of the queue.
deliver_dequeued_progress :
    (clock : ℕ → ℕ) (i k n : ℕ) (did : Text)
    (p : MemoryStore × Result QueueError (List QueuedMessage)) (h : RelayHub)
    → Counts did n p
    → (deliver_dequeued clock i k p h).1 ≡ true
    → pending did (deliver_dequeued clock i k p h).0.queue + batch_size ≤ n
unfolding deliver_dequeued
deliver_dequeued_progress clock i k n did (q, err e) h c again = absurd (cc again)
deliver_dequeued_progress clock i k n did (q, ok []) h c again = absurd (cc again)
deliver_dequeued_progress clock i k n did (q, ok (m ∷ ms)) h c again =
    let (e, b) =
      deliver_batch-Finished clock i k (m ∷ ms) (record h { queue = some q }) (ground arith) in
    rw e (ground arith)

module _ (f : SortFunc time) (clock : ℕ → ℕ) where
  open f use {sort}

  deliver_rounds-ends :
      (n i : ℕ) (did : Text) (k : ℕ) (h : RelayHub)
      → pending did h.queue < n
      → (t : RelayHub) × (deliver_rounds sort clock n i did k h ≡ some t)
  unfolding deliver_rounds
  deliver_rounds-ends zero i did k h lt = absurd (omega arith)
  deliver_rounds-ends (suc n) i did k h lt =
      go (λ i t. deliver_rounds-ends n i did k t) h.queue refl
    where
      go :
          ((i : ℕ) (t : RelayHub)
            → pending did t.queue < n
            → (u : RelayHub) × (deliver_rounds sort clock n i did k t ≡ some u))
          → (o : Option MemoryStore) → h.queue ≡ o
          → (t : RelayHub) × (elim o [
            | none ↦ some h
            | some q ↦
                let (t, again) =
                  deliver_dequeued clock (suc i) k (dequeue sort did batch_size (clock i) q) h in
                let rest = deliver_rounds sort clock n (suc i + batch_size) did k t in
                if again then rest else some t
          ]
              ≡ some t)
      go rest none e = (h, refl)
      go rest (some q) e =
          let p = dequeue sort did batch_size (clock i) q in
          let r = deliver_dequeued clock (suc i) k p h in
          elim (Bool-cases r.1) [
            | inl y ↦
                let less =
                  deliver_dequeued_progress clock (suc i) k (pending did (some q)) did p h
                    (dequeue-Counts f did batch_size (clock i) q) y in
                let here : pending did h.queue ≡ pending did (some q) = ap (pending did) e in
                let (t, d) = rest (suc i + batch_size) r.0 (omega (arith, less, here, lt)) in
                (t, rw y d)
            | inr stop ↦ (r.0, rw stop refl)
          ]

  -- The delivery to a client ends: one round more than there are messages queued for its DID is enough.
  pub deliver_queued_messages-ends :
      (i : ℕ) (c : Client) (h : RelayHub)
      → (t : RelayHub) × (deliver_queued_messages sort clock (suc (pending c.did h.queue)) i c h
          ≡ some t)
  unfolding deliver_queued_messages
  deliver_queued_messages-ends i c h = elim (Bool-cases (is_nil c.did)) [
    | inl y ↦ (h, rw y refl)
    | inr n ↦
        let (t, e) =
          deliver_rounds-ends (suc (pending c.did h.queue)) i c.did c.handle h (omega arith) in
        (t, rw n e)
  ]
