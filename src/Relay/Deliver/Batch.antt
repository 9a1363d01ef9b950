-- ===== src/Relay/Deliver/Batch.antt =====
-- One batch of `deliverQueuedMessages`: what it sends, and what becomes of it when the buffer fills up.
use msg2agent.Prelude.{
  ℕ, suc, ◌+◌, ◌≤◌, nat_eq, text_eq, ◌≡◌, refl, sym, ◌∙◌, ap, Bool, true, false, inl, inr, ◌⊎◌, ◌<◌,
  ◌==◌, Text, subst, Option, none, some, Option-cases, Bool-cases, List, [], ◌∷◌, ◌++◌, length,
  length-append, if_elim, if◌then◌else◌, arith,
}
use msg2agent.Prelude.Dict.{slice_at}
use msg2agent.Queue.{QueuedMessage, is_expired}
use msg2agent.Queue.Memory.{MemoryStore, make_room, enqueue}
use msg2agent.Queue.Memory.Enqueue.{enqueue-slice_at, enqueue-refused}
use msg2agent.Relay.Hub.{Frame, routed, RelayHub, send, has_room, ws_send_buffer_size}
use msg2agent.Relay.Hub.Kept.{append_assoc, append_nil, send-room, send-queue, slice_at-send}
use msg2agent.Relay.Deliver.{requeue, deliver_batch}

-- The frames of the messages that are live when the loop reads the clock for them.
unfoldable pub live_frames : (ℕ → ℕ) → ℕ → List QueuedMessage → List Frame
live_frames clock i [] = []
live_frames clock i (m ∷ ms) =
    let rest = live_frames clock (suc i) ms in
    if is_expired (clock i) m then rest else routed m.body ∷ rest

-- A batch that ends leaves the queue as it is and puts the live messages' payloads behind what waits.
abbrev pub Finished : (ℕ → ℕ) → ℕ → ℕ → List QueuedMessage → RelayHub → RelayHub × Bool → Type 0
Finished clock i k ms h r =
    r.1 ≡ true
    → (r.0.queue ≡ h.queue)
      × (slice_at k r.0.buffers ≡ slice_at k h.buffers ++ live_frames clock i ms)

pub deliver_batch-Finished :
    (clock : ℕ → ℕ) (i k : ℕ) (ms : List QueuedMessage) (h : RelayHub)
    → Finished clock i k ms h (deliver_batch clock i k ms h)
unfolding deliver_batch live_frames
deliver_batch-Finished clock i k [] h = λ _. (refl, sym (append_nil (slice_at k h.buffers)))
deliver_batch-Finished clock i k (m ∷ ms) h =
    let t = (send k (routed m.body) h).0 in
    elim (Bool-cases (is_expired (clock i) m)) [
      | inl old ↦ rw old (deliver_batch-Finished clock (suc i) k ms h)
      | inr live ↦ elim (Bool-cases (send k (routed m.body) h).1) [
        | inl sent ↦ rw live (
            rw sent (λ e.
              let (q, b) = deliver_batch-Finished clock (suc i) k ms t e in
              (
                q ∙ send-queue k (routed m.body) h,
                b
                    ∙ ap (λ r. r ++ live_frames clock (suc i) ms)
                        (slice_at-send k (routed m.body) h sent)
                    ∙ append_assoc (slice_at k h.buffers) (routed m.body ∷ [])
                        (live_frames clock (suc i) ms),
              )))
        | inr full ↦ rw live (rw full (λ e. absurd (cc e)))
      ]
    ]

-- A batch whose loop reaches its end has put the payload of every message that was live when the loop
-- came to it into the client's buffer, in the batch's order and behind what waited, and has not changed
-- the queue store.
pub deliver_batch-buffers :
    (clock : ℕ → ℕ) (i k : ℕ) (ms : List QueuedMessage) (h : RelayHub)
    → (deliver_batch clock i k ms h).1 ≡ true
    → ((deliver_batch clock i k ms h).0.queue ≡ h.queue)
      × (slice_at k (deliver_batch clock i k ms h).0.buffers
          ≡ slice_at k h.buffers ++ live_frames clock i ms)
deliver_batch-buffers clock i k ms h e = deliver_batch-Finished clock i k ms h e

-- A batch ends if the client's buffer has room for all of it.
pub deliver_batch-ends :
    (clock : ℕ → ℕ) (i k : ℕ) (ms : List QueuedMessage) (h : RelayHub)
    → length (slice_at k h.buffers) + length ms ≤ ws_send_buffer_size
    → (deliver_batch clock i k ms h).1 ≡ true
unfolding deliver_batch
deliver_batch-ends clock i k [] h le = refl
deliver_batch-ends clock i k (m ∷ ms) h le =
    let t = (send k (routed m.body) h).0 in
    let sent : (send k (routed m.body) h).1 ≡ true = send-room k (routed m.body) h ∙ ground arith in
    if_elim (λ (r : RelayHub × Bool). r.1 ≡ true) (is_expired (clock i) m)
      (λ _. deliver_batch-ends clock (suc i) k ms h (omega arith))
      (λ _. rw sent (
        deliver_batch-ends clock (suc i) k ms t (
          let e = slice_at-send k (routed m.body) h sent in
          rw e (omega (arith, length-append (slice_at k h.buffers) (routed m.body ∷ []))))))

deliver_batch-append :
    (clock : ℕ → ℕ) (i k : ℕ) (before after : List QueuedMessage) (h : RelayHub)
    → (deliver_batch clock i k before h).1 ≡ true
    → deliver_batch clock i k (before ++ after) h
      ≡ deliver_batch clock (i + length before) k after (deliver_batch clock i k before h).0
unfolding deliver_batch
deliver_batch-append clock i k [] after h = λ e. let n : i + 0 ≡ i = omega arith in rw n refl
deliver_batch-append clock i k (m ∷ before) after h =
    let t = (send k (routed m.body) h).0 in
    let n : i + suc (length before) ≡ suc i + length before = omega arith in
    elim (Bool-cases (is_expired (clock i) m)) [
      | inl old ↦ rw old (rw n (deliver_batch-append clock (suc i) k before after h))
      | inr live ↦ elim (Bool-cases (send k (routed m.body) h).1) [
        | inl sent ↦ rw live (rw sent (rw n (deliver_batch-append clock (suc i) k before after t)))
        | inr full ↦ rw live (rw full (λ e. absurd (cc e)))
      ]
    ]

send_full : (k : ℕ) (f : Frame) (h : RelayHub) → has_room k h ≡ false → send k f h ≡ (h, false)
unfolding send
send_full k f h full = ground arith

deliver_batch_full :
    (clock : ℕ → ℕ) (i k : ℕ) (m : QueuedMessage) (after : List QueuedMessage) (h : RelayHub)
    → has_room k h ≡ false
    → is_expired (clock i) m ≡ false
    → deliver_batch clock i k (m ∷ after) h ≡ (requeue m h, false)
unfolding deliver_batch
deliver_batch_full clock i k m after h full live =
    rw live (rw (send_full k (routed m.body) h full) refl)

-- Where the message goes that found the buffer full: with no queue nowhere; else it is the last of its
-- recipient's queue, unless the queue is closed or full and stays as it is.
abbrev pub PutBack : QueuedMessage → Option MemoryStore → Option MemoryStore → Type 0
PutBack m none t = t ≡ none
PutBack m (some q) t =
    (q' : MemoryStore) × (t ≡ some q')
    × (((j : Text)
          → slice_at j q'.queues ≡ (
              if m.recipient_did == j
              then slice_at j (make_room q).queues ++ m ∷ []
              else slice_at j (make_room q).queues))
        ⊎ (((q.closed ≡ true)
              ⊎ ((0 < q.config.max_queue_size)
                  × (q.config.max_queue_size ≤ length (slice_at m.recipient_did q.queues))))
            × (q' ≡ q)))

requeue-buffers : (m : QueuedMessage) (h : RelayHub) → (requeue m h).buffers ≡ h.buffers
unfolding requeue
requeue-buffers m h = ground arith

requeue-PutBack : (m : QueuedMessage) (h : RelayHub) → PutBack m h.queue (requeue m h).queue
unfolding requeue
requeue-PutBack m h = go h.queue refl
  where
    go :
        (o : Option MemoryStore)
        → h.queue ≡ o
        → let t : RelayHub = elim o [
          | none ↦ h
          | some q ↦ record h { queue = some (enqueue m q).0 }
        ] in
          PutBack m o t.queue
    go none absent = absent
    go (some q) there = elim (Option-cases (enqueue m q).1) [
      | inl e ↦ ((enqueue m q).0, refl, inl (λ j. enqueue-slice_at m q j e))
      | inr (x, e) ↦
          (let (same, why) = enqueue-refused m q e in
            (
              (enqueue m q).0,
              refl,
              inr (elim why [ inl (a, b) ↦ inl b | inr (a, b, c) ↦ inr (b, c) ], same),
            ))
    ]

-- When the buffer is full at a live message of a batch, the loop ends there and the outcome is the same
-- whatever stands behind the message: the buffers stay, and that message alone goes back, to the end of
-- its recipient's queue as `Enqueue` puts it there, or, with the queue closed or full, nowhere.
pub deliver_batch-lost :
    (clock : ℕ → ℕ) (i k : ℕ) (before after : List QueuedMessage) (m : QueuedMessage) (h : RelayHub)
    → (deliver_batch clock i k before h).1 ≡ true
    → length (slice_at k (deliver_batch clock i k before h).0.buffers) ≡ ws_send_buffer_size
    → is_expired (clock (i + length before)) m ≡ false
    → let reached = (deliver_batch clock i k before h).0 in
      let (t, finished) = deliver_batch clock i k (before ++ m ∷ after) h in
      (finished ≡ false)
      × (t.buffers ≡ reached.buffers)
      × PutBack m reached.queue t.queue
      × (deliver_batch clock i k (before ++ m ∷ []) h ≡ (t, finished))
deliver_batch-lost clock i k before after m h e full live =
    let reached = (deliver_batch clock i k before h).0 in
    let stops : (rest : List QueuedMessage)
        → deliver_batch clock i k (before ++ m ∷ rest) h ≡ (requeue m reached, false) =
      (λ rest.
        deliver_batch-append clock i k before (m ∷ rest) h e
        ∙ deliver_batch_full clock (i + length before) k m rest reached (ground arith) live) in
    (
      ap (λ (r : RelayHub × Bool). r.1) (stops after),
      ap (λ (r : RelayHub × Bool). r.0.buffers) (stops after) ∙ requeue-buffers m reached,
      subst (PutBack m reached.queue) (sym (ap (λ (r : RelayHub × Bool). r.0.queue) (stops after)))
          (requeue-PutBack m reached),
      stops [] ∙ sym (stops after),
    )
