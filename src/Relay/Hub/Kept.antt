-- ===== src/Relay/Hub/Kept.antt =====
-- Where a message is when `Route` to one recipient (cmd/relay/hub.go) has returned.
use msg2agent.Prelude.{
  ℕ, Text, nat_eq, text_eq, ◌==◌, text_beq_iff, ◌≡◌, refl, sym, ◌∙◌, ap, Bool, true, false, inl,
  inr, ◌⊎◌, Option, none, some, List, [], ◌∷◌, ◌++◌, ◌+◌, arith, text, nat_beq_iff, Bool-cases,
}
use msg2agent.Prelude.Dict.{get, slice_at, slice_at-put}
use msg2agent.Queue.{QueueError}
use msg2agent.Queue.Memory.{MemoryStore, enqueue, make_room}
use msg2agent.Queue.Memory.Enqueue.{enqueue-slice_at, enqueue-refused}
use msg2agent.Relay.Hub.{
  Frame, routed, ack, Message, RelayHub, RouteError, has_room, send, send_delivery_ack, acknowledge,
  queued_message, offline_queue, after_enqueue, route_offline, route_online, route_direct,
}

acknowledge-queue :
    (now : ℕ) (msg : Message) (s : Option ℕ) (d : Bool) (st : Text) (h : RelayHub)
    → (acknowledge now msg s d st h).queue ≡ h.queue
unfolding acknowledge send_delivery_ack send
acknowledge-queue now msg none d st h = refl
acknowledge-queue now msg (some k) d st h = ground arith

pub append_nil : (xs : List Frame) → xs ++ [] ≡ xs
append_nil [] = refl
append_nil (x ∷ xs) = ap (λ r. x ∷ r) (append_nil xs)

pub append_assoc : (xs ys zs : List Frame) → (xs ++ ys) ++ zs ≡ xs ++ (ys ++ zs)
append_assoc [] ys zs = refl
append_assoc (x ∷ xs) ys zs = ap (λ r. x ∷ r) (append_assoc xs ys zs)

-- A send takes nothing out of a buffer.
send-buffers :
    (j k : ℕ) (f : Frame) (h : RelayHub)
    → (rest : List Frame) × (slice_at j (send k f h).0.buffers ≡ slice_at j h.buffers ++ rest)
unfolding send
send-buffers j k f h = elim (Bool-cases (has_room k h)) [
  | inr full ↦ rw full ([], sym (append_nil (slice_at j h.buffers)))
  | inl room ↦ rw room (elim (Bool-cases (k == j)) [
    | inl y ↦ (
      f ∷ [],
      ground (arith, slice_at-put k j (slice_at k h.buffers ++ f ∷ []) h.buffers, nat_beq_iff k j),
    )
    | inr n ↦ (
      [],
      ground (
        arith,
        slice_at-put k j (slice_at k h.buffers ++ f ∷ []) h.buffers,
        append_nil (slice_at j h.buffers),
      ),
    )
  ])
]

pub send-queue : (k : ℕ) (f : Frame) (h : RelayHub) → (send k f h).0.queue ≡ h.queue
unfolding send
send-queue k f h = ground arith

pub send-room : (k : ℕ) (f : Frame) (h : RelayHub) → (send k f h).1 ≡ has_room k h
unfolding send
send-room k f h = ground arith

-- What waits for a client after a send to it that was taken.
pub slice_at-send :
    (k : ℕ) (f : Frame) (h : RelayHub)
    → (send k f h).1 ≡ true
    → slice_at k (send k f h).0.buffers ≡ slice_at k h.buffers ++ f ∷ []
unfolding send
slice_at-send k f h r =
    ground (arith, slice_at-put k k (slice_at k h.buffers ++ f ∷ []) h.buffers, nat_beq_iff k k)

-- An acknowledgement takes nothing out of a buffer.
acknowledge-buffers :
    (now : ℕ) (msg : Message) (s : Option ℕ) (d : Bool) (st : Text) (h : RelayHub) (j : ℕ)
    → (rest : List Frame) × (slice_at j (acknowledge now msg s d st h).buffers
        ≡ slice_at j h.buffers ++ rest)
unfolding acknowledge send_delivery_ack
acknowledge-buffers now msg none d st h j = ([], sym (append_nil (slice_at j h.buffers)))
acknowledge-buffers now msg (some k) d st h j = elim (Bool-cases msg.request_ack) [
  | inl y ↦ rw y (send-buffers j k (ack msg.id d st now) h)
  | inr n ↦ rw n ([], sym (append_nil (slice_at j h.buffers)))
]

-- Where a message is when `Route` to one recipient has returned.
abbrev pub Kept : ℕ → Message → Text → RelayHub → RelayHub × Option RouteError → Type 0
Kept now msg payload h (t, none) =
    ((k : ℕ) × (get msg.to h.clients ≡ some k)
      × (has_room k h ≡ true)
      × (t.queue ≡ h.queue)
      × ((rest : List Frame) × (slice_at k t.buffers
            ≡ (slice_at k h.buffers ++ routed payload ∷ []) ++ rest)))
    ⊎ ((get msg.to h.clients ≡ none)
        × ((q : MemoryStore) × (q' : MemoryStore) × (h.queue ≡ some q)
            × (t.queue ≡ some q')
            × (slice_at msg.to q'.queues
                ≡ slice_at msg.to (make_room q).queues
                  ++ record {
                    id = msg.id;
                    recipient_did = msg.to;
                    body = payload;
                    queued_at = now;
                    expires_at = now + h.message_ttl;
                    delivery_attempts = 0;
                    last_attempt = none;
                    sender_did = msg.from;
                  }
                    ∷ [])))
Kept now msg payload h (t, some e) = t.queue ≡ h.queue

after_enqueue-Kept :
    (now : ℕ) (msg : Message) (payload : Text) (s : Option ℕ) (q : MemoryStore) (h : RelayHub)
    → get msg.to h.clients ≡ none
    → h.queue ≡ some q
    → (p : MemoryStore × Option QueueError)
    → enqueue (queued_message msg.id now h.message_ttl msg payload msg.to) q ≡ p
    → Kept now msg payload h (after_enqueue now msg s p h)
unfolding after_enqueue
after_enqueue-Kept now msg payload s q h off e (q', some x) p =
    let m = queued_message msg.id now h.message_ttl msg payload msg.to in
    let same : q' ≡ q = ap (λ r. r.0) (sym p) ∙ (enqueue-refused m q (ap (λ r. r.1) p)).0 in
    acknowledge-queue now msg s false _ (record h { queue = some q' }) ∙ ap some same ∙ sym e
after_enqueue-Kept now msg payload s q h off e (q', none) p =
    let m = queued_message msg.id now h.message_ttl msg payload msg.to in
    inr (
      off,
      (
        q,
        q',
        e,
        acknowledge-queue now msg s true _ (record h { queue = some q' }),
        ap (λ r. slice_at msg.to r.0.queues) (sym p)
            ∙ enqueue-slice_at m q msg.to (ap (λ r. r.1) p)
            ∙ (let k : (msg.to == msg.to) ≡ true = (text_beq_iff msg.to msg.to).1 refl in
                rw k refl),
      ),
    )

route_offline-Kept :
    (now : ℕ) (msg : Message) (payload : Text) (s : Option ℕ) (h : RelayHub)
    → get msg.to h.clients ≡ none
    → (q : Option MemoryStore) → offline_queue h ≡ q
    → Kept now msg payload h (route_offline now msg payload s q h)
unfolding route_offline
route_offline-Kept now msg payload s h off none e = acknowledge-queue now msg s false _ h
route_offline-Kept now msg payload s h off (some q) e =
    after_enqueue-Kept now msg payload s q h off (ground arith)
      (enqueue (queued_message msg.id now h.message_ttl msg payload msg.to) q) refl

route_online-Kept :
    (now : ℕ) (msg : Message) (payload : Text) (s : Option ℕ) (h : RelayHub) (k : ℕ)
    → get msg.to h.clients ≡ some k
    → (p : RelayHub × Bool) → p.0.queue ≡ h.queue
    → p.1 ≡ has_room k h
    → (p.1 ≡ true → slice_at k p.0.buffers ≡ slice_at k h.buffers ++ routed payload ∷ [])
    → Kept now msg payload h (route_online now msg s p)
unfolding route_online
route_online-Kept now msg payload s h k on (t, true) e r b =
    let (rest, a) = acknowledge-buffers now msg s true (text "delivered") t k in
    inl (
      k,
      on,
      sym r,
      acknowledge-queue now msg s true _ t ∙ e,
      (rest, a ∙ ap (λ l. l ++ rest) (b refl)),
    )
route_online-Kept now msg payload s h k on (t, false) e r b =
    acknowledge-queue now msg s false _ t ∙ e

-- When `Route` to one recipient returns no error, the payload stands in the buffer of the recipient's
-- client, which had room, directly behind what waited there, and the queue store is unchanged; or, with
-- the recipient not connected, the message is the last of the recipient's queue, with its sender and
-- payload, queued at the time of the call, expiring a message lifetime later and never attempted. With an
-- error the queue store is unchanged.
pub route_direct-Kept :
    (now : ℕ) (msg : Message) (payload : Text) (h : RelayHub)
    → Kept now msg payload h (route_direct now msg payload h)
unfolding route_direct
route_direct-Kept now msg payload h = go (get msg.to h.clients) refl
  where
    go :
        (o : Option ℕ)
        → get msg.to h.clients ≡ o
        → Kept now msg payload h (elim o [
          | none ↦ route_offline now msg payload (get msg.from h.clients) (offline_queue h) h
          | some k ↦ route_online now msg (get msg.from h.clients) (send k (routed payload) h)
        ])
    go none e =
        route_offline-Kept now msg payload (get msg.from h.clients) h e (offline_queue h) refl
    go (some k) e =
        route_online-Kept now msg payload (get msg.from h.clients) h k e (send k (routed payload) h)
          (send-queue k (routed payload) h) (send-room k (routed payload) h)
          (slice_at-send k (routed payload) h)
