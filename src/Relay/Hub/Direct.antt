-- ===== src/Relay/Hub/Direct.antt =====
-- Routing to one recipient (`Route` of cmd/relay/hub.go): which buffer the payload reaches, what the
-- acknowledgement says, and where a message is when routing reports no error.
use msg2agent.Prelude.{
  ℕ, Text, text, nat_eq, text_eq, ◌==◌, nat_beq_iff, ◌≡◌, refl, sym, ◌∙◌, ap, Bool, true, false,
  ◌&&◌, Bool-cases, inl, inr, ◌⊎◌, Option, none, some, List, [], ◌∷◌, ◌++◌, if◌then◌else◌, if_elim,
  arith,
}
use msg2agent.Prelude.Dict.{get, slice_at, slice_at-put}
use msg2agent.Queue.{QueueError}
use msg2agent.Queue.Memory.{MemoryStore, enqueue}
use msg2agent.Relay.Hub.{
  recipient_not_found, Frame, routed, ack, presence_update, channel_deleted, channel_sender_key,
  response, Message, RelayHub, RouteError, has_room, send, send_delivery_ack, acknowledge,
  queued_message, offline_queue, after_enqueue, route_offline, route_online, route_direct,
}

-- The payloads that wait in a buffer.
unfoldable pub payloads : List Frame → List Text
payloads [] = []
payloads (routed p ∷ fs) = p ∷ payloads fs
payloads (ack i d s t ∷ fs) = payloads fs
payloads (presence_update d s t ∷ fs) = payloads fs
payloads (channel_deleted i n ∷ fs) = payloads fs
payloads (channel_sender_key i n c k ∷ fs) = payloads fs
payloads (response r ∷ fs) = payloads fs

-- The acknowledgements that wait in a buffer: the message and what is said of its delivery.
unfoldable pub notices : List Frame → List (ℕ × Bool)
notices [] = []
notices (routed p ∷ fs) = notices fs
notices (ack i d s t ∷ fs) = (i, d) ∷ notices fs
notices (presence_update d s t ∷ fs) = notices fs
notices (channel_deleted i n ∷ fs) = notices fs
notices (channel_sender_key i n c k ∷ fs) = notices fs
notices (response r ∷ fs) = notices fs

append_nil : {A : Type 0} (xs : List A) → xs ++ [] ≡ xs
append_nil [] = refl
append_nil (x ∷ xs) = ap (λ r. x ∷ r) (append_nil xs)

payloads-append : (xs ys : List Frame) → payloads (xs ++ ys) ≡ payloads xs ++ payloads ys
unfolding payloads
payloads-append [] ys = refl
payloads-append (routed p ∷ xs) ys = ap (λ r. p ∷ r) (payloads-append xs ys)
payloads-append (ack i d s t ∷ xs) ys = payloads-append xs ys
payloads-append (presence_update d s t ∷ xs) ys = payloads-append xs ys
payloads-append (channel_deleted i n ∷ xs) ys = payloads-append xs ys
payloads-append (channel_sender_key i n c k ∷ xs) ys = payloads-append xs ys
payloads-append (response r ∷ xs) ys = payloads-append xs ys

notices-append : (xs ys : List Frame) → notices (xs ++ ys) ≡ notices xs ++ notices ys
unfolding notices
notices-append [] ys = refl
notices-append (routed p ∷ xs) ys = notices-append xs ys
notices-append (ack i d s t ∷ xs) ys = ap (λ r. (i, d) ∷ r) (notices-append xs ys)
notices-append (presence_update d s t ∷ xs) ys = notices-append xs ys
notices-append (channel_deleted i n ∷ xs) ys = notices-append xs ys
notices-append (channel_sender_key i n c k ∷ xs) ys = notices-append xs ys
notices-append (response r ∷ xs) ys = notices-append xs ys

slice_at-send :
    (j k : ℕ) (f : Frame) (h : RelayHub)
    → slice_at j (send k f h).0.buffers
      ≡ (if k == j && has_room k h then slice_at j h.buffers ++ f ∷ [] else slice_at j h.buffers)
unfolding send
slice_at-send j k f h =
    ground (arith, slice_at-put k j (slice_at k h.buffers ++ f ∷ []) h.buffers, nat_beq_iff k j)

-- A send puts a payload or a notice into the buffer of its client, if there is room.
payloads-send :
    (j k : ℕ) (p : Text) (h : RelayHub)
    → payloads (slice_at j (send k (routed p) h).0.buffers)
      ≡ payloads (slice_at j h.buffers) ++ (if k == j && has_room k h then p ∷ [] else [])
unfolding payloads
payloads-send j k p h = elim (Bool-cases (k == j && has_room k h)) [
  | inl y ↦
      rw (slice_at-send j k (routed p) h)
        (rw y (payloads-append (slice_at j h.buffers) (routed p ∷ [])))
  | inr n ↦
      rw (slice_at-send j k (routed p) h)
        (rw n (sym (append_nil (payloads (slice_at j h.buffers)))))
]

payloads-send-ack :
    (j k i : ℕ) (d : Bool) (st : Text) (now : ℕ) (h : RelayHub)
    → payloads (slice_at j (send k (ack i d st now) h).0.buffers) ≡ payloads (slice_at j h.buffers)
unfolding payloads
payloads-send-ack j k i d st now h = elim (Bool-cases (k == j && has_room k h)) [
  | inl y ↦ rw (slice_at-send j k (ack i d st now) h) (
      rw y (
        payloads-append (slice_at j h.buffers) (ack i d st now ∷ [])
        ∙ append_nil (payloads (slice_at j h.buffers))))
  | inr n ↦ rw (slice_at-send j k (ack i d st now) h) (rw n refl)
]

payloads-acknowledge :
    (j now : ℕ) (msg : Message) (s : Option ℕ) (d : Bool) (st : Text) (h : RelayHub)
    → payloads (slice_at j (acknowledge now msg s d st h).buffers) ≡ payloads (slice_at j h.buffers)
unfolding acknowledge send_delivery_ack
payloads-acknowledge j now msg none d st h = refl
payloads-acknowledge j now msg (some k) d st h =
    if_elim (λ (t : RelayHub). payloads (slice_at j t.buffers) ≡ payloads (slice_at j h.buffers))
      msg.request_ack (λ _. payloads-send-ack j k msg.id d st now h) (λ _. refl)

notices-send :
    (j k : ℕ) (p : Text) (h : RelayHub)
    → notices (slice_at j (send k (routed p) h).0.buffers) ≡ notices (slice_at j h.buffers)
unfolding notices
notices-send j k p h = elim (Bool-cases (k == j && has_room k h)) [
  | inl y ↦ rw (slice_at-send j k (routed p) h) (
      rw y (
        notices-append (slice_at j h.buffers) (routed p ∷ [])
        ∙ append_nil (notices (slice_at j h.buffers))))
  | inr n ↦ rw (slice_at-send j k (routed p) h) (rw n refl)
]

-- At most one notice is added to the buffer of `j`, for the sender's client only, and it says `d`.
abbrev pub Noticed : ℕ → Message → Option ℕ → Bool → RelayHub → RelayHub → Type 0
Noticed j msg s d h t =
    (notices (slice_at j t.buffers) ≡ notices (slice_at j h.buffers))
    ⊎ ((msg.request_ack ≡ true)
        × (s ≡ some j)
        × (notices (slice_at j t.buffers) ≡ notices (slice_at j h.buffers) ++ (msg.id, d) ∷ []))

send-ack-Noticed :
    (j k now : ℕ) (msg : Message) (d : Bool) (st : Text) (h : RelayHub)
    → msg.request_ack ≡ true
    → Noticed j msg (some k) d h (send k (ack msg.id d st now) h).0
unfolding notices
send-ack-Noticed j k now msg d st h r = elim (Bool-cases (k == j && has_room k h)) [
  | inl y ↦ inr (
    r,
    ap some ((nat_beq_iff k j).0 (ground arith)),
    rw (slice_at-send j k (ack msg.id d st now) h)
        (rw y (notices-append (slice_at j h.buffers) (ack msg.id d st now ∷ []))),
  )
  | inr n ↦ inl (rw (slice_at-send j k (ack msg.id d st now) h) (rw n refl))
]

acknowledge-Noticed :
    (j now : ℕ) (msg : Message) (s : Option ℕ) (d : Bool) (st : Text) (h : RelayHub)
    → Noticed j msg s d h (acknowledge now msg s d st h)
unfolding acknowledge send_delivery_ack
acknowledge-Noticed j now msg none d st h = inl refl
acknowledge-Noticed j now msg (some k) d st h =
    if_elim (Noticed j msg (some k) d h) msg.request_ack
      (λ y. send-ack-Noticed j k now msg d st h y) (λ _. inl refl)

-- `err == nil`
abbrev pub is_success : Option RouteError → Bool
is_success none = true
is_success (some e) = false

-- Whether client `j` is the recipient's and its buffer has room.
abbrev pub takes : RelayHub → Text → ℕ → Bool
takes h to j = elim (get to h.clients) [ none ↦ false | some k ↦ k == j && has_room k h ]

-- The buffers after a call of `Route`: the payload is behind what waits for the recipient if its client
-- takes it, no other payload moves, and what the sender is told is whether there was an error.
abbrev pub DirectRouted :
    Message → Text → Option ℕ → Bool → ℕ → RelayHub → RelayHub × Option RouteError → Type 0
DirectRouted msg payload s taken j h r =
    (payloads (slice_at j r.0.buffers)
      ≡ payloads (slice_at j h.buffers) ++ (if taken then payload ∷ [] else []))
    × Noticed j msg s (is_success r.1) h r.0

module _ (j now : ℕ) (msg : Message) (payload : Text) (s : Option ℕ) (h : RelayHub) where
  acknowledge-DirectRouted :
      (d : Bool) (st : Text) (r : Option RouteError)
      → is_success r ≡ d
      → DirectRouted msg payload s false j h (acknowledge now msg s d st h, r)
  acknowledge-DirectRouted d st r e = (
    payloads-acknowledge j now msg s d st h ∙ sym (append_nil (payloads (slice_at j h.buffers))),
    rw e (acknowledge-Noticed j now msg s d st h),
  )

  after_enqueue-DirectRouted :
      (p : MemoryStore × Option QueueError)
      → DirectRouted msg payload s false j h (after_enqueue now msg s p h)
  unfolding after_enqueue
  after_enqueue-DirectRouted (q, some e) = (
    payloads-acknowledge j now msg s false _ (record h { queue = some q })
        ∙ sym (append_nil (payloads (slice_at j h.buffers))),
    acknowledge-Noticed j now msg s false _ (record h { queue = some q }),
  )
  after_enqueue-DirectRouted (q, none) = (
    payloads-acknowledge j now msg s true _ (record h { queue = some q })
        ∙ sym (append_nil (payloads (slice_at j h.buffers))),
    acknowledge-Noticed j now msg s true _ (record h { queue = some q }),
  )

  route_offline-DirectRouted :
      (q : Option MemoryStore)
      → DirectRouted msg payload s false j h (route_offline now msg payload s q h)
  unfolding route_offline
  route_offline-DirectRouted none = acknowledge-DirectRouted false _ (some recipient_not_found) refl
  route_offline-DirectRouted (some q) =
      after_enqueue-DirectRouted
        (enqueue (queued_message msg.id now h.message_ttl msg payload msg.to) q)

  Noticed-trans :
      (d : Bool) (t u : RelayHub)
      → notices (slice_at j t.buffers) ≡ notices (slice_at j h.buffers)
      → Noticed j msg s d t u
      → Noticed j msg s d h u
  Noticed-trans d t u e (inl p) = inl (p ∙ e)
  Noticed-trans d t u e (inr (a, b, c)) = inr (a, b, c ∙ ap (λ n. n ++ (msg.id, d) ∷ []) e)

  route_online-DirectRouted :
      (taken : Bool) (p : RelayHub × Bool)
      → payloads (slice_at j p.0.buffers)
        ≡ payloads (slice_at j h.buffers) ++ (if taken then payload ∷ [] else [])
      → notices (slice_at j p.0.buffers) ≡ notices (slice_at j h.buffers)
      → DirectRouted msg payload s taken j h (route_online now msg s p)
  unfolding route_online
  route_online-DirectRouted taken (t, true) e n = (
    payloads-acknowledge j now msg s true _ t ∙ e,
    Noticed-trans true t (acknowledge now msg s true (text "delivered") t) n
        (acknowledge-Noticed j now msg s true _ t),
  )
  route_online-DirectRouted taken (t, false) e n = (
    payloads-acknowledge j now msg s false _ t ∙ e,
    Noticed-trans false t (acknowledge now msg s false (text "buffer full") t) n
        (acknowledge-Noticed j now msg s false _ t),
  )

-- For every message to one recipient and every client `j`: `Route` adds the payload behind the payloads
-- that wait for `j` exactly if `j` is the recipient's client and has room, and adds no other; it adds at
-- most one acknowledgement, only to the sender's client and on request, with `delivered` true exactly
-- if `Route` returns no error.
pub route_direct_lem :
    (now : ℕ) (msg : Message) (payload : Text) (h : RelayHub) (j : ℕ)
    → DirectRouted msg payload
        (get msg.from h.clients)
        (takes h msg.to j)
        j
        h
        (route_direct now msg payload h)
unfolding route_direct
route_direct_lem now msg payload h j = go (get msg.to h.clients)
  where
    go :
        (o : Option ℕ)
        → DirectRouted msg payload
            (get msg.from h.clients)
            (elim o [ none ↦ false | some k ↦ k == j && has_room k h ])
            j
            h
            (elim o [
              | none ↦ route_offline now msg payload (get msg.from h.clients) (offline_queue h) h
              | some k ↦ route_online now msg (get msg.from h.clients) (send k (routed payload) h)
            ])
    go none =
        route_offline-DirectRouted j now msg payload (get msg.from h.clients) h (offline_queue h)
    go (some k) =
        route_online-DirectRouted j now msg payload (get msg.from h.clients) h
          (k == j && has_room k h) (send k (routed payload) h) (payloads-send j k payload h)
          (notices-send j k payload h)
