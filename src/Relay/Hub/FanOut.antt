-- ===== src/Relay/Hub/FanOut.antt =====
-- The fan-out of a channel message (cmd/relay/channel.go): which buffers it reaches, and how often.
use msg2agent.Prelude.{
  ℕ, zero, suc, ◌-◌, ◌<◌, ◌≤◌, min, Text, nat_eq, text_eq, ◌==◌, nat_beq_iff, ◌≡◌, refl, sym, ◌∙◌,
  true, false, Bool-cases, inl, inr, Option, none, some, Option-cases, List, [], ◌∷◌, ◌++◌, length,
  length-append, if◌then◌else◌, if_elim, arith, not, ltb, ◌⊎◌, ok, err, ap, Result, subst,
}
use msg2agent.Prelude.Dict.{Dict, get, slice_at, slice_at-put}
use msg2agent.Registry.Channel.{ChannelMember, Channel, can_send, ChannelError}
use msg2agent.Registry.ChannelStore.{MemoryChannelStore, get_channel_by_name}
use msg2agent.Relay.Hub.{
  Frame, routed, Message, RelayHub, RouteError, ws_send_buffer_size, send, queue_for_offline,
  send_member, fan_out, route_to_channel, route_on_channel,
}

-- How many of the members other than the sender are connected through client `j`.
unfoldable pub recipients : Text → Dict Text ℕ → ℕ → List ChannelMember → ℕ
recipients from clients j [] = 0
recipients from clients j (m ∷ ms) =
    let rest = recipients from clients j ms in
    if m.did == from
    then rest
    else elim (get m.did clients) [ none ↦ rest | some k ↦ if k == j then suc rest else rest ]

unfoldable pub repeated : ℕ → Frame → List Frame
repeated zero f = []
repeated (suc n) f = f ∷ repeated n f

-- `n` sends of `f` to a client whose buffer is `b`: those that find no room are dropped.
abbrev pub appended : ℕ → Frame → List Frame → List Frame
appended n f b = b ++ repeated (min n (ws_send_buffer_size - length b)) f

append_assoc : (xs ys zs : List Frame) → (xs ++ ys) ++ zs ≡ xs ++ (ys ++ zs)
append_assoc [] ys zs = refl
append_assoc (x ∷ xs) ys zs = ap (λ r. x ∷ r) (append_assoc xs ys zs)

append_nil : (xs : List Frame) → xs ++ [] ≡ xs
append_nil [] = refl
append_nil (x ∷ xs) = ap (λ r. x ∷ r) (append_nil xs)

pub appended_zero : (f : Frame) (b : List Frame) → appended 0 f b ≡ b
unfolding repeated
appended_zero f b = let e : min 0 (256 - length b) ≡ 0 = omega arith in rw e (append_nil b)

appended_room :
    (n : ℕ) (f : Frame) (b : List Frame)
    → length b < ws_send_buffer_size
    → appended (suc n) f b ≡ appended n f (b ++ f ∷ [])
unfolding repeated
appended_room n f b h =
    let e : min (suc n) (256 - length b) ≡ suc (min n (256 - length (b ++ f ∷ []))) =
      omega (arith, length-append b (f ∷ [])) in
    rw e (sym (append_assoc b (f ∷ []) (repeated (min n (256 - length (b ++ f ∷ []))) f)))

appended_full :
    (n : ℕ) (f : Frame) (b : List Frame)
    → ws_send_buffer_size ≤ length b
    → appended (suc n) f b ≡ appended n f b
appended_full n f b h =
    let e : min (suc n) (256 - length b) ≡ min n (256 - length b) = omega arith in rw e refl

pub send_clients : (k : ℕ) (f : Frame) (h : RelayHub) → (send k f h).0.clients ≡ h.clients
unfolding send
send_clients k f h = ground arith

slice_at-send_room :
    (k : ℕ) (f : Frame) (h : RelayHub)
    → length (slice_at k h.buffers) < ws_send_buffer_size
    → slice_at k (send k f h).0.buffers ≡ slice_at k h.buffers ++ f ∷ []
unfolding send
slice_at-send_room k f h r =
    ground (arith, slice_at-put k k (slice_at k h.buffers ++ f ∷ []) h.buffers, nat_beq_iff k k)

slice_at-send_full :
    (j k : ℕ) (f : Frame) (h : RelayHub)
    → ws_send_buffer_size ≤ length (slice_at k h.buffers)
    → slice_at j (send k f h).0.buffers ≡ slice_at j h.buffers
unfolding send
slice_at-send_full j k f h r = ground arith

pub slice_at-send_other :
    (j k : ℕ) (f : Frame) (h : RelayHub)
    → (k == j) ≡ false
    → slice_at j (send k f h).0.buffers ≡ slice_at j h.buffers
unfolding send
slice_at-send_other j k f h o =
    ground (arith, slice_at-put k j (slice_at k h.buffers ++ f ∷ []) h.buffers)

pub appended-send :
    (n k : ℕ) (f : Frame) (h : RelayHub)
    → appended n f (slice_at k (send k f h).0.buffers) ≡ appended (suc n) f (slice_at k h.buffers)
appended-send n k f h = elim (room-cases (length (slice_at k h.buffers))) [
  | inl room ↦ ap (appended n f) (slice_at-send_room k f h room) ∙ sym (appended_room n f _ room)
  | inr full ↦ ap (appended n f) (slice_at-send_full k k f h full) ∙ sym (appended_full n f _ full)
]
  where
    room-cases : (n : ℕ) → (n < ws_send_buffer_size) ⊎ (ws_send_buffer_size ≤ n)
    room-cases n = elim (Bool-cases (ltb n 256)) [
      | inl h ↦ inl (ground arith)
      | inr h ↦ inr (ground arith)
    ]

queue_for_offline_lem :
    (id now : ℕ) (msg : Message) (payload did : Text) (h : RelayHub)
    → ((queue_for_offline id now msg payload did h).clients ≡ h.clients)
      × ((queue_for_offline id now msg payload did h).buffers ≡ h.buffers)
unfolding queue_for_offline
queue_for_offline_lem id now msg payload did h = ground arith

module _ (id now : ℕ) (msg : Message) (payload : Text) (m : ChannelMember) (h : RelayHub) where
  send_member-clients : (send_member id now msg payload m h).clients ≡ h.clients
  unfolding send_member send queue_for_offline
  send_member-clients = ground arith

  send_member-sender : (m.did == msg.from) ≡ true → send_member id now msg payload m h ≡ h
  unfolding send_member
  send_member-sender e = ground arith

  send_member-offline :
      (m.did == msg.from) ≡ false
      → get m.did h.clients ≡ none
      → (send_member id now msg payload m h).buffers ≡ h.buffers
  unfolding send_member queue_for_offline
  send_member-offline e g = ground arith

  send_member-online :
      (m.did == msg.from) ≡ false
      → {k : ℕ} → get m.did h.clients ≡ some k
      → (send_member id now msg payload m h).buffers ≡ (send k (routed payload) h).0.buffers
  unfolding send_member
  send_member-online e g = rw e (rw g refl)

  module _ (j : ℕ) (ms : List ChannelMember) where
    recipients-sender :
        (m.did == msg.from) ≡ true
        → recipients msg.from h.clients j (m ∷ ms) ≡ recipients msg.from h.clients j ms
    unfolding recipients
    recipients-sender e = ground arith

    recipients-offline :
        get m.did h.clients ≡ none
        → recipients msg.from h.clients j (m ∷ ms) ≡ recipients msg.from h.clients j ms
    unfolding recipients
    recipients-offline g = ground arith

    recipients-online :
        (m.did == msg.from) ≡ false
        → {k : ℕ} → get m.did h.clients ≡ some k
        → recipients msg.from h.clients j (m ∷ ms) ≡ (
            if k == j
            then suc (recipients msg.from h.clients j ms)
            else recipients msg.from h.clients j ms)
    unfolding recipients
    recipients-online e g = rw e (rw g refl)

    -- One round leaves the other rounds as much to append as it does not append itself.
    appended-send_member :
        appended
          (recipients msg.from h.clients j ms)
          (routed payload)
          (slice_at j (send_member id now msg payload m h).buffers)
        ≡ appended
            (recipients msg.from h.clients j (m ∷ ms))
            (routed payload)
            (slice_at j h.buffers)
    appended-send_member = elim (Bool-cases (m.did == msg.from)) [
      | inl self ↦ rw (recipients-sender self) (rw (send_member-sender self) refl)
      | inr other ↦ elim (Option-cases (get m.did h.clients)) [
        | inl off ↦ rw (recipients-offline off) (rw (send_member-offline other off) refl)
        | inr (k, on) ↦ rw (send_member-online other on) (
            rw (recipients-online other on) (elim (Bool-cases (k == j)) [
              | inl hit ↦ rw hit (
                  let e : k ≡ j = (nat_beq_iff k j).0 hit in
                  rw e (appended-send (recipients msg.from h.clients j ms) j (routed payload) h))
              | inr miss ↦ rw miss (rw (slice_at-send_other j k (routed payload) h miss) refl)
            ]))
      ]
    ]

fan_out-clients :
    (ids : ℕ → ℕ) (i now : ℕ) (msg : Message) (payload : Text) (ms : List ChannelMember)
    (h : RelayHub)
    → (fan_out ids i now msg payload ms h).clients ≡ h.clients
unfolding fan_out
fan_out-clients ids i now msg payload [] h = refl
fan_out-clients ids i now msg payload (m ∷ ms) h =
    fan_out-clients ids (suc i) now msg payload ms (send_member (ids i) now msg payload m h)
    ∙ send_member-clients (ids i) now msg payload m h

-- The fan-out appends the payload to the buffer of client `j` once for every member other than the
-- sender that is connected through `j`, as often as there is room, and changes nothing else in it.
pub fan_out-buffers :
    (ids : ℕ → ℕ) (i now : ℕ) (msg : Message) (payload : Text) (ms : List ChannelMember)
    (h : RelayHub) (j : ℕ)
    → slice_at j (fan_out ids i now msg payload ms h).buffers
      ≡ appended (recipients msg.from h.clients j ms) (routed payload) (slice_at j h.buffers)
unfolding fan_out recipients
fan_out-buffers ids i now msg payload [] h j =
    sym (appended_zero (routed payload) (slice_at j h.buffers))
fan_out-buffers ids i now msg payload (m ∷ ms) h j =
    let t = send_member (ids i) now msg payload m h in
    let rest = fan_out-buffers ids (suc i) now msg payload ms t j in
    rest
    ∙ ap (λ c. appended (recipients msg.from c j ms) (routed payload) (slice_at j t.buffers))
        (send_member-clients (ids i) now msg payload m h)
    ∙ appended-send_member (ids i) now msg payload m h j ms

-- What routing to a channel did: the fan-out to the members of a channel on which the sender may send,
-- or nothing.
abbrev pub ChannelRouted :
    Message → Text → MemoryChannelStore → RelayHub → RelayHub × Option RouteError → Type 0
ChannelRouted msg payload store h (t, some e) =
    (t ≡ h)
    × ((c : Channel) → get_channel_by_name msg.to store ≡ ok c → can_send c msg.from ≡ false)
ChannelRouted msg payload store h (t, none) =
    (c : Channel) × (get_channel_by_name msg.to store ≡ ok c)
    × (can_send c msg.from ≡ true)
    × ((j : ℕ)
        → slice_at j t.buffers
          ≡ appended (recipients msg.from h.clients j c.members) (routed payload)
              (slice_at j h.buffers))

route_on_channel_lem :
    (ids : ℕ → ℕ) (now : ℕ) (msg : Message) (payload : Text) (store : MemoryChannelStore)
    (h : RelayHub) (r : Result ChannelError Channel)
    → get_channel_by_name msg.to store ≡ r
    → ChannelRouted msg payload store h (route_on_channel ids now msg payload r h)
unfolding route_on_channel
route_on_channel_lem ids now msg payload store h (err x) e = (refl, (λ d g. absurd (cc (e, g))))
route_on_channel_lem ids now msg payload store h (ok c) e =
    if_elim (ChannelRouted msg payload store h) (not (can_send c msg.from))
      (λ n. (
        refl,
        (λ d g.
            (let q : c ≡ d = cc (e, g) in
              subst (λ d. can_send d msg.from ≡ false) q (ground arith))),
      ))
      (λ y. (c, e, ground arith, fan_out-buffers ids 0 now msg payload c.members h))

-- Routing to a channel that returns an error leaves the hub as it was, and the channel does not exist or
-- the sender may not send on it; without an error the channel exists, the sender may send on it, and
-- every client's buffer is what it was with the payload appended once for each member other than the
-- sender that is connected through the client, as often as there is room.
pub route_to_channel_lem :
    (ids : ℕ → ℕ) (now : ℕ) (msg : Message) (payload : Text) (store : MemoryChannelStore)
    (h : RelayHub)
    → ChannelRouted msg payload store h (route_to_channel ids now msg payload store h)
unfolding route_to_channel
route_to_channel_lem ids now msg payload store h =
    route_on_channel_lem ids now msg payload store h (get_channel_by_name msg.to store) refl
