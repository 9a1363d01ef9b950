-- ===== src/Relay/Hub.antt =====
-- cmd/relay/hub.go and the routing of cmd/relay/channel.go. A `*Client` is a handle; the buffer of its
-- `SendCh` is the list of frames that wait in it, and a send that would block drops the frame. Logs and
-- metrics are left out. The queue behind `queue.Store` is the in-memory one.
pub mod Clients
pub mod Direct
pub mod Kept
pub mod FanOut
use msg2agent.Prelude.{
  ℕ, suc, ◌+◌, nat_eq, Text, text, text_eq, ◌==◌, Bool, true, false, not, ◌&&◌, ltb, is_nil, Option,
  none, some, List, [], ◌∷◌, ◌++◌, length, Result, ok, err, if◌then◌else◌,
}
use msg2agent.Prelude.Dict.{Dict, get, put, delete, slice_at}
use msg2agent.Prelude.Strings.{has_prefix}
use msg2agent.Queue.{QueueError, QueuedMessage}
use msg2agent.Queue.Memory.{MemoryStore, enqueue}
use msg2agent.Registry.Presence.{AgentStatus}
use msg2agent.Registry.Channel.{ChannelError, not_channel_member, ChannelMember, Channel, can_send}
use msg2agent.Registry.ChannelStore.{MemoryChannelStore, get_channel_by_name}

-- What is written to a client: a routed message; the notification `relay.ack`, `relay.presence.update`,
-- `relay.channel.deleted` or `relay.channel.sender_key`; or the response to a request, encoded.
pub data Frame : Type 0 where
  routed : Text → Frame
  ack : ℕ → Bool → Text → ℕ → Frame
  presence_update : Text → AgentStatus → Text → Frame
  channel_deleted : ℕ → Text → Frame
  channel_sender_key : ℕ → Text → Text → Text → Frame
  response : Text → Frame

-- The fields of `messaging.Message` that the relay reads.
pub record Message : Type 0 where
  pub id : ℕ
  pub from : Text
  pub to : Text
  pub request_ack : Bool
  pub actor_did : Text
  pub actor_proof : Text

pub record Client : Type 0 where
  pub handle : ℕ
  pub id : Text
  pub did : Text

pub record RelayHub : Type 0 where
  pub enable_offline_queue : Bool
  pub message_ttl : ℕ
  pub queue : Option MemoryStore
  pub channels : Option MemoryChannelStore
  pub clients : Dict Text ℕ
  pub buffers : Dict ℕ (List Frame)

abbrev pub ws_send_buffer_size : ℕ
ws_send_buffer_size = 256

unfoldable pub register : Client → RelayHub → RelayHub
register c h =
    let clients = put c.id c.handle h.clients in
    record h { clients = if is_nil c.did then clients else put c.did c.handle clients }

unfoldable pub unregister : Client → RelayHub → RelayHub
unregister c h =
    let clients = delete c.id h.clients in
    record h { clients = if is_nil c.did then clients else delete c.did clients }

-- `handleRegister`'s change of the client mapping, and `c.DID = agent.DID` above it.
unfoldable pub take_did : Text → Client → RelayHub → Client × RelayHub
take_did did c h = (record c { did = did }, record h { clients = put did c.handle h.clients })

abbrev pub has_room : ℕ → RelayHub → Bool
has_room k h = ltb (length (slice_at k h.buffers)) ws_send_buffer_size

-- `select { case c.SendCh <- data: … default: … }`: the result says which case was taken.
unfoldable pub send : ℕ → Frame → RelayHub → RelayHub × Bool
send k f h =
    if has_room k h
    then (record h { buffers = put k (slice_at k h.buffers ++ f ∷ []) h.buffers }, true)
    else (h, false)

unfoldable pub send_delivery_ack : ℕ → ℕ → ℕ → Bool → Text → RelayHub → RelayHub
unfolding send
send_delivery_ack now k id delivered status h = (send k (ack id delivered status now) h).0

-- `if msg.RequestAck && senderClient != nil { … }`
unfoldable pub acknowledge : ℕ → Message → Option ℕ → Bool → Text → RelayHub → RelayHub
unfolding send_delivery_ack
acknowledge now msg none delivered status h = h
acknowledge now msg (some k) delivered status h =
    if msg.request_ack then send_delivery_ack now k msg.id delivered status h else h

pub data RouteError : Type 0 where
  channel_error : ChannelError → RouteError
  queue_failed : QueueError → RouteError
  recipient_not_found buffer_full : RouteError

unfoldable pub is_channel_uri : Text → Bool
is_channel_uri to = has_prefix to (text "channel:")

abbrev pub queued_message : ℕ → ℕ → ℕ → Message → Text → Text → QueuedMessage
queued_message id now ttl msg payload recipient_did = record {
  id = id;
  recipient_did = recipient_did;
  body = payload;
  queued_at = now;
  expires_at = now + ttl;
  delivery_attempts = 0;
  last_attempt = none;
  sender_did = msg.from;
}

-- The queue, if there is one and queueing is enabled.
abbrev pub offline_queue : RelayHub → Option MemoryStore
offline_queue h = if h.enable_offline_queue then h.queue else none

unfoldable pub after_enqueue :
    ℕ
    → Message
    → Option ℕ
    → MemoryStore × Option QueueError
    → RelayHub
    → RelayHub × Option RouteError
after_enqueue now msg sender (q, some e) h = (
  acknowledge now msg sender false (text "queue failed") (record h { queue = some q }),
  some (queue_failed e),
)
after_enqueue now msg sender (q, none) h =
    (acknowledge now msg sender true (text "queued") (record h { queue = some q }), none)

unfoldable pub route_offline :
    ℕ → Message → Text → Option ℕ → Option MemoryStore → RelayHub → RelayHub × Option RouteError
unfolding after_enqueue
route_offline now msg payload sender none h =
    (acknowledge now msg sender false (text "recipient not found") h, some recipient_not_found)
route_offline now msg payload sender (some q) h =
    after_enqueue now msg sender
      (enqueue (queued_message msg.id now h.message_ttl msg payload msg.to) q) h

unfoldable pub route_online :
    ℕ → Message → Option ℕ → RelayHub × Bool → RelayHub × Option RouteError
route_online now msg sender (h, true) = (acknowledge now msg sender true (text "delivered") h, none)
route_online now msg sender (h, false) =
    (acknowledge now msg sender false (text "buffer full") h, some buffer_full)

-- `Route` to one recipient.
unfoldable pub route_direct : ℕ → Message → Text → RelayHub → RelayHub × Option RouteError
unfolding route_offline route_online
route_direct now msg payload h =
    let sender = get msg.from h.clients in
    elim (get msg.to h.clients) [
      | none ↦ route_offline now msg payload sender (offline_queue h) h
      | some k ↦ route_online now msg sender (send k (routed payload) h)
    ]

-- `queueForOffline`: an error is logged only.
unfoldable pub queue_for_offline : ℕ → ℕ → Message → Text → Text → RelayHub → RelayHub
queue_for_offline id now msg payload did h = elim (offline_queue h) [
  | none ↦ h
  | some q ↦ record h {
    queue = some (enqueue (queued_message id now h.message_ttl msg payload did) q).0;
  }
]

-- One round of the fan-out loop; `id` is the fresh UUID of a message that is queued.
unfoldable pub send_member : ℕ → ℕ → Message → Text → ChannelMember → RelayHub → RelayHub
unfolding send queue_for_offline
send_member id now msg payload m h = if m.did == msg.from then h else elim (get m.did h.clients) [
  | some k ↦ (send k (routed payload) h).0
  | none ↦ queue_for_offline id now msg payload m.did h
]

-- `ids i` is the UUID that `uuid.NewV7` makes in round `i`.
unfoldable pub fan_out : (ℕ → ℕ) → ℕ → ℕ → Message → Text → List ChannelMember → RelayHub → RelayHub
unfolding send_member
fan_out ids i now msg payload [] h = h
fan_out ids i now msg payload (m ∷ ms) h =
    fan_out ids (suc i) now msg payload ms (send_member (ids i) now msg payload m h)

-- `routeToChannel` after the lookup of the channel.
unfoldable pub route_on_channel :
    (ℕ → ℕ)
    → ℕ
    → Message
    → Text
    → Result ChannelError Channel
    → RelayHub
    → RelayHub × Option RouteError
unfolding fan_out
route_on_channel ids now msg payload (err e) h = (h, some (channel_error e))
route_on_channel ids now msg payload (ok c) h =
    if not (can_send c msg.from)
    then (h, some (channel_error not_channel_member))
    else (fan_out ids 0 now msg payload c.members h, none)

unfoldable pub route_to_channel :
    (ℕ → ℕ) → ℕ → Message → Text → MemoryChannelStore → RelayHub → RelayHub × Option RouteError
unfolding route_on_channel
route_to_channel ids now msg payload store h =
    route_on_channel ids now msg payload (get_channel_by_name msg.to store) h

unfoldable pub route : (ℕ → ℕ) → ℕ → Message → Text → RelayHub → RelayHub × Option RouteError
unfolding route_to_channel route_direct
route ids now msg payload h = elim (if is_channel_uri msg.to then h.channels else none) [
  | some store ↦ route_to_channel ids now msg payload store h
  | none ↦ route_direct now msg payload h
]
