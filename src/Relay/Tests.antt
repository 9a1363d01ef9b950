-- ===== src/Relay/Tests.antt =====
-- Concrete runs of the relay: a hub with two connected clients, a queue and a channel.
use msg2agent.Prelude.{
  ℕ, suc, ◌+◌, Text, text, text_eq, text_beq_iff, nat_eq, ◌==◌, ◌≡◌, ◌≢◌, ◌↔◌, ◌⊎◌, refl, true,
  false, none, some, List, [], ◌∷◌, ◌++◌,
}
use msg2agent.Prelude.Dict.{get, put, slice_at}
use msg2agent.Prelude.Sort.{SortFunc, by_insertion}
use msg2agent.Queue.{default_config, QueuedMessage}
use msg2agent.Queue.Memory.{MemoryStore}
use msg2agent.Queue.Memory.Split.{time}
use msg2agent.Registry.Channel.{group, member, ChannelMember, Channel}
use msg2agent.Registry.ChannelStore.{MemoryChannelStore}
use msg2agent.Relay.Hub.{
  Frame, routed, presence_update, Message, Client, RelayHub, unregister, take_did, send,
  route_direct, route_to_channel,
}
use msg2agent.Relay.Hub.Clients.{unregister-take_did}
use msg2agent.Relay.Hub.Direct.{DirectRouted, takes, route_direct_lem}
use msg2agent.Relay.Hub.Kept.{Kept, route_direct-Kept}
use msg2agent.Relay.Hub.FanOut.{repeated, appended, ChannelRouted, route_to_channel_lem}
use msg2agent.Relay.Deliver.{deliver_batch, deliver_queued_messages}
use msg2agent.Relay.Deliver.Batch.{live_frames, deliver_batch-buffers, PutBack, deliver_batch-lost}
use msg2agent.Relay.Deliver.Rounds.{pending, deliver_queued_messages-ends}
use msg2agent.Registry.Presence.{online, away, PresenceInfo}
use msg2agent.Relay.Presence.{PresenceManager, get_presence, update_presence}
use msg2agent.Relay.Presence.Notify.{watchers}
use msg2agent.Relay.Presence.Update.{update_presence_lem}
use msg2agent.Relay.Sender.{InNamespace, validate_sender, validate_sender_iff}

abbrev alice : Text
alice = text "did:wba:x:a"

abbrev bob : Text
bob = text "did:wba:x:b"

abbrev carol : Text
carol = text "did:wba:x:c"

abbrev letter : QueuedMessage
letter = record {
  id = 1;
  recipient_did = bob;
  body = text "hello";
  queued_at = 10;
  expires_at = 200;
  delivery_attempts = 0;
  last_attempt = none;
  sender_did = alice;
}

abbrev queue : MemoryStore
queue = record {
  config = default_config;
  queues = (bob, letter ∷ letter ∷ []) ∷ [];
  dlq = [];
  total_count = 2;
  closed = false;
}

abbrev member_at : Text → ChannelMember
member_at did = record { did = did; joined_at = 1; role = member; sender_key = none }

abbrev team : Channel
team = record {
  id = 7;
  name = text "channel:team";
  kind = group;
  owner_did = alice;
  description = [];
  members = member_at alice ∷ member_at bob ∷ member_at carol ∷ [];
  created_at = 1;
  updated_at = 1;
}

abbrev channels : MemoryChannelStore
channels = record { channels = (7, team) ∷ []; by_name = (text "channel:team", 7) ∷ [] }

-- Alice is connected through client 1 and bob through client 2, whose buffer is `waiting`.
abbrev hub : List Frame → RelayHub
hub waiting = record {
  enable_offline_queue = true;
  message_ttl = 1000;
  queue = some queue;
  channels = some channels;
  clients = (text "c1", 1) ∷ (alice, 1) ∷ (text "c2", 2) ∷ (bob, 2) ∷ [];
  buffers = (2, waiting) ∷ [];
}

abbrev message : Text → Message
message to = record {
  id = 9;
  from = alice;
  to = to;
  request_ack = true;
  actor_did = [];
  actor_proof = [];
}

route_direct_lem_example :
    DirectRouted
      (message bob)
      (text "hi")
      (get alice (hub []).clients)
      (takes (hub []) bob 2)
      2
      (hub [])
      (route_direct 50 (message bob) (text "hi") (hub []))
route_direct_lem_example = route_direct_lem 50 (message bob) (text "hi") (hub []) 2

route_direct-Kept_example :
    Kept 50
      (message carol)
      (text "hi")
      (hub [])
      (route_direct 50 (message carol) (text "hi") (hub []))
route_direct-Kept_example = route_direct-Kept 50 (message carol) (text "hi") (hub [])

route_to_channel_lem_example :
    ChannelRouted
      (message (text "channel:team"))
      (text "hi")
      channels
      (hub [])
      (route_to_channel suc 50 (message (text "channel:team")) (text "hi") channels (hub []))
route_to_channel_lem_example =
    route_to_channel_lem suc 50 (message (text "channel:team")) (text "hi") channels (hub [])

abbrev bobs_client : Client
bobs_client = record { handle = 2; id = text "c2"; did = bob }

distinct : (a b : Text) → (a == b) ≡ false → a ≢ b
distinct a b h e = let y : (a == b) ≡ true = (text_beq_iff a b).1 e in absurd (cc (h, y))

-- A client that is connected under its id and has not registered.
abbrev new_client : Client
new_client = record { handle = 1; id = text "c1"; did = [] }

unregister-take_did_example :
    let (new', t) = take_did bob new_client (hub []) in
    (new'.did ≡ bob)
    × (get new'.did t.clients ≡ some 1)
    × (get new'.did (unregister bobs_client t).clients ≡ none)
    × (get new'.id (unregister bobs_client t).clients ≡ some 1)
unfolding get
unregister-take_did_example =
    unregister-take_did bobs_client new_client (hub []) refl refl
      (distinct (text "c1") (text "c2") refl) (distinct (text "c1") bob refl)

-- A clock that shows 50 at the first reading and one more at each later one.
abbrev clock : ℕ → ℕ
clock i = 50 + i

deliver_batch-buffers_example :
    ((deliver_batch clock 0 2 (letter ∷ letter ∷ []) (hub [])).0.queue ≡ some queue)
    × (slice_at 2 (deliver_batch clock 0 2 (letter ∷ letter ∷ []) (hub [])).0.buffers
        ≡ slice_at 2 (hub []).buffers ++ live_frames clock 0 (letter ∷ letter ∷ []))
unfolding deliver_batch send slice_at get put
deliver_batch-buffers_example = deliver_batch-buffers clock 0 2 (letter ∷ letter ∷ []) (hub []) refl

-- A buffer with room for one frame more.
abbrev almost_full : List Frame
almost_full = repeated 255 (routed (text "x"))

deliver_batch-lost_example :
    let reached = (deliver_batch clock 0 2 (letter ∷ []) (hub almost_full)).0 in
    let (t, finished) = deliver_batch clock 0 2 (letter ∷ letter ∷ letter ∷ []) (hub almost_full) in
    (finished ≡ false)
    × (t.buffers ≡ reached.buffers)
    × PutBack letter reached.queue t.queue
    × (deliver_batch clock 0 2 (letter ∷ letter ∷ []) (hub almost_full) ≡ (t, finished))
unfolding deliver_batch send slice_at get put repeated
deliver_batch-lost_example =
    deliver_batch-lost clock 0 2 (letter ∷ []) (letter ∷ []) letter (hub almost_full) refl refl refl

abbrev by_time : SortFunc time
by_time = by_insertion time

deliver_queued_messages-ends_example :
    (t : RelayHub) × (deliver_queued_messages by_time.sort clock
        (suc (pending bob (some queue)))
        0
        bobs_client
        (hub [])
      ≡ some t)
deliver_queued_messages-ends_example =
    deliver_queued_messages-ends by_time clock 0 bobs_client (hub [])

validate_sender_iff_example :
    (validate_sender
        (λ k p s. k == s)
        (λ i. i ∷ [])
        bobs_client
        (record { namespace = text "did:wba:x:*"; signing_key = text "k" })
        (message bob)
      ≡ none)
    ↔ ((bob ≢ [])
        × ((alice ≡ bob)
            ⊎ (([] ≡ bob)
                × (text "did:wba:x:*" ≢ [])
                × InNamespace alice (text "did:wba:x:*")
                × ((text "k" == []) ≡ true))))
validate_sender_iff_example =
    validate_sender_iff (λ k p s. k == s) (λ i. i ∷ []) bobs_client
      (record { namespace = text "did:wba:x:*"; signing_key = text "k" }) (message bob)

-- Bob watches alice, who is typing in a thread.
abbrev presence : PresenceManager
presence = record {
  presence = [];
  subscriptions = (bob, (alice, true) ∷ []) ∷ [];
  typing_state = (alice, (text "t", 100) ∷ []) ∷ [];
}

update_presence_lem_example :
    let (pm', t) = update_presence 50 alice away (text "lunch") presence (hub []) in
    (info : PresenceInfo) × (get_presence alice pm' ≡ some info)
    × (away ≡ away → info.status ≡ online)
    × (away ≢ away → info.status ≡ away)
    × (info.status_text ≡ text "lunch")
    × (info.last_activity ≡ 50)
    × (info.idle_since ≡ none)
    × ((j : ℕ)
        → slice_at j t.buffers
          ≡ appended
              (watchers alice (hub []).clients j presence.subscriptions)
              (presence_update alice info.status (text "lunch"))
              (slice_at j (hub []).buffers))
update_presence_lem_example = update_presence_lem 50 alice away (text "lunch") presence (hub [])
