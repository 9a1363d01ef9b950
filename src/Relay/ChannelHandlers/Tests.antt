-- ===== src/Relay/ChannelHandlers/Tests.antt =====
-- Concrete runs of the channel requests on a hub with one channel.
use msg2agent.Prelude.{
  ℕ, nat_eq, Text, text, text_eq, ◌≡◌, refl, false, Option, none, some, [], ◌∷◌, Result, ok, err,
  ap, sym, subst,
}
use msg2agent.Prelude.Dict.{get, put}
use msg2agent.Registry.Channel.{Channel, broadcast, member, is_member, has_did}
use msg2agent.Registry.Channel.Members.{IsValid}
use msg2agent.Registry.ChannelStore.{
  MemoryChannelStore, new_memory_channel_store, create_channel, get_channel,
}
use msg2agent.Registry.ChannelStore.Index.{IsIndexed-new}
use msg2agent.Relay.Hub.{Client, RelayHub}
use msg2agent.Relay.ChannelHandlers.{
  handle_request, serve_request, handle_channel_members, handle_channel_join, join_channel,
}
use msg2agent.Relay.ChannelRequest.{
  ChannelRef, ChannelFailure, ChannelReply, join_request, delete_request, joined,
}
use msg2agent.Relay.ChannelHandlers.Valid.{IsSound, HubIsSound, create_channel-IsSound}
use msg2agent.Relay.ChannelHandlers.Requests.{IsFresh, handle_request-HubIsSound}
use msg2agent.Relay.ChannelHandlers.Rules.{
  MembersShown, ChannelJoined, handle_channel_members_lem, handle_channel_join_lem,
}
use msg2agent.Relay.ChannelHandlers.Served.{DeleteServed, serve_request-DeleteServed}
use msg2agent.Relay.ChannelHandlers.Race.{join_channel-lost}

abbrev news : Channel
news = record {
  id = 7;
  name = text "channel:news";
  kind = broadcast;
  owner_did = text "alice";
  description = [];
  members = record { did = text "alice"; joined_at = 1; role = member; sender_key = none } ∷ [];
  created_at = 1;
  updated_at = 1;
}

news-IsValid : IsValid news
unfolding is_member has_did
news-IsValid = record { distinct = (refl, tt); owned = refl }

new-IsSound : IsSound new_memory_channel_store
unfolding new_memory_channel_store get
new-IsSound = record { indexed = IsIndexed-new; valid = λ id ch h. absurd (cc h) }

abbrev store : MemoryChannelStore
store = (create_channel news new_memory_channel_store).0

store-IsSound : IsSound store
unfolding new_memory_channel_store get
store-IsSound = create_channel-IsSound news new_memory_channel_store new-IsSound refl news-IsValid

abbrev hub : RelayHub
hub = record {
  enable_offline_queue = false;
  message_ttl = 60;
  queue = none;
  channels = some store;
  clients = (text "alice", 1) ∷ (text "bob", 2) ∷ [];
  buffers = [];
}

hub-HubIsSound : HubIsSound hub
hub-HubIsSound s e = let q : store ≡ s = cc e in subst IsSound q store-IsSound

hub-IsFresh : IsFresh 9 hub
unfolding create_channel new_memory_channel_store get put
hub-IsFresh s e =
    let q : store ≡ s = cc e in ap (λ (x : MemoryChannelStore). get 9 x.channels) (sym q)

abbrev alice : Client
alice = record { handle = 1; id = text "c1"; did = text "alice" }

abbrev bob : Client
bob = record { handle = 2; id = text "c2"; did = text "bob" }

abbrev by_name : Option ChannelRef
by_name = some (record { channel_id = []; name = text "channel:news" })

abbrev no_uuid : Text → Option ℕ
no_uuid t = none

handle_request-HubIsSound_example :
    HubIsSound (handle_request no_uuid 9 5 bob (join_request by_name) hub).0
handle_request-HubIsSound_example =
    handle_request-HubIsSound no_uuid 9 5 bob (join_request by_name) hub hub-HubIsSound hub-IsFresh

-- Stands for the encoding of the answers.
abbrev said : Result ChannelFailure ChannelReply → Text
said (ok r) = text "ok"
said (err e) = text "error"

serve_request-DeleteServed_example :
    DeleteServed said no_uuid by_name alice hub
      (serve_request said no_uuid 9 5 alice (delete_request by_name) hub)
serve_request-DeleteServed_example =
    serve_request-DeleteServed said no_uuid 9 5 alice by_name hub hub-HubIsSound

handle_channel_members_lem_example :
    MembersShown no_uuid by_name alice hub (handle_channel_members no_uuid alice by_name hub)
handle_channel_members_lem_example =
    handle_channel_members_lem no_uuid alice by_name hub hub-HubIsSound

handle_channel_join_lem_example :
    ChannelJoined bob hub (handle_channel_join no_uuid 5 bob by_name hub)
handle_channel_join_lem_example = handle_channel_join_lem no_uuid 5 bob by_name hub hub-HubIsSound

news-stored : get 7 store.channels ≡ some news
unfolding create_channel new_memory_channel_store get put
news-stored = refl

no_member : (is_member news (text "bob") ≡ false) × (is_member news (text "carol") ≡ false)
unfolding is_member has_did
no_member = (refl, refl)

join_channel-lost_example :
    (s₁ s₂ : MemoryChannelStore) × (ch' : Channel) × (join_channel 5 (text "bob") news store hub
      ≡ (record hub { channels = some s₁ }, ok joined))
    × (join_channel 6 (text "carol") news s₁ (record hub { channels = some s₁ })
        ≡ (record hub { channels = some s₂ }, ok joined))
    × (get_channel 7 s₂ ≡ ok ch')
    × (is_member ch' (text "bob") ≡ false)
join_channel-lost_example =
    join_channel-lost 5 6 (text "bob") (text "carol") news store hub store-IsSound news-stored
      no_member.0 no_member.1 (λ e. cc)
