-- ===== src/Registry/Tests.antt =====
-- Concrete runs of the channels and their store.
use msg2agent.Prelude.{nat_eq, text, text_eq, refl, Option, none, some, [], ◌∷◌}
use msg2agent.Prelude.Dict.{get, put}
use msg2agent.Registry.Channel.{broadcast, member, SenderKey, Channel, has_did, is_member}
use msg2agent.Registry.Channel.Members.{IsValid}
use msg2agent.Registry.ChannelStore.{MemoryChannelStore, new_memory_channel_store, create_channel}
use msg2agent.Registry.ChannelStore.Index.{IsIndexed, IsIndexed-new, create_channel_lem}

abbrev news : Channel
news = record {
  id = 7;
  name = text "channel:news";
  kind = broadcast;
  owner_did = text "alice";
  description = [];
  members = record { did = text "alice"; joined_at = 1; role = member; sender_key = none } ∷ [];
  created_at = 1;
  updated_at = 1;
}

news-IsValid : IsValid news
unfolding is_member has_did
news-IsValid = record { distinct = (refl, tt); owned = refl }

abbrev some_key : Option SenderKey
some_key = some (record { chain_key = text "c"; signature_key = text "s"; iteration = 0 })

-- The store with the channel.
abbrev with_news : MemoryChannelStore
with_news = record { channels = (7, news) ∷ []; by_name = (text "channel:news", 7) ∷ [] }

with_news-IsIndexed : IsIndexed with_news
unfolding new_memory_channel_store get put create_channel
with_news-IsIndexed =
    (create_channel_lem news (record { channels = []; by_name = [] }) IsIndexed-new refl refl).0

abbrev renewed : Channel
renewed = record news { description = text "all of it" }
