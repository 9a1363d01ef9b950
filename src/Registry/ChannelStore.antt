-- ===== src/Registry/ChannelStore.antt =====
-- pkg/registry/channel.go: the in-memory channel store. A channel that is stored or handed out is a
-- copy, which is what a value is here.
pub mod Index
use msg2agent.Prelude.{
  ℕ, nat_eq, Text, text_eq, Option, none, some, List, [], ◌∷◌, map, keep, Result, ok, err,
}
use msg2agent.Prelude.Dict.{Dict, get, put, delete}
use msg2agent.Registry.Channel.{ChannelError, channel_not_found, channel_exists, Channel, is_member}

pub record MemoryChannelStore : Type 0 where
  pub channels : Dict ℕ Channel
  pub by_name : Dict Text ℕ

unfoldable pub new_memory_channel_store : MemoryChannelStore
new_memory_channel_store = record { channels = []; by_name = [] }

unfoldable pub create_channel :
    Channel → MemoryChannelStore → MemoryChannelStore × Option ChannelError
create_channel c s = elim (get c.name s.by_name) [
  | some _ ↦ (s, some channel_exists)
  | none ↦ (record { channels = put c.id c s.channels; by_name = put c.name c.id s.by_name }, none)
]

unfoldable pub get_channel : ℕ → MemoryChannelStore → Result ChannelError Channel
get_channel id s = elim (get id s.channels) [ none ↦ err channel_not_found | some c ↦ ok c ]

unfoldable pub get_channel_by_name : Text → MemoryChannelStore → Result ChannelError Channel
unfolding get_channel
get_channel_by_name name s = elim (get name s.by_name) [
  | none ↦ err channel_not_found
  | some id ↦ get_channel id s
]

unfoldable pub update_channel :
    Channel → MemoryChannelStore → MemoryChannelStore × Option ChannelError
update_channel c s = elim (get c.id s.channels) [
  | none ↦ (s, some channel_not_found)
  | some _ ↦ (record s { channels = put c.id c s.channels }, none)
]

unfoldable pub delete_channel : ℕ → MemoryChannelStore → MemoryChannelStore × Option ChannelError
delete_channel id s = elim (get id s.channels) [
  | none ↦ (s, some channel_not_found)
  | some c ↦ (record { channels = delete id s.channels; by_name = delete c.name s.by_name }, none)
]

unfoldable pub list_all_channels : MemoryChannelStore → List Channel
list_all_channels s = map (λ e. e.1) s.channels

unfoldable pub list_channels : Text → MemoryChannelStore → List Channel
list_channels did s = keep (λ c. is_member c did) (map (λ e. e.1) s.channels)
