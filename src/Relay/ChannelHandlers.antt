-- ===== src/Relay/ChannelHandlers.antt =====
-- The handlers of cmd/relay/channel.go for `relay.channel.*` requests. The parameters of a request are
-- what `ParseParams` returned, `none` for an error; `parse_uuid` is `uuid.Parse`; the clock and the fresh
-- UUID of a channel are arguments. A handler returns the hub and the reply or the error;
-- `serve_request` sends it, which is the last thing that each handler does.
pub mod Valid
pub mod Requests
pub mod Rules
pub mod Race
pub mod Served
mod Tests
use msg2agent.Prelude.{
  ℕ, Text, text, text_eq, ◌==◌, Bool, true, false, not, is_nil, Option, none, some, List, [], ◌∷◌,
  map, length, if◌then◌else◌, Result, ok, err,
}
use msg2agent.Prelude.Dict.{get}
use msg2agent.Registry.Channel.{
  ChannelError, channel_exists, member_already_added, ChannelType, group, broadcast, topic, member,
  SenderKey, ChannelMember, Channel, new_channel, add_member, remove_member, is_member, is_owner,
  set_sender_key,
}
use msg2agent.Registry.ChannelStore.{
  MemoryChannelStore, create_channel, get_channel, get_channel_by_name, update_channel,
  delete_channel, list_channels,
}
use msg2agent.Relay.Hub.{
  Frame, channel_deleted, channel_sender_key, response, Client, RelayHub, send,
}
use msg2agent.Relay.ChannelRequest.{
  ChannelFailure, ChannelInfo, ChannelReply, Handled, ChannelRef, CreateParams, MemberInfo,
  SenderKeyParams, ChannelRequest, must_register_first, invalid_params, invalid_channel_type,
  channels_not_supported, invalid_channel_id, channel_id_or_name_required, no_such_channel,
  already_exists, owner_cannot_leave, not_a_member, only_owner_can_delete, internal_error, created,
  joined, already_member, left, not_member, deleted, distributed, listed, member_list,
  create_request, join_request, leave_request, members_request, delete_request, list_request,
  sender_key_request,
}

-- The switch on `params.Type`.
unfoldable pub channel_type_of : Text → Option ChannelType
channel_type_of kind =
    if kind == text "group"
    then some group
    else if kind == text "broadcast"
    then some broadcast
    else if kind == text "topic"
    then some topic
    else none

-- What `CreateChannel` returned becomes the reply.
unfoldable pub after_create :
    Channel → MemoryChannelStore × Option ChannelError → RelayHub → Handled
after_create ch (store, none) h = (record h { channels = some store }, ok (created ch.id ch.name))
after_create ch (store, some channel_exists) h =
    (record h { channels = some store }, err already_exists)
after_create ch (store, some e) h = (record h { channels = some store }, err (internal_error e))

unfoldable pub create_in :
    ℕ → ℕ → Text → CreateParams → ChannelType → MemoryChannelStore → RelayHub → Handled
unfolding new_channel create_channel after_create
create_in id now did p kind store h =
    let ch = record (new_channel id now p.name kind did) { description = p.description } in
    after_create ch (create_channel ch store) h

unfoldable pub handle_channel_create : ℕ → ℕ → Client → Option CreateParams → RelayHub → Handled
unfolding channel_type_of create_in
handle_channel_create id now c params h =
    if is_nil c.did then (h, err must_register_first) else elim params [
      | none ↦ (h, err invalid_params)
      | some p ↦ elim (channel_type_of p.kind) [
        | none ↦ (h, err invalid_channel_type)
        | some kind ↦ elim h.channels [
          | none ↦ (h, err channels_not_supported)
          | some store ↦ create_in id now c.did p kind store h
        ]
      ]
    ]

-- Any error of a lookup is answered as "channel not found".
abbrev pub found : Result ChannelError Channel → Result ChannelFailure Channel
found (ok ch) = ok ch
found (err e) = err no_such_channel

unfoldable pub find_channel :
    (Text → Option ℕ) → ChannelRef → MemoryChannelStore → Result ChannelFailure Channel
unfolding get_channel get_channel_by_name
find_channel parse_uuid p store =
    if not (is_nil p.channel_id)
    then elim (parse_uuid p.channel_id) [
      | none ↦ err invalid_channel_id
      | some id ↦ found (get_channel id store)
    ]
    else if not (is_nil p.name)
    then found (get_channel_by_name p.name store)
    else err channel_id_or_name_required

-- What the handlers of one channel begin with; `act` is the rest of the handler.
unfoldable pub with_channel :
    (Text → Option ℕ)
    → Client
    → Option ChannelRef
    → (Channel → MemoryChannelStore → RelayHub → Handled)
    → RelayHub
    → Handled
unfolding find_channel
with_channel parse_uuid c params act h =
    if is_nil c.did then (h, err must_register_first) else elim params [
      | none ↦ (h, err invalid_params)
      | some p ↦ elim h.channels [
        | none ↦ (h, err channels_not_supported)
        | some store ↦ elim (find_channel parse_uuid p store) [
          | err e ↦ (h, err e)
          | ok ch ↦ act ch store h
        ]
      ]
    ]

-- What `UpdateChannel` or `DeleteChannel` returned becomes the reply.
abbrev pub after_update :
    ChannelReply → MemoryChannelStore × Option ChannelError → RelayHub → Handled
after_update r (store, none) h = (record h { channels = some store }, ok r)
after_update r (store, some e) h = (record h { channels = some store }, err (internal_error e))

abbrev pub after_add : Channel × Option ChannelError → MemoryChannelStore → RelayHub → Handled
after_add (ch, none) store h = after_update joined (update_channel ch store) h
after_add (ch, some member_already_added) store h = (h, ok already_member)
after_add (ch, some e) store h = (h, err (internal_error e))

unfoldable pub join_channel : ℕ → Text → Channel → MemoryChannelStore → RelayHub → Handled
unfolding add_member update_channel
join_channel now did ch store h = after_add (add_member now did member ch) store h

unfoldable pub handle_channel_join :
    (Text → Option ℕ) → ℕ → Client → Option ChannelRef → RelayHub → Handled
unfolding with_channel join_channel
handle_channel_join parse_uuid now c params h =
    with_channel parse_uuid c params (join_channel now c.did) h

abbrev pub after_remove : Channel × Bool → MemoryChannelStore → RelayHub → Handled
after_remove (ch, false) store h = (h, ok not_member)
after_remove (ch, true) store h = after_update left (update_channel ch store) h

unfoldable pub leave_channel : ℕ → Text → Channel → MemoryChannelStore → RelayHub → Handled
unfolding is_owner remove_member update_channel
leave_channel now did ch store h =
    if is_owner ch did
    then (h, err owner_cannot_leave)
    else after_remove (remove_member now did ch) store h

unfoldable pub handle_channel_leave :
    (Text → Option ℕ) → ℕ → Client → Option ChannelRef → RelayHub → Handled
unfolding with_channel leave_channel
handle_channel_leave parse_uuid now c params h =
    with_channel parse_uuid c params (leave_channel now c.did) h

abbrev pub member_info : ChannelMember → MemberInfo
member_info m = record { did = m.did; role = m.role; joined_at = m.joined_at }

unfoldable pub list_members : Text → Channel → MemoryChannelStore → RelayHub → Handled
unfolding is_member
list_members did ch store h =
    if not (is_member ch did)
    then (h, err not_a_member)
    else (h, ok (member_list (map member_info ch.members)))

unfoldable pub handle_channel_members :
    (Text → Option ℕ) → Client → Option ChannelRef → RelayHub → Handled
unfolding with_channel list_members
handle_channel_members parse_uuid c params h =
    with_channel parse_uuid c params (list_members c.did) h

-- The loops over the members: those that pass the test and are connected get the frame.
unfoldable pub notify_members : (Text → Bool) → Frame → List ChannelMember → RelayHub → RelayHub
unfolding send
notify_members p f [] h = h
notify_members p f (m ∷ ms) h =
    notify_members p f ms
      (if p m.did then elim (get m.did h.clients) [ none ↦ h | some k ↦ (send k f h).0 ] else h)

abbrev pub after_delete : Channel → MemoryChannelStore × Option ChannelError → RelayHub → Handled
after_delete ch (store, some e) h = (record h { channels = some store }, err (internal_error e))
after_delete ch (store, none) h = (
  notify_members (λ did. true) (channel_deleted ch.id ch.name) ch.members
      (record h { channels = some store }),
  ok deleted,
)

unfoldable pub remove_channel : Text → Channel → MemoryChannelStore → RelayHub → Handled
unfolding is_owner delete_channel notify_members
remove_channel did ch store h =
    if not (is_owner ch did)
    then (h, err only_owner_can_delete)
    else after_delete ch (delete_channel ch.id store) h

unfoldable pub handle_channel_delete :
    (Text → Option ℕ) → Client → Option ChannelRef → RelayHub → Handled
unfolding with_channel remove_channel
handle_channel_delete parse_uuid c params h =
    with_channel parse_uuid c params (remove_channel c.did) h

abbrev pub after_key :
    Text → SenderKeyParams → Channel → MemoryChannelStore × Option ChannelError → RelayHub → Handled
after_key did p ch (store, some e) h = (record h { channels = some store }, err (internal_error e))
after_key did p ch (store, none) h = (
  notify_members (λ d. not (d == did)) (channel_sender_key ch.id did p.chain_key p.signature_key)
      ch.members (record h { channels = some store }),
  ok distributed,
)

unfoldable pub distribute_key :
    ℕ → Text → SenderKeyParams → Channel → MemoryChannelStore → RelayHub → Handled
unfolding is_member set_sender_key update_channel notify_members
distribute_key now did p ch store h =
    if not (is_member ch did)
    then (h, err not_a_member)
    else let key : SenderKey = record {
      chain_key = p.chain_key;
      signature_key = p.signature_key;
      iteration = 0;
    } in
      let ch' = (set_sender_key now did (some key) ch).0 in
      after_key did p ch' (update_channel ch' store) h

unfoldable pub handle_sender_key_distribute :
    (Text → Option ℕ) → ℕ → Client → Option SenderKeyParams → RelayHub → Handled
unfolding with_channel distribute_key
handle_sender_key_distribute parse_uuid now c params h = elim params [
  | none ↦ with_channel parse_uuid c none (λ ch store h'. (h', err invalid_params)) h
  | some p ↦ with_channel parse_uuid c (some p.channel) (distribute_key now c.did p) h
]

abbrev pub channel_info : Channel → ChannelInfo
channel_info ch = record {
  id = ch.id;
  name = ch.name;
  kind = ch.kind;
  owner = ch.owner_did;
  description = ch.description;
  member_count = length ch.members;
}

unfoldable pub handle_channel_list : Client → RelayHub → Handled
unfolding list_channels
handle_channel_list c h = if is_nil c.did then (h, err must_register_first) else elim h.channels [
  | none ↦ (h, err channels_not_supported)
  | some store ↦ (h, ok (listed (map channel_info (list_channels c.did store))))
]

unfoldable pub handle_request :
    (Text → Option ℕ) → ℕ → ℕ → Client → ChannelRequest → RelayHub → Handled
unfolding handle_channel_create handle_channel_join handle_channel_leave handle_channel_list
    handle_channel_members handle_channel_delete handle_sender_key_distribute
handle_request parse_uuid id now c (create_request p) h = handle_channel_create id now c p h
handle_request parse_uuid id now c (join_request p) h = handle_channel_join parse_uuid now c p h
handle_request parse_uuid id now c (leave_request p) h = handle_channel_leave parse_uuid now c p h
handle_request parse_uuid id now c (members_request p) h = handle_channel_members parse_uuid c p h
handle_request parse_uuid id now c (delete_request p) h = handle_channel_delete parse_uuid c p h
handle_request parse_uuid id now c list_request h = handle_channel_list c h
handle_request parse_uuid id now c (sender_key_request p) h =
    handle_sender_key_distribute parse_uuid now c p h

-- `sendResult` and `sendError`: the response goes into the buffer of the client that asked, or is dropped
-- if that is full. `encode` is what the protocol package makes of a reply or an error.
unfoldable pub respond : (Result ChannelFailure ChannelReply → Text) → Client → Handled → RelayHub
unfolding send
respond encode c (h, r) = (send c.handle (response (encode r)) h).0

unfoldable pub serve_request :
    (Result ChannelFailure ChannelReply → Text)
    → (Text → Option ℕ)
    → ℕ
    → ℕ
    → Client
    → ChannelRequest
    → RelayHub
    → RelayHub
unfolding handle_request respond
serve_request encode parse_uuid id now c request h =
    respond encode c (handle_request parse_uuid id now c request h)
