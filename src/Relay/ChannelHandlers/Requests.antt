-- ===== src/Relay/ChannelHandlers/Requests.antt =====
-- Every channel request leaves the channel store of the hub sound.
use msg2agent.Prelude.{
  ℕ, nat_eq, Text, text_eq, ◌≡◌, refl, ap, sym, ◌∙◌, inl, inr, Bool, true, false, not, is_nil,
  Option-cases, Option, none, some, List, [], ◌∷◌, if◌then◌else◌, if_elim, option_elim, err, arith,
  text_beq_iff,
}
use msg2agent.Prelude.Dict.{get}
use msg2agent.Registry.Channel.{
  ChannelError, channel_exists, channel_not_found, not_channel_member, not_channel_owner,
  member_already_added, ChannelType, SenderKey, ChannelMember, Channel, is_member, is_owner,
  set_sender_key, add_member, remove_member, new_channel, member,
}
use msg2agent.Registry.Channel.Members.{
  IsValid, new_channel-IsValid, add_member_lem, remove_member_lem,
}
use msg2agent.Registry.ChannelStore.{
  MemoryChannelStore, create_channel, update_channel, delete_channel,
}
use msg2agent.Relay.Hub.{Frame, Client, RelayHub, send}
use msg2agent.Relay.ChannelHandlers.{
  handle_request, join_channel, leave_channel, list_members, remove_channel, distribute_key,
  notify_members, after_create, create_in, channel_type_of, handle_channel_create,
  handle_channel_join, handle_channel_leave, handle_channel_list, handle_channel_members,
  handle_channel_delete, handle_sender_key_distribute, after_update, after_add, after_remove,
  after_delete, after_key,
}
use msg2agent.Relay.ChannelRequest.{
  CreateParams, SenderKeyParams, ChannelReply, ChannelRequest, create_request, join_request,
  leave_request, members_request, delete_request, list_request, sender_key_request, joined, left,
  invalid_params,
}
use msg2agent.Relay.ChannelHandlers.Valid.{
  IsSound, HubIsSound, LeavesSound, find_channel-stored, update_channel-IsSound,
  delete_channel-IsSound, create_channel-IsSound, holds-HubIsSound, set_sender_key-IsValid,
  with_channel_elim,
}

send_channels : (k : ℕ) (f : Frame) (h : RelayHub) → (send k f h).0.channels ≡ h.channels
unfolding send
send_channels k f h = ground arith

pub notify_members-channels :
    (p : Text → Bool) (f : Frame) (ms : List ChannelMember) (h : RelayHub)
    → (notify_members p f ms h).channels ≡ h.channels
unfolding notify_members
notify_members-channels p f [] h = refl
notify_members-channels p f (m ∷ ms) h =
    notify_members-channels p f ms
      (if p m.did then elim (get m.did h.clients) [ none ↦ h | some k ↦ (send k f h).0 ] else h)
    ∙ if_elim (λ (x : RelayHub). x.channels ≡ h.channels) (p m.did)
        (λ _. elim (Option-cases (get m.did h.clients)) [
          | inl e ↦ rw e refl
          | inr (k, e) ↦ rw e (send_channels k f h)
        ])
        (λ _. refl)

pub add_member-names :
    (now : ℕ) (did : Text) (ch : Channel)
    → ((add_member now did member ch).0.id ≡ ch.id)
      × ((add_member now did member ch).0.name ≡ ch.name)
unfolding add_member
add_member-names now did ch = ground arith

remove_member-names :
    (now : ℕ) (did : Text) (ch : Channel)
    → ((remove_member now did ch).0.id ≡ ch.id) × ((remove_member now did ch).0.name ≡ ch.name)
unfolding remove_member
remove_member-names now did ch = ground arith

set_sender_key-names :
    (now : ℕ) (did : Text) (key : Option SenderKey) (ch : Channel)
    → ((set_sender_key now did key ch).0.id ≡ ch.id)
      × ((set_sender_key now did key ch).0.name ≡ ch.name)
unfolding set_sender_key
set_sender_key-names now did key ch = ground arith

after_update-LeavesSound :
    (r : ChannelReply) (u : MemoryChannelStore × Option ChannelError) (h : RelayHub)
    → IsSound u.0
    → LeavesSound (after_update r u h)
after_update-LeavesSound r (store, none) h v = holds-HubIsSound store h v
after_update-LeavesSound r (store, some e) h v = holds-HubIsSound store h v

-- A handler that changes a channel that a lookup found.
module _ (ch : Channel) (store : MemoryChannelStore) (h : RelayHub) (v : IsSound store)
    (at_ : get ch.id store.channels ≡ some ch) (v_hub : HubIsSound h) where
  found_one : IsValid ch
  found_one = v.valid ch.id ch at_

  after_add-LeavesSound :
      (u : Channel × Option ChannelError)
      → u.0.id ≡ ch.id
      → u.0.name ≡ ch.name
      → IsValid u.0
      → LeavesSound (after_add u store h)
  after_add-LeavesSound (ch', none) i n ok_ =
      after_update-LeavesSound joined (update_channel ch' store) h
        (update_channel-IsSound ch' ch store v (ap (λ k. get k store.channels) i ∙ at_) n ok_).0
  after_add-LeavesSound (ch', some member_already_added) i n ok_ = v_hub
  after_add-LeavesSound (ch', some channel_not_found) i n ok_ = v_hub
  after_add-LeavesSound (ch', some channel_exists) i n ok_ = v_hub
  after_add-LeavesSound (ch', some not_channel_member) i n ok_ = v_hub
  after_add-LeavesSound (ch', some not_channel_owner) i n ok_ = v_hub

  after_remove-LeavesSound :
      (u : Channel × Bool)
      → u.0.id ≡ ch.id
      → u.0.name ≡ ch.name
      → IsValid u.0
      → LeavesSound (after_remove u store h)
  after_remove-LeavesSound (ch', false) i n ok_ = v_hub
  after_remove-LeavesSound (ch', true) i n ok_ =
      after_update-LeavesSound left (update_channel ch' store) h
        (update_channel-IsSound ch' ch store v (ap (λ k. get k store.channels) i ∙ at_) n ok_).0

  join_channel-LeavesSound : (now : ℕ) (did : Text) → LeavesSound (join_channel now did ch store h)
  unfolding join_channel
  join_channel-LeavesSound now did =
      let (i, n) = add_member-names now did ch in
      after_add-LeavesSound (add_member now did member ch) i n
        (add_member_lem now did member ch found_one).0

  leave_channel-LeavesSound :
      (now : ℕ) (did : Text) → LeavesSound (leave_channel now did ch store h)
  unfolding leave_channel is_owner
  leave_channel-LeavesSound now did =
      if_elim LeavesSound (is_owner ch did) (λ _. v_hub)
        (λ other.
          let (i, n) = remove_member-names now did ch in
          after_remove-LeavesSound (remove_member now did ch) i n
            (elim ((remove_member_lem now did ch found_one).2) [
              | inl same ↦ absurd (ground (arith, text_beq_iff ch.owner_did did))
              | inr ok_ ↦ ok_
            ]))

  list_members-LeavesSound : (did : Text) → LeavesSound (list_members did ch store h)
  unfolding list_members
  list_members-LeavesSound did =
      if_elim LeavesSound (not (is_member ch did)) (λ _. v_hub) (λ _. v_hub)

  after_delete-LeavesSound :
      (u : MemoryChannelStore × Option ChannelError)
      → IsSound u.0
      → LeavesSound (after_delete ch u h)
  after_delete-LeavesSound (s, some e) w = holds-HubIsSound s h w
  after_delete-LeavesSound (s, none) w =
      λ t g. holds-HubIsSound s h w t (sym (notify_members-channels _ _ ch.members _) ∙ g)

  remove_channel-LeavesSound : (did : Text) → LeavesSound (remove_channel did ch store h)
  unfolding remove_channel
  remove_channel-LeavesSound did =
      if_elim LeavesSound (not (is_owner ch did)) (λ _. v_hub)
        (λ _.
          after_delete-LeavesSound (delete_channel ch.id store)
            (delete_channel-IsSound ch.id ch store v at_))

  after_key-LeavesSound :
      (did : Text) (p : SenderKeyParams) (ch' : Channel)
      (u : MemoryChannelStore × Option ChannelError)
      → IsSound u.0
      → LeavesSound (after_key did p ch' u h)
  after_key-LeavesSound did p ch' (s, some e) w = holds-HubIsSound s h w
  after_key-LeavesSound did p ch' (s, none) w =
      λ t g. holds-HubIsSound s h w t (sym (notify_members-channels _ _ ch'.members _) ∙ g)

  distribute_key-LeavesSound :
      (now : ℕ) (did : Text) (p : SenderKeyParams)
      → LeavesSound (distribute_key now did p ch store h)
  unfolding distribute_key
  distribute_key-LeavesSound now did p =
      let key : SenderKey = record {
        chain_key = p.chain_key;
        signature_key = p.signature_key;
        iteration = 0;
      } in
      let ch' = (set_sender_key now did (some key) ch).0 in
      let (i, n) = set_sender_key-names now did (some key) ch in
      if_elim LeavesSound (not (is_member ch did)) (λ _. v_hub)
        (λ _.
          after_key-LeavesSound did p ch' (update_channel ch' store)
            (update_channel-IsSound ch' ch store v (ap (λ k. get k store.channels) i ∙ at_) n
              (set_sender_key-IsValid now did (some key) ch found_one)).0)

after_create-LeavesSound :
    (ch : Channel) (u : MemoryChannelStore × Option ChannelError) (h : RelayHub)
    → IsSound u.0
    → LeavesSound (after_create ch u h)
unfolding after_create
after_create-LeavesSound ch (s, none) h w = holds-HubIsSound s h w
after_create-LeavesSound ch (s, some channel_exists) h w = holds-HubIsSound s h w
after_create-LeavesSound ch (s, some channel_not_found) h w = holds-HubIsSound s h w
after_create-LeavesSound ch (s, some not_channel_member) h w = holds-HubIsSound s h w
after_create-LeavesSound ch (s, some not_channel_owner) h w = holds-HubIsSound s h w
after_create-LeavesSound ch (s, some member_already_added) h w = holds-HubIsSound s h w

-- The UUID is not that of a stored channel.
abbrev pub IsFresh : ℕ → RelayHub → Type 0
IsFresh id h = (store : MemoryChannelStore) → h.channels ≡ some store → get id store.channels ≡ none

create_in-LeavesSound :
    (id now : ℕ) (did : Text) (p : CreateParams) (kind : ChannelType) (store : MemoryChannelStore)
    (h : RelayHub)
    → IsSound store
    → get id store.channels ≡ none
    → LeavesSound (create_in id now did p kind store h)
unfolding create_in new_channel is_member
create_in-LeavesSound id now did p kind store h v fresh =
    let ch = record (new_channel id now p.name kind did) { description = p.description } in
    let w = new_channel-IsValid id now p.name kind did in
    after_create-LeavesSound ch (create_channel ch store) h
      (create_channel-IsSound ch store v fresh (record { distinct = w.distinct; owned = w.owned }))

handle_channel_create-LeavesSound :
    (id now : ℕ) (c : Client) (params : Option CreateParams) (h : RelayHub)
    → HubIsSound h
    → IsFresh id h
    → LeavesSound (handle_channel_create id now c params h)
unfolding handle_channel_create
handle_channel_create-LeavesSound id now c none h v fresh =
    if_elim LeavesSound (is_nil c.did) (λ _. v) (λ _. v)
handle_channel_create-LeavesSound id now c (some p) h v fresh =
    if_elim LeavesSound (is_nil c.did) (λ _. v)
      (λ _.
        option_elim LeavesSound (channel_type_of p.kind) _ _ (λ _. v)
          (λ kind e.
            option_elim LeavesSound h.channels _ (λ store. create_in id now c.did p kind store h)
              (λ _. v)
              (λ store s.
                create_in-LeavesSound id now c.did p kind store h (v store s) (fresh store s))))

-- A channel request leaves the channel store of the hub sound: the index by name is right, no DID is a
-- member of a channel twice, and the owner of each channel is a member of it. The UUID for a new channel
-- is a fresh one.
pub handle_request-HubIsSound :
    (parse_uuid : Text → Option ℕ) (id now : ℕ) (c : Client) (req : ChannelRequest) (h : RelayHub)
    → HubIsSound h
    → IsFresh id h
    → HubIsSound (handle_request parse_uuid id now c req h).0
unfolding handle_request handle_channel_join handle_channel_leave handle_channel_list
    handle_channel_members handle_channel_delete handle_sender_key_distribute
handle_request-HubIsSound parse_uuid id now c (create_request p) h v fresh =
    handle_channel_create-LeavesSound id now c p h v fresh
handle_request-HubIsSound parse_uuid id now c (join_request p) h v fresh =
    with_channel_elim LeavesSound parse_uuid c p (join_channel now c.did) h (λ e. v)
      (λ r store ch a b f.
        join_channel-LeavesSound ch store h (v store b)
          (find_channel-stored parse_uuid r store (v store b).indexed f) v now c.did)
handle_request-HubIsSound parse_uuid id now c (leave_request p) h v fresh =
    with_channel_elim LeavesSound parse_uuid c p (leave_channel now c.did) h (λ e. v)
      (λ r store ch a b f.
        leave_channel-LeavesSound ch store h (v store b)
          (find_channel-stored parse_uuid r store (v store b).indexed f) v now c.did)
handle_request-HubIsSound parse_uuid id now c (members_request p) h v fresh =
    with_channel_elim LeavesSound parse_uuid c p (list_members c.did) h (λ e. v)
      (λ r store ch a b f.
        list_members-LeavesSound ch store h (v store b)
          (find_channel-stored parse_uuid r store (v store b).indexed f) v c.did)
handle_request-HubIsSound parse_uuid id now c (delete_request p) h v fresh =
    with_channel_elim LeavesSound parse_uuid c p (remove_channel c.did) h (λ e. v)
      (λ r store ch a b f.
        remove_channel-LeavesSound ch store h (v store b)
          (find_channel-stored parse_uuid r store (v store b).indexed f) v c.did)
handle_request-HubIsSound parse_uuid id now c list_request h v fresh =
    if_elim LeavesSound (is_nil c.did) (λ _. v)
      (λ _. elim (Option-cases h.channels) [ inl e ↦ rw e v | inr (store, e) ↦ rw e v ])
handle_request-HubIsSound parse_uuid id now c (sender_key_request none) h v fresh =
    with_channel_elim LeavesSound parse_uuid c none (λ ch store h'. (h', err invalid_params)) h
      (λ e. v) (λ r store ch a b f. v)
handle_request-HubIsSound parse_uuid id now c (sender_key_request (some p)) h v fresh =
    with_channel_elim LeavesSound parse_uuid c (some p.channel) (distribute_key now c.did p) h
      (λ e. v)
      (λ r store ch a b f.
        distribute_key-LeavesSound ch store h (v store b)
          (find_channel-stored parse_uuid r store (v store b).indexed f) v now c.did p)
