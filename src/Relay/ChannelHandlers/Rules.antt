-- ===== src/Relay/ChannelHandlers/Rules.antt =====
-- Who may do what on a channel, and whom the handlers notify.
use msg2agent.Prelude.{
  ℕ, suc, nat_eq, nat_beq_iff, Text, text_eq, text_beq_iff, ◌==◌, ◌≡◌, ◌⊎◌, refl, ap, subst, sym,
  ◌∙◌, inl, inr, Bool, true, false, not, ◌||◌, Bool-cases, Option-cases, Option, none, some, List,
  [], ◌∷◌, map, if◌then◌else◌, if_elim, Result, ok, err, arith,
}
use msg2agent.Prelude.Dict.{Dict, get, slice_at}
use msg2agent.Registry.Channel.{
  ChannelError, channel_not_found, channel_exists, not_channel_member, not_channel_owner,
  member_already_added, ChannelMember, Channel, is_member, is_owner, member, add_member,
}
use msg2agent.Registry.Channel.Members.{IsValid, add_member_lem}
use msg2agent.Registry.ChannelStore.{
  MemoryChannelStore, get_channel, update_channel, delete_channel,
}
use msg2agent.Registry.ChannelStore.Index.{update_channel_lem, delete_channel_lem}
use msg2agent.Relay.Hub.{Frame, channel_deleted, Client, RelayHub, send}
use msg2agent.Relay.Hub.FanOut.{
  appended, appended_zero, appended-send, slice_at-send_other, send_clients,
}
use msg2agent.Relay.ChannelHandlers.{
  join_channel, list_members, remove_channel, notify_members, handle_channel_join,
  handle_channel_members, handle_channel_delete, after_delete, after_update, after_add,
}
use msg2agent.Relay.ChannelRequest.{
  ChannelFailure, ChannelRef, ChannelReply, Handled, deleted, joined, member_list,
  only_owner_can_delete,
}
use msg2agent.Relay.ChannelHandlers.Valid.{
  IsSound, HubIsSound, Names, find_channel-Names, find_channel-stored, with_channel_elim,
}
use msg2agent.Relay.ChannelHandlers.Requests.{notify_members-channels, add_member-names}

-- How many of the members that pass a test are connected through client `j`.
unfoldable pub told : (Text → Bool) → Dict Text ℕ → ℕ → List ChannelMember → ℕ
told p clients j [] = 0
told p clients j (m ∷ ms) =
    let rest = told p clients j ms in
    if p m.did
    then elim (get m.did clients) [ none ↦ rest | some k ↦ if k == j then suc rest else rest ]
    else rest

-- One round of the loop over the members.
module _ (p : Text → Bool) (f : Frame) (m : ChannelMember) (ms : List ChannelMember)
    (h : RelayHub) where
  abbrev round : RelayHub
  round = if p m.did then elim (get m.did h.clients) [ none ↦ h | some k ↦ (send k f h).0 ] else h

  round-clients : round.clients ≡ h.clients
  round-clients = elim (Bool-cases (p m.did)) [
    | inl y ↦ elim (Option-cases (get m.did h.clients)) [
      | inl off ↦ rw y (rw off refl)
      | inr (k, on) ↦ rw y (rw on (send_clients k f h))
    ]
    | inr n ↦ rw n refl
  ]

  appended-round :
      (j : ℕ)
      → appended (told p h.clients j ms) f (slice_at j round.buffers)
        ≡ appended (told p h.clients j (m ∷ ms)) f (slice_at j h.buffers)
  unfolding told
  appended-round j = elim (Bool-cases (p m.did)) [
    | inl y ↦ elim (Option-cases (get m.did h.clients)) [
      | inl off ↦ rw y (rw off refl)
      | inr (k, on) ↦ rw y (
          rw on (elim (Bool-cases (k == j)) [
            | inl hit ↦ rw hit (
                let e : k ≡ j = (nat_beq_iff k j).0 hit in
                rw e (appended-send (told p h.clients j ms) j f h))
            | inr miss ↦ rw miss (rw (slice_at-send_other j k f h miss) refl)
          ]))
    ]
    | inr n ↦ rw n refl
  ]

-- The loop appends the frame to the buffer of client `j` once for every member that passes the test and
-- is connected through `j`, as often as there is room, and changes nothing else in it.
pub notify_members-buffers :
    (p : Text → Bool) (f : Frame) (ms : List ChannelMember) (h : RelayHub) (j : ℕ)
    → slice_at j (notify_members p f ms h).buffers
      ≡ appended (told p h.clients j ms) f (slice_at j h.buffers)
unfolding notify_members told
notify_members-buffers p f [] h j = sym (appended_zero f (slice_at j h.buffers))
notify_members-buffers p f (m ∷ ms) h j =
    let t = round p f m ms h in
    notify_members-buffers p f ms t j
    ∙ ap (λ c. appended (told p c j ms) f (slice_at j t.buffers)) (round-clients p f m ms h)
    ∙ appended-round p f m ms h j

-- That the parameters of a request name a channel.
abbrev pub Requests : (Text → Option ℕ) → Option ChannelRef → Channel → Type 0
Requests parse_uuid params ch = (p : ChannelRef) × (params ≡ some p) × Names parse_uuid p ch

-- What a request to delete a channel did: nothing, with an error, or the channel is gone.
abbrev pub ChannelDeleted :
    (Text → Option ℕ) → Option ChannelRef → Client → RelayHub → Handled → Type 0
ChannelDeleted parse_uuid params c h (t, r) =
    ((t ≡ h) × ((e : ChannelFailure) × (r ≡ err e)))
    ⊎ ((store : MemoryChannelStore) × (ch : Channel) × (h.channels ≡ some store)
        × (get_channel ch.id store ≡ ok ch)
        × (ch.owner_did ≡ c.did)
        × Requests parse_uuid params ch
        × (r ≡ ok deleted)
        × ((s : MemoryChannelStore) × (t.channels ≡ some s)
            × (get_channel ch.id s ≡ err channel_not_found))
        × ((j : ℕ)
            → slice_at j t.buffers
              ≡ appended (told (λ d. true) h.clients j ch.members) (channel_deleted ch.id ch.name)
                  (slice_at j h.buffers)))

ok_injective :
    (r : Result ChannelFailure ChannelReply) {x y : ChannelReply} → r ≡ ok x → r ≡ ok y → x ≡ y
ok_injective r a b = cc (a, b)

get_channel-found :
    (id : ℕ) (store : MemoryChannelStore) {ch : Channel}
    → get id store.channels ≡ some ch
    → get_channel id store ≡ ok ch
unfolding get_channel
get_channel-found id store e = rw (e, get_channel) refl

delete_channel-error :
    (id : ℕ) (store : MemoryChannelStore) {ch : Channel}
    → get id store.channels ≡ some ch
    → (delete_channel id store).1 ≡ none
unfolding delete_channel
delete_channel-error id store e = rw (e, delete_channel) refl

-- `DeleteChannel` has deleted the channel.
after_delete-ChannelDeleted :
    (parse_uuid : Text → Option ℕ) (params : Option ChannelRef) (c : Client) (h : RelayHub)
    (store : MemoryChannelStore) (ch : Channel) (u : MemoryChannelStore × Option ChannelError)
    → h.channels ≡ some store
    → get_channel ch.id store ≡ ok ch
    → ch.owner_did ≡ c.did
    → Requests parse_uuid params ch
    → u.1 ≡ none
    → get_channel ch.id u.0 ≡ err channel_not_found
    → ChannelDeleted parse_uuid params c h (after_delete ch u h)
after_delete-ChannelDeleted parse_uuid params c h store ch (s, some e) a b o w n gone =
    absurd (cc n)
after_delete-ChannelDeleted parse_uuid params c h store ch (s, none) a b o w n gone =
    let t : RelayHub = record h { channels = some s } in
    let f : Frame = channel_deleted ch.id ch.name in
    inr (
      store,
      ch,
      a,
      b,
      o,
      w,
      refl,
      (s, notify_members-channels (λ d. true) f ch.members t, gone),
      λ j. notify_members-buffers (λ d. true) f ch.members t j,
    )

remove_channel-ChannelDeleted :
    (parse_uuid : Text → Option ℕ) (params : Option ChannelRef) (c : Client) (h : RelayHub)
    (store : MemoryChannelStore) (ch : Channel)
    → Requests parse_uuid params ch
    → h.channels ≡ some store
    → IsSound store
    → get ch.id store.channels ≡ some ch
    → ChannelDeleted parse_uuid params c h (remove_channel c.did ch store h)
unfolding remove_channel is_owner
remove_channel-ChannelDeleted parse_uuid params c h store ch w a v at_ =
    let g = get_channel-found ch.id store at_ in
    if_elim (ChannelDeleted parse_uuid params c h) (not (is_owner ch c.did))
      (λ _. inl (refl, (only_owner_can_delete, refl)))
      (λ own.
        after_delete-ChannelDeleted parse_uuid params c h store ch (delete_channel ch.id store) a g
          (ground (arith, text_beq_iff ch.owner_did c.did)) w (delete_channel-error ch.id store at_)
          (delete_channel_lem ch.id ch store v.indexed g).1)

-- Before its answer is sent: a request to delete a channel either changes nothing and is answered with an
-- error, or it comes from the owner of the stored channel that it names: then the reply says deleted, the
-- channel is found no more, and every client's buffer is what it was with the notification appended once
-- for each member that is connected through the client, as often as there is room. The channel store is
-- a sound one.
pub handle_channel_delete_lem :
    (parse_uuid : Text → Option ℕ) (c : Client) (params : Option ChannelRef) (h : RelayHub)
    → HubIsSound h
    → ChannelDeleted parse_uuid params c h (handle_channel_delete parse_uuid c params h)
unfolding handle_channel_delete
handle_channel_delete_lem parse_uuid c params h v =
    with_channel_elim (ChannelDeleted parse_uuid params c h) parse_uuid c params
      (remove_channel c.did) h (λ e. inl (refl, (e, refl)))
      (λ p store ch a b f.
        remove_channel-ChannelDeleted parse_uuid params c h store ch
          (p, a, find_channel-Names parse_uuid p store (v store b).indexed f) b (v store b)
          (find_channel-stored parse_uuid p store (v store b).indexed f))

-- What a request for the members of a channel shows, and to whom.
abbrev pub MembersShown :
    (Text → Option ℕ) → Option ChannelRef → Client → RelayHub → Handled → Type 0
MembersShown parse_uuid params c h (t, r) =
    (t ≡ h)
    × ((reply : ChannelReply)
        → r ≡ ok reply
        → (store : MemoryChannelStore) × (ch : Channel) × (h.channels ≡ some store)
          × (get_channel ch.id store ≡ ok ch)
          × Requests parse_uuid params ch
          × (is_member ch c.did ≡ true)
          × (reply
              ≡ member_list (
                  map
                    (λ (m : ChannelMember). record {
                      did = m.did;
                      role = m.role;
                      joined_at = m.joined_at;
                    })
                    ch.members)))

-- A request for the members of a channel changes nothing, and shows members only to a member of
-- the stored channel that it names: it then shows, in their order, the DID, the role and the time of joining of all of them.
-- The channel store is a sound one.
pub handle_channel_members_lem :
    (parse_uuid : Text → Option ℕ) (c : Client) (params : Option ChannelRef) (h : RelayHub)
    → HubIsSound h
    → MembersShown parse_uuid params c h (handle_channel_members parse_uuid c params h)
unfolding handle_channel_members list_members
handle_channel_members_lem parse_uuid c params h v =
    with_channel_elim (MembersShown parse_uuid params c h) parse_uuid c params (list_members c.did)
      h (λ e. (refl, λ reply g. absurd (cc g)))
      (λ p store ch a b f.
        let at_ = find_channel-stored parse_uuid p store (v store b).indexed f in
        if_elim (MembersShown parse_uuid params c h) (not (is_member ch c.did))
          (λ _. (refl, λ reply g. absurd (cc g)))
          (λ in_. (
            refl,
            λ reply g. (
              store,
              ch,
              b,
              get_channel-found ch.id store at_,
              (p, a, find_channel-Names parse_uuid p store (v store b).indexed f),
              ground arith,
              ok_injective _ g refl,
            ),
          )))

-- What a request to join a channel did when the reply says joined.
abbrev pub ChannelJoined : Client → RelayHub → Handled → Type 0
ChannelJoined c h (t, r) =
    r ≡ ok joined
    → (store s : MemoryChannelStore) × (ch ch' : Channel) × (h.channels ≡ some store)
      × (t.channels ≡ some s)
      × (get_channel ch.id store ≡ ok ch)
      × (get_channel ch.id s ≡ ok ch')
      × (is_member ch c.did ≡ false)
      × ((j : Text) → is_member ch' j ≡ (c.did == j || is_member ch j))

-- `UpdateChannel` has stored the channel with the new member.
after_update-ChannelJoined :
    (c : Client) (h : RelayHub) (store : MemoryChannelStore) (ch ch' : Channel)
    (u : MemoryChannelStore × Option ChannelError)
    → h.channels ≡ some store
    → get_channel ch.id store ≡ ok ch
    → get_channel ch.id u.0 ≡ ok ch'
    → is_member ch c.did ≡ false
    → ((j : Text) → is_member ch' j ≡ (c.did == j || is_member ch j))
    → ChannelJoined c h (after_update joined u h)
after_update-ChannelJoined c h store ch ch' (s, some e) a b g n m = λ r. absurd (cc r)
after_update-ChannelJoined c h store ch ch' (s, none) a b g n m =
    λ r. (store, s, ch, ch', a, refl, b, g, n, m)

join_channel-ChannelJoined :
    (now : ℕ) (c : Client) (h : RelayHub) (store : MemoryChannelStore) (ch : Channel)
    → h.channels ≡ some store
    → IsSound store
    → get ch.id store.channels ≡ some ch
    → ChannelJoined c h (join_channel now c.did ch store h)
unfolding join_channel
join_channel-ChannelJoined now c h store ch a v at_ =
    let (w, m, e) = add_member_lem now c.did member ch (v.valid ch.id ch at_) in
    let (i, n) = add_member-names now c.did ch in added (add_member now c.did member ch) i n w m e
  where
    added :
        (u : Channel × Option ChannelError)
        → u.0.id ≡ ch.id
        → u.0.name ≡ ch.name
        → IsValid u.0
        → ((j : Text) → is_member u.0 j ≡ (c.did == j || is_member ch j))
        → u.1 ≡ (if is_member ch c.did then some member_already_added else none)
        → ChannelJoined c h (after_add u store h)
    added (ch', none) i n w m e =
        let there : get ch'.id store.channels ≡ some ch = ap (λ k. get k store.channels) i ∙ at_ in
        after_update-ChannelJoined c h store ch ch' (update_channel ch' store) a
          (get_channel-found ch.id store at_)
          (subst (λ k. get_channel k (update_channel ch' store).0 ≡ ok ch') i
            (update_channel_lem ch' ch store v.indexed (get_channel-found ch'.id store there) n).2)
          (ground arith) m
    added (ch', some member_already_added) i n w m e = λ r. absurd (cc r)
    added (ch', some channel_not_found) i n w m e = λ r. absurd (cc r)
    added (ch', some channel_exists) i n w m e = λ r. absurd (cc r)
    added (ch', some not_channel_member) i n w m e = λ r. absurd (cc r)
    added (ch', some not_channel_owner) i n w m e = λ r. absurd (cc r)

-- When the reply to a request to join says joined, the client was no member of the stored channel, and
-- the channel that is stored then has exactly the members that it had and the client. The channel store
-- is a sound one.
pub handle_channel_join_lem :
    (parse_uuid : Text → Option ℕ) (now : ℕ) (c : Client) (params : Option ChannelRef)
    (h : RelayHub)
    → HubIsSound h
    → ChannelJoined c h (handle_channel_join parse_uuid now c params h)
unfolding handle_channel_join
handle_channel_join_lem parse_uuid now c params h v =
    with_channel_elim (ChannelJoined c h) parse_uuid c params (join_channel now c.did) h
      (λ e r. absurd (cc r))
      (λ p store ch a b f.
        join_channel-ChannelJoined now c h store ch b (v store b)
          (find_channel-stored parse_uuid p store (v store b).indexed f))
