-- ===== src/Relay/ChannelHandlers/Valid.antt =====
-- The channel store of the hub stays sound under every channel request.
use msg2agent.Prelude.{
  ℕ, nat_eq, Text, text_eq, ◌==◌, ◌≡◌, refl, ap, subst, sym, ◌∙◌, ◌⊎◌, inl, inr, Bool, true, false,
  is_nil, Bool-cases, Option-cases, Option, none, some, List, [], ◌∷◌, if_elim, Result, ok, err,
  arith,
}
use msg2agent.Prelude.Dict.{get, put, get-put, get-delete}
use msg2agent.Registry.Channel.{
  ChannelError, SenderKey, ChannelMember, Channel, has_did, is_member, with_key, set_sender_key,
}
use msg2agent.Registry.Channel.Members.{IsDistinct, IsValid}
use msg2agent.Registry.ChannelStore.{
  MemoryChannelStore, create_channel, get_channel, get_channel_by_name, update_channel,
  delete_channel,
}
use msg2agent.Registry.ChannelStore.Index.{
  IsIndexed, create_channel_lem, update_channel_lem, delete_channel_lem,
}
use msg2agent.Relay.Hub.{Client, RelayHub}
use msg2agent.Relay.ChannelHandlers.{find_channel, with_channel, found}
use msg2agent.Relay.ChannelRequest.{
  ChannelFailure, ChannelRef, Handled, must_register_first, channels_not_supported, invalid_params,
}

-- The index by name is right, and every stored channel is valid.
pub record IsSound (store : MemoryChannelStore) : Type 0 where
  pub indexed : IsIndexed store
  pub valid : (id : ℕ) (ch : Channel) → get id store.channels ≡ some ch → IsValid ch

abbrev pub HubIsSound : RelayHub → Type 0
HubIsSound h = (store : MemoryChannelStore) → h.channels ≡ some store → IsSound store

-- What a handler leaves is sound.
abbrev pub LeavesSound : Handled → Type 0
LeavesSound (h, r) = HubIsSound h

found-ok : (r : Result ChannelError Channel) {ch : Channel} → found r ≡ ok ch → r ≡ ok ch
found-ok (ok c) h = cc h
found-ok (err e) h = absurd (cc h)

get_channel-at :
    (id : ℕ) (store : MemoryChannelStore) {ch : Channel}
    → get_channel id store ≡ ok ch
    → get id store.channels ≡ some ch
unfolding get_channel
get_channel-at id store h = ground arith

get_channel_by_name-at :
    (name : Text) (store : MemoryChannelStore) {ch : Channel}
    → get_channel_by_name name store ≡ ok ch
    → (id : ℕ) × (get id store.channels ≡ some ch)
unfolding get_channel_by_name
get_channel_by_name-at name store h = elim (Option-cases (get name store.by_name)) [
  | inl e ↦ absurd (ground arith)
  | inr (id, e) ↦ (id, get_channel-at id store (ground arith))
]

find_channel-at :
    (parse_uuid : Text → Option ℕ) (p : ChannelRef) (store : MemoryChannelStore) {ch : Channel}
    → find_channel parse_uuid p store ≡ ok ch
    → (id : ℕ) × (get id store.channels ≡ some ch)
unfolding find_channel
find_channel-at parse_uuid p store h = elim (Bool-cases (is_nil p.channel_id)) [
  | inl y ↦ elim (Bool-cases (is_nil p.name)) [
    | inl z ↦ absurd (ground arith)
    | inr n ↦
        get_channel_by_name-at p.name store
          (found-ok (get_channel_by_name p.name store) (ground arith))
  ]
  | inr n ↦ elim (Option-cases (parse_uuid p.channel_id)) [
    | inl e ↦ absurd (ground arith)
    | inr (id, e) ↦ (id, get_channel-at id store (found-ok (get_channel id store) (ground arith)))
  ]
]

-- A channel that a lookup found is stored under its id.
pub find_channel-stored :
    (parse_uuid : Text → Option ℕ) (p : ChannelRef) (store : MemoryChannelStore) {ch : Channel}
    → IsIndexed store
    → find_channel parse_uuid p store ≡ ok ch
    → get ch.id store.channels ≡ some ch
unfolding find_channel get_channel get_channel_by_name
find_channel-stored parse_uuid p store {ch} v h =
    let (id, there) = find_channel-at parse_uuid p store h in
    ap (λ k. get k store.channels) ((v.stored id ch there).0) ∙ there

-- Whether a channel is the one that a request names: by its id if the request has one, else by its name.
abbrev pub Names : (Text → Option ℕ) → ChannelRef → Channel → Type 0
Names parse_uuid p ch =
    ((is_nil p.channel_id ≡ false) × (parse_uuid p.channel_id ≡ some ch.id))
    ⊎ ((is_nil p.channel_id ≡ true) × (ch.name ≡ p.name))

get_channel_by_name-named :
    (name : Text) (store : MemoryChannelStore) {ch : Channel}
    → IsIndexed store
    → get_channel_by_name name store ≡ ok ch
    → ch.name ≡ name
unfolding get_channel_by_name
get_channel_by_name-named name store {ch} v h = elim (Option-cases (get name store.by_name)) [
  | inl e ↦ absurd (ground arith)
  | inr (id, e) ↦
      (let (d, at_, same) = v.named name id e in
        let there : get id store.channels ≡ some ch = get_channel-at id store (ground arith) in
        let q : d ≡ ch = cc (at_, there) in subst (λ (x : Channel). x.name ≡ name) q same)
]

-- A channel that a lookup found is the one that the request names.
pub find_channel-Names :
    (parse_uuid : Text → Option ℕ) (p : ChannelRef) (store : MemoryChannelStore) {ch : Channel}
    → IsIndexed store
    → find_channel parse_uuid p store ≡ ok ch
    → Names parse_uuid p ch
unfolding find_channel
find_channel-Names parse_uuid p store {ch} v h = elim (Bool-cases (is_nil p.channel_id)) [
  | inl y ↦ elim (Bool-cases (is_nil p.name)) [
    | inl z ↦ absurd (ground arith)
    | inr n ↦ inr (
      y,
      get_channel_by_name-named p.name store {ch = ch} v
          (found-ok (get_channel_by_name p.name store) (ground arith)),
    )
  ]
  | inr n ↦ elim (Option-cases (parse_uuid p.channel_id)) [
    | inl e ↦ absurd (ground arith)
    | inr (id, e) ↦
        (let there : get id store.channels ≡ some ch =
            get_channel-at id store (found-ok (get_channel id store) (ground arith)) in
          inl (n, e ∙ ap some (sym ((v.stored id ch there).0))))
  ]
]

has_did-with_key :
    (did j : Text) (key : Option SenderKey) (ms : List ChannelMember)
    → has_did j (with_key did key ms) ≡ has_did j ms
unfolding has_did with_key
has_did-with_key did j key [] = refl
has_did-with_key did j key (m ∷ ms) = ground (arith, has_did-with_key did j key ms)

with_key-IsDistinct :
    (did : Text) (key : Option SenderKey) (ms : List ChannelMember)
    → IsDistinct ms
    → IsDistinct (with_key did key ms)
unfolding with_key
with_key-IsDistinct did key [] d = tt
with_key-IsDistinct did key (m ∷ ms) d =
    ground (arith, with_key-IsDistinct did key ms d.1, has_did-with_key did m.did key ms)

pub set_sender_key-IsValid :
    (now : ℕ) (did : Text) (key : Option SenderKey) (ch : Channel)
    → IsValid ch
    → IsValid (set_sender_key now did key ch).0
unfolding set_sender_key is_member
set_sender_key-IsValid now did key ch v =
    if_elim (λ (p : Channel × Bool). IsValid p.0) (has_did did ch.members)
      (λ _. record {
        distinct = with_key-IsDistinct did key ch.members v.distinct;
        owned = has_did-with_key did ch.owner_did key ch.members ∙ v.owned;
      })
      (λ _. v)

-- An update of a stored channel under its name keeps the store sound, and reports no error.
pub update_channel-IsSound :
    (ch old : Channel) (store : MemoryChannelStore)
    → IsSound store
    → get ch.id store.channels ≡ some old
    → ch.name ≡ old.name
    → IsValid ch
    → IsSound (update_channel ch store).0 × ((update_channel ch store).1 ≡ none)
unfolding update_channel get_channel
update_channel-IsSound ch old store v there same ok_ =
    let q = (update_channel_lem ch old store v.indexed (rw (there, get_channel) refl) same).0 in
    (
      record {
        indexed = q;
        valid = λ id d g. elim (Bool-cases (ch.id == id)) [
          | inl y ↦
              (let e : ch ≡ d = ground (arith, get-put ch.id id ch store.channels, there) in
                subst IsValid e ok_)
          | inr n ↦ v.valid id d (ground (arith, get-put ch.id id ch store.channels, there))
        ];
      },
      rw (there, update_channel) refl,
    )

pub delete_channel-IsSound :
    (id : ℕ) (old : Channel) (store : MemoryChannelStore)
    → IsSound store
    → get id store.channels ≡ some old
    → IsSound (delete_channel id store).0
unfolding delete_channel get_channel
delete_channel-IsSound id old store v there = record {
  indexed = (delete_channel_lem id old store v.indexed (rw (there, get_channel) refl)).0;
  valid = λ j d g. v.valid j d (ground (arith, get-delete id j store.channels, there));
}

channels-created :
    (ch : Channel) (store : MemoryChannelStore)
    → get ch.name store.by_name ≡ none
    → (create_channel ch store).0.channels ≡ put ch.id ch store.channels
unfolding create_channel
channels-created ch store e = rw (e, create_channel) refl

taken :
    (ch : Channel) (store : MemoryChannelStore) {id : ℕ}
    → get ch.name store.by_name ≡ some id
    → (create_channel ch store).0 ≡ store
unfolding create_channel
taken ch store e = rw (e, create_channel) refl

pub create_channel-IsSound :
    (ch : Channel) (store : MemoryChannelStore)
    → IsSound store
    → get ch.id store.channels ≡ none
    → IsValid ch
    → IsSound (create_channel ch store).0
create_channel-IsSound ch store v fresh ok_ = elim (Option-cases (get ch.name store.by_name)) [
  | inl e ↦ record {
    indexed = (create_channel_lem ch store v.indexed fresh e).0;
    valid = λ id d g. elim (Bool-cases (ch.id == id)) [
      | inl y ↦
          (let e' : ch ≡ d =
              ground (arith, get-put ch.id id ch store.channels, channels-created ch store e) in
            subst IsValid e' ok_)
      | inr n ↦
          v.valid id d
            (ground (arith, get-put ch.id id ch store.channels, channels-created ch store e))
    ];
  }
  | inr (id, e) ↦ subst IsSound (sym (taken ch store e)) v
]

pub holds-HubIsSound :
    (store : MemoryChannelStore) (h : RelayHub)
    → IsSound store
    → HubIsSound (record h { channels = some store })
holds-HubIsSound store h v s e = let q : store ≡ s = cc e in subst IsSound q v

-- What holds of a refused request and of what the rest of the handler does with a channel that the
-- lookup found, holds of the handler.
pub with_channel_elim :
    (P : Handled → Type 0) (parse_uuid : Text → Option ℕ) (c : Client) (params : Option ChannelRef)
    (act : Channel → MemoryChannelStore → RelayHub → Handled) (h : RelayHub)
    → ((e : ChannelFailure) → P (h, err e))
    → ((p : ChannelRef) (store : MemoryChannelStore) (ch : Channel)
        → params ≡ some p
        → h.channels ≡ some store
        → find_channel parse_uuid p store ≡ ok ch
        → P (act ch store h))
    → P (with_channel parse_uuid c params act h)
unfolding with_channel
with_channel_elim P parse_uuid c params act h refused acts =
    if_elim P (is_nil c.did) (λ _. refused must_register_first) (λ _. with_params params acts)
  where
    with_found :
        (p : ChannelRef) (store : MemoryChannelStore) (r : Result ChannelFailure Channel)
        → ((ch : Channel) → r ≡ ok ch → P (act ch store h))
        → P (elim r [ err e ↦ (h, err e) | ok ch ↦ act ch store h ])
    with_found p store (err e) f = refused e
    with_found p store (ok ch) f = f ch refl

    with_store :
        (p : ChannelRef) (o : Option MemoryChannelStore)
        → ((store : MemoryChannelStore) (ch : Channel)
            → o ≡ some store
            → find_channel parse_uuid p store ≡ ok ch
            → P (act ch store h))
        → P (elim o [
          | none ↦ (h, err channels_not_supported)
          | some store ↦ elim (find_channel parse_uuid p store) [
            | err e ↦ (h, err e)
            | ok ch ↦ act ch store h
          ]
        ])
    with_store p none f = refused channels_not_supported
    with_store p (some store) f =
        with_found p store (find_channel parse_uuid p store) (λ ch e. f store ch refl e)

    with_params :
        (o : Option ChannelRef)
        → ((p : ChannelRef) (store : MemoryChannelStore) (ch : Channel)
            → o ≡ some p
            → h.channels ≡ some store
            → find_channel parse_uuid p store ≡ ok ch
            → P (act ch store h))
        → P (elim o [
          | none ↦ (h, err invalid_params)
          | some p ↦ elim h.channels [
            | none ↦ (h, err channels_not_supported)
            | some store ↦ elim (find_channel parse_uuid p store) [
              | err e ↦ (h, err e)
              | ok ch ↦ act ch store h
            ]
          ]
        ])
    with_params none f = refused invalid_params
    with_params (some p) f = with_store p h.channels (λ store ch a b. f p store ch refl a b)
