-- ===== src/Registry/ChannelStore/Index.antt =====
-- The name index of the channel store agrees with the channels.
use msg2agent.Prelude.{
  ℕ, nat_eq, nat_beq_iff, Text, text_eq, text_beq_iff, ◌==◌, ◌≡◌, ap, subst, ◌∙◌, inl, inr, false,
  Bool-cases, Option-cases, none, some, ok, err, arith,
}
use msg2agent.Prelude.Dict.{get, put, delete, get-put, get-put_self, get-delete, get-delete_self}
use msg2agent.Registry.Channel.{channel_not_found, channel_exists, Channel}
use msg2agent.Registry.ChannelStore.{
  MemoryChannelStore, new_memory_channel_store, create_channel, get_channel, get_channel_by_name,
  update_channel, delete_channel,
}

-- Every name leads to the channel of that name, and every channel is found under its name.
pub record IsIndexed (s : MemoryChannelStore) : Type 0 where
  pub named :
      (n : Text) (id : ℕ)
      → get n s.by_name ≡ some id
      → (c : Channel) × (get id s.channels ≡ some c) × (c.name ≡ n)
  pub stored :
      (id : ℕ) (c : Channel)
      → get id s.channels ≡ some c
      → (c.id ≡ id) × (get c.name s.by_name ≡ some id)

-- The store after a channel with a fresh id and a free name was put into it.
module _ (c : Channel) (s : MemoryChannelStore) (v : IsIndexed s)
    (fresh : get c.id s.channels ≡ none) (free : get c.name s.by_name ≡ none) where
  abbrev after_create : MemoryChannelStore
  after_create = record { channels = put c.id c s.channels; by_name = put c.name c.id s.by_name }

  after_create-named :
      (n : Text) (id : ℕ)
      → get n after_create.by_name ≡ some id
      → (d : Channel) × (get id after_create.channels ≡ some d) × (d.name ≡ n)
  after_create-named n id h = elim (Bool-cases (c.name == n)) [
    | inl y ↦
        (let e : c.id ≡ id = ground (arith, get-put c.name n c.id s.by_name) in
          (
            c,
            ground (arith, get-put c.id id c s.channels, nat_beq_iff c.id id),
            (text_beq_iff c.name n).0 y,
          ))
    | inr z ↦
        (let (d, at_, name) = v.named n id (ground (arith, get-put c.name n c.id s.by_name)) in
          (d, ground (arith, get-put c.id id c s.channels, nat_beq_iff c.id id), name))
  ]

  after_create-stored :
      (id : ℕ) (d : Channel)
      → get id after_create.channels ≡ some d
      → (d.id ≡ id) × (get d.name after_create.by_name ≡ some id)
  after_create-stored id d h = elim (Bool-cases (c.id == id)) [
    | inl y ↦
        (let e : c ≡ d = ground (arith, get-put c.id id c s.channels) in
          let i : c.id ≡ id = (nat_beq_iff c.id id).0 y in
          subst (λ x. (x.id ≡ id) × (get x.name after_create.by_name ≡ some id)) e
            (i, get-put_self c.name c.id s.by_name ∙ ap some i))
    | inr z ↦
        (let (i, n) = v.stored id d (ground (arith, get-put c.id id c s.channels)) in
          (i, ground (arith, get-put c.name d.name c.id s.by_name, n, text_beq_iff c.name d.name)))
  ]

  after_create-IsIndexed : IsIndexed after_create
  after_create-IsIndexed = record { named = after_create-named; stored = after_create-stored }

-- The store after a stored channel was replaced by one of the same name.
module _ (c old : Channel) (s : MemoryChannelStore) (v : IsIndexed s)
    (there : get c.id s.channels ≡ some old) (same : c.name ≡ old.name) where
  abbrev after_update : MemoryChannelStore
  after_update = record s { channels = put c.id c s.channels }

  after_update-IsIndexed : IsIndexed after_update
  after_update-IsIndexed = record {
    named = λ n id h.
        let (d, at_, name) = v.named n id h in
        elim (Bool-cases (c.id == id)) [
          | inl y ↦ (
            c,
            ground (arith, get-put c.id id c s.channels),
            (let i : c.id ≡ id = (nat_beq_iff c.id id).0 y in
                let o : old ≡ d = cc (there, at_, i) in same ∙ ap (λ x. x.name) o ∙ name),
          )
          | inr z ↦ (d, ground (arith, get-put c.id id c s.channels), name)
        ];
    stored = λ id d h. elim (Bool-cases (c.id == id)) [
      | inl y ↦
          (let e : c ≡ d = ground (arith, get-put c.id id c s.channels) in
            let i : c.id ≡ id = (nat_beq_iff c.id id).0 y in
            subst (λ x. (x.id ≡ id) × (get x.name s.by_name ≡ some id)) e
              (i, (let k = (v.stored c.id old there).1 in cc (same, k, i))))
      | inr z ↦ v.stored id d (ground (arith, get-put c.id id c s.channels))
    ];
  }

-- The store after a stored channel was deleted.
module _ (id : ℕ) (old : Channel) (s : MemoryChannelStore) (v : IsIndexed s)
    (there : get id s.channels ≡ some old) where
  abbrev after_delete : MemoryChannelStore
  after_delete = record { channels = delete id s.channels; by_name = delete old.name s.by_name }

  after_delete-IsIndexed : IsIndexed after_delete
  after_delete-IsIndexed = record {
    named = λ n j h.
        let (d, at_, name) = v.named n j (ground (arith, get-delete old.name n s.by_name)) in
        (
          d,
          ground (
            arith,
            get-delete id j s.channels,
            get-delete old.name n s.by_name,
            text_beq_iff old.name n,
            nat_beq_iff id j,
            there,
            at_,
            name,
          ),
          name,
        );
    stored = λ j d h.
        let (i, n) = v.stored j d (ground (arith, get-delete id j s.channels)) in
        (
          i,
          ground (
            arith,
            get-delete old.name d.name s.by_name,
            get-delete id j s.channels,
            n,
            v.stored id old there,
            text_beq_iff old.name d.name,
            nat_beq_iff id j,
          ),
        );
  }

create_channel-after :
    (c : Channel) (s : MemoryChannelStore)
    → get c.name s.by_name ≡ none
    → (create_channel c s).0
      ≡ record { channels = put c.id c s.channels; by_name = put c.name c.id s.by_name }
unfolding create_channel
create_channel-after c s free = rw (free, create_channel)

get_channel-stored :
    (id : ℕ) (s : MemoryChannelStore) {c : Channel}
    → get_channel id s ≡ ok c
    → get id s.channels ≡ some c
unfolding get_channel
get_channel-stored id s h = ground arith

update_channel-after :
    (c : Channel) (s : MemoryChannelStore) {old : Channel}
    → get c.id s.channels ≡ some old
    → (update_channel c s).0 ≡ record s { channels = put c.id c s.channels }
unfolding update_channel
update_channel-after c s there = rw (there, update_channel)

delete_channel-after :
    (id : ℕ) (s : MemoryChannelStore) {old : Channel}
    → get id s.channels ≡ some old
    → (delete_channel id s).0
      ≡ record { channels = delete id s.channels; by_name = delete old.name s.by_name }
unfolding delete_channel
delete_channel-after id s there = rw (there, delete_channel)

-- The lookups in a store that holds a channel under a name and an id.
lookups :
    (c : Channel) (id : ℕ) (t : MemoryChannelStore)
    → get c.name t.by_name ≡ some id
    → get id t.channels ≡ some c
    → (get_channel_by_name c.name t ≡ ok c) × (get_channel id t ≡ ok c)
unfolding get_channel_by_name get_channel
lookups c id t n h = (rw (n, get_channel_by_name) (rw (h, get_channel)), rw (h, get_channel))

pub IsIndexed-new : IsIndexed new_memory_channel_store
unfolding new_memory_channel_store get
IsIndexed-new = record { named = λ n id h. absurd (cc h); stored = λ id c h. absurd (cc h) }

-- Creating a channel under a fresh id keeps the index; with a free name, the channel is found by its
-- name and by its id, and what any other name leads to stays.
pub create_channel_lem :
    (c : Channel) (s : MemoryChannelStore)
    → IsIndexed s
    → get c.id s.channels ≡ none
    → get c.name s.by_name ≡ none
    → let t = (create_channel c s).0 in
      IsIndexed t
      × (get_channel_by_name c.name t ≡ ok c)
      × (get_channel c.id t ≡ ok c)
      × ((n : Text) → (c.name == n) ≡ false → get_channel_by_name n t ≡ get_channel_by_name n s)
unfolding get_channel_by_name
create_channel_lem c s v fresh free = rw (create_channel-after c s free) (
    let (a, b) =
      lookups c c.id (after_create c s v fresh free) (get-put_self c.name c.id s.by_name)
        (get-put_self c.id c s.channels) in
    (
      after_create-IsIndexed c s v fresh free,
      a,
      b,
      (λ n ne. elim (Option-cases (get n s.by_name)) [
        | inl e ↦ ground (arith, get-put c.name n c.id s.by_name)
        | inr (id, e) ↦
            (let (d, at_, name) = v.named n id e in
              ground (
                arith,
                get-put c.name n c.id s.by_name,
                get-put c.id id c s.channels,
                nat_beq_iff c.id id,
                at_,
              ))
      ]),
    ))

-- A taken name is refused and nothing changes.
pub create_channel-taken :
    (c d : Channel) (s : MemoryChannelStore)
    → get_channel_by_name c.name s ≡ ok d
    → create_channel c s ≡ (s, some channel_exists)
unfolding create_channel get_channel_by_name
create_channel-taken c d s h = ground arith

-- Updating a stored channel under the same name keeps the index, and both lookups return the update.
pub update_channel_lem :
    (c old : Channel) (s : MemoryChannelStore)
    → IsIndexed s
    → get_channel c.id s ≡ ok old
    → c.name ≡ old.name
    → let t = (update_channel c s).0 in
      IsIndexed t × (get_channel_by_name c.name t ≡ ok c) × (get_channel c.id t ≡ ok c)
update_channel_lem c old s v there same =
    let at_ = get_channel-stored c.id s there in
    rw (update_channel-after c s at_) (
      let k = (v.stored c.id old at_).1 in
      let (a, b) =
        lookups c c.id (after_update c old s v at_ same) (cc (k, same))
          (get-put_self c.id c s.channels) in
      (after_update-IsIndexed c old s v at_ same, a, b))

-- Deleting a stored channel keeps the index, and neither its id nor its name finds it again.
pub delete_channel_lem :
    (id : ℕ) (old : Channel) (s : MemoryChannelStore)
    → IsIndexed s
    → get_channel id s ≡ ok old
    → let t = (delete_channel id s).0 in
      IsIndexed t
      × (get_channel id t ≡ err channel_not_found)
      × (get_channel_by_name old.name t ≡ err channel_not_found)
unfolding get_channel_by_name
delete_channel_lem id old s v there =
    let at_ = get_channel-stored id s there in
    rw (delete_channel-after id s at_) (
      after_delete-IsIndexed id old s v at_,
      ground (arith, get-delete_self id s.channels),
      ground (arith, get-delete_self old.name s.by_name),
    )
