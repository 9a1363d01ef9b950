-- ===== src/Registry/Channel/Members.antt =====
-- Membership of a channel: who is a member, who may send, and that no DID is a member twice.
use msg2agent.Prelude.{
  ℕ, Text, text_eq, ◌==◌, text_beq_iff, ◌≡◌, refl, ◌↔◌, ◌⊎◌, inl, inr, true, false, Bool-cases,
  ◌||◌, Option, none, some, List, [], ◌∷◌, ◌++◌, if_elim, if◌then◌else◌, arith,
}
use msg2agent.Registry.Channel.{
  member_already_added, SenderKey, ChannelType, broadcast, ChannelRole, ChannelMember, Channel,
  has_did, is_member, add_member, without_did, remove_member, is_owner, can_send, with_key,
  new_channel,
}

-- No two members have one DID.
abbrev pub IsDistinct : List ChannelMember → Type 0
IsDistinct [] = Unit
IsDistinct (m ∷ ms) = (has_did m.did ms ≡ false) × IsDistinct ms

-- The invariant of a channel.
pub record IsValid (c : Channel) : Type 0 where
  pub distinct : IsDistinct c.members
  pub owned : is_member c c.owner_did ≡ true

has_did-append :
    (did : Text) (xs ys : List ChannelMember)
    → has_did did (xs ++ ys) ≡ (has_did did xs || has_did did ys)
unfolding has_did
has_did-append did [] ys = refl
has_did-append did (m ∷ xs) ys = ground (arith, has_did-append did xs ys)

append-IsDistinct :
    (xs : List ChannelMember) (m : ChannelMember)
    → IsDistinct xs
    → has_did m.did xs ≡ false
    → IsDistinct (xs ++ m ∷ [])
unfolding has_did
append-IsDistinct [] m h n = (refl, tt)
append-IsDistinct (x ∷ xs) m h n = (
  ground
      (arith, has_did-append x.did xs (m ∷ []), text_beq_iff x.did m.did, text_beq_iff m.did x.did),
  append-IsDistinct xs m h.1 (ground arith),
)

has_did-without_did :
    (did j : Text) (ms : List ChannelMember)
    → IsDistinct ms
    → has_did j (without_did did ms) ≡ (if did == j then false else has_did j ms)
unfolding has_did without_did
has_did-without_did did j [] h = ground arith
has_did-without_did did j (m ∷ ms) h = ground (
  arith,
  has_did-without_did did j ms h.1,
  text_beq_iff m.did did,
  text_beq_iff m.did j,
  text_beq_iff did j,
)

without_did-IsDistinct :
    (did : Text) (ms : List ChannelMember) → IsDistinct ms → IsDistinct (without_did did ms)
unfolding without_did
without_did-IsDistinct did [] h = tt
without_did-IsDistinct did (m ∷ ms) h =
    ground (arith, without_did-IsDistinct did ms h.1, has_did-without_did did m.did ms h.1)

has_did-with_key :
    (did j : Text) (key : Option SenderKey) (ms : List ChannelMember)
    → has_did j (with_key did key ms) ≡ has_did j ms
unfolding has_did with_key
has_did-with_key did j key [] = refl
has_did-with_key did j key (m ∷ ms) = ground (arith, has_did-with_key did j key ms)

with_key-IsDistinct :
    (did : Text) (key : Option SenderKey) (ms : List ChannelMember)
    → IsDistinct ms
    → IsDistinct (with_key did key ms)
unfolding with_key
with_key-IsDistinct did key [] h = tt
with_key-IsDistinct did key (m ∷ ms) h =
    ground (arith, with_key-IsDistinct did key ms h.1, has_did-with_key did m.did key ms)

-- A new channel is valid.
pub new_channel-IsValid :
    (id now : ℕ) (name : Text) (kind : ChannelType) (owner_did : Text)
    → IsValid (new_channel id now name kind owner_did)
unfolding new_channel is_member has_did
new_channel-IsValid id now name kind owner_did = record {
  distinct = (refl, tt);
  owned = ground (arith, text_beq_iff owner_did owner_did);
}

-- What a method leaves is a valid channel.
abbrev pub Leaves : {R : Type 0} → Channel × R → Type 0
Leaves r = IsValid r.0

same_did-has_did :
    (did j : Text) (ms : List ChannelMember) → (did == j) ≡ true → has_did did ms ≡ has_did j ms
same_did-has_did did j ms h = let e : did ≡ j = (text_beq_iff did j).0 h in cc e

add_member-IsValid :
    (now : ℕ) (did : Text) (role : ChannelRole) (c : Channel)
    → IsValid c
    → IsValid (add_member now did role c).0
unfolding add_member is_member
add_member-IsValid now did role c v =
    if_elim Leaves (has_did did c.members) (λ _. v)
      (λ n. record {
        distinct = append-IsDistinct c.members _ v.distinct n;
        owned = rw (has_did-append c.owner_did c.members _) (rw v.owned);
      })

-- `AddMember` keeps a channel valid, refuses exactly the DIDs that are members, and adds just the DID.
pub add_member_lem :
    (now : ℕ) (did : Text) (role : ChannelRole) (c : Channel)
    → IsValid c
    → IsValid (add_member now did role c).0
      × ((j : Text) → is_member (add_member now did role c).0 j ≡ (did == j || is_member c j))
      × ((add_member now did role c).1
          ≡ (if is_member c did then some member_already_added else none))
unfolding add_member is_member has_did
add_member_lem now did role c v =
    let m : ChannelMember = record { did = did; joined_at = now; role = role; sender_key = none } in
    (
      add_member-IsValid now did role c v,
      (λ j. ground (arith, has_did-append j c.members (m ∷ []), same_did-has_did did j c.members)),
      ground arith,
    )

-- Removing another DID than the owner's keeps a channel valid.
remove_member-IsValid :
    (now : ℕ) (did : Text) (c : Channel)
    → IsValid c
    → (did == c.owner_did) ≡ false
    → IsValid (remove_member now did c).0
unfolding remove_member is_member
remove_member-IsValid now did c v other =
    if_elim Leaves (has_did did c.members)
      (λ _. record {
        distinct = without_did-IsDistinct did c.members v.distinct;
        owned = rw (has_did-without_did did c.owner_did c.members v.distinct) (rw other v.owned);
      })
      (λ _. v)

-- `RemoveMember` reports whether the DID was a member; afterwards it is a member no more, every other
-- membership stays, and the channel is still valid if the DID is not the owner's.
pub remove_member_lem :
    (now : ℕ) (did : Text) (c : Channel)
    → IsValid c
    → ((j : Text)
        → is_member (remove_member now did c).0 j ≡ (if did == j then false else is_member c j))
      × ((remove_member now did c).1 ≡ is_member c did)
      × ((did ≡ c.owner_did) ⊎ IsValid (remove_member now did c).0)
unfolding remove_member is_member
remove_member_lem now did c v = (
  (λ j.
      ground
        (arith, has_did-without_did did j c.members v.distinct, same_did-has_did did j c.members)),
  ground arith,
  elim (Bool-cases (did == c.owner_did)) [
    | inl same ↦ inl ((text_beq_iff did c.owner_did).0 same)
    | inr other ↦ inr (unfold remove_member is_member in remove_member-IsValid now did c v other)
  ],
)

can_send_complete :
    (c : Channel) (did : Text)
    → is_member c did ≡ true
    → (c.kind ≡ broadcast → did ≡ c.owner_did)
    → can_send c did ≡ true
unfolding can_send is_owner
can_send_complete c did m o = ground (arith, text_beq_iff c.owner_did did)

-- A DID may send exactly if it is a member and, on a broadcast channel, the owner.
pub can_send_iff :
    (c : Channel) (did : Text)
    → (can_send c did ≡ true)
      ↔ ((is_member c did ≡ true) × (c.kind ≡ broadcast → did ≡ c.owner_did))
unfolding can_send is_owner
can_send_iff c did = (
  (λ h. (ground arith, (λ b. ground (arith, text_beq_iff c.owner_did did)))),
  (λ h. can_send_complete c did h.0 h.1),
)
