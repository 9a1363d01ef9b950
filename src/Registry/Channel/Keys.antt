-- ===== src/Registry/Channel/Keys.antt =====
-- Sender keys of a channel's members.
use msg2agent.Prelude.{
  ℕ, Text, text_eq, ◌==◌, text_beq_iff, ◌≡◌, refl, true, false, Option, none, List, [], ◌∷◌, map,
  if◌then◌else◌, arith,
}
use msg2agent.Registry.Channel.{
  SenderKey, ChannelMember, Channel, has_did, is_member, find_member, get_member, key_of, with_key,
  set_sender_key, get_sender_key, member_dids,
}

key_of-with_key :
    (did j : Text) (key : Option SenderKey) (ms : List ChannelMember)
    → key_of (find_member j (with_key did key ms))
      ≡ (if did == j then (if has_did did ms then key else none) else key_of (find_member j ms))
unfolding find_member with_key has_did
key_of-with_key did j key [] = ground arith
key_of-with_key did j key (m ∷ ms) = ground (
  arith,
  key_of-with_key did j key ms,
  text_beq_iff m.did did,
  text_beq_iff m.did j,
  text_beq_iff did j,
)

dids-with_key :
    (did : Text) (key : Option SenderKey) (ms : List ChannelMember)
    → map (λ m. m.did) (with_key did key ms) ≡ map (λ (m : ChannelMember). m.did) ms
unfolding with_key
dids-with_key did key [] = refl
dids-with_key did key (m ∷ ms) = ground (arith, dids-with_key did key ms)

absent-find_member :
    (did j : Text) (ms : List ChannelMember)
    → has_did did ms ≡ false
    → (did == j) ≡ true
    → find_member j ms ≡ none
unfolding has_did find_member
absent-find_member did j [] h e = refl
absent-find_member did j (m ∷ ms) h e = ground (
  arith,
  absent-find_member did j ms (ground arith) e,
  text_beq_iff did j,
  text_beq_iff m.did j,
  text_beq_iff m.did did,
)

-- Setting a member's sender key is what a later read of that key returns; the key of every other DID
-- and the list of members stay. For a DID that is no member nothing changes.
pub get_sender_key-set_sender_key :
    (now : ℕ) (did : Text) (key : Option SenderKey) (c : Channel)
    → ((j : Text)
        → get_sender_key (set_sender_key now did key c).0 j
          ≡ (if did == j then (if is_member c did then key else none) else get_sender_key c j))
      × (member_dids (set_sender_key now did key c).0 ≡ member_dids c)
      × ((set_sender_key now did key c).1 ≡ is_member c did)
unfolding get_sender_key get_member set_sender_key is_member member_dids
get_sender_key-set_sender_key now did key c = (
  (λ j. ground (arith, key_of-with_key did j key c.members, absent-find_member did j c.members)),
  ground (arith, dids-with_key did key c.members),
  ground arith,
)
