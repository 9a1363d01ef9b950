-- ===== src/Relay/ChannelHandlers/Race.antt =====
-- Two requests for one channel that interleave: each handler reads the channel, changes its copy, and
-- writes the copy back, and nothing keeps another handler out between the two.
use msg2agent.Prelude.{
  ℕ, nat_eq, Text, text_eq, text_beq_iff, ◌≡◌, ◌≢◌, refl, ap, sym, ◌∙◌, false, none, some, [], ◌∷◌,
  ◌++◌, if_false, ok, arith,
}
use msg2agent.Prelude.Dict.{get, put, get-put_self}
use msg2agent.Registry.Channel.{Channel, is_member, member, add_member}
use msg2agent.Registry.Channel.Members.{add_member_lem}
use msg2agent.Registry.ChannelStore.{MemoryChannelStore, get_channel, update_channel}
use msg2agent.Relay.Hub.{RelayHub}
use msg2agent.Relay.ChannelHandlers.{join_channel, after_add, after_update}
use msg2agent.Relay.ChannelRequest.{joined}
use msg2agent.Relay.ChannelHandlers.Valid.{IsSound}

abbrev with_member : ℕ → Text → Channel → Channel
with_member now did ch = record ch {
  members =
      ch.members ++ record { did = did; joined_at = now; role = member; sender_key = none } ∷ [];
  updated_at = now;
}

abbrev stored_with : ℕ → Text → Channel → MemoryChannelStore → MemoryChannelStore
stored_with now did ch store = record store {
  channels = put ch.id (with_member now did ch) store.channels;
}

add_member-after :
    (now : ℕ) (did : Text) (ch : Channel)
    → is_member ch did ≡ false
    → add_member now did member ch ≡ (with_member now did ch, none)
unfolding add_member
add_member-after now did ch n = if_false (is_member ch did) _ _ n

update_channel-after :
    (ch : Channel) (store : MemoryChannelStore) {old : Channel}
    → get ch.id store.channels ≡ some old
    → update_channel ch store ≡ (record store { channels = put ch.id ch store.channels }, none)
unfolding update_channel
update_channel-after ch store at_ = rw (at_, update_channel) refl

join_channel-after :
    (now : ℕ) (did : Text) (ch : Channel) (store : MemoryChannelStore) (h : RelayHub)
    {old : Channel}
    → is_member ch did ≡ false
    → get ch.id store.channels ≡ some old
    → join_channel now did ch store h
      ≡ (record h { channels = some (stored_with now did ch store) }, ok joined)
unfolding join_channel
join_channel-after now did ch store h n at_ =
    ap (λ u. after_add u store h) (add_member-after now did ch n)
    ∙ ap (λ u. after_update joined u h) (update_channel-after (with_member now did ch) store at_)

-- Two clients that are no members ask to join a channel, and both handlers read the channel before
-- either writes it back: both replies say joined, and the first client is no member of the stored
-- channel. The channel store is a sound one.
pub join_channel-lost :
    (now now' : ℕ) (did did' : Text) (ch : Channel) (store : MemoryChannelStore) (h : RelayHub)
    → IsSound store
    → get ch.id store.channels ≡ some ch
    → is_member ch did ≡ false
    → is_member ch did' ≡ false
    → did ≢ did'
    → (s₁ s₂ : MemoryChannelStore) × (ch' : Channel) × (join_channel now did ch store h
        ≡ (record h { channels = some s₁ }, ok joined))
      × (join_channel now' did' ch s₁ (record h { channels = some s₁ })
          ≡ (record h { channels = some s₂ }, ok joined))
      × (get_channel ch.id s₂ ≡ ok ch')
      × (is_member ch' did ≡ false)
unfolding get_channel
join_channel-lost now now' did did' ch store h v at_ n n' ne =
    let s₁ = stored_with now did ch store in
    (
      s₁,
      stored_with now' did' ch s₁,
      with_member now' did' ch,
      join_channel-after now did ch store h n at_,
      join_channel-after now' did' ch s₁ (record h { channels = some s₁ }) n'
          (get-put_self ch.id (with_member now did ch) store.channels),
      rw (get-put_self ch.id (with_member now' did' ch) s₁.channels, get_channel) refl,
      ap (λ u. is_member u.0 did) (sym (add_member-after now' did' ch n'))
          ∙ (add_member_lem now' did' member ch (v.valid ch.id ch at_)).1 did
          ∙ ground (arith, text_beq_iff did' did, (λ (q : did' ≡ did). ne (sym q))),
    )
