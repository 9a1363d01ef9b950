-- ===== src/Relay/Presence/Watch.antt =====
-- Presence (cmd/relay/presence.go): what a status update sets and whom it reaches, who watches whom after a
-- change of the subscriptions, and who is typing.
use msg2agent.Prelude.{
  ℕ, ◌+◌, Text, text_eq, text_beq_iff, nat_eq, ◌==◌, ◌≡◌, refl, Bool, true, false, not, ◌&&◌, ◌||◌,
  ltb, Bool-cases, inl, inr, Option, none, some, [], if◌then◌else◌, arith,
}
use msg2agent.Prelude.Dict.{
  Dict, get, put, delete, slice_at, get-put, get-delete, slice_at-put, slice_at_of_some,
  slice_at_of_none, get-nil,
}
use msg2agent.Registry.Presence.{AgentStatus, back_online, update_activity}
use msg2agent.Relay.Hub.{RelayHub}
use msg2agent.Relay.Presence.{
  PresenceManager, get_presence, subscribe, unsubscribe, unsubscribe_all, is_target, typing_timeout,
  set_typing, is_typing, update_presence,
}

-- A status update stores, for its DID and no other, the text and the status of the update, the time as the
-- last activity and no idle time; but where the update says away, the status that is stored is online.
pub get_presence-update_presence :
    (now : ℕ) (did j : Text) (status : AgentStatus) (status_text : Text) (pm : PresenceManager)
    (h : RelayHub)
    → get_presence j (update_presence now did status status_text pm h).0 ≡ (
        if did == j
        then some (record {
          status = back_online status;
          status_text = status_text;
          last_activity = now;
          idle_since = none;
        })
        else get_presence j pm)
unfolding get_presence update_presence update_activity
get_presence-update_presence now did j status status_text pm h = get-put did j _ pm.presence

-- Maps of maps: a lookup of the inner key `j` of the outer key `i` after a change at `s` and `t`.
module _ {V : Type 0} (s t i j : Text) (m : Dict Text (Dict Text V)) where
  same_outer : (s == i) ≡ true → slice_at i m ≡ slice_at s m
  same_outer h = let e : s ≡ i = (text_beq_iff s i).0 h in cc e

  get_inner-put :
      (v : V)
      → get j (slice_at i (put s (put t v (slice_at s m)) m))
        ≡ (if s == i && t == j then some v else get j (slice_at i m))
  get_inner-put v = elim (Bool-cases (s == i)) [
    | inl y ↦
        rw (slice_at-put s i (put t v (slice_at s m)) m)
          (rw (same_outer y) (rw y (get-put t j v (slice_at s m))))
    | inr n ↦ rw (slice_at-put s i (put t v (slice_at s m)) m) (rw n refl)
  ]

  -- The outer map after the inner key was deleted, if there was an inner map.
  abbrev dropped : Option (Dict Text V) → Dict Text (Dict Text V)
  dropped none = m
  dropped (some ts) = put s (delete t ts) m

  get_inner-absent : get s m ≡ none → (s == i) ≡ true → get j (slice_at i m) ≡ none
  get_inner-absent e y =
      rw (same_outer y) (rw (slice_at_of_none s m e) (get-nil {V = V} ⦃e = text_eq⦄ j))

  get_inner-dropped :
      (o : Option (Dict Text V))
      → get s m ≡ o
      → get j (slice_at i (dropped o)) ≡ (if s == i && t == j then none else get j (slice_at i m))
  get_inner-dropped none e = ground (arith, get_inner-absent e)
  get_inner-dropped (some ts) e = elim (Bool-cases (s == i)) [
    | inl y ↦
        rw (slice_at-put s i (delete t ts) m)
          (rw (same_outer y) (rw (slice_at_of_some s m e) (rw y (get-delete t j ts))))
    | inr n ↦ rw (slice_at-put s i (delete t ts) m) (rw n refl)
  ]

  slice_at-delete : slice_at i (delete s m) ≡ (if s == i then [] else slice_at i m)
  unfolding slice_at
  slice_at-delete = ground (arith, get-delete s i m)

  get_inner-delete :
      get j (slice_at i (delete s m)) ≡ (if s == i then none else get j (slice_at i m))
  get_inner-delete = elim (Bool-cases (s == i)) [
    | inl y ↦ rw slice_at-delete (rw y (get-nil {V = V} ⦃e = text_eq⦄ j))
    | inr n ↦ rw slice_at-delete (rw n refl)
  ]

-- `subscriptions[subscriber][target]`
abbrev pub watches : Text → Text → PresenceManager → Bool
watches subscriber target pm = is_target target (slice_at subscriber pm.subscriptions)

watches-subscribe :
    (s t i j : Text) (pm : PresenceManager)
    → watches i j (subscribe s t pm) ≡ (s == i && t == j || watches i j pm)
unfolding subscribe
watches-subscribe s t i j pm = ground (arith, get_inner-put s t i j pm.subscriptions true)

watches-unsubscribe :
    (s t i j : Text) (pm : PresenceManager)
    → watches i j (unsubscribe s t pm) ≡ (not (s == i && t == j) && watches i j pm)
unfolding unsubscribe
watches-unsubscribe s t i j pm =
    ground (arith, get_inner-dropped s t i j pm.subscriptions (get s pm.subscriptions) refl)

watches-unsubscribe_all :
    (s i j : Text) (pm : PresenceManager)
    → watches i j (unsubscribe_all s pm) ≡ (not (s == i) && watches i j pm)
unfolding unsubscribe_all
watches-unsubscribe_all s i j pm = ground (arith, get_inner-delete s s i j pm.subscriptions)

-- For every pair of DIDs: after `Subscribe` the first watches the second if the call subscribed it or it
-- did before; after `Unsubscribe` if it did before and the call named another pair; and after
-- `UnsubscribeAll` if it did before and the call named another subscriber.
pub watches_lem :
    (s t i j : Text) (pm : PresenceManager)
    → (watches i j (subscribe s t pm) ≡ (s == i && t == j || watches i j pm))
      × (watches i j (unsubscribe s t pm) ≡ (not (s == i && t == j) && watches i j pm))
      × (watches i j (unsubscribe_all s pm) ≡ (not (s == i) && watches i j pm))
watches_lem s t i j pm =
    (watches-subscribe s t i j pm, watches-unsubscribe s t i j pm, watches-unsubscribe_all s i j pm)

-- After `SetTyping` at `now`, the sender is typing in the thread at `later` exactly if the call said so and
-- the ten seconds have not passed; for every other sender or thread nothing changes.
pub is_typing-set_typing :
    (now later : ℕ) (s t i j : Text) (typing : Bool) (pm : PresenceManager)
    → is_typing later i j (set_typing now s t typing pm) ≡ (
        if s == i && t == j
        then typing && ltb later (now + typing_timeout)
        else is_typing later i j pm)
unfolding is_typing set_typing
is_typing-set_typing now later s t i j true pm =
    ground (arith, get_inner-put s t i j pm.typing_state (now + typing_timeout))
is_typing-set_typing now later s t i j false pm =
    ground (arith, get_inner-dropped s t i j pm.typing_state (get s pm.typing_state) refl)
