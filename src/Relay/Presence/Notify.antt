-- ===== src/Relay/Presence/Notify.antt =====
-- The notifications of a status update (`notifyPresenceChange` of cmd/relay/presence.go): whom they reach.
use msg2agent.Prelude.{
  ℕ, suc, Text, text_eq, nat_eq, nat_beq_iff, ◌==◌, ◌≡◌, refl, sym, ◌∙◌, ap, Bool, true, false,
  Bool-cases, Option-cases, inl, inr, Option, none, some, [], ◌∷◌, if◌then◌else◌, arith,
}
use msg2agent.Prelude.Dict.{Dict, get, slice_at}
use msg2agent.Relay.Hub.{Frame, RelayHub, send}
use msg2agent.Relay.Hub.FanOut.{appended, appended_zero, appended-send, slice_at-send_other}
use msg2agent.Relay.Presence.{is_target, send_presence_notification, notify_presence_change}

-- How many of the subscribers that watch the target are connected through client `j`.
unfoldable pub watchers : Text → Dict Text ℕ → ℕ → Dict Text (Dict Text Bool) → ℕ
watchers target clients j [] = 0
watchers target clients j ((s, targets) ∷ subs) =
    let rest = watchers target clients j subs in
    if is_target target targets
    then elim (get s clients) [ none ↦ rest | some k ↦ if k == j then suc rest else rest ]
    else rest

module _ (target s : Text) (targets : Dict Text Bool) (subs : Dict Text (Dict Text Bool))
    (f : Frame) (h : RelayHub) where
  -- The hub after the round of subscriber `s`.
  abbrev notified : RelayHub
  notified = if is_target target targets then send_presence_notification s f h else h

  notified-clients : notified.clients ≡ h.clients
  unfolding send_presence_notification send
  notified-clients = ground arith

  send_presence_notification-off :
      get s h.clients ≡ none → (send_presence_notification s f h).buffers ≡ h.buffers
  unfolding send_presence_notification
  send_presence_notification-off off = ground arith

  abbrev sent_to : Option ℕ → RelayHub
  sent_to o = elim o [ none ↦ h | some k ↦ (send k f h).0 ]

  send_presence_notification-on :
      {k : ℕ}
      → get s h.clients ≡ some k
      → (send_presence_notification s f h).buffers ≡ (send k f h).0.buffers
  unfolding send_presence_notification
  send_presence_notification-on on = ap (λ o. (sent_to o).buffers) on

  module _ (j : ℕ) where
    watchers-off :
        get s h.clients ≡ none
        → watchers target h.clients j ((s, targets) ∷ subs) ≡ watchers target h.clients j subs
    unfolding watchers
    watchers-off off = ground arith

    watchers-on :
        is_target target targets ≡ true
        → {k : ℕ} → get s h.clients ≡ some k
        → watchers target h.clients j ((s, targets) ∷ subs) ≡ (
            if k == j
            then suc (watchers target h.clients j subs)
            else watchers target h.clients j subs)
    unfolding watchers
    watchers-on watched on = rw watched (rw on refl)

    watchers-unwatched :
        is_target target targets ≡ false
        → watchers target h.clients j ((s, targets) ∷ subs) ≡ watchers target h.clients j subs
    unfolding watchers
    watchers-unwatched unwatched = rw unwatched refl

    appended-send_presence_notification :
        is_target target targets ≡ true
        → appended
            (watchers target h.clients j subs)
            f
            (slice_at j (send_presence_notification s f h).buffers)
          ≡ appended (watchers target h.clients j ((s, targets) ∷ subs)) f (slice_at j h.buffers)
    appended-send_presence_notification watched = elim (Option-cases (get s h.clients)) [
      | inl off ↦ rw (send_presence_notification-off off) (rw (watchers-off off) refl)
      | inr (k, on) ↦ rw (send_presence_notification-on on) (
          rw (watchers-on watched on) (elim (Bool-cases (k == j)) [
            | inl hit ↦ rw hit (
                let e : k ≡ j = (nat_beq_iff k j).0 hit in
                rw e (appended-send (watchers target h.clients j subs) j f h))
            | inr miss ↦ rw miss (rw (slice_at-send_other j k f h miss) refl)
          ]))
    ]

    appended-notified :
        appended (watchers target h.clients j subs) f (slice_at j notified.buffers)
        ≡ appended (watchers target h.clients j ((s, targets) ∷ subs)) f (slice_at j h.buffers)
    appended-notified = elim (Bool-cases (is_target target targets)) [
      | inl watched ↦ rw watched (appended-send_presence_notification watched)
      | inr unwatched ↦ rw unwatched (rw (watchers-unwatched unwatched) refl)
    ]

-- The notification is appended to the buffer of client `j` once for every subscriber that watches the target
-- and is connected through `j`, as often as there is room, and nothing else changes in any buffer.
pub notify_presence_change-buffers :
    (target : Text) (f : Frame) (subs : Dict Text (Dict Text Bool)) (h : RelayHub) (j : ℕ)
    → slice_at j (notify_presence_change target f subs h).buffers
      ≡ appended (watchers target h.clients j subs) f (slice_at j h.buffers)
unfolding notify_presence_change
notify_presence_change-buffers target f [] h j =
    unfold watchers in sym (appended_zero f (slice_at j h.buffers))
notify_presence_change-buffers target f ((s, targets) ∷ subs) h j =
    let t = notified target s targets subs f h in
    notify_presence_change-buffers target f subs t j
    ∙ ap (λ c. appended (watchers target c j subs) f (slice_at j t.buffers))
        (notified-clients target s targets subs f h)
    ∙ appended-notified target s targets subs f h j
