-- ===== src/Relay/Presence/Update.antt =====
-- `UpdatePresence` of cmd/relay/presence.go: what is stored and what the subscribers are sent.
use msg2agent.Prelude.{
  ℕ, Text, text_eq, nat_eq, text_beq_iff, ◌≡◌, ◌≢◌, refl, ap, ◌∙◌, none, some, arith,
}
use msg2agent.Prelude.Dict.{slice_at}
use msg2agent.Registry.Presence.{
  AgentStatus, online, offline, busy, away, dnd, PresenceInfo, back_online, update_activity,
}
use msg2agent.Relay.Hub.{presence_update, RelayHub}
use msg2agent.Relay.Hub.FanOut.{appended}
use msg2agent.Relay.Presence.{PresenceManager, get_presence, update_presence}
use msg2agent.Relay.Presence.Watch.{get_presence-update_presence}
use msg2agent.Relay.Presence.Notify.{watchers, notify_presence_change-buffers}

back_online_away : (status : AgentStatus) → status ≡ away → back_online status ≡ online
back_online_away status e = ap back_online e

back_online_other : (status : AgentStatus) → status ≢ away → back_online status ≡ status
back_online_other away n = absurd (n refl)
back_online_other online n = refl
back_online_other offline n = refl
back_online_other busy n = refl
back_online_other dnd n = refl

-- After a status update the DID has a presence with the text of the update, the time as its last activity
-- and no idle time. Its status is the one of the update, but online where the update says away; and this
-- status, not the one of the update, is what each subscriber of the DID is sent, once for each that is
-- connected, as far as its buffer has room. No other frame is sent.
pub update_presence_lem :
    (now : ℕ) (did : Text) (status : AgentStatus) (status_text : Text) (pm : PresenceManager)
    (h : RelayHub)
    → let (pm', t) = update_presence now did status status_text pm h in
      (info : PresenceInfo) × (get_presence did pm' ≡ some info)
      × (status ≡ away → info.status ≡ online)
      × (status ≢ away → info.status ≡ status)
      × (info.status_text ≡ status_text)
      × (info.last_activity ≡ now)
      × (info.idle_since ≡ none)
      × ((j : ℕ)
          → slice_at j t.buffers
            ≡ appended
                (watchers did h.clients j pm.subscriptions)
                (presence_update did info.status status_text)
                (slice_at j h.buffers))
unfolding update_presence update_activity
update_presence_lem now did status status_text pm h = (
  record {
    status = back_online status;
    status_text = status_text;
    last_activity = now;
    idle_since = none;
  },
  get_presence-update_presence now did did status status_text pm h
      ∙ ground (arith, text_beq_iff did did),
  back_online_away status,
  back_online_other status,
  refl,
  refl,
  refl,
  λ j.
      notify_presence_change-buffers did (presence_update did (back_online status) status_text)
        pm.subscriptions h j,
)
