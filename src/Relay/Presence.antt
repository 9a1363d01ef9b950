-- ===== src/Relay/Presence.antt =====
-- cmd/relay/presence.go: the presence of the agents, who watches whom, and who is typing. Each of the three
-- maps has its own mutex, so each method is one step. The nil inner map of a missing key reads as empty.
pub mod Watch
pub mod Notify
pub mod Handlers
pub mod Update
use msg2agent.Prelude.{
  ℕ, ◌+◌, Text, text_eq, nat_eq, Bool, true, false, ltb, is_nil, Option, none, some, [], ◌∷◌,
  if◌then◌else◌,
}
use msg2agent.Prelude.Dict.{Dict, get, put, delete, slice_at}
use msg2agent.Registry.Presence.{AgentStatus, PresenceInfo, new_presence_info, update_activity}
use msg2agent.Relay.Hub.{Frame, presence_update, RelayHub, send}

pub record PresenceManager : Type 0 where
  pub presence : Dict Text PresenceInfo
  pub subscriptions : Dict Text (Dict Text Bool)
  pub typing_state : Dict Text (Dict Text ℕ)

abbrev pub new_presence_manager : PresenceManager
new_presence_manager = record { presence = []; subscriptions = []; typing_state = [] }

unfoldable pub get_presence : Text → PresenceManager → Option PresenceInfo
get_presence did pm = get did pm.presence

unfoldable pub subscribe : Text → Text → PresenceManager → PresenceManager
subscribe subscriber target pm =
    let targets = put target true (slice_at subscriber pm.subscriptions) in
    record pm { subscriptions = put subscriber targets pm.subscriptions }

unfoldable pub unsubscribe : Text → Text → PresenceManager → PresenceManager
unsubscribe subscriber target pm = elim (get subscriber pm.subscriptions) [
  | none ↦ pm
  | some subs ↦ record pm { subscriptions = put subscriber (delete target subs) pm.subscriptions }
]

unfoldable pub unsubscribe_all : Text → PresenceManager → PresenceManager
unsubscribe_all subscriber pm = record pm { subscriptions = delete subscriber pm.subscriptions }

-- `targets[targetDID]`
abbrev pub is_target : Text → Dict Text Bool → Bool
is_target target targets = elim (get target targets) [ none ↦ false | some b ↦ b ]

-- 10 seconds.
abbrev pub typing_timeout : ℕ
typing_timeout = 10000000000

unfoldable pub set_typing : ℕ → Text → Text → Bool → PresenceManager → PresenceManager
set_typing now sender thread true pm =
    let threads = put thread (now + typing_timeout) (slice_at sender pm.typing_state) in
    record pm { typing_state = put sender threads pm.typing_state }
set_typing now sender thread false pm = elim (get sender pm.typing_state) [
  | none ↦ pm
  | some threads ↦ record pm { typing_state = put sender (delete thread threads) pm.typing_state }
]

-- `time.Now().Before(expiry)`
abbrev pub is_before : ℕ → Option ℕ → Bool
is_before now none = false
is_before now (some expiry) = ltb now expiry

unfoldable pub is_typing : ℕ → Text → Text → PresenceManager → Bool
is_typing now sender thread pm = is_before now (get thread (slice_at sender pm.typing_state))

-- The inner loop of `cleanupExpiredTyping`.
unfoldable pub live_threads : ℕ → Dict Text ℕ → Dict Text ℕ
live_threads now [] = []
live_threads now ((thread, expiry) ∷ threads) =
    let rest = live_threads now threads in if ltb expiry now then rest else (thread, expiry) ∷ rest

unfoldable pub live_typing : ℕ → Dict Text (Dict Text ℕ) → Dict Text (Dict Text ℕ)
unfolding live_threads
live_typing now [] = []
live_typing now ((sender, threads) ∷ senders) =
    let left = live_threads now threads in
    let rest = live_typing now senders in if is_nil left then rest else (sender, left) ∷ rest

unfoldable pub cleanup_expired_typing : ℕ → PresenceManager → PresenceManager
unfolding live_typing
cleanup_expired_typing now pm = record pm { typing_state = live_typing now pm.typing_state }

-- `sendPresenceNotification`
unfoldable pub send_presence_notification : Text → Frame → RelayHub → RelayHub
send_presence_notification subscriber f h = elim (get subscriber h.clients) [
  | none ↦ h
  | some k ↦ (send k f h).0
]

-- The loop of `notifyPresenceChange`.
unfoldable pub notify_presence_change :
    Text → Frame → Dict Text (Dict Text Bool) → RelayHub → RelayHub
unfolding send_presence_notification
notify_presence_change target f [] h = h
notify_presence_change target f ((subscriber, targets) ∷ rest) h =
    notify_presence_change target f rest
      (if is_target target targets then send_presence_notification subscriber f h else h)

abbrev pub info_of : ℕ → Option PresenceInfo → PresenceInfo
info_of now none = new_presence_info now
info_of now (some info) = info

unfoldable pub update_presence :
    ℕ → Text → AgentStatus → Text → PresenceManager → RelayHub → PresenceManager × RelayHub
unfolding notify_presence_change
update_presence now did status status_text pm h =
    let info =
      update_activity now (record (info_of now (get did pm.presence)) {
        status = status;
        status_text = status_text;
      }) in
    (
      record pm { presence = put did info pm.presence },
      notify_presence_change did (presence_update did info.status info.status_text) pm.subscriptions
          h,
    )
