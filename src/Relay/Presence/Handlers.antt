-- ===== src/Relay/Presence/Handlers.antt =====
-- The request handlers of cmd/relay/presence.go. The parsing of the parameters is not modelled: a handler
-- takes its result, which is `none` where they do not parse. The presence manager may be nil.
use msg2agent.Prelude.{
  ℕ, Text, text, text_eq, ◌==◌, ◌≡◌, Bool, false, ◌&&◌, ◌||◌, is_nil, Option, none, some, List, [],
  ◌∷◌, Result, ok, err, if◌then◌else◌, arith,
}
use msg2agent.Prelude.Dict.{Dict, put}
use msg2agent.Registry.Presence.{AgentStatus, online, offline, busy, away, dnd, PresenceInfo}
use msg2agent.Relay.Hub.{RelayHub}
use msg2agent.Relay.Presence.{
  PresenceManager, get_presence, subscribe, unsubscribe, update_presence,
}
use msg2agent.Relay.Presence.Watch.{watches, watches_lem}

pub data HandlerError : Type 0 where
  sender_not_registered invalid_params invalid_status : HandlerError

unfoldable pub status_of : Text → Option AgentStatus
status_of s =
    if s == text "online"
    then some online
    else if s == text "offline"
    then some offline
    else if s == text "busy"
    then some busy
    else if s == text "away"
    then some away
    else if s == text "dnd"
    then some dnd
    else none

abbrev pub update_if :
    ℕ
    → Text
    → AgentStatus
    → Text
    → Option PresenceManager
    → RelayHub
    → Option PresenceManager × RelayHub
update_if now did status status_text none h = (none, h)
update_if now did status status_text (some pm) h =
    let (pm', h') = update_presence now did status status_text pm h in (some pm', h')

unfoldable pub handle_presence_update :
    ℕ
    → Text
    → Option (Text × Text)
    → Option PresenceManager
    → RelayHub
    → (Option PresenceManager × RelayHub) × Option HandlerError
unfolding status_of
handle_presence_update now did none pm h =
    if is_nil did then ((pm, h), some sender_not_registered) else ((pm, h), some invalid_params)
handle_presence_update now did (some (status_, status_text)) pm h =
    if is_nil did then ((pm, h), some sender_not_registered) else elim (status_of status_) [
      | none ↦ ((pm, h), some invalid_status)
      | some status ↦ (update_if now did status status_text pm h, none)
    ]

-- The loop over the DIDs of a request.
unfoldable pub subscribe_each : Text → List Text → PresenceManager → PresenceManager
subscribe_each did [] pm = pm
subscribe_each did (target ∷ targets) pm = subscribe_each did targets (subscribe did target pm)

unfoldable pub unsubscribe_each : Text → List Text → PresenceManager → PresenceManager
unsubscribe_each did [] pm = pm
unsubscribe_each did (target ∷ targets) pm =
    unsubscribe_each did targets (unsubscribe did target pm)

abbrev pub on_manager :
    (PresenceManager → PresenceManager) → Option PresenceManager → Option PresenceManager
on_manager f none = none
on_manager f (some pm) = some (f pm)

unfoldable pub handle_presence_subscribe :
    Text
    → Option (List Text)
    → Option PresenceManager
    → Option PresenceManager × Option HandlerError
unfolding subscribe_each
handle_presence_subscribe did none pm =
    if is_nil did then (pm, some sender_not_registered) else (pm, some invalid_params)
handle_presence_subscribe did (some dids) pm =
    if is_nil did
    then (pm, some sender_not_registered)
    else (on_manager (subscribe_each did dids) pm, none)

unfoldable pub handle_presence_unsubscribe :
    Text
    → Option (List Text)
    → Option PresenceManager
    → Option PresenceManager × Option HandlerError
unfolding unsubscribe_each
handle_presence_unsubscribe did none pm =
    if is_nil did then (pm, some sender_not_registered) else (pm, some invalid_params)
handle_presence_unsubscribe did (some dids) pm =
    if is_nil did
    then (pm, some sender_not_registered)
    else (on_manager (unsubscribe_each did dids) pm, none)

-- `results[targetDID] = &PresenceNotification{…}`, where there is a presence.
abbrev pub add_result :
    Text → Option PresenceInfo → Dict Text (AgentStatus × Text) → Dict Text (AgentStatus × Text)
add_result did none results = results
add_result did (some info) results = put did (info.status, info.status_text) results

unfoldable pub query_each :
    PresenceManager → List Text → Dict Text (AgentStatus × Text) → Dict Text (AgentStatus × Text)
query_each pm [] results = results
query_each pm (did ∷ dids) results =
    query_each pm dids (add_result did (get_presence did pm) results)

abbrev pub query_if : Option PresenceManager → List Text → Dict Text (AgentStatus × Text)
query_if none dids = []
query_if (some pm) dids = query_each pm dids []

unfoldable pub handle_presence_query :
    Text
    → Option (List Text)
    → Option PresenceManager
    → Result HandlerError (Dict Text (AgentStatus × Text))
unfolding query_each
handle_presence_query did none pm =
    if is_nil did then err sender_not_registered else err invalid_params
handle_presence_query did (some dids) pm =
    if is_nil did then err sender_not_registered else ok (query_if pm dids)

-- Whether a DID is in the list.
abbrev pub is_in : Text → List Text → Bool
is_in j [] = false
is_in j (d ∷ ds) = d == j || is_in j ds

-- After a request to watch some DIDs, the sender watches those and the ones it watched before, and nobody
-- else watches more or less.
pub watches-subscribe_each :
    (did i j : Text) (dids : List Text) (pm : PresenceManager)
    → watches i j (subscribe_each did dids pm) ≡ (did == i && is_in j dids || watches i j pm)
unfolding subscribe_each
watches-subscribe_each did i j [] pm = ground arith
watches-subscribe_each did i j (d ∷ dids) pm =
    ground (
      arith,
      watches-subscribe_each did i j dids (subscribe did d pm),
      (watches_lem did d i j pm).0,
    )
