-- ===== src/Registry/Presence.antt =====
-- pkg/registry/agent.go: the status of an agent and its presence. The clock is an argument.
pub mod Status
use msg2agent.Prelude.{ℕ, ◌+◌, Text, Bool, ltb, Option, none, some, []}

pub data AgentStatus : Type 0 where
  online offline busy away dnd : AgentStatus

pub record PresenceInfo : Type 0 where
  pub status : AgentStatus
  pub status_text : Text
  pub last_activity : ℕ
  pub idle_since : Option ℕ

unfoldable pub new_presence_info : ℕ → PresenceInfo
new_presence_info now = record {
  status = online;
  status_text = [];
  last_activity = now;
  idle_since = none;
}

-- `if p.Status == StatusAway { p.Status = StatusOnline }`
abbrev pub back_online : AgentStatus → AgentStatus
back_online away = online
back_online online = online
back_online offline = offline
back_online busy = busy
back_online dnd = dnd

unfoldable pub update_activity : ℕ → PresenceInfo → PresenceInfo
update_activity now p = record p {
  status = back_online p.status;
  last_activity = now;
  idle_since = none;
}

unfoldable pub set_idle : ℕ → PresenceInfo → PresenceInfo
set_idle now p = elim p.status [
  | online ↦ record p { status = away; idle_since = some now }
  | offline ↦ p
  | busy ↦ p
  | away ↦ p
  | dnd ↦ p
]

-- `time.Since(p.LastActivity) > idleTimeout`
abbrev pub is_idle : ℕ → ℕ → PresenceInfo → Bool
is_idle now timeout p = ltb (p.last_activity + timeout) now

-- The fields of `Agent` that its status methods change.
pub record AgentState : Type 0 where
  pub status : AgentStatus
  pub last_seen : ℕ
  pub presence : Option PresenceInfo

-- `if a.Presence != nil { … }`
abbrev pub on_presence : (PresenceInfo → PresenceInfo) → Option PresenceInfo → Option PresenceInfo
on_presence f none = none
on_presence f (some p) = some (f p)

abbrev pub seen_online : ℕ → Option PresenceInfo → PresenceInfo
seen_online now none = new_presence_info now
seen_online now (some p) = update_activity now (record p { status = online })

unfoldable pub set_online : ℕ → AgentState → AgentState
set_online now a = record {
  status = online;
  last_seen = now;
  presence = some (seen_online now a.presence);
}

unfoldable pub set_offline : ℕ → AgentState → AgentState
set_offline now a = record {
  status = offline;
  last_seen = now;
  presence = on_presence (λ p. record p { status = offline }) a.presence;
}

unfoldable pub set_busy : ℕ → AgentState → AgentState
set_busy now a = record {
  status = busy;
  last_seen = now;
  presence = on_presence (λ p. record p { status = busy }) a.presence;
}

unfoldable pub set_away : ℕ → AgentState → AgentState
set_away now a = record {
  status = away;
  last_seen = now;
  presence = on_presence (set_idle now) a.presence;
}

unfoldable pub set_dnd : ℕ → AgentState → AgentState
set_dnd now a = record {
  status = dnd;
  last_seen = now;
  presence = on_presence (λ p. record p { status = dnd }) a.presence;
}

-- `if a.Presence == nil { a.Presence = &PresenceInfo{} }`: the zero value, with the empty status and the
-- zero time, of which `UpdatePresence` overwrites all but `idle_since`.
abbrev pub idle_since_of : Option PresenceInfo → Option ℕ
idle_since_of none = none
idle_since_of (some p) = p.idle_since

unfoldable pub update_agent_presence : ℕ → AgentStatus → Text → AgentState → AgentState
update_agent_presence now status status_text a = record {
  status = status;
  last_seen = now;
  presence = some (record {
    status = status;
    status_text = status_text;
    last_activity = now;
    idle_since = idle_since_of a.presence;
  });
}
