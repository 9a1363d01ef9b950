-- ===== src/Registry/Presence/Status.antt =====
-- The status methods of an agent (pkg/registry/agent.go): whether the presence follows the status.
use msg2agent.Prelude.{ℕ, ◌≡◌, refl, ap, ◌⊎◌, inl, inr, Option, none, some}
use msg2agent.Registry.Presence.{
  AgentStatus, online, offline, busy, away, dnd, PresenceInfo, new_presence_info, update_activity,
  set_idle, AgentState, set_online, set_offline, set_busy, set_away, set_dnd,
}

abbrev pub AgreesWith : AgentStatus → Option PresenceInfo → Type 0
AgreesWith s none = Unit
AgreesWith s (some p) = p.status ≡ s

-- The presence, where there is one, shows the agent's status.
abbrev pub Agrees : AgentState → Type 0
Agrees a = AgreesWith a.status a.presence

-- `SetOnline`, `SetOffline`, `SetBusy` and `SetDND` make the presence show the agent's status, whatever
-- they were before.
pub status_lem :
    (now : ℕ) (a : AgentState)
    → Agrees (set_online now a)
      × Agrees (set_offline now a)
      × Agrees (set_busy now a)
      × Agrees (set_dnd now a)
unfolding set_online set_offline set_busy set_dnd update_activity new_presence_info
status_lem now a = go a.presence
  where
    go :
        (o : Option PresenceInfo)
        → Agrees (set_online now (record a { presence = o }))
          × Agrees (set_offline now (record a { presence = o }))
          × Agrees (set_busy now (record a { presence = o }))
          × Agrees (set_dnd now (record a { presence = o }))
    go none = (refl, tt, tt, tt)
    go (some p) = (refl, refl, refl, refl)

set_idle-keeps_in :
    (now : ℕ) (s : AgentStatus) (p : PresenceInfo)
    → (s ≡ online) ⊎ (set_idle now (record p { status = s }) ≡ record p { status = s })
unfolding set_idle
set_idle-keeps_in now online p = inl refl
set_idle-keeps_in now offline p = inr refl
set_idle-keeps_in now busy p = inr refl
set_idle-keeps_in now away p = inr refl
set_idle-keeps_in now dnd p = inr refl

-- `SetAway` makes the agent away, but a presence that shows another status than online stays as it is.
pub set_away-presence :
    (now : ℕ) (a : AgentState) (p : PresenceInfo)
    → a.presence ≡ some p
    → ((set_away now a).status ≡ away)
      × ((p.status ≡ online) ⊎ ((set_away now a).presence ≡ some p))
unfolding set_away
set_away-presence now a p e = (
  refl,
  (elim (set_idle-keeps_in now p.status p) [ inl y ↦ inl y | inr n ↦ inr (rw e (ap some n)) ]),
)
