-- ===== src/Registry/AgentStore.antt =====
-- pkg/registry/store.go: the in-memory registry of agents, with its index by DID. `Put` returns no error,
-- so it is a function to the new store. A stored agent is a value; the code stores the pointer.
pub mod Index
pub mod File
pub mod Reload
mod Tests
use msg2agent.Prelude.{
  ℕ, nat_eq, Text, text_eq, ◌==◌, Option, none, some, List, [], ◌∷◌, map, keep, length, is_nil,
  if◌then◌else◌, Result, ok, err,
}
use msg2agent.Prelude.Dict.{Dict, get, put, delete}
use msg2agent.Registry.Agent.{Agent, has_capability}

pub data AgentError : Type 0 where
  agent_not_found agent_already_exists : AgentError

pub record MemoryAgentStore : Type 0 where
  pub agents : Dict ℕ Agent
  pub by_did : Dict Text ℕ

unfoldable pub new_memory_agent_store : MemoryAgentStore
new_memory_agent_store = record { agents = []; by_did = [] }

unfoldable pub get_agent : ℕ → MemoryAgentStore → Result AgentError Agent
get_agent id s = elim (get id s.agents) [ none ↦ err agent_not_found | some a ↦ ok a ]

-- The index leads to an entry of `agents`, or to none: then the agent is nil and the error is nil.
unfoldable pub get_by_did : Text → MemoryAgentStore → Result AgentError (Option Agent)
get_by_did did s = elim (get did s.by_did) [
  | none ↦ err agent_not_found
  | some id ↦ ok (get id s.agents)
]

unfoldable pub put_agent : Agent → MemoryAgentStore → MemoryAgentStore
put_agent a s = record {
  agents = put a.id a s.agents;
  by_did = if is_nil a.did then s.by_did else put a.did a.id s.by_did;
}

unfoldable pub delete_agent : ℕ → MemoryAgentStore → MemoryAgentStore × Option AgentError
delete_agent id s = elim (get id s.agents) [
  | none ↦ (s, some agent_not_found)
  | some a ↦ (
    record {
      agents = delete id s.agents;
      by_did = if is_nil a.did then s.by_did else delete a.did s.by_did;
    },
    none,
  )
]

unfoldable pub list_agents : MemoryAgentStore → List Agent
list_agents s = map (λ e. e.1) s.agents

unfoldable pub search_agents : Text → MemoryAgentStore → List Agent
search_agents capability s = keep (λ a. has_capability capability a) (map (λ e. e.1) s.agents)

unfoldable pub count_by_tenant : Text → MemoryAgentStore → ℕ
count_by_tenant tenant_id s =
    if is_nil tenant_id
    then length s.agents
    else length (keep (λ a. a.tenant_id == tenant_id) (map (λ e. e.1) s.agents))
