-- ===== src/Registry/AgentStore/Tests.antt =====
-- Concrete runs of the registry and of its file, which here holds the agents themselves.
use msg2agent.Prelude.{
  ℕ, nat_eq, text, text_eq, ◌≡◌, ◌≢◌, ◌⊎◌, refl, false, is_nil, none, some, ok, err,
}
use msg2agent.Prelude.Dict.{get, put, IsUnique}
use msg2agent.Registry.Agent.{Agent, new_agent}
use msg2agent.Registry.AgentStore.{
  agent_not_found, MemoryAgentStore, new_memory_agent_store, get_agent, get_by_did, put_agent,
  delete_agent,
}
use msg2agent.Registry.AgentStore.Index.{
  IsIndexed, CanPut, new_memory_agent_store-IsIndexed, put_agent-IsIndexed, put_agent-IsUnique,
  get_by_did_lem, put_agent_lem, get_by_did-stale,
}

abbrev alice : Agent
unfolding new_agent
alice = new_agent 7 1 (text "did:alice") (text "Alice")

abbrev alice_moved : Agent
unfolding new_agent
alice_moved = new_agent 7 2 (text "did:alice2") (text "Alice")

abbrev bob : Agent
unfolding new_agent
bob = new_agent 8 3 (text "did:bob") (text "Bob")

abbrev with_alice : MemoryAgentStore
with_alice = put_agent alice new_memory_agent_store

new-CanPut : CanPut alice new_memory_agent_store
unfolding new_memory_agent_store get
new-CanPut = (λ id h. absurd (cc h), λ old h. absurd (cc h))

with_alice-IsIndexed : IsIndexed with_alice
with_alice-IsIndexed =
    put_agent-IsIndexed alice new_memory_agent_store new_memory_agent_store-IsIndexed new-CanPut

with_alice-IsUnique : IsUnique with_alice.agents
unfolding new_memory_agent_store
with_alice-IsUnique = put_agent-IsUnique alice new_memory_agent_store tt

bob-CanPut : CanPut bob with_alice
unfolding put_agent new_memory_agent_store get put alice bob
bob-CanPut = (λ id h. absurd (cc h), λ old h. absurd (cc h))

alice-stored : get_agent 7 with_alice ≡ ok alice
unfolding get_agent put_agent new_memory_agent_store get put alice
alice-stored = refl

get_by_did_lem_example :
    ((a : Agent) × (get_by_did (text "did:alice") with_alice ≡ ok (some a))
      × (a.did ≡ text "did:alice")
      × (get_agent a.id with_alice ≡ ok a))
    ⊎ ((get_by_did (text "did:alice") with_alice ≡ err agent_not_found)
        × ((id : ℕ) (a : Agent) → get_agent id with_alice ≡ ok a → a.did ≢ text "did:alice"))
get_by_did_lem_example = get_by_did_lem (text "did:alice") with_alice with_alice-IsIndexed refl

put_agent_lem_example :
    let t = put_agent bob with_alice in
    IsIndexed t
    × (get_agent bob.id t ≡ ok bob)
    × (is_nil bob.did ≡ false → get_by_did bob.did t ≡ ok (some bob))
    × ((id : ℕ) → bob.id ≢ id → get_agent id t ≡ get_agent id with_alice)
put_agent_lem_example = put_agent_lem bob with_alice with_alice-IsIndexed bob-CanPut

get_by_did-stale_example :
    get_by_did
      (text "did:alice")
      (delete_agent 7 (put_agent alice_moved (put_agent alice new_memory_agent_store))).0
    ≡ ok none
unfolding alice alice_moved
get_by_did-stale_example =
    get_by_did-stale alice alice_moved new_memory_agent_store refl refl (λ e. cc)
