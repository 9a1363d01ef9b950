-- ===== src/Registry/AgentStore/Index.antt =====
-- The DID index of the registry agrees with the agents.
use msg2agent.Prelude.{
  ℕ, nat_eq, nat_beq_iff, Text, text_eq, text_beq_iff, ◌==◌, ◌≡◌, refl, ap, subst, sym, ◌∙◌, inl,
  inr, false, is_nil, [], ◌∷◌, Bool-cases, Option-cases, none, some, ok, err, ◌⊎◌, ◌≢◌, arith,
  if◌then◌else◌,
}
use msg2agent.Prelude.Dict.{get, get-put, get-delete, IsUnique, put-IsUnique, delete-IsUnique}
use msg2agent.Registry.Agent.{Agent}
use msg2agent.Registry.AgentStore.{
  agent_not_found, MemoryAgentStore, new_memory_agent_store, get_agent, get_by_did, put_agent,
  delete_agent,
}

-- Every indexed DID leads to the agent of that DID, and every agent with a DID is found under it.
pub record IsIndexed (s : MemoryAgentStore) : Type 0 where
  pub named :
      (did : Text) (id : ℕ)
      → get did s.by_did ≡ some id
      → (is_nil did ≡ false) × (a : Agent) × (get id s.agents ≡ some a) × (a.did ≡ did)
  pub stored :
      (id : ℕ) (a : Agent)
      → get id s.agents ≡ some a
      → (a.id ≡ id) × (is_nil a.did ≡ false → get a.did s.by_did ≡ some id)

-- The DID of the agent leads to no other agent, and the agent's id holds no agent of another DID.
abbrev pub CanPut : Agent → MemoryAgentStore → Type 0
CanPut a s =
    ((id : ℕ) → get a.did s.by_did ≡ some id → id ≡ a.id)
    × ((old : Agent) → get a.id s.agents ≡ some old → old.did ≡ a.did)

-- What the index says after `put_agent`.
pub index-put_agent :
    (a : Agent) (s : MemoryAgentStore) (did : Text)
    → is_nil did ≡ false
    → get did (put_agent a s).by_did ≡ (if a.did == did then some a.id else get did s.by_did)
unfolding put_agent
index-put_agent a s did h = elim (Bool-cases (is_nil a.did)) [
  | inl y ↦ ground (arith, text_beq_iff a.did did)
  | inr n ↦ ground (arith, get-put a.did did a.id s.by_did)
]

pub index-put_agent_nil :
    (a : Agent) (s : MemoryAgentStore) → get [] (put_agent a s).by_did ≡ get [] s.by_did
unfolding put_agent
index-put_agent_nil a s = elim (Bool-cases (is_nil a.did)) [
  | inl y ↦ ground arith
  | inr n ↦ ground (arith, get-put a.did [] a.id s.by_did, text_beq_iff a.did [])
]

pub agents-put_agent :
    (a : Agent) (s : MemoryAgentStore) (id : ℕ)
    → get id (put_agent a s).agents ≡ (if a.id == id then some a else get id s.agents)
unfolding put_agent
agents-put_agent a s id = get-put a.id id a s.agents

module _ (a : Agent) (s : MemoryAgentStore) (v : IsIndexed s) (can : CanPut a s) where
  put_agent-named :
      (did : Text) (id : ℕ)
      → get did (put_agent a s).by_did ≡ some id
      → (is_nil did ≡ false)
        × (b : Agent) × (get id (put_agent a s).agents ≡ some b)
        × (b.did ≡ did)
  put_agent-named [] id h =
      let q = v.named [] id (sym (index-put_agent_nil a s) ∙ h) in absurd (cc (q.0))
  put_agent-named (c ∷ cs) id h = elim (Bool-cases (a.did == (c ∷ cs))) [
    | inl y ↦
        (let e : a.id ≡ id = ground (arith, index-put_agent a s (c ∷ cs) refl) in
          (
            refl,
            a,
            ground (arith, agents-put_agent a s id, nat_beq_iff a.id id),
            (text_beq_iff a.did (c ∷ cs)).0 y,
          ))
    | inr n ↦
        (let (ne, b, at_, same) =
            v.named (c ∷ cs) id (ground (arith, index-put_agent a s (c ∷ cs) refl)) in
          elim (Bool-cases (a.id == id)) [
            | inl y ↦
                (let i : a.id ≡ id = (nat_beq_iff a.id id).0 y in
                  let d : b.did ≡ a.did = can.1 b (cc (at_, i)) in
                  (refl, a, ground (arith, agents-put_agent a s id), sym d ∙ same))
            | inr z ↦ (refl, b, ground (arith, agents-put_agent a s id), same)
          ])
  ]

  put_agent-stored :
      (id : ℕ) (b : Agent)
      → get id (put_agent a s).agents ≡ some b
      → (b.id ≡ id) × (is_nil b.did ≡ false → get b.did (put_agent a s).by_did ≡ some id)
  put_agent-stored id b h = elim (Bool-cases (a.id == id)) [
    | inl y ↦
        (let e : a ≡ b = ground (arith, agents-put_agent a s id) in
          let i : a.id ≡ id = (nat_beq_iff a.id id).0 y in
          subst
            (λ x. (x.id ≡ id) × (is_nil x.did ≡ false → get x.did (put_agent a s).by_did ≡ some id))
            e (i, λ ne. ground (arith, index-put_agent a s a.did ne, text_beq_iff a.did a.did)))
    | inr z ↦
        (let (i, f) = v.stored id b (ground (arith, agents-put_agent a s id)) in
          (
            i,
            λ ne.
                (let n = f ne in
                  ground (
                    arith,
                    index-put_agent a s b.did ne,
                    text_beq_iff a.did b.did,
                    nat_beq_iff a.id id,
                    (λ (q : a.did ≡ b.did). can.0 id (ap (λ t. get t s.by_did) q ∙ n)),
                  )),
          ))
  ]

  pub put_agent-IsIndexed : IsIndexed (put_agent a s)
  put_agent-IsIndexed = record { named = put_agent-named; stored = put_agent-stored }

agents-delete_agent :
    (id j : ℕ) (s : MemoryAgentStore)
    → get j (delete_agent id s).0.agents ≡ (if id == j then none else get j s.agents)
unfolding delete_agent
agents-delete_agent id j s = elim (Option-cases (get id s.agents)) [
  | inl e ↦ rw (e, delete_agent) (ground (arith, nat_beq_iff id j))
  | inr (a, e) ↦ rw (e, delete_agent) (get-delete id j s.agents)
]

index-delete_agent :
    (id : ℕ) (a : Agent) (s : MemoryAgentStore) (did : Text)
    → get id s.agents ≡ some a
    → is_nil did ≡ false
    → get did (delete_agent id s).0.by_did ≡ (if a.did == did then none else get did s.by_did)
unfolding delete_agent
index-delete_agent id a s did e h = elim (Bool-cases (is_nil a.did)) [
  | inl y ↦ rw (e, delete_agent) (ground (arith, text_beq_iff a.did did))
  | inr n ↦ rw (e, delete_agent) (rw n (get-delete a.did did s.by_did))
]

index-delete_agent_nil :
    (id : ℕ) (a : Agent) (s : MemoryAgentStore) {j : ℕ}
    → get id s.agents ≡ some a
    → get [] (delete_agent id s).0.by_did ≡ some j
    → get [] s.by_did ≡ some j
unfolding delete_agent
index-delete_agent_nil id a s e = elim (Bool-cases (is_nil a.did)) [
  | inl y ↦ rw (e, delete_agent) (rw y (λ h. h))
  | inr n ↦ rw (e, delete_agent) (rw n (λ h. ground (arith, get-delete a.did [] s.by_did)))
]

module _ (id : ℕ) (a : Agent) (s : MemoryAgentStore) (v : IsIndexed s)
    (there : get id s.agents ≡ some a) where
  delete_agent-named :
      (did : Text) (j : ℕ)
      → get did (delete_agent id s).0.by_did ≡ some j
      → (is_nil did ≡ false)
        × (b : Agent) × (get j (delete_agent id s).0.agents ≡ some b)
        × (b.did ≡ did)
  delete_agent-named [] j h =
      let q = v.named [] j (index-delete_agent_nil id a s there h) in absurd (cc (q.0))
  delete_agent-named (c ∷ cs) j h =
      let (ne, b, at_, same) =
        v.named (c ∷ cs) j (ground (arith, index-delete_agent id a s (c ∷ cs) there refl)) in
      (
        refl,
        b,
        ground (
          arith,
          agents-delete_agent id j s,
          index-delete_agent id a s (c ∷ cs) there refl,
          text_beq_iff a.did (c ∷ cs),
          nat_beq_iff id j,
          there,
          at_,
          same,
        ),
        same,
      )

  delete_agent-stored :
      (j : ℕ) (b : Agent)
      → get j (delete_agent id s).0.agents ≡ some b
      → (b.id ≡ j) × (is_nil b.did ≡ false → get b.did (delete_agent id s).0.by_did ≡ some j)
  delete_agent-stored j b h =
      let (i, f) = v.stored j b (ground (arith, agents-delete_agent id j s)) in
      (
        i,
        λ ne.
            let n = f ne in
            ground (
              arith,
              index-delete_agent id a s b.did there ne,
              agents-delete_agent id j s,
              text_beq_iff a.did b.did,
              nat_beq_iff id j,
              v.stored id a there,
            ),
      )

  pub delete_agent-IsIndexed : IsIndexed (delete_agent id s).0
  delete_agent-IsIndexed = record { named = delete_agent-named; stored = delete_agent-stored }

pub put_agent-IsUnique :
    (a : Agent) (s : MemoryAgentStore) → IsUnique s.agents → IsUnique (put_agent a s).agents
unfolding put_agent
put_agent-IsUnique a s u = put-IsUnique a.id a s.agents u

pub delete_agent-IsUnique :
    (id : ℕ) (s : MemoryAgentStore) → IsUnique s.agents → IsUnique (delete_agent id s).0.agents
unfolding delete_agent
delete_agent-IsUnique id s u = elim (Option-cases (get id s.agents)) [
  | inl e ↦ rw (e, delete_agent) u
  | inr (a, e) ↦ rw (e, delete_agent) (delete-IsUnique id s.agents u)
]

pub new_memory_agent_store-IsIndexed : IsIndexed new_memory_agent_store
unfolding new_memory_agent_store get
new_memory_agent_store-IsIndexed = record {
  named = λ n id h. absurd (cc h);
  stored = λ id c h. absurd (cc h);
}

get_agent-stored :
    (id : ℕ) (s : MemoryAgentStore) {a : Agent} → get_agent id s ≡ ok a → get id s.agents ≡ some a
unfolding get_agent
get_agent-stored id s h = ground arith

-- When the index is right, a lookup by DID finds the agent of that DID, under the id that it has, or
-- answers that there is none and no agent of the registry has the DID; it never answers with neither an
-- agent nor an error.
pub get_by_did_lem :
    (did : Text) (s : MemoryAgentStore)
    → IsIndexed s
    → is_nil did ≡ false
    → ((a : Agent) × (get_by_did did s ≡ ok (some a)) × (a.did ≡ did) × (get_agent a.id s ≡ ok a))
      ⊎ ((get_by_did did s ≡ err agent_not_found)
          × ((id : ℕ) (a : Agent) → get_agent id s ≡ ok a → a.did ≢ did))
unfolding get_by_did get_agent
get_by_did_lem did s v ne = elim (Option-cases (get did s.by_did)) [
  | inl e ↦ inr (
    rw (e, get_by_did),
    λ id a h q.
        let k =
          (v.stored id a (get_agent-stored id s h)).1 (subst (λ d. is_nil d ≡ false) (sym q) ne) in
        absurd (cc (k, q, e)),
  )
  | inr (id, e) ↦
      (let (_, a, at_, same) = v.named did id e in
        let (i, _) = v.stored id a at_ in
        inl (a, rw (e, get_by_did) (ap (λ o. ok o) at_), same, ground (arith, at_, i)))
]

-- Storing an agent whose DID leads to no other agent, under a new id or in place of an agent of the same
-- DID, keeps the index right; the agent is then found by its id and by its DID, and the lookups of every
-- other id and of every other DID under the index answer as before.
pub put_agent_lem :
    (a : Agent) (s : MemoryAgentStore)
    → IsIndexed s
    → CanPut a s
    → let t = put_agent a s in
      IsIndexed t
      × (get_agent a.id t ≡ ok a)
      × (is_nil a.did ≡ false → get_by_did a.did t ≡ ok (some a))
      × ((id : ℕ) → a.id ≢ id → get_agent id t ≡ get_agent id s)
unfolding get_by_did get_agent
put_agent_lem a s v can = (
  put_agent-IsIndexed a s v can,
  ground (arith, agents-put_agent a s a.id, nat_beq_iff a.id a.id),
  λ ne. ground (
    arith,
    index-put_agent a s a.did ne,
    text_beq_iff a.did a.did,
    agents-put_agent a s a.id,
    nat_beq_iff a.id a.id,
  ),
  λ id ne. ground (arith, agents-put_agent a s id, nat_beq_iff a.id id),
)

-- Deleting a stored agent keeps the index right; neither its id nor its DID finds it again, and the
-- lookup of every other id answers as before.
pub delete_agent_lem :
    (id : ℕ) (a : Agent) (s : MemoryAgentStore)
    → IsIndexed s
    → get_agent id s ≡ ok a
    → let t = (delete_agent id s).0 in
      IsIndexed t
      × (get_agent id t ≡ err agent_not_found)
      × (is_nil a.did ≡ false → get_by_did a.did t ≡ err agent_not_found)
      × ((j : ℕ) → id ≢ j → get_agent j t ≡ get_agent j s)
unfolding get_by_did get_agent
delete_agent_lem id a s v h =
    let there = get_agent-stored id s h in
    (
      delete_agent-IsIndexed id a s v there,
      ground (arith, agents-delete_agent id id s, nat_beq_iff id id),
      λ ne. ground (arith, index-delete_agent id a s a.did there ne, text_beq_iff a.did a.did),
      λ j ne. ground (arith, agents-delete_agent id j s, nat_beq_iff id j),
    )

-- An agent that is stored again under another DID stays in the index under the first: once it is
-- deleted, the lookup of the first DID answers with neither an agent nor an error.
pub get_by_did-stale :
    (a b : Agent) (s : MemoryAgentStore)
    → b.id ≡ a.id
    → is_nil a.did ≡ false
    → b.did ≢ a.did
    → get_by_did a.did (delete_agent a.id (put_agent b (put_agent a s))).0 ≡ ok none
unfolding get_by_did
get_by_did-stale a b s same ne other =
    let t = put_agent b (put_agent a s) in
    let there : get a.id t.agents ≡ some b =
      ground (arith, agents-put_agent b (put_agent a s) a.id, nat_beq_iff b.id a.id) in
    ground (
      arith,
      index-delete_agent a.id b t a.did there ne,
      index-put_agent b (put_agent a s) a.did ne,
      index-put_agent a s a.did ne,
      text_beq_iff a.did a.did,
      text_beq_iff b.did a.did,
      agents-delete_agent a.id a.id t,
      nat_beq_iff a.id a.id,
    )
