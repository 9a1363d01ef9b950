-- ===== src/Registry/AgentStore/Reload.antt =====
-- What a registry that is loaded from its own file answers.
use msg2agent.Prelude.{
  All, ℕ, nat_eq, nat_beq_iff, Text, text_eq, text_beq_iff, ◌==◌, ◌≡◌, refl, ◌⊎◌, ap, sym, subst,
  ◌∙◌, inl, inr, Bool, Bool-cases, true, false, is_nil, Option, none, some, Option-cases, List, [],
  ◌∷◌, map, ok, arith,
}
use msg2agent.Prelude.Dict.{Dict, get, IsUnique, AllEntries, AllEntries-mono, AllEntries-get_self}
use msg2agent.Registry.Agent.{Agent}
use msg2agent.Registry.AgentStore.{
  MemoryAgentStore, new_memory_agent_store, get_agent, get_by_did, put_agent, delete_agent,
  list_agents, agent_not_found,
}
use msg2agent.Registry.AgentStore.Index.{
  IsIndexed, CanPut, put_agent-IsIndexed, put_agent-IsUnique, delete_agent-IsIndexed,
  delete_agent-IsUnique, agents-put_agent, index-put_agent, index-put_agent_nil,
}
use msg2agent.Registry.AgentStore.File.{
  load_agents, load, store_error, new_file_store, FileStore, save, put_in_file, delete_in_file,
}

abbrev values : Dict ℕ Agent → List Agent
values m = map (λ e. e.1) m

-- The agents of a registry are under their own ids.
abbrev HasOwnIds : Dict ℕ Agent → Type 0
HasOwnIds m = AllEntries (λ k a. a.id ≡ k) m

-- Every agent of the entries has its DID in the index `idx` of the store that was saved.
abbrev AreFiled : Dict Text ℕ → Dict ℕ Agent → Type 0
AreFiled idx m = AllEntries (λ k a. is_nil a.did ≡ false → get a.did idx ≡ some a.id) m

agents-load_agents :
    (id : ℕ) (m : Dict ℕ Agent) (s : MemoryAgentStore)
    → IsUnique m
    → HasOwnIds m
    → get id (load_agents (values m) s).agents
      ≡ elim (get id m) [ none ↦ get id s.agents | some a ↦ some a ]
unfolding load_agents get
agents-load_agents id [] s u h = refl
agents-load_agents id ((k, a) ∷ m) s u h = ground (
  arith,
  agents-load_agents id m (put_agent a s) u.1 h.1,
  agents-put_agent a s id,
  nat_beq_iff a.id id,
  nat_beq_iff k id,
)

-- A DID that the index of the new store has right stays right.
index-load_agents-keeps :
    (did : Text) (idx : Dict Text ℕ) (m : Dict ℕ Agent) (s : MemoryAgentStore)
    → is_nil did ≡ false
    → AreFiled idx m
    → get did s.by_did ≡ get did idx
    → get did (load_agents (values m) s).by_did ≡ get did idx
unfolding load_agents
index-load_agents-keeps did idx [] s ne h e = e
index-load_agents-keeps did idx ((k, a) ∷ m) s ne h e =
    index-load_agents-keeps did idx m (put_agent a s) ne h.1 (
      index-put_agent a s did ne ∙ (elim (Bool-cases (a.did == did)) [
        | inl y ↦
            (let q : a.did ≡ did = (text_beq_iff a.did did).0 y in
              rw y (sym (h.0 (subst (λ d. is_nil d ≡ false) (sym q) ne)) ∙ ap (λ d. get d idx) q))
        | inr n ↦ rw n e
      ]))

-- The DID of an agent among the entries gets right.
index-load_agents-finds :
    (id : ℕ) (a : Agent) (idx : Dict Text ℕ) (m : Dict ℕ Agent) (s : MemoryAgentStore)
    → is_nil a.did ≡ false
    → AreFiled idx m
    → get id m ≡ some a
    → get a.did (load_agents (values m) s).by_did ≡ get a.did idx
unfolding load_agents get
index-load_agents-finds id a idx [] s ne h e = cc
index-load_agents-finds id a idx ((k, b) ∷ m) s ne h e = elim (Bool-cases (k == id)) [
  | inl y ↦
      (let q : b ≡ a = ground arith in
        index-load_agents-keeps a.did idx m (put_agent b s) ne h.1 (
          ground (
            arith,
            index-put_agent b s a.did ne,
            text_beq_iff b.did a.did,
            subst (λ x. is_nil x.did ≡ false → get x.did idx ≡ some x.id) q h.0 ne,
            ap (λ x. x.id) q,
            ap (λ x. x.did) q,
          )))
  | inr n ↦ index-load_agents-finds id a idx m (put_agent b s) ne h.1 (ground arith)
]

index-load_agents_nil :
    (agents : List Agent) (s : MemoryAgentStore)
    → get [] (load_agents agents s).by_did ≡ get [] s.by_did
unfolding load_agents
index-load_agents_nil [] s = refl
index-load_agents_nil (a ∷ agents) s =
    index-load_agents_nil agents (put_agent a s) ∙ index-put_agent_nil a s

-- Two registries give every lookup the same answer.
abbrev pub AnswersAlike : MemoryAgentStore → MemoryAgentStore → Type 0
AnswersAlike s t =
    ((id : ℕ) → get_agent id t ≡ get_agent id s)
    × ((did : Text) → get_by_did did t ≡ get_by_did did s)

module _ (s : MemoryAgentStore) (v : IsIndexed s) (u : IsUnique s.agents) where
  own : AllEntries (λ k a. get k s.agents ≡ some a) s.agents
  own = AllEntries-get_self s.agents u

  abbrev reloaded : MemoryAgentStore
  reloaded = load_agents (list_agents s) new_memory_agent_store

  agents-reloaded : (id : ℕ) → get id reloaded.agents ≡ get id s.agents
  unfolding list_agents new_memory_agent_store get
  agents-reloaded id =
      agents-load_agents id s.agents new_memory_agent_store u (
        AllEntries-mono (λ k a. get k s.agents ≡ some a) (λ k a. a.id ≡ k) s.agents
          (λ k a h. (v.stored k a h).0) own)
      ∙ elim (Option-cases (get id s.agents)) [ inl e ↦ rw e refl | inr (a, e) ↦ rw e refl ]

  filed : AreFiled s.by_did s.agents
  filed =
      AllEntries-mono (λ k a. get k s.agents ≡ some a)
        (λ k a. is_nil a.did ≡ false → get a.did s.by_did ≡ some a.id) s.agents
        (λ k a h ne. (v.stored k a h).1 ne ∙ ap some (sym ((v.stored k a h).0))) own

  index-reloaded : (did : Text) → get did reloaded.by_did ≡ get did s.by_did
  unfolding list_agents new_memory_agent_store get
  index-reloaded [] =
      index-load_agents_nil (values s.agents) new_memory_agent_store
      ∙ elim (Option-cases (get [] s.by_did)) [
        | inl e ↦ sym e
        | inr (id, e) ↦ (let q = v.named [] id e in absurd (cc (q.0)))
      ]
  index-reloaded (c ∷ cs) = elim (Option-cases (get (c ∷ cs) s.by_did)) [
    | inl e ↦
        index-load_agents-keeps (c ∷ cs) s.by_did s.agents new_memory_agent_store refl filed (sym e)
    | inr (id, e) ↦
        (let (ne, a, at_, same) = v.named (c ∷ cs) id e in
          subst (λ d. get d reloaded.by_did ≡ get d s.by_did) same
            (index-load_agents-finds id a s.by_did s.agents new_memory_agent_store
              (subst (λ d. is_nil d ≡ false) (sym same) ne) filed at_))
  ]

  reloaded-AnswersAlike : AnswersAlike s reloaded
  unfolding get_agent get_by_did
  reloaded-AnswersAlike = (
    λ id. ground (arith, agents-reloaded id),
    λ did. elim (Option-cases (get did s.by_did)) [
      | inl e ↦ ground (arith, index-reloaded did)
      | inr (id, e) ↦ ground (arith, index-reloaded did, agents-reloaded id)
    ],
  )

error-delete_agent :
    (id : ℕ) (s : MemoryAgentStore) {a : Agent}
    → get id s.agents ≡ some a
    → (delete_agent id s).1 ≡ none
unfolding delete_agent
error-delete_agent id s e = rw (e, delete_agent) refl

-- `IsPlain` is said of the agents that the JSON package gives back as they were: their strings are valid
-- UTF-8, say.
module _ {File : Type 0} (encode : List Agent → Option File) (decode : File → Option (List Agent))
    (write : File → Option File → Option File × Bool) (IsPlain : Agent → Type 0)
    (decode-encode : (l : List Agent) (f : File)
      → All IsPlain l
      → encode l ≡ some f
      → decode f ≡ some l)
    (written : (f : File) (old : Option File)
      → (write f old).1 ≡ true
      → (write f old).0 ≡ some f) where
  -- A save that succeeds leaves the encoding of the agents in the file.
  saved_file :
      (s : FileStore File)
      → (save encode decode write s).1 ≡ none
      → (f : File) × (encode (list_agents s.memory) ≡ some f)
        × ((save encode decode write s).0.file ≡ some f)
  unfolding save
  saved_file s h = elim (Option-cases (encode (list_agents s.memory))) [
    | inl e ↦ absurd (ground arith)
    | inr (f, e) ↦ (f, e, ground (arith, e, written f s.file))
  ]

  load_saved :
      (f : File) (l : List Agent) (file : Option File)
      → file ≡ some f
      → decode f ≡ some l
      → new_file_store encode decode true file
        ≡ ok (record { memory = load_agents l new_memory_agent_store; file = some f })
  unfolding new_file_store load
  load_saved f l file e d = ap (λ o. new_file_store encode decode true o) e ∙ rw d refl

  save-load :
      (s : FileStore File)
      → IsIndexed s.memory
      → IsUnique s.memory.agents
      → All IsPlain (list_agents s.memory)
      → (save encode decode write s).1 ≡ none
      → (t : FileStore File) × (new_file_store encode decode true
            (save encode decode write s).0.file
          ≡ ok t)
        × AnswersAlike s.memory t.memory
  save-load s v u plain h =
      let (f, e, at_) = saved_file s h in
      (
        record { memory = reloaded s.memory v u; file = some f },
        load_saved f (list_agents s.memory) (save encode decode write s).0.file at_
            (decode-encode (list_agents s.memory) f plain e),
        reloaded-AnswersAlike s.memory v u,
      )

  save-memory : (s : FileStore File) → (save encode decode write s).0.memory ≡ s.memory
  unfolding save
  save-memory s = elim (Option-cases (encode (list_agents s.memory))) [
    | inl e ↦ rw (e, save) refl
    | inr (f, e) ↦ rw (e, save) refl
  ]

  delete_in_file-absent :
      (id : ℕ) (s : FileStore File)
      → get id s.memory.agents ≡ none
      → delete_in_file encode decode write id s ≡ (s, some (store_error agent_not_found))
  unfolding delete_in_file delete_agent
  delete_in_file-absent id s e = rw (e, delete_in_file, delete_agent) refl

  delete_in_file-found :
      (id : ℕ) (s : FileStore File) {a : Agent}
      → get id s.memory.agents ≡ some a
      → delete_in_file encode decode write id s
        ≡ save encode decode write (record s { memory = (delete_agent id s.memory).0 })
  unfolding delete_in_file
  delete_in_file-found id s e = rw (error-delete_agent id s.memory e, delete_in_file) refl

  -- When decoding gives back the plain agents that were encoded, those of the registry with the new agent
  -- are plain, and a successful write leaves the data in the file: storing
  -- an agent changes the registry in memory whether the file is written or not, and if it answers with no
  -- error, a registry opened from the file gives every lookup the answer that the registry in memory
  -- gives, from an agent registry with the right index and an agent that may be stored in it.
  pub put_in_file_lem :
      (a : Agent) (s : FileStore File)
      → IsIndexed s.memory
      → IsUnique s.memory.agents
      → CanPut a s.memory
      → All IsPlain (list_agents (put_agent a s.memory))
      → let (s', e) = put_in_file encode decode write a s in
        (s'.memory ≡ put_agent a s.memory)
        × (e ≡ none
            → (t : FileStore File) × (new_file_store encode decode true s'.file ≡ ok t)
              × AnswersAlike s'.memory t.memory)
  unfolding put_in_file
  put_in_file_lem a s v u can plain =
      let s₁ : FileStore File = record s { memory = put_agent a s.memory } in
      (
        save-memory s₁,
        λ h.
            let (t, opened, alike) =
              save-load s₁ (put_agent-IsIndexed a s.memory v can) (put_agent-IsUnique a s.memory u)
                plain h in
            (t, opened, subst (λ m. AnswersAlike m t.memory) (sym (save-memory s₁)) alike),
      )

  -- Under the same assumptions, deleting an agent of a registry with the right index answers with its
  -- error when there is no such agent, and changes nothing. When there is, it is deleted in memory
  -- whether the file is written or not, and if the answer is no error, a registry opened from the file
  -- gives every lookup the answer that the registry in memory gives.
  pub delete_in_file_lem :
      (id : ℕ) (s : FileStore File)
      → IsIndexed s.memory
      → IsUnique s.memory.agents
      → All IsPlain (list_agents (delete_agent id s.memory).0)
      → let (s', e) = delete_in_file encode decode write id s in
        ((get id s.memory.agents ≡ none) × (s' ≡ s) × (e ≡ some (store_error agent_not_found)))
        ⊎ ((s'.memory ≡ (delete_agent id s.memory).0)
            × (e ≡ none
                → (t : FileStore File) × (new_file_store encode decode true s'.file ≡ ok t)
                  × AnswersAlike s'.memory t.memory))
  delete_in_file_lem id s v u plain = elim (Option-cases (get id s.memory.agents)) [
    | inl e ↦ (let q = delete_in_file-absent id s e in inl (e, ap (λ p. p.0) q, ap (λ p. p.1) q))
    | inr (a, e) ↦
        (let s₁ : FileStore File = record s { memory = (delete_agent id s.memory).0 } in
          rw (delete_in_file-found id s e) (
            inr (
              save-memory s₁,
              λ h.
                  let (t, opened, alike) =
                    save-load s₁ (delete_agent-IsIndexed id a s.memory v e)
                      (delete_agent-IsUnique id s.memory u) plain h in
                  (t, opened, subst (λ m. AnswersAlike m t.memory) (sym (save-memory s₁)) alike),
            )))
  ]
