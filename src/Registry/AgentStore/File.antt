-- ===== src/Registry/AgentStore/File.antt =====
-- pkg/registry/store.go: the registry kept in a file. The JSON package is the parameters `encode` and
-- `decode`; the file system is what a read returned, and `write`, which says for the data and the old
-- content what the file holds after `os.WriteFile` and whether it succeeded.
use msg2agent.Prelude.{ℕ, Bool, Option, none, some, List, [], ◌∷◌, Result, ok, err, if◌then◌else◌}
use msg2agent.Registry.Agent.{Agent}
use msg2agent.Registry.AgentStore.{
  AgentError, MemoryAgentStore, new_memory_agent_store, put_agent, delete_agent, list_agents,
}

pub data FileError : Type 0 where
  read_error json_error write_error : FileError
  store_error : AgentError → FileError

pub record FileStore (File : Type 0) : Type 0 where
  pub memory : MemoryAgentStore
  pub file : Option File

-- The loop of `load`.
unfoldable pub load_agents : List Agent → MemoryAgentStore → MemoryAgentStore
unfolding put_agent
load_agents [] s = s
load_agents (a ∷ agents) s = load_agents agents (put_agent a s)

module _ {File : Type 0} (encode : List Agent → Option File)
    (decode : File → Option (List Agent)) where
  unfoldable pub load : Option File → MemoryAgentStore → Result FileError MemoryAgentStore
  load none s = err read_error
  load (some f) s = elim (decode f) [
    | none ↦ err json_error
    | some agents ↦ ok (load_agents agents s)
  ]

  -- Whether the file exists, and what reading it returns.
  unfoldable pub new_file_store : Bool → Option File → Result FileError (FileStore File)
  unfolding load new_memory_agent_store
  new_file_store there file =
      if there
      then elim (load file new_memory_agent_store) [
        | ok s ↦ ok (record { memory = s; file = file })
        | err e ↦ err e
      ]
      else ok (record { memory = new_memory_agent_store; file = file })

  module _ (write : File → Option File → Option File × Bool) where
    unfoldable pub save : FileStore File → FileStore File × Option FileError
    unfolding list_agents
    save s = elim (encode (list_agents s.memory)) [
      | none ↦ (s, some json_error)
      | some content ↦
          (let (file, done) = write content s.file in
            (record s { file = file }, if done then none else some write_error))
    ]

    unfoldable pub put_in_file : Agent → FileStore File → FileStore File × Option FileError
    unfolding put_agent
    put_in_file a s = save (record s { memory = put_agent a s.memory })

    unfoldable pub delete_in_file : ℕ → FileStore File → FileStore File × Option FileError
    unfolding delete_agent
    delete_in_file id s =
        let (memory, e) = delete_agent id s.memory in
        elim e [ some e' ↦ (s, some (store_error e')) | none ↦ save (record s { memory = memory }) ]
