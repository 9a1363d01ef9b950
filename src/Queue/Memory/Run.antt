-- ===== src/Queue/Memory/Run.antt =====
-- Histories of the in-memory queue store: any sequence of the calls that change it.
use msg2agent.Prelude.{ℕ, Text, ◌≡◌, ◌∙◌, refl, true, false, some, List, [], ◌∷◌, All, err, arith}
use msg2agent.Prelude.Dict.{total}
use msg2agent.Prelude.Sort.{SortFunc}
use msg2agent.Queue.{Config, QueuedMessage, queue_closed}
use msg2agent.Queue.Memory.{
  MemoryStore, new_memory_store, make_room, evict_oldest, delete_at, enqueue, dequeue, peek, ack,
  nack, cleanup, get_queue_size, get_dlq, close,
}
use msg2agent.Queue.Memory.Valid.{Valid}
use msg2agent.Queue.Memory.Split.{time}
use msg2agent.Queue.Memory.Enqueue.{IsFresh, enqueue-Valid}
use msg2agent.Queue.Memory.Dequeue.{dequeue-Valid}
use msg2agent.Queue.Memory.Settle.{ack-Valid, nack-Valid}
use msg2agent.Queue.Memory.Cleanup.{cleanup-Valid}

-- The calls that take the write lock, with the time at which they are made.
pub data Call : Type 0 where
  enqueues : QueuedMessage → Call
  dequeues : Text → ℕ → ℕ → Call
  acks : ℕ → Call
  nacks : ℕ → ℕ → Text → Call
  cleans : ℕ → Call
  closes : Call

module _ (f : SortFunc time) where
  unfoldable pub call : Call → MemoryStore → MemoryStore
  call (enqueues m) s = (enqueue m s).0
  call (dequeues did limit now) s = (dequeue f.sort did limit now s).0
  call (acks id) s = (ack id s).0
  call (nacks now id reason) s = (nack now id reason s).0
  call (cleans now) s = (cleanup now s).0
  call closes s = close s

  unfoldable pub run : List Call → MemoryStore → MemoryStore
  unfolding call
  run [] s = s
  run (c ∷ cs) s = run cs (call c s)

-- The messages handed to `Enqueue` are fresh for the configuration.
abbrev pub IsFreshCall : Config → Call → Type 0
IsFreshCall c (enqueues m) = IsFresh c m
IsFreshCall c _ = Unit

-- What holds of a store between two calls.
abbrev pub IsSafe : Config → MemoryStore → Type 0
IsSafe c s = (s.config ≡ c) × (s.closed ≡ false → Valid s)

module _ (f : SortFunc time) where
  -- No call changes the configuration, and a closed store stays closed.
  call_frame :
      (c : Call) (s : MemoryStore)
      → ((call f c s).config ≡ s.config) × (s.closed ≡ true → (call f c s).closed ≡ true)
  unfolding call enqueue make_room evict_oldest delete_at dequeue ack nack cleanup close
  call_frame (enqueues m) s = ground arith
  call_frame (dequeues did limit now) s = ground arith
  call_frame (acks id) s = ground arith
  call_frame (nacks now id reason) s = ground arith
  call_frame (cleans now) s = ground arith
  call_frame closes s = ground arith

  call-Valid :
      (c : Call) (s : MemoryStore)
      → (call f c s).closed ≡ false
      → IsFreshCall s.config c
      → Valid s
      → Valid (call f c s)
  unfolding call close
  call-Valid (enqueues m) s o h v = enqueue-Valid m s v h
  call-Valid (dequeues did limit now) s o h v = dequeue-Valid f did limit now s v
  call-Valid (acks id) s o h v = ack-Valid id s v
  call-Valid (nacks now id reason) s o h v = nack-Valid now id reason s v
  call-Valid (cleans now) s o h v = cleanup-Valid now s v
  call-Valid closes s o h v = cc

  run-IsSafe_from :
      (c : Config) (cs : List Call) (s : MemoryStore)
      → All (IsFreshCall c) cs
      → IsSafe c s
      → IsSafe c (run f cs s)
  unfolding run
  run-IsSafe_from c [] s h v = v
  run-IsSafe_from c (x ∷ cs) s h v =
      let (g, o) = call_frame x s in
      run-IsSafe_from c cs (call f x s) h.1
        (g ∙ v.0, (λ e. call-Valid x s e (rw v.0 h.0) (v.1 (ground arith))))

  -- After any sequence of calls on a new store, whenever they are made, if every message handed to
  -- `Enqueue` has attempts left, the configuration is the one the store was made with, and a store
  -- that is open has one entry for each recipient, no entry empty or longer than the limit of one
  -- recipient, only messages for the recipient with attempts left in it, and a total count that is the
  -- number of queued messages.
  pub run-IsSafe :
      (c : Config) (cs : List Call)
      → All (IsFreshCall c) cs
      → IsSafe c (run f cs (new_memory_store c))
  run-IsSafe c cs h = run-IsSafe_from c cs (new_memory_store c) h (
      unfold new_memory_store total in
      (refl, (λ _. record { unique = tt; counted = refl; entries = tt })))

  run-closed_from :
      (cs : List Call) (s : MemoryStore) → s.closed ≡ true → (run f cs s).closed ≡ true
  unfolding run
  run-closed_from [] s e = e
  run-closed_from (x ∷ cs) s e = run-closed_from cs (call f x s) ((call_frame x s).1 e)

  run_stays_closed : (cs : List Call) (s : MemoryStore) → (run f (closes ∷ cs) s).closed ≡ true
  unfolding run call close
  run_stays_closed cs s = run-closed_from cs (close s) refl

  -- After `Close`, every call returns `ErrQueueClosed`, and no call opens the store again.
  pub run-closed :
      (cs : List Call) (s : MemoryStore) (did : Text) (limit now id : ℕ) (reason : Text)
      (m : QueuedMessage)
      → let t = run f (closes ∷ cs) s in
        ((enqueue m t).1 ≡ some queue_closed)
        × ((dequeue f.sort did limit now t).1 ≡ err queue_closed)
        × (peek f.sort did limit now t ≡ err queue_closed)
        × ((ack id t).1 ≡ some queue_closed)
        × ((nack now id reason t).1 ≡ some queue_closed)
        × ((cleanup now t).1 ≡ err queue_closed)
        × (get_queue_size did now t ≡ err queue_closed)
        × (get_dlq did limit t ≡ err queue_closed)
  unfolding enqueue dequeue peek ack nack cleanup get_queue_size get_dlq
  run-closed cs s did limit now id reason m = ground (arith, run_stays_closed cs s)
