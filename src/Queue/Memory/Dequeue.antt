-- ===== src/Queue/Memory/Dequeue.antt =====
-- `Dequeue` and `Peek` of pkg/queue/memory.go, for any sort by queued time.
use mathlib.Core.List.{Permᴰ}
use mathlib.Core.List.Permᴰ
use msg2agent.Prelude.{
  ℕ, ◌+◌, ◌-◌, ◌<◌, ◌≤◌, Text, text_eq, nat_eq, ◌≡◌, refl, ◌⊎◌, true, false, List, [], ◌∷◌, ◌++◌,
  length, length-append, is_nil, ok, Result, if_elim, All, text_beq_iff, arith,
}
use msg2agent.Prelude.Dict.{slice_at, slice_at-set_slice, length-slice_at-le-total}
use msg2agent.Prelude.Sort.{IsSorted, SortFunc, length-perm, All-perm}
use msg2agent.Queue.{QueuedMessage, is_expired, QueueError}
use msg2agent.Queue.Memory.{MemoryStore, split_queue, dequeue, peek}
use msg2agent.Queue.Memory.Valid.{Leaves, Valid, slice_at-good, set_slice-IsValid, OnlyQueue}
use msg2agent.Queue.Memory.Split.{
  split_queue-Split, Split-perm, Split-live, Split-length, Split-exhausts, Split-All, time,
  Split-IsSorted, IsLater, Split-oldest, peek_queue-eq,
}

-- What `Dequeue` promises: the result and what stays are the queue, each message once; the result is
-- in order of queued time, holds live messages only, no more than the limit, and none younger than a
-- live message that stays; below the limit no live message stays; no other queue changes.
abbrev pub Dequeued :
    Text → ℕ → ℕ → MemoryStore → MemoryStore → List QueuedMessage → List QueuedMessage → Type 0
Dequeued did limit now s t r rest =
    Permᴰ (r ++ rest) (slice_at did s.queues)
    × IsSorted time r
    × All (λ m. is_expired now m ≡ false) r
    × (0 < limit → length r ≤ limit)
    × All (IsLater now limit r) rest
    × ((limit ≡ 0) ⊎ (length r < limit) → All (λ m. is_expired now m ≡ true) rest)
    × OnlyQueue s t did rest
    × (t.dlq ≡ s.dlq)

nil_of_is_nil : (q : List QueuedMessage) → is_nil q ≡ true → q ≡ []
nil_of_is_nil [] h = refl
nil_of_is_nil (m ∷ q) h = cc

nil-Dequeued :
    (did : Text) (limit now : ℕ) (s : MemoryStore)
    → slice_at did s.queues ≡ []
    → Dequeued did limit now s s [] []
nil-Dequeued did limit now s e = (
  rw e Permᴰ.nil,
  tt,
  tt,
  (λ _. omega arith),
  tt,
  (λ _. tt),
  (λ j. ground (arith, text_beq_iff did j)),
  refl,
)

module _ (f : SortFunc time) where
  open f use {sort, perm, sorted}

  abbrev pub DequeueResult :
      Text → ℕ → ℕ → MemoryStore → MemoryStore × Result QueueError (List QueuedMessage) → Type 0
  DequeueResult did limit now s p =
      (r : List QueuedMessage) × (rest : List QueuedMessage) × (p.1 ≡ ok r)
      × Dequeued did limit now s p.0 r rest

  -- `Dequeue` on an open store returns messages, with any sort by queued time: they and what stays in
  -- the queue are what was in it, each message once; they are in order of queued time, live, no more
  -- than a positive limit, and none is younger than a live message that stays; below the limit no live
  -- message stays; and no other queue and no dead letter changes.
  pub dequeue-Dequeued :
      (did : Text) (limit now : ℕ) (s : MemoryStore)
      → s.closed ≡ false
      → DequeueResult did limit now s (dequeue sort did limit now s)
  unfolding dequeue
  dequeue-Dequeued did limit now s open_ =
      let q = slice_at did s.queues in
      let (r, rest) = split_queue now limit 0 (sort q) in
      let sp = split_queue-Split now limit 0 (sort q) in
      if_elim (DequeueResult did limit now s) s.closed (λ y. absurd (cc (y, open_)))
        (λ _.
          if_elim (DequeueResult did limit now s) (is_nil q)
            (λ e. ([], [], refl, nil-Dequeued did limit now s (nil_of_is_nil q e)))
            (λ _. (
              r,
              rest,
              refl,
              (
                Permᴰ.trans (Split-perm now limit sp) (perm q),
                Split-IsSorted now limit sp (sorted q),
                Split-live now limit sp,
                (λ p. omega (arith, Split-length now limit sp p (omega arith))),
                Split-oldest now limit sp (sorted q),
                (λ p. Split-exhausts now limit sp (ground arith)),
                (λ j. slice_at-set_slice did j rest s.queues),
                refl,
              ),
            )))

  -- `Peek` returns what `Dequeue` would return at that moment.
  pub peek-dequeue :
      (did : Text) (limit now : ℕ) (s : MemoryStore)
      → peek sort did limit now s ≡ (dequeue sort did limit now s).1
  unfolding peek dequeue
  peek-dequeue did limit now s =
      ground (arith, peek_queue-eq now limit 0 (sort (slice_at did s.queues)))

  pub dequeue-Valid :
      (did : Text) (limit now : ℕ) (s : MemoryStore)
      → Valid s
      → Valid (dequeue sort did limit now s).0
  unfolding dequeue
  dequeue-Valid did limit now s v =
      let q = slice_at did s.queues in
      let (r, rest) = split_queue now limit 0 (sort q) in
      let sp = split_queue-Split now limit 0 (sort q) in
      let g = slice_at-good s.config s.queues s.total_count v did in
      let n : length r + length rest ≡ length q = omega (
        arith,
        length-append r rest,
        length-perm (Permᴰ.trans (Split-perm now limit sp) (perm q)),
      ) in
      if_elim Leaves s.closed (λ _. v)
        (λ _.
          if_elim Leaves (is_nil q) (λ _. v)
            (λ _.
              set_slice-IsValid s.config s.queues s.total_count v did rest
                (s.total_count - length r)
                (omega (arith, n, v.counted, length-slice_at-le-total did s.queues))
                (λ p. (
                  (Split-All now limit _ sp (All-perm _ (Permᴰ.symm (perm q)) g.0)).1,
                  (λ z. omega (arith, g.1 z, n)),
                  p,
                ))))
