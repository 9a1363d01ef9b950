-- ===== src/Queue/Memory/Cleanup.antt =====
-- `Cleanup`, `GetQueueSize` and `Close` of pkg/queue/memory.go.
use msg2agent.Prelude.{
  ℕ, ◌+◌, Text, ◌==◌, text_eq, ◌≡◌, refl, false, none, List, [], ◌∷◌, length, keep, length-keep-le,
  is_nil, All-keep, ok, Result, if_elim, if◌then◌else◌, arith, text_beq_iff,
}
use msg2agent.Prelude.Dict.{
  Dict, get, get-nil, slice_at, slice_at_of_none, total, IsUnique, AllEntries,
}
use msg2agent.Queue.{Config, QueuedMessage, QueueError}
use msg2agent.Queue.Memory.{MemoryStore, is_live, cleanup_entries, cleanup, get_queue_size}
use msg2agent.Queue.Memory.Valid.{GoodQueue, Leaves, Valid}

-- The entry of one queue after the loop: dropped if nothing of it stays.
abbrev entry_or_drop :
    Text → List QueuedMessage → Dict Text (List QueuedMessage) → Dict Text (List QueuedMessage)
entry_or_drop did q rest = if is_nil q then rest else (did, q) ∷ rest

slice_at-cons :
    (did j : Text) (q : List QueuedMessage) (rest : Dict Text (List QueuedMessage))
    → slice_at j ((did, q) ∷ rest) ≡ (if did == j then q else slice_at j rest)
unfolding slice_at get
slice_at-cons did j q rest = ground arith

slice_at-entry_or_drop :
    (did j : Text) (q : List QueuedMessage) (rest : Dict Text (List QueuedMessage))
    → get did rest ≡ none
    → slice_at j (entry_or_drop did q rest) ≡ (if did == j then q else slice_at j rest)
slice_at-entry_or_drop did j [] rest h =
    ground (arith, text_beq_iff did j, slice_at_of_none did rest h)
slice_at-entry_or_drop did j (m ∷ q) rest h = slice_at-cons did j (m ∷ q) rest

get-entry_or_drop :
    (did j : Text) (q : List QueuedMessage) (rest : Dict Text (List QueuedMessage))
    → (did == j) ≡ false
    → get j rest ≡ none
    → get j (entry_or_drop did q rest) ≡ none
unfolding get
get-entry_or_drop did j [] rest ne h = h
get-entry_or_drop did j (m ∷ q) rest ne h = ground arith

cleanup_entries-absent :
    (now : ℕ) (j : Text) (m : Dict Text (List QueuedMessage))
    → get j m ≡ none
    → get j (cleanup_entries now m).0 ≡ none
unfolding cleanup_entries get
cleanup_entries-absent now j [] h = refl
cleanup_entries-absent now j ((did, q) ∷ rest) h =
    get-entry_or_drop did j (keep (is_live now) q) (cleanup_entries now rest).0 (ground arith)
      (cleanup_entries-absent now j rest (ground arith))

-- The loop keeps the live messages of every queue.
cleanup_entries-slice_at :
    (now : ℕ) (j : Text) (m : Dict Text (List QueuedMessage))
    → IsUnique m
    → slice_at j (cleanup_entries now m).0 ≡ keep (is_live now) (slice_at j m)
unfolding cleanup_entries
cleanup_entries-slice_at now j [] u = rw (slice_at_of_none {A = QueuedMessage} j [] (get-nil j))
cleanup_entries-slice_at now j ((did, q) ∷ rest) u = ground (
  arith,
  slice_at-cons did j q rest,
  slice_at-entry_or_drop did j (keep (is_live now) q) (cleanup_entries now rest).0
      (cleanup_entries-absent now did rest u.0),
  cleanup_entries-slice_at now j rest u.1,
)

total-entry_or_drop :
    (did : Text) (q : List QueuedMessage) (rest : Dict Text (List QueuedMessage))
    → total length (entry_or_drop did q rest) ≡ length q + total length rest
unfolding total
total-entry_or_drop did [] rest = omega arith
total-entry_or_drop did (m ∷ q) rest = refl

cleanup_entries-total :
    (now : ℕ) (m : Dict Text (List QueuedMessage))
    → total length (cleanup_entries now m).0 + (cleanup_entries now m).1 ≡ total length m
unfolding cleanup_entries total
cleanup_entries-total now [] = omega arith
cleanup_entries-total now ((did, q) ∷ rest) = omega (
  arith,
  total-entry_or_drop did (keep (is_live now) q) (cleanup_entries now rest).0,
  cleanup_entries-total now rest,
  length-keep-le (is_live now) q,
)

cleanup_entries-IsUnique :
    (now : ℕ) (m : Dict Text (List QueuedMessage)) → IsUnique m → IsUnique (cleanup_entries now m).0
unfolding cleanup_entries
cleanup_entries-IsUnique now [] u = tt
cleanup_entries-IsUnique now ((did, q) ∷ rest) u =
    if_elim IsUnique (is_nil (keep (is_live now) q)) (λ _. cleanup_entries-IsUnique now rest u.1)
      (λ _. (cleanup_entries-absent now did rest u.0, cleanup_entries-IsUnique now rest u.1))

module _ (now : ℕ) (c : Config) where
  cleanup_entries-good :
      (m : Dict Text (List QueuedMessage))
      → AllEntries (GoodQueue c) m
      → AllEntries (GoodQueue c) (cleanup_entries now m).0
  unfolding cleanup_entries
  cleanup_entries-good [] h = tt
  cleanup_entries-good ((did, q) ∷ rest) (g, h) =
      if_elim (AllEntries (GoodQueue c)) (is_nil (keep (is_live now) q))
        (λ _. cleanup_entries-good rest h)
        (λ some_. (
          (
            All-keep _ (is_live now) q g.0,
            (λ z. omega (arith, g.1 z, length-keep-le (is_live now) q)),
            ground arith,
          ),
          cleanup_entries-good rest h,
        ))

pub cleanup-Valid : (now : ℕ) (s : MemoryStore) → Valid s → Valid (cleanup now s).0
unfolding cleanup
cleanup-Valid now s v =
    if_elim Leaves s.closed (λ _. v)
      (λ _. record {
        unique = cleanup_entries-IsUnique now s.queues v.unique;
        counted = omega (arith, cleanup_entries-total now s.queues, v.counted);
        entries = cleanup_entries-good now s.config s.queues v.entries;
      })

abbrev pub CleanedUp : ℕ → MemoryStore → MemoryStore × Result QueueError ℕ → Type 0
CleanedUp now s r =
    ((j : Text) → slice_at j r.0.queues ≡ keep (is_live now) (slice_at j s.queues))
    × (removed : ℕ) × (r.1 ≡ ok removed)
    × (r.0.total_count + removed ≡ s.total_count)

-- On an open, valid store `Cleanup` leaves the live messages of every queue, in order, and returns how
-- many messages it removed.
pub cleanup-slice_at :
    (now : ℕ) (s : MemoryStore) → Valid s → s.closed ≡ false → CleanedUp now s (cleanup now s)
unfolding cleanup
cleanup-slice_at now s v open_ =
    if_elim (CleanedUp now s) s.closed (λ y. absurd (cc (y, open_)))
      (λ _. (
        (λ j. cleanup_entries-slice_at now j s.queues v.unique),
        (cleanup_entries now s.queues).1,
        refl,
        omega (arith, cleanup_entries-total now s.queues, v.counted),
      ))

-- After `Cleanup`, `GetQueueSize` at that moment counts every message that is left.
pub get_queue_size-cleanup :
    (now : ℕ) (did : Text) (s : MemoryStore)
    → Valid s
    → s.closed ≡ false
    → get_queue_size did now s ≡ ok (length (slice_at did (cleanup now s).0.queues))
unfolding get_queue_size
get_queue_size-cleanup now did s v open_ = ground (arith, (cleanup-slice_at now s v open_).0 did)
