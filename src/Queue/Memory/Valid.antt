-- ===== src/Queue/Memory/Valid.antt =====
-- The invariant of the in-memory queue store, and the lemmas that each method's proof applies.
use msg2agent.Prelude.{
  ℕ, ◌+◌, ◌<◌, ◌≤◌, Text, ◌==◌, text_eq, nat_eq, nat_beq_iff, ◌≡◌, if◌then◌else◌, ◌≢◌, refl, inl,
  inr, Bool-cases, Option-cases, Option, none, some, List, [], ◌∷◌, length, get_elem?, All, arith,
}
use msg2agent.Prelude.Dict.{
  Dict, get, get_head, get_later, slice_at, slice_at_of_some, slice_at_of_none, set_slice, total,
  IsUnique, AllEntries, AllEntries-get, AllEntries-set_slice, set_slice-IsUnique, total-set_slice,
}
use msg2agent.Queue.{Config, QueuedMessage}
use msg2agent.Queue.Memory.{MemoryStore, Place, shift, find_index, place_or, locate}

-- A queued message stands under its recipient and has attempts left.
abbrev pub GoodMessage : Config → Text → QueuedMessage → Type 0
GoodMessage c did m =
    (m.recipient_did ≡ did)
    × (0 < c.max_delivery_attempts → m.delivery_attempts < c.max_delivery_attempts)

abbrev pub GoodQueue : Config → Text → List QueuedMessage → Type 0
GoodQueue c did q =
    All (GoodMessage c did) q
    × (0 < c.max_queue_size → length q ≤ c.max_queue_size)
    × (0 < length q)

pub record IsValid (c : Config) (queues : Dict Text (List QueuedMessage)) (n : ℕ) : Type 0 where
  pub unique : IsUnique queues
  pub counted : n ≡ total length queues
  pub entries : AllEntries (GoodQueue c) queues

-- The invariant of an open store: one entry for each recipient, no entry empty, no entry over the
-- limit, `totalCount` the number of queued messages.
abbrev pub Valid : MemoryStore → Type 0
Valid s = IsValid s.config s.queues s.total_count

-- The state that a method leaves is valid.
abbrev pub Leaves : {R : Type 0} → MemoryStore × R → Type 0
Leaves r = Valid r.0

-- Every queue of `t` is that of `s`, but the queue of `did`, which is `q`.
abbrev pub OnlyQueue : MemoryStore → MemoryStore → Text → List QueuedMessage → Type 0
OnlyQueue s t did q =
    (j : Text) → slice_at j t.queues ≡ (if did == j then q else slice_at j s.queues)

module _ (c : Config) (queues : Dict Text (List QueuedMessage)) (n : ℕ)
    (v : IsValid c queues n) where
  pub slice_at-good :
      (did : Text)
      → All (GoodMessage c did) (slice_at did queues)
        × (0 < c.max_queue_size → length (slice_at did queues) ≤ c.max_queue_size)
  slice_at-good did = elim (Option-cases (get did queues)) [
    | inl e ↦ rw (slice_at_of_none did queues e) (tt, λ _. omega arith)
    | inr (q, e) ↦
        (let g = AllEntries-get (GoodQueue c) did queues v.entries e in
          rw (slice_at_of_some did queues e) (g.0, g.1))
  ]

  pub set_slice-IsValid :
      (did : Text) (q : List QueuedMessage) (n' : ℕ)
      → n' + length (slice_at did queues) ≡ n + length q
      → (0 < length q → GoodQueue c did q)
      → IsValid c (set_slice did q queues) n'
  set_slice-IsValid did q n' e g = record {
    unique = set_slice-IsUnique did q queues v.unique;
    counted = omega (arith, total-set_slice did q queues v.unique, v.counted);
    entries = AllEntries-set_slice (GoodQueue c) did q queues v.entries g;
  }

-- What the search of `Ack` and `Nack` returns: the place of a message with that id, or nothing if no
-- message has it.
abbrev pub FoundIn : ℕ → List QueuedMessage → Option (ℕ × QueuedMessage) → Type 0
FoundIn id q none = All (λ m. m.id ≢ id) q
FoundIn id q (some (i, m)) = (get_elem? q i ≡ some m) × (m.id ≡ id)

abbrev pub LocatedIn : ℕ → Dict Text (List QueuedMessage) → Option Place → Type 0
LocatedIn id queues none = AllEntries (λ did q. All (λ m. m.id ≢ id) q) queues
LocatedIn id queues (some p) =
    (get p.did queues ≡ some p.queue) × (get_elem? p.queue p.idx ≡ some p.msg) × (p.msg.id ≡ id)

shift-FoundIn :
    (id : ℕ) (x : QueuedMessage) (q : List QueuedMessage) (o : Option (ℕ × QueuedMessage))
    → x.id ≢ id
    → FoundIn id q o
    → FoundIn id (x ∷ q) (shift o)
shift-FoundIn id x q none ne h = (ne, h)
shift-FoundIn id x q (some (i, m)) ne h = h

find_index-FoundIn : (id : ℕ) (q : List QueuedMessage) → FoundIn id q (find_index id q)
unfolding find_index
find_index-FoundIn id [] = tt
find_index-FoundIn id (x ∷ q) = elim (Bool-cases (x.id == id)) [
  | inl e ↦ rw e (refl, (nat_beq_iff x.id id).0 e)
  | inr e ↦ rw e (shift-FoundIn id x q (find_index id q) (ground arith) (find_index-FoundIn id q))
]

later-LocatedIn :
    (id : ℕ) (did : Text) (q : List QueuedMessage) (rest : Dict Text (List QueuedMessage))
    (o : Option Place)
    → get did rest ≡ none
    → All (λ m. m.id ≢ id) q
    → LocatedIn id rest o
    → LocatedIn id ((did, q) ∷ rest) o
later-LocatedIn id did q rest none fresh ne h = (ne, h)
later-LocatedIn id did q rest (some p) fresh ne h = (get_later did p.did q rest fresh h.0, h.1, h.2)

place_or-LocatedIn :
    (id : ℕ) (did : Text) (q : List QueuedMessage) (rest : Dict Text (List QueuedMessage))
    (o : Option (ℕ × QueuedMessage)) (later : Option Place)
    → get did rest ≡ none
    → FoundIn id q o
    → LocatedIn id rest later
    → LocatedIn id ((did, q) ∷ rest) (place_or did q o later)
place_or-LocatedIn id did q rest none later fresh f l =
    later-LocatedIn id did q rest later fresh f l
place_or-LocatedIn id did q rest (some (i, m)) later fresh f l = (get_head did q rest, f.0, f.1)

pub locate-LocatedIn :
    (id : ℕ) (queues : Dict Text (List QueuedMessage))
    → IsUnique queues
    → LocatedIn id queues (locate id queues)
unfolding locate
locate-LocatedIn id [] u = tt
locate-LocatedIn id ((did, q) ∷ rest) u =
    place_or-LocatedIn id did q rest (find_index id q) (locate id rest) u.0
      (find_index-FoundIn id q) (locate-LocatedIn id rest u.1)
