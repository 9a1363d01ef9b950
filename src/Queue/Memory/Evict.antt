-- ===== src/Queue/Memory/Evict.antt =====
-- `evictOldestLocked` of pkg/queue/memory.go: the search over the map and the removal.
use msg2agent.Prelude.{
  ℕ, suc, ◌-◌, ◌<◌, ◌≤◌, Text, text_eq, ◌≡◌, refl, inl, inr, true, false, Bool-cases, Option, none,
  some, List, [], ◌∷◌, length, length-remove_at, drop, drop-cons, if◌then◌else◌, get_elem?,
  remove_at, is_nil, All, All-mono, All-remove_at, arith,
}
use msg2agent.Prelude.Dict.{
  Dict, get, slice_at, slice_at_of_some, slice_at_of_none, AllEntries-get_self, total, AllEntries,
  length-slice_at-le-total, slice_at-set_slice,
}
use msg2agent.Queue.{QueuedMessage}
use msg2agent.Queue.Memory.{
  MemoryStore, Oldest, is_older, oldest_in, oldest_of, delete_at, evict_found, evict_oldest,
}
use msg2agent.Queue.Memory.Valid.{OnlyQueue, Valid, slice_at-good, set_slice-IsValid}

delete_at-Valid :
    (did : Text) (i : ℕ) (s : MemoryStore) {m : QueuedMessage}
    → Valid s
    → get_elem? (slice_at did s.queues) i ≡ some m
    → Valid (delete_at did i s)
unfolding delete_at
delete_at-Valid did i s v h =
    let q = slice_at did s.queues in
    let g = slice_at-good s.config s.queues s.total_count v did in
    let l = length-remove_at i q h in
    set_slice-IsValid s.config s.queues s.total_count v did (remove_at i q) (s.total_count - 1)
      (omega (arith, l, v.counted, length-slice_at-le-total did s.queues))
      (λ p. (All-remove_at _ i q g.0, (λ z. omega (arith, g.1 z, l)), p))

-- A candidate names a stored message and its time.
abbrev pub IsAt : Dict Text (List QueuedMessage) → Option Oldest → Type 0
IsAt queues none = Unit
IsAt queues (some o) =
    (m : QueuedMessage) × (get_elem? (slice_at o.did queues) o.idx ≡ some m)
    × (m.queued_at ≡ o.time)

-- There is a candidate, and the message is no older.
abbrev pub NotBefore : Option Oldest → QueuedMessage → Type 0
NotBefore none m = ⊥
NotBefore (some o) m = o.time ≤ m.queued_at

-- The step of the search.
abbrev better : Text → ℕ → QueuedMessage → Option Oldest → Option Oldest
better did i m best =
    if is_older m best then some (record { time = m.queued_at; did = did; idx = i }) else best

better-NotBefore_self :
    (did : Text) (i : ℕ) (m : QueuedMessage) (best : Option Oldest)
    → NotBefore (better did i m best) m
better-NotBefore_self did i m none = omega arith
better-NotBefore_self did i m (some o) = ground arith

better-NotBefore :
    (did : Text) (i : ℕ) (m x : QueuedMessage) (best : Option Oldest)
    → NotBefore best x
    → NotBefore (better did i m best) x
better-NotBefore did i m x none h = absurd h
better-NotBefore did i m x (some o) h = ground arith

oldest_in-keeps :
    (did : Text) (i : ℕ) (q : List QueuedMessage) (best : Option Oldest) (x : QueuedMessage)
    → NotBefore best x
    → NotBefore (oldest_in did i q best) x
unfolding oldest_in
oldest_in-keeps did i [] best x h = h
oldest_in-keeps did i (m ∷ q) best x h =
    oldest_in-keeps did (suc i) q (better did i m best) x (better-NotBefore did i m x best h)

oldest_in-NotBefore :
    (did : Text) (i : ℕ) (q : List QueuedMessage) (best : Option Oldest)
    → All (NotBefore (oldest_in did i q best)) q
unfolding oldest_in
oldest_in-NotBefore did i [] best = tt
oldest_in-NotBefore did i (m ∷ q) best = (
  oldest_in-keeps did (suc i) q (better did i m best) m (better-NotBefore_self did i m best),
  oldest_in-NotBefore did (suc i) q (better did i m best),
)

oldest_of-keeps :
    (entries : Dict Text (List QueuedMessage)) (best : Option Oldest) (x : QueuedMessage)
    → NotBefore best x
    → NotBefore (oldest_of entries best) x
unfolding oldest_of
oldest_of-keeps [] best x h = h
oldest_of-keeps ((did, q) ∷ rest) best x h =
    oldest_of-keeps rest (oldest_in did 0 q best) x (oldest_in-keeps did 0 q best x h)

oldest_of-NotBefore :
    (entries : Dict Text (List QueuedMessage)) (best : Option Oldest)
    → AllEntries (λ did q. All (NotBefore (oldest_of entries best)) q) entries
unfolding oldest_of
oldest_of-NotBefore [] best = tt
oldest_of-NotBefore ((did, q) ∷ rest) best =
    let found = oldest_in did 0 q best in
    (
      All-mono (NotBefore found) (NotBefore (oldest_of rest found)) q
          (λ m. oldest_of-keeps rest found m) (oldest_in-NotBefore did 0 q best),
      oldest_of-NotBefore rest found,
    )

oldest_in-IsAt :
    (queues : Dict Text (List QueuedMessage)) (did : Text) (i : ℕ) (q : List QueuedMessage)
    (best : Option Oldest)
    → drop i (slice_at did queues) ≡ q
    → IsAt queues best
    → IsAt queues (oldest_in did i q best)
unfolding oldest_in
oldest_in-IsAt queues did i [] best e h = h
oldest_in-IsAt queues did i (m ∷ q) best e h =
    let (here, next) = drop-cons i (slice_at did queues) e in
    oldest_in-IsAt queues did (suc i) q (better did i m best) next
      (elim (Bool-cases (is_older m best)) [ inl y ↦ rw y (m, here, refl) | inr n ↦ rw n h ])

oldest_of-IsAt :
    (queues entries : Dict Text (List QueuedMessage)) (best : Option Oldest)
    → AllEntries (λ did q. get did queues ≡ some q) entries
    → IsAt queues best
    → IsAt queues (oldest_of entries best)
unfolding oldest_of
oldest_of-IsAt queues [] best g h = h
oldest_of-IsAt queues ((did, q) ∷ rest) best g h =
    oldest_of-IsAt queues rest (oldest_in did 0 q best) g.1
      (oldest_in-IsAt queues did 0 q best (slice_at_of_some did queues g.0) h)

-- A queued message makes the search return a candidate.
total-NotBefore :
    (best : Option Oldest) (queues : Dict Text (List QueuedMessage))
    → 0 < total length queues
    → AllEntries (λ did q. All (NotBefore best) q) queues
    → (x : QueuedMessage) × NotBefore best x
unfolding total
total-NotBefore best [] p h = absurd (omega arith)
total-NotBefore best ((did, []) ∷ rest) p h = total-NotBefore best rest (omega arith) h.1
total-NotBefore best ((did, m ∷ q) ∷ rest) p h = (m, h.0.0)

is_nil-eq : (xs : Text) → is_nil xs ≡ true → xs ≡ []
is_nil-eq [] h = refl
is_nil-eq (x ∷ xs) h = cc

-- Without a queue under the empty DID, no candidate has the empty DID.
IsAt-named :
    (queues : Dict Text (List QueuedMessage)) (o : Oldest)
    → get [] queues ≡ none
    → IsAt queues (some o)
    → is_nil o.did ≡ false
IsAt-named queues o e (m, a, t) = elim (Bool-cases (is_nil o.did)) [
  | inl y ↦
      (let q : slice_at o.did queues ≡ [] = rw (is_nil-eq o.did y) (slice_at_of_none [] queues e) in
        let a' : get_elem? {A = QueuedMessage} [] o.idx ≡ some m = rw q at a in cc a')
  | inr n ↦ n
]

-- The message that `evictOldestLocked` removes: it stands at `i` in the queue of `did`, no queued message
-- is older, that queue loses it and no other queue changes.
abbrev pub EvictsOldest : MemoryStore → MemoryStore → Type 0
EvictsOldest s t =
    (did : Text) × (i : ℕ) × (m : QueuedMessage) × (get_elem? (slice_at did s.queues) i ≡ some m)
    × AllEntries (λ d q. All (λ x. m.queued_at ≤ x.queued_at) q) s.queues
    × OnlyQueue s t did (remove_at i (slice_at did s.queues))
    × (t.total_count ≡ s.total_count - 1)

evict_found-oldest :
    (s : MemoryStore) (o : Option Oldest) (x : QueuedMessage)
    → get [] s.queues ≡ none
    → IsAt s.queues o
    → AllEntries (λ did q. All (NotBefore o) q) s.queues
    → NotBefore o x
    → EvictsOldest s (evict_found o s)
unfolding evict_found delete_at
evict_found-oldest s none x e a n h = absurd h
evict_found-oldest s (some o) x e (m, here, t) n h =
    let named = IsAt-named s.queues o e (m, here, t) in
    (
      o.did,
      o.idx,
      m,
      here,
      rw t n,
      (λ j.
          rw named
            (slice_at-set_slice o.did j (remove_at o.idx (slice_at o.did s.queues)) s.queues)),
      rw named refl,
    )

-- On a valid store with a message queued and none queued for the empty DID, the eviction takes one
-- message, than which no queued message is older, out of its place in its queue, leaves every other
-- message where it is, and counts the message off.
pub evict_oldest-oldest :
    (s : MemoryStore)
    → Valid s
    → get [] s.queues ≡ none
    → 0 < s.total_count
    → EvictsOldest s (evict_oldest s)
unfolding evict_oldest
evict_oldest-oldest s v e p =
    let o = oldest_of s.queues none in
    let n = oldest_of-NotBefore s.queues none in
    let (x, h) = total-NotBefore o s.queues (omega (arith, v.counted)) n in
    evict_found-oldest s o x e
      (oldest_of-IsAt s.queues s.queues none (AllEntries-get_self s.queues v.unique) tt) n h

evict_found-Valid :
    (s : MemoryStore) (o : Option Oldest) → Valid s → IsAt s.queues o → Valid (evict_found o s)
unfolding evict_found
evict_found-Valid s none v a = v
evict_found-Valid s (some o) v (m, here, t) = elim (Bool-cases (is_nil o.did)) [
  | inl y ↦ rw y v
  | inr n ↦ rw n (delete_at-Valid o.did o.idx s v here)
]

-- The eviction keeps the invariant, also where it removes nothing.
pub evict_oldest-Valid : (s : MemoryStore) → Valid s → Valid (evict_oldest s)
unfolding evict_oldest
evict_oldest-Valid s v =
    evict_found-Valid s (oldest_of s.queues none) v
      (oldest_of-IsAt s.queues s.queues none (AllEntries-get_self s.queues v.unique) tt)
