-- ===== src/Queue/Memory/Split.antt =====
-- The loops of `Dequeue` and `Peek` of pkg/queue/memory.go, and what their split of a queue satisfies.
use mathlib.Core.List.{Permᴰ}
use mathlib.Core.List.Permᴰ
use msg2agent.Prelude.{
  ℕ, suc, ◌+◌, ◌<◌, ◌≤◌, text_eq, nat_eq, ◌≡◌, refl, sym, ◌⊎◌, true, false, List, [], ◌∷◌, ◌++◌,
  length, if_elim, All, All-mono₂, subst, arith,
}
use msg2agent.Prelude.Sort.{IsSorted}
use msg2agent.Queue.{QueuedMessage, is_expired}
use msg2agent.Queue.Memory.{is_full, split_queue, peek_queue}

-- The key by which `Dequeue` and `Peek` sort.
abbrev pub time : QueuedMessage → ℕ
time m = m.queued_at

-- How the loop of `Dequeue` splits a queue when `taken` messages are in the result already.
module _ (now limit : ℕ) where
  pub data Split : ℕ → List QueuedMessage → List QueuedMessage → List QueuedMessage → Type 0 where
    done : {taken : ℕ} → Split taken [] [] []
    stale :
        {taken : ℕ} {q r rest : List QueuedMessage} (m : QueuedMessage)
        → is_expired now m ≡ true
        → Split taken q r rest
        → Split taken (m ∷ q) r (m ∷ rest)
    late :
        {taken : ℕ} {q r rest : List QueuedMessage} (m : QueuedMessage)
        → is_full limit taken ≡ true
        → Split taken q r rest
        → Split taken (m ∷ q) r (m ∷ rest)
    next :
        {taken : ℕ} {q r rest : List QueuedMessage} (m : QueuedMessage)
        → is_expired now m ≡ false
        → is_full limit taken ≡ false
        → Split (suc taken) q r rest
        → Split taken (m ∷ q) (m ∷ r) rest

  abbrev pub SplitsTo : ℕ → List QueuedMessage → List QueuedMessage × List QueuedMessage → Type 0
  SplitsTo taken q p = Split taken q p.0 p.1

  pub split_queue-Split :
      (taken : ℕ) (q : List QueuedMessage) → SplitsTo taken q (split_queue now limit taken q)
  unfolding split_queue
  split_queue-Split taken [] = done
  split_queue-Split taken (m ∷ q) =
      if_elim (SplitsTo taken (m ∷ q)) (is_expired now m)
        (λ old. stale m old (split_queue-Split taken q))
        (λ live.
          if_elim (SplitsTo taken (m ∷ q)) (is_full limit taken)
            (λ full. late m full (split_queue-Split taken q))
            (λ room. next m live room (split_queue-Split (suc taken) q)))

  pub Split-perm :
      {taken : ℕ} {q r rest : List QueuedMessage} → Split taken q r rest → Permᴰ (r ++ rest) q
  Split-perm done = Permᴰ.nil
  Split-perm {r = r} (stale {rest = rest} m old s) =
      Permᴰ.trans (Permᴰ.middle m r rest) (Permᴰ.cons refl (Split-perm s))
  Split-perm {r = r} (late {rest = rest} m full s) =
      Permᴰ.trans (Permᴰ.middle m r rest) (Permᴰ.cons refl (Split-perm s))
  Split-perm (next m live room s) = Permᴰ.cons refl (Split-perm s)

  pub Split-live :
      {taken : ℕ} {q r rest : List QueuedMessage}
      → Split taken q r rest
      → All (λ m. is_expired now m ≡ false) r
  Split-live done = tt
  Split-live (stale m old s) = Split-live s
  Split-live (late m full s) = Split-live s
  Split-live (next m live room s) = (live, Split-live s)

  -- Nothing more is handed out at the limit.
  pub Split-full :
      {taken : ℕ} {q r rest : List QueuedMessage}
      → Split taken q r rest
      → is_full limit taken ≡ true
      → r ≡ []
  Split-full done f = refl
  Split-full (stale m old s) f = Split-full s f
  Split-full (late m full s) f = Split-full s f
  Split-full (next m live room s) f = cc

  pub Split-length :
      {taken : ℕ} {q r rest : List QueuedMessage}
      → Split taken q r rest
      → 0 < limit
      → taken ≤ limit
      → taken + length r ≤ limit
  Split-length done p h = omega arith
  Split-length (stale m old s) p h = Split-length s p h
  Split-length (late m full s) p h = Split-length s p h
  Split-length (next m live room s) p h = ground (arith, Split-length s p)

  -- What is live and stays was kept back by the limit.
  pub Split-exhausts :
      {taken : ℕ} {q r rest : List QueuedMessage}
      → Split taken q r rest
      → (limit ≡ 0) ⊎ (taken + length r < limit)
      → All (λ m. is_expired now m ≡ true) rest
  Split-exhausts done h = tt
  Split-exhausts (stale m old s) h = (old, Split-exhausts s h)
  Split-exhausts (late m full s) h = absurd (ground arith)
  Split-exhausts (next m live room s) h = Split-exhausts s (ground arith)

  pub Split-All :
      (P : QueuedMessage → Type 0) {taken : ℕ} {q r rest : List QueuedMessage}
      → Split taken q r rest
      → All P q
      → All P r × All P rest
  Split-All P done h = (tt, tt)
  Split-All P (stale m old s) h = let (a, b) = Split-All P s h.1 in (a, (h.0, b))
  Split-All P (late m full s) h = let (a, b) = Split-All P s h.1 in (a, (h.0, b))
  Split-All P (next m live room s) h = let (a, b) = Split-All P s h.1 in ((h.0, a), b)

  pub Split-IsSorted :
      {taken : ℕ} {q r rest : List QueuedMessage}
      → Split taken q r rest
      → IsSorted time q
      → IsSorted time r
  Split-IsSorted done h = tt
  Split-IsSorted (stale m old s) h = Split-IsSorted s h.1
  Split-IsSorted (late m full s) h = Split-IsSorted s h.1
  Split-IsSorted (next m live room s) h =
      ((Split-All (λ x. time m ≤ time x) s h.0).0, Split-IsSorted s h.1)

  -- No live message that stays is older than one that is handed out.
  abbrev pub IsLater : List QueuedMessage → QueuedMessage → Type 0
  IsLater r x = is_expired now x ≡ false → All (λ y. time y ≤ time x) r

  pub Split-oldest :
      {taken : ℕ} {q r rest : List QueuedMessage}
      → Split taken q r rest
      → IsSorted time q
      → All (IsLater r) rest
  Split-oldest done h = tt
  Split-oldest (stale m old s) h = ((λ live. absurd (cc (old, live))), Split-oldest s h.1)
  Split-oldest {r = r} (late m full s) h = (
    (λ live. subst (All (λ y. time y ≤ time m)) (sym (Split-full s full)) tt),
    Split-oldest s h.1,
  )
  Split-oldest (next {r = r} {rest = rest} m live room s) h =
      All-mono₂ (λ x. time m ≤ time x) (IsLater r) (IsLater (m ∷ r)) rest
        (λ x le later fresh. (le, later fresh)) (Split-All (λ x. time m ≤ time x) s h.0).1
        (Split-oldest s h.1)

  -- `Peek` shows what `Dequeue` would hand out.
  pub peek_queue-eq :
      (taken : ℕ) (q : List QueuedMessage)
      → peek_queue now limit taken q ≡ (split_queue now limit taken q).0
  unfolding peek_queue split_queue
  peek_queue-eq taken [] = refl
  peek_queue-eq taken (m ∷ q) = ground (
    arith,
    peek_queue-eq taken q,
    peek_queue-eq (suc taken) q,
    Split-full (split_queue-Split taken q),
  )
