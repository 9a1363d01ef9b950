-- ===== src/Prelude/Dict.antt =====
-- Go maps as association lists with one entry for each key. Iteration (`range`) is a walk over the
-- entries; Go leaves its order open, and so do the theorems, which hold for the entries in any order.
use Prim.Native.Nat.{ℕ, ◌+◌, ◌<◌, ◌≤◌}
use mathlib.Core.Path.{◌≡◌, refl, subst₂}
use mathlib.Core.Logic.{inl, inr}
use mathlib.Core.Option.{Option, none, some}
use mathlib.Core.List.{List, [], ◌∷◌}
use native.Mathlib.Omega.{arith}
use msg2agent.Prelude.Tests.{if◌then◌else◌, Bool-cases}
use msg2agent.Prelude.Lists.{length, is_nil}
use msg2agent.Prelude.Keys.{Eq, ◌==◌}

abbrev pub Dict : Type 0 → Type 0 → Type 0
Dict K V = List (K × V)

abbrev pub measure : {V : Type 0} → (V → ℕ) → Option V → ℕ
measure f none = 0
measure f (some v) = f v

module _ {K V : Type 0} ⦃e : Eq K⦄ where
  -- `v, ok := m[k]`
  unfoldable pub get : K → Dict K V → Option V
  get k [] = none
  get k ((j, v) ∷ m) = if j == k then some v else get k m

  -- `m[k] = v`
  unfoldable pub put : K → V → Dict K V → Dict K V
  put k v [] = (k, v) ∷ []
  put k v ((j, w) ∷ m) = if j == k then (k, v) ∷ m else (j, w) ∷ put k v m

  -- `delete(m, k)`
  unfoldable pub delete : K → Dict K V → Dict K V
  delete k [] = []
  delete k ((j, w) ∷ m) = let rest = delete k m in if j == k then rest else (j, w) ∷ rest

  pub get-put :
      (k j : K) (v : V) (m : Dict K V) → get j (put k v m) ≡ (if k == j then some v else get j m)
  unfolding get put
  get-put k j v [] = refl
  get-put k j v ((i, w) ∷ m) =
      ground (arith, e.beq_iff k j, e.beq_iff i k, e.beq_iff i j, get-put k j v m)

  pub get-delete :
      (k j : K) (m : Dict K V) → get j (delete k m) ≡ (if k == j then none else get j m)
  unfolding get delete
  get-delete k j [] = ground arith
  get-delete k j ((i, w) ∷ m) =
      ground (arith, e.beq_iff k j, e.beq_iff i k, e.beq_iff i j, get-delete k j m)

  pub get-nil : (k : K) → get k [] ≡ none
  unfolding get
  get-nil k = refl

  pub get_head : (k : K) (v : V) (m : Dict K V) → get k ((k, v) ∷ m) ≡ some v
  unfolding get
  get_head k v m = ground (arith, e.beq_iff k k)

  pub get_later :
      (k j : K) (w : V) (m : Dict K V) {v : V}
      → get k m ≡ none
      → get j m ≡ some v
      → get j ((k, w) ∷ m) ≡ some v
  unfolding get
  get_later k j w m fresh h = elim (Bool-cases (k == j)) [
    | inl same ↦ (let q : k ≡ j = (e.beq_iff k j).0 same in cc (fresh, h, q))
    | inr other ↦ rw other h
  ]

  pub get-put_self : (k : K) (v : V) (m : Dict K V) → get k (put k v m) ≡ some v
  get-put_self k v m = ground (arith, get-put k k v m, e.beq_iff k k)

  pub get-delete_self : (k : K) (m : Dict K V) → get k (delete k m) ≡ none
  get-delete_self k m = ground (arith, get-delete k k m, e.beq_iff k k)

  -- No key has two entries.
  abbrev pub IsUnique : Dict K V → Type 0
  IsUnique [] = Unit
  IsUnique ((k, v) ∷ m) = (get k m ≡ none) × IsUnique m

  pub put-IsUnique : (k : K) (v : V) (m : Dict K V) → IsUnique m → IsUnique (put k v m)
  unfolding put get
  put-IsUnique k v [] h = (refl, tt)
  put-IsUnique k v ((j, w) ∷ m) h =
      ground (arith, e.beq_iff j k, e.beq_iff k j, get-put k j v m, put-IsUnique k v m h.1)

  pub delete-IsUnique : (k : K) (m : Dict K V) → IsUnique m → IsUnique (delete k m)
  unfolding delete
  delete-IsUnique k [] h = tt
  delete-IsUnique k ((j, w) ∷ m) h = ground (arith, get-delete k j m, delete-IsUnique k m h.1)

  -- Deleting a key that is not there changes nothing.
  pub delete-absent : (k : K) (m : Dict K V) → get k m ≡ none → delete k m ≡ m
  unfolding delete get
  delete-absent k [] h = refl
  delete-absent k ((j, w) ∷ m) h = ground (arith, delete-absent k m)

  -- What holds of every value.
  module _ (P : K → V → Type 0) where
    abbrev pub AllEntries : Dict K V → Type 0
    AllEntries [] = Unit
    AllEntries ((k, v) ∷ m) = P k v × AllEntries m

  pub AllEntries-get :
      (P : K → V → Type 0) (k : K) (m : Dict K V) {v : V}
      → AllEntries P m
      → get k m ≡ some v
      → P k v
  unfolding get
  AllEntries-get P k [] h p = cc
  AllEntries-get P k ((j, w) ∷ m) {v} h p = elim (Bool-cases (j == k)) [
    | inl same ↦ (let q : w ≡ v = ground arith in subst₂ P ((e.beq_iff j k).0 same) q h.0)
    | inr other ↦ AllEntries-get P k m h.1 (ground arith)
  ]

  pub AllEntries-put :
      (P : K → V → Type 0) (k : K) (v : V) (m : Dict K V)
      → AllEntries P m
      → P k v
      → AllEntries P (put k v m)
  unfolding put
  AllEntries-put P k v [] h p = (p, tt)
  AllEntries-put P k v ((j, w) ∷ m) h p = ground (arith, AllEntries-put P k v m h.1 p)

  pub AllEntries-delete :
      (P : K → V → Type 0) (k : K) (m : Dict K V) → AllEntries P m → AllEntries P (delete k m)
  unfolding delete
  AllEntries-delete P k [] h = tt
  AllEntries-delete P k ((j, w) ∷ m) h = ground (arith, AllEntries-delete P k m h.1)

  pub AllEntries-delete-put :
      (P : K → V → Type 0) (k : K) (v : V) (m : Dict K V)
      → AllEntries P m
      → AllEntries P (delete k (put k v m))
  unfolding put delete
  AllEntries-delete-put P k v [] h = ground (arith, e.beq_iff k k)
  AllEntries-delete-put P k v ((j, w) ∷ m) h = ground (
    arith,
    e.beq_iff j k,
    e.beq_iff k k,
    AllEntries-delete-put P k v m h.1,
    AllEntries-delete P k m h.1,
  )

  pub AllEntries-mono :
      (P Q : K → V → Type 0) (m : Dict K V)
      → ((k : K) (v : V) → P k v → Q k v)
      → AllEntries P m
      → AllEntries Q m
  AllEntries-mono P Q [] f h = tt
  AllEntries-mono P Q ((k, v) ∷ m) f h = (f k v h.0, AllEntries-mono P Q m f h.1)

  -- Every entry of a map is what a lookup of its key finds.
  pub AllEntries-get_self : (m : Dict K V) → IsUnique m → AllEntries (λ k v. get k m ≡ some v) m
  AllEntries-get_self [] u = tt
  AllEntries-get_self ((k, v) ∷ m) u = (
    get_head k v m,
    AllEntries-mono (λ j w. get j m ≡ some w) (λ j w. get j ((k, v) ∷ m) ≡ some w) m
        (λ j w h. get_later k j v m u.0 h) (AllEntries-get_self m u.1),
  )

  -- The sum of a measure of the values.
  unfoldable pub total : (V → ℕ) → Dict K V → ℕ
  total f [] = 0
  total f ((k, v) ∷ m) = f v + total f m

  pub measure-get-le-total : (f : V → ℕ) (k : K) (m : Dict K V) → measure f (get k m) ≤ total f m
  unfolding total get
  measure-get-le-total f k [] = omega arith
  measure-get-le-total f k ((j, w) ∷ m) = ground (arith, measure-get-le-total f k m)

  pub total-put :
      (f : V → ℕ) (k : K) (v : V) (m : Dict K V)
      → total f (put k v m) + measure f (get k m) ≡ total f m + f v
  unfolding total put get
  total-put f k v [] = omega arith
  total-put f k v ((j, w) ∷ m) = ground (arith, total-put f k v m)

  pub total-delete :
      (f : V → ℕ) (k : K) (m : Dict K V)
      → IsUnique m
      → total f (delete k m) + measure f (get k m) ≡ total f m
  unfolding total delete get
  total-delete f k [] h = omega arith
  total-delete f k ((j, w) ∷ m) h =
      ground (arith, e.beq_iff j k, total-delete f k m h.1, delete-absent k m)

-- A map to slices: a missing key reads as the nil slice, and the code deletes a key whose slice has
-- become empty.
module _ {K A : Type 0} ⦃e : Eq K⦄ where
  unfoldable pub slice_at : K → Dict K (List A) → List A
  slice_at k m = elim (get k m) [ none ↦ [] | some xs ↦ xs ]

  -- `m[k] = xs; if len(m[k]) == 0 { delete(m, k) }`
  unfoldable pub set_slice : K → List A → Dict K (List A) → Dict K (List A)
  set_slice k xs m = let m' = put k xs m in if is_nil xs then delete k m' else m'

  pub slice_at_of_some :
      (k : K) (m : Dict K (List A)) {xs : List A} → get k m ≡ some xs → slice_at k m ≡ xs
  unfolding slice_at
  slice_at_of_some k m h = ground arith

  pub slice_at_of_none : (k : K) (m : Dict K (List A)) → get k m ≡ none → slice_at k m ≡ []
  unfolding slice_at
  slice_at_of_none k m h = ground arith

  pub slice_at-put :
      (k j : K) (xs : List A) (m : Dict K (List A))
      → slice_at j (put k xs m) ≡ (if k == j then xs else slice_at j m)
  unfolding slice_at
  slice_at-put k j xs m = ground (arith, get-put k j xs m)

  pub slice_at-set_slice :
      (k j : K) (xs : List A) (m : Dict K (List A))
      → slice_at j (set_slice k xs m) ≡ (if k == j then xs else slice_at j m)
  unfolding slice_at set_slice
  slice_at-set_slice k j [] m = ground (arith, get-delete k j (put k [] m), get-put k j [] m)
  slice_at-set_slice k j (x ∷ xs) m = ground (arith, get-put k j (x ∷ xs) m)

  pub set_slice-IsUnique :
      (k : K) (xs : List A) (m : Dict K (List A)) → IsUnique m → IsUnique (set_slice k xs m)
  unfolding set_slice
  set_slice-IsUnique k [] m h = delete-IsUnique k (put k [] m) (put-IsUnique k [] m h)
  set_slice-IsUnique k (x ∷ xs) m h = put-IsUnique k (x ∷ xs) m h

  pub measure-slice_at :
      (k : K) (m : Dict K (List A)) → measure length (get k m) ≡ length (slice_at k m)
  unfolding slice_at
  measure-slice_at k m = ground arith

  pub length-slice_at-le-total :
      (k : K) (m : Dict K (List A)) → length (slice_at k m) ≤ total length m
  length-slice_at-le-total k m =
      omega (arith, measure-slice_at k m, measure-get-le-total length k m)

  pub total-set_slice :
      (k : K) (xs : List A) (m : Dict K (List A))
      → IsUnique m
      → total length (set_slice k xs m) + length (slice_at k m) ≡ total length m + length xs
  unfolding set_slice
  total-set_slice k [] m h = ground (
    arith,
    total-put length k [] m,
    total-delete length k (put k [] m) (put-IsUnique k [] m h),
    get-put_self k [] m,
    measure-slice_at k m,
  )
  total-set_slice k (x ∷ xs) m h =
      ground (arith, total-put length k (x ∷ xs) m, measure-slice_at k m)

  -- A stored slice is nonempty, so `P` is owed for nonempty slices only.
  pub AllEntries-set_slice :
      (P : K → List A → Type 0) (k : K) (xs : List A) (m : Dict K (List A))
      → AllEntries P m
      → (0 < length xs → P k xs)
      → AllEntries P (set_slice k xs m)
  unfolding set_slice
  AllEntries-set_slice P k [] m h p = AllEntries-delete-put P k [] m h
  AllEntries-set_slice P k (x ∷ xs) m h p = AllEntries-put P k (x ∷ xs) m h (p (omega arith))
