-- ===== src/Prelude/Occurs.antt =====
-- How often a value occurs in a slice, and the slice without its first occurrence.
use Prim.Native.Nat.{ℕ, ◌+◌, ◌-◌, ◌<◌}
use mathlib.Core.Path.{◌≡◌, refl}
use mathlib.Core.Bool.{Bool, true, false}
use mathlib.Core.List.{List, [], ◌∷◌, ◌++◌}
use native.Mathlib.Omega.{arith}
use msg2agent.Prelude.Tests.{if◌then◌else◌, ltb}
use msg2agent.Prelude.Lists.{length}
use msg2agent.Prelude.Keys.{Eq, ◌==◌}
use msg2agent.Prelude.Dict.{Dict, put, slice_at, slice_at-put}

module _ {A : Type 0} ⦃e : Eq A⦄ where
  -- `slices.Contains(xs, x)`
  unfoldable pub contains : A → List A → Bool
  contains x [] = false
  contains x (y ∷ ys) = let later = contains x ys in if y == x then true else later

  unfoldable pub occurs : A → List A → ℕ
  occurs x [] = 0
  occurs x (y ∷ ys) = (if y == x then 1 else 0) + occurs x ys

  -- `for i, y := range xs { if y == x { xs = slices.Delete(xs, i, i+1); break } }`
  unfoldable pub remove_first : A → List A → List A
  remove_first x [] = []
  remove_first x (y ∷ ys) = let later = remove_first x ys in if y == x then ys else y ∷ later

  pub contains-occurs : (x : A) (xs : List A) → contains x xs ≡ ltb 0 (occurs x xs)
  unfolding contains occurs
  contains-occurs x [] = refl
  contains-occurs x (y ∷ ys) = ground (arith, contains-occurs x ys)

  pub occurs-append : (x : A) (xs ys : List A) → occurs x (xs ++ ys) ≡ occurs x xs + occurs x ys
  unfolding occurs
  occurs-append x [] ys = omega arith
  occurs-append x (y ∷ xs) ys = omega (arith, occurs-append x xs ys)

  pub occurs-remove_first :
      (x z : A) (xs : List A)
      → occurs z (remove_first x xs) ≡ occurs z xs - (if x == z then 1 else 0)
  unfolding occurs remove_first
  occurs-remove_first x z [] = ground arith
  occurs-remove_first x z (y ∷ ys) =
      ground (arith, e.beq_iff y x, e.beq_iff y z, e.beq_iff x z, occurs-remove_first x z ys)

  pub length-remove_first :
      (x : A) (xs : List A) → 0 < occurs x xs → length (remove_first x xs) + 1 ≡ length xs
  unfolding occurs remove_first
  length-remove_first x [] h = ground arith
  length-remove_first x (y ∷ ys) h = ground (arith, length-remove_first x ys)

  -- A value that does not occur: nothing is removed.
  pub remove_first-absent : (x : A) (xs : List A) → contains x xs ≡ false → remove_first x xs ≡ xs
  unfolding contains remove_first
  remove_first-absent x [] h = refl
  remove_first-absent x (y ∷ ys) h = ground (arith, remove_first-absent x ys)

-- A map to slices, of which one grows or shrinks by a value.
module _ {K A : Type 0} ⦃k : Eq K⦄ ⦃a : Eq A⦄ where
  -- `m[k] = append(m[k], x)`
  unfoldable pub append_to : K → A → Dict K (List A) → Dict K (List A)
  append_to j x m = put j (slice_at j m ++ x ∷ []) m

  -- `m[k]` without the first `x`, if it has one; its key stays.
  unfoldable pub remove_from : K → A → Dict K (List A) → Dict K (List A)
  remove_from j x m =
      if contains x (slice_at j m) then put j (remove_first x (slice_at j m)) m else m

  pub slice_at-append_to :
      (j i : K) (x : A) (m : Dict K (List A))
      → slice_at i (append_to j x m) ≡ (if j == i then slice_at j m ++ x ∷ [] else slice_at i m)
  unfolding append_to
  slice_at-append_to j i x m = slice_at-put j i (slice_at j m ++ x ∷ []) m

  pub slice_at-remove_from :
      (j i : K) (x : A) (m : Dict K (List A))
      → slice_at i (remove_from j x m)
        ≡ (if j == i then remove_first x (slice_at j m) else slice_at i m)
  unfolding remove_from
  slice_at-remove_from j i x m = ground (
    arith,
    slice_at-put j i (remove_first x (slice_at j m)) m,
    remove_first-absent x (slice_at j m),
    k.beq_iff j i,
  )

  pub occurs-append_to :
      (j i : K) (x z : A) (m : Dict K (List A))
      → occurs z (slice_at i (append_to j x m))
        ≡ occurs z (slice_at i m) + (if j == i then if x == z then 1 else 0 else 0)
  unfolding occurs
  occurs-append_to j i x z m =
      ground
        (arith, slice_at-append_to j i x m, occurs-append z (slice_at j m) (x ∷ []), k.beq_iff j i)

  pub occurs-remove_from :
      (j i : K) (x z : A) (m : Dict K (List A))
      → occurs z (slice_at i (remove_from j x m))
        ≡ occurs z (slice_at i m) - (if j == i then if x == z then 1 else 0 else 0)
  occurs-remove_from j i x z m =
      ground
        (arith, slice_at-remove_from j i x m, occurs-remove_first x z (slice_at j m), k.beq_iff j i)
