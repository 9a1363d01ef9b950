-- ===== src/Prelude/Lists.antt =====
-- Lists measured by native numbers under the library's names, and predicates over them.
use Prim.Native.Nat.{ℕ, zero, suc, ◌+◌, ◌≤◌, min}
use mathlib.Core.Path.{◌≡◌, refl, ap, subst}
use mathlib.Core.Bool.{Bool, true, false}
use mathlib.Core.Option.{Option, none, some}
use mathlib.Core.List.{List, [], ◌∷◌, ◌++◌}
use native.Mathlib.Omega.{arith}

module _ {ℓ} {A : Type ℓ} where
  abbrev pub length : List A → ℕ
  length [] = 0
  length (x ∷ xs) = suc (length xs)

  -- `len(xs) == 0`
  abbrev pub is_nil : List A → Bool
  is_nil [] = true
  is_nil (x ∷ xs) = false

  -- `slices.Delete(xs, i, i+1)`
  abbrev pub remove_at : ℕ → List A → List A
  remove_at i [] = []
  remove_at zero (x ∷ xs) = xs
  remove_at (suc i) (x ∷ xs) = x ∷ remove_at i xs

  abbrev pub get_elem? : List A → ℕ → Option A
  get_elem? [] i = none
  get_elem? (x ∷ xs) zero = some x
  get_elem? (x ∷ xs) (suc i) = get_elem? xs i

  abbrev pub set : List A → ℕ → A → List A
  set [] i v = []
  set (x ∷ xs) zero v = v ∷ xs
  set (x ∷ xs) (suc i) v = x ∷ set xs i v

  abbrev pub take : ℕ → List A → List A
  take zero xs = []
  take (suc n) [] = []
  take (suc n) (x ∷ xs) = x ∷ take n xs

  abbrev pub drop : ℕ → List A → List A
  drop zero xs = xs
  drop (suc n) [] = []
  drop (suc n) (x ∷ xs) = drop n xs

  -- The elements that pass a Boolean test, in order.
  abbrev pub keep : (A → Bool) → List A → List A
  keep p [] = []
  keep p (x ∷ xs) = let rest = keep p xs in elim (p x) [ true ↦ x ∷ rest | false ↦ rest ]

  pub length-append : (xs ys : List A) → length (xs ++ ys) ≡ length xs + length ys
  length-append [] ys = omega arith
  length-append (x ∷ xs) ys = omega (arith, length-append xs ys)

  pub length-remove_at :
      (i : ℕ) (xs : List A) {x : A}
      → get_elem? xs i ≡ some x
      → length (remove_at i xs) + 1 ≡ length xs
  length-remove_at i [] h = cc
  length-remove_at zero (x ∷ xs) h = omega arith
  length-remove_at (suc i) (x ∷ xs) h = omega (arith, length-remove_at i xs h)

  pub length-remove_at-le : (i : ℕ) (xs : List A) → length (remove_at i xs) ≤ length xs
  length-remove_at-le i [] = omega arith
  length-remove_at-le zero (x ∷ xs) = omega arith
  length-remove_at-le (suc i) (x ∷ xs) = omega (arith, length-remove_at-le i xs)

  pub drop-cons :
      (i : ℕ) (xs : List A) {x : A} {rest : List A}
      → drop i xs ≡ x ∷ rest
      → (get_elem? xs i ≡ some x) × (drop (suc i) xs ≡ rest)
  drop-cons zero [] h = cc
  drop-cons zero (y ∷ xs) h = (cc, cc)
  drop-cons (suc i) [] h = cc
  drop-cons (suc i) (y ∷ xs) h = drop-cons i xs h

  pub length-set : (xs : List A) (i : ℕ) (v : A) → length (set xs i v) ≡ length xs
  length-set [] i v = refl
  length-set (x ∷ xs) zero v = refl
  length-set (x ∷ xs) (suc i) v = ap suc (length-set xs i v)

  pub length-take : (n : ℕ) (xs : List A) → length (take n xs) ≡ min n (length xs)
  length-take zero xs = omega arith
  length-take (suc n) [] = omega arith
  length-take (suc n) (x ∷ xs) = omega (arith, length-take n xs)

  pub length-keep-le : (p : A → Bool) (xs : List A) → length (keep p xs) ≤ length xs
  length-keep-le p [] = omega arith
  length-keep-le p (x ∷ xs) = ground (arith, length-keep-le p xs)

-- A predicate by recursion computes to tuples, which the tactics read and build.
module _ {ℓ κ} {A : Type ℓ} (P : A → Type κ) where
  abbrev pub All : List A → Type κ
  All [] = Unit
  All (x ∷ xs) = P x × All xs

module _ {ℓ κ} {A : Type ℓ} (P : A → Type κ) where
  pub All-append : (xs ys : List A) → All P xs → All P ys → All P (xs ++ ys)
  All-append [] ys hx hy = hy
  All-append (x ∷ xs) ys hx hy = (hx.0, All-append xs ys hx.1 hy)

  pub All-remove_at : (i : ℕ) (xs : List A) → All P xs → All P (remove_at i xs)
  All-remove_at i [] h = tt
  All-remove_at zero (x ∷ xs) h = h.1
  All-remove_at (suc i) (x ∷ xs) h = (h.0, All-remove_at i xs h.1)

  pub All-set : (xs : List A) (i : ℕ) (v : A) → All P xs → P v → All P (set xs i v)
  All-set [] i v h p = tt
  All-set (x ∷ xs) zero v h p = (p, h.1)
  All-set (x ∷ xs) (suc i) v h p = (h.0, All-set xs i v h.1 p)

  pub All-get_elem? : (xs : List A) (i : ℕ) {x : A} → All P xs → get_elem? xs i ≡ some x → P x
  All-get_elem? [] i h e = cc
  All-get_elem? (y ∷ xs) zero {x} h e = let q : y ≡ x = ground arith in subst P q h.0
  All-get_elem? (x ∷ xs) (suc i) h e = All-get_elem? xs i h.1 e

  pub All-keep : (p : A → Bool) (xs : List A) → All P xs → All P (keep p xs)
  All-keep p [] h = tt
  All-keep p (x ∷ xs) h = ground (arith, All-keep p xs h.1)

pub All-mono {ℓ κ} :
    {A : Type ℓ} (P Q : A → Type κ) (xs : List A) → ((x : A) → P x → Q x) → All P xs → All Q xs
All-mono P Q [] f h = tt
All-mono P Q (x ∷ xs) f h = (f x h.0, All-mono P Q xs f h.1)

pub All-mono₂ {ℓ κ} :
    {A : Type ℓ} (P Q R : A → Type κ) (xs : List A)
    → ((x : A) → P x → Q x → R x)
    → All P xs
    → All Q xs
    → All R xs
All-mono₂ P Q R [] f h k = tt
All-mono₂ P Q R (x ∷ xs) f h k = (f x h.0 k.0, All-mono₂ P Q R xs f h.1 k.1)
