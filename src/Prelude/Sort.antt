-- ===== src/Prelude/Sort.antt =====
-- Sorting by a numeric key. `slices.SortFunc` orders by the key and leaves the order of equal keys
-- open, so a client takes any `SortFunc`; `insertion_sort` is one.
use Prim.Native.Nat.{ℕ, ◌≤◌}
use mathlib.Core.Path.{◌≡◌, refl, subst}
use mathlib.Core.List.{List, [], ◌∷◌, Permᴰ}
use mathlib.Core.List.Permᴰ
use native.Mathlib.Omega.{arith}
use msg2agent.Prelude.Tests.{leb, if◌then◌else◌, if_elim}
use msg2agent.Prelude.Lists.{length, All, All-mono}

module _ {A : Type 0} where
  pub length-perm : {xs ys : List A} → Permᴰ xs ys → length xs ≡ length ys
  length-perm Permᴰ.nil = refl
  length-perm (Permᴰ.cons e p) = omega (arith, length-perm p)
  length-perm (Permᴰ.swap e f) = refl
  length-perm (Permᴰ.trans p q) = omega (arith, length-perm p, length-perm q)

  pub All-perm : (P : A → Type 0) {xs ys : List A} → Permᴰ xs ys → All P xs → All P ys
  All-perm P Permᴰ.nil h = tt
  All-perm P (Permᴰ.cons e p) h = (subst P e h.0, All-perm P p h.1)
  All-perm P (Permᴰ.swap e f) h = (subst P f h.1.0, (subst P e h.0, h.1.1))
  All-perm P (Permᴰ.trans p q) h = All-perm P q (All-perm P p h)

module _ {A : Type 0} (key : A → ℕ) where
  abbrev pub IsSorted : List A → Type 0
  IsSorted [] = Unit
  IsSorted (x ∷ xs) = All (λ y. key x ≤ key y) xs × IsSorted xs

  pub record SortFunc : Type 0 where
    pub sort : List A → List A
    pub perm : (xs : List A) → Permᴰ (sort xs) xs
    pub sorted : (xs : List A) → IsSorted (sort xs)

  unfoldable pub insert_sorted : A → List A → List A
  insert_sorted x [] = x ∷ []
  insert_sorted x (y ∷ ys) =
      let rest = insert_sorted x ys in if leb (key x) (key y) then x ∷ y ∷ ys else y ∷ rest

  unfoldable pub insertion_sort : List A → List A
  unfolding insert_sorted
  insertion_sort [] = []
  insertion_sort (x ∷ xs) = insert_sorted x (insertion_sort xs)

  insert_sorted-perm : (x : A) (ys : List A) → Permᴰ (insert_sorted x ys) (x ∷ ys)
  unfolding insert_sorted
  insert_sorted-perm x [] = Permᴰ.refl (x ∷ [])
  insert_sorted-perm x (y ∷ ys) =
      if_elim (λ l. Permᴰ l (x ∷ y ∷ ys)) (leb (key x) (key y)) (λ _. Permᴰ.refl (x ∷ y ∷ ys))
        (λ _. Permᴰ.trans (Permᴰ.cons refl (insert_sorted-perm x ys)) (Permᴰ.swap refl refl))

  pub insertion_sort-perm : (xs : List A) → Permᴰ (insertion_sort xs) xs
  unfolding insertion_sort
  insertion_sort-perm [] = Permᴰ.nil
  insertion_sort-perm (x ∷ xs) =
      Permᴰ.trans (insert_sorted-perm x (insertion_sort xs))
        (Permᴰ.cons refl (insertion_sort-perm xs))

  insert_sorted-IsSorted : (x : A) (ys : List A) → IsSorted ys → IsSorted (insert_sorted x ys)
  unfolding insert_sorted
  insert_sorted-IsSorted x [] h = (tt, tt)
  insert_sorted-IsSorted x (y ∷ ys) h =
      if_elim IsSorted (leb (key x) (key y))
        (λ le. (
          (
            ground arith,
            All-mono (λ z. key y ≤ key z) (λ z. key x ≤ key z) ys (λ z k. ground arith) h.0,
          ),
          h,
        ))
        (λ gt. (
          All-perm (λ z. key y ≤ key z) (Permᴰ.symm (insert_sorted-perm x ys)) (ground arith, h.0),
          insert_sorted-IsSorted x ys h.1,
        ))

  pub insertion_sort-IsSorted : (xs : List A) → IsSorted (insertion_sort xs)
  unfolding insertion_sort
  insertion_sort-IsSorted [] = tt
  insertion_sort-IsSorted (x ∷ xs) =
      insert_sorted-IsSorted x (insertion_sort xs) (insertion_sort-IsSorted xs)

  abbrev pub by_insertion : SortFunc
  by_insertion = record {
    sort = insertion_sort;
    perm = insertion_sort-perm;
    sorted = insertion_sort-IsSorted;
  }
