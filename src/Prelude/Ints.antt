-- ===== src/Prelude/Ints.antt =====
-- Go's `int` where it is counted up and down, over the native numbers. Overflow is out of reach: a
-- counter of stored values stays far below 2^63.
use Prim.Native.Nat.{ℕ, zero, suc, ◌+◌, ◌-◌}
use mathlib.Core.Path.{◌≡◌, refl, ap}
use mathlib.Core.Bool.{Bool, false}
use native.Mathlib.Omega.{arith}
use msg2agent.Prelude.Tests.{ltb, leb, if◌then◌else◌}

pub data ℤ : Type 0 where
  pos negsuc : ℕ → ℤ

-- `n++`
unfoldable pub increment : ℤ → ℤ
increment (pos n) = pos (suc n)
increment (negsuc zero) = pos 0
increment (negsuc (suc n)) = negsuc n

-- `n--`
unfoldable pub decrement : ℤ → ℤ
decrement (pos zero) = negsuc 0
decrement (pos (suc n)) = pos n
decrement (negsuc n) = negsuc (suc n)

pub decrement-increment : (n : ℤ) → decrement (increment n) ≡ n
unfolding decrement increment
decrement-increment (pos n) = refl
decrement-increment (negsuc zero) = refl
decrement-increment (negsuc (suc n)) = refl

pub increment-pos : (n : ℤ) (k : ℕ) → n ≡ pos k → increment n ≡ pos (suc k)
unfolding increment
increment-pos n k h = ap (λ m. increment m) h

pub decrement-pos : (n : ℤ) (k : ℕ) → n ≡ pos (suc k) → decrement n ≡ pos k
unfolding decrement
decrement-pos n k h = ap (λ m. decrement m) h

-- `n + d` and `n - d` for a count `d` that is not negative.
unfoldable pub add : ℕ → ℤ → ℤ
add d (pos n) = pos (n + d)
add d (negsuc n) = if ltb n d then pos (d - suc n) else negsuc (n - d)

unfoldable pub sub : ℕ → ℤ → ℤ
sub d (pos n) = if leb d n then pos (n - d) else negsuc (d - suc n)
sub d (negsuc n) = negsuc (n + d)

-- `n > limit`
unfoldable pub exceeds : ℤ → ℕ → Bool
exceeds (pos n) limit = ltb limit n
exceeds (negsuc n) limit = false

pub sub-add : (d : ℕ) (n : ℤ) → sub d (add d n) ≡ n
unfolding sub add
sub-add d (pos n) = ground arith
sub-add d (negsuc n) = ground arith
