-- ===== src/Prelude/Strings.antt =====
-- The functions of Go's `strings` that the program uses, on byte strings.
use Prim.Native.Nat.{ℕ}
use mathlib.Core.Path.{◌≡◌, refl}
use mathlib.Core.Bool.{Bool, true, false, ◌&&◌, ◌||◌}
use mathlib.Core.List.{[], ◌∷◌, ◌++◌}
use native.Mathlib.Omega.{arith}
use msg2agent.Prelude.Tests.{nat_beq, nat_beq_iff, if◌then◌else◌}
use msg2agent.Prelude.Lists.{is_nil}
use msg2agent.Prelude.Keys.{Text, text_beq, text_beq_iff}

-- `strings.HasPrefix(s, p)`
unfoldable pub has_prefix : Text → Text → Bool
has_prefix s [] = true
has_prefix [] (c ∷ p) = false
has_prefix (b ∷ s) (c ∷ p) = nat_beq b c && has_prefix s p

-- `strings.HasSuffix(s, t)`
unfoldable pub has_suffix : Text → Text → Bool
has_suffix [] t = is_nil t
has_suffix (b ∷ s) t = text_beq (b ∷ s) t || has_suffix s t

-- `strings.TrimSuffix(s, t)`
unfoldable pub trim_suffix : Text → Text → Text
trim_suffix [] t = []
trim_suffix (b ∷ s) t = let rest = trim_suffix s t in if text_beq (b ∷ s) t then [] else b ∷ rest

pub has_prefix-append : (p r : Text) → has_prefix (p ++ r) p ≡ true
unfolding has_prefix
has_prefix-append [] r = refl
has_prefix-append (c ∷ p) r = ground (arith, has_prefix-append p r)

pub has_prefix-split : (s p : Text) → has_prefix s p ≡ true → (r : Text) × (s ≡ p ++ r)
unfolding has_prefix
has_prefix-split s [] h = (s, refl)
has_prefix-split [] (c ∷ p) h = cc
has_prefix-split (b ∷ s) (c ∷ p) h =
    let (r, e) = has_prefix-split s p (ground arith) in (r, ground (arith, nat_beq_iff b c))

is_nil-eq : (t : Text) → is_nil t ≡ true → t ≡ []
is_nil-eq [] h = refl
is_nil-eq (c ∷ t) h = cc

-- A string with the suffix is what trimming leaves, and the suffix.
pub trim_suffix-append : (s t : Text) → has_suffix s t ≡ true → trim_suffix s t ++ t ≡ s
unfolding has_suffix trim_suffix
trim_suffix-append [] t h = is_nil-eq t h
trim_suffix-append (b ∷ s) t h = ground (arith, text_beq_iff (b ∷ s) t, trim_suffix-append s t)

text_beq_refl : (t : Text) → text_beq t t ≡ true
text_beq_refl t = (text_beq_iff t t).1 refl

pub has_suffix-append : (p t : Text) → has_suffix (p ++ t) t ≡ true
unfolding has_suffix
has_suffix-append [] [] = refl
has_suffix-append [] (c ∷ t) = ground (arith, text_beq_refl (c ∷ t))
has_suffix-append (b ∷ p) t = ground (arith, has_suffix-append p t)

-- A suffix of one byte is trimmed from behind it.
pub trim_suffix-snoc : (p : Text) (c : ℕ) → trim_suffix (p ++ c ∷ []) (c ∷ []) ≡ p
unfolding trim_suffix
trim_suffix-snoc [] c = ground (arith, text_beq_refl (c ∷ []))
trim_suffix-snoc (b ∷ []) c = ground (arith, trim_suffix-snoc [] c)
trim_suffix-snoc (b ∷ d ∷ p) c = ground (arith, trim_suffix-snoc (d ∷ p) c)
