-- ===== src/Base/Int.antt =====
-- Go's `int` and `int64`: integers over the native numbers, and 64-bit arithmetic that wraps.
-- `+ℤ` and `-ℤ` are exact; `sub_int` is the machine's subtraction.
use Prim.Native.Nat.{ℕ, suc, ◌+◌, ◌-◌, ◌^◌, ◌≤◌, ◌<◌}
use mathlib.Core.Path.{◌≡◌}
use mathlib.Core.Bool.{Bool, false}
use native.Mathlib.Omega.{arith}
use pet.Base.Tests.{ltb, leb, ◌==◌, if◌then◌else◌}

-- `negsuc n` is -(n + 1).
pub data ℤ : Type 0 where
  pos : ℕ → ℤ
  negsuc : ℕ → ℤ

abbrev pub pos_part : ℤ → ℕ
pos_part (pos n) = n
pos_part (negsuc n) = 0

abbrev pub neg_part : ℤ → ℕ
neg_part (pos n) = 0
neg_part (negsuc n) = suc n

-- a - b, as an integer.
abbrev pub sub_ℕ : ℕ → ℕ → ℤ
sub_ℕ a b = if leb b a then pos (a - b) else negsuc (b - a - 1)

infixl 65 ◌+ℤ◌ ◌-ℤ◌
infix 50 ◌≤ℤ◌ ◌<ℤ◌
unfoldable pub ◌+ℤ◌ : ℤ → ℤ → ℤ
a +ℤ b = sub_ℕ (pos_part a + pos_part b) (neg_part a + neg_part b)

unfoldable pub ◌-ℤ◌ : ℤ → ℤ → ℤ
a -ℤ b = sub_ℕ (pos_part a + neg_part b) (neg_part a + pos_part b)

abbrev pub ◌≤ℤ◌ : ℤ → ℤ → Type 0
a ≤ℤ b = pos_part a + neg_part b ≤ pos_part b + neg_part a

abbrev pub ◌<ℤ◌ : ℤ → ℤ → Type 0
a <ℤ b = pos_part a + neg_part b < pos_part b + neg_part a

abbrev pub ltb_ℤ : ℤ → ℤ → Bool
ltb_ℤ a b = ltb (pos_part a + neg_part b) (pos_part b + neg_part a)

abbrev pub leb_ℤ : ℤ → ℤ → Bool
leb_ℤ a b = leb (pos_part a + neg_part b) (pos_part b + neg_part a)

abbrev pub eqb_ℤ : ℤ → ℤ → Bool
eqb_ℤ (pos a) (pos b) = a == b
eqb_ℤ (negsuc a) (negsuc b) = a == b
eqb_ℤ _ _ = false

pub +ℤ_parts :
    (a b : ℤ)
    → pos_part (a +ℤ b) + neg_part a + neg_part b ≡ neg_part (a +ℤ b) + pos_part a + pos_part b
unfolding ◌+ℤ◌
+ℤ_parts a b = ground arith

pub -ℤ_parts :
    (a b : ℤ)
    → pos_part (a -ℤ b) + neg_part a + pos_part b ≡ neg_part (a -ℤ b) + pos_part a + neg_part b
unfolding ◌-ℤ◌
-ℤ_parts a b = ground arith

pub eq_of_parts : (a b : ℤ) → pos_part a + neg_part b ≡ pos_part b + neg_part a → a ≡ b
eq_of_parts a b h = ground arith

pub ruleset int_laws = (arith, +ℤ_parts, -ℤ_parts, eq_of_parts)

-- The values of a 64-bit int.
abbrev pub IsInt : ℤ → Type 0
IsInt z = (pos_part z < 2 ^ 63) × (neg_part z ≤ 2 ^ 63)

-- One wrap brings the exact sum or difference of two ints back into range.
wrap : ℤ → ℤ
wrap z =
    if leb (2 ^ 63) (pos_part z)
    then z -ℤ pos (2 ^ 64)
    else if ltb (2 ^ 63) (neg_part z)
    then z +ℤ pos (2 ^ 64)
    else z

unfoldable pub sub_int : ℤ → ℤ → ℤ
unfolding wrap ◌+ℤ◌ ◌-ℤ◌
sub_int a b = wrap (a -ℤ b)

pub sub_int-IsInt : (a b : ℤ) → IsInt a → IsInt b → IsInt (sub_int a b)
unfolding sub_int
sub_int-IsInt a b ha hb = ground arith

-- Two ints of which neither is negative have a difference in range.
pub sub_int_exact : (a b : ℤ) → IsInt a → IsInt b → pos 0 ≤ℤ a → pos 0 ≤ℤ b → sub_int a b ≡ a -ℤ b
unfolding sub_int
sub_int_exact a b ha hb pa pb = ground arith

-- The same for `omega`, with the subtraction shut.
pub sub_int_parts :
    (a b : ℤ)
    → IsInt a
    → IsInt b
    → pos 0 ≤ℤ a
    → pos 0 ≤ℤ b
    → pos_part (sub_int a b) + neg_part a + pos_part b
      ≡ neg_part (sub_int a b) + pos_part a + neg_part b
unfolding sub_int
sub_int_parts a b ha hb pa pb = ground arith
