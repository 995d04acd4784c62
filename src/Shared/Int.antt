-- ===== src/Shared/Int.antt =====
-- The integers that the code uses as numbers below zero: -1 for "not found", JSON-RPC codes, and bounds
-- of ranges. Sums and orders go through the two parts of an integer.
use Prim.Native.Nat.{ℕ, suc, ◌+◌, ◌-◌}
use mathlib.Core.Path.{◌≡◌}
use mathlib.Core.Logic.{◌↔◌}
use mathlib.Core.Bool.{Bool, true, false}
use mathlib.Core.List.{List, [], ◌∷◌}
use mathlib.Core.Bool.{◌||◌}
use native.Mathlib.Omega.{arith}
use lidofinance_lido_council.Shared.Tests.{◌==◌, ltb, leb, if◌then◌else◌}

-- `negsuc n` is -(n + 1).
pub data ℤ : Type 0 where
  pos : ℕ → ℤ
  negsuc : ℕ → ℤ

abbrev pub int_eq : ℤ → ℤ → Bool
int_eq (pos a) (pos b) = a == b
int_eq (negsuc a) (negsuc b) = a == b
int_eq (pos a) (negsuc b) = false
int_eq (negsuc a) (pos b) = false

pub int_eq_iff : (a b : ℤ) → (int_eq a b ≡ true) ↔ (a ≡ b)
int_eq_iff (pos a) (pos b) = ground arith
int_eq_iff (negsuc a) (negsuc b) = ground arith
int_eq_iff (pos a) (negsuc b) = ground arith
int_eq_iff (negsuc a) (pos b) = ground arith

-- `xs.includes(a)`
abbrev pub includes : List ℤ → ℤ → Bool
includes [] a = false
includes (x ∷ xs) a = int_eq x a || includes xs a

abbrev pub pos_part : ℤ → ℕ
pos_part (pos n) = n
pos_part (negsuc n) = 0

abbrev pub neg_part : ℤ → ℕ
neg_part (pos n) = 0
neg_part (negsuc n) = suc n

abbrev sub_ℕ : ℕ → ℕ → ℤ
sub_ℕ a b = if leb b a then pos (a - b) else negsuc (b - a - 1)

infixl 65 ◌+ℤ◌ ◌-ℤ◌
unfoldable pub ◌+ℤ◌ : ℤ → ℤ → ℤ
a +ℤ b = sub_ℕ (pos_part a + pos_part b) (neg_part a + neg_part b)

unfoldable pub ◌-ℤ◌ : ℤ → ℤ → ℤ
a -ℤ b = sub_ℕ (pos_part a + neg_part b) (neg_part a + pos_part b)

abbrev pub ltb_ℤ : ℤ → ℤ → Bool
ltb_ℤ a b = ltb (pos_part a + neg_part b) (pos_part b + neg_part a)

-- Numbers counted from an integer on
pub +ℤ-pos : (z : ℤ) (a b : ℕ) → z +ℤ pos a +ℤ pos b ≡ z +ℤ pos (a + b)
unfolding ◌+ℤ◌
+ℤ-pos z a b = ground arith

pub +ℤ-zero : (z : ℤ) → z +ℤ pos 0 ≡ z
unfolding ◌+ℤ◌
+ℤ-zero z = ground arith

pub ltb_ℤ-+ℤ : (z : ℤ) (a b : ℕ) → ltb_ℤ (z +ℤ pos a) (z +ℤ pos b) ≡ ltb a b
unfolding ◌+ℤ◌
ltb_ℤ-+ℤ z a b = ground arith

pub pos_part--ℤ : (z : ℤ) (a b : ℕ) → pos_part (z +ℤ pos b -ℤ (z +ℤ pos a)) ≡ b - a
unfolding ◌+ℤ◌ ◌-ℤ◌
pos_part--ℤ z a b = ground arith

pub ltb_ℤ--ℤ : (z : ℤ) (a b : ℕ) → ltb_ℤ (z +ℤ pos a -ℤ (z +ℤ pos b)) (pos 0) ≡ ltb a b
unfolding ◌+ℤ◌ ◌-ℤ◌
ltb_ℤ--ℤ z a b = ground arith
