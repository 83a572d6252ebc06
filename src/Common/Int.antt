-- ===== src/Common/Int.antt =====
-- Go's `int` and `int64` values, over the native numbers: `negsuc n` is -(n + 1).
use dnn_daemon.Common.Tests.{ltb, ◌==◌}
use Prim.Native.Nat.{ℕ, ◌+◌, ◌≤◌}
use mathlib.Core.Bool.{Bool, true, false}
use mathlib.Core.Path.{◌≡◌}
use native.Mathlib.Omega.{arith}

pub data ℤ : Type 0 where
  pos : ℕ → ℤ
  negsuc : ℕ → ℤ

-- `x == k` for a literal `k`
abbrev pub is_literal : ℤ → ℕ → Bool
is_literal (pos n) k = n == k
is_literal (negsuc n) k = false

abbrev pub equal_int : ℤ → ℤ → Bool
equal_int (pos a) (pos b) = a == b
equal_int (negsuc a) (negsuc b) = a == b
equal_int (pos a) (negsuc b) = false
equal_int (negsuc a) (pos b) = false

abbrev pub ltb_int : ℤ → ℤ → Bool
ltb_int (pos a) (pos b) = ltb a b
ltb_int (pos a) (negsuc b) = false
ltb_int (negsuc a) (pos b) = true
ltb_int (negsuc a) (negsuc b) = ltb b a

abbrev pub pos_part : ℤ → ℕ
pos_part (pos n) = n
pos_part (negsuc n) = 0

abbrev pub neg_part : ℤ → ℕ
neg_part (pos n) = 0
neg_part (negsuc n) = n + 1

infix 50 ◌≤ℤ◌
abbrev pub ◌≤ℤ◌ : ℤ → ℤ → Type 0
a ≤ℤ b = pos_part a + neg_part b ≤ pos_part b + neg_part a

pub ≤ℤ_of_ltb : (a b : ℤ) → ltb_int b a ≡ false → a ≤ℤ b
≤ℤ_of_ltb (pos a) (pos b) h = ground arith
≤ℤ_of_ltb (pos a) (negsuc b) h = ground arith
≤ℤ_of_ltb (negsuc a) (pos b) h = ground arith
≤ℤ_of_ltb (negsuc a) (negsuc b) h = ground arith

pub ≤ℤ_of_ltb_true : (a b : ℤ) → ltb_int a b ≡ true → a ≤ℤ b
≤ℤ_of_ltb_true (pos a) (pos b) h = ground arith
≤ℤ_of_ltb_true (pos a) (negsuc b) h = ground arith
≤ℤ_of_ltb_true (negsuc a) (pos b) h = ground arith
≤ℤ_of_ltb_true (negsuc a) (negsuc b) h = ground arith

pub ≤ℤ_trans : (a b c : ℤ) → a ≤ℤ b → b ≤ℤ c → a ≤ℤ c
≤ℤ_trans a b c h k = omega arith

pub ≤ℤ_refl : (a : ℤ) → a ≤ℤ a
≤ℤ_refl a = omega arith
