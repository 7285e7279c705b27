-- ===== src/Prelude/Int.antt =====
-- Python's unbounded `int` as far as the program counts and clamps with it; `negsuc n` is -(n + 1).
use thread_forge.Prelude.Tests.{leb, if◌then◌else◌}
use Prim.Native.Nat.{ℕ, suc, ◌+◌, ◌-◌}
use mathlib.Core.Path.{◌≡◌, refl}
use mathlib.Core.Bool.{Bool, true, false, not}
use native.Mathlib.Omega.{arith}

pub data ℤ : Type 0 where
  pos : ℕ → ℤ
  negsuc : ℕ → ℤ

abbrev pub le_int : ℤ → ℤ → Bool
le_int (pos m) (pos n) = leb m n
le_int (pos m) (negsuc n) = false
le_int (negsuc m) (pos n) = true
le_int (negsuc m) (negsuc n) = leb n m

-- max(a, b)
unfoldable pub max_int : ℤ → ℤ → ℤ
max_int a b = if le_int a b then b else a

-- min(a, b)
unfoldable pub min_int : ℤ → ℤ → ℤ
min_int a b = if le_int a b then a else b

-- a < b
abbrev pub lt_int : ℤ → ℤ → Bool
lt_int a b = not (le_int b a)

abbrev pos_part : ℤ → ℕ
pos_part (pos n) = n
pos_part (negsuc n) = 0

abbrev neg_part : ℤ → ℕ
neg_part (pos n) = 0
neg_part (negsuc n) = suc n

abbrev sub_ℕ : ℕ → ℕ → ℤ
sub_ℕ a b = if leb b a then pos (a - b) else negsuc (b - a - 1)

infixl 65 ◌+ℤ◌
unfoldable pub ◌+ℤ◌ : ℤ → ℤ → ℤ
a +ℤ b = sub_ℕ (pos_part a + pos_part b) (neg_part a + neg_part b)

pub max_int-eq_right : (a b : ℤ) → le_int a b ≡ true → max_int a b ≡ b
unfolding max_int
max_int-eq_right a b h = ground arith

pub le-max_int : (a b : ℤ) → le_int a (max_int a b) ≡ true
unfolding max_int
le-max_int (pos m) (pos n) = ground arith
le-max_int (pos m) (negsuc n) = ground arith
le-max_int (negsuc m) (pos n) = ground arith
le-max_int (negsuc m) (negsuc n) = ground arith

-- A sum of two numbers that are not negative is not negative.
pub nonneg-+ℤ :
    (a b : ℤ) → le_int (pos 0) a ≡ true → le_int (pos 0) b ≡ true → le_int (pos 0) (a +ℤ b) ≡ true
unfolding ◌+ℤ◌
nonneg-+ℤ (pos m) (pos n) h k = ground arith
nonneg-+ℤ (pos m) (negsuc n) h k = cc
nonneg-+ℤ (negsuc m) b h k = cc

pub le_int-max_int : (a b : ℤ) → le_int b (max_int a b) ≡ true
unfolding max_int
le_int-max_int (pos a) (pos b) = ground arith
le_int-max_int (pos a) (negsuc b) = ground arith
le_int-max_int (negsuc a) (pos b) = ground arith
le_int-max_int (negsuc a) (negsuc b) = ground arith

pub max_int-le : (a b c : ℤ) → le_int a c ≡ true → le_int b c ≡ true → le_int (max_int a b) c ≡ true
unfolding max_int
max_int-le a b c h k = ground arith

pub le_int_trans : (a b c : ℤ) → le_int a b ≡ true → le_int b c ≡ true → le_int a c ≡ true
le_int_trans (pos a) (pos b) (pos c) h k = ground arith
le_int_trans (pos a) (pos b) (negsuc c) h k = cc
le_int_trans (pos a) (negsuc b) c h k = cc
le_int_trans (negsuc a) (pos b) (pos c) h k = refl
le_int_trans (negsuc a) (pos b) (negsuc c) h k = cc
le_int_trans (negsuc a) (negsuc b) (pos c) h k = refl
le_int_trans (negsuc a) (negsuc b) (negsuc c) h k = ground arith
