-- ===== src/Base/Numbers.antt =====
-- int64 as an integer, and float64 as its bit pattern, with the comparisons of Go.
use Prim.Native.Nat.{ℕ, ◌%◌}
use mathlib.Core.Path.{◌≡◌, refl}
use mathlib.Core.Bool.{Bool, true, false, not, ◌&&◌, ◌||◌}
use native.Mathlib.Omega.{arith}
use otel_arrow_adapter.Base.Tests.{◌==◌, ltb, if◌then◌else◌}

-- `negsuc n` is -(n + 1).
pub data ℤ : Type 0 where
  pos : ℕ → ℤ
  negsuc : ℕ → ℤ

pub int_eq : ℤ → ℤ → Bool
int_eq (pos a) (pos b) = a == b
int_eq (pos a) (negsuc b) = false
int_eq (negsuc a) (pos b) = false
int_eq (negsuc a) (negsuc b) = a == b

pub int_lt : ℤ → ℤ → Bool
int_lt (pos a) (pos b) = ltb a b
int_lt (pos a) (negsuc b) = false
int_lt (negsuc a) (pos b) = true
int_lt (negsuc a) (negsuc b) = ltb b a

-- A float64 by its bits: the sign is bit 63, and the rest is read as the magnitude.
abbrev pub sign_bit : ℕ
sign_bit = 9223372036854775808

abbrev magnitude : ℕ → ℕ
magnitude x = x % sign_bit

abbrev is_negative : ℕ → Bool
is_negative x = not (ltb x sign_bit)

-- A magnitude above that of infinity is a NaN.
pub is_nan : ℕ → Bool
is_nan x = ltb 9218868437227405312 (magnitude x)

-- `a == b`: a NaN equals nothing, and the two zeros are equal.
pub double_eq : ℕ → ℕ → Bool
unfolding is_nan
double_eq a b =
    not (is_nan a) && not (is_nan b) && (a == b || (magnitude a == 0 && magnitude b == 0))

pub double_lt : ℕ → ℕ → Bool
unfolding is_nan
double_lt a b =
    not (is_nan a)
    && not (is_nan b)
    && not (magnitude a == 0 && magnitude b == 0)
    && (if is_negative a
        then (if is_negative b then ltb (magnitude b) (magnitude a) else true)
        else (if is_negative b then false else ltb (magnitude a) (magnitude b)))

pub int_lt_irrefl : (a b : ℤ) → int_eq a b ≡ true → int_lt a b ≡ false
unfolding int_eq int_lt
int_lt_irrefl (pos a) (pos b) h = ground arith
int_lt_irrefl (pos a) (negsuc b) h = refl
int_lt_irrefl (negsuc a) (pos b) h = ground arith
int_lt_irrefl (negsuc a) (negsuc b) h = ground arith

pub double_lt_irrefl : (a b : ℕ) → double_eq a b ≡ true → double_lt a b ≡ false
unfolding double_eq double_lt
double_lt_irrefl a b h = ground arith
