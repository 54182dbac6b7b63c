-- ===== src/Base/Strings.antt =====
-- Go strings and byte slices are lists of bytes. `==`, `<` and `bytes.Compare` on them.
use Prim.Native.Nat.{ℕ}
use mathlib.Core.Path.{◌≡◌, refl}
use mathlib.Core.Bool.{Bool, true, false, ◌&&◌}
use mathlib.Core.Logic.{◌≢◌}
use mathlib.Core.List.{List, [], ◌∷◌}
use native.Mathlib.Omega.{arith}
use otel_arrow_adapter.Base.Tests.{◌==◌, ltb, if◌then◌else◌}

abbrev pub Str : Type 0
Str = List ℕ

unfoldable pub str_eq : Str → Str → Bool
str_eq [] [] = true
str_eq [] (y ∷ ys) = false
str_eq (x ∷ xs) [] = false
str_eq (x ∷ xs) (y ∷ ys) = x == y && str_eq xs ys

-- `a < b` on strings: lexicographic on the bytes.
unfoldable pub str_lt : Str → Str → Bool
str_lt [] [] = false
str_lt [] (y ∷ ys) = true
str_lt (x ∷ xs) [] = false
str_lt (x ∷ xs) (y ∷ ys) = let rest = str_lt xs ys in if x == y then rest else ltb x y

pub str_eq_refl : (s : Str) → str_eq s s ≡ true
unfolding str_eq
str_eq_refl [] = refl
str_eq_refl (x ∷ xs) = ground (arith, str_eq_refl xs)

pub str_eq→eq : (s t : Str) → str_eq s t ≡ true → s ≡ t
unfolding str_eq
str_eq→eq [] [] h = refl
str_eq→eq [] (y ∷ ys) h = ground arith
str_eq→eq (x ∷ xs) [] h = ground arith
str_eq→eq (x ∷ xs) (y ∷ ys) h = ground (arith, str_eq→eq xs ys)

pub str_eq-nil : (s : Str) → s ≢ [] → str_eq [] s ≡ false
unfolding str_eq
str_eq-nil [] h = absurd (h refl)
str_eq-nil (x ∷ xs) h = refl

pub str_lt_irrefl : (s t : Str) → str_eq s t ≡ true → str_lt s t ≡ false
unfolding str_eq str_lt
str_lt_irrefl [] [] h = refl
str_lt_irrefl [] (y ∷ ys) h = ground arith
str_lt_irrefl (x ∷ xs) [] h = ground arith
str_lt_irrefl (x ∷ xs) (y ∷ ys) h = ground (arith, str_lt_irrefl xs ys)
