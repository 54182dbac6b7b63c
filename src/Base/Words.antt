-- ===== src/Base/Words.antt =====
-- Unsigned machine words: numbers below a modulus `m`, with the wrapping `+` and `-` of Go.
use Prim.Native.Nat.{ℕ, ◌+◌, ◌-◌, ◌%◌, ◌<◌}
use mathlib.Core.Path.{◌≡◌, ap, ◌∙◌}
use mathlib.Core.Logic.{◌≢◌}
use native.Mathlib.Omega.{arith}
use native.Mathlib.Nat.{mod-lt, mod-eq_of_lt, mod-eq-sub-mod, add-mod-mod}

abbrev pub u16_mod : ℕ
u16_mod = 65536

abbrev pub u32_mod : ℕ
u32_mod = 4294967296

abbrev pub u64_mod : ℕ
u64_mod = 18446744073709551616

-- `a + b` and `a - b` on words below `m`.
pub add_word : ℕ → ℕ → ℕ → ℕ
add_word m a b = (a + b) % m

pub sub_word : ℕ → ℕ → ℕ → ℕ
sub_word m a b = (a + m - b) % m

-- Adding a wrapped difference back to its base gives the word.
pub add_word-sub_word : (m a b : ℕ) → a < m → b < m → add_word m b (sub_word m a b) ≡ a
unfolding add_word sub_word
add_word-sub_word m a b ha hb =
    add-mod-mod b (a + m - b) m
    ∙ ap (λ (t : ℕ). t % m) (omega arith)
    ∙ mod-eq-sub-mod {n = a + m} {m = m} (omega arith)
    ∙ ap (λ (t : ℕ). t % m) (omega arith)
    ∙ mod-eq_of_lt ha

-- A wrapped difference is a word.
pub sub_word-lt : (m a b : ℕ) → 0 < m → sub_word m a b < m
unfolding sub_word
sub_word-lt m a b h = mod-lt (a + m - b) h

-- A wrapped sum is a word.
pub add_word-lt : (m a b : ℕ) → 0 < m → add_word m a b < m
unfolding add_word
add_word-lt m a b h = mod-lt (a + b) h

-- Adding to 0 keeps a word.
pub add_word-zero : (m a : ℕ) → a < m → add_word m 0 a ≡ a
unfolding add_word
add_word-zero m a h = ap (λ (t : ℕ). t % m) (omega arith) ∙ mod-eq_of_lt h

-- A sum below the modulus does not wrap.
pub add_word-eq_of_lt : (m a b : ℕ) → a + b < m → add_word m a b ≡ a + b
unfolding add_word
add_word-eq_of_lt m a b h = mod-eq_of_lt h

pub sub_word-zero : (a : ℕ) → a < u16_mod → sub_word u16_mod a 0 ≡ a
unfolding sub_word
sub_word-zero a h = omega arith

-- Taking something off changes a word.
pub sub_word-changes : (a b : ℕ) → a < u16_mod → b < u16_mod → 0 < b → sub_word u16_mod a b ≢ a
unfolding sub_word
sub_word-changes a b ha hb positive = omega arith
