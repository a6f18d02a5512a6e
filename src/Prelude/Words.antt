-- ===== src/Prelude/Words.antt =====
-- `usize` arithmetic of a 64-bit target as the release build does it: modulo 2 ^ 64.
use Prim.Native.Nat.{ℕ, ◌+◌, ◌-◌, ◌%◌, ◌^◌, ◌≤◌, ◌<◌}
use mathlib.Core.Path.{◌≡◌}
use native.Mathlib.Omega.{arith}

abbrev pub word : ℕ
word = 2 ^ 64

abbrev pub usize_max : ℕ
usize_max = word - 1

abbrev pub add_word : ℕ → ℕ → ℕ
add_word a b = (a + b) % word

abbrev pub sub_word : ℕ → ℕ → ℕ
sub_word a b = (a + word - b) % word

pub add_word_lem : (a b : ℕ) → a + b < word → add_word a b ≡ a + b
add_word_lem a b h = omega arith

pub sub_word_lem : (a b : ℕ) → b ≤ a → a < word → sub_word a b ≡ a - b
sub_word_lem a b h k = omega arith
