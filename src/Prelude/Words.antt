-- ===== src/Prelude/Words.antt =====
-- Machine words. A word is the natural number below 2 ^ w that has its bits; a signed word is its
-- two's complement pattern, and is compared after a shift by half the range.
use Prim.Native.Nat.{ℕ, ◌+◌, ◌-◌, ◌%◌}
use mathlib.Core.Path.{◌≡◌, refl}
use mathlib.Core.Bool.{Bool, true}
use native.Mathlib.Omega.{arith}
use ton_index_worker.Prelude.Tests.{ltb, leb}

-- 2 ^ 32 and 2 ^ 64.
abbrev pub mod32 : ℕ
mod32 = 4294967296

abbrev pub mod64 : ℕ
mod64 = 18446744073709551616

-- `uint32_t`, and `int32_t` on its patterns.
abbrev pub add32 : ℕ → ℕ → ℕ
add32 a b = (a + b) % mod32

abbrev pub sub32 : ℕ → ℕ → ℕ
sub32 a b = (a + (mod32 - b % mod32)) % mod32

-- The pattern of a signed word, moved so that the order of patterns is the order of integers.
abbrev pub bias32 : ℕ → ℕ
bias32 a = (a + 2147483648) % mod32

abbrev pub slt32 : ℕ → ℕ → Bool
slt32 a b = ltb (bias32 a) (bias32 b)

abbrev pub sle32 : ℕ → ℕ → Bool
sle32 a b = leb (bias32 a) (bias32 b)

-- `size_t` and `uint64_t`.
abbrev pub add64 : ℕ → ℕ → ℕ
add64 a b = (a + b) % mod64

abbrev pub sub64 : ℕ → ℕ → ℕ
sub64 a b = (a + (mod64 - b % mod64)) % mod64

pub add32-sub32 : (a b : ℕ) → add32 (sub32 a b) b ≡ a % mod32
add32-sub32 a b = omega arith

minus_one_below_zero : slt32 (sub32 0 1) 0 ≡ true
minus_one_below_zero = refl
