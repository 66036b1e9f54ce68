-- ===== src/Base/Word.antt =====
-- Unsigned 32- and 64-bit arithmetic with its wrap-around. On the target (Cortex-A9) `size_t`,
-- `phys_addr_t` and `unsigned int` have 32 bits.
use Prim.Native.Nat.{ℕ, ◌+◌, ◌-◌, ◌*◌, ◌%◌, ◌^◌}
use mathlib.Core.Bool.{Bool}
use zyndra.Base.Tests.{leb}

abbrev pub add32 : ℕ → ℕ → ℕ
add32 a b = (a + b) % 2 ^ 32

abbrev pub sub32 : ℕ → ℕ → ℕ
sub32 a b = (a + 2 ^ 32 - b) % 2 ^ 32

abbrev pub mul32 : ℕ → ℕ → ℕ
mul32 a b = (a * b) % 2 ^ 32

abbrev pub add64 : ℕ → ℕ → ℕ
add64 a b = (a + b) % 2 ^ 64

-- The order of `int` on bit patterns of 32 bits.
abbrev pub leb_int : ℕ → ℕ → Bool
leb_int a b = leb (add32 a (2 ^ 31)) (add32 b (2 ^ 31))
