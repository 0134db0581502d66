-- ===== src/Common/Ints.antt =====
-- Rust's `i32` as an integer, and the cast of a `u32` to it.
use Prim.Native.Nat.{ℕ, ◌-◌, ◌^◌}
use liuzx_skf.Common.Tests.{ltb, if◌then◌else◌}

-- `negsuc n` is -(n + 1).
pub data ℤ : Type 0 where
  pos : ℕ → ℤ
  negsuc : ℕ → ℤ

-- `c as i32` for a `u32` c: the two's complement value of the same 32 bits.
unfoldable pub as_i32 : ℕ → ℤ
as_i32 c = if ltb c (2 ^ 31) then pos c else negsuc (2 ^ 32 - 1 - c)
