-- ===== src/Prelude/Int64.antt =====
-- Signed 64-bit integers (int64, time.Duration) as the numbers below 2^64 that their bits spell.
use Prim.Native.Nat.{ℕ, ◌+◌, ◌*◌, ◌%◌, ◌^◌}
use mathlib.Core.Bool.{Bool}
use gateway_mt.Prelude.Tests.{ltb}

-- a < b
abbrev pub lt_i64 : ℕ → ℕ → Bool
lt_i64 a b = ltb ((a + 2 ^ 63) % 2 ^ 64) ((b + 2 ^ 63) % 2 ^ 64)

-- a * 2, wrapping around
abbrev pub double_i64 : ℕ → ℕ
double_i64 a = (a * 2) % 2 ^ 64
