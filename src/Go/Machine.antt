-- ===== src/Go/Machine.antt =====
-- 64-bit machine integers: an int64 is an integer, a uint64 a natural number, and the conversions
-- between them keep the bits.
use Prim.Native.Nat.{◌<◌}
use rosetta_casper.Common.{
  ℕ, suc, ◌+◌, ◌-◌, ◌/◌, ◌%◌, ◌^◌, ◌≤◌, ◌≡◌, arith, ltb, if◌then◌else◌, ℤ, pos, negsuc, pos_part,
  neg_part,
}

-- The integers that an int64 holds.
pub record IsInt64 (z : ℤ) : Type 0 where
  pub below : pos_part z < 2 ^ 63
  pub above : neg_part z ≤ 2 ^ 63

-- `uint64(z)`.
unfoldable pub to_uint64 : ℤ → ℕ
to_uint64 (pos n) = n % 2 ^ 64
to_uint64 (negsuc n) = (2 ^ 64 - 1 - n % 2 ^ 64) % 2 ^ 64

-- `int64(n)` of a uint64, or of a number that wraps around.
unfoldable pub to_int64 : ℕ → ℤ
to_int64 n =
    if ltb (n % 2 ^ 64) (2 ^ 63) then pos (n % 2 ^ 64) else negsuc (2 ^ 64 - 1 - n % 2 ^ 64)

-- `z - 1` in int64.
unfoldable pub pred_int64 : ℤ → ℤ
unfolding to_int64
pred_int64 z = to_int64 (to_uint64 z + 2 ^ 64 - 1)

-- `z / n` in int64 for a constant `n > 1`: the quotient is rounded toward zero.
unfoldable pub quot : ℤ → ℕ → ℤ
quot (pos a) n = pos (a / n)
quot (negsuc a) n = if ltb 0 (suc a / n) then negsuc (suc a / n - 1) else pos 0

-- A conversion there and back gives the integer again.
pub to_int64-to_uint64 : (z : ℤ) → IsInt64 z → to_int64 (to_uint64 z) ≡ z
unfolding to_int64 to_uint64
to_int64-to_uint64 (pos n) h = ground arith
to_int64-to_uint64 (negsuc n) h = ground arith

pub to_uint64-to_int64 : (n : ℕ) → n < 2 ^ 64 → to_uint64 (to_int64 n) ≡ n
unfolding to_int64 to_uint64
to_uint64-to_int64 n h = ground arith

-- Below 2^63 the conversions change nothing.
pub to_int64_small : (n : ℕ) → n < 2 ^ 63 → to_int64 n ≡ pos n
unfolding to_int64
to_int64_small n h = ground arith

pub pred_int64-suc : (n : ℕ) → n < 2 ^ 63 → pred_int64 (pos (suc n)) ≡ pos n
unfolding pred_int64 to_uint64
pred_int64-suc n h = ground arith
