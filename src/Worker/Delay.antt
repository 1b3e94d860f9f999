-- ===== src/Worker/Delay.antt =====
-- The delay before the next attempt.
use Prim.Native.Nat.{◌^◌}
use search_trust_rd.Prelude.{ℕ, zero, suc, ◌+◌, ◌-◌, ◌≤◌, arith}
use search_trust_rd.Worker.Failures.{retry_delay_seconds}

power_positive : (n : ℕ) → 1 ≤ 2 ^ n
power_positive zero = omega arith
power_positive (suc n) = omega (arith, power_positive n)

power_grows : (a b : ℕ) → a ≤ b → 2 ^ a ≤ 2 ^ b
power_grows zero b h = power_positive b
power_grows (suc a) zero h = absurd (omega arith)
power_grows (suc a) (suc b) h = omega (arith, power_grows a b (omega arith))

-- Whatever the attempt and the digest, the delay is between 5 and 63 seconds; a later attempt waits
-- at most three seconds less than an earlier one.
pub retry_delay_seconds_bounds :
    (byte byte' a b : ℕ)
    → a ≤ b
    → (5 ≤ retry_delay_seconds byte a)
      × (retry_delay_seconds byte b ≤ 63)
      × (retry_delay_seconds byte a ≤ retry_delay_seconds byte' b + 3)
unfolding retry_delay_seconds
retry_delay_seconds_bounds byte byte' a b h = (
  omega (arith, power_positive (a - 1)),
  omega arith,
  omega (arith, power_grows (a - 1) (b - 1) (omega arith)),
)
