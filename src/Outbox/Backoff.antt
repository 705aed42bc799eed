-- ===== src/Outbox/Backoff.antt =====
-- internal/outbox/relay.go: `retryDelay` is an exponential delay with a cap.
use noapp.Prelude.{ℕ, suc, ◌*◌, ◌^◌, ◌≤◌, ◌≡◌, ℤ, pos, ◌≤ℤ◌, arith}
use native.Mathlib.Nat.{one-le-pow, pow-le-pow_right}
use Prim.Native.Nat.{min}
use noapp.Runtime.{second}
use noapp.Outbox.{retry_delay, exponent}

pos_exponent : (n : ℕ) → 1 ≤ 2 ^ n
pos_exponent n = one-le-pow n 2 (omega arith)

-- The delay stays between one second and the maximum, if the maximum allows a second.
retry_delay_bounds :
    (attempt maximum : ℤ)
    → second ≤ℤ maximum
    → (second ≤ℤ retry_delay attempt maximum) × (retry_delay attempt maximum ≤ℤ maximum)
unfolding retry_delay
retry_delay_bounds attempt maximum h = (grind (arith, pos_exponent), grind arith)

exponent_mono : (a b : ℤ) → a ≤ℤ b → exponent a ≤ exponent b
unfolding exponent
exponent_mono a b h = ground arith

-- A later attempt never waits for less.
retry_delay_mono : (a b maximum : ℤ) → a ≤ℤ b → retry_delay a maximum ≤ℤ retry_delay b maximum
unfolding retry_delay
retry_delay_mono a b maximum h =
    let le = pow-le-pow_right {n = 2} (omega arith) (exponent_mono a b h) in ground arith

-- After n + 1 attempts the delay is two to the power n seconds, or the maximum if that is less;
-- from the eleventh attempt on it grows no further.
pub retry_delay-suc :
    (n maximum : ℕ)
    → retry_delay (pos (suc n)) (pos maximum) ≡ pos (min (2 ^ min n 10 * 1000000000) maximum)
unfolding retry_delay exponent
retry_delay-suc n maximum = ground arith
