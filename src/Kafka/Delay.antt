-- ===== src/Kafka/Delay.antt =====
-- `fetchBackoff` of internal/kafka/consumer.go.
use native.Mathlib.Nat.{mul-le-mul_right}
use fault_tolerant_payment_l.Base.{ℕ, ◌+◌, ◌-◌, ◌*◌, ◌/◌, ◌^◌, ◌≤◌, arith}
use fault_tolerant_payment_l.Outbox.Publisher.{exponential}
use fault_tolerant_payment_l.Outbox.Delay.{exponential-le, base-le-exponential}
use fault_tolerant_payment_l.Kafka.{fetch_backoff}

half_range :
    (delay k : ℕ)
    → k ≤ 2 ^ 53
    → 250_000_000 ≤ delay
    → delay ≤ 30_000_000_000
    → (125_000_000 ≤ (delay * 2 ^ 53 + k * delay) / 2 ^ 54)
      × ((delay * 2 ^ 53 + k * delay) / 2 ^ 54 ≤ 30_000_000_000)
half_range delay k h low high =
    let m : k * delay ≤ 2 ^ 53 * delay = mul-le-mul_right delay h in
    let y : ℕ = k * delay in (omega arith, omega arith)

-- For a draw of at most 1, the pause after failed fetches is at least 125 milliseconds and at most 30 seconds.
pub fetch_backoff_range :
    (failures k : ℕ)
    → k ≤ 2 ^ 53
    → (125_000_000 ≤ fetch_backoff failures k) × (fetch_backoff failures k ≤ 30_000_000_000)
unfolding fetch_backoff
fetch_backoff_range failures k h =
    half_range (exponential (failures - 1) 250_000_000 30_000_000_000) k h
      (base-le-exponential (failures - 1) 250_000_000 30_000_000_000 (omega arith))
      (exponential-le (failures - 1) 250_000_000 30_000_000_000)
