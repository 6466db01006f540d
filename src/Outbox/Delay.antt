-- ===== src/Outbox/Delay.antt =====
-- `Backoff` of internal/outbox/publisher.go.
use native.Mathlib.Nat.{mul-le-mul_left, mul-le-mul_right}
use fault_tolerant_payment_l.Base.{
  ℕ, zero, suc, ◌+◌, ◌-◌, ◌*◌, ◌/◌, ◌^◌, ◌≤◌, ◌≡◌, inl, inr, arith, leb, false, Bool-cases,
}
use fault_tolerant_payment_l.Outbox.Publisher.{backoff, exponential}

pub exponential-le : (n base max_delay : ℕ) → exponential n base max_delay ≤ max_delay
unfolding exponential
exponential-le n base max_delay = let x : ℕ = base * 2 ^ n in ground arith

power-positive : (n : ℕ) → 1 ≤ 2 ^ n
power-positive zero = omega arith
power-positive (suc n) = let h = power-positive n in omega arith

le-exponential :
    (n base max_delay : ℕ) → base ≤ 2 * max_delay → base ≤ 2 * exponential n base max_delay
unfolding exponential
le-exponential n base max_delay h =
    let k : base * 1 ≤ base * 2 ^ n = mul-le-mul_left base (power-positive n) in
    let x : ℕ = base * 2 ^ n in ground arith

pub base-le-exponential :
    (n base max_delay : ℕ) → base ≤ max_delay → base ≤ exponential n base max_delay
unfolding exponential
base-le-exponential n base max_delay h =
    let k : base * 1 ≤ base * 2 ^ n = mul-le-mul_left base (power-positive n) in
    let x : ℕ = base * 2 ^ n in ground arith

scaled-le : (a k x : ℕ) → k ≤ 2 ^ 53 → a * 2 ^ 53 + k * x ≤ (a + x) * 2 ^ 53
scaled-le a k x h =
    let m : k * x ≤ 2 ^ 53 * x = mul-le-mul_right x h in let y : ℕ = k * x in omega arith

-- the jittered delay, with the capped one as a number of its own
jittered :
    (base delay k : ℕ)
    → k ≤ 2 ^ 53
    → leb (2 * delay) base ≡ false
    → ((base * 2 ^ 53 + k * (2 * delay - base)) / 2 ^ 54 ≤ delay)
      × (base ≤ 2 * ((base * 2 ^ 53 + k * (2 * delay - base)) / 2 ^ 54) + 1)
jittered base delay k h long =
    let gap : base ≤ 2 * delay = ground arith in
    let m = scaled-le base k (2 * delay - base) h in
    let y : ℕ = k * (2 * delay - base) in (omega arith, omega arith)

-- For a draw of at most 1 and a base of at most twice the cap, the delay before a retry is at most the cap, and at
-- least half of the base, rounded down to a nanosecond.
pub backoff_range :
    (attempt base max_delay k : ℕ)
    → k ≤ 2 ^ 53
    → base ≤ 2 * max_delay
    → (backoff attempt base max_delay k ≤ max_delay)
      × (base ≤ 2 * backoff attempt base max_delay k + 1)
unfolding backoff
backoff_range attempt base max_delay k h wide =
    let delay = exponential (attempt - 1) base max_delay in
    let low = exponential-le (attempt - 1) base max_delay in
    let high = le-exponential (attempt - 1) base max_delay wide in
    elim (Bool-cases (leb (2 * exponential (attempt - 1) base max_delay) base)) [
      | inl short ↦ rw short (low, omega arith)
      | inr long ↦
          (let j = jittered base (exponential (attempt - 1) base max_delay) k h long in
            rw long (lower (j.0) low, j.1))
    ]
  where
    lower : {a b c : ℕ} → a ≤ b → b ≤ c → a ≤ c
    lower p q = omega arith
