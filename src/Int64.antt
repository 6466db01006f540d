-- ===== src/Int64.antt =====
-- Go's int64 and PostgreSQL's BIGINT: Go wraps around, PostgreSQL refuses what is out of range.
use fault_tolerant_payment_l.Base.{
  ℕ, ◌-◌, ◌%◌, ◌^◌, ◌≡◌, ℤ, pos, negsuc, pos_part, neg_part, ◌-ℤ◌, Bool, ltb, leb, ◌&&◌, arith,
  true, if◌then◌else◌, ◌+ℤ◌,
}

-- -2^63 ≤ a < 2^63
unfoldable pub in_int64 : ℤ → Bool
in_int64 a = ltb (pos_part a) (2 ^ 63) && leb (neg_part a) (2 ^ 63)

-- the int64 that is congruent to a number modulo 2^64
unfoldable pub wrap64 : ℤ → ℤ
wrap64 (pos n) = let m : ℕ = n % 2 ^ 64 in if ltb m (2 ^ 63) then pos m else negsuc (2 ^ 64 - 1 - m)
wrap64 (negsuc n) =
    let m : ℕ = n % 2 ^ 64 in if ltb m (2 ^ 63) then negsuc m else pos (2 ^ 64 - 1 - m)

-- `-a` on int64
unfoldable pub neg64 : ℤ → ℤ
unfolding wrap64
neg64 a = wrap64 (pos 0 -ℤ a)

-- `a + b` on int64
unfoldable pub add64 : ℤ → ℤ → ℤ
unfolding wrap64
add64 a b = wrap64 (a +ℤ b)

-- Wrapping leaves an int64 alone.
pub wrap64_in_range : (a : ℤ) → in_int64 a ≡ true → wrap64 a ≡ a
unfolding wrap64 in_int64
wrap64_in_range (pos n) h = ground arith
wrap64_in_range (negsuc n) h = ground arith

pub wrap64-in_int64 : (a : ℤ) → in_int64 (wrap64 a) ≡ true
unfolding wrap64 in_int64
wrap64-in_int64 (pos n) = ground arith
wrap64-in_int64 (negsuc n) = ground arith
