-- ===== src/Base/Decimal.antt =====
-- Go's decimal numbers: `strconv.Itoa` and `strconv.Atoi` with an int of 64 bits.
use Prim.Native.Nat.{ℕ, zero, suc, ◌+◌, ◌-◌, ◌*◌, ◌/◌, ◌%◌, ◌^◌, ◌<◌, ◌≤◌}
use mathlib.Core.Path.{◌≡◌, refl}
use mathlib.Core.Bool.{◌&&◌}
use mathlib.Core.List.{[], ◌∷◌}
use mathlib.Core.Option.{Option, none, some}
use native.Mathlib.Omega.{arith}
use fault_tolerant_payment_l.Base.Tests.{ltb, leb, ◌==◌, if◌then◌else◌}
use fault_tolerant_payment_l.Base.Bytes.{Text}
use fault_tolerant_payment_l.Base.Int.{ℤ, pos, sub_ℕ}

-- the digits of a number before some text; as much fuel as the number is enough
unfoldable pub put_digits : ℕ → ℕ → Text → Text
put_digits zero n out = out
put_digits (suc fuel) n out =
    let more = put_digits fuel (n / 10) ((b'0' + n % 10) ∷ out) in if n == 0 then out else more

-- `Itoa` of a number that is not negative
unfoldable pub itoa : ℕ → Text
itoa n = if n == 0 then b'0' ∷ [] else put_digits n n []

-- the digits of a number after some that were read
unfoldable pub read_digits : Text → ℕ → Option ℕ
read_digits [] n = some n
read_digits (c ∷ cs) n =
    let more = read_digits cs (n * 10 + (c - b'0')) in
    if leb b'0' c && leb c b'9' then more else none

-- the digits after the sign, of which there is one at least
unfoldable pub read_unsigned : Text → Option ℕ
unfolding read_digits
read_unsigned [] = none
read_unsigned (c ∷ cs) = read_digits (c ∷ cs) 0

abbrev pub in_range : ℕ → (ℕ → ℤ) → Option ℕ → Option ℤ
in_range bound sign none = none
in_range bound sign (some n) = if ltb n bound then some (sign n) else none

-- `Atoi`
unfoldable pub atoi : Text → Option ℤ
unfolding read_unsigned
atoi [] = none
atoi (c ∷ cs) =
    if c == b'-'
    then in_range (suc (2 ^ 63)) (sub_ℕ 0) (read_unsigned cs)
    else if c == b'+'
    then in_range (2 ^ 63) pos (read_unsigned cs)
    else in_range (2 ^ 63) pos (read_unsigned (c ∷ cs))

read_digits-last :
    (n : ℕ) (out : Text) → read_digits ((b'0' + n % 10) ∷ out) (n / 10) ≡ read_digits out n
unfolding read_digits
read_digits-last n out = ground arith

read_digits-put_digits :
    (fuel n : ℕ) (out : Text) → n ≤ fuel → read_digits (put_digits fuel n out) 0 ≡ read_digits out n
unfolding put_digits
read_digits-put_digits zero n out h = ground arith
read_digits-put_digits (suc fuel) n out h =
    ground
      (arith, read_digits-put_digits fuel (n / 10) ((b'0' + n % 10) ∷ out), read_digits-last n out)

read_unsigned-filled :
    (s : Text) (n : ℕ) → read_digits s 0 ≡ some (suc n) → read_unsigned s ≡ some (suc n)
unfolding read_digits read_unsigned
read_unsigned-filled [] n h = cc
read_unsigned-filled (c ∷ cs) n h = h

itoa-positive : (n : ℕ) → itoa (suc n) ≡ put_digits (suc n) (suc n) []
unfolding itoa
itoa-positive n = ground arith

read_unsigned-itoa : (n : ℕ) → read_unsigned (itoa n) ≡ some n
unfolding itoa read_digits read_unsigned
read_unsigned-itoa zero = refl
read_unsigned-itoa (suc n) = rw (itoa-positive n) (
    read_unsigned-filled (put_digits (suc n) (suc n) []) n
      (read_digits-put_digits (suc n) (suc n) [] (omega arith)))

-- Text without a sign is read as the number that its digits make.
pub atoi-read_unsigned :
    (s : Text) (n : ℕ) → read_unsigned s ≡ some n → n < 2 ^ 63 → atoi s ≡ some (pos n)
unfolding atoi read_unsigned read_digits
atoi-read_unsigned [] n h small = cc
atoi-read_unsigned (c ∷ cs) n h small = ground arith

-- A number that fits in an int is read back from its decimal digits.
pub atoi-itoa : (n : ℕ) → n < 2 ^ 63 → atoi (itoa n) ≡ some (pos n)
atoi-itoa n small = atoi-read_unsigned (itoa n) n (read_unsigned-itoa n) small
