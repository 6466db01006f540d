-- ===== src/Base/Strings.antt =====
-- Go's package strings: `Split` and `Cut` at one byte, and `TrimSpace` of text in UTF-8.
use mathlib.Core.Bool.{◌&&◌, ◌||◌}
use mathlib.Core.List.{List, [], ◌∷◌, reverse}
use mathlib.Core.Option.{Option, none, some}
use Prim.Native.Nat.{ℕ, zero, suc, ◌-◌}
use fault_tolerant_payment_l.Base.Tests.{leb, ◌==◌, if◌then◌else◌}
use fault_tolerant_payment_l.Base.Bytes.{Text, cut}

abbrev pub with_first : ℕ → List Text → List Text
with_first b [] = (b ∷ []) ∷ []
with_first b (part ∷ parts) = (b ∷ part) ∷ parts

-- `Split`
unfoldable pub split : ℕ → Text → List Text
split sep [] = [] ∷ []
split sep (b ∷ bs) = let parts = split sep bs in if b == sep then [] ∷ parts else with_first b parts

abbrev pub or_all : Text → Option (Text × Text) → Text × Text
or_all bs none = (bs, [])
or_all bs (some parts) = parts

-- `Cut` for a caller that takes the whole text if the separator is absent
unfoldable pub cut_or_all : ℕ → Text → Text × Text
unfolding cut
cut_or_all sep bs = or_all bs (cut sep bs)

-- a missing byte is 0, which is no part of a space
abbrev pub byte_at : ℕ → Text → ℕ
byte_at n [] = 0
byte_at zero (b ∷ bs) = b
byte_at (suc n) (b ∷ bs) = byte_at n bs

-- the bytes of the white space that three bytes begin with: tabs and line breaks, U+0085, U+00A0, U+1680, U+2000 to
-- U+200A, U+2028, U+2029, U+202F, U+205F and U+3000
unfoldable pub space_width : ℕ → ℕ → ℕ → ℕ
space_width a b c =
    if a == 32 || (leb 9 a && leb a 13)
    then 1
    else if a == 194 && (b == 133 || b == 160)
    then 2
    else if a == 225 && b == 154 && c == 128
    then 3
    else if a == 226 && b == 128 && ((leb 128 c && leb c 138) || c == 168 || c == 169 || c == 175)
    then 3
    else if a == 226 && b == 129 && c == 159
    then 3
    else if a == 227 && b == 128 && c == 128
    then 3
    else 0

unfoldable pub width_ahead : Text → ℕ
unfolding space_width
width_ahead bs = space_width (byte_at 0 bs) (byte_at 1 bs) (byte_at 2 bs)

-- the same for bytes in reverse
unfoldable pub width_behind : Text → ℕ
unfolding space_width
width_behind bs =
    let one = space_width (byte_at 0 bs) 0 0 in
    let two = space_width (byte_at 1 bs) (byte_at 0 bs) 0 in
    let three = space_width (byte_at 2 bs) (byte_at 1 bs) (byte_at 0 bs) in
    if one == 1 then 1 else if two == 2 then 2 else if three == 3 then 3 else 0

-- the text after `n` bytes and after white space
unfoldable pub skip : (Text → ℕ) → ℕ → Text → Text
skip width n [] = []
skip width (suc n) (b ∷ bs) = skip width n bs
skip width zero (b ∷ bs) =
    let w = width (b ∷ bs) in let rest = skip width (w - 1) bs in if w == 0 then b ∷ bs else rest

-- `TrimSpace`
unfoldable pub trim_space : Text → Text
unfolding skip width_ahead width_behind
trim_space bs = reverse (skip width_behind 0 (reverse (skip width_ahead 0 bs)))
