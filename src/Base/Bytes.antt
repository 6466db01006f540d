-- ===== src/Base/Bytes.antt =====
-- Text as its bytes: Go compares strings byte by byte, and so do the tables' keys.
use Prim.Native.Nat.{ℕ}
use Prim.Native.Char.{code}
use Prim.Native.String.{String}
use mathlib.Core.Path.{◌≡◌, refl}
use mathlib.Core.Logic.{◌↔◌, ◌⊎◌}
use mathlib.Core.Bool.{Bool, true, false, ◌&&◌}
use mathlib.Core.List.{List, [], ◌∷◌, ◌++◌}
use mathlib.Core.Option.{Option, none, some}
use native.Mathlib.Omega.{arith}
use fault_tolerant_payment_l.Base.Lists.{All}
use fault_tolerant_payment_l.Base.Tests.{ltb, ◌==◌, ==_iff, if◌then◌else◌}

abbrev pub Text : Type 0
Text = List ℕ

-- the bytes of an ASCII literal
abbrev pub text : String → Text
text String.[] = []
text (String.◌∷◌ c s) = code c ∷ text s

unfoldable pub text_eq : Text → Text → Bool
text_eq [] [] = true
text_eq [] (b ∷ bs) = false
text_eq (a ∷ xs) [] = false
text_eq (a ∷ xs) (b ∷ bs) = (a == b) && text_eq xs bs

-- the order of Go's `<` on strings
unfoldable pub text_lt : Text → Text → Bool
text_lt bs [] = false
text_lt [] (b ∷ bs) = true
text_lt (a ∷ xs) (b ∷ bs) = if a == b then text_lt xs bs else ltb a b

pub text_eq_iff : (a b : Text) → (text_eq a b ≡ true) ↔ (a ≡ b)
unfolding text_eq
text_eq_iff [] [] = (λ h. refl, λ h. refl)
text_eq_iff [] (b ∷ bs) = (λ h. cc, λ h. cc)
text_eq_iff (a ∷ xs) [] = (λ h. cc, λ h. cc)
text_eq_iff (a ∷ xs) (b ∷ bs) =
    (λ h. ground (arith, text_eq_iff xs bs), λ h. ground (arith, text_eq_iff xs bs))

pub text_lt_irrefl : (a : Text) → text_lt a a ≡ false
unfolding text_lt
text_lt_irrefl [] = refl
text_lt_irrefl (x ∷ a) = ground (arith, text_lt_irrefl a)

pub text_lt_trans : (a b c : Text) → text_lt a b ≡ true → text_lt b c ≡ true → text_lt a c ≡ true
unfolding text_lt
text_lt_trans [] [] c h k = cc
text_lt_trans [] (y ∷ b) [] h k = cc
text_lt_trans [] (y ∷ b) (z ∷ c) h k = refl
text_lt_trans (x ∷ a) [] c h k = cc
text_lt_trans (x ∷ a) (y ∷ b) [] h k = cc
text_lt_trans (x ∷ a) (y ∷ b) (z ∷ c) h k = ground (arith, text_lt_trans a b c)

pub text_lt_total :
    (a b : Text) → (text_lt a b ≡ true) ⊎ (text_eq a b ≡ true) ⊎ (text_lt b a ≡ true)
unfolding text_lt text_eq
text_lt_total [] [] = ground arith
text_lt_total [] (y ∷ b) = ground arith
text_lt_total (x ∷ a) [] = ground arith
text_lt_total (x ∷ a) (y ∷ b) = ground (arith, text_lt_total a b)

abbrev pub with_byte : ℕ → Option (Text × Text) → Option (Text × Text)
with_byte b none = none
with_byte b (some (before, after)) = some (b ∷ before, after)

-- `strings.Cut` at the first separator of one byte
unfoldable pub cut : ℕ → Text → Option (Text × Text)
cut sep [] = none
cut sep (b ∷ bs) =
    let others = with_byte b (cut sep bs) in if b == sep then some ([], bs) else others

-- Text without the separator is what stands before the first one.
pub cut-append :
    (sep : ℕ) (before after : Text)
    → All (λ (b : ℕ). (b == sep) ≡ false) before
    → cut sep (before ++ sep ∷ after) ≡ some (before, after)
unfolding cut
cut-append sep [] after h = rw ((==_iff sep sep).1 refl) refl
cut-append sep (b ∷ bs) after h = rw (h.0, cut-append sep bs after h.1) refl

-- The text has no separator.
pub cut_absent : (sep : ℕ) (bs : Text) → All (λ (b : ℕ). (b == sep) ≡ false) bs → cut sep bs ≡ none
unfolding cut
cut_absent sep [] h = refl
cut_absent sep (b ∷ bs) h = rw (h.0, cut_absent sep bs h.1) refl
