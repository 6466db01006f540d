-- ===== src/Base/Lists.antt =====
-- Lists measured by native numbers, predicates on lists by recursion, and the queries that select
-- the rows of a table by a test.
use Prim.Native.Nat.{ℕ, zero, suc, ◌+◌, ◌≤◌}
use mathlib.Core.Path.{◌≡◌, refl, ap, sym, subst}
use mathlib.Core.Logic.{inl, inr}
use mathlib.Core.Bool.{Bool, true, false}
use mathlib.Core.List.{List, [], ◌∷◌, ◌++◌, map}
use mathlib.Core.Option.{Option, none, some}
use native.Mathlib.Omega.{arith}
use fault_tolerant_payment_l.Base.Tests.{if◌then◌else◌, Bool-cases}

module _ {ℓ} {A : Type ℓ} where
  abbrev pub length : List A → ℕ
  length [] = 0
  length (x ∷ xs) = suc (length xs)

  abbrev pub take : ℕ → List A → List A
  take zero xs = []
  take (suc n) [] = []
  take (suc n) (x ∷ xs) = x ∷ take n xs

  abbrev pub drop : ℕ → List A → List A
  drop zero xs = xs
  drop (suc n) [] = []
  drop (suc n) (x ∷ xs) = drop n xs

  -- the first row that passes a test
  abbrev pub find : (A → Bool) → List A → Option A
  find p [] = none
  find p (x ∷ xs) = if p x then some x else find p xs

  -- the rows that pass a test
  abbrev pub select : (A → Bool) → List A → List A
  select p [] = []
  select p (x ∷ xs) = let rest = select p xs in if p x then x ∷ rest else rest

  -- whether some row passes a test
  abbrev pub exists : (A → Bool) → List A → Bool
  exists p [] = false
  exists p (x ∷ xs) = if p x then true else exists p xs

  -- an UPDATE of the rows that a test picks
  unfoldable pub update_where : (A → Bool) → (A → A) → List A → List A
  update_where p f [] = []
  update_where p f (x ∷ xs) = (if p x then f x else x) ∷ update_where p f xs

  pub length-append : (xs ys : List A) → length (xs ++ ys) ≡ length xs + length ys
  length-append [] ys = omega arith
  length-append (x ∷ xs) ys = omega (arith, length-append xs ys)

  pub length-take-le : (n : ℕ) (xs : List A) → length (take n xs) ≤ n
  length-take-le zero xs = omega arith
  length-take-le (suc n) [] = omega arith
  length-take-le (suc n) (x ∷ xs) = omega (arith, length-take-le n xs)

  pub take-append-drop : (n : ℕ) (xs : List A) → take n xs ++ drop n xs ≡ xs
  take-append-drop zero xs = refl
  take-append-drop (suc n) [] = refl
  take-append-drop (suc n) (x ∷ xs) = ap (λ r. x ∷ r) (take-append-drop n xs)

module _ {ℓ κ} {A : Type ℓ} where
  -- every element satisfies a predicate
  abbrev pub All : (A → Type κ) → List A → Type κ
  All P [] = Unit
  All P (x ∷ xs) = P x × All P xs

module _ {ℓ κ} {A : Type ℓ} (P : A → Type κ) where
  pub All-find : (p : A → Bool) (xs : List A) (a : A) → All P xs → find p xs ≡ some a → P a
  All-find p [] a h e = cc
  All-find p (x ∷ xs) a h e = ground (arith, All-find p xs a h.1)

  pub All-append : (xs ys : List A) → All P xs → All P ys → All P (xs ++ ys)
  All-append [] ys h k = k
  All-append (x ∷ xs) ys h k = (h.0, All-append xs ys h.1 k)

  pub All-take : (n : Prim.Native.Nat.ℕ) (xs : List A) → All P xs → All P (take n xs)
  All-take zero xs h = tt
  All-take (suc n) [] h = tt
  All-take (suc n) (x ∷ xs) h = (h.0, All-take n xs h.1)

  pub All-select : (p : A → Bool) (xs : List A) → All P xs → All P (select p xs)
  All-select p [] h = tt
  All-select p (x ∷ xs) h = ground (arith, All-select p xs h.1)

  pub All-update_where :
      (p : A → Bool) (f : A → A) (xs : List A)
      → ((a : A) → p a ≡ true → P a → P (f a))
      → All P xs
      → All P (update_where p f xs)
  unfolding update_where
  All-update_where p f [] k h = tt
  All-update_where p f (x ∷ xs) k h =
      let rest = All-update_where p f xs k h.1 in
      elim (Bool-cases (p x)) [
        | inl hit ↦ (subst (λ b. P (if b then f x else x)) (sym hit) (k x hit h.0), rest)
        | inr miss ↦ (subst (λ b. P (if b then f x else x)) (sym miss) h.0, rest)
      ]

module _ {ℓ} {A : Type ℓ} where
  pub find-holds : (p : A → Bool) (xs : List A) (a : A) → find p xs ≡ some a → p a ≡ true
  find-holds p [] a e = cc
  find-holds p (x ∷ xs) a e = ground (arith, find-holds p xs a)

  -- the rows that a test does not pick, and those of a map
  pub exists-map {κ} :
      {B : Type κ} (p : B → Bool) (f : A → B) (xs : List A)
      → exists p (map f xs) ≡ exists (λ x. p (f x)) xs
  exists-map p f [] = refl
  exists-map p f (x ∷ xs) = ap (λ b. if p (f x) then true else b) (exists-map p f xs)

  pub map-update_where {κ} :
      {B : Type κ} (g : A → B) (p : A → Bool) (f : A → A) (xs : List A)
      → ((a : A) → g (f a) ≡ g a)
      → map g (update_where p f xs) ≡ map g xs
  unfolding update_where
  map-update_where g p f [] h = refl
  map-update_where g p f (x ∷ xs) h =
      let rest = map-update_where g p f xs h in
      elim (Bool-cases (p x)) [
        | inl hit ↦ rw (hit, rest, h x) refl
        | inr miss ↦ rw (miss, rest) refl
      ]

  pub none_exists : (p : A → Bool) (xs : List A) → exists p xs ≡ false → All (λ x. p x ≡ false) xs
  none_exists p [] h = tt
  none_exists p (x ∷ xs) h = (ground arith, none_exists p xs (ground arith))

module _ {ℓ κ μ} {A : Type ℓ} where
  pub All_weaken :
      (P : A → Type κ) (Q : A → Type μ) (xs : List A) → ((a : A) → P a → Q a) → All P xs → All Q xs
  All_weaken P Q [] f h = tt
  All_weaken P Q (x ∷ xs) f h = (f x h.0, All_weaken P Q xs f h.1)

  pub All_both :
      (P : A → Type κ) (Q : A → Type μ) (xs : List A)
      → All P xs
      → All Q xs
      → All (λ a. P a × Q a) xs
  All_both P Q [] h k = tt
  All_both P Q (x ∷ xs) h k = ((h.0, k.0), All_both P Q xs h.1 k.1)

module _ {ℓ κ μ} {A : Type ℓ} {B : Type κ} (P : B → Type μ) (f : A → B) where
  pub All-map : (xs : List A) → All P (map f xs) → All (λ x. P (f x)) xs
  All-map [] h = tt
  All-map (x ∷ xs) h = (h.0, All-map xs h.1)
