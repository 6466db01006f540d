-- ===== src/Ledger/Reads/Order.antt =====
-- The order of `ListEntries` of internal/ledger/repo.go.
use fault_tolerant_payment_l.Base.{
  ◌==◌, ◌≡◌, refl, inl, inr, arith, Text, Bool, true, false, List, [], ◌∷◌, ◌++◌, All, select,
  All_weaken, All-select, Bool-cases,
}
use fault_tolerant_payment_l.Store.Schema.{Entry}
use fault_tolerant_payment_l.Ledger.Reads.{is_older, place, newest_first, is_of, history, last_of}

-- `b` stands after `a` on the pages
abbrev pub Older : Entry → Entry → Type 0
Older a b = is_older a.created_at a.id b ≡ true

abbrev pub Descending : List Entry → Type 0
Descending [] = Unit
Descending (e ∷ es) = All (Older e) es × Descending es

-- The primary key of `ledger_entries`.
abbrev pub DistinctEntries : List Entry → Type 0
DistinctEntries [] = Unit
DistinctEntries (e ∷ es) = All (λ (x : Entry). (x.id == e.id) ≡ false) es × DistinctEntries es

Older-trans : (a b c : Entry) → Older a b → Older b c → Older a c
Older-trans a b c h k = ground arith

Older-total :
    (a b : Entry) → (b.id == a.id) ≡ false → is_older a.created_at a.id b ≡ false → Older b a
Older-total a b h k = ground arith

not-Older : (a b : Entry) → Older a b → is_older b.created_at b.id a ≡ false
not-Older a b h = ground arith

not_older_self : (a : Entry) → is_older a.created_at a.id a ≡ false
not_older_self a = ground arith

module _ {ℓ} (P : Entry → Type ℓ) where
  All-place : (e : Entry) (es : List Entry) → P e → All P es → All P (place e es)
  unfolding place
  All-place e [] p h = (p, tt)
  All-place e (x ∷ xs) p h =
      let rest = All-place e xs p h.1 in
      elim (Bool-cases (is_older e.created_at e.id x)) [
        | inl k ↦ rw k (p, h)
        | inr k ↦ rw k (h.0, rest)
      ]

  All-newest_first : (es : List Entry) → All P es → All P (newest_first es)
  unfolding newest_first
  All-newest_first [] h = tt
  All-newest_first (e ∷ es) h = All-place e (newest_first es) h.0 (All-newest_first es h.1)

place-Descending :
    (e : Entry) (es : List Entry)
    → All (λ (x : Entry). (x.id == e.id) ≡ false) es
    → Descending es
    → Descending (place e es)
unfolding place
place-Descending e [] free h = (tt, tt)
place-Descending e (x ∷ xs) free h =
    let rest = place-Descending e xs free.1 h.1 in
    elim (Bool-cases (is_older e.created_at e.id x)) [
      | inl k ↦ rw k ((k, All_weaken _ _ xs (λ y q. Older-trans e x y k q) h.0), h)
      | inr k ↦ rw k (All-place (Older x) e xs (Older-total e x free.0 k) h.0, rest)
    ]

newest_first-Descending : (es : List Entry) → DistinctEntries es → Descending (newest_first es)
unfolding newest_first
newest_first-Descending [] h = tt
newest_first-Descending (e ∷ es) h =
    place-Descending e (newest_first es) (All-newest_first (λ x. (x.id == e.id) ≡ false) es h.0)
      (newest_first-Descending es h.1)

select-DistinctEntries :
    (p : Entry → Bool) (es : List Entry) → DistinctEntries es → DistinctEntries (select p es)
select-DistinctEntries p [] h = tt
select-DistinctEntries p (e ∷ es) h =
    let rest = select-DistinctEntries p es h.1 in
    elim (Bool-cases (p e)) [
      | inl k ↦ rw k (All-select (λ x. (x.id == e.id) ≡ false) p es h.0, rest)
      | inr k ↦ rw k rest
    ]

pub history-Descending :
    (id : Text) (es : List Entry) → DistinctEntries es → Descending (history id es)
unfolding history
history-Descending id es h = newest_first-Descending _ (select-DistinctEntries (is_of id) es h)

select_all :
    (p : Entry → Bool) (es : List Entry) → All (λ (e : Entry). p e ≡ true) es → select p es ≡ es
select_all p [] h = refl
select_all p (e ∷ es) h = rw (h.0, select_all p es h.1) refl

All_last {ℓ} :
    (P : Entry → Type ℓ) (x : Entry) (xs rest : List Entry)
    → All P ((x ∷ xs) ++ rest)
    → P (last_of x xs)
unfolding last_of
All_last P x [] rest h = h.0
All_last P x (y ∷ ys) rest h = All_last P y ys rest h.1

after_chunk :
    (x : Entry) (xs rest : List Entry)
    → Descending ((x ∷ xs) ++ rest)
    → select (is_older (last_of x xs).created_at (last_of x xs).id) ((x ∷ xs) ++ rest) ≡ rest
unfolding last_of
after_chunk x [] rest h = rw (not_older_self x) (select_all _ rest h.0)
after_chunk x (y ∷ ys) rest h =
    rw (not-Older x (last_of y ys) (All_last (Older x) y ys rest h.0)) (after_chunk y ys rest h.1)

-- The entries before a cursor are those that follow its entry in the order.
pub select-is_older :
    (before : List Entry) (x : Entry) (xs rest : List Entry)
    → Descending (before ++ ((x ∷ xs) ++ rest))
    → select (is_older (last_of x xs).created_at (last_of x xs).id) (before ++ ((x ∷ xs) ++ rest))
      ≡ rest
select-is_older [] x xs rest h = after_chunk x xs rest h
select-is_older (b ∷ bs) x xs rest h =
    rw
      (not-Older b (last_of x xs)
        (All_last (Older b) x xs rest (All_after bs ((x ∷ xs) ++ rest) h.0)))
      (select-is_older bs x xs rest h.1)
  where
    All_after : (us vs : List Entry) → All (Older b) (us ++ vs) → All (Older b) vs
    All_after [] vs h = h
    All_after (u ∷ us) vs h = All_after us vs h.1
