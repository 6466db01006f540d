-- ===== src/Ledger/Reverse/Mirror.antt =====
-- The mirrored entries of a transaction that balances.
use fault_tolerant_payment_l.Base.{
  ℕ, ◌==◌, ◌≡◌, arith, inl, inr, true, leb, List, [], ◌∷◌, All, Bool-cases,
}
use fault_tolerant_payment_l.Store.Schema.{Entry, is_balanced, count_of}
use fault_tolerant_payment_l.Ledger.Repo.Load.{entries_of, insert_by_seq}
use fault_tolerant_payment_l.Ledger.Consistent.{IsOwn}
use fault_tolerant_payment_l.Ledger.Reverse.Execution.{Mirrored}

-- A list that has an element.
abbrev pub IsCons : List Entry → Type 0
IsCons [] = ⊥
IsCons (e ∷ es) = Unit

insert_by_seq-IsCons : (e : Entry) (es : List Entry) → IsCons (insert_by_seq e es)
unfolding insert_by_seq
insert_by_seq-IsCons e [] = tt
insert_by_seq-IsCons e (f ∷ fs) = elim (Bool-cases (leb e.seq f.seq)) [
  | inl b ↦ rw b tt
  | inr b ↦ rw b tt
]

entries_of-IsCons :
    (t : ℕ) (es : List Entry) → leb 1 (count_of t es) ≡ true → IsCons (entries_of t es)
unfolding count_of entries_of
entries_of-IsCons t [] h = cc
entries_of-IsCons t (e ∷ es) h = elim (Bool-cases (e.transaction_id == t)) [
  | inl mine ↦ rw mine (insert_by_seq-IsCons e (entries_of t es))
  | inr other ↦ rw other (entries_of-IsCons t es (rw other at h))
]

pub is_balanced-IsCons :
    (t : ℕ) (es : List Entry) → is_balanced t es ≡ true → IsCons (entries_of t es)
unfolding is_balanced
is_balanced-IsCons t es h = entries_of-IsCons t es (ground arith)

Mirrored-All :
    (id : ℕ) (es ms : List Entry)
    → Mirrored id es ms
    → All (λ (x : Entry). x.transaction_id ≡ id) ms
Mirrored-All id [] [] h = tt
Mirrored-All id [] (m ∷ ms) h = absurd h
Mirrored-All id (e ∷ es) [] h = absurd h
Mirrored-All id (e ∷ es) (m ∷ ms) h = (h.0, Mirrored-All id es ms h.3)

pub Mirrored-IsOwn : (id : ℕ) (es ms : List Entry) → Mirrored id es ms → IsCons es → IsOwn id ms
Mirrored-IsOwn id [] ms h k = absurd k
Mirrored-IsOwn id (e ∷ es) [] h k = h
Mirrored-IsOwn id (e ∷ es) (m ∷ ms) h k = (h.0, Mirrored-All id es ms h.3)
