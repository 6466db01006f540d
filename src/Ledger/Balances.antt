-- ===== src/Ledger/Balances.antt =====
-- The balances under the deltas of a payment.
use fault_tolerant_payment_l.Base.{
  ℕ, ◌≡◌, refl, sym, ◌∙◌, ap, subst, ◌⊎◌, inl, inr, ℤ, pos, ◌+ℤ◌, ◌≤ℤ◌, leb_ℤ, int_laws, arith,
  Text, text_eq, text_eq_iff, Bool, true, false, ◌||◌, some, List, [], ◌∷◌, All, exists, find,
  Bool-cases,
}
use fault_tolerant_payment_l.Store.Schema.{BalanceRow, Entry}
use fault_tolerant_payment_l.Ledger.Locks.{has_balance}
use fault_tolerant_payment_l.Ledger.Repo.{add_to_balance}
use fault_tolerant_payment_l.Ledger.Totals.{total_of}

-- Each balance has grown by the sum of its account's entries, and nothing else of it matters here.
abbrev pub Moved : List Entry → List BalanceRow → List BalanceRow → Type 0
Moved es [] [] = Unit
Moved es [] (c ∷ cs) = ⊥
Moved es (b ∷ bs) [] = ⊥
Moved es (b ∷ bs) (c ∷ cs) =
    (c.account_id ≡ b.account_id)
    × (c.allow_overdraft ≡ b.allow_overdraft)
    × (c.amount ≡ b.amount +ℤ total_of b.account_id es)
    × Moved es bs cs

pub Moved-nil : (bs : List BalanceRow) → Moved [] bs bs
unfolding total_of
Moved-nil [] = tt
Moved-nil (b ∷ bs) = (refl, refl, omega int_laws, Moved-nil bs)

pub add_to_balance-Moved :
    (at : ℕ) (e : Entry) (bs : List BalanceRow)
    → Moved (e ∷ []) bs (add_to_balance at e.account_id e.amount bs)
unfolding add_to_balance total_of
add_to_balance-Moved at e [] = tt
add_to_balance-Moved at e (b ∷ bs) =
    let rest = add_to_balance-Moved at e bs in
    elim (Bool-cases (text_eq b.account_id e.account_id)) [
      | inl same ↦ (
        ground arith,
        ground arith,
        grind (
          int_laws,
          text_eq_iff b.account_id e.account_id,
          text_eq_iff e.account_id b.account_id,
        ),
        rest,
      )
      | inr other ↦ (
        ground arith,
        ground arith,
        grind (
          int_laws,
          text_eq_iff b.account_id e.account_id,
          text_eq_iff e.account_id b.account_id,
        ),
        rest,
      )
    ]

regroup :
    (x : ℤ) (id : Text) (e : Entry) (es : List Entry)
    → x +ℤ total_of id (e ∷ []) +ℤ total_of id es ≡ x +ℤ total_of id (e ∷ es)
unfolding total_of
regroup x id e es = grind int_laws

pub Moved-cons :
    (e : Entry) (es : List Entry) (xs bs cs : List BalanceRow)
    → Moved (e ∷ []) xs bs
    → Moved es bs cs
    → Moved (e ∷ es) xs cs
unfolding total_of
Moved-cons e es [] [] [] h k = tt
Moved-cons e es [] [] (c ∷ cs) h k = k
Moved-cons e es [] (b ∷ bs) cs h k = absurd h
Moved-cons e es (a ∷ xs) [] cs h k = absurd h
Moved-cons e es (a ∷ xs) (b ∷ bs) [] h k = k
Moved-cons e es (a ∷ xs) (b ∷ bs) (c ∷ cs) h k = (
  k.0 ∙ h.0,
  k.1 ∙ h.1,
  k.2
      ∙ ap (λ j. b.amount +ℤ total_of j es) h.0
      ∙ ap (λ x. x +ℤ total_of a.account_id es) h.2
      ∙ regroup a.amount a.account_id e es,
  Moved-cons e es xs bs cs h.3 k.3,
)

-- The primary key of `balances`.
abbrev pub Keyed : List BalanceRow → Type 0
Keyed [] = Unit
Keyed (b ∷ bs) = (exists (has_balance b.account_id) bs ≡ false) × Keyed bs

-- No balance is negative, unless it may be overdrawn.
abbrev pub NonNegative : List BalanceRow → Type 0
NonNegative bs = All (λ (b : BalanceRow). (b.allow_overdraft ≡ true) ⊎ (pos 0 ≤ℤ b.amount)) bs

add_to_balance_absent :
    (at : ℕ) (id : Text) (delta : ℤ) (bs : List BalanceRow)
    → exists (has_balance id) bs ≡ false
    → add_to_balance at id delta bs ≡ bs
unfolding add_to_balance
add_to_balance_absent at id delta [] h = refl
add_to_balance_absent at id delta (b ∷ bs) h = ground (arith, add_to_balance_absent at id delta bs)

check_cases : (o : Bool) (z : ℤ) → (o || leb_ℤ (pos 0) z) ≡ true → (o ≡ true) ⊎ (pos 0 ≤ℤ z)
check_cases true z h = inl refl
check_cases false z h = inr (ground arith)

-- What was updated satisfied the CHECK, so a negative balance needs a permission to overdraw.
pub add_to_balance-NonNegative :
    (at : ℕ) (id : Text) (delta : ℤ) (bs : List BalanceRow) (b : BalanceRow)
    → Keyed bs
    → NonNegative bs
    → find (has_balance id) bs ≡ some b
    → (b.allow_overdraft || leb_ℤ (pos 0) (b.amount +ℤ delta)) ≡ true
    → NonNegative (add_to_balance at id delta bs)
unfolding add_to_balance
add_to_balance-NonNegative at id delta [] b key h f c = tt
add_to_balance-NonNegative at id delta (x ∷ bs) b key h f c =
    elim (Bool-cases (text_eq x.account_id id)) [
      | inl same ↦
          (let found : x ≡ b = ground arith in
            let e : x.account_id ≡ id = (text_eq_iff x.account_id id).0 same in
            let absent : exists (has_balance id) bs ≡ false =
              subst (λ j. exists (has_balance j) bs ≡ false) e key.0 in
            rw (same, add_to_balance_absent at id delta bs absent)
              (
                check_cases x.allow_overdraft (x.amount +ℤ delta) (
                    subst
                      (λ (y : BalanceRow).
                        (y.allow_overdraft || leb_ℤ (pos 0) (y.amount +ℤ delta)) ≡ true)
                      (sym found) c),
                h.1,
              ))
      | inr other ↦
          (let rest : find (has_balance id) bs ≡ some b = ground arith in
            rw other (h.0, add_to_balance-NonNegative at id delta bs b key.1 h.1 rest c))
    ]

Moved-exists :
    (es : List Entry) (id : Text) (bs cs : List BalanceRow)
    → Moved es bs cs
    → exists (has_balance id) cs ≡ exists (has_balance id) bs
Moved-exists es id [] [] h = refl
Moved-exists es id [] (c ∷ cs) h = absurd h
Moved-exists es id (b ∷ bs) [] h = absurd h
Moved-exists es id (b ∷ bs) (c ∷ cs) h = rw (h.0, Moved-exists es id bs cs h.3)

pub Moved-Keyed : (es : List Entry) (bs cs : List BalanceRow) → Moved es bs cs → Keyed bs → Keyed cs
Moved-Keyed es [] [] h k = tt
Moved-Keyed es [] (c ∷ cs) h k = absurd h
Moved-Keyed es (b ∷ bs) [] h k = absurd h
Moved-Keyed es (b ∷ bs) (c ∷ cs) h k = (
  Moved-exists es c.account_id bs cs h.3 ∙ ap (λ j. exists (has_balance j) bs) h.0 ∙ k.0,
  Moved-Keyed es bs cs h.3 k.1,
)
