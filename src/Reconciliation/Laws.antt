-- ===== src/Reconciliation/Laws.antt =====
-- What a report of `Run` says of the ledger.
use fault_tolerant_payment_l.Base.{
  ℕ, ltb, pos, eqb_ℤ, ◌≡◌, refl, sym, ◌∙◌, ap, subst, ◌↔◌, arith, Bool, true, false, not, ◌&&◌,
  ◌||◌, List, [], ◌∷◌, if◌then◌else◌, Bool-cases, inl, inr, eqb_ℤ_iff, ◌-ℤ◌,
}
use fault_tolerant_payment_l.Store.Schema.{
  Db, BalanceRow, TransactionRow, Entry, sum_of, count_of, is_balanced,
}
use fault_tolerant_payment_l.Int64.{wrap64}
use fault_tolerant_payment_l.Store.World.{World, ok}
use fault_tolerant_payment_l.Store.Inversion.{
  Same, Same-trans, >>=-elim, >>-elim, map_err-eq-ok, call-eq-ok, ok-eq-ok, pure-eq-ok,
  raise_if-eq-ok,
}
use fault_tolerant_payment_l.Ledger.Totals.{total_of}
use fault_tolerant_payment_l.Ledger.Consistent.{Reconciled, Balanced}
use fault_tolerant_payment_l.Reconciliation.{
  Mismatch, Report, is_empty, is_ok, check_balances, check_transactions, query, run,
}

query-ok : {d : Db} {w' : World} (w : World) → query w ≡ (ok d, w') → (d ≡ w.db) × Same w w'
unfolding query
query-ok w h =
    let (e, q) = ok-eq-ok (call-eq-ok _ _ h) in
    (sym e, record { db = ap (λ v. v.db) q; deferred = ap (λ v. v.deferred) q })

abbrev mismatch_at : List Entry → BalanceRow → Mismatch
mismatch_at es b = record {
  account_id = b.account_id;
  stored = b.amount;
  computed = total_of b.account_id es;
  delta = wrap64 (b.amount -ℤ total_of b.account_id es);
}

head :
    (es : List Entry) (b : BalanceRow) (bs : List BalanceRow) (others ms : List Mismatch)
    → (is_empty others ≡ true) ↔ Reconciled es bs
    → (if not (eqb_ℤ b.amount (total_of b.account_id es))
        then mismatch_at es b ∷ others
        else others)
      ≡ ms
    → (is_empty ms ≡ true) ↔ Reconciled es (b ∷ bs)
unfolding is_empty
head es b bs others ms k e = elim (Bool-cases (eqb_ℤ b.amount (total_of b.account_id es))) [
  | inl same ↦
      (let f : others ≡ ms = rw same at e in
        (
          λ z. ((eqb_ℤ_iff b.amount (total_of b.account_id es)).0 same, k.0 (ap is_empty f ∙ z)),
          λ z. ap is_empty (sym f) ∙ k.1 z.1,
        ))
  | inr differ ↦
      (let f : mismatch_at es b ∷ others ≡ ms = rw differ at e in
        (
          λ z. (let q : false ≡ true = ap is_empty f ∙ z in cc),
          λ z. (let q = (eqb_ℤ_iff b.amount (total_of b.account_id es)).1 z.0 in cc),
        ))
]

check_balances-Reconciled :
    {ms : List Mismatch} {w' : World} (es : List Entry) (bs : List BalanceRow) (w : World)
    → check_balances es bs w ≡ (ok ms, w')
    → ((is_empty ms ≡ true) ↔ Reconciled es bs) × Same w w'
unfolding check_balances is_empty
check_balances-Reconciled es [] w h =
    let (e, s) = pure-eq-ok _ _ h in ((λ k. tt, λ k. subst (λ xs. is_empty xs ≡ true) e refl), s)
check_balances-Reconciled {ms} es (b ∷ bs) w h = >>-elim _ _ _ h λ _ w1 h1 k1.
    >>=-elim _ _ _ k1 λ others w2 h2 h3.
      (let (fits, s1) = raise_if-eq-ok _ _ _ h1 in
        let (rest, s2) = check_balances-Reconciled es bs w1 h2 in
        let (e, s3) = pure-eq-ok _ _ h3 in
        (head es b bs others ms rest e, Same-trans s1 (Same-trans s2 s3)))

row :
    (es : List Entry) (t : TransactionRow) (ts : List TransactionRow) (others xs : List ℕ)
    → (is_empty others ≡ true) ↔ Balanced es ts
    → (if not (eqb_ℤ (sum_of t.id es) (pos 0)) || ltb (count_of t.id es) 2
        then t.id ∷ others
        else others)
      ≡ xs
    → (is_empty xs ≡ true) ↔ Balanced es (t ∷ ts)
unfolding is_empty is_balanced
row es t ts others xs k e =
    let bad : (not (eqb_ℤ (sum_of t.id es) (pos 0)) || ltb (count_of t.id es) 2)
        ≡ not (is_balanced t.id es) =
      ground arith in
    elim (Bool-cases (is_balanced t.id es)) [
      | inl good ↦
          (let f : others ≡ xs = rw (bad, good) at e in
            (λ z. (good, k.0 (ap is_empty f ∙ z)), λ z. ap is_empty (sym f) ∙ k.1 z.1))
      | inr wrong ↦
          (let f : t.id ∷ others ≡ xs = rw (bad, wrong) at e in
            (λ z. (let q : false ≡ true = ap is_empty f ∙ z in cc), λ z. (let q = z.0 in cc)))
    ]

check_transactions-Balanced :
    {xs : List ℕ} {w' : World} (es : List Entry) (ts : List TransactionRow) (w : World)
    → check_transactions es ts w ≡ (ok xs, w')
    → ((is_empty xs ≡ true) ↔ Balanced es ts) × Same w w'
unfolding check_transactions is_empty
check_transactions-Balanced es [] w h =
    let (e, s) = pure-eq-ok _ _ h in ((λ k. tt, λ k. subst (λ xs. is_empty xs ≡ true) e refl), s)
check_transactions-Balanced {xs} es (t ∷ ts) w h = >>-elim _ _ _ h λ _ w1 h1 k1.
    >>=-elim _ _ _ k1 λ others w2 h2 h3.
      (let (fits, s1) = raise_if-eq-ok _ _ _ h1 in
        let (rest, s2) = check_transactions-Balanced es ts w1 h2 in
        let (e, s3) = pure-eq-ok _ _ h3 in
        (row es t ts others xs rest e, Same-trans s1 (Same-trans s2 s3)))

both : (a b : Bool) (P Q : Type 0) → (a ≡ true) ↔ P → (b ≡ true) ↔ Q → ((a && b) ≡ true) ↔ (P × Q)
both true true P Q h k = (λ z. (h.0 refl, k.0 refl), λ z. refl)
both true false P Q h k = (λ z. cc, λ z. k.1 z.1)
both false b P Q h k = (λ z. cc, λ z. h.1 z.0)

-- A report is clean exactly when every balance is the sum of its entries and every transaction balances; and
-- a run writes nothing.
pub run_clean_iff :
    (w : World) (r : Report) (w' : World)
    → run w ≡ (ok r, w')
    → ((is_ok r ≡ true)
        ↔ (Reconciled w.db.entries w.db.balances × Balanced w.db.entries w.db.transactions))
      × (w'.db ≡ w.db)
unfolding run is_ok
run_clean_iff w r w' h = >>=-elim _ _ _ h λ d w1 h1 k1. >>=-elim _ _ _ k1 λ ms w2 h2 k2.
    >>=-elim _ _ _ k2 λ d' w3 h3 k3. >>=-elim _ _ _ k3 λ xs w4 h4 h5.
      (let (e1, s1) = query-ok w (map_err-eq-ok _ _ _ h1) in
        let (a, s2) = check_balances-Reconciled d.entries d.balances w1 h2 in
        let (e2, s3) = query-ok w2 (map_err-eq-ok _ _ _ h3) in
        let (b, s4) = check_transactions-Balanced d'.entries d'.transactions w3 h4 in
        let (e, s5) = pure-eq-ok _ _ h5 in
        let here : d' ≡ w.db = e2 ∙ s2.db ∙ s1.db in
        let a' : (is_empty ms ≡ true) ↔ Reconciled w.db.entries w.db.balances =
          subst (λ (x : Db). (is_empty ms ≡ true) ↔ Reconciled x.entries x.balances) e1 a in
        let b' : (is_empty xs ≡ true) ↔ Balanced w.db.entries w.db.transactions =
          subst (λ (x : Db). (is_empty xs ≡ true) ↔ Balanced x.entries x.transactions) here b in
        let m : ms ≡ r.mismatches = ap (λ (x : Report). x.mismatches) e in
        let n : xs ≡ r.unbalanced_tx_ids = ap (λ (x : Report). x.unbalanced_tx_ids) e in
        (
          both _ _ _ _
              (subst (λ z. (is_empty z ≡ true) ↔ Reconciled w.db.entries w.db.balances) m a')
              (subst (λ z. (is_empty z ≡ true) ↔ Balanced w.db.entries w.db.transactions) n b'),
          s5.db ∙ s4.db ∙ s3.db ∙ s2.db ∙ s1.db,
        ))
