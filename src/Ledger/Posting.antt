-- ===== src/Ledger/Posting.antt =====
-- What the ledger writes of a payment amount to: the header, the entries and the balances.
use fault_tolerant_payment_l.Base.{
  ◌≡◌, sym, ◌∙◌, ap, subst, ℕ, pos, ◌+ℤ◌, leb_ℤ, true, false, ◌||◌, some, List, [], ◌∷◌, exists,
  find, Option-cases, inl, inr,
}
use fault_tolerant_payment_l.Store.Schema.{Db, BalanceRow, Entry, Transaction}
use fault_tolerant_payment_l.Store.World.{World, ok, rest_calls}
use fault_tolerant_payment_l.Store.Inversion.{
  Same, >>-elim, map_err-eq-ok, call-eq-ok, pure-eq-ok, failpoint-Same,
}
use fault_tolerant_payment_l.Ledger.Locks.{has_balance}
use fault_tolerant_payment_l.Ledger.Repo.{
  add_transaction, apply_balance_delta, update_balance, update_balance_row, add_to_balance, has_id,
  reverses, when_some,
}
use fault_tolerant_payment_l.Ledger.Payment.{apply_deltas, sorted_entries_by_account, post}
use fault_tolerant_payment_l.Ledger.Totals.{total_of-sorted}
use fault_tolerant_payment_l.Ledger.Balances.{
  Moved, Moved-nil, Moved-cons, add_to_balance-Moved, Keyed, NonNegative,
  add_to_balance-NonNegative, Moved-Keyed,
}
use fault_tolerant_payment_l.Ledger.Effect.{
  Headed, insert_transaction-Headed, Pushed, armed, Inserted, insert_entries-Inserted,
  run_checks-eq-ok, not-eq-false,
}

-- The world after the update of a balance.
abbrev updated : Entry → World → World
updated e w = record w {
  calls = rest_calls w.calls;
  db = record w.db { balances = add_to_balance w.db_now e.account_id e.amount w.db.balances };
}

-- A balance was updated: its row was there and the CHECK passed.
record Updated (e : Entry) (w w' : World) : Type 0 where
  row : BalanceRow
  there : find (has_balance e.account_id) w.db.balances ≡ some row
  checked : (row.allow_overdraft || leb_ℤ (pos 0) (row.amount +ℤ e.amount)) ≡ true
  result : w' ≡ updated e w

apply_balance_delta-Updated :
    {u : Unit {0}} {w' : World} (e : Entry) (w : World)
    → apply_balance_delta e.account_id e.amount w ≡ (ok u, w')
    → Updated e w w'
unfolding apply_balance_delta update_balance update_balance_row
apply_balance_delta-Updated e w h =
    let k = call-eq-ok _ _ (map_err-eq-ok _ _ _ h) in
    elim (Option-cases (find (has_balance e.account_id) w.db.balances)) [
      | inl absent ↦ (let k' = rw (absent, update_balance) at k in cc)
      | inr (b, there) ↦
          (let k' = rw (there, update_balance) at k in
            let (checks, q) = run_checks-eq-ok _ _ _ k' in
            record { row = b; there = there; checked = not-eq-false _ checks.1.0; result = q })
    ]

-- Some deltas were applied in turn.
pub record Applied (es : List Entry) (w w' : World) : Type 0 where
  pub moved : Moved es w.db.balances w'.db.balances
  pub kept : Keyed w.db.balances → NonNegative w.db.balances → NonNegative w'.db.balances
  pub stored : w'.db ≡ record w.db { balances = w'.db.balances }
  pub deferred : w'.deferred ≡ w.deferred

pub apply_deltas-Applied :
    {u : Unit {0}} {w' : World} (es : List Entry) (w : World)
    → apply_deltas es w ≡ (ok u, w')
    → Applied es w w'
unfolding apply_deltas
apply_deltas-Applied [] w h =
    let s = (pure-eq-ok _ _ h).1 in
    let same = sym (ap (λ (d : Db). d.balances) s.db) in
    record {
      moved = subst (λ bs. Moved [] w.db.balances bs) same (Moved-nil w.db.balances);
      kept = λ k n. subst NonNegative same n;
      stored = s.db ∙ ap (λ bs. record w.db { balances = bs }) same;
      deferred = s.deferred;
    }
apply_deltas-Applied {u} {w'} (e ∷ es) w h = >>-elim _ _ _ h λ _ w1 first others.
    let up = apply_balance_delta-Updated e w first in
    let once = add_to_balance-Moved w.db_now e w.db.balances in
    let rest : Applied es (updated e w) w' =
      subst (λ v. Applied es v w') up.result (apply_deltas-Applied es w1 others) in
    record {
      moved =
          Moved-cons e es w.db.balances (updated e w).db.balances w'.db.balances once rest.moved;
      kept = λ k n.
          rest.kept (Moved-Keyed (e ∷ []) w.db.balances (updated e w).db.balances once k) (
            add_to_balance-NonNegative w.db_now e.account_id e.amount w.db.balances up.row k n
              up.there up.checked);
      stored = rest.stored;
      deferred = rest.deferred;
    }

Moved-sorted :
    (es : List Entry) (bs cs : List BalanceRow)
    → Moved (sorted_entries_by_account es) bs cs
    → Moved es bs cs
Moved-sorted es [] [] h = tt
Moved-sorted es [] (c ∷ cs) h = h
Moved-sorted es (b ∷ bs) [] h = h
Moved-sorted es (b ∷ bs) (c ∷ cs) h = (
  h.0,
  h.1,
  h.2 ∙ ap (λ x. b.amount +ℤ x) (total_of-sorted b.account_id es),
  Moved-sorted es bs cs h.3,
)

-- the tables with a new header, and with the entries and the balances given
abbrev pub with_payment : ℕ → Transaction → List Entry → List BalanceRow → Db → Db
with_payment at t es bs d = record d {
  transactions = (add_transaction at t d).transactions;
  entries = es;
  balances = bs;
}

-- A payment was posted.
pub record Posted (t : Transaction) (w w' : World) : Type 0 where
  pub at : ℕ
  pub stored : w'.db ≡ with_payment at t w'.db.entries w'.db.balances w.db
  pub deferred : w'.deferred ≡ armed t.entries w.deferred
  pub id_free : exists (has_id t.id) w.db.transactions ≡ false
  pub reversal_free :
      when_some t.reverses_transaction_id (λ r. exists (reverses r) w.db.transactions) ≡ false
  pub pushed :
      Pushed
        (add_transaction at t w.db).transactions
        w.db.accounts
        t.entries
        w.db.entries
        w'.db.entries
  pub moved : Moved t.entries w.db.balances w'.db.balances
  pub kept : Keyed w.db.balances → NonNegative w.db.balances → NonNegative w'.db.balances

module _ (at : ℕ) (t : Transaction) (d0 d1 d2 d3 d4 d5 : Db) where
  assemble :
      d1 ≡ add_transaction at t d0
      → d2 ≡ record d1 { entries = d2.entries }
      → d3 ≡ d2
      → d4 ≡ record d3 { balances = d4.balances }
      → d5 ≡ d4
      → (d5 ≡ with_payment at t d5.entries d5.balances d0)
        × (d5.entries ≡ d2.entries)
        × (d3.balances ≡ d0.balances)
        × (d1.entries ≡ d0.entries)
        × (d1.accounts ≡ d0.accounts)
  unfolding add_transaction
  assemble h1 h2 h3 h4 h5 =
      let es : d5.entries ≡ d2.entries =
        ap (λ (d : Db). d.entries) (h5 ∙ h4) ∙ ap (λ (d : Db). d.entries) h3 in
      let bs : d5.balances ≡ d4.balances = ap (λ (d : Db). d.balances) h5 in
      (
        h5
            ∙ h4
            ∙ ap (λ (d : Db). record d { balances = d4.balances })
                (h3 ∙ h2 ∙ ap (λ (d : Db). record d { entries = d2.entries }) h1)
            ∙ ap (λ n. with_payment at t n d4.balances d0) (sym es)
            ∙ ap (λ n. with_payment at t d5.entries n d0) (sym bs),
        es,
        ap (λ (d : Db). d.balances) h3
            ∙ ap (λ (d : Db). d.balances)
                (h2 ∙ ap (λ (d : Db). record d { entries = d2.entries }) h1),
        ap (λ (d : Db). d.entries) h1,
        ap (λ (d : Db). d.accounts) h1,
      )

posted :
    (t : Transaction) (w w1 w2 w3 w4 w' : World)
    → Headed t w w1
    → Inserted t.entries w1 w2
    → Same w2 w3
    → Applied (sorted_entries_by_account t.entries) w3 w4
    → Same w4 w'
    → Posted t w w'
posted t w w1 w2 w3 w4 w' a b c d e =
    let (stored, es, bs, old, accts) =
      assemble a.at t w.db w1.db w2.db w3.db w4.db w'.db a.stored b.stored c.db d.stored e.db in
    let final : w'.db.balances ≡ w4.db.balances = ap (λ (x : Db). x.balances) e.db in
    record {
      at = a.at;
      stored = stored;
      deferred =
          e.deferred ∙ d.deferred ∙ c.deferred ∙ b.deferred ∙ ap (armed t.entries) a.deferred;
      id_free = a.id_free;
      reversal_free = a.reversal_free;
      pushed =
          subst
            (λ n.
              Pushed (add_transaction a.at t w.db).transactions w.db.accounts t.entries w.db.entries
                n)
            (sym es)
            (subst
              (λ o.
                Pushed (add_transaction a.at t w.db).transactions w.db.accounts t.entries o
                  w2.db.entries)
              old
              (subst
                (λ x.
                  Pushed (add_transaction a.at t w.db).transactions x t.entries w1.db.entries
                    w2.db.entries)
                accts
                (subst (λ x. Pushed x w1.db.accounts t.entries w1.db.entries w2.db.entries)
                  (ap (λ (x : Db). x.transactions) a.stored) b.pushed)));
      moved = Moved-sorted t.entries w.db.balances w'.db.balances (
          subst (λ x. Moved (sorted_entries_by_account t.entries) x w'.db.balances) bs
            (subst (λ x. Moved (sorted_entries_by_account t.entries) w3.db.balances x) (sym final)
              d.moved));
      kept = λ k n.
          subst NonNegative (sym final)
            (d.kept (subst Keyed (sym bs) k) (subst NonNegative (sym bs) n));
    }

-- Every write of a payment, from the success of `post`.
pub post-Posted :
    {u : Unit {0}} {w' : World} (t : Transaction) (w : World)
    → post t w ≡ (ok u, w')
    → Posted t w w'
unfolding post
post-Posted {u} {w'} t w h = >>-elim _ _ _ h λ _ w1 h1 k1. >>-elim _ _ _ k1 λ _ w2 h2 k2.
    >>-elim _ _ _ k2 λ _ w3 h3 k3. >>-elim _ _ _ k3 λ _ w4 h4 h5.
      posted t w w1 w2 w3 w4 w' (insert_transaction-Headed t w h1)
        (insert_entries-Inserted t.entries w1 h2) (failpoint-Same _ w2 h3)
        (apply_deltas-Applied (sorted_entries_by_account t.entries) w3 h4) (failpoint-Same _ w4 h5)
