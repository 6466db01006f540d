-- ===== src/Ledger/Effect.antt =====
-- What a payment that succeeds has written, statement by statement.
use fault_tolerant_payment_l.Base.{
  ℕ, ◌≡◌, refl, sym, ◌∙◌, ap, subst, pos, eqb_ℤ, Bool, true, false, not, List, [], ◌∷◌, All, exists,
}
use fault_tolerant_payment_l.Apperr.{GoError}
use fault_tolerant_payment_l.Store.Schema.{Db, Account, TransactionRow, Entry, Transaction}
use fault_tolerant_payment_l.Store.World.{World, ok, rest_calls}
use fault_tolerant_payment_l.Store.Inversion.{>>-elim, map_err-eq-ok, call-eq-ok, pure-eq-ok}
use fault_tolerant_payment_l.Ledger.Repo.{
  insert_transaction, insert_transaction_row, add_transaction, insert_entry, insert_entry_row,
  insert_entries, run_checks, has_id, reverses, when_some, is_transaction_in, is_account_in,
  has_entry_id,
}

-- A statement that succeeds met none of its constraints.
pub run_checks-eq-ok :
    {u : Unit {0}} {w' : World} (cs : List (Bool × GoError)) (before after : World)
    → run_checks cs before after ≡ (ok u, w')
    → All (λ (c : Bool × GoError). c.0 ≡ false) cs × (w' ≡ after)
unfolding run_checks
run_checks-eq-ok [] before after h = (tt, cc)
run_checks-eq-ok ((true, e) ∷ cs) before after h = cc
run_checks-eq-ok ((false, e) ∷ cs) before after h =
    let (rest, same) = run_checks-eq-ok cs before after h in ((refl, rest), same)

-- A header was inserted: its id and the transaction that it reverses were free.
pub record Headed (t : Transaction) (w w' : World) : Type 0 where
  pub at : ℕ
  pub stored : w'.db ≡ add_transaction at t w.db
  pub deferred : w'.deferred ≡ w.deferred
  pub id_free : exists (has_id t.id) w.db.transactions ≡ false
  pub reversal_free :
      when_some t.reverses_transaction_id (λ r. exists (reverses r) w.db.transactions) ≡ false

pub insert_transaction-Headed :
    {u : Unit {0}} {w' : World} (t : Transaction) (w : World)
    → insert_transaction t w ≡ (ok u, w')
    → Headed t w w'
unfolding insert_transaction insert_transaction_row
insert_transaction-Headed t w h =
    let (checks, e) = run_checks-eq-ok _ _ _ (call-eq-ok _ _ (map_err-eq-ok _ _ _ h)) in
    record {
      at = w.db_now;
      stored = ap (λ v. v.db) e;
      deferred = ap (λ v. v.deferred) e;
      id_free = checks.1.1.1.0;
      reversal_free = checks.1.1.1.1.0;
    }

-- Some entries were inserted in turn, each within its constraints.
pub data Pushed (txs : List TransactionRow) (accts : List Account)
    : List Entry → List Entry → List Entry → Type 0 where
  done : {old : List Entry} → Pushed txs accts [] old old
  push :
      {e : Entry} {es old new : List Entry} (at : ℕ)
      → eqb_ℤ e.amount (pos 0) ≡ false
      → exists (has_entry_id e.id) old ≡ false
      → exists (is_transaction_in e.transaction_id e.currency) txs ≡ true
      → exists (is_account_in e.account_id e.currency) accts ≡ true
      → Pushed txs accts es (record e { created_at = at } ∷ old) new
      → Pushed txs accts (e ∷ es) old new

-- the transactions of some entries, in front of those armed before
abbrev pub armed : List Entry → List ℕ → List ℕ
armed [] ts = ts
armed (e ∷ es) ts = armed es (e.transaction_id ∷ ts)

-- The tables but for the entries are kept.
pub record Inserted (es : List Entry) (w w' : World) : Type 0 where
  pub pushed : Pushed w.db.transactions w.db.accounts es w.db.entries w'.db.entries
  pub stored : w'.db ≡ record w.db { entries = w'.db.entries }
  pub deferred : w'.deferred ≡ armed es w.deferred

pub not-eq-false : (b : Bool) → not b ≡ false → b ≡ true
not-eq-false true h = refl
not-eq-false false h = cc

-- the world after an insertion
abbrev entered : Entry → World → World
entered e w = record w {
  calls = rest_calls w.calls;
  db = record w.db { entries = record e { created_at = w.db_now } ∷ w.db.entries };
  deferred = e.transaction_id ∷ w.deferred;
}

pub insert_entries-Inserted :
    {u : Unit {0}} {w' : World} (es : List Entry) (w : World)
    → insert_entries es w ≡ (ok u, w')
    → Inserted es w w'
unfolding insert_entries insert_entry insert_entry_row
insert_entries-Inserted [] w h =
    let s = (pure-eq-ok _ _ h).1 in
    record {
      pushed =
          subst (λ n. Pushed w.db.transactions w.db.accounts [] w.db.entries n)
            (sym (ap (λ (d : Db). d.entries) s.db)) done;
      stored = s.db ∙ ap (λ n. record w.db { entries = n }) (sym (ap (λ (d : Db). d.entries) s.db));
      deferred = s.deferred;
    }
insert_entries-Inserted {u} {w'} (e ∷ es) w h = >>-elim _ _ _ h λ _ w1 first others.
    let (checks, q) = run_checks-eq-ok _ _ _ (call-eq-ok _ _ (map_err-eq-ok _ _ _ first)) in
    let rest : Inserted es (entered e w) w' =
      subst (λ v. Inserted es v w') q (insert_entries-Inserted es w1 others) in
    record {
      pushed =
          push w.db_now checks.0 checks.1.0 (not-eq-false _ checks.1.1.1.0)
            (not-eq-false _ checks.1.1.1.1.0) rest.pushed;
      stored = rest.stored;
      deferred = rest.deferred;
    }
