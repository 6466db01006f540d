-- ===== src/Ledger/Repo.antt =====
-- internal/ledger/repo.go: the statements of a payment, each with the constraints that the schema
-- puts on it.
pub mod Reversal
pub mod Load
use fault_tolerant_payment_l.Base.{
  ℕ, suc, ◌==◌, ℤ, pos, ◌+ℤ◌, eqb_ℤ, leb_ℤ, Text, text, text_eq, Bool, false, not, ◌&&◌, ◌||◌,
  Option, none, some, List, [], ◌∷◌, find, exists, is_some, leb, if◌then◌else◌,
}
use fault_tolerant_payment_l.Apperr.{
  Code, Detail, GoError, app, wrapped, pg, no_rows, is_no_rows, new, with_detail, as_pg,
}
use fault_tolerant_payment_l.Apperr.Errors.{
  unknown_account, insufficient_funds, currency_mismatch, invalid_request,
}
use fault_tolerant_payment_l.Int64.{in_int64}
use fault_tolerant_payment_l.Store.Schema.{
  Db, Account, BalanceRow, TransactionRow, Entry, ReversalRow, Transaction, is_currency,
}
use fault_tolerant_payment_l.Store.World.{
  World, Exec, Result, ok, err, call, pure, map_err, ◌>>=◌, ◌>>◌,
}
use fault_tolerant_payment_l.Store.Tx.{
  is_unique_violation, is_check_violation, is_foreign_key_violation, check_violation,
  unique_violation, foreign_key_violation, out_of_range,
}
use fault_tolerant_payment_l.Ledger.Model.{tx_kind_transfer, tx_kind_funding, tx_kind_reversal}
use fault_tolerant_payment_l.Ledger.Locks.{has_balance}

-- The constraints of a statement, in the order in which the server tests them: each is the test that
-- fails with the error that the server raises.
unfoldable pub run_checks : List (Bool × GoError) → World → World → Result (Unit {0}) × World
run_checks [] before after = (ok tt, after)
run_checks ((broken, e) ∷ cs) before after =
    let rest = run_checks cs before after in if broken then (err e, before) else rest

abbrev pub has_id : ℕ → TransactionRow → Bool
has_id id t = t.id == id

abbrev pub reverses : ℕ → TransactionRow → Bool
reverses id t = elim t.reverses_transaction_id [ none ↦ false | some r ↦ r == id ]

-- a test of a column that may be NULL
abbrev pub when_some : Option ℕ → (ℕ → Bool) → Bool
when_some none p = false
when_some (some a) p = p a

abbrev pub is_tx_kind : Text → Bool
is_tx_kind k = text_eq k tx_kind_transfer || text_eq k tx_kind_funding || text_eq k tx_kind_reversal

abbrev pub one_reversal : Text
one_reversal = text "ledger_transactions_one_reversal"

abbrev pub balances_non_negative : Text
balances_non_negative = text "balances_non_negative"

unfoldable pub add_transaction : ℕ → Transaction → Db → Db
add_transaction at t d = record d {
  transactions =
      record {
        id = t.id;
        kind = t.kind;
        currency = t.currency;
        description = t.description;
        external_reference = t.external_reference;
        reverses_transaction_id = t.reverses_transaction_id;
        created_at = at;
      }
      ∷ d.transactions;
}

unfoldable pub insert_transaction_row : Transaction → World → Result (Unit {0}) × World
insert_transaction_row t w =
    let is_reversal = text_eq t.kind tx_kind_reversal in
    let points = is_some t.reverses_transaction_id in
    run_checks
      ((not (is_tx_kind t.kind), pg check_violation [])
        ∷ (not (is_currency t.currency), pg check_violation [])
        ∷ (
          (is_reversal && not points) || (not is_reversal && points),
          pg check_violation (text "reversal_points_at_original"),
        )
        ∷ (
          exists (has_id t.id) w.db.transactions,
          pg unique_violation (text "ledger_transactions_pkey"),
        )
        ∷ (
          when_some t.reverses_transaction_id (λ r. exists (reverses r) w.db.transactions),
          pg unique_violation one_reversal,
        )
        ∷ (
          when_some t.reverses_transaction_id
              (λ r. not ((r == t.id) || exists (has_id r) w.db.transactions)),
          pg foreign_key_violation [],
        )
        ∷ [])
      w (record w { db = add_transaction w.db_now t w.db })

abbrev pub deref_uuid : Option ℕ → ℕ
deref_uuid none = 0
deref_uuid (some a) = a

unfoldable pub already_reversed : ℕ → GoError
already_reversed id =
    app
      (with_detail (text "transaction_id") (Detail.uuid id) (new Code.transaction_already_reversed))

insert_transaction_error : Transaction → GoError → GoError
unfolding already_reversed
insert_transaction_error t e =
    if is_unique_violation e one_reversal
    then already_reversed (deref_uuid t.reverses_transaction_id)
    else wrapped (text "ledger: insert transaction") e

-- `insertTransaction`
unfoldable pub insert_transaction : Transaction → Exec (Unit {0})
unfolding insert_transaction_error
insert_transaction t = map_err (insert_transaction_error t) (call (insert_transaction_row t))

abbrev pub is_transaction_in : ℕ → Text → TransactionRow → Bool
is_transaction_in id currency t = (t.id == id) && text_eq t.currency currency

abbrev pub is_account_in : Text → Text → Account → Bool
is_account_in id currency a = text_eq a.id id && text_eq a.currency currency

abbrev pub has_seq : ℕ → ℕ → Entry → Bool
has_seq t seq e = (e.transaction_id == t) && (e.seq == seq)

abbrev pub has_entry_id : ℕ → Entry → Bool
has_entry_id id e = e.id == id

-- The composite foreign keys imply the plain ones. `seq` is a natural number, which its CHECK wants.
unfoldable pub insert_entry_row : Entry → World → Result (Unit {0}) × World
insert_entry_row e w =
    run_checks
      ((eqb_ℤ e.amount (pos 0), pg check_violation [])
        ∷ (
          exists (has_entry_id e.id) w.db.entries,
          pg unique_violation (text "ledger_entries_pkey"),
        )
        ∷ (
          exists (has_seq e.transaction_id e.seq) w.db.entries,
          pg unique_violation (text "ledger_entries_tx_seq_key"),
        )
        ∷ (
          not (exists (is_transaction_in e.transaction_id e.currency) w.db.transactions),
          pg foreign_key_violation (text "ledger_entries_tx_currency_fk"),
        )
        ∷ (
          not (exists (is_account_in e.account_id e.currency) w.db.accounts),
          pg foreign_key_violation (text "ledger_entries_account_currency_fk"),
        )
        ∷ [])
      w
      (record w {
        db = record w.db { entries = record e { created_at = w.db_now } ∷ w.db.entries };
        deferred = e.transaction_id ∷ w.deferred;
      })

insert_entry_error : GoError → GoError
insert_entry_error e =
    if is_foreign_key_violation e
    then app currency_mismatch
    else wrapped (text "ledger: insert entry") e

unfoldable pub insert_entry : Entry → Exec (Unit {0})
unfolding insert_entry_error
insert_entry e = map_err insert_entry_error (call (insert_entry_row e))

-- `insertEntries`
unfoldable pub insert_entries : List Entry → Exec (Unit {0})
insert_entries [] = pure tt
insert_entries (e ∷ es) = insert_entry e >> insert_entries es

-- `UPDATE balances SET amount = amount + $2, version = version + 1 WHERE account_id = $1`
unfoldable pub add_to_balance : ℕ → Text → ℤ → List BalanceRow → List BalanceRow
add_to_balance at id delta [] = []
add_to_balance at id delta (b ∷ bs) =
    (if text_eq b.account_id id
      then record b { amount = b.amount +ℤ delta; version = suc b.version; updated_at = at }
      else b)
    ∷ add_to_balance at id delta bs

-- the update of the row that was found, with its constraints
unfoldable pub update_balance_row : Text → ℤ → BalanceRow → World → Result (Unit {0}) × World
update_balance_row id delta b w =
    run_checks
      ((not (in_int64 (b.amount +ℤ delta)), pg out_of_range [])
        ∷ (
          not (b.allow_overdraft || leb_ℤ (pos 0) (b.amount +ℤ delta)),
          pg check_violation balances_non_negative,
        )
        ∷ [])
      w
      (record w { db = record w.db { balances = add_to_balance w.db_now id delta w.db.balances } })

unfoldable pub update_balance : Text → ℤ → World → Result (Unit {0}) × World
update_balance id delta w = elim (find (has_balance id) w.db.balances) [
  | none ↦ (err no_rows, w)
  | some b ↦ update_balance_row id delta b w
]

apply_error : Text → GoError → GoError
apply_error id e =
    if is_check_violation e balances_non_negative
    then app (insufficient_funds id)
    else if is_no_rows e
    then unknown_account id
    else wrapped (text "ledger: update balance") e

-- `applyBalanceDelta`; its callers ignore the amount that it returns
unfoldable pub apply_balance_delta : Text → ℤ → Exec (Unit {0})
unfolding apply_error
apply_balance_delta id delta = map_err (apply_error id) (call (update_balance id delta))
