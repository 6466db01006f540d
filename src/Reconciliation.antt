-- ===== src/Reconciliation.antt =====
-- internal/reconciliation/reconcile.go: the stored balances against the sums of the entries. Metrics, logs
-- and the clock are left out. A SUM is a numeric, which pgx reads into an int64 or refuses.
pub mod Laws
use fault_tolerant_payment_l.Base.{
  ℕ, suc, ltb, ℤ, pos, ◌-ℤ◌, eqb_ℤ, Text, text, Bool, true, false, not, ◌&&◌, ◌||◌, List, [], ◌∷◌,
  if◌then◌else◌,
}
use fault_tolerant_payment_l.Apperr.{GoError, wrapped, plain}
use fault_tolerant_payment_l.Int64.{wrap64, in_int64}
use fault_tolerant_payment_l.Store.Schema.{Db, BalanceRow, TransactionRow, Entry, sum_of, count_of}
use fault_tolerant_payment_l.Store.World.{
  World, Exec, Result, ok, err, pure, raise_if, call, map_err, ◌>>=◌, ◌>>◌,
}
use fault_tolerant_payment_l.Ledger.Totals.{total_of}

-- `Mismatch`
pub record Mismatch : Type 0 where
  pub account_id : Text
  pub stored : ℤ
  pub computed : ℤ
  pub delta : ℤ

-- `Report`
pub record Report : Type 0 where
  pub accounts_checked : ℕ
  pub transactions_checked : ℕ
  pub mismatches : List Mismatch
  pub unbalanced_tx_ids : List ℕ

unfoldable pub is_empty : {A : Type 0} → List A → Bool
is_empty [] = true
is_empty (x ∷ xs) = false

-- `OK`
unfoldable pub is_ok : Report → Bool
is_ok r = is_empty r.mismatches && is_empty r.unbalanced_tx_ids

overflow : GoError
overflow = plain (text "cannot scan numeric into int64")

-- the first loop of `Run`
unfoldable pub check_balances : List Entry → List BalanceRow → Exec (List Mismatch)
unfolding overflow
check_balances es [] = pure []
check_balances es (b ∷ bs) = do
  raise_if (not (in_int64 (total_of b.account_id es)))
      (wrapped (text "reconciliation: scan balance") overflow)
  others ← check_balances es bs
  pure (
      if not (eqb_ℤ b.amount (total_of b.account_id es))
      then record {
        account_id = b.account_id;
        stored = b.amount;
        computed = total_of b.account_id es;
        delta = wrap64 (b.amount -ℤ total_of b.account_id es);
      }
        ∷ others
      else others)

-- the second loop of `Run`
unfoldable pub check_transactions : List Entry → List TransactionRow → Exec (List ℕ)
unfolding overflow
check_transactions es [] = pure []
check_transactions es (t ∷ ts) = do
  raise_if (not (in_int64 (sum_of t.id es)))
      (wrapped (text "reconciliation: scan transaction") overflow)
  others ← check_transactions es ts
  pure (
      if not (eqb_ℤ (sum_of t.id es) (pos 0)) || ltb (count_of t.id es) 2
      then t.id ∷ others
      else others)

length_of : {A : Type 0} → List A → ℕ
length_of [] = 0
length_of (x ∷ xs) = suc (length_of xs)

-- a SELECT of the tables
unfoldable pub query : Exec Db
query = call λ w. (ok w.db, w)

-- `Run`: each query has its own snapshot
unfoldable pub run : Exec Report
unfolding length_of
run = do
  d ← map_err (wrapped (text "reconciliation: balances")) query
  mismatches ← check_balances d.entries d.balances
  d' ← map_err (wrapped (text "reconciliation: transactions")) query
  unbalanced ← check_transactions d'.entries d'.transactions
  pure (record {
    accounts_checked = length_of d.balances;
    transactions_checked = length_of d'.transactions;
    mismatches = mismatches;
    unbalanced_tx_ids = unbalanced;
  })
