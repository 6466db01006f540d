-- ===== src/Ledger/Repo/Reversal.antt =====
-- `insertReversalRecord` of internal/ledger/repo.go.
use fault_tolerant_payment_l.Base.{ℕ, ◌==◌, text, Bool, not, [], ◌∷◌, exists, if◌then◌else◌}
use fault_tolerant_payment_l.Apperr.{GoError, wrapped, pg}
use fault_tolerant_payment_l.Store.Schema.{ReversalRow}
use fault_tolerant_payment_l.Store.World.{World, Exec, Result, call, map_err}
use fault_tolerant_payment_l.Store.Tx.{
  is_unique_violation, check_violation, unique_violation, foreign_key_violation,
}
use fault_tolerant_payment_l.Ledger.Repo.{run_checks, has_id, already_reversed}

abbrev pub touches : ℕ → ReversalRow → Bool
touches id r = r.original_transaction_id == id

abbrev pub made_by : ℕ → ReversalRow → Bool
made_by id r = r.reversal_transaction_id == id

abbrev pub has_reversal_id : ℕ → ReversalRow → Bool
has_reversal_id id r = r.id == id

unfoldable pub insert_reversal_row : ReversalRow → World → Result (Unit {0}) × World
insert_reversal_row r w =
    run_checks
      ((
        r.original_transaction_id == r.reversal_transaction_id,
        pg check_violation (text "reversal_is_not_self"),
      )
        ∷ (
          exists (has_reversal_id r.id) w.db.reversals,
          pg unique_violation (text "reversals_pkey"),
        )
        ∷ (
          exists (touches r.original_transaction_id) w.db.reversals,
          pg unique_violation (text "reversals_original_transaction_id_key"),
        )
        ∷ (
          exists (made_by r.reversal_transaction_id) w.db.reversals,
          pg unique_violation (text "reversals_reversal_transaction_id_key"),
        )
        ∷ (
          not (exists (has_id r.original_transaction_id) w.db.transactions),
          pg foreign_key_violation [],
        )
        ∷ (
          not (exists (has_id r.reversal_transaction_id) w.db.transactions),
          pg foreign_key_violation [],
        )
        ∷ [])
      w (record w { db = record w.db { reversals = r ∷ w.db.reversals } })

insert_reversal_error : ℕ → GoError → GoError
unfolding already_reversed
insert_reversal_error original e =
    if is_unique_violation e []
    then already_reversed original
    else wrapped (text "ledger: insert reversal") e

-- `insertReversalRecord`
unfoldable pub insert_reversal_record : ReversalRow → Exec (Unit {0})
unfolding insert_reversal_error
insert_reversal_record r =
    map_err (insert_reversal_error r.original_transaction_id) (call (insert_reversal_row r))
