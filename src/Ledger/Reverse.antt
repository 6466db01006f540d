-- ===== src/Ledger/Reverse.antt =====
-- `Reverse` of internal/ledger/service.go. `show` is the text form of a UUID, which the description
-- of the reversal quotes.
pub mod Execution
pub mod Mirror
pub mod Effects
pub mod Atomicity
use fault_tolerant_payment_l.Base.{
  ℕ, ℤ, pos, ltb_ℤ, Text, text, text_eq, ◌++◌, Option, none, some, List, [], ◌∷◌, if◌then◌else◌,
}
use fault_tolerant_payment_l.Apperr.{Code, Detail, GoError, app, new, with_detail}
use fault_tolerant_payment_l.Apperr.Errors.{invalid_request}
use fault_tolerant_payment_l.Failpoint.{before_tx_begin, after_accounts_locked}
use fault_tolerant_payment_l.Config.{Config}
use fault_tolerant_payment_l.Int64.{neg64, add64}
use fault_tolerant_payment_l.Store.Schema.{Entry, Transaction, PaymentData}
use fault_tolerant_payment_l.Store.World.{
  Exec, pure, raise, raise_if, gets, new_uuid, failpoint, ◌>>=◌, ◌>>◌,
}
use fault_tolerant_payment_l.Store.Tx.{in_tx}
use fault_tolerant_payment_l.Ledger.Model.{ReverseCommand, tx_kind_reversal, event_payment_reversed}
use fault_tolerant_payment_l.Ledger.Locks.{lock_balances, list_accounts_for_transaction}
use fault_tolerant_payment_l.Ledger.Repo.Reversal.{insert_reversal_record}
use fault_tolerant_payment_l.Ledger.Repo.Load.{load_transaction}
use fault_tolerant_payment_l.Ledger.Payment.{
  Response, entry_data, write_outbox_event, post, answer_with, idempotent, lost_response,
}

-- the mirrored entries, each under a new UUID
unfoldable pub mirror : ℕ → List Entry → Exec (List Entry)
mirror reversal_id [] = pure []
mirror reversal_id (e ∷ es) = do
  id ← new_uuid
  others ← mirror reversal_id es
  pure (
      record e { id = id; transaction_id = reversal_id; amount = neg64 e.amount; created_at = 0 }
      ∷ others)

-- `reversalDescription`, with the UUID in its text form
unfoldable pub reversal_description : (ℕ → Text) → ℕ → Text → Text
reversal_description show id reason =
    if text_eq reason []
    then text "Reversal of " ++ show id
    else text "Reversal of " ++ (show id ++ (text ": " ++ reason))

unfoldable pub reversal_transaction : ℕ → ℕ → Text → Transaction → List Entry → Transaction
reversal_transaction reversal_id at description original es = record {
  id = reversal_id;
  kind = tx_kind_reversal;
  currency = original.currency;
  description = description;
  external_reference = none;
  reverses_transaction_id = some original.id;
  reversed_by_transaction_id = none;
  created_at = at;
  entries = es;
}

amount_from : ℤ → List Entry → ℤ
unfolding add64
amount_from total [] = total
amount_from total (e ∷ es) =
    amount_from (if ltb_ℤ (pos 0) e.amount then add64 total e.amount else total) es

-- `reversalAmount`
unfoldable pub reversal_amount : Transaction → ℤ
unfolding amount_from
reversal_amount t = amount_from (pos 0) t.entries

reversed_by_error : ℕ → ℕ → GoError
unfolding with_detail new
reversed_by_error id by = app (
    with_detail (text "reversal_transaction_id") (Detail.uuid by) (
      with_detail (text "transaction_id") (Detail.uuid id) (new Code.transaction_already_reversed)))

unfoldable pub unless_reversed : ℕ → Option ℕ → Exec (Unit {0})
unfolding reversed_by_error
unless_reversed id none = pure tt
unless_reversed id (some by) = raise (reversed_by_error id by)

-- the checks of `Reverse` on the transaction that it loaded
unfoldable pub check_reverse : Transaction → Exec (Unit {0})
check_reverse original = do
  raise_if (text_eq original.kind tx_kind_reversal) invalid_request
  unless_reversed original.id original.reversed_by_transaction_id

unfoldable pub reversal_data : Transaction → Transaction → Text → PaymentData
reversal_data t original reason = record {
  transaction_id = t.id;
  kind = t.kind;
  currency = t.currency;
  amount = reversal_amount original;
  source_account_id = [];
  destination_account_id = [];
  description = [];
  external_reference = [];
  reverses_transaction_id = some original.id;
  reason = reason;
  created_at = t.created_at;
  entries = entry_data t.entries;
}

-- the part of `Reverse` that runs with the idempotency row claimed
unfoldable pub execute_reverse : Config → (ℕ → Text) → ℕ → ReverseCommand → Exec Response
execute_reverse c show reversal_id cmd = do
  parsed ← gets (λ w. w.parse_uuid cmd.transaction_id)
  original ← load_transaction parsed
  check_reverse original
  ids ← list_accounts_for_transaction original.id
  lock_balances ids
  failpoint after_accounts_locked
  at ← gets (λ w. w.go_now)
  es ← mirror reversal_id original.entries
  let t =
      reversal_transaction reversal_id at (reversal_description show original.id cmd.reason)
        original es
  post t
  record_id ← new_uuid
  insert_reversal_record (record {
    id = record_id;
    original_transaction_id = original.id;
    reversal_transaction_id = reversal_id;
    reason = cmd.reason;
  })
  write_outbox_event c t event_payment_reversed (reversal_data t original cmd.reason)
  answer_with reversal_id cmd.idempotency_scope cmd.idempotency_key

-- `Reverse`; unlike `Transfer` it evaluates the last failpoint for a replayed result too
unfoldable pub reverse_payment : Config → (ℕ → Text) → ReverseCommand → Exec Response
reverse_payment c show cmd = do
  raise_if (text_eq cmd.transaction_id []) invalid_request
  failpoint before_tx_begin
  reversal_id ← new_uuid
  result ← in_tx c.db_max_tx_retries (
      idempotent cmd.idempotency_scope cmd.idempotency_key cmd.request_hash
        (execute_reverse c show reversal_id cmd))
  lost_response
  pure result
