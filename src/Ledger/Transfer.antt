-- ===== src/Ledger/Transfer.antt =====
-- `Transfer` of internal/ledger/service.go: one transaction with its idempotency record and its
-- outbox event.
pub mod Execution
pub mod Flows
pub mod Effects
pub mod Atomicity
pub mod Once
use fault_tolerant_payment_l.Base.{
  ℕ, ltb_ℤ, Text, text, text_eq, not, ◌&&◌, Option, none, some, List, [], ◌∷◌, if◌then◌else◌,
}
use fault_tolerant_payment_l.Apperr.{Detail, GoError, app, with_detail}
use fault_tolerant_payment_l.Apperr.Errors.{currency_mismatch, insufficient_funds}
use fault_tolerant_payment_l.Failpoint.{before_tx_begin, after_accounts_locked}
use fault_tolerant_payment_l.Config.{Config}
use fault_tolerant_payment_l.Int64.{neg64}
use fault_tolerant_payment_l.Store.Schema.{Entry, Transaction, PaymentData}
use fault_tolerant_payment_l.Store.World.{
  Exec, pure, raise_if, gets, new_uuid, failpoint, ◌>>=◌, ◌>>◌,
}
use fault_tolerant_payment_l.Store.Tx.{in_tx}
use fault_tolerant_payment_l.Ledger.Model.{
  TransferCommand, kind_system, tx_kind_transfer, tx_kind_funding, event_payment_created,
  validate_transfer,
}
use fault_tolerant_payment_l.Ledger.Locks.{LockedAccount, lock_balances, deref}
use fault_tolerant_payment_l.Ledger.Payment.{
  Response, entry_data, write_outbox_event, post, answer_with, idempotent, lost_response,
  lift_check,
}

-- the two entries of a transfer
unfoldable pub transfer_entries :
    ℕ → ℕ → ℕ → LockedAccount → LockedAccount → TransferCommand → List Entry
unfolding neg64
transfer_entries tx_id debit_id credit_id source dest cmd =
    record {
      id = debit_id;
      transaction_id = tx_id;
      account_id = source.id;
      amount = neg64 cmd.amount;
      currency = cmd.currency;
      seq = 0;
      created_at = 0;
    }
    ∷ record {
      id = credit_id;
      transaction_id = tx_id;
      account_id = dest.id;
      amount = cmd.amount;
      currency = cmd.currency;
      seq = 1;
      created_at = 0;
    }
    ∷ []

optional : Text → Option Text
optional t = if text_eq t [] then none else some t

unfoldable pub transfer_transaction :
    ℕ → ℕ → LockedAccount → List Entry → TransferCommand → Transaction
unfolding optional
transfer_transaction tx_id at source es cmd = record {
  id = tx_id;
  kind = if text_eq source.kind kind_system then tx_kind_funding else tx_kind_transfer;
  currency = cmd.currency;
  description = cmd.description;
  external_reference = optional cmd.external_reference;
  reverses_transaction_id = none;
  reversed_by_transaction_id = none;
  created_at = at;
  entries = es;
}

mismatch : LockedAccount → GoError
mismatch a = app (
    with_detail (text "account_currency") (Detail.name a.currency)
      (with_detail (text "account_id") (Detail.name a.id) currency_mismatch))

short_of_funds : LockedAccount → TransferCommand → GoError
short_of_funds a cmd = app (
    with_detail (text "requested") (Detail.number cmd.amount)
      (with_detail (text "balance") (Detail.number a.balance) (insufficient_funds a.id)))

-- the checks of `executeTransfer` on the locked accounts
unfoldable pub check_transfer : LockedAccount → LockedAccount → TransferCommand → Exec (Unit {0})
unfolding mismatch short_of_funds
check_transfer source dest cmd = do
  raise_if (not (text_eq source.currency cmd.currency)) (mismatch source)
  raise_if (not (text_eq dest.currency cmd.currency)) (mismatch dest)
  raise_if (not source.allow_overdraft && ltb_ℤ source.balance cmd.amount)
      (short_of_funds source cmd)

unfoldable pub transfer_data :
    Transaction → LockedAccount → LockedAccount → TransferCommand → PaymentData
transfer_data t source dest cmd = record {
  transaction_id = t.id;
  kind = t.kind;
  currency = t.currency;
  amount = cmd.amount;
  source_account_id = source.id;
  destination_account_id = dest.id;
  description = cmd.description;
  external_reference = cmd.external_reference;
  reverses_transaction_id = none;
  reason = [];
  created_at = t.created_at;
  entries = entry_data t.entries;
}

-- `executeTransfer`
unfoldable pub execute_transfer : Config → ℕ → TransferCommand → Exec Response
unfolding transfer_data
execute_transfer c tx_id cmd = do
  accounts ← lock_balances (cmd.source_account_id ∷ cmd.destination_account_id ∷ [])
  failpoint after_accounts_locked
  source ← deref cmd.source_account_id accounts
  dest ← deref cmd.destination_account_id accounts
  check_transfer source dest cmd
  at ← gets (λ w. w.go_now)
  debit_id ← new_uuid
  credit_id ← new_uuid
  let es = transfer_entries tx_id debit_id credit_id source dest cmd
  let t = transfer_transaction tx_id at source es cmd
  post t
  write_outbox_event c t event_payment_created (transfer_data t source dest cmd)
  answer_with tx_id cmd.idempotency_scope cmd.idempotency_key

unfoldable pub unless_replayed : Response → Exec (Unit {0})
unless_replayed r = if r.replayed then pure tt else lost_response

-- `Transfer`
unfoldable pub transfer : Config → TransferCommand → Exec Response
transfer c cmd = do
  lift_check (validate_transfer cmd)
  failpoint before_tx_begin
  tx_id ← new_uuid
  result ← in_tx c.db_max_tx_retries (
      idempotent cmd.idempotency_scope cmd.idempotency_key cmd.request_hash
        (execute_transfer c tx_id cmd))
  unless_replayed result
  pure result
