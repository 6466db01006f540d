-- ===== src/Ledger/CreateAccount.antt =====
-- `CreateAccount` of internal/ledger/repo.go.
pub mod Atomicity
use fault_tolerant_payment_l.Base.{
  ℕ, pos, Text, text, text_eq, Bool, false, not, Option, none, some, [], ◌∷◌, exists, ◌||◌,
  if◌then◌else◌,
}
use fault_tolerant_payment_l.Apperr.{Code, Detail, GoError, app, wrapped, new, with_detail}
use fault_tolerant_payment_l.Config.{Config}
use fault_tolerant_payment_l.Store.Schema.{Account, BalanceRow, account_json, is_currency}
use fault_tolerant_payment_l.Store.World.{
  World, Exec, Result, ok, err, pure, map_err, ◌>>=◌, ◌>>◌, call,
}
use fault_tolerant_payment_l.Store.Tx.{
  in_tx, is_unique_violation, foreign_key_violation, check_violation, unique_violation,
}
use fault_tolerant_payment_l.Idempotency.{complete}
use fault_tolerant_payment_l.Ledger.Model.{
  CreateAccountCommand, kind_system, kind_user, validate_create,
}
use fault_tolerant_payment_l.Ledger.Locks.{has_account, has_balance}
use fault_tolerant_payment_l.Ledger.Payment.{Response, idempotent, lift_check}

abbrev currency_check_violation : GoError
currency_check_violation = GoError.pg check_violation []

-- `INSERT INTO accounts`
unfoldable pub insert_account_row : Account → World → Result Account × World
insert_account_row a w =
    let a' = record a { created_at = w.db_now } in
    if not (is_currency a.currency) || not (text_eq a.kind kind_user || text_eq a.kind kind_system)
    then (err currency_check_violation, w)
    else if exists (has_account a.id) w.db.accounts
    then (err (GoError.pg unique_violation (text "accounts_pkey")), w)
    else (ok a', record w { db = record w.db { accounts = a' ∷ w.db.accounts } })

account_exists : Text → GoError
unfolding new with_detail
account_exists id = app (with_detail (text "account_id") (Detail.name id) (new Code.account_exists))

insert_account_error : Text → GoError → GoError
unfolding account_exists
insert_account_error id e =
    if is_unique_violation e []
    then account_exists id
    else wrapped (text "ledger: insert account") e

-- the balance of a new account
abbrev pub zero_balance : ℕ → Text → Bool → BalanceRow
zero_balance at id allow_overdraft = record {
  account_id = id;
  amount = pos 0;
  allow_overdraft = allow_overdraft;
  version = 0;
  updated_at = at;
}

-- `INSERT INTO balances`
unfoldable pub insert_balance_row : Text → Bool → World → Result (Unit {0}) × World
insert_balance_row id allow_overdraft w =
    if exists (has_balance id) w.db.balances
    then (err (GoError.pg unique_violation (text "balances_pkey")), w)
    else if not (exists (has_account id) w.db.accounts)
    then (err (GoError.pg foreign_key_violation []), w)
    else (
      ok tt,
      record w {
        db = record w.db { balances = zero_balance w.db_now id allow_overdraft ∷ w.db.balances };
      },
    )

-- the JSON of the metadata, where nil is an empty map
metadata_json : Option Text → Text
metadata_json none = text "{}"
metadata_json (some m) = m

new_account : CreateAccountCommand → Account
unfolding metadata_json
new_account cmd = record {
  id = cmd.id;
  currency = cmd.currency;
  kind = cmd.kind;
  allow_overdraft = cmd.allow_overdraft;
  metadata = metadata_json cmd.metadata;
  created_at = 0;
}

-- the part of `CreateAccount` that runs with the idempotency row claimed
unfoldable pub execute_create : CreateAccountCommand → Exec Response
unfolding new_account insert_account_error
execute_create cmd = do
  acct ← map_err (insert_account_error cmd.id) (call (insert_account_row (new_account cmd)))
  map_err (wrapped (text "ledger: insert balance"))
      (call (insert_balance_row cmd.id cmd.allow_overdraft))
  complete cmd.idempotency_scope cmd.idempotency_key 201 (account_json acct) none
  pure (record {
    transaction = none;
    response_status = 201;
    response_body = some (account_json acct);
    replayed = false;
  })

-- `CreateAccount`
unfoldable pub create_account : Config → CreateAccountCommand → Exec Response
create_account c cmd = do
  lift_check (validate_create cmd)
  in_tx c.db_max_tx_retries
      (idempotent cmd.idempotency_scope cmd.idempotency_key cmd.request_hash (execute_create cmd))
