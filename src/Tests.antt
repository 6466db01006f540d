-- ===== src/Tests.antt =====
-- The theorems applied to a small ledger, and runs of the model on it.
mod Publishing
mod Arming
mod Deliveries
mod Consumption
mod Accounts
mod Reading
use fault_tolerant_payment_l.Base.{
  ◌+◌, ◌*◌, ◌≤◌, ℕ, ◌≡◌, ◌≢◌, pos, refl, sym, ◌∙◌, ◌⊎◌, inl, inr, ◌↔◌, Text, text, true, false,
  none, some, [], ◌∷◌, find, arith, length, ap,
}
use fault_tolerant_payment_l.Base.Bytes.{text_eq}
use fault_tolerant_payment_l.Ledger.Totals.{total_of}
use fault_tolerant_payment_l.Failpoint.{lookup, eval}
use fault_tolerant_payment_l.Apperr.{GoError, plain}
use fault_tolerant_payment_l.Failpoint.{Registry, error, before_commit}
use fault_tolerant_payment_l.Failpoint.Counts.{Exhausted, count_exact}
use fault_tolerant_payment_l.Store.Schema.{Db, IdemRecord, completed, raw}
use fault_tolerant_payment_l.Store.World.{
  World, refuse, pass, lost_reply, Exec, ok, pure, ◌>>=◌, ◌>>◌, map_err, call, answer, raise_if,
  failpoint, eval_failpoint, injected_result, new_uuid, gets, lift,
}
use fault_tolerant_payment_l.Store.Tx.{in_tx, run_once as run_transaction, commit}
use fault_tolerant_payment_l.Int64.{in_int64, wrap64}
use fault_tolerant_payment_l.Store.Tx.Atomic.{Atomic, in_tx-Atomic}
use fault_tolerant_payment_l.Ledger.Consistent.{IsConsistent, Reconciled, Balanced}
use fault_tolerant_payment_l.Ledger.Transfer.{
  transfer, unless_replayed, execute_transfer, check_transfer, transfer_entries,
  transfer_transaction,
}
use fault_tolerant_payment_l.Ledger.Payment.{
  Response, lost_response, post, apply_deltas, sorted_entries_by_account, swap_down, sort_reversed,
  write_outbox_event, answer_with, lift_check, idempotent, replay_result, after_claim, load_if_some,
  is_completed, status_or_zero,
}
use fault_tolerant_payment_l.Base.Bytes.{text_lt}
use fault_tolerant_payment_l.Base.Int.{◌+ℤ◌, ◌-ℤ◌}
use fault_tolerant_payment_l.Ledger.Locks.{
  insert_text, lock_balances, lock_sorted, sort_texts, get_locked, lock_row, select_locked, joined,
  deref,
}
use fault_tolerant_payment_l.Ledger.Repo.{
  insert_transaction, insert_transaction_row, run_checks, insert_entries, insert_entry,
  insert_entry_row, apply_balance_delta, update_balance, update_balance_row, add_to_balance,
  add_transaction,
}
use fault_tolerant_payment_l.Ledger.Repo.Load.{load_transaction, select_header, entries_of}
use fault_tolerant_payment_l.Outbox.Insert.{insert, insert_row}
use fault_tolerant_payment_l.Idempotency.{complete}
use fault_tolerant_payment_l.Ledger.Model.{validate_transfer, is_account_id}
use fault_tolerant_payment_l.Store.Schema.{is_currency, all_balanced, is_balanced, sum_of, count_of}
use fault_tolerant_payment_l.Ledger.Replay.{Replayed}
use fault_tolerant_payment_l.Reconciliation.{run, is_ok, query, check_balances, check_transactions}
use fault_tolerant_payment_l.Reconciliation.Laws.{run_clean_iff}
use fault_tolerant_payment_l.Ledger.Transfer.Atomicity.{transfer_atomic, transfer-IsConsistent}
use fault_tolerant_payment_l.Ledger.Transfer.Effects.{IsPaid}
use fault_tolerant_payment_l.Ledger.Transfer.Once.{
  Settled, transfer_used_key, transfer_replays, transfer_once,
}
use fault_tolerant_payment_l.Ledger.Keys.{now, transferred, discarded, beside}
use fault_tolerant_payment_l.Idempotency.{discard}
use fault_tolerant_payment_l.Ledger.Model.{TransferCommand, ReverseCommand}
use fault_tolerant_payment_l.Ledger.Reverse.{reverse_payment}
use fault_tolerant_payment_l.Ledger.Reverse.Effects.{IsReversed}
use fault_tolerant_payment_l.Ledger.Reverse.Atomicity.{reverse_atomic, reverse_payment-IsConsistent}
use fault_tolerant_payment_l.Ledger.LockOrder.{InOrder, lock_balances-InOrder}
use fault_tolerant_payment_l.Outbox.Publisher.{run_once, backoff}
use fault_tolerant_payment_l.Outbox.Delay.{backoff_range}
use fault_tolerant_payment_l.Idempotency.{is_for, lock_key, claim, insert_claim, fetch}
use fault_tolerant_payment_l.Scenario.{config, fresh_world, opened_db, funding_command}

-- both accounts are open, and the second call of the transfer fails
abbrev world : World
world = record (fresh_world (pass ∷ refuse (plain (text "timeout")) ∷ lost_reply ∷ [])) {
  db = opened_db;
}

opened_db-IsConsistent : IsConsistent opened_db
unfolding text_eq total_of
opened_db-IsConsistent = record {
  keyed = (refl, (refl, tt));
  headers = tt;
  nonnegative = (inl refl, (inr omega arith, tt));
  reconciled = (refl, (refl, tt));
  balanced = tt;
  owned = tt;
}

transfer_atomic_example :
    ((transfer config funding_command world).1.db ≡ world.db)
    ⊎ IsPaid config funding_command world.db (transfer config funding_command world).1.db
transfer_atomic_example = transfer_atomic config funding_command world

transfer-IsConsistent_example : IsConsistent (transfer config funding_command world).1.db
transfer-IsConsistent_example =
    transfer-IsConsistent config funding_command world opened_db-IsConsistent

abbrev three : Exec ℕ
three = pure 3

in_tx-Atomic_example : Atomic three world.db (in_tx 5 three world)
in_tx-Atomic_example = in_tx-Atomic three 5 world

abbrev armed_registry : Registry
armed_registry = record {
  enabled = true;
  actions = (before_commit, record { kind = error; remaining = some 2 }) ∷ [];
}

count_exact_example :
    Exhausted 2 (record { kind = error; remaining = some 2 }) before_commit armed_registry
unfolding lookup text_eq
count_exact_example = count_exact 2 error before_commit armed_registry refl refl

abbrev stored_record : IdemRecord
stored_record = record {
  scope = text "t";
  key = text "k2";
  request_hash = text "h2";
  state = completed;
  response_status = some 201;
  response_body = some (raw (text "{}"));
  transaction_id = none;
}

abbrev replay_world : World
replay_world = record (fresh_world []) {
  db = record opened_db { idempotency = stored_record ∷ [] };
}

stored_record-found :
    find (is_for (text "t") (text "k2")) replay_world.db.idempotency ≡ some stored_record
unfolding is_for text_eq
stored_record-found = refl

transfer_used_key_example : (transfer config funding_command replay_world).1.db ≡ replay_world.db
transfer_used_key_example =
    transfer_used_key config funding_command replay_world stored_record stored_record-found

abbrev replayed_response : Response
replayed_response = record {
  transaction = none;
  response_status = 201;
  response_body = some (raw (text "{}"));
  replayed = true;
}

replay_run :
    transfer config funding_command replay_world
    ≡ (ok replayed_response, (transfer config funding_command replay_world).1)
unfolding transfer ◌>>◌ ◌>>=◌ lift_check validate_transfer text_eq pure failpoint map_err
    eval_failpoint injected_result eval new_uuid in_tx idempotent lock_key claim insert_claim fetch
    is_for replay_result raise_if is_currency is_account_id call answer run_transaction commit
    lookup load_if_some is_completed status_or_zero unless_replayed all_balanced after_claim
replay_run = refl

transfer_replays_example : Replayed stored_record (text "h2") replayed_response
transfer_replays_example =
    transfer_replays config funding_command replay_world stored_record replayed_response
      (transfer config funding_command replay_world).1 stored_record-found replay_run

clean_run : run replay_world ≡ (
  ok (record {
    accounts_checked = 2;
    transactions_checked = 0;
    mismatches = [];
    unbalanced_tx_ids = [];
  }),
  (run replay_world).1,
)
unfolding run ◌>>=◌ map_err query call check_balances ◌>>◌ raise_if in_int64 total_of pure
    check_transactions answer text_eq
clean_run = refl

run_clean_iff_example :
    ((is_ok (record {
      accounts_checked = 2;
      transactions_checked = 0;
      mismatches = [];
      unbalanced_tx_ids = [];
    })
        ≡ true)
      ↔ (Reconciled replay_world.db.entries replay_world.db.balances
          × Balanced replay_world.db.entries replay_world.db.transactions))
    × ((run replay_world).1.db ≡ replay_world.db)
run_clean_iff_example = run_clean_iff replay_world _ (run replay_world).1 clean_run

abbrev open_world : World
open_world = record (fresh_world []) { db = opened_db }

one_event : length (transfer config funding_command open_world).1.db.outbox ≡ 1
unfolding transfer ◌>>◌ ◌>>=◌ lift_check validate_transfer text_eq pure failpoint map_err
    eval_failpoint injected_result eval new_uuid in_tx idempotent lock_key claim insert_claim fetch
    is_for replay_result raise_if is_currency is_account_id call answer run_transaction commit
    lookup load_if_some is_completed status_or_zero unless_replayed all_balanced after_claim
    execute_transfer lost_response lock_balances lock_sorted sort_texts text_lt get_locked lock_row
    select_locked joined deref check_transfer gets post insert_transaction insert_transaction_row
    run_checks insert_entries insert_entry insert_entry_row apply_deltas sorted_entries_by_account
    swap_down sort_reversed apply_balance_delta update_balance update_balance_row add_to_balance
    write_outbox_event insert insert_row answer_with load_transaction select_header entries_of
    complete in_int64 wrap64 add_transaction is_balanced sum_of count_of lift transfer_entries
    transfer_transaction ◌+ℤ◌ ◌-ℤ◌ insert_text
one_event = refl

none_sent : ◌≡◌ {A = ℕ} 1 0 → ⊥
none_sent e = omega arith

wrote : (transfer config funding_command open_world).1.db ≢ open_world.db
wrote same = none_sent (sym one_event ∙ ap (λ (d : Db). length d.outbox) same)

-- another amount under the same key
abbrev second_command : TransferCommand
second_command = record funding_command { amount = pos 2000; request_hash = text "h9" }

abbrev second_world : World
second_world = record (fresh_world (pass ∷ refuse (plain (text "timeout")) ∷ [])) {
  db =
      (transfer config second_command
        (discard (text "t") (text "k2") (transfer config funding_command open_world).1).1).1.db;
}

transfer_once_example :
    ((transfer config second_command second_world).1.db ≡ second_world.db)
    × Settled (text "t") (text "k2") (text "h2") (transfer config second_command second_world).1.db
transfer_once_example =
    transfer_once config funding_command open_world config second_command second_world wrote
      (beside refl (transferred config second_command (discarded (text "t") (text "k2") now))) refl
      refl

-- the ledger after the payment, which the reversal names
abbrev paid_world : World
paid_world = record (fresh_world []) {
  db = (transfer config funding_command open_world).1.db;
  drawn = 50;
}

paid_world-IsConsistent : IsConsistent paid_world.db
paid_world-IsConsistent =
    transfer-IsConsistent config funding_command open_world opened_db-IsConsistent

abbrev reverse_command : ReverseCommand
reverse_command = record {
  transaction_id = text "1000";
  reason = text "error";
  idempotency_scope = text "r";
  idempotency_key = text "k3";
  request_hash = text "h3";
}

show : ℕ → Text
show n = text "1000"

reverse_atomic_example :
    ((reverse_payment config show reverse_command paid_world).1.db ≡ paid_world.db)
    ⊎ IsReversed paid_world.db (reverse_payment config show reverse_command paid_world).1.db
reverse_atomic_example = reverse_atomic config show reverse_command paid_world

reverse_payment-IsConsistent_example :
    IsConsistent (reverse_payment config show reverse_command paid_world).1.db
reverse_payment-IsConsistent_example =
    reverse_payment-IsConsistent config show reverse_command paid_world paid_world-IsConsistent

lock_balances-InOrder_example :
    InOrder world.locks (lock_balances (text "system" ∷ text "alice" ∷ []) world).1
lock_balances-InOrder_example = lock_balances-InOrder (text "system" ∷ text "alice" ∷ []) world

-- the third attempt, with a draw of one half
backoff_range_example :
    (backoff 3 250_000_000 60_000_000_000 4_503_599_627_370_496 ≤ 60_000_000_000)
    × (250_000_000 ≤ 2 * backoff 3 250_000_000 60_000_000_000 4_503_599_627_370_496 + 1)
backoff_range_example =
    backoff_range 3 250_000_000 60_000_000_000 4_503_599_627_370_496 (omega arith) (omega arith)
