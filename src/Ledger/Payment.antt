-- ===== src/Ledger/Payment.antt =====
-- The parts of internal/ledger/service.go that `Transfer` and `Reverse` share. Metrics and logs are
-- left out.
use fault_tolerant_payment_l.Base.{
  ℕ, Text, text, text_eq, text_lt, Bool, true, false, not, Option, none, some, List, [], ◌∷◌,
  if◌then◌else◌,
}
use mathlib.Core.List.{reverse}
use fault_tolerant_payment_l.Apperr.{GoError, wrapped}
use fault_tolerant_payment_l.Apperr.Errors.{internal}
use fault_tolerant_payment_l.Failpoint.{
  after_entries_written, after_balances_updated, after_outbox_written, before_commit, after_commit,
}
use fault_tolerant_payment_l.Config.{Config, topic_for_event}
use fault_tolerant_payment_l.Store.Schema.{
  Entry, Transaction, Body, transaction_json, IdemRecord, IdemState, in_progress, completed,
  PaymentData, EntryData,
}
use fault_tolerant_payment_l.Store.World.{
  Exec, pure, raise, raise_if, gets, map_err, new_uuid, failpoint, eval_failpoint, ◌>>=◌, ◌>>◌,
}
use fault_tolerant_payment_l.Idempotency.{lock_key, claim, complete, conflict, in_progress_error}
use fault_tolerant_payment_l.Outbox.Insert.{insert}
use fault_tolerant_payment_l.Ledger.Repo.{insert_transaction, insert_entries, apply_balance_delta}
use fault_tolerant_payment_l.Ledger.Repo.Load.{load_transaction}

-- `Result`
pub record Response : Type 0 where
  pub transaction : Option Transaction
  pub response_status : ℕ
  pub response_body : Option Body
  pub replayed : Bool

unfoldable pub swap_down : Entry → List Entry → List Entry
swap_down e [] = e ∷ []
swap_down e (f ∷ fs) = if text_lt e.account_id f.account_id then f ∷ swap_down e fs else e ∷ f ∷ fs

unfoldable pub sort_reversed : List Entry → List Entry → List Entry
unfolding swap_down
sort_reversed sorted [] = sorted
sort_reversed sorted (e ∷ es) = sort_reversed (swap_down e sorted) es

entry_data_of : Entry → EntryData
entry_data_of e = record {
  entry_id = e.id;
  account_id = e.account_id;
  amount = e.amount;
  currency = e.currency;
  seq = e.seq;
}

-- `entryData`
unfoldable pub entry_data : List Entry → List EntryData
unfolding entry_data_of
entry_data [] = []
entry_data (e ∷ es) = entry_data_of e ∷ entry_data es

-- `sortedEntriesByAccount`: each entry moves down past the greater ones before it; the part that is
-- sorted is held last entry first
unfoldable pub sorted_entries_by_account : List Entry → List Entry
sorted_entries_by_account es = reverse (sort_reversed [] es)

-- the loop that applies the balances in the order of the locks
unfoldable pub apply_deltas : List Entry → Exec (Unit {0})
apply_deltas [] = pure tt
apply_deltas (e ∷ es) = apply_balance_delta e.account_id e.amount >> apply_deltas es

-- `rec.ResponseStatus`, which `Fetch` leaves 0 for a NULL
unfoldable pub status_or_zero : Option ℕ → ℕ
status_or_zero none = 0
status_or_zero (some s) = s

stored_response : IdemRecord → Option Transaction → Response
unfolding status_or_zero
stored_response r t = record {
  transaction = t;
  response_status = status_or_zero r.response_status;
  response_body = r.response_body;
  replayed = true;
}

unfoldable pub is_completed : IdemState → Bool
is_completed in_progress = false
is_completed completed = true

unfoldable pub load_if_some : Option ℕ → Exec (Option Transaction)
load_if_some none = pure none
load_if_some (some id) = load_transaction (some id) >>= λ t. pure (some t)

-- `replayResult`
unfoldable pub replay_result : IdemRecord → Text → Text → Exec Response
unfolding stored_response
replay_result r hash key = do
  raise_if (not (text_eq r.request_hash hash)) (conflict key)
  raise_if (not (is_completed r.state)) (in_progress_error key)
  t ← load_if_some r.transaction_id
  pure (stored_response r t)

-- `writeOutboxEvent`
unfoldable pub write_outbox_event : Config → Transaction → Text → PaymentData → Exec (Unit {0})
write_outbox_event c t event_type payment = do
  event_id ← new_uuid
  correlation_id ← gets (λ w. w.correlation_id)
  insert (record {
    id = event_id;
    topic = topic_for_event c event_type;
    event_type = event_type;
    aggregate_id = t.id;
    partition_key = t.id;
    payload = record {
      event_id = event_id;
      event_type = event_type;
      schema_version = 1;
      transaction_id = t.id;
      occurred_at = t.created_at;
      correlation_id = correlation_id;
      replay = none;
      payment = payment;
    };
    headers =
        (text "event_type", event_type)
        ∷ (text "correlation_id", correlation_id)
        ∷ (text "schema_version", text "1")
        ∷ [];
  })

-- the writes of the ledger proper: the header, the entries and the balances
unfoldable pub post : Transaction → Exec (Unit {0})
post t = do
  insert_transaction t
  insert_entries t.entries
  failpoint after_entries_written
  apply_deltas (sorted_entries_by_account t.entries)
  failpoint after_balances_updated

-- the end of a payment: the stored transaction, and the completed idempotency record
unfoldable pub answer_with : ℕ → Text → Text → Exec Response
answer_with tx_id scope key = do
  failpoint after_outbox_written
  stored ← load_transaction (some tx_id)
  complete scope key 201 (transaction_json stored) (some tx_id)
  failpoint before_commit
  pure (record {
    transaction = some stored;
    response_status = 201;
    response_body = some (transaction_json stored);
    replayed = false;
  })

unfoldable pub after_claim : Text → Text → Exec Response → Option IdemRecord → Exec Response
after_claim hash key execute none = execute
after_claim hash key execute (some r) = replay_result r hash key

-- the closure that a use case hands to `InTx`: claim the key, and then replay or execute
unfoldable pub idempotent : Text → Text → Text → Exec Response → Exec Response
idempotent scope key hash execute = do
  lock_key scope key
  existing ← claim scope key hash
  after_claim hash key execute existing

-- the failpoint of a lost response
unfoldable pub lost_response : Exec (Unit {0})
lost_response =
    map_err (λ e. internal (wrapped (text "response lost after commit") e))
      (eval_failpoint after_commit)

unfoldable pub lift_check : Option GoError → Exec (Unit {0})
lift_check none = pure tt
lift_check (some e) = raise e
