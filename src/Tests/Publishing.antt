-- ===== src/Tests/Publishing.antt =====
-- A cycle of the publisher on an outbox with a published row and a pending one.
use fault_tolerant_payment_l.Base.{
  ℕ, ◌≡◌, refl, inl, pos, Text, text, text_eq, false, none, some, [], ◌∷◌, update_where,
}
use fault_tolerant_payment_l.Apperr.{GoError}
use fault_tolerant_payment_l.Failpoint.{eval}
use fault_tolerant_payment_l.Store.Schema.{Envelope, OutboxRow, OutboxStatus, empty_db}
use fault_tolerant_payment_l.Store.World.{
  World, attempt, call, answer, map_err, pure, eval_failpoint, ◌>>=◌, ◌>>◌, injected_result,
  attempt_result, continue, map_err_result, next_call, rest_calls,
}
use fault_tolerant_payment_l.Outbox.Publisher.{
  run_once, set_header, publish_all, publish_one, after_publish, marked_published, message_of,
  publish, publish_or_fail, published_or_failed,
}
use fault_tolerant_payment_l.Outbox.Queue.{
  claim, claimable, is_due, is_before, backlog, oldest_first, place, claim_row, claimed_rows,
  mark_published, publish_row,
}
use fault_tolerant_payment_l.Outbox.Delivery.{run_once_delivers}
use fault_tolerant_payment_l.Outbox.Delivery.Records.{event_record, event_records, Sent}
use fault_tolerant_payment_l.Scenario.{config, fresh_world}

abbrev payload : ℕ → Envelope
payload id = record {
  event_id = id;
  event_type = text "payment.created";
  schema_version = 1;
  transaction_id = 50;
  occurred_at = 5;
  correlation_id = text "c-1";
  replay = none;
  payment = record {
    transaction_id = 50;
    kind = text "payment";
    currency = text "USD";
    amount = pos 1000;
    source_account_id = text "system";
    destination_account_id = text "alice";
    description = [];
    external_reference = [];
    reverses_transaction_id = none;
    reason = [];
    created_at = 5;
    entries = [];
  };
}

abbrev row : ℕ → OutboxStatus → OutboxRow
row id status = record {
  id = id;
  topic = text "payments.created";
  event_type = text "payment.created";
  aggregate_id = 50;
  partition_key = 50;
  payload = payload id;
  headers = [];
  status = status;
  attempts = 0;
  last_error = none;
  claimed_by = none;
  claimed_at = none;
  next_attempt_at = 5;
  published_at = none;
  created_at = 5;
}

abbrev sent_row : OutboxRow
sent_row = record (row 41 OutboxStatus.published) { published_at = some 6 }

abbrev pending_row : OutboxRow
pending_row = row 42 OutboxStatus.pending

abbrev outbox_world : World
outbox_world = record (fresh_world []) {
  db = record empty_db { outbox = pending_row ∷ sent_row ∷ [] };
  broker = event_record sent_row ∷ [];
}

describe : GoError → Text
describe e = text "broker down"

-- the pending row is claimed and published
broker_after :
    (run_once describe config (λ id. false) outbox_world).1.broker
    ≡ event_record pending_row ∷ event_record sent_row ∷ []
unfolding run_once ◌>>◌ ◌>>=◌ attempt attempt_result backlog map_err call claim publish_all
    claimable oldest_first is_due place pure publish_one eval_failpoint injected_result text_eq
    update_where eval after_publish marked_published message_of publish publish_or_fail
    published_or_failed set_header claim_row claimed_rows is_before mark_published publish_row
    answer continue map_err_result next_call rest_calls
broker_after = refl

run_once_delivers_example :
    ((run_once describe config (λ id. false) outbox_world).1.db ≡ record outbox_world.db {
      outbox = (run_once describe config (λ id. false) outbox_world).1.db.outbox;
    })
    × (event_records (run_once describe config (λ id. false) outbox_world).1.db.outbox
        ≡ event_records outbox_world.db.outbox)
    × Sent
        (run_once describe config (λ id. false) outbox_world).1.broker
        (run_once describe config (λ id. false) outbox_world).1.db.outbox
unfolding set_header
run_once_delivers_example =
    run_once_delivers describe config (λ id. false) outbox_world ((refl, tt), (tt, tt))
      (λ p. cc, (λ p. inl refl, tt))
