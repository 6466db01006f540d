-- ===== src/Tests/Deliveries.antt =====
-- The theorems on webhooks and replays applied to one event and one endpoint.
use fault_tolerant_payment_l.Base.{
  ◌≡◌, refl, ℕ, pos, Text, text, Bool, true, false, none, some, [], ◌∷◌, All, length, arith,
  text_eq,
}
use fault_tolerant_payment_l.Apperr.{GoError, plain}
use fault_tolerant_payment_l.Store.Schema.{
  Db, Delivery, DeliveryStatus, Envelope, Message, OutboxRow, OutboxStatus, PaymentData, ReplayMeta,
  Value, event_value,
}
use fault_tolerant_payment_l.Store.World.{
  World, pass, refuse, lost_reply, ok, pure, ◌>>=◌, ◌>>◌, continue, map_err, map_err_result, call,
  answer, next_call, rest_calls, eval_failpoint, injected_result, new_uuid,
}
use fault_tolerant_payment_l.Failpoint.{eval}
use fault_tolerant_payment_l.Outbox.Publisher.{message_of}
use fault_tolerant_payment_l.Outbox.Replay.{ReplayRequest, replay, replay_message}
use fault_tolerant_payment_l.Webhook.Store.{enqueue, enqueue_row, due}
use fault_tolerant_payment_l.Webhook.Worker.{
  is_success, Decoded, decode, enqueue_all, record_event, unless_unnamed, unless_malformed,
  handle_event, deliver_once,
}
use fault_tolerant_payment_l.Webhook.Sound.{IsSound}
use fault_tolerant_payment_l.Webhook.Deliveries.{deliver_once-IsSound}
use fault_tolerant_payment_l.Webhook.Events.{
  Everywhere, handle_event-IsSound, handle_event_records, handle_event_once,
}
use fault_tolerant_payment_l.Webhook.Progress.{Calm, Done, deliver_once_delivers}
use fault_tolerant_payment_l.Webhook.Replays.{handle_event_replayed}
use fault_tolerant_payment_l.Scenario.{config, fresh_world}

abbrev payment : PaymentData
payment = record {
  transaction_id = 1000;
  kind = text "transfer";
  currency = text "USD";
  amount = pos 1000;
  source_account_id = text "system";
  destination_account_id = text "alice";
  description = [];
  external_reference = [];
  reverses_transaction_id = none;
  reason = [];
  created_at = 7;
  entries = [];
}

abbrev envelope : Envelope
envelope = record {
  event_id = 70;
  event_type = text "payment.created";
  schema_version = 1;
  transaction_id = 1000;
  occurred_at = 7;
  correlation_id = text "c-1";
  replay = none;
  payment = payment;
}

abbrev outbox_row : OutboxRow
outbox_row = record {
  id = 70;
  topic = text "payments.created";
  event_type = text "payment.created";
  aggregate_id = 1000;
  partition_key = 1000;
  payload = envelope;
  headers = [];
  status = OutboxStatus.published;
  attempts = 1;
  last_error = none;
  claimed_by = none;
  claimed_at = none;
  next_attempt_at = 7;
  published_at = some 7;
  created_at = 7;
}

abbrev pub event_message : Message
event_message = message_of (text "payments.created") (event_value envelope) outbox_row

-- an attempt that failed is due again, and so is a row that was not tried
abbrev delivery : ℕ → ℕ → ℕ → Delivery
delivery id event attempts = record {
  id = id;
  event_id = event;
  endpoint = text "http://localhost:9090/webhook";
  event_type = text "payment.created";
  transaction_id = 1000;
  payload = event_value envelope;
  status = DeliveryStatus.pending;
  attempts = attempts;
  last_error = none;
  last_status_code = none;
  next_attempt_at = 7;
  delivered_at = none;
  created_at = 7;
}

abbrev webhook_db : Db
webhook_db = record (fresh_world []).db {
  outbox = outbox_row ∷ [];
  webhooks = delivery 1 60 0 ∷ delivery 2 61 3 ∷ [];
}

-- the third call loses its answer
abbrev pub webhook_world : World
webhook_world =
    record (fresh_world (pass ∷ pass ∷ lost_reply ∷ refuse (plain (text "timeout")) ∷ [])) {
      db = webhook_db;
    }

abbrev pub calm_world : World
calm_world = record (fresh_world []) { db = webhook_db }

describe : GoError → Text
describe e = text "endpoint down"

abbrev any_url : Text → Bool
any_url u = true

abbrev no_mac : Text → Value → Text
no_mac secret payload = []

webhook_db-IsSound : IsSound 5 [] webhook_db.webhooks
webhook_db-IsSound = record {
  distinct = (refl, refl, (refl, refl, tt));
  answered = (refl, (refl, tt));
  bounded = (refl, (refl, tt));
}

deliver_once-IsSound_example :
    ((deliver_once describe any_url no_mac config webhook_world).1.db ≡ record webhook_world.db {
      webhooks = (deliver_once describe any_url no_mac config webhook_world).1.db.webhooks;
    })
    × IsSound 5
        (deliver_once describe any_url no_mac config webhook_world).1.posted
        (deliver_once describe any_url no_mac config webhook_world).1.db.webhooks
deliver_once-IsSound_example =
    deliver_once-IsSound describe any_url no_mac config webhook_world webhook_db-IsSound

handle_event-IsSound_example :
    ((handle_event config event_message webhook_world).1.db ≡ record webhook_world.db {
      webhooks = (handle_event config event_message webhook_world).1.db.webhooks;
    })
    × IsSound 5
        (handle_event config event_message webhook_world).1.posted
        (handle_event config event_message webhook_world).1.db.webhooks
handle_event-IsSound_example =
    handle_event-IsSound config event_message webhook_world (omega arith) webhook_db-IsSound

calm_world-Calm : Calm calm_world
unfolding is_success
calm_world-Calm = record { calls_work = refl; failpoints_off = refl; endpoints_answer = λ n. refl }

deliver_once_delivers_example :
    (v : World) × (deliver_once describe any_url no_mac config calm_world
      ≡ (ok (length (due 7 50 webhook_db.webhooks)), v))
    × All (λ (x : Delivery). Done x.id v.db.webhooks) (due 7 50 webhook_db.webhooks)
deliver_once_delivers_example =
    deliver_once_delivers describe any_url no_mac config calm_world calm_world-Calm
      (refl, (refl, tt))

abbrev decoded : Decoded
decoded = record { event_id = some 70; event_type = text "payment.created"; transaction_id = 1000 }

event_message-decoded : decode event_message.value ≡ some decoded
unfolding decode message_of
event_message-decoded = refl

handled :
    handle_event config event_message calm_world
    ≡ (ok tt, (handle_event config event_message calm_world).1)
unfolding handle_event unless_malformed decode unless_unnamed record_event enqueue_all ◌>>◌ ◌>>=◌
    eval_failpoint map_err map_err_result eval injected_result new_uuid enqueue enqueue_row call
    answer next_call rest_calls pure continue text_eq message_of
handled = refl

handle_event_records_example :
    Everywhere 70 config.webhook_endpoints
      (handle_event config event_message calm_world).1.db.webhooks
handle_event_records_example =
    handle_event_records config event_message decoded 70 calm_world
      (handle_event config event_message calm_world).1 event_message-decoded refl handled

-- the event again, while calls fail
abbrev later_world : World
later_world = record webhook_world { db = (handle_event config event_message calm_world).1.db }

handle_event_once_example : (handle_event config event_message later_world).1.db ≡ later_world.db
handle_event_once_example =
    handle_event_once config event_message event_message calm_world
      (handle_event config event_message calm_world).1 later_world handled refl refl

show : ℕ → Text
show n = text "1000"

abbrev replay_meta : ReplayMeta
replay_meta = record {
  is_replay = true;
  replay_id = 90;
  replayed_at = 9;
  replayed_by = text "operator";
  original_seq = 0;
}

handle_event_replayed_example :
    (handle_event config (replay_message show replay_meta outbox_row) later_world).1.db
    ≡ later_world.db
handle_event_replayed_example =
    handle_event_replayed show config outbox_row replay_meta calm_world
      (handle_event config event_message calm_world).1 later_world handled refl

abbrev replay_request : ReplayRequest
replay_request = record {
  transaction_id = text "1000";
  from = none;
  to = some 8;
  limit = pos 0;
  requested_by = text "operator";
  dry_run = false;
}
