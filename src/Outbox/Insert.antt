-- ===== src/Outbox/Insert.antt =====
-- `Insert` of internal/outbox/repo.go, which runs in the caller's transaction.
use fault_tolerant_payment_l.Base.{
  ℕ, ◌==◌, Text, text, Bool, none, List, ◌∷◌, exists, if◌then◌else◌,
}
use fault_tolerant_payment_l.Apperr.{wrapped, pg}
use fault_tolerant_payment_l.Store.Schema.{Envelope, OutboxRow, pending}
use fault_tolerant_payment_l.Store.World.{World, Exec, Result, ok, err, call, map_err}
use fault_tolerant_payment_l.Store.Tx.{unique_violation}

-- the fields of `Record` that `Insert` writes
pub record NewEvent : Type 0 where
  pub id : ℕ
  pub topic : Text
  pub event_type : Text
  pub aggregate_id : ℕ
  pub partition_key : ℕ
  pub payload : Envelope
  pub headers : List (Text × Text)

-- the row with the defaults of its columns
unfoldable pub new_row : ℕ → NewEvent → OutboxRow
new_row at e = record {
  id = e.id;
  topic = e.topic;
  event_type = e.event_type;
  aggregate_id = e.aggregate_id;
  partition_key = e.partition_key;
  payload = e.payload;
  headers = e.headers;
  status = pending;
  attempts = 0;
  last_error = none;
  claimed_by = none;
  claimed_at = none;
  next_attempt_at = at;
  published_at = none;
  created_at = at;
}

abbrev pub has_event_id : ℕ → OutboxRow → Bool
has_event_id id r = r.id == id

unfoldable pub insert_row : NewEvent → World → Result (Unit {0}) × World
insert_row e w =
    if exists (has_event_id e.id) w.db.outbox
    then (err (pg unique_violation (text "outbox_events_pkey")), w)
    else (ok tt, record w { db = record w.db { outbox = new_row w.db_now e ∷ w.db.outbox } })

-- `Insert`
unfoldable pub insert : NewEvent → Exec (Unit {0})
insert e = map_err (wrapped (text "outbox: insert")) (call (insert_row e))
