-- ===== src/Webhook/Store.antt =====
-- internal/webhook/store.go: the rows of `webhook_deliveries`. Each function is one statement of its own.
use fault_tolerant_payment_l.Base.{
  ℕ, suc, ◌+◌, ◌==◌, ltb, leb, Text, text, text_eq, take, Bool, true, false, not, ◌&&◌, ◌||◌,
  Option, none, some, List, [], ◌∷◌, exists, find, select, length, update_where, if◌then◌else◌,
}
use fault_tolerant_payment_l.Apperr.{wrapped, pg, no_rows}
use fault_tolerant_payment_l.Store.Schema.{Delivery, DeliveryStatus, Value}
use fault_tolerant_payment_l.Store.World.{World, Exec, Result, ok, err, call, map_err, ◌>>=◌, lift}
use fault_tolerant_payment_l.Store.Tx.{unique_violation}

-- the fields of `Delivery` that `Enqueue` writes
pub record NewDelivery : Type 0 where
  pub id : ℕ
  pub event_id : ℕ
  pub endpoint : Text
  pub event_type : Text
  pub transaction_id : ℕ
  pub payload : Value

-- the row with the defaults of its columns
unfoldable pub new_row : ℕ → NewDelivery → Delivery
new_row at d = record {
  id = d.id;
  event_id = d.event_id;
  endpoint = d.endpoint;
  event_type = d.event_type;
  transaction_id = d.transaction_id;
  payload = d.payload;
  status = DeliveryStatus.pending;
  attempts = 0;
  last_error = none;
  last_status_code = none;
  next_attempt_at = at;
  delivered_at = none;
  created_at = at;
}

-- `UNIQUE (event_id, endpoint)`
abbrev pub is_pair : ℕ → Text → Delivery → Bool
is_pair event endpoint d = d.event_id == event && text_eq d.endpoint endpoint

abbrev pub has_delivery_id : ℕ → Delivery → Bool
has_delivery_id id d = d.id == id

abbrev pub with_webhooks : List Delivery → World → World
with_webhooks rows w = record w { db = record w.db { webhooks = rows } }

-- `INSERT ... ON CONFLICT (event_id, endpoint) DO NOTHING`, and whether it wrote a row
unfoldable pub enqueue_row : NewDelivery → World → Result Bool × World
unfolding new_row
enqueue_row d w =
    if exists (is_pair d.event_id d.endpoint) w.db.webhooks
    then (ok false, w)
    else if exists (has_delivery_id d.id) w.db.webhooks
    then (err (pg unique_violation (text "webhook_deliveries_pkey")), w)
    else (ok true, with_webhooks (new_row w.db_now d ∷ w.db.webhooks) w)

-- `Enqueue`
unfoldable pub enqueue : NewDelivery → Exec Bool
enqueue d = map_err (wrapped (text "webhook: enqueue")) (call (enqueue_row d))

abbrev pub is_waiting : DeliveryStatus → Bool
is_waiting DeliveryStatus.pending = true
is_waiting DeliveryStatus.delivered = false
is_waiting DeliveryStatus.dead_letter = false

abbrev pub is_delivered : DeliveryStatus → Bool
is_delivered DeliveryStatus.pending = false
is_delivered DeliveryStatus.delivered = true
is_delivered DeliveryStatus.dead_letter = false

-- `WHERE status = 'pending' AND next_attempt_at <= now()`
abbrev pub is_due : ℕ → Delivery → Bool
is_due now d = is_waiting d.status && leb d.next_attempt_at now

-- `ORDER BY next_attempt_at, created_at`, where a tie keeps the order of the table
unfoldable pub is_before : Delivery → Delivery → Bool
is_before a b =
    ltb a.next_attempt_at b.next_attempt_at
    || (a.next_attempt_at == b.next_attempt_at && leb a.created_at b.created_at)

unfoldable pub place : Delivery → List Delivery → List Delivery
place d [] = d ∷ []
place d (x ∷ xs) = let others = place d xs in if is_before d x then d ∷ x ∷ xs else x ∷ others

unfoldable pub soonest_first : List Delivery → List Delivery
soonest_first [] = []
soonest_first (d ∷ ds) = place d (soonest_first ds)

-- the rows that `ClaimDue` reads
unfoldable pub due : ℕ → ℕ → List Delivery → List Delivery
due now limit rows = take limit (soonest_first (select (is_due now) rows))

-- `ClaimDue`, which locks and writes nothing
unfoldable pub claim_due : ℕ → Exec (List Delivery)
claim_due limit =
    map_err (wrapped (text "webhook: claim due"))
      (call λ w. (ok (due w.db_now limit w.db.webhooks), w))

-- `delivered_at = COALESCE(delivered_at, now())`
coalesce : Option ℕ → ℕ → Option ℕ
coalesce none now = some now
coalesce (some at) now = some at

unfoldable pub deliver_row : ℕ → ℕ → Delivery → Delivery
unfolding coalesce
deliver_row now status_code d = record d {
  status = DeliveryStatus.delivered;
  delivered_at = coalesce d.delivered_at now;
  attempts = suc d.attempts;
  last_status_code = some status_code;
  last_error = none;
}

-- `MarkDelivered`
unfoldable pub mark_delivered : ℕ → ℕ → Exec (Unit {0})
mark_delivered id status_code = map_err (wrapped (text "webhook: mark delivered")) (
    call λ w. (
      ok tt,
      with_webhooks
          (update_where (λ d. has_delivery_id id d && not (is_delivered d.status))
            (deliver_row w.db_now status_code) w.db.webhooks)
          w,
    ))

-- the row that `MarkFailed` writes
unfoldable pub fail_row : ℕ → Text → ℕ → ℕ → ℕ → Delivery → Delivery
fail_row now cause status_code backoff max_attempts d = record d {
  attempts = suc d.attempts;
  last_error = some (take 2000 cause);
  last_status_code = some status_code;
  status =
      if leb max_attempts (suc d.attempts)
      then DeliveryStatus.dead_letter
      else DeliveryStatus.pending;
  next_attempt_at = now + backoff;
}

unfoldable pub fail_rows :
    ℕ → Text → ℕ → ℕ → ℕ → Option Delivery → World → Result (ℕ × Bool) × World
fail_rows id cause status_code backoff max_attempts none w = (err no_rows, w)
fail_rows id cause status_code backoff max_attempts (some d) w = (
  ok (suc d.attempts, leb max_attempts (suc d.attempts)),
  with_webhooks
      (update_where (has_delivery_id id) (fail_row w.db_now cause status_code backoff max_attempts)
        w.db.webhooks)
      w,
)

-- `MarkFailed`: the attempts, and whether the row is dead
unfoldable pub mark_failed : ℕ → Text → ℕ → ℕ → ℕ → Exec (ℕ × Bool)
mark_failed id cause status_code backoff max_attempts =
    map_err (wrapped (text "webhook: mark failed")) (
      call λ w.
        fail_rows id cause status_code backoff max_attempts
          (find (has_delivery_id id) w.db.webhooks) w)

found : Option Delivery → Result Delivery
found none = err no_rows
found (some d) = ok d

-- `Get`; `pgx.ErrNoRows` is returned as it is
unfoldable pub get : ℕ → Text → Exec Delivery
unfolding found
get event endpoint =
    map_err (wrapped (text "webhook: get"))
      (call λ w. (ok (find (is_pair event endpoint) w.db.webhooks), w))
    >>= λ o. lift (found o)

-- the map of `CountByStatus`; a status that no row has is absent from Go's map, and 0 here
pub record StatusCounts : Type 0 where
  pub pending : ℕ
  pub delivered : ℕ
  pub dead_letter : ℕ

abbrev pub count_with : (DeliveryStatus → Bool) → List Delivery → ℕ
count_with p rows = length (select (λ d. p d.status) rows)

abbrev pub is_abandoned : DeliveryStatus → Bool
is_abandoned DeliveryStatus.pending = false
is_abandoned DeliveryStatus.delivered = false
is_abandoned DeliveryStatus.dead_letter = true

unfoldable pub counts : List Delivery → StatusCounts
counts rows = record {
  pending = count_with is_waiting rows;
  delivered = count_with is_delivered rows;
  dead_letter = count_with is_abandoned rows;
}

-- `CountByStatus`
unfoldable pub count_by_status : Exec StatusCounts
count_by_status =
    map_err (wrapped (text "webhook: count by status")) (call λ w. (ok (counts w.db.webhooks), w))
