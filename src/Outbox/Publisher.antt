-- ===== src/Outbox/Publisher.antt =====
-- internal/outbox/publisher.go over `Publish` of internal/kafka/producer.go. `describe` is the text of an error,
-- and `busy` the rows that other workers have locked. Metrics and logs are left out.
use fault_tolerant_payment_l.Base.{
  ℕ, suc, ◌+◌, ◌-◌, ◌*◌, ◌/◌, ◌^◌, ◌++◌, ◌⊎◌, inl, inr, ltb, leb, Text, text, text_eq, Bool, true,
  false, List, [], ◌∷◌, if◌then◌else◌,
}
use fault_tolerant_payment_l.Apperr.{GoError, wrapped}
use fault_tolerant_payment_l.Failpoint.{before_kafka_publish, after_kafka_publish}
use fault_tolerant_payment_l.Config.{Config}
use fault_tolerant_payment_l.Store.Schema.{
  OutboxRow, Message, Value, event_value, dead_letter_value,
}
use fault_tolerant_payment_l.Store.World.{
  Exec, ok, pure, call, map_err, eval_failpoint, attempt, draw, ◌>>=◌, ◌>>◌,
}
use fault_tolerant_payment_l.Outbox.Queue.{claim, mark_published, mark_failed, backlog}

-- a header of `withEventHeaders` that is not a UUID
unfoldable pub set_header : Text → Text → List (Text × Text) → List (Text × Text)
set_header k v [] = (k, v) ∷ []
set_header k v ((n, x) ∷ hs) =
    let others = set_header k v hs in if text_eq n k then (k, v) ∷ hs else (n, x) ∷ others

-- The message of a row on a topic.
unfoldable pub message_of : Text → Value → OutboxRow → Message
message_of topic value r = record {
  topic = topic;
  key = r.partition_key;
  value = value;
  headers = set_header (text "event_type") r.event_type r.headers;
  event_id = r.id;
  transaction_id = r.aggregate_id;
}

-- `Publish`
unfoldable pub publish : Message → Exec (Unit {0})
publish m =
    map_err (wrapped (text "kafka: publish to " ++ m.topic))
      (call λ w. (ok tt, record w { broker = m ∷ w.broker }))

-- the exponential part of `Backoff`, which stops at the cap
unfoldable pub exponential : ℕ → ℕ → ℕ → ℕ
exponential n base max_delay =
    let delay : ℕ = base * 2 ^ n in if ltb max_delay delay then max_delay else delay

-- `Backoff`, from the draw k / 2 ^ 53 of `rand.Float64`, without the rounding of float64
unfoldable pub backoff : ℕ → ℕ → ℕ → ℕ → ℕ
unfolding exponential
backoff attempt base max_delay k =
    let delay : ℕ = exponential (attempt - 1) base max_delay in
    if leb (2 * delay) base then delay else (base * 2 ^ 53 + k * (2 * delay - base)) / 2 ^ 54

module _ (describe : GoError → Text) (c : Config) where
  -- `publishToDLQ`, whose error is only logged
  unfoldable pub publish_to_dlq : OutboxRow → GoError → Exec (Unit {0})
  publish_to_dlq r cause =
      attempt (publish (message_of c.topic_payments_dlq (dead_letter_value r (describe cause)) r))
      >>= λ _. pure tt

  unfoldable pub after_mark_failed : OutboxRow → GoError → GoError ⊎ (ℕ × Bool) → Exec (Unit {0})
  after_mark_failed r cause (inl e) = pure tt
  after_mark_failed r cause (inr (attempts, dead)) =
      if dead then publish_to_dlq r cause else pure tt

  -- `fail`
  unfoldable pub fail : OutboxRow → GoError → Exec (Unit {0})
  fail r cause = do
    k ← draw
    marked ← attempt (
        mark_failed r.id (describe cause)
          (backoff (suc r.attempts) c.outbox_base_backoff c.outbox_max_backoff k)
          c.outbox_max_attempts)
    after_mark_failed r cause marked

  -- the end of `publishOne`: an error of the mark leaves the row to be published again
  unfoldable pub marked_published : GoError ⊎ Unit {0} → Exec Bool
  marked_published (inl e) = pure false
  marked_published (inr _) = pure true

  unfoldable pub after_publish : OutboxRow → GoError ⊎ Unit {0} → Exec Bool
  after_publish r (inl e) = pure false
  after_publish r (inr _) = attempt (mark_published r.id) >>= marked_published

  unfoldable pub published_or_failed : OutboxRow → GoError ⊎ Unit {0} → Exec Bool
  published_or_failed r (inl e) = fail r e >> pure false
  published_or_failed r (inr _) = attempt (eval_failpoint after_kafka_publish) >>= after_publish r

  unfoldable pub publish_or_fail : OutboxRow → GoError ⊎ Unit {0} → Exec Bool
  publish_or_fail r (inl e) = fail r e >> pure false
  publish_or_fail r (inr _) =
      attempt (publish (message_of r.topic (event_value r.payload) r)) >>= published_or_failed r

  -- `publishOne`
  unfoldable pub publish_one : OutboxRow → Exec Bool
  publish_one r = attempt (eval_failpoint before_kafka_publish) >>= publish_or_fail r

  -- the loop of `RunOnce`; `ctx.Err()` is a call that fails once the context is done
  unfoldable pub publish_all : ℕ → List OutboxRow → Exec ℕ
  publish_all n [] = pure n
  publish_all n (r ∷ rs) = do
    call (pure tt)
    sent ← publish_one r
    publish_all (if sent then suc n else n) rs

  -- `RunOnce`; it returns the count beside an error too, which only the log and the drain test read
  unfoldable pub run_once : (ℕ → Bool) → Exec ℕ
  run_once busy = do
    attempt backlog
    batch ← claim busy c.outbox_worker_id c.outbox_batch_size c.outbox_claim_ttl
    publish_all 0 batch
