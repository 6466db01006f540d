-- ===== src/Config.antt =====
-- The settings of internal/config/config.go that the modelled parts read, and `TopicForEvent`.
use fault_tolerant_payment_l.Base.{ℕ, Text, text, text_eq, List, [], ◌∷◌, if◌then◌else◌}

pub record Config : Type 0 where
  pub db_max_tx_retries : ℕ
  pub topic_payments_created : Text
  pub topic_payments_reversed : Text
  pub topic_payments_failed : Text
  pub topic_payments_dlq : Text
  pub outbox_worker_id : Text
  pub outbox_batch_size : ℕ
  pub outbox_max_attempts : ℕ
  pub outbox_base_backoff : ℕ
  pub outbox_max_backoff : ℕ
  pub outbox_claim_ttl : ℕ
  pub webhook_endpoints : List Text
  pub webhook_max_attempts : ℕ
  pub webhook_batch_size : ℕ
  pub webhook_base_backoff : ℕ
  pub webhook_max_backoff : ℕ
  -- empty for requests without a signature
  pub webhook_signing_secret : Text

-- `TopicForEvent`
unfoldable pub topic_for_event : Config → Text → Text
topic_for_event c event_type =
    if text_eq event_type (text "payment.reversed")
    then c.topic_payments_reversed
    else if text_eq event_type (text "payment.failed")
    then c.topic_payments_failed
    else c.topic_payments_created

-- `AllTopics`
unfoldable pub all_topics : Config → List Text
all_topics c =
    c.topic_payments_created ∷ c.topic_payments_reversed ∷ c.topic_payments_failed
    ∷ c.topic_payments_dlq ∷ []
