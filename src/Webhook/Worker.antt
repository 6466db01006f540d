-- ===== src/Webhook/Worker.antt =====
-- internal/webhook/worker.go. `describe` is the text of an error, `is_url` says which endpoints `net/http` accepts,
-- and `mac` is HMAC-SHA256, of a secret and a payload. Metrics and logs are left out.
use fault_tolerant_payment_l.Base.{
  ℕ, suc, ◌+◌, ◌-◌, ◌/◌, ◌%◌, ltb, leb, Text, text, ◌++◌, ◌⊎◌, inl, inr, Bool, true, false, ◌&&◌,
  Option, none, some, List, [], ◌∷◌, if◌then◌else◌,
}
use fault_tolerant_payment_l.Apperr.{GoError, wrapped, plain}
use fault_tolerant_payment_l.Failpoint.{before_webhook_persist, before_webhook_send}
use fault_tolerant_payment_l.Config.{Config}
use fault_tolerant_payment_l.Store.Schema.{
  Delivery, Posted, Message, Value, event_value, dead_letter_value, unnamed_value, malformed_value,
}
use fault_tolerant_payment_l.Store.World.{
  Exec, ok, pure, call, map_err, eval_failpoint, new_uuid, attempt, draw, ◌>>=◌, ◌>>◌,
}
use fault_tolerant_payment_l.Outbox.Publisher.{backoff}
use fault_tolerant_payment_l.Webhook.Store.{enqueue, claim_due, mark_delivered, mark_failed}

-- what `json.Unmarshal` reads into the envelope, as far as the handler uses it; none for an error
pub record Decoded : Type 0 where
  -- none for the empty string
  pub event_id : Option ℕ
  pub event_type : Text
  pub transaction_id : ℕ

unfoldable pub decode : Value → Option Decoded
decode (event_value e) = some (record {
  event_id = some e.event_id;
  event_type = e.event_type;
  transaction_id = e.transaction_id;
})
decode (dead_letter_value r cause) =
    some
      (record { event_id = some r.id; event_type = r.event_type; transaction_id = r.aggregate_id })
decode (unnamed_value event_type) =
    some (record { event_id = none; event_type = event_type; transaction_id = 0 })
decode (malformed_value bytes) = none

-- `hex.EncodeToString`
hex_digit : ℕ → ℕ
hex_digit n = if ltb n 10 then b'0' + n else b'a' + (n - 10)

unfoldable pub hex : Text → Text
unfolding hex_digit
hex [] = []
hex (b ∷ bs) = hex_digit (b / 16) ∷ hex_digit (b % 16) ∷ hex bs

module _ (mac : Text → Value → Text) where
  -- `sign`
  unfoldable pub sign : Text → Value → Text
  unfolding hex
  sign secret payload = text "sha256=" ++ hex (mac secret payload)

  -- the signature's header, when a secret is set
  signature : Text → Value → Option Text
  unfolding sign
  signature [] payload = none
  signature (b ∷ bs) payload = some (sign (b ∷ bs) payload)

  -- the request that `post` sends, and the status of its answer
  unfoldable pub request : Config → Delivery → ℕ → Posted
  unfolding signature
  request c d status = record {
    endpoint = d.endpoint;
    event_id = d.event_id;
    event_type = d.event_type;
    transaction_id = d.transaction_id;
    attempt = suc d.attempts;
    signature = signature c.webhook_signing_secret d.payload;
    body = d.payload;
    answered = status;
  }

  -- `w.client.Do`: the endpoint answers, which the caller may not learn
  unfoldable pub do_request : Config → Delivery → Exec ℕ
  do_request c d = call λ w. (
    ok (w.statuses w.drawn),
    record w { drawn = suc w.drawn; posted = request c d (w.statuses w.drawn) ∷ w.posted },
  )

unfoldable pub is_success : ℕ → Bool
is_success status = leb 200 status && ltb status 300

-- the event's rows, one for each endpoint
unfoldable pub enqueue_all : Decoded → ℕ → Value → List Text → Exec (Unit {0})
enqueue_all e event payload [] = pure tt
enqueue_all e event payload (endpoint ∷ endpoints) = do
  id ← new_uuid
  enqueue (record {
    id = id;
    event_id = event;
    endpoint = endpoint;
    event_type = e.event_type;
    transaction_id = e.transaction_id;
    payload = payload;
  })
  enqueue_all e event payload endpoints

unfoldable pub record_event : Config → Decoded → ℕ → Value → Exec (Unit {0})
record_event c e event payload =
    map_err (wrapped (text "webhook: failpoint before persist"))
      (eval_failpoint before_webhook_persist)
    >> enqueue_all e event payload c.webhook_endpoints

unfoldable pub unless_unnamed : Config → Decoded → Value → Option ℕ → Exec (Unit {0})
unless_unnamed c e payload none = pure tt
unless_unnamed c e payload (some event) = record_event c e event payload

unfoldable pub unless_malformed : Config → Value → Option Decoded → Exec (Unit {0})
unless_malformed c payload none = pure tt
unless_malformed c payload (some e) = unless_unnamed c e payload e.event_id

-- `HandleEvent`
unfoldable pub handle_event : Config → Message → Exec (Unit {0})
handle_event c m = unless_malformed c m.value (decode m.value)

-- `post`: the status of a success, or the status and the error of a failure
unfoldable pub after_do : GoError ⊎ ℕ → (ℕ × GoError) ⊎ ℕ
after_do (inl e) = inl (0, wrapped (text "webhook: post") e)
after_do (inr status) =
    if is_success status
    then inr status
    else inl (status, plain (text "webhook: endpoint returned a failure"))

unfoldable pub recorded : GoError ⊎ Unit {0} → Exec Bool
recorded (inl e) = pure false
recorded (inr _) = pure true

module _ (describe : GoError → Text) (is_url : Text → Bool) (mac : Text → Value → Text)
    (c : Config) where
  -- `post`
  unfoldable pub post : Delivery → Exec ((ℕ × GoError) ⊎ ℕ)
  post d =
      if is_url d.endpoint
      then (attempt (do_request mac c d) >>= λ x. pure (after_do x))
      else pure (inl (0, wrapped (text "webhook: build request") (plain (text "invalid URL"))))

  -- `recordFailure`, whose errors are only logged
  unfoldable pub record_failure : Delivery → GoError → ℕ → Exec (Unit {0})
  record_failure d cause status = do
    k ← draw
    attempt (
        mark_failed d.id (describe cause) status
          (backoff (suc d.attempts) c.webhook_base_backoff c.webhook_max_backoff k)
          c.webhook_max_attempts)
    pure tt

  unfoldable pub after_post : Delivery → (ℕ × GoError) ⊎ ℕ → Exec Bool
  after_post d (inl (status, e)) = record_failure d e status >> pure false
  after_post d (inr status) = attempt (mark_delivered d.id status) >>= recorded

  unfoldable pub post_or_fail : Delivery → GoError ⊎ Unit {0} → Exec Bool
  post_or_fail d (inl e) = record_failure d e 0 >> pure false
  post_or_fail d (inr _) = post d >>= after_post d

  -- `deliver`
  unfoldable pub deliver : Delivery → Exec Bool
  deliver d = attempt (eval_failpoint before_webhook_send) >>= post_or_fail d

  -- the loop of `DeliverOnce`; `ctx.Err()` is a call that fails once the context is done
  unfoldable pub deliver_all : ℕ → List Delivery → Exec ℕ
  deliver_all n [] = pure n
  deliver_all n (d ∷ ds) = do
    call (pure tt)
    sent ← deliver d
    deliver_all (if sent then suc n else n) ds

  -- `DeliverOnce`; the count beside an error is read by no caller
  unfoldable pub deliver_once : Exec ℕ
  deliver_once = claim_due c.webhook_batch_size >>= deliver_all 0
