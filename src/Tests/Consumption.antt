-- ===== src/Tests/Consumption.antt =====
-- The theorems on the Kafka consumer applied to the webhook handler and two messages.
use fault_tolerant_payment_l.Base.{◌≤◌, ◌≡◌, refl, ℕ, suc, text, List, [], ◌∷◌, All, arith}
use fault_tolerant_payment_l.Apperr.{plain, wrapped}
use fault_tolerant_payment_l.Store.Schema.{Message}
use fault_tolerant_payment_l.Store.World.{
  World, refuse, ok, err, pure, ◌>>=◌, ◌>>◌, continue, map_err, map_err_result, call, answer,
  next_call, rest_calls, eval_failpoint, injected_result, new_uuid,
}
use fault_tolerant_payment_l.Failpoint.{eval}
use fault_tolerant_payment_l.Outbox.Publisher.{message_of}
use fault_tolerant_payment_l.Kafka.{Fetch, stopped, failed, fetched, fetch_backoff, run}
use fault_tolerant_payment_l.Kafka.Consumed.{run_commits_handled, run_passes_failed}
use fault_tolerant_payment_l.Kafka.Delay.{fetch_backoff_range}
use fault_tolerant_payment_l.Webhook.Store.{enqueue, enqueue_row}
use fault_tolerant_payment_l.Webhook.Worker.{
  decode, enqueue_all, record_event, unless_unnamed, unless_malformed, handle_event,
}
use fault_tolerant_payment_l.Webhook.Consumer.{Persisted, handle_event-IsWork, run-Persisted}
use fault_tolerant_payment_l.Scenario.{config, fresh_world}
use fault_tolerant_payment_l.Tests.Deliveries.{event_message, webhook_world}

abbrev partition_log : ℕ → ℕ → Message
partition_log partition offset = event_message

abbrev fetches : List Fetch
fetches =
    fetched 0 5 event_message
    ∷ failed (plain (text "broker down"))
    ∷ fetched 0 6 event_message
    ∷ stopped
    ∷ []

run_commits_handled_example :
    All
      (λ (o : ℕ × ℕ).
        Persisted config
          (partition_log o.0 o.1)
          (run (handle_event config) fetches webhook_world).1)
      (run (handle_event config) fetches webhook_world).1.commits
run_commits_handled_example =
    run_commits_handled (handle_event config) (Persisted config) partition_log fetches webhook_world
      (handle_event-IsWork config) (refl, (tt, (refl, (tt, tt)))) tt

run-Persisted_example :
    All
      (λ (o : ℕ × ℕ).
        Persisted config
          (partition_log o.0 o.1)
          (run (handle_event config) fetches webhook_world).1)
      (run (handle_event config) fetches webhook_world).1.commits
run-Persisted_example =
    run-Persisted config partition_log fetches webhook_world (refl, (tt, (refl, (tt, tt)))) tt

-- the first INSERT fails
abbrev refusing_world : World
refusing_world = fresh_world (refuse (plain (text "timeout")) ∷ [])

abbrev refused_world : World
refused_world = (handle_event config event_message refusing_world).1

refused :
    handle_event config event_message refusing_world
    ≡ (err (wrapped (text "webhook: enqueue") (plain (text "timeout"))), refused_world)
unfolding handle_event unless_malformed decode unless_unnamed record_event enqueue_all ◌>>◌ ◌>>=◌
    eval_failpoint map_err map_err_result eval injected_result new_uuid enqueue call answer
    next_call rest_calls pure continue message_of
refused = refl

accepted :
    handle_event config event_message refused_world
    ≡ (ok tt, (handle_event config event_message refused_world).1)
unfolding handle_event unless_malformed decode unless_unnamed record_event enqueue_all ◌>>◌ ◌>>=◌
    eval_failpoint map_err map_err_result eval injected_result new_uuid enqueue enqueue_row call
    answer next_call rest_calls pure continue message_of
accepted = refl

no_calls_left : (handle_event config event_message refused_world).1.calls ≡ []
unfolding handle_event unless_malformed decode unless_unnamed record_event enqueue_all ◌>>◌ ◌>>=◌
    eval_failpoint map_err map_err_result eval injected_result new_uuid enqueue enqueue_row call
    answer next_call rest_calls pure continue message_of
no_calls_left = refl

run_passes_failed_example :
    (run
      (handle_event config)
      (fetched 0 5 event_message ∷ fetched 0 (suc 5) event_message ∷ [])
      refusing_world).1.commits
    ≡ (0, suc 5) ∷ (handle_event config event_message refused_world).1.commits
run_passes_failed_example =
    run_passes_failed (handle_event config) 0 5 event_message event_message
      (wrapped (text "webhook: enqueue") (plain (text "timeout"))) refusing_world refused_world
      (handle_event config event_message refused_world).1 refused accepted no_calls_left

-- the first failure, with a draw of one half
fetch_backoff_range_example :
    (125_000_000 ≤ fetch_backoff 1 4_503_599_627_370_496)
    × (fetch_backoff 1 4_503_599_627_370_496 ≤ 30_000_000_000)
fetch_backoff_range_example = fetch_backoff_range 1 4_503_599_627_370_496 (omega arith)
