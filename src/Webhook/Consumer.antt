-- ===== src/Webhook/Consumer.antt =====
-- The consumer of internal/kafka/consumer.go with the handler of internal/webhook/worker.go.
use fault_tolerant_payment_l.Base.{
  ℕ, ◌≡◌, refl, inl, inr, some, List, All, All_weaken, exists, Bool-cases,
}
use fault_tolerant_payment_l.Config.{Config}
use fault_tolerant_payment_l.Store.Schema.{Message}
use fault_tolerant_payment_l.Store.World.{World}
use fault_tolerant_payment_l.Store.Keeps.{Keeps}
use fault_tolerant_payment_l.Kafka.{Fetch, run}
use fault_tolerant_payment_l.Kafka.Consumed.{IsWork, IsFrom, run_commits_handled}
use fault_tolerant_payment_l.Webhook.Store.{NewDelivery, is_pair, has_delivery_id, enqueue_row}
use fault_tolerant_payment_l.Webhook.Worker.{handle_event}
use fault_tolerant_payment_l.Webhook.Events.Frame.{handle_event-Keeps}
use fault_tolerant_payment_l.Webhook.Events.{
  Everywhere, event_of, event_of-eq-some, enqueue_row-Listed, handle_event_records,
}

-- Every endpoint has a row for the event of a message, unless the handler discards the message.
abbrev pub Persisted : Config → Message → World → Type 0
Persisted c m w =
    (event : ℕ) → event_of m.value ≡ some event → Everywhere event c.webhook_endpoints w.db.webhooks

enqueue_row-Persisted :
    (c : Config) (m : Message) (n : NewDelivery) → Keeps (Persisted c m) (enqueue_row n)
enqueue_row-Persisted c m n w h event about =
    All_weaken _ _ c.webhook_endpoints (λ u k. enqueue_row-Listed event u n w k) (h event about)

enqueue_row-commits :
    (os : List (ℕ × ℕ)) (n : NewDelivery) → Keeps (λ w. w.commits ≡ os) (enqueue_row n)
unfolding enqueue_row
enqueue_row-commits os n w h =
    elim (Bool-cases (exists (is_pair n.event_id n.endpoint) w.db.webhooks)) [
      | inl known ↦ rw known h
      | inr new ↦ elim (Bool-cases (exists (has_delivery_id n.id) w.db.webhooks)) [
        | inl taken ↦ rw (new, taken) h
        | inr free ↦ rw (new, free) h
      ]
    ]

pub handle_event-IsWork : (c : Config) → IsWork (handle_event c) (Persisted c)
handle_event-IsWork c = record {
  done = λ m w v ran event about.
      (let (x, read, named) = event_of-eq-some m.value event about in
        handle_event_records c m x event w v read named ran);
  stays =
      λ m n. handle_event-Keeps (Persisted c m) (λ w cs k r h. h) (enqueue_row-Persisted c m) c n;
  frame_calls = λ m w cs h. h;
  frame_commits = λ m w os h. h;
  frame_drawn = λ m w n h. h;
  commits_kept = λ n w.
      handle_event-Keeps (λ z. z.commits ≡ w.commits) (λ z cs k r h. h)
        (enqueue_row-commits w.commits) c n w refl;
}

-- If the reader returns what the partitions hold, and every endpoint has a row for the event of every committed
-- message, then it is so after the loop of the webhook consumer, whatever fails.
pub run-Persisted :
    (c : Config) (log : ℕ → ℕ → Message) (fs : List Fetch) (w : World)
    → All (IsFrom log) fs
    → All (λ (o : ℕ × ℕ). Persisted c (log o.0 o.1) w) w.commits
    → All
        (λ (o : ℕ × ℕ). Persisted c (log o.0 o.1) (run (handle_event c) fs w).1)
        (run (handle_event c) fs w).1.commits
run-Persisted c log fs w from h =
    run_commits_handled (handle_event c) (Persisted c) log fs w (handle_event-IsWork c) from h
