-- ===== src/Webhook/Replays.antt =====
-- Replays of internal/outbox/replay.go as the handler of internal/webhook/worker.go sees them.
use fault_tolerant_payment_l.Base.{ℕ, ◌≡◌, refl, Text, map}
use fault_tolerant_payment_l.Config.{Config}
use fault_tolerant_payment_l.Store.Schema.{OutboxRow, ReplayMeta, event_value}
use fault_tolerant_payment_l.Store.World.{World, ok}
use fault_tolerant_payment_l.Outbox.Publisher.{message_of}
use fault_tolerant_payment_l.Outbox.Replay.{mark_replayed, replay_message}
use fault_tolerant_payment_l.Webhook.Worker.{decode, handle_event}
use fault_tolerant_payment_l.Webhook.Sound.{key_of}
use fault_tolerant_payment_l.Webhook.Events.{handle_event_once}

-- Once the handler has recorded a published row, its replay changes no table, whatever fails, as long as the
-- deliveries have the same ids, events and endpoints, in order.
pub handle_event_replayed :
    (show : ℕ → Text) (c : Config) (r : OutboxRow) (meta : ReplayMeta) (w v w' : World)
    → handle_event c (message_of r.topic (event_value r.payload) r) w ≡ (ok tt, v)
    → map key_of w'.db.webhooks ≡ map key_of v.db.webhooks
    → (handle_event c (replay_message show meta r) w').1.db ≡ w'.db
unfolding message_of replay_message mark_replayed decode
handle_event_replayed show c r meta w v w' h same =
    handle_event_once c (message_of r.topic (event_value r.payload) r) (replay_message show meta r)
      w v w' h refl same
