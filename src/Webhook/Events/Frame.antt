-- ===== src/Webhook/Events/Frame.antt =====
-- What `HandleEvent` of internal/webhook/worker.go keeps because its insertions do.
use fault_tolerant_payment_l.Base.{ℕ, suc, Text, Option, none, some, List, [], ◌∷◌}
use fault_tolerant_payment_l.Config.{Config}
use fault_tolerant_payment_l.Failpoint.{Registry}
use fault_tolerant_payment_l.Store.Schema.{Message, Value}
use fault_tolerant_payment_l.Store.World.{World, Fault, eval_failpoint, new_uuid}
use fault_tolerant_payment_l.Store.Keeps.{
  Keeps, pure-Keeps, map_err-Keeps, call-Keeps, then-Keeps, and-Keeps,
}
use fault_tolerant_payment_l.Webhook.Store.{NewDelivery, enqueue, enqueue_row}
use fault_tolerant_payment_l.Webhook.Worker.{
  Decoded, decode, enqueue_all, record_event, unless_unnamed, unless_malformed, handle_event,
}

-- A predicate that a new row keeps, and that does not read the calls, the draws and the failpoints.
module _ {ℓ} (P : World → Type ℓ)
    (frame : (w : World) (cs : List Fault) (n : ℕ) (r : Registry)
      → P w
      → P (record w { calls = cs; drawn = n; failpoints = r }))
    (inserted : (n : NewDelivery) → Keeps P (enqueue_row n)) where
  pub enqueue_all-Keeps :
      (x : Decoded) (event : ℕ) (payload : Value) (us : List Text)
      → Keeps P (enqueue_all x event payload us)
  unfolding enqueue_all new_uuid enqueue
  enqueue_all-Keeps x event payload [] = pure-Keeps P tt
  enqueue_all-Keeps x event payload (u ∷ us) =
      then-Keeps P new_uuid _ (λ w p. frame w w.calls (suc w.drawn) w.failpoints p)
        λ id.
          and-Keeps P _ _
            (map_err-Keeps P _ _
              (call-Keeps P (λ w cs p. frame w cs w.drawn w.failpoints p) _ (inserted _)))
            (enqueue_all-Keeps x event payload us)

  record_event-Keeps :
      (c : Config) (x : Decoded) (event : ℕ) (payload : Value)
      → Keeps P (record_event c x event payload)
  unfolding record_event eval_failpoint
  record_event-Keeps c x event payload =
      and-Keeps P _ _ (map_err-Keeps P _ _ λ w p. frame w w.calls w.drawn _ p)
        (enqueue_all-Keeps x event payload c.webhook_endpoints)

  unless_unnamed-Keeps :
      (c : Config) (x : Decoded) (payload : Value) (o : Option ℕ)
      → Keeps P (unless_unnamed c x payload o)
  unfolding unless_unnamed
  unless_unnamed-Keeps c x payload none = pure-Keeps P tt
  unless_unnamed-Keeps c x payload (some event) = record_event-Keeps c x event payload

  unless_malformed-Keeps :
      (c : Config) (payload : Value) (o : Option Decoded) → Keeps P (unless_malformed c payload o)
  unfolding unless_malformed
  unless_malformed-Keeps c payload none = pure-Keeps P tt
  unless_malformed-Keeps c payload (some x) = unless_unnamed-Keeps c x payload x.event_id

  pub handle_event-Keeps : (c : Config) (m : Message) → Keeps P (handle_event c m)
  unfolding handle_event
  handle_event-Keeps c m = unless_malformed-Keeps c m.value (decode m.value)
