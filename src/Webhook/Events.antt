-- ===== src/Webhook/Events.antt =====
-- `HandleEvent` of internal/webhook/worker.go, however its calls end.
pub mod Frame
use fault_tolerant_payment_l.Base.{
  ℕ, suc, ◌==◌, ==_iff, ◌≡◌, refl, sym, ◌∙◌, ap, subst, inl, inr, arith, Text, Bool, true, ◌&&◌,
  ◌≤◌, Option, none, some, List, [], ◌∷◌, map, All, exists, text_eq, text_eq_iff, Bool-cases,
  Option-cases, All_weaken, exists-map,
}
use fault_tolerant_payment_l.Config.{Config}
use fault_tolerant_payment_l.Failpoint.{Registry}
use fault_tolerant_payment_l.Store.Schema.{Db, Delivery, Message, Value}
use fault_tolerant_payment_l.Store.World.{World, Fault, ok, eval_failpoint, new_uuid}
use fault_tolerant_payment_l.Store.Inversion.{
  call-eq-ok, ok-eq-ok, >>=-elim, >>-elim, map_err-eq-ok,
}
use fault_tolerant_payment_l.Store.Keeps.{
  Keeps, pure-Keeps, map_err-Keeps, call-Keeps, then-Keeps, and-Keeps,
}
use fault_tolerant_payment_l.Webhook.Store.{
  NewDelivery, new_row, is_pair, has_delivery_id, enqueue, enqueue_row,
}
use fault_tolerant_payment_l.Webhook.Worker.{
  Decoded, decode, enqueue_all, record_event, unless_unnamed, unless_malformed, handle_event,
}
use fault_tolerant_payment_l.Webhook.Sound.{DeliveryKey, key_of, IsSound, IsSound-cons}
use fault_tolerant_payment_l.Webhook.Deliveries.Steps.{with_rows}
use fault_tolerant_payment_l.Webhook.Events.Frame.{enqueue_all-Keeps, handle_event-Keeps}

-- The tables are those of `d` but for the deliveries, which are sound.
record Recorded (limit : ℕ) (d : Db) (w : World) : Type 0 where
  tables : w.db ≡ record d { webhooks = w.db.webhooks }
  sound : IsSound limit w.posted w.db.webhooks

module _ (limit : ℕ) (d : Db) where
  frame-Recorded :
      (w : World) (cs : List Fault) (n : ℕ) (r : Registry)
      → Recorded limit d w
      → Recorded limit d (record w { calls = cs; drawn = n; failpoints = r })
  frame-Recorded w cs n r h = record { tables = h.tables; sound = h.sound }

  enqueue_row-Recorded : (n : NewDelivery) → 1 ≤ limit → Keeps (Recorded limit d) (enqueue_row n)
  unfolding enqueue_row
  enqueue_row-Recorded n positive w r =
      elim (Bool-cases (exists (is_pair n.event_id n.endpoint) w.db.webhooks)) [
        | inl known ↦ rw known r
        | inr new ↦ elim (Bool-cases (exists (has_delivery_id n.id) w.db.webhooks)) [
          | inl taken ↦ rw (new, taken) r
          | inr free ↦
              rw (new, free)
                (record {
                  tables = with_rows d w.db _ r.tables;
                  sound =
                      IsSound-cons limit w.posted w.db.webhooks w.db_now n positive free new
                        r.sound;
                })
        ]
      ]

-- If a delivery may be tried at least once, the handler of an event writes no table but the deliveries, whatever
-- fails: no two rows share an id or an event and an endpoint, a delivered row was answered with a status 2xx, and a
-- waiting row was tried less often than the limit, if this held before.
pub handle_event-IsSound :
    (c : Config) (m : Message) (w : World)
    → 1 ≤ c.webhook_max_attempts
    → IsSound c.webhook_max_attempts w.posted w.db.webhooks
    → ((handle_event c m w).1.db ≡ record w.db { webhooks = (handle_event c m w).1.db.webhooks })
      × IsSound c.webhook_max_attempts
          (handle_event c m w).1.posted
          (handle_event c m w).1.db.webhooks
unfolding handle_event
handle_event-IsSound c m w positive s =
    let end =
      handle_event-Keeps (Recorded c.webhook_max_attempts w.db)
        (frame-Recorded c.webhook_max_attempts w.db)
        (λ n. enqueue_row-Recorded c.webhook_max_attempts w.db n positive) c m w
        (record { tables = refl; sound = s }) in
    (end.tables, end.sound)

-- Every endpoint has a row for an event.
abbrev pub Everywhere : ℕ → List Text → List Delivery → Type 0
Everywhere event us rows = All (λ (u : Text). exists (is_pair event u) rows ≡ true) us

module _ (event : ℕ) (u : Text) where
  abbrev pub Listed : World → Type 0
  Listed w = exists (is_pair event u) w.db.webhooks ≡ true

  pub enqueue_row-Listed : (n : NewDelivery) → Keeps Listed (enqueue_row n)
  unfolding enqueue_row
  enqueue_row-Listed n w p =
      elim (Bool-cases (exists (is_pair n.event_id n.endpoint) w.db.webhooks)) [
        | inl known ↦ rw known p
        | inr new ↦ elim (Bool-cases (exists (has_delivery_id n.id) w.db.webhooks)) [
          | inl taken ↦ rw (new, taken) p
          | inr free ↦ rw (new, free) (ground (arith, p))
        ]
      ]

  enqueue_all-Listed :
      (x : Decoded) (payload : Value) (us : List Text)
      → Keeps Listed (enqueue_all x event payload us)
  enqueue_all-Listed x payload us =
      enqueue_all-Keeps Listed (λ w cs n r p. p) enqueue_row-Listed x event payload us

enqueue_row-found :
    (n : NewDelivery) {b : Bool} (w v : World)
    → enqueue_row n w ≡ (ok b, v)
    → exists (is_pair n.event_id n.endpoint) v.db.webhooks ≡ true
unfolding enqueue_row new_row
enqueue_row-found n w v h =
    elim (Bool-cases (exists (is_pair n.event_id n.endpoint) w.db.webhooks)) [
      | inl known ↦
          (let k = rw known at h in
            subst (λ (z : World). exists (is_pair n.event_id n.endpoint) z.db.webhooks ≡ true)
              (sym (ok-eq-ok k).1) known)
      | inr new ↦ elim (Bool-cases (exists (has_delivery_id n.id) w.db.webhooks)) [
        | inl taken ↦ (let k = rw (new, taken) at h in cc)
        | inr free ↦
            (let k = rw (new, free) at h in
              subst (λ (z : World). exists (is_pair n.event_id n.endpoint) z.db.webhooks ≡ true)
                (sym (ok-eq-ok k).1)
                (rw
                  (
                    (==_iff n.event_id n.event_id).1 refl,
                    (text_eq_iff n.endpoint n.endpoint).1 refl,
                  )
                  refl))
      ]
    ]

enqueue_all-Everywhere :
    (x : Decoded) (event : ℕ) (payload : Value) (us : List Text) (w v : World)
    → enqueue_all x event payload us w ≡ (ok tt, v)
    → Everywhere event us v.db.webhooks
unfolding enqueue_all enqueue
enqueue_all-Everywhere x event payload [] w v h = tt
enqueue_all-Everywhere x event payload (u ∷ us) w v h = >>=-elim new_uuid _ w h λ id w1 e h1.
    >>-elim _ _ w1 h1 λ b w2 e2 h2.
      (let found = enqueue_row-found _ _ w2 (call-eq-ok _ _ (map_err-eq-ok _ _ w1 e2)) in
        (
          subst (λ (z : World). exists (is_pair event u) z.db.webhooks ≡ true) (ap (λ p. p.1) h2)
              (enqueue_all-Listed event u x payload us w2 found),
          enqueue_all-Everywhere x event payload us w2 v h2,
        ))

enqueue_all-again :
    (x : Decoded) (event : ℕ) (payload : Value) (d : Db) (us : List Text)
    → Everywhere event us d.webhooks
    → Keeps (λ w. w.db ≡ d) (enqueue_all x event payload us)
unfolding enqueue_all enqueue new_uuid enqueue_row
enqueue_all-again x event payload d [] h = pure-Keeps _ tt
enqueue_all-again x event payload d (u ∷ us) h =
    then-Keeps _ new_uuid _ (λ w p. p)
      λ id.
        and-Keeps _ _ _
          (map_err-Keeps _ _ _ (call-Keeps _ (λ w cs p. p) _ λ w p. enqueue_row-again _ d w h.0 p))
          (enqueue_all-again x event payload d us h.1)
  where
    enqueue_row-again :
        (n : NewDelivery) (d : Db) (w : World)
        → exists (is_pair n.event_id n.endpoint) d.webhooks ≡ true
        → w.db ≡ d
        → (enqueue_row n w).1.db ≡ d
    enqueue_row-again n d w known p =
        let k : exists (is_pair n.event_id n.endpoint) w.db.webhooks ≡ true =
          subst (λ (y : Db). exists (is_pair n.event_id n.endpoint) y.webhooks ≡ true) (sym p)
            known in
        rw k p

record_event-again :
    (c : Config) (x : Decoded) (event : ℕ) (payload : Value) (d : Db)
    → Everywhere event c.webhook_endpoints d.webhooks
    → Keeps (λ w. w.db ≡ d) (record_event c x event payload)
unfolding record_event eval_failpoint
record_event-again c x event payload d h =
    and-Keeps _ _ _ (map_err-Keeps _ _ _ λ w p. p)
      (enqueue_all-again x event payload d c.webhook_endpoints h)

-- When the handler of an event succeeds, every endpoint of the configuration has a row for the event.
pub handle_event_records :
    (c : Config) (m : Message) (x : Decoded) (event : ℕ) (w v : World)
    → decode m.value ≡ some x
    → x.event_id ≡ some event
    → handle_event c m w ≡ (ok tt, v)
    → Everywhere event c.webhook_endpoints v.db.webhooks
unfolding handle_event record_event unless_malformed unless_unnamed enqueue_all
handle_event_records c m x event w v read named h =
    let k = rw (read, named) at h in
    >>-elim _ _ w k λ u w1 e h1. enqueue_all-Everywhere x event m.value c.webhook_endpoints w1 v h1

same_keys :
    (event : ℕ) (us : List Text) (rows others : List Delivery)
    → map key_of others ≡ map key_of rows
    → Everywhere event us rows
    → Everywhere event us others
same_keys event us rows others e h =
    All_weaken _ _ us
      (λ u known.
        sym (exists-map (is_for event u) key_of others)
        ∙ ap (exists (is_for event u)) e
        ∙ exists-map (is_for event u) key_of rows
        ∙ known)
      h
  where
    is_for : ℕ → Text → DeliveryKey → Bool
    is_for event u k = k.event_id == event && text_eq k.endpoint u

-- the event that a message is about, unless the handler discards it
abbrev pub event_of : Value → Option ℕ
event_of v = elim (decode v) [ none ↦ none | some x ↦ x.event_id ]

pub event_of-eq-some :
    (v : Value) (event : ℕ)
    → event_of v ≡ some event
    → (x : Decoded) × (decode v ≡ some x) × (x.event_id ≡ some event)
event_of-eq-some v event h = elim (Option-cases (decode v)) [
  | inl bad ↦ (let k = rw (bad, event_of) at h in cc)
  | inr (x, read) ↦ (let k = rw (read, event_of) at h in (x, read, k))
]

-- Once the handler of a message has succeeded, handling a message about the same event changes no table, whatever
-- fails, as long as the deliveries have the same ids, events and endpoints, in order.
pub handle_event_once :
    (c : Config) (m m' : Message) (w v w' : World)
    → handle_event c m w ≡ (ok tt, v)
    → event_of m'.value ≡ event_of m.value
    → map key_of w'.db.webhooks ≡ map key_of v.db.webhooks
    → (handle_event c m' w').1.db ≡ w'.db
unfolding handle_event unless_malformed unless_unnamed record_event enqueue_all
handle_event_once c m m' w v w' h about same = elim (Option-cases (decode m'.value)) [
  | inl bad ↦ rw bad (pure-Keeps (λ z. z.db ≡ w'.db) tt w' refl)
  | inr (x, read) ↦ elim (Option-cases x.event_id) [
    | inl unnamed ↦ rw (read, unnamed) (pure-Keeps (λ z. z.db ≡ w'.db) tt w' refl)
    | inr (event, named) ↦
        (let here : event_of m'.value ≡ some event = rw (read, event_of) named in
          let (y, first, of_event) = event_of-eq-some m.value event (sym about ∙ here) in
          rw (read, named)
            (record_event-again c x event m'.value w'.db
              (same_keys event c.webhook_endpoints v.db.webhooks w'.db.webhooks same
                (handle_event_records c m y event w v first of_event h))
              w' refl))
  ]
]
