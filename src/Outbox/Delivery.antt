-- ===== src/Outbox/Delivery.antt =====
-- A cycle of the publisher of internal/outbox/publisher.go.
pub mod Records
pub mod Steps
use fault_tolerant_payment_l.Base.{
  ℕ, ◌==◌, ==_iff, ◌≡◌, refl, sym, ◌∙◌, ap, subst, ◌⊎◌, inl, inr, arith, Text, Bool, true, false,
  not, ◌||◌, Option, none, some, is_some, List, [], ◌∷◌, All, exists, find, if◌then◌else◌,
  Bool-cases,
}
use fault_tolerant_payment_l.Apperr.{GoError}
use fault_tolerant_payment_l.Config.{Config}
use fault_tolerant_payment_l.Store.Schema.{Db, OutboxRow, pending, dead_letter, Message}
use fault_tolerant_payment_l.Store.World.{
  World, Exec, Result, ok, err, panic, Fault, pass, refuse, lost_reply, pure, call, answer,
  next_call, map_err, eval_failpoint, attempt, draw, attempt_result, ◌>>=◌, ◌>>◌,
}
use fault_tolerant_payment_l.Store.Inversion.{map_err-eq-ok, call-eq-ok, ok-eq-ok}
use fault_tolerant_payment_l.Store.Outcome.{>>=-keeps}
use fault_tolerant_payment_l.Store.Keeps.{
  Keeps, attempt-world, pure-Keeps, attempt-Keeps, then-Keeps, and-Keeps,
}
use fault_tolerant_payment_l.Outbox.Insert.{has_event_id}
use fault_tolerant_payment_l.Outbox.Queue.{
  is_published, claim, claim_row, mark_published, publish_row, mark_failed, fail_rows, fail_row,
  backlog,
}
use fault_tolerant_payment_l.Outbox.Publisher.{
  message_of, publish, publish_to_dlq, after_mark_failed, fail, marked_published, after_publish,
  published_or_failed, publish_or_fail, publish_one, publish_all, run_once,
}
use fault_tolerant_payment_l.Outbox.Delivery.Steps.{
  Good, claim-Only, stored-Keeps, eval_failpoint-Keeps, publish-Keeps, claim-Keeps,
  mark_failed-Keeps, backlog-Keeps, mark_published-Good, eval_failpoint-broker, publish-held,
}
use fault_tolerant_payment_l.Outbox.Delivery.Records.{
  event_record, event_records, Holds, Sent, DistinctEvents, Only,
}

module _ (describe : GoError → Text) (c : Config) (d : Db) where
  publish_to_dlq-Keeps :
      (r : OutboxRow) (e : GoError) → Keeps (Good d) (publish_to_dlq describe c r e)
  unfolding publish_to_dlq
  publish_to_dlq-Keeps r e =
      then-Keeps (Good d) _ _ (attempt-Keeps (Good d) _ (publish-Keeps d _))
        λ _. pure-Keeps (Good d) tt

  after_mark_failed-Keeps :
      (r : OutboxRow) (e : GoError) (x : GoError ⊎ (ℕ × Bool))
      → Keeps (Good d) (after_mark_failed describe c r e x)
  unfolding after_mark_failed
  after_mark_failed-Keeps r e (inl x) = pure-Keeps (Good d) tt
  after_mark_failed-Keeps r e (inr (n, true)) = publish_to_dlq-Keeps r e
  after_mark_failed-Keeps r e (inr (n, false)) = pure-Keeps (Good d) tt

  draw-Keeps : Keeps (Good d) (draw)
  unfolding draw
  draw-Keeps w g = record { tables = g.tables; events = g.events; sent = g.sent }

  fail-Keeps : (r : OutboxRow) (e : GoError) → Keeps (Good d) (fail describe c r e)
  unfolding fail
  fail-Keeps r e = then-Keeps (Good d) _ _ draw-Keeps λ k.
      then-Keeps (Good d) _ _ (attempt-Keeps (Good d) _ (mark_failed-Keeps d _ _ _ _))
        λ x. after_mark_failed-Keeps r e x

  marked_published-Keeps : (x : GoError ⊎ Unit {0}) → Keeps (Good d) (marked_published describe c x)
  unfolding marked_published
  marked_published-Keeps (inl e) = pure-Keeps (Good d) false
  marked_published-Keeps (inr _) = pure-Keeps (Good d) true

  after_publish-Good :
      (r : OutboxRow) (x : GoError ⊎ Unit {0}) (w : World)
      → Only (event_records d.outbox) (event_record r)
      → Holds (event_record r) w.broker
      → Good d w
      → Good d (after_publish describe c r x w).1
  unfolding after_publish
  after_publish-Good r (inl e) w only held g = pure-Keeps (Good d) false w g
  after_publish-Good r (inr _) w only held g =
      >>=-keeps (Good d) _ _ w
        (subst (Good d) (sym (attempt-world _ w)) (mark_published-Good d r w only held g))
        λ x v e p. marked_published-Keeps x v p

  published_or_failed-Good :
      (r : OutboxRow) (x : GoError ⊎ Unit {0}) (w : World)
      → Only (event_records d.outbox) (event_record r)
      → ((u : Unit {0}) → x ≡ inr u → Holds (event_record r) w.broker)
      → Good d w
      → Good d (published_or_failed describe c r x w).1
  unfolding published_or_failed
  published_or_failed-Good r (inl e) w only held g =
      and-Keeps (Good d) _ _ (fail-Keeps r e) (pure-Keeps (Good d) false) w g
  published_or_failed-Good r (inr u) w only held g =
      >>=-keeps (Good d) _ _ w (attempt-Keeps (Good d) _ (eval_failpoint-Keeps d _) w g) λ x v e p.
        after_publish-Good r x v only
          (subst (λ log. Holds (event_record r) log) (eval_failpoint-broker _ w e) (held u refl)) p

  publish_or_fail-Keeps :
      (r : OutboxRow) (x : GoError ⊎ Unit {0})
      → Only (event_records d.outbox) (event_record r)
      → Keeps (Good d) (publish_or_fail describe c r x)
  unfolding publish_or_fail message_of
  publish_or_fail-Keeps r (inl e) only w g =
      and-Keeps (Good d) _ _ (fail-Keeps r e) (pure-Keeps (Good d) false) w g
  publish_or_fail-Keeps r (inr _) only w g =
      >>=-keeps (Good d) _ _ w (attempt-Keeps (Good d) _ (publish-Keeps d _) w g) λ x v e p.
        published_or_failed-Good r x v only (λ u q. publish-held _ w u (e ∙ ap (λ y. (ok y, v)) q))
          p

  publish_one-Keeps :
      (r : OutboxRow)
      → Only (event_records d.outbox) (event_record r)
      → Keeps (Good d) (publish_one describe c r)
  unfolding publish_one
  publish_one-Keeps r only =
      then-Keeps (Good d) _ _ (attempt-Keeps (Good d) _ (eval_failpoint-Keeps d _))
        λ x. publish_or_fail-Keeps r x only

  publish_all-Keeps :
      (n : ℕ) (rs : List OutboxRow)
      → All (λ (r : OutboxRow). Only (event_records d.outbox) (event_record r)) rs
      → Keeps (Good d) (publish_all describe c n rs)
  unfolding publish_all
  publish_all-Keeps n [] only = pure-Keeps (Good d) n
  publish_all-Keeps n (r ∷ rs) only =
      and-Keeps (Good d) _ _ (stored-Keeps d _ (pure-Keeps (Good d) tt))
        (then-Keeps (Good d) _ _ (publish_one-Keeps r only.0) λ sent. publish_all-Keeps _ rs only.1)

  run_once-Keeps :
      (busy : ℕ → Bool) → DistinctEvents d.outbox → Keeps (Good d) (run_once describe c busy)
  unfolding run_once
  run_once-Keeps busy distinct =
      and-Keeps (Good d) _ _ (attempt-Keeps (Good d) _ (backlog-Keeps d)) λ w g.
        >>=-keeps (Good d) _ _ w (claim-Keeps d busy _ _ _ w g)
          λ batch v e p. publish_all-Keeps 0 batch (claim-Only d busy _ _ _ w distinct g e) v p

-- A cycle of the publisher writes no table but the outbox and changes no event there, whatever fails and whichever rows
-- it takes. If Kafka holds the event of every row that is marked as published, on the topic, under the key and with the
-- headers and the payload of the row, so it does after the cycle; the ids of the rows are distinct.
pub run_once_delivers :
    (describe : GoError → Text) (c : Config) (busy : ℕ → Bool) (w : World)
    → DistinctEvents w.db.outbox
    → Sent w.broker w.db.outbox
    → ((run_once describe c busy w).1.db
        ≡ record w.db { outbox = (run_once describe c busy w).1.db.outbox })
      × (event_records (run_once describe c busy w).1.db.outbox ≡ event_records w.db.outbox)
      × Sent (run_once describe c busy w).1.broker (run_once describe c busy w).1.db.outbox
run_once_delivers describe c busy w distinct s =
    let g =
      run_once-Keeps describe c w.db busy distinct w
        (record { tables = refl; events = refl; sent = s }) in
    (g.tables, g.events, g.sent)
