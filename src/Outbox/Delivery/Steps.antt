-- ===== src/Outbox/Delivery/Steps.antt =====
-- The calls of internal/outbox/publisher.go and of internal/outbox/repo.go, one by one.
use fault_tolerant_payment_l.Base.{
  ℕ, ==_iff, ◌≡◌, refl, sym, ◌∙◌, ap, subst, ◌⊎◌, inl, inr, arith, Text, Bool, true, false, Option,
  none, some, is_some, List, ◌∷◌, All, find, All-update_where, map-update_where, All_weaken,
  All_both, All-map, if◌then◌else◌, Bool-cases,
}
use fault_tolerant_payment_l.Apperr.{GoError}
use fault_tolerant_payment_l.Store.Schema.{Db, OutboxRow, pending, dead_letter, Message}
use fault_tolerant_payment_l.Store.World.{World, Exec, ok, call, map_err, eval_failpoint, attempt}
use fault_tolerant_payment_l.Store.Inversion.{attempt-eq-inr, map_err-eq-ok, call-eq-ok, ok-eq-ok}
use fault_tolerant_payment_l.Store.Keeps.{
  Keeps, call-Keeps, call-kept, map_err-Keeps, attempt-world,
}
use fault_tolerant_payment_l.Outbox.Insert.{has_event_id}
use fault_tolerant_payment_l.Outbox.Queue.{
  is_published, claim, claim_row, mark_published, publish_row, mark_failed, fail_rows, fail_row,
  backlog,
}
use fault_tolerant_payment_l.Outbox.Publisher.{publish}
use fault_tolerant_payment_l.Outbox.Delivery.Records.{
  event_record, event_records, Holds, Sent, DistinctEvents, Only, DistinctEvents-Only, All-claimed,
}

with_outbox :
    (d x : Db) (rows : List OutboxRow)
    → x ≡ record d { outbox = x.outbox }
    → record x { outbox = rows } ≡ record d { outbox = rows }
with_outbox d x rows e = ap (λ (y : Db). record y { outbox = rows }) e

-- The tables are those of `d` but for the outbox, whose events are the same and whose published rows were sent.
pub record Good (d : Db) (w : World) : Type 0 where
  pub tables : w.db ≡ record d { outbox = w.db.outbox }
  pub events : event_records w.db.outbox ≡ event_records d.outbox
  pub sent : Sent w.broker w.db.outbox

Sent-cons :
    (m : Message) (log : List Message) (rows : List OutboxRow) → Sent log rows → Sent (m ∷ log) rows
Sent-cons m log rows h = All_weaken _ _ rows (λ r k p. inr (k p)) h

pub stored-Keeps : (d : Db) {A : Type 0} (f : Exec A) → Keeps (Good d) f → Keeps (Good d) (call f)
stored-Keeps d =
    call-Keeps (Good d) λ w cs g. record { tables = g.tables; events = g.events; sent = g.sent }

pub eval_failpoint-Keeps : (d : Db) (n : Text) → Keeps (Good d) (eval_failpoint n)
unfolding eval_failpoint
eval_failpoint-Keeps d n w g = record { tables = g.tables; events = g.events; sent = g.sent }

pub publish-Keeps : (d : Db) (m : Message) → Keeps (Good d) (publish m)
unfolding publish
publish-Keeps d m = map_err-Keeps (Good d) _ _ (
    stored-Keeps d _ λ w g. record {
      tables = g.tables;
      events = g.events;
      sent = Sent-cons m w.broker w.db.outbox g.sent;
    })

pub claim-Keeps :
    (d : Db) (busy : ℕ → Bool) (worker : Text) (limit ttl : ℕ)
    → Keeps (Good d) (claim busy worker limit ttl)
unfolding claim claim_row
claim-Keeps d busy worker limit ttl = map_err-Keeps (Good d) _ _ (
    stored-Keeps d _ λ w g. record {
      tables = with_outbox d w.db _ g.tables;
      events = map-update_where event_record _ _ w.db.outbox (λ r. refl) ∙ g.events;
      sent = All-update_where _ _ _ w.db.outbox (λ r h k p. cc) g.sent;
    })

not_published : (b : Bool) → is_published (if b then dead_letter else pending) ≡ true → ⊥
not_published true h = cc
not_published false h = cc

fail_rows-Keeps :
    (d : Db) (id : ℕ) (cause : Text) (delay limit : ℕ) (o : Option OutboxRow)
    → Keeps (Good d) (fail_rows id cause delay limit o)
unfolding fail_rows fail_row
fail_rows-Keeps d id cause delay limit none w g = g
fail_rows-Keeps d id cause delay limit (some r) w g = elim (Bool-cases (is_some r.published_at)) [
  | inl e ↦ rw e g
  | inr e ↦ rw e (record {
    tables = with_outbox d w.db _ g.tables;
    events = map-update_where event_record _ _ w.db.outbox (λ x. refl) ∙ g.events;
    sent = All-update_where _ _ _ w.db.outbox (λ x h k p. absurd (not_published _ p)) g.sent;
  })
]

pub mark_failed-Keeps :
    (d : Db) (id : ℕ) (cause : Text) (delay limit : ℕ)
    → Keeps (Good d) (mark_failed id cause delay limit)
unfolding mark_failed
mark_failed-Keeps d id cause delay limit = map_err-Keeps (Good d) _ _ (
    stored-Keeps d _
      λ w g. fail_rows-Keeps d id cause delay limit (find (has_event_id id) w.db.outbox) w g)

pub backlog-Keeps : (d : Db) → Keeps (Good d) backlog
unfolding backlog
backlog-Keeps d = map_err-Keeps (Good d) _ _ (stored-Keeps d _ λ w g. g)

-- what holds of a row that an id does or does not name, as its record is the only one of its event
SentBeside : List Message → OutboxRow → OutboxRow → Type 0
SentBeside log r x =
    (is_published x.status ≡ true → Holds (event_record x) log)
    × (x.id ≡ r.id → event_record x ≡ event_record r)

-- The mark of a row whose event Kafka holds.
pub mark_published-Good :
    (d : Db) (r : OutboxRow) (w : World)
    → Only (event_records d.outbox) (event_record r)
    → Holds (event_record r) w.broker
    → Good d w
    → Good d (mark_published r.id w).1
unfolding mark_published publish_row map_err SentBeside
mark_published-Good d r w only held g =
    let beside : All (SentBeside w.broker r) w.db.outbox = All_both _ _ w.db.outbox g.sent (
      All-map (λ (m : Message). m.event_id ≡ r.id → m ≡ event_record r) event_record w.db.outbox
        (subst (λ ms. Only ms (event_record r)) (sym g.events) only)) in
    call-kept (Good d) (λ v cs k. record { tables = k.tables; events = k.events; sent = k.sent }) _
      w g
      (record {
        tables = with_outbox d w.db _ g.tables;
        events = map-update_where event_record _ _ w.db.outbox (λ x. refl) ∙ g.events;
        sent =
            All_weaken _ _ _ (λ x k. k.0)
              (All-update_where (SentBeside w.broker r) _ _ w.db.outbox
                (λ x hit k.
                  let same : x.id ≡ r.id = (==_iff x.id r.id).0 (ground arith) in
                  (λ p. subst (λ m. Holds m w.broker) (sym (k.1 same)) held, k.1))
                beside);
      })

pub eval_failpoint-broker :
    {x : GoError ⊎ Unit {0}} {v : World} (n : Text) (w : World)
    → attempt (eval_failpoint n) w ≡ (ok x, v)
    → w.broker ≡ v.broker
unfolding eval_failpoint
eval_failpoint-broker n w e =
    sym (ap (λ (z : World). z.broker) (attempt-world (eval_failpoint n) w)) ∙ ap (λ p. p.1.broker) e

pub publish-held :
    {v : World} (m : Message) (w : World) (u : Unit {0})
    → attempt (publish m) w ≡ (ok (inr u), v)
    → Holds m v.broker
unfolding attempt publish
publish-held m w u h =
    let k = attempt-eq-inr (publish m) w h in
    let (_, q) = ok-eq-ok (call-eq-ok _ _ (map_err-eq-ok _ _ w k)) in
    subst (λ (z : World). Holds m z.broker) (sym q) (inl refl)

-- The rows of a claim each have a record that is the only one of its event.
pub claim-Only :
    {batch : List OutboxRow} {v : World} (d : Db) (busy : ℕ → Bool) (worker : Text) (limit ttl : ℕ)
    (w : World)
    → DistinctEvents d.outbox
    → Good d w
    → claim busy worker limit ttl w ≡ (ok batch, v)
    → All (λ (r : OutboxRow). Only (event_records d.outbox) (event_record r)) batch
unfolding claim
claim-Only {batch} d busy worker limit ttl w distinct g e =
    let (rows, _) = ok-eq-ok (call-eq-ok _ _ (map_err-eq-ok _ _ w e)) in
    subst (λ rs. All (λ (r : OutboxRow). Only (event_records d.outbox) (event_record r)) rs) rows
      (All-claimed (Only (event_records d.outbox)) busy worker w.db_now ttl limit w.db.outbox (
        subst (λ ms. All (Only (event_records d.outbox)) ms) (sym g.events)
          (DistinctEvents-Only d.outbox distinct)))
