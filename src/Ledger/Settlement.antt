-- ===== src/Ledger/Settlement.antt =====
-- The end of a payment: its event in the outbox, and its response in the idempotency record.
use fault_tolerant_payment_l.Base.{
  ℕ, ◌≡◌, refl, sym, ◌∙◌, ap, subst, Text, false, Option, some, ◌∷◌, exists, Bool-cases, inl, inr,
}
use fault_tolerant_payment_l.Config.{Config, topic_for_event}
use fault_tolerant_payment_l.Store.Schema.{
  Db, Transaction, PaymentData, OutboxRow, pending, transaction_json, Body,
}
use fault_tolerant_payment_l.Store.World.{World, Result, ok}
use fault_tolerant_payment_l.Store.Inversion.{
  Same, Same-trans, >>=-elim, >>-elim, map_err-eq-ok, call-eq-ok, ok-eq-ok, pure-eq-ok, gets-eq-ok,
  failpoint-Same, new_uuid-Same,
}
use fault_tolerant_payment_l.Idempotency.{complete, complete_rows}
use fault_tolerant_payment_l.Outbox.Insert.{NewEvent, new_row, insert, insert_row, has_event_id}
use fault_tolerant_payment_l.Ledger.Loading.{load_transaction-Loaded}
use fault_tolerant_payment_l.Ledger.Payment.{Response, write_outbox_event, answer_with}

-- One event about the transaction `t` was written, pending, with the envelope that carries its id.
pub record Announced (c : Config) (t : Transaction) (event_type : Text) (payment : PaymentData)
    (w w' : World) : Type 0 where
  pub event : OutboxRow
  pub stored : w'.db ≡ record w.db { outbox = event ∷ w.db.outbox }
  pub deferred : w'.deferred ≡ w.deferred
  pub fresh : exists (has_event_id event.id) w.db.outbox ≡ false
  pub about : event.aggregate_id ≡ t.id
  pub pending_status : event.status ≡ pending
  pub typed : event.event_type ≡ event_type
  pub routed : event.topic ≡ topic_for_event c event_type
  pub carried : event.payload.payment ≡ payment
  pub identified : event.payload.event_id ≡ event.id

-- An insertion into the outbox that succeeds.
record Outboxed (e : NewEvent) (w w' : World) : Type 0 where
  at : ℕ
  stored : w'.db ≡ record w.db { outbox = new_row at e ∷ w.db.outbox }
  deferred : w'.deferred ≡ w.deferred
  fresh : exists (has_event_id e.id) w.db.outbox ≡ false

insert-Outboxed :
    {u : Unit {0}} {w' : World} (e : NewEvent) (w : World)
    → insert e w ≡ (ok u, w')
    → Outboxed e w w'
unfolding insert insert_row
insert-Outboxed e w h =
    let k = call-eq-ok _ _ (map_err-eq-ok _ _ _ h) in
    elim (Bool-cases (exists (has_event_id e.id) w.db.outbox)) [
      | inl taken ↦ (let k' = rw (taken, insert_row) at k in cc)
      | inr free ↦
          (let k' = rw (free, insert_row) at k in
            record {
              at = w.db_now;
              stored = sym (ap (λ (p : Result (Unit {0}) × World). p.1.db) k');
              deferred = sym (ap (λ (p : Result (Unit {0}) × World). p.1.deferred) k');
              fresh = free;
            })
    ]

announced :
    (c : Config) (t : Transaction) (event_type : Text) (payment : PaymentData) (e : NewEvent)
    (w v w' : World)
    → Same w v
    → Outboxed e v w'
    → e.aggregate_id ≡ t.id
    → e.event_type ≡ event_type
    → e.topic ≡ topic_for_event c event_type
    → e.payload.payment ≡ payment
    → e.payload.event_id ≡ e.id
    → Announced c t event_type payment w w'
unfolding new_row
announced c t event_type payment e w v w' s o p1 p2 p3 p4 p5 = record {
  event = new_row o.at e;
  stored = o.stored ∙ ap (λ (d : Db). record d { outbox = new_row o.at e ∷ d.outbox }) s.db;
  deferred = o.deferred ∙ s.deferred;
  fresh = subst (λ (d : Db). exists (has_event_id e.id) d.outbox ≡ false) s.db o.fresh;
  about = p1;
  pending_status = refl;
  typed = p2;
  routed = p3;
  carried = p4;
  identified = p5;
}

pub write_outbox_event-Announced :
    {u : Unit {0}} {w' : World} (c : Config) (t : Transaction) (event_type : Text)
    (payment : PaymentData) (w : World)
    → write_outbox_event c t event_type payment w ≡ (ok u, w')
    → Announced c t event_type payment w w'
unfolding write_outbox_event
write_outbox_event-Announced {u} {w'} c t event_type payment w h =
    >>=-elim _ _ _ h λ event_id w1 h1 k1. >>=-elim _ _ _ k1 λ correlation_id w2 h2 h3.
      announced c t event_type payment _ w w2 w'
        (Same-trans (new_uuid-Same w h1) (gets-eq-ok _ _ h2).1) (insert-Outboxed _ w2 h3) refl refl
        refl refl refl

-- the response of a payment that was executed
abbrev pub first_response : Transaction → Response
first_response t = record {
  transaction = some t;
  response_status = 201;
  response_body = some (transaction_json t);
  replayed = false;
}

-- The response was stored in the claimed record, and is the one that is returned.
pub record Answered (tx_id : ℕ) (scope key : Text) (r : Response) (w w' : World) : Type 0 where
  pub loaded : Transaction
  pub stored : w'.db ≡ record w.db {
    idempotency =
        complete_rows scope key 201 (transaction_json loaded) (some tx_id) w.db.idempotency;
  }
  pub deferred : w'.deferred ≡ w.deferred
  pub returned : r ≡ first_response loaded

-- The update of the record, with nothing else written.
pub record Completed (scope key : Text) (status : ℕ) (body : Body) (tx : Option ℕ) (w w' : World)
    : Type 0 where
  pub stored :
      w'.db ≡ record w.db { idempotency = complete_rows scope key status body tx w.db.idempotency }
  pub deferred : w'.deferred ≡ w.deferred

pub complete-stored :
    {u : Unit {0}} {w' : World} (scope key : Text) (status : ℕ) (body : Body) (tx : Option ℕ)
    (w : World)
    → complete scope key status body tx w ≡ (ok u, w')
    → Completed scope key status body tx w w'
unfolding complete
complete-stored scope key status body tx w h =
    let (_, q) = ok-eq-ok (call-eq-ok _ _ (map_err-eq-ok _ _ _ h)) in
    record { stored = ap (λ (v : World). v.db) q; deferred = ap (λ (v : World). v.deferred) q }

answered :
    (tx_id : ℕ) (scope key : Text) (r : Response) (stored : Transaction) (w w2 w3 w4 w' : World)
    → Same w w2
    → Completed scope key 201 (transaction_json stored) (some tx_id) w2 w3
    → Same w3 w4
    → (first_response stored ≡ r) × Same w4 w'
    → Answered tx_id scope key r w w'
answered tx_id scope key r stored w w2 w3 w4 w' a b c d = record {
  loaded = stored;
  stored =
      d.1.db
      ∙ c.db
      ∙ b.stored
      ∙ ap
          (λ (x : Db). record x {
            idempotency =
                complete_rows scope key 201 (transaction_json stored) (some tx_id) x.idempotency;
          })
          a.db;
  deferred = d.1.deferred ∙ c.deferred ∙ b.deferred ∙ a.deferred;
  returned = sym d.0;
}

pub answer_with-Answered :
    {r : Response} {w' : World} (tx_id : ℕ) (scope key : Text) (w : World)
    → answer_with tx_id scope key w ≡ (ok r, w')
    → Answered tx_id scope key r w w'
unfolding answer_with
answer_with-Answered {r} {w'} tx_id scope key w h = >>-elim _ _ _ h λ _ w1 h1 k1.
    >>=-elim _ _ _ k1 λ stored w2 h2 k2. >>-elim _ _ _ k2 λ _ w3 h3 k3.
      >>-elim _ _ _ k3 λ _ w4 h4 h5.
        answered tx_id scope key r stored w w2 w3 w4 w'
          (Same-trans (failpoint-Same _ w h1) (load_transaction-Loaded _ w1 h2).same)
          (complete-stored scope key 201 (transaction_json stored) (some tx_id) w2 h3)
          (failpoint-Same _ w3 h4) (pure-eq-ok _ _ h5)
