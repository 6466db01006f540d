-- ===== src/Webhook/Deliveries/Steps.antt =====
-- The calls of internal/webhook/worker.go and of internal/webhook/store.go, one by one.
use fault_tolerant_payment_l.Base.{
  ℕ, suc, ==_iff, ◌≡◌, refl, sym, ◌∙◌, ap, subst, inl, inr, arith, Text, true, leb, Option, none,
  some, List, ◌∷◌, map, All, All-update_where, map-update_where, All_weaken, All_both, All-map,
  Bool-cases,
}
use fault_tolerant_payment_l.Config.{Config}
use fault_tolerant_payment_l.Store.Schema.{Db, Delivery, Posted, Value}
use fault_tolerant_payment_l.Store.World.{World, Exec, draw, eval_failpoint, call, map_err}
use fault_tolerant_payment_l.Store.Keeps.{Keeps, map_err-Keeps, call-Keeps, call-kept}
use fault_tolerant_payment_l.Webhook.Store.{
  has_delivery_id, claim_due, mark_delivered, deliver_row, mark_failed, fail_rows, fail_row,
}
use fault_tolerant_payment_l.Webhook.Worker.{do_request, request}
use fault_tolerant_payment_l.Webhook.Sound.{
  DeliveryKey, key_of, was_answered, Answered, Bounded, Known,
}

-- The tables are those of `d` but for the deliveries, whose keys are `ks`.
pub record Kept (limit : ℕ) (d : Db) (ks : List DeliveryKey) (w : World) : Type 0 where
  pub tables : w.db ≡ record d { webhooks = w.db.webhooks }
  pub keys : map key_of w.db.webhooks ≡ ks
  pub answered : All (Answered w.posted) w.db.webhooks
  pub bounded : All (Bounded limit) w.db.webhooks

pub with_rows :
    (d x : Db) (rows : List Delivery)
    → x ≡ record d { webhooks = x.webhooks }
    → record x { webhooks = rows } ≡ record d { webhooks = rows }
with_rows d x rows e = ap (λ (y : Db). record y { webhooks = rows }) e

Answered-cons :
    (p : Posted) (log : List Posted) (rows : List Delivery)
    → All (Answered log) rows
    → All (Answered (p ∷ log)) rows
Answered-cons p log rows h = All_weaken _ _ rows (λ x k. ground (arith, k)) h

fail_row-Bounded :
    (now : ℕ) (cause : Text) (status delay limit : ℕ) (x : Delivery)
    → Bounded limit (fail_row now cause status delay limit x)
unfolding fail_row
fail_row-Bounded now cause status delay limit x = elim (Bool-cases (leb limit (suc x.attempts))) [
  | inl e ↦ rw e refl
  | inr e ↦ rw e (ground arith)
]

fail_row-Answered :
    (log : List Posted) (now : ℕ) (cause : Text) (status delay limit : ℕ) (x : Delivery)
    → Answered log (fail_row now cause status delay limit x)
unfolding fail_row
fail_row-Answered log now cause status delay limit x =
    elim (Bool-cases (leb limit (suc x.attempts))) [ inl e ↦ rw e refl | inr e ↦ rw e refl ]

key_of-fail_row :
    (now : ℕ) (cause : Text) (status delay limit : ℕ) (x : Delivery)
    → key_of (fail_row now cause status delay limit x) ≡ key_of x
unfolding fail_row
key_of-fail_row now cause status delay limit x = refl

key_of-deliver_row : (now status : ℕ) (x : Delivery) → key_of (deliver_row now status x) ≡ key_of x
unfolding deliver_row
key_of-deliver_row now status x = refl

deliver_row-Answered :
    (log : List Posted) (now status : ℕ) (x a : Delivery)
    → was_answered x.event_id x.endpoint log ≡ true
    → key_of a ≡ key_of x
    → Answered log (deliver_row now status a)
unfolding deliver_row
deliver_row-Answered log now status x a held same =
    subst (λ (k : DeliveryKey). was_answered k.event_id k.endpoint log ≡ true) (sym same) held

deliver_row-Bounded :
    (now status limit : ℕ) (x : Delivery) → Bounded limit (deliver_row now status x)
unfolding deliver_row
deliver_row-Bounded now status limit x = refl

module _ (limit : ℕ) (d : Db) (ks : List DeliveryKey) where
  pub called-Keeps :
      {A : Type 0} (f : Exec A) → Keeps (Kept limit d ks) f → Keeps (Kept limit d ks) (call f)
  called-Keeps = call-Keeps (Kept limit d ks) λ w cs k. record {
    tables = k.tables;
    keys = k.keys;
    answered = k.answered;
    bounded = k.bounded;
  }

  -- the same tables and answers
  same-Kept :
      (w v : World) → v.db ≡ w.db → v.posted ≡ w.posted → Kept limit d ks w → Kept limit d ks v
  same-Kept w v e p k = record {
    tables = rw e k.tables;
    keys = rw e k.keys;
    answered = rw (e, p) k.answered;
    bounded = rw e k.bounded;
  }

  pub draw-Keeps : Keeps (Kept limit d ks) draw
  unfolding draw
  draw-Keeps w k = same-Kept w _ refl refl k

  pub failpoint-Keeps : (n : Text) → Keeps (Kept limit d ks) (eval_failpoint n)
  unfolding eval_failpoint
  failpoint-Keeps n w k = same-Kept w _ refl refl k

  fail_rows-Keeps :
      (id : ℕ) (cause : Text) (status delay : ℕ) (o : Option Delivery)
      → Keeps (Kept limit d ks) (fail_rows id cause status delay limit o)
  unfolding fail_rows
  fail_rows-Keeps id cause status delay none w k = k
  fail_rows-Keeps id cause status delay (some x) w k = record {
    tables = with_rows d w.db _ k.tables;
    keys =
        map-update_where key_of (has_delivery_id id) (fail_row w.db_now cause status delay limit)
          w.db.webhooks (λ a. key_of-fail_row w.db_now cause status delay limit a)
        ∙ k.keys;
    answered =
        All-update_where (Answered w.posted) _ _ w.db.webhooks
          (λ a e h. fail_row-Answered w.posted w.db_now cause status delay limit a) k.answered;
    bounded =
        All-update_where (Bounded limit) _ _ w.db.webhooks
          (λ a e h. fail_row-Bounded w.db_now cause status delay limit a) k.bounded;
  }

  pub mark_failed-Keeps :
      (id : ℕ) (cause : Text) (status delay : ℕ)
      → Keeps (Kept limit d ks) (mark_failed id cause status delay limit)
  unfolding mark_failed
  mark_failed-Keeps id cause status delay =
      map_err-Keeps (Kept limit d ks) _ _
        (called-Keeps _ λ w k. fail_rows-Keeps id cause status delay _ w k)

  pub claim_due-Keeps : (n : ℕ) → Keeps (Kept limit d ks) (claim_due n)
  unfolding claim_due
  claim_due-Keeps n = map_err-Keeps (Kept limit d ks) _ _ (called-Keeps _ λ w k. k)

  pub do_request-Keeps :
      (mac : Text → Value → Text) (c : Config) (x : Delivery)
      → Keeps (Kept limit d ks) (do_request mac c x)
  unfolding do_request
  do_request-Keeps mac c x = called-Keeps _ λ w k. record {
    tables = k.tables;
    keys = k.keys;
    answered =
        Answered-cons (request mac c x (w.statuses w.drawn)) w.posted w.db.webhooks k.answered;
    bounded = k.bounded;
  }

  -- The mark of a row that its endpoint answered.
  pub mark_delivered-Kept :
      (x : Delivery) (status : ℕ) (w : World)
      → All (Known x) ks
      → was_answered x.event_id x.endpoint w.posted ≡ true
      → Kept limit d ks w
      → Kept limit d ks (mark_delivered x.id status w).1
  unfolding mark_delivered map_err
  mark_delivered-Kept x status w known held k =
      (call-kept (Kept limit d ks) (λ v cs q. same-Kept v _ refl refl q) _ w k
        (record {
          tables = with_rows d w.db _ k.tables;
          keys =
              map-update_where key_of _ (deliver_row w.db_now status) w.db.webhooks
                (λ a. key_of-deliver_row w.db_now status a)
              ∙ k.keys;
          answered =
              All_weaken _ _ _ (λ a h. h.0)
                (All-update_where (λ a. Answered w.posted a × Known x (key_of a)) _
                  (deliver_row w.db_now status) w.db.webhooks
                  (λ a hit h.
                    let same : key_of a ≡ key_of x = h.1 ((==_iff a.id x.id).0 (ground arith)) in
                    (
                      deliver_row-Answered w.posted w.db_now status x a held same,
                      λ e. key_of-deliver_row w.db_now status a ∙ same,
                    ))
                  (All_both _ _ w.db.webhooks k.answered (
                    All-map (Known x) key_of w.db.webhooks
                      (subst (All (Known x)) (sym k.keys) known))));
          bounded =
              All-update_where (Bounded limit) _ (deliver_row w.db_now status) w.db.webhooks
                (λ a e h. deliver_row-Bounded w.db_now status limit a) k.bounded;
        }))
