-- ===== src/Webhook/Deliveries.antt =====
-- A cycle of the worker of internal/webhook/worker.go, however its calls end.
pub mod Steps
use fault_tolerant_payment_l.Base.{
  ℕ, suc, ◌==◌, ==_iff, ◌≡◌, refl, sym, ◌∙◌, ap, subst, ◌⊎◌, inl, inr, arith, Text, Bool, true,
  false, not, ◌||◌, ◌&&◌, ltb, leb, ◌≤◌, Option, none, some, List, [], ◌∷◌, map, All, exists, find,
  take, text_eq, text_eq_iff, select, update_where, All-update_where, map-update_where, exists-map,
  none_exists, All_weaken, All_both, All-map, All-select, All-take, if◌then◌else◌, Bool-cases,
}
use fault_tolerant_payment_l.Apperr.{GoError}
use fault_tolerant_payment_l.Config.{Config}
use fault_tolerant_payment_l.Store.Schema.{Db, Delivery, DeliveryStatus, Posted, Value}
use fault_tolerant_payment_l.Store.World.{
  World, Exec, ok, Fault, attempt, draw, eval_failpoint, pure, call, map_err, rest_calls, ◌>>=◌,
  ◌>>◌,
}
use fault_tolerant_payment_l.Store.Inversion.{
  attempt-eq-inr, call-eq-ok, ok-eq-ok, >>=-elim, map_err-eq-ok,
}
use fault_tolerant_payment_l.Store.Outcome.{>>=-keeps}
use fault_tolerant_payment_l.Store.Keeps.{
  Keeps, attempt-world, pure-Keeps, map_err-Keeps, attempt-Keeps, call-Keeps, call-kept, then-Keeps,
  and-Keeps,
}
use fault_tolerant_payment_l.Webhook.Store.{
  has_delivery_id, is_waiting, is_delivered, claim_due, due, mark_delivered, deliver_row,
  mark_failed, fail_rows, fail_row, with_webhooks,
}
use fault_tolerant_payment_l.Webhook.Worker.{
  is_success, do_request, request, after_do, post, record_failure, recorded, after_post,
  post_or_fail, deliver, deliver_all, deliver_once,
}
use fault_tolerant_payment_l.Webhook.Sound.{
  DeliveryKey, key_of, Distinct, was_answered, Answered, Bounded, IsSound, Known, Distinct-Known,
  All-due,
}
use fault_tolerant_payment_l.Webhook.Deliveries.Steps.{
  Kept, called-Keeps, draw-Keeps, failpoint-Keeps, mark_failed-Keeps, claim_due-Keeps,
  do_request-Keeps, mark_delivered-Kept,
}

was_answered-request :
    (mac : Text → Value → Text) (c : Config) (x : Delivery) (status : ℕ) (log : List Posted)
    → is_success status ≡ true
    → was_answered x.event_id x.endpoint (request mac c x status ∷ log) ≡ true
unfolding request
was_answered-request mac c x status log good =
    let e : (x.event_id == x.event_id) ≡ true = (==_iff x.event_id x.event_id).1 refl in
    let u : text_eq x.endpoint x.endpoint ≡ true = (text_eq_iff x.endpoint x.endpoint).1 refl in
    rw (e, u, good) refl

do_request-answered :
    (mac : Text → Value → Text) (c : Config) (x : Delivery) {status : ℕ} {v : World} (w : World)
    → do_request mac c x w ≡ (ok status, v)
    → is_success status ≡ true
    → was_answered x.event_id x.endpoint v.posted ≡ true
unfolding do_request
do_request-answered mac c x {status} w h good =
    let (same, after) = ok-eq-ok (call-eq-ok _ w h) in
    subst (λ (z : World). was_answered x.event_id x.endpoint z.posted ≡ true) (sym after)
      (subst (λ n. was_answered x.event_id x.endpoint (request mac c x n ∷ w.posted) ≡ true)
        (sym same) (was_answered-request mac c x status w.posted good))

after_do-eq-inr :
    (x : GoError ⊎ ℕ) {status : ℕ}
    → after_do x ≡ inr status
    → (x ≡ inr status) × (is_success status ≡ true)
unfolding after_do
after_do-eq-inr (inl e) h = cc
after_do-eq-inr (inr n) {status} h = elim (Bool-cases (is_success n)) [
  | inl good ↦
      (let k = rw good at h in
        let same : n ≡ status = (cc) in
        (ap (λ m. inr m) same, subst (λ m. is_success m ≡ true) same good))
  | inr bad ↦ (let k = rw bad at h in cc)
]

module _ (describe : GoError → Text) (is_url : Text → Bool) (mac : Text → Value → Text)
    (c : Config) where
  post-answered :
      (x : Delivery) {status : ℕ} (w v : World)
      → post describe is_url mac c x w ≡ (ok (inr status), v)
      → was_answered x.event_id x.endpoint v.posted ≡ true
  unfolding post pure
  post-answered x {status} w v h = elim (Bool-cases (is_url x.endpoint)) [
    | inl good ↦
        (let k = rw good at h in
          >>=-elim (attempt (do_request mac c x)) _ w k λ y v' sent answer.
            (let (e, after) = ok-eq-ok answer in
              let (asked, good) = after_do-eq-inr y e in
              let done =
                attempt-eq-inr (do_request mac c x) w (sent ∙ ap (λ z. (ok z, v')) asked) in
              subst (λ (z : World). was_answered x.event_id x.endpoint z.posted ≡ true) (sym after)
                (do_request-answered mac c x w done good)))
    | inr bad ↦ (let k = rw bad at h in cc)
  ]

  module _ (d : Db) (ks : List DeliveryKey) where
    abbrev Held : World → Type 0
    Held = Kept c.webhook_max_attempts d ks

    post-Keeps : (x : Delivery) → Keeps Held (post describe is_url mac c x)
    unfolding post
    post-Keeps x w k = elim (Bool-cases (is_url x.endpoint)) [
      | inl good ↦ rw good (
          then-Keeps Held _ (λ y. pure (after_do y))
            (attempt-Keeps Held _ (do_request-Keeps _ d ks mac c x))
            (λ y. pure-Keeps Held (after_do y)) w k)
      | inr bad ↦ rw bad (pure-Keeps Held (inl _) w k)
    ]

    record_failure-Keeps :
        (x : Delivery) (e : GoError) (status : ℕ)
        → Keeps Held (record_failure describe is_url mac c x e status)
    unfolding record_failure
    record_failure-Keeps x e status = then-Keeps Held _ _ (draw-Keeps _ d ks) λ n.
        and-Keeps Held _ _ (attempt-Keeps Held _ (mark_failed-Keeps _ d ks _ _ _ _))
          (pure-Keeps Held tt)

    recorded-Keeps : (y : GoError ⊎ Unit {0}) → Keeps Held (recorded y)
    unfolding recorded
    recorded-Keeps (inl e) = pure-Keeps Held false
    recorded-Keeps (inr _) = pure-Keeps Held true

    after_post-Held :
        (x : Delivery) (y : (ℕ × GoError) ⊎ ℕ) (w : World)
        → All (Known x) ks
        → ((status : ℕ) → y ≡ inr status → was_answered x.event_id x.endpoint w.posted ≡ true)
        → Held w
        → Held (after_post describe is_url mac c x y w).1
    unfolding after_post
    after_post-Held x (inl (status, e)) w known held k =
        and-Keeps Held _ _ (record_failure-Keeps x e status) (pure-Keeps Held false) w k
    after_post-Held x (inr status) w known held k =
        >>=-keeps Held _ _ w
          (subst Held (sym (attempt-world _ w))
            (mark_delivered-Kept _ d ks x status w known (held status refl) k))
          λ y v e q. recorded-Keeps y v q

    post_or_fail-Held :
        (x : Delivery) (y : GoError ⊎ Unit {0})
        → All (Known x) ks
        → Keeps Held (post_or_fail describe is_url mac c x y)
    unfolding post_or_fail
    post_or_fail-Held x (inl e) known w k =
        and-Keeps Held _ _ (record_failure-Keeps x e 0) (pure-Keeps Held false) w k
    post_or_fail-Held x (inr _) known w k = >>=-keeps Held _ _ w (post-Keeps x w k) λ y v e q.
        after_post-Held x y v known (λ status h. post-answered x w v (e ∙ ap (λ z. (ok z, v)) h)) q

    deliver-Keeps : (x : Delivery) → All (Known x) ks → Keeps Held (deliver describe is_url mac c x)
    unfolding deliver
    deliver-Keeps x known =
        then-Keeps Held _ _ (attempt-Keeps Held _ (failpoint-Keeps _ d ks _))
          λ y. post_or_fail-Held x y known

    deliver_all-Keeps :
        (n : ℕ) (xs : List Delivery)
        → All (λ (x : Delivery). All (Known x) ks) xs
        → Keeps Held (deliver_all describe is_url mac c n xs)
    unfolding deliver_all
    deliver_all-Keeps n [] h = pure-Keeps Held n
    deliver_all-Keeps n (x ∷ xs) h =
        and-Keeps Held _ _ (called-Keeps _ d ks _ (pure-Keeps Held tt))
          (then-Keeps Held _ _ (deliver-Keeps x h.0) λ sent. deliver_all-Keeps _ xs h.1)

  claim_due-Known :
      (w v : World) (xs : List Delivery)
      → Distinct (map key_of w.db.webhooks)
      → claim_due c.webhook_batch_size w ≡ (ok xs, v)
      → All (λ (x : Delivery). All (Known x) (map key_of w.db.webhooks)) xs
  unfolding claim_due
  claim_due-Known w v xs h e =
      let (same, after) = ok-eq-ok (call-eq-ok _ w (map_err-eq-ok _ _ w e)) in
      subst (λ ys. All (λ (x : Delivery). All (Known x) (map key_of w.db.webhooks)) ys) same
        (All-due _ w.db_now c.webhook_batch_size w.db.webhooks (Distinct-Known w.db.webhooks h))

  -- A cycle of the worker writes no table but the deliveries, whatever fails: no two rows share an id or an event and
  -- an endpoint, a delivered row was answered with a status 2xx, and a waiting row was tried less often than the limit,
  -- if this held before.
  pub deliver_once-IsSound :
      (w : World)
      → IsSound c.webhook_max_attempts w.posted w.db.webhooks
      → ((deliver_once describe is_url mac c w).1.db
          ≡ record w.db { webhooks = (deliver_once describe is_url mac c w).1.db.webhooks })
        × IsSound c.webhook_max_attempts
            (deliver_once describe is_url mac c w).1.posted
            (deliver_once describe is_url mac c w).1.db.webhooks
  unfolding deliver_once
  deliver_once-IsSound w s =
      let ks = map key_of w.db.webhooks in
      let start : Held w.db ks w = record {
        tables = refl;
        keys = refl;
        answered = s.answered;
        bounded = s.bounded;
      } in
      let end =
        >>=-keeps (Held w.db ks) (claim_due c.webhook_batch_size) _ w
          (claim_due-Keeps _ w.db ks _ w start)
          λ xs v e q. deliver_all-Keeps w.db ks 0 xs (claim_due-Known w v xs s.distinct e) v q in
      (
        end.tables,
        record {
          distinct = subst Distinct (sym end.keys) s.distinct;
          answered = end.answered;
          bounded = end.bounded;
        },
      )
