-- ===== src/Webhook/Progress.antt =====
-- A cycle of the worker of internal/webhook/worker.go while nothing fails.
use fault_tolerant_payment_l.Base.{
  ℕ, suc, ◌+◌, ◌≡◌, refl, ◌∙◌, ap, inl, inr, arith, Text, Bool, true, false, not, ◌&&◌, List, [],
  ◌∷◌, All, length, update_where, All-update_where, Bool-cases,
}
use fault_tolerant_payment_l.Apperr.{GoError}
use fault_tolerant_payment_l.Config.{Config}
use fault_tolerant_payment_l.Failpoint.{eval}
use fault_tolerant_payment_l.Store.Schema.{Delivery, Value}
use fault_tolerant_payment_l.Store.World.{
  World, ok, attempt, eval_failpoint, pure, call, map_err, injected_result, ◌>>=◌, answer,
  attempt_result, map_err_result, continue, next_call, rest_calls,
}
use fault_tolerant_payment_l.Store.Inversion.{>>=-run, >>-run, call-run, map_err-run}
use fault_tolerant_payment_l.Webhook.Store.{
  has_delivery_id, is_delivered, claim_due, due, mark_delivered, deliver_row,
}
use fault_tolerant_payment_l.Webhook.Worker.{
  is_success, do_request, request, after_do, post, recorded, after_post, post_or_fail, deliver,
  deliver_all, deliver_once,
}
use fault_tolerant_payment_l.Webhook.Sound.{All-due}

-- Calls work, failpoints are off, and endpoints answer with a status 2xx.
pub record Calm (w : World) : Type 0 where
  pub calls_work : w.calls ≡ []
  pub failpoints_off : w.failpoints.enabled ≡ false
  pub endpoints_answer : (n : ℕ) → is_success (w.statuses n) ≡ true

-- Every row with an id is delivered.
abbrev pub Done : ℕ → List Delivery → Type 0
Done id rows = All (λ (d : Delivery). d.id ≡ id → is_delivered d.status ≡ true) rows

deliver_row-delivered :
    (now status : ℕ) (d : Delivery) → is_delivered (deliver_row now status d).status ≡ true
unfolding deliver_row
deliver_row-delivered now status d = refl

update_where-Done :
    (id : ℕ) (f : Delivery → Delivery) (rows : List Delivery)
    → ((d : Delivery) → is_delivered (f d).status ≡ true)
    → Done id (update_where (λ d. has_delivery_id id d && not (is_delivered d.status)) f rows)
unfolding update_where
update_where-Done id f [] h = tt
update_where-Done id f (d ∷ ds) h =
    let rest = update_where-Done id f ds h in
    elim (Bool-cases (has_delivery_id id d && not (is_delivered d.status))) [
      | inl hit ↦ rw hit (λ e. h d, rest)
      | inr miss ↦ rw miss (λ e. ground (arith, e), rest)
    ]

module _ (describe : GoError → Text) (is_url : Text → Bool) (mac : Text → Value → Text)
    (c : Config) where
  after_delivery : World → Delivery → World
  after_delivery w x = record w {
    drawn = suc w.drawn;
    posted = request mac c x (w.statuses w.drawn) ∷ w.posted;
    db = record w.db {
      webhooks =
          update_where (λ d. has_delivery_id x.id d && not (is_delivered d.status))
            (deliver_row w.db_now (w.statuses w.drawn)) w.db.webhooks;
    };
  }

  deliver_run :
      (w : World) (x : Delivery)
      → Calm w
      → is_url x.endpoint ≡ true
      → deliver describe is_url mac c x w ≡ (ok true, after_delivery w x)
  unfolding deliver after_delivery attempt attempt_result eval_failpoint eval injected_result
      post_or_fail post do_request call answer next_call rest_calls after_do pure after_post
      mark_delivered map_err map_err_result recorded ◌>>=◌ continue
  deliver_run w x calm valid =
      rw (calm.calls_work, calm.failpoints_off, valid, calm.endpoints_answer w.drawn) refl

  after_delivery-Calm : (w : World) (x : Delivery) → Calm w → Calm (after_delivery w x)
  unfolding after_delivery
  after_delivery-Calm w x calm = record {
    calls_work = calm.calls_work;
    failpoints_off = calm.failpoints_off;
    endpoints_answer = calm.endpoints_answer;
  }

  after_all : World → List Delivery → World
  unfolding after_delivery
  after_all w [] = w
  after_all w (x ∷ xs) = after_all (after_delivery w x) xs

  deliver_all_run :
      (n : ℕ) (xs : List Delivery) (w : World)
      → Calm w
      → All (λ (x : Delivery). is_url x.endpoint ≡ true) xs
      → deliver_all describe is_url mac c n xs w ≡ (ok (n + length xs), after_all w xs)
  unfolding deliver_all after_all pure
  deliver_all_run n [] w calm valid = ap (λ k. (ok k, w)) (omega arith)
  deliver_all_run n (x ∷ xs) w calm valid =
      >>-run (call (pure tt)) _ w (call-run (pure tt) w calm.calls_work)
      ∙ >>=-run (deliver describe is_url mac c x) _ w (deliver_run w x calm valid.0)
      ∙ deliver_all_run (suc n) xs (after_delivery w x) (after_delivery-Calm w x calm) valid.1
      ∙ ap (λ k. (ok k, after_all (after_delivery w x) xs)) (omega arith)

  -- What is delivered stays delivered, and a delivery is.
  after_delivery-Done :
      (w : World) (x : Delivery) (id : ℕ)
      → Done id w.db.webhooks
      → Done id (after_delivery w x).db.webhooks
  unfolding after_delivery deliver_row
  after_delivery-Done w x id h =
      All-update_where (λ d. d.id ≡ id → is_delivered d.status ≡ true) _
        (deliver_row w.db_now (w.statuses w.drawn)) w.db.webhooks (λ d hit k e. refl) h

  delivered-Done : (w : World) (x : Delivery) → Done x.id (after_delivery w x).db.webhooks
  unfolding after_delivery
  delivered-Done w x =
      update_where-Done x.id (deliver_row w.db_now (w.statuses w.drawn)) w.db.webhooks
        (λ d. deliver_row-delivered w.db_now (w.statuses w.drawn) d)

  after_all-Done :
      (w : World) (xs : List Delivery) (id : ℕ)
      → Done id w.db.webhooks
      → Done id (after_all w xs).db.webhooks
  unfolding after_all
  after_all-Done w [] id h = h
  after_all-Done w (x ∷ xs) id h =
      after_all-Done (after_delivery w x) xs id (after_delivery-Done w x id h)

  all-Done :
      (w : World) (xs : List Delivery)
      → All (λ (x : Delivery). Done x.id (after_all w xs).db.webhooks) xs
  unfolding after_all
  all-Done w [] = tt
  all-Done w (x ∷ xs) = (
    after_all-Done (after_delivery w x) xs x.id (delivered-Done w x),
    all-Done (after_delivery w x) xs,
  )

  -- If calls work, failpoints are off, endpoints answer with a status 2xx and every row has a valid URL, then a cycle
  -- of the worker reports as many deliveries as it claimed, and every row that it claimed is delivered.
  pub deliver_once_delivers :
      (w : World)
      → Calm w
      → All (λ (d : Delivery). is_url d.endpoint ≡ true) w.db.webhooks
      → (v : World) × (deliver_once describe is_url mac c w
          ≡ (ok (length (due w.db_now c.webhook_batch_size w.db.webhooks)), v))
        × All
            (λ (x : Delivery). Done x.id v.db.webhooks)
            (due w.db_now c.webhook_batch_size w.db.webhooks)
  unfolding deliver_once claim_due
  deliver_once_delivers w calm valid =
      let batch = due w.db_now c.webhook_batch_size w.db.webhooks in
      let claimed : claim_due c.webhook_batch_size w ≡ (ok batch, w) = map_err-run _ _ w (
        call-run (λ z. (ok (due z.db_now c.webhook_batch_size z.db.webhooks), z)) w
          calm.calls_work) in
      (
        after_all w batch,
        >>=-run (claim_due c.webhook_batch_size) _ w claimed
            ∙ deliver_all_run 0 batch w calm (
                All-due (λ d. is_url d.endpoint ≡ true) w.db_now c.webhook_batch_size w.db.webhooks
                  valid)
            ∙ ap (λ k. (ok k, after_all w batch)) (omega arith),
        all-Done w batch,
      )
