-- ===== src/Ledger/Replay.antt =====
-- The claim of a key: what a replay returns, and when a use case executes.
use fault_tolerant_payment_l.Base.{
  ℕ, ◌≡◌, sym, ◌∙◌, ap, subst, Text, text_eq, true, false, not, Option, none, some, ◌∷◌, find,
}
use fault_tolerant_payment_l.Store.Schema.{Db, IdemRecord, Transaction}
use fault_tolerant_payment_l.Store.World.{World, Exec, ok}
use fault_tolerant_payment_l.Store.Inversion.{
  Same, Same-trans, >>=-elim, >>-elim, pure-eq-ok, raise_if-eq-ok,
}
use fault_tolerant_payment_l.Idempotency.{is_for, fresh_claim}
use fault_tolerant_payment_l.Idempotency.Laws.{Claimed, taken, fresh, claim-Claimed, lock_key-Same}
use fault_tolerant_payment_l.Ledger.Loading.{load_transaction-Loaded}
use fault_tolerant_payment_l.Ledger.Payment.{
  Response, after_claim, replay_result, idempotent, load_if_some, is_completed, status_or_zero,
}

-- A stored answer was returned: the request is the one that claimed the key, and it had completed.
pub record Replayed (i : IdemRecord) (hash : Text) (r : Response) : Type 0 where
  pub same_request : not (text_eq i.request_hash hash) ≡ false
  pub finished : not (is_completed i.state) ≡ false
  pub status : r.response_status ≡ status_or_zero i.response_status
  pub body : r.response_body ≡ i.response_body
  pub marked : r.replayed ≡ true

load_if_some-Same :
    {t : Option Transaction} {w' : World} (o : Option ℕ) (w : World)
    → load_if_some o w ≡ (ok t, w')
    → Same w w'
unfolding load_if_some
load_if_some-Same none w h = (pure-eq-ok _ _ h).1
load_if_some-Same (some id) w h =
    >>=-elim _ _ _ h
      λ t w1 h1 k1. Same-trans (load_transaction-Loaded _ w h1).same (pure-eq-ok _ _ k1).1

pub replay_result-Replayed :
    {r : Response} {w' : World} (i : IdemRecord) (hash key : Text) (w : World)
    → replay_result i hash key w ≡ (ok r, w')
    → Replayed i hash r × Same w w'
unfolding replay_result
replay_result-Replayed i hash key w h = >>-elim _ _ _ h λ _ w1 h1 k1. >>-elim _ _ _ k1 λ _ w2 h2 k2.
    >>=-elim _ _ _ k2 λ t w3 h3 h4.
      (let (a, s1) = raise_if-eq-ok _ _ _ h1 in
        let (b, s2) = raise_if-eq-ok _ _ _ h2 in
        let (e, s4) = pure-eq-ok _ _ h4 in
        (
          record {
            same_request = a;
            finished = b;
            status = ap (λ (x : Response). x.response_status) (sym e);
            body = ap (λ (x : Response). x.response_body) (sym e);
            marked = ap (λ (x : Response). x.replayed) (sym e);
          },
          Same-trans s1 (Same-trans s2 (Same-trans (load_if_some-Same _ w2 h3) s4)),
        ))

-- What a use case did under its key: it returned the stored answer and wrote nothing, or it claimed the
-- key and executed.
pub data Ran (scope key hash : Text) (execute : Exec Response) (r : Response) (w w' : World)
    : Type 0 where
  replayed :
      (i : IdemRecord)
      → find (is_for scope key) w.db.idempotency ≡ some i
      → Replayed i hash r
      → Same w w'
      → Ran scope key hash execute r w w'
  executed :
      (v : World)
      → find (is_for scope key) w.db.idempotency ≡ none
      → v.db ≡ record w.db { idempotency = fresh_claim scope key hash ∷ w.db.idempotency }
      → v.deferred ≡ w.deferred
      → execute v ≡ (ok r, w')
      → Ran scope key hash execute r w w'

ran :
    {r : Response} {w u v w' : World} (scope key hash : Text) (execute : Exec Response)
    (o : Option IdemRecord)
    → Same w u
    → Claimed scope key hash u v o
    → after_claim hash key execute o v ≡ (ok r, w')
    → Ran scope key hash execute r w w'
unfolding after_claim
ran {r} {w} {u} {v} {w'} scope key hash execute _ s (taken i there t) h =
    let (p, q) = replay_result-Replayed i hash key v h in
    replayed i (subst (λ (d : Db). find (is_for scope key) d.idempotency ≡ some i) s.db there) p
      (Same-trans s (Same-trans t q))
ran {r} {w} {u} {v} {w'} scope key hash execute _ s (fresh absent e f) h =
    executed v (subst (λ (d : Db). find (is_for scope key) d.idempotency ≡ none) s.db absent)
      (e
        ∙ ap (λ (d : Db). record d { idempotency = fresh_claim scope key hash ∷ d.idempotency })
            s.db)
      (f ∙ s.deferred) h

pub idempotent-Ran :
    {r : Response} {w' : World} (scope key hash : Text) (execute : Exec Response) (w : World)
    → idempotent scope key hash execute w ≡ (ok r, w')
    → Ran scope key hash execute r w w'
unfolding idempotent
idempotent-Ran {r} {w'} scope key hash execute w h = >>-elim _ _ _ h λ _ w1 h1 k1.
    >>=-elim _ _ _ k1 λ o w2 h2 h3.
      ran scope key hash execute o (lock_key-Same scope key w h1)
        (claim-Claimed scope key hash w1 h2) h3
