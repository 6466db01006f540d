-- ===== src/Ledger/Transfer/Once.antt =====
-- `Transfer` under a key that is in use.
use fault_tolerant_payment_l.Base.{
  ◌≡◌, ◌≢◌, inl, inr, refl, sym, ◌∙◌, ap, subst, Text, text_eq, text_eq_iff, true, some, find,
}
use fault_tolerant_payment_l.Config.{Config}
use fault_tolerant_payment_l.Store.Schema.{Db, IdemRecord, completed, transaction_json}
use fault_tolerant_payment_l.Store.World.{World, Exec, Result, ok}
use fault_tolerant_payment_l.Store.Inversion.{>>=-elim, >>-elim, pure-eq-ok}
use fault_tolerant_payment_l.Store.Outcome.{new_uuid-db, failpoint-db}
use fault_tolerant_payment_l.Store.Tx.Atomic.{Committed, in_tx-Atomic, Atomic}
use fault_tolerant_payment_l.Idempotency.{is_for, complete_row, fresh_claim}
use fault_tolerant_payment_l.Ledger.Keys.{Later, Later-Recorded}
use fault_tolerant_payment_l.Ledger.Model.{TransferCommand}
use fault_tolerant_payment_l.Ledger.Payment.{Response}
use fault_tolerant_payment_l.Ledger.Replay.{Ran, replayed, executed, Replayed, idempotent-Ran}
use fault_tolerant_payment_l.Ledger.Transfer.{transfer}
use fault_tolerant_payment_l.Ledger.Transfer.Atomicity.{transfer-db, transfer_atomic, lift_check-db}
use fault_tolerant_payment_l.Ledger.Transfer.Effects.{IsPaid}

-- A key that has a record is never executed again: the tables stay as they are, whatever fails.
pub transfer_used_key :
    (c : Config) (cmd : TransferCommand) (w : World) (i : IdemRecord)
    → find (is_for cmd.idempotency_scope cmd.idempotency_key) w.db.idempotency ≡ some i
    → (transfer c cmd w).1.db ≡ w.db
transfer_used_key c cmd w i there =
    transfer-db (λ d. d ≡ w.db) c cmd w refl λ tx_id r v w' t e absent b. cc

-- The completed record of a request.
pub record Settled (scope key hash : Text) (d : Db) : Type 0 where
  pub stored : IdemRecord
  pub there : find (is_for scope key) d.idempotency ≡ some stored
  pub finished : stored.state ≡ completed
  pub same_request : stored.request_hash ≡ hash
  pub status : stored.response_status ≡ some 201

IsPaid-Settled :
    (c : Config) (cmd : TransferCommand) (d d' : Db)
    → IsPaid c cmd d d'
    → Settled cmd.idempotency_scope cmd.idempotency_key cmd.request_hash d'
unfolding complete_row fresh_claim is_for
IsPaid-Settled c cmd d d' p =
    let a : text_eq cmd.idempotency_scope cmd.idempotency_scope ≡ true = (text_eq_iff _ _).1 refl in
    let b : text_eq cmd.idempotency_key cmd.idempotency_key ≡ true = (text_eq_iff _ _).1 refl in
    record {
      stored =
          complete_row 201 (transaction_json p.answer) (some p.id)
            (fresh_claim cmd.idempotency_scope cmd.idempotency_key cmd.request_hash);
      there =
          ap (λ is. find (is_for cmd.idempotency_scope cmd.idempotency_key) is) p.completed
          ∙ rw (a, b) refl;
      finished = refl;
      same_request = refl;
      status = refl;
    }

-- A transfer that wrote anything.
changed :
    (c : Config) (cmd : TransferCommand) (w : World)
    → (transfer c cmd w).1.db ≢ w.db
    → Settled cmd.idempotency_scope cmd.idempotency_key cmd.request_hash (transfer c cmd w).1.db
changed c cmd w wrote = elim (transfer_atomic c cmd w) [
  | inl same ↦ absurd (wrote same)
  | inr p ↦ IsPaid-Settled c cmd w.db (transfer c cmd w).1.db p
]

-- Once a transfer wrote anything, even if it answered with an error, no transfer under its scope and key writes again,
-- whatever it asks for and whatever fails: not after any creations of accounts, transfers and reversals, calls of
-- `Discard`, and work that leaves the idempotency records alone. The key then still has the completed record of the
-- first request, with its hash and the status 201.
pub transfer_once :
    (c : Config) (cmd : TransferCommand) (w : World) (c' : Config) (cmd' : TransferCommand)
    (u : World)
    → (transfer c cmd w).1.db ≢ w.db
    → Later (transfer c cmd w).1 u
    → cmd'.idempotency_scope ≡ cmd.idempotency_scope
    → cmd'.idempotency_key ≡ cmd.idempotency_key
    → ((transfer c' cmd' u).1.db ≡ u.db)
      × Settled cmd.idempotency_scope cmd.idempotency_key cmd.request_hash (transfer c' cmd' u).1.db
transfer_once c cmd w c' cmd' u wrote later scope key =
    let s = changed c cmd w wrote in
    let there : find (is_for cmd.idempotency_scope cmd.idempotency_key) u.db.idempotency
        ≡ some s.stored =
      Later-Recorded _ _ s.stored s.finished later s.there in
    let untouched = transfer_used_key c' cmd' u s.stored (
      ap (λ x. find (is_for x cmd'.idempotency_key) u.db.idempotency) scope
      ∙ ap (λ x. find (is_for cmd.idempotency_scope x) u.db.idempotency) key
      ∙ there) in
    (
      untouched,
      record {
        stored = s.stored;
        there =
            ap (λ (d : Db). find (is_for cmd.idempotency_scope cmd.idempotency_key) d.idempotency)
              untouched
            ∙ there;
        finished = s.finished;
        same_request = s.same_request;
        status = s.status;
      },
    )

in_tx-run :
    {A : Type 0} {a : A} (fn : Exec A) (d : Db) (r : Result A × World) {w' : World}
    → Atomic fn d r
    → r ≡ (ok a, w')
    → Committed fn a d w'.db
in_tx-run {A} {a} fn d r {w'} h e = subst (λ x. Atomic fn d x) e h

answer :
    {execute : Exec Response} {x : Response} {d : Db} (u v : World) (scope key hash : Text)
    (i : IdemRecord)
    → u.db ≡ d
    → find (is_for scope key) d.idempotency ≡ some i
    → Ran scope key hash execute x u v
    → Replayed i hash x
answer {execute} {x} u v scope key hash i e there (replayed j found p s) =
    let k : find (is_for scope key) u.db.idempotency ≡ some i =
      subst (λ (y : Db). find (is_for scope key) y.idempotency ≡ some i) (sym e) there in
    let same : j ≡ i = cc in subst (λ y. Replayed y hash x) same p
answer u v scope key hash i e there (executed _ absent f g h) =
    let k : find (is_for scope key) u.db.idempotency ≡ some i =
      subst (λ (y : Db). find (is_for scope key) y.idempotency ≡ some i) (sym e) there in
    cc

-- A transfer under a key that has a record answers only with the stored status and body, marked as a replay, and
-- only to the request that claimed the key, once that one has completed.
pub transfer_replays :
    (c : Config) (cmd : TransferCommand) (w : World) (i : IdemRecord) (r : Response) (w' : World)
    → find (is_for cmd.idempotency_scope cmd.idempotency_key) w.db.idempotency ≡ some i
    → transfer c cmd w ≡ (ok r, w')
    → Replayed i cmd.request_hash r
unfolding transfer
transfer_replays c cmd w i r w' there h = >>-elim _ _ _ h λ _ w1 h1 k1.
    >>-elim _ _ _ k1 λ _ w2 h2 k2. >>=-elim _ _ _ k2 λ tx_id w3 h3 k3.
      >>=-elim _ _ _ k3 λ result w4 h4 k4. >>-elim _ _ _ k4 λ _ w5 h5 k5.
        (let same : w3.db ≡ w.db =
            sym (ap (λ p. p.1.db) h3)
            ∙ new_uuid-db w2
            ∙ sym (ap (λ p. p.1.db) h2)
            ∙ failpoint-db _ w1
            ∙ sym (ap (λ p. p.1.db) h1)
            ∙ lift_check-db _ w in
          let m = in_tx-run _ w3.db _ (in_tx-Atomic _ c.db_max_tx_retries w3) h4 in
          subst (λ x. Replayed i cmd.request_hash x) (pure-eq-ok _ _ k5).0
            (answer m.start m.final _ _ _ i (m.from_before ∙ same) there
              (idempotent-Ran _ _ _ _ m.start m.ran)))
