-- ===== src/Ledger/Transfer/Atomicity.antt =====
-- `Transfer` of internal/ledger/service.go, however it ends.
use fault_tolerant_payment_l.Base.{
  ℕ, ◌≡◌, refl, sym, ◌∙◌, ap, subst, ◌⊎◌, inl, inr, true, Option, none, some, find, Bool-cases,
}
use fault_tolerant_payment_l.Config.{Config}
use fault_tolerant_payment_l.Store.Schema.{Db, all_balanced}
use fault_tolerant_payment_l.Store.World.{World, eval_failpoint, pure, raise, map_err}
use fault_tolerant_payment_l.Apperr.{GoError}
use fault_tolerant_payment_l.Store.Outcome.{
  >>=-db, >>-db, in_tx-db, failpoint-db, new_uuid-db, pure-db,
}
use fault_tolerant_payment_l.Idempotency.{is_for}
use fault_tolerant_payment_l.Ledger.Model.{TransferCommand}
use fault_tolerant_payment_l.Ledger.Consistent.{IsConsistent}
use fault_tolerant_payment_l.Ledger.Payment.{Response, lift_check, idempotent, lost_response}
use fault_tolerant_payment_l.Ledger.Replay.{Ran, replayed, executed, idempotent-Ran}
use fault_tolerant_payment_l.Ledger.Transfer.{execute_transfer, unless_replayed, transfer}
use fault_tolerant_payment_l.Store.Tx.{in_tx}
use fault_tolerant_payment_l.Ledger.Transfer.Effects.{
  IsPaid, claimed, Transferred-IsPaid, Transferred-IsConsistent,
}
use fault_tolerant_payment_l.Ledger.Transfer.Execution.{Transferred, execute_transfer-Transferred}

pub lift_check-db : (o : Option GoError) (w : World) → (lift_check o w).1.db ≡ w.db
unfolding lift_check pure raise
lift_check-db none w = refl
lift_check-db (some e) w = refl

pub unless_replayed-db : (r : Response) (w : World) → (unless_replayed r w).1.db ≡ w.db
unfolding unless_replayed lost_response map_err eval_failpoint pure
unless_replayed-db r w = elim (Bool-cases r.replayed) [ inl e ↦ rw e refl | inr e ↦ rw e refl ]

-- What holds of the tables, and after each execution under a new key whose triggers pass, holds after `Transfer`.
module _ {ℓ} (P : Db → Type ℓ) (c : Config) (cmd : TransferCommand) (w : World) (start : P w.db)
    (paid : (tx_id : ℕ) (r : Response) (v w' : World) (t : Transferred c tx_id cmd r v w')
      → v.db ≡ claimed cmd w.db
      → find (is_for cmd.idempotency_scope cmd.idempotency_key) w.db.idempotency ≡ none
      → all_balanced w'.deferred w'.db.entries ≡ true
      → P w'.db) where
  ran-db :
      (tx_id : ℕ) (r : Response) (v w' : World)
      → v.db ≡ w.db
      → Ran cmd.idempotency_scope cmd.idempotency_key cmd.request_hash
          (execute_transfer c tx_id cmd)
          r
          v
          w'
      → all_balanced w'.deferred w'.db.entries ≡ true
      → P w'.db
  ran-db tx_id r v w' e (replayed i there p s) b = subst P (sym (s.db ∙ e)) start
  ran-db tx_id r v w' e (executed u absent f g h) b =
      paid tx_id r u w' (execute_transfer-Transferred c tx_id cmd u h) (f ∙ ap (claimed cmd) e)
        (subst
          (λ (d : Db). find (is_for cmd.idempotency_scope cmd.idempotency_key) d.idempotency ≡ none)
          e absent)
        b

  in_tx_transfer-db :
      (tx_id : ℕ) (v : World)
      → v.db ≡ w.db
      → P
          (in_tx c.db_max_tx_retries
            (idempotent cmd.idempotency_scope cmd.idempotency_key cmd.request_hash
              (execute_transfer c tx_id cmd))
            v).1.db
  in_tx_transfer-db tx_id v e =
      in_tx-db P c.db_max_tx_retries _ v (subst P (sym e) start)
        λ r x w' same armed run b. ran-db tx_id r x w' (same ∙ e) (idempotent-Ran _ _ _ _ x run) b

  pub transfer-db : P (transfer c cmd w).1.db
  unfolding transfer
  transfer-db = >>-db P _ _ w (subst P (sym (lift_check-db _ w)) start) λ _ w1 h1 p1.
      >>-db P _ _ w1 (subst P (sym (failpoint-db _ w1)) p1) λ _ w2 h2 p2.
        >>=-db P _ _ w2 (subst P (sym (new_uuid-db w2)) p2) λ tx_id w3 h3 p3.
          (let same : w3.db ≡ w.db =
              sym (ap (λ p. p.1.db) h3)
              ∙ new_uuid-db w2
              ∙ sym (ap (λ p. p.1.db) h2)
              ∙ failpoint-db _ w1
              ∙ sym (ap (λ p. p.1.db) h1)
              ∙ lift_check-db _ w in
            >>=-db P _ _ w3 (in_tx_transfer-db tx_id w3 same) λ r w4 h4 p4.
              >>-db P _ _ w4 (subst P (sym (unless_replayed-db r w4)) p4)
                λ _ w5 h5 p5. subst P (sym (pure-db r w5)) p5)

-- For every schedule of failures, from any tables, a transfer leaves the tables as they were or makes the whole
-- payment: after an error, after a panic and after a lost answer of COMMIT too.
pub transfer_atomic :
    (c : Config) (cmd : TransferCommand) (w : World)
    → ((transfer c cmd w).1.db ≡ w.db) ⊎ IsPaid c cmd w.db (transfer c cmd w).1.db
transfer_atomic c cmd w =
    transfer-db (λ d. (d ≡ w.db) ⊎ IsPaid c cmd w.db d) c cmd w (inl refl)
      λ tx_id r v w' t e absent b. inr (Transferred-IsPaid w.db t e absent)

-- A transfer keeps the invariant of the ledger, however it ends.
pub transfer-IsConsistent :
    (c : Config) (cmd : TransferCommand) (w : World)
    → IsConsistent w.db
    → IsConsistent (transfer c cmd w).1.db
transfer-IsConsistent c cmd w k =
    transfer-db IsConsistent c cmd w k
      λ tx_id r v w' t e absent b. Transferred-IsConsistent w.db t e absent k b
