-- ===== src/Ledger/Reverse/Atomicity.antt =====
-- `Reverse` of internal/ledger/service.go, however it ends.
use fault_tolerant_payment_l.Base.{
  ℕ, ◌≡◌, refl, sym, ◌∙◌, ap, subst, ◌⊎◌, inl, inr, Text, true, none, find, ◌∷◌,
}
use fault_tolerant_payment_l.Config.{Config}
use fault_tolerant_payment_l.Store.Schema.{Db, all_balanced}
use fault_tolerant_payment_l.Store.World.{World}
use fault_tolerant_payment_l.Store.Outcome.{
  >>=-db, >>-db, in_tx-db, failpoint-db, eval_failpoint-db, map_err-db, new_uuid-db, pure-db,
  raise_if-db,
}
use fault_tolerant_payment_l.Store.Tx.{in_tx}
use fault_tolerant_payment_l.Ledger.Consistent.{IsConsistent}
use fault_tolerant_payment_l.Ledger.Model.{ReverseCommand}
use fault_tolerant_payment_l.Ledger.Payment.{Response, idempotent, lost_response}
use fault_tolerant_payment_l.Ledger.Replay.{Ran, replayed, executed, idempotent-Ran}
use fault_tolerant_payment_l.Ledger.Reverse.{execute_reverse, reverse_payment}
use fault_tolerant_payment_l.Ledger.Reverse.Execution.{Undone, execute_reverse-Undone}
use fault_tolerant_payment_l.Ledger.Reverse.Effects.{
  IsReversed, Undone-IsReversed, Undone-IsConsistent,
}
use fault_tolerant_payment_l.Idempotency.{is_for, fresh_claim}

lost_response-db : (w : World) → (lost_response w).1.db ≡ w.db
unfolding lost_response
lost_response-db w = map_err-db _ _ w ∙ eval_failpoint-db _ w

-- the tables with the key of a reversal claimed
abbrev pub reclaimed : ReverseCommand → Db → Db
reclaimed cmd d = record d {
  idempotency =
      fresh_claim cmd.idempotency_scope cmd.idempotency_key cmd.request_hash ∷ d.idempotency;
}

-- What holds of the tables, and after each execution under a new key whose triggers pass, holds after `Reverse`.
module _ {ℓ} (P : Db → Type ℓ) (c : Config) (show : ℕ → Text) (cmd : ReverseCommand) (w : World)
    (start : P w.db)
    (undone : (id : ℕ) (r : Response) (v w' : World) (u : Undone c show id cmd r v w')
      → v.db ≡ reclaimed cmd w.db
      → find (is_for cmd.idempotency_scope cmd.idempotency_key) w.db.idempotency ≡ none
      → all_balanced w'.deferred w'.db.entries ≡ true
      → P w'.db) where
  ran-db :
      (id : ℕ) (r : Response) (v w' : World)
      → v.db ≡ w.db
      → Ran cmd.idempotency_scope cmd.idempotency_key cmd.request_hash
          (execute_reverse c show id cmd)
          r
          v
          w'
      → all_balanced w'.deferred w'.db.entries ≡ true
      → P w'.db
  ran-db id r v w' e (replayed i there p s) b = subst P (sym (s.db ∙ e)) start
  ran-db id r v w' e (executed u absent f g h) b =
      undone id r u w' (execute_reverse-Undone c show id cmd u h) (f ∙ ap (reclaimed cmd) e)
        (subst
          (λ (d : Db). find (is_for cmd.idempotency_scope cmd.idempotency_key) d.idempotency ≡ none)
          e absent)
        b

  in_tx_reverse-db :
      (id : ℕ) (v : World)
      → v.db ≡ w.db
      → P
          (in_tx c.db_max_tx_retries
            (idempotent cmd.idempotency_scope cmd.idempotency_key cmd.request_hash
              (execute_reverse c show id cmd))
            v).1.db
  in_tx_reverse-db id v e =
      in_tx-db P c.db_max_tx_retries _ v (subst P (sym e) start)
        λ r x w' same armed run b. ran-db id r x w' (same ∙ e) (idempotent-Ran _ _ _ _ x run) b

  pub reverse-db : P (reverse_payment c show cmd w).1.db
  unfolding reverse_payment
  reverse-db = >>-db P _ _ w (subst P (sym (raise_if-db _ _ w)) start) λ _ w1 h1 p1.
      >>-db P _ _ w1 (subst P (sym (failpoint-db _ w1)) p1) λ _ w2 h2 p2.
        >>=-db P _ _ w2 (subst P (sym (new_uuid-db w2)) p2) λ id w3 h3 p3.
          (let same : w3.db ≡ w.db =
              sym (ap (λ p. p.1.db) h3)
              ∙ new_uuid-db w2
              ∙ sym (ap (λ p. p.1.db) h2)
              ∙ failpoint-db _ w1
              ∙ sym (ap (λ p. p.1.db) h1)
              ∙ raise_if-db _ _ w in
            >>=-db P _ _ w3 (in_tx_reverse-db id w3 same) λ r w4 h4 p4.
              >>-db P _ _ w4 (subst P (sym (lost_response-db w4)) p4)
                λ _ w5 h5 p5. subst P (sym (pure-db r w5)) p5)

-- For every schedule of failures, from any tables, a reversal leaves the tables as they were, or reverses in full one
-- payment that is no reversal and that none reversed before.
pub reverse_atomic :
    (c : Config) (show : ℕ → Text) (cmd : ReverseCommand) (w : World)
    → ((reverse_payment c show cmd w).1.db ≡ w.db)
      ⊎ IsReversed w.db (reverse_payment c show cmd w).1.db
reverse_atomic c show cmd w =
    reverse-db (λ d. (d ≡ w.db) ⊎ IsReversed w.db d) c show cmd w (inl refl)
      λ id r v w' u e absent b. inr (Undone-IsReversed w.db _ u e)

-- A reversal keeps the invariant of the ledger, however it ends.
pub reverse_payment-IsConsistent :
    (c : Config) (show : ℕ → Text) (cmd : ReverseCommand) (w : World)
    → IsConsistent w.db
    → IsConsistent (reverse_payment c show cmd w).1.db
reverse_payment-IsConsistent c show cmd w k =
    reverse-db IsConsistent c show cmd w k
      λ id r v w' u e absent b. Undone-IsConsistent w.db _ u e k b
