-- ===== src/Ledger/Transfer/Execution.antt =====
-- What `executeTransfer` has done when it succeeds.
use fault_tolerant_payment_l.Base.{ℕ, ◌≡◌, text_eq, false, not, ◌&&◌, ltb_ℤ}
use fault_tolerant_payment_l.Config.{Config}
use fault_tolerant_payment_l.Store.World.{World, ok}
use fault_tolerant_payment_l.Store.Inversion.{
  Same, Same-trans, >>=-elim, >>-elim, raise_if-eq-ok, gets-eq-ok, failpoint-Same, new_uuid-Same,
}
use fault_tolerant_payment_l.Ledger.Model.{TransferCommand, event_payment_created}
use fault_tolerant_payment_l.Ledger.Locks.{LockedAccount}
use fault_tolerant_payment_l.Ledger.Locking.{IsLocked, lock_balances-AllLocked, deref-IsLocked}
use fault_tolerant_payment_l.Ledger.Payment.{Response}
use fault_tolerant_payment_l.Ledger.Posting.{Posted, post-Posted}
use fault_tolerant_payment_l.Ledger.Settlement.{
  Announced, write_outbox_event-Announced, Answered, answer_with-Answered,
}
use fault_tolerant_payment_l.Ledger.Transfer.{
  transfer_entries, transfer_transaction, transfer_data, check_transfer, execute_transfer,
}

-- The checks on the two locked accounts passed.
pub record Checked (source dest : LockedAccount) (cmd : TransferCommand) : Type 0 where
  pub source_currency : not (text_eq source.currency cmd.currency) ≡ false
  pub dest_currency : not (text_eq dest.currency cmd.currency) ≡ false
  pub funded : (not source.allow_overdraft && ltb_ℤ source.balance cmd.amount) ≡ false

check_transfer-Checked :
    {u : Unit {0}} {w' : World} (source dest : LockedAccount) (cmd : TransferCommand) (w : World)
    → check_transfer source dest cmd w ≡ (ok u, w')
    → Checked source dest cmd × Same w w'
unfolding check_transfer
check_transfer-Checked {u} {w'} source dest cmd w h = >>-elim _ _ _ h λ _ w1 h1 k1.
    >>-elim _ _ _ k1 λ _ w2 h2 h3.
      (let (a, s) = raise_if-eq-ok _ _ _ h1 in
        let (b, t) = raise_if-eq-ok _ _ _ h2 in
        let (c, v) = raise_if-eq-ok _ _ _ h3 in
        (
          record { source_currency = a; dest_currency = b; funded = c },
          Same-trans s (Same-trans t v),
        ))

-- The accounts were locked and checked, the two entries were posted, the event was written and the
-- response was stored.
pub record Transferred (c : Config) (tx_id : ℕ) (cmd : TransferCommand) (r : Response)
    (w w' : World) : Type 0 where
  pub source : LockedAccount
  pub dest : LockedAccount
  pub at : ℕ
  pub debit_id : ℕ
  pub credit_id : ℕ
  pub ready : World
  pub written : World
  pub sent : World
  pub source_locked : IsLocked w.db cmd.source_account_id source
  pub dest_locked : IsLocked w.db cmd.destination_account_id dest
  pub checked : Checked source dest cmd
  pub untouched : Same w ready
  pub posted :
      Posted
        (transfer_transaction tx_id at source
          (transfer_entries tx_id debit_id credit_id source dest cmd)
          cmd)
        ready
        written
  pub announced :
      Announced c
        (transfer_transaction tx_id at source
          (transfer_entries tx_id debit_id credit_id source dest cmd)
          cmd)
        event_payment_created
        (transfer_data
          (transfer_transaction tx_id at source
            (transfer_entries tx_id debit_id credit_id source dest cmd)
            cmd)
          source
          dest
          cmd)
        written
        sent
  pub answered : Answered tx_id cmd.idempotency_scope cmd.idempotency_key r sent w'

pub execute_transfer-Transferred :
    {r : Response} {w' : World} (c : Config) (tx_id : ℕ) (cmd : TransferCommand) (w : World)
    → execute_transfer c tx_id cmd w ≡ (ok r, w')
    → Transferred c tx_id cmd r w w'
unfolding execute_transfer
execute_transfer-Transferred {r} {w'} c tx_id cmd w h = >>=-elim _ _ _ h λ accounts w1 h1 k1.
    >>-elim _ _ _ k1 λ _ w2 h2 k2. >>=-elim _ _ _ k2 λ source w3 h3 k3.
      >>=-elim _ _ _ k3 λ dest w4 h4 k4. >>-elim _ _ _ k4 λ _ w5 h5 k5.
        >>=-elim _ _ _ k5 λ at w6 h6 k6. >>=-elim _ _ _ k6 λ debit_id w7 h7 k7.
          >>=-elim _ _ _ k7 λ credit_id w8 h8 k8. >>-elim _ _ _ k8 λ _ w9 h9 k9.
            >>-elim _ _ _ k9 λ _ w10 h10 h11.
              (let (locked, s1) = lock_balances-AllLocked _ w h1 in
                let (a, s3) = deref-IsLocked w.db _ accounts w2 locked h3 in
                let (b, s4) = deref-IsLocked w.db _ accounts w3 locked h4 in
                let (checks, s5) = check_transfer-Checked source dest cmd w4 h5 in
                record {
                  source = source;
                  dest = dest;
                  at = at;
                  debit_id = debit_id;
                  credit_id = credit_id;
                  ready = w8;
                  written = w9;
                  sent = w10;
                  source_locked = a;
                  dest_locked = b;
                  checked = checks;
                  untouched = Same-trans s1 (
                      Same-trans (failpoint-Same _ w1 h2) (
                        Same-trans s3 (
                          Same-trans s4 (
                            Same-trans s5 (
                              Same-trans (gets-eq-ok _ _ h6).1
                                (Same-trans (new_uuid-Same w6 h7) (new_uuid-Same w7 h8)))))));
                  posted = post-Posted _ w8 h9;
                  announced = write_outbox_event-Announced c _ _ _ w9 h10;
                  answered = answer_with-Answered tx_id _ _ w10 h11;
                })
