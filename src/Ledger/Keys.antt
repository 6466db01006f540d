-- ===== src/Ledger/Keys.antt =====
-- The completed record of an idempotency key, under whatever internal/ledger and internal/idempotency do later.
use fault_tolerant_payment_l.Base.{ℕ, ◌≡◌, sym, ◌∙◌, subst, inl, inr, Text, some, find}
use fault_tolerant_payment_l.Config.{Config}
use fault_tolerant_payment_l.Store.Schema.{Db, IdemRecord, completed, transaction_json}
use fault_tolerant_payment_l.Store.World.{World}
use fault_tolerant_payment_l.Idempotency.{is_for, discard}
use fault_tolerant_payment_l.Idempotency.Laws.{complete_rows_fresh}
use fault_tolerant_payment_l.Idempotency.Kept.{find-complete_rows, discard-Keeps}
use fault_tolerant_payment_l.Ledger.Model.{CreateAccountCommand, TransferCommand, ReverseCommand}
use fault_tolerant_payment_l.Ledger.CreateAccount.{create_account}
use fault_tolerant_payment_l.Ledger.CreateAccount.Atomicity.{create_account_atomic}
use fault_tolerant_payment_l.Ledger.Transfer.{transfer}
use fault_tolerant_payment_l.Ledger.Transfer.Atomicity.{transfer_atomic}
use fault_tolerant_payment_l.Ledger.Reverse.{reverse_payment}
use fault_tolerant_payment_l.Ledger.Reverse.Effects.{final-db}
use fault_tolerant_payment_l.Ledger.Reverse.Atomicity.{reverse-db}

-- What a world leads to: requests in any order, however each ends, the removal of records by `Discard`, and anything
-- that leaves the idempotency records alone, as the workers do and time does.
pub data Later (w : World) : World → Type 0 where
  now : Later w w
  created :
      {u : World} (c : Config) (cmd : CreateAccountCommand)
      → Later w u
      → Later w (create_account c cmd u).1
  transferred :
      {u : World} (c : Config) (cmd : TransferCommand) → Later w u → Later w (transfer c cmd u).1
  reversed :
      {u : World} (c : Config) (show : ℕ → Text) (cmd : ReverseCommand)
      → Later w u
      → Later w (reverse_payment c show cmd u).1
  discarded : {u : World} (scope key : Text) → Later w u → Later w (discard scope key u).1
  beside : {u v : World} → v.db.idempotency ≡ u.db.idempotency → Later w u → Later w v

module _ (scope key : Text) (i : IdemRecord) where
  -- the record of the key
  abbrev pub Recorded : Db → Type 0
  Recorded d = find (is_for scope key) d.idempotency ≡ some i

  create_account-Recorded :
      (c : Config) (cmd : CreateAccountCommand) (w : World)
      → Recorded w.db
      → Recorded (create_account c cmd w).1.db
  create_account-Recorded c cmd w h = elim (create_account_atomic c cmd w) [
    | inl same ↦ subst Recorded (sym same) h
    | inr o ↦ subst Recorded (sym o.stored) (
        find-complete_rows scope key i cmd.idempotency_scope cmd.idempotency_key cmd.request_hash _
          _ _ w.db.idempotency o.unclaimed h)
  ]

  transfer-Recorded :
      (c : Config) (cmd : TransferCommand) (w : World)
      → Recorded w.db
      → Recorded (transfer c cmd w).1.db
  transfer-Recorded c cmd w h = elim (transfer_atomic c cmd w) [
    | inl same ↦ subst Recorded (sym same) h
    | inr p ↦
        subst (λ is. find (is_for scope key) is ≡ some i)
          (complete_rows_fresh cmd.idempotency_scope cmd.idempotency_key cmd.request_hash 201
              (transaction_json p.answer) (some p.id) w.db.idempotency p.unclaimed
            ∙ sym p.completed)
          (find-complete_rows scope key i cmd.idempotency_scope cmd.idempotency_key cmd.request_hash
            201 (transaction_json p.answer) (some p.id) w.db.idempotency p.unclaimed h)
  ]

  reverse_payment-Recorded :
      (c : Config) (show : ℕ → Text) (cmd : ReverseCommand) (w : World)
      → Recorded w.db
      → Recorded (reverse_payment c show cmd w).1.db
  reverse_payment-Recorded c show cmd w h =
      reverse-db Recorded c show cmd w h λ id r v w' u e absent b.
        subst Recorded (sym (final-db w.db _ u e)) (
          find-complete_rows scope key i cmd.idempotency_scope cmd.idempotency_key cmd.request_hash
            _ _ _ w.db.idempotency absent h)

  -- A completed record stays as it is.
  pub Later-Recorded :
      {w u : World} → i.state ≡ completed → Later w u → Recorded w.db → Recorded u.db
  Later-Recorded done now h = h
  Later-Recorded done (created {u} c cmd l) h =
      create_account-Recorded c cmd u (Later-Recorded done l h)
  Later-Recorded done (transferred {u} c cmd l) h =
      transfer-Recorded c cmd u (Later-Recorded done l h)
  Later-Recorded done (reversed {u} c show cmd l) h =
      reverse_payment-Recorded c show cmd u (Later-Recorded done l h)
  Later-Recorded done (discarded {u} s k l) h =
      discard-Keeps scope key i s k done u (Later-Recorded done l h)
  Later-Recorded done (beside {u} same l) h =
      subst (λ is. find (is_for scope key) is ≡ some i) (sym same) (Later-Recorded done l h)
