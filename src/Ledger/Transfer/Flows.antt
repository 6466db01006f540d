-- ===== src/Ledger/Transfer/Flows.antt =====
-- Whom the entries of `Transfer` of internal/ledger/service.go debit and credit.
use fault_tolerant_payment_l.Base.{ℕ, ℤ, ◌≡◌, refl, Text, List, [], ◌∷◌, map}
use fault_tolerant_payment_l.Int64.{neg64}
use fault_tolerant_payment_l.Store.Schema.{Entry}
use fault_tolerant_payment_l.Ledger.Model.{TransferCommand}
use fault_tolerant_payment_l.Ledger.Locks.{LockedAccount}
use fault_tolerant_payment_l.Ledger.Transfer.{transfer_entries}

-- the account and the amount of each entry
abbrev pub flows : List Entry → List (Text × ℤ)
flows es = map (λ (e : Entry). (e.account_id, e.amount)) es

pub flows-transfer_entries :
    (id debit_id credit_id : ℕ) (source dest : LockedAccount) (cmd : TransferCommand)
    → source.id ≡ cmd.source_account_id
    → dest.id ≡ cmd.destination_account_id
    → flows (transfer_entries id debit_id credit_id source dest cmd)
      ≡ (cmd.source_account_id, neg64 cmd.amount) ∷ (cmd.destination_account_id, cmd.amount) ∷ []
unfolding transfer_entries
flows-transfer_entries id debit_id credit_id source dest cmd a b = rw (a, b) refl
