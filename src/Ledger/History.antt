-- ===== src/Ledger/History.antt =====
-- The use cases of internal/ledger one after the other, from empty tables.
use fault_tolerant_payment_l.Base.{ℕ, ◌≡◌, sym, subst, Text, List}
use fault_tolerant_payment_l.Config.{Config}
use fault_tolerant_payment_l.Store.Schema.{
  Db, empty_db, ReversalRow, IdemRecord, OutboxRow, Delivery,
}
use fault_tolerant_payment_l.Store.World.{World}
use fault_tolerant_payment_l.Ledger.Model.{CreateAccountCommand, TransferCommand, ReverseCommand}
use fault_tolerant_payment_l.Ledger.Consistent.{IsConsistent}
use fault_tolerant_payment_l.Ledger.CreateAccount.{create_account}
use fault_tolerant_payment_l.Ledger.CreateAccount.Atomicity.{create_account-IsConsistent}
use fault_tolerant_payment_l.Ledger.Transfer.{transfer}
use fault_tolerant_payment_l.Ledger.Transfer.Atomicity.{transfer-IsConsistent}
use fault_tolerant_payment_l.Ledger.Reverse.{reverse_payment}
use fault_tolerant_payment_l.Ledger.Reverse.Atomicity.{reverse_payment-IsConsistent}

-- One step: a request, however it ends, or anything that leaves the ledger's tables alone, as the other workers do
-- and time does.
pub data Step (w : World) : World → Type 0 where
  created : (c : Config) (cmd : CreateAccountCommand) → Step w (create_account c cmd w).1
  transferred : (c : Config) (cmd : TransferCommand) → Step w (transfer c cmd w).1
  reversed :
      (c : Config) (show : ℕ → Text) (cmd : ReverseCommand)
      → Step w (reverse_payment c show cmd w).1
  beside :
      {v : World}
      → v.db ≡ record w.db {
        reversals = v.db.reversals;
        idempotency = v.db.idempotency;
        outbox = v.db.outbox;
        webhooks = v.db.webhooks;
      }
      → Step w v

-- The worlds that steps lead to from a world with empty tables.
pub data Reachable : World → Type 0 where
  initial : {w : World} → w.db ≡ empty_db → Reachable w
  next : {w v : World} → Reachable w → Step w v → Reachable v

IsConsistent-beside :
    (d : Db) (rs : List ReversalRow) (is : List IdemRecord) (os : List OutboxRow)
    (ds : List Delivery)
    → IsConsistent d
    → IsConsistent (record d { reversals = rs; idempotency = is; outbox = os; webhooks = ds })
IsConsistent-beside d rs is os ds c = record {
  keyed = c.keyed;
  headers = c.headers;
  nonnegative = c.nonnegative;
  reconciled = c.reconciled;
  balanced = c.balanced;
  owned = c.owned;
}

Step-IsConsistent : {w v : World} → Step w v → IsConsistent w.db → IsConsistent v.db
Step-IsConsistent {w} (created c cmd) h = create_account-IsConsistent c cmd w h
Step-IsConsistent {w} (transferred c cmd) h = transfer-IsConsistent c cmd w h
Step-IsConsistent {w} (reversed c show cmd) h = reverse_payment-IsConsistent c show cmd w h
Step-IsConsistent {w} {v} (beside same) h =
    subst IsConsistent (sym same) (IsConsistent-beside w.db _ _ _ _ h)

pub empty_db-IsConsistent : IsConsistent empty_db
empty_db-IsConsistent = record {
  keyed = tt;
  headers = tt;
  nonnegative = tt;
  reconciled = tt;
  balanced = tt;
  owned = tt;
}

-- From empty tables, creations of accounts, transfers and reversals in any order, each of which may fail anywhere, lead
-- only to tables that satisfy the invariant of the ledger.
pub Reachable-IsConsistent : (w : World) → Reachable w → IsConsistent w.db
Reachable-IsConsistent w (initial empty) = subst IsConsistent (sym empty) empty_db-IsConsistent
Reachable-IsConsistent w (next {w = u} r s) = Step-IsConsistent s (Reachable-IsConsistent u r)
