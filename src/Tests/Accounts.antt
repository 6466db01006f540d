-- ===== src/Tests/Accounts.antt =====
-- The theorems on new accounts, and on any order of use cases, applied to one of them.
use fault_tolerant_payment_l.Base.{◌≡◌, refl, ◌⊎◌, text, false, none, [], ◌∷◌}
use fault_tolerant_payment_l.Apperr.{plain}
use fault_tolerant_payment_l.Store.World.{World, pass, refuse, lost_reply}
use fault_tolerant_payment_l.Ledger.Model.{CreateAccountCommand}
use fault_tolerant_payment_l.Ledger.Consistent.{IsConsistent}
use fault_tolerant_payment_l.Ledger.CreateAccount.{create_account}
use fault_tolerant_payment_l.Ledger.CreateAccount.Atomicity.{
  IsOpened, create_account_atomic, create_account-IsConsistent,
}
use fault_tolerant_payment_l.Ledger.Transfer.{transfer}
use fault_tolerant_payment_l.Ledger.History.{
  initial, next, created, transferred, Reachable-IsConsistent, empty_db-IsConsistent,
}
use fault_tolerant_payment_l.Scenario.{config, fresh_world, funding_command}

abbrev create_command : CreateAccountCommand
create_command = record {
  id = text "bob";
  currency = text "USD";
  kind = text "user";
  allow_overdraft = false;
  metadata = none;
  idempotency_scope = text "a";
  idempotency_key = text "k1";
  request_hash = text "h1";
}

abbrev world : World
world = fresh_world (pass ∷ pass ∷ pass ∷ refuse (plain (text "timeout")) ∷ lost_reply ∷ [])

create_account_atomic_example :
    ((create_account config create_command world).1.db ≡ world.db)
    ⊎ IsOpened create_command world.db (create_account config create_command world).1.db
create_account_atomic_example = create_account_atomic config create_command world

create_account-IsConsistent_example : IsConsistent (create_account config create_command world).1.db
create_account-IsConsistent_example =
    create_account-IsConsistent config create_command world empty_db-IsConsistent

abbrev two_requests : World
two_requests = (transfer config funding_command (create_account config create_command world).1).1

Reachable-IsConsistent_example : IsConsistent two_requests.db
Reachable-IsConsistent_example = Reachable-IsConsistent two_requests (
    next (next (initial {w = world} refl) (created config create_command))
      (transferred config funding_command))
