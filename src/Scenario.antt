-- ===== src/Scenario.antt =====
-- A small ledger on which the theorems are applied: a system account that may run negative, two users,
-- and the requests that move money between them.
use fault_tolerant_payment_l.Base.{
  ℕ, ◌+◌, pos, Text, text, Bool, if◌then◌else◌, true, false, Option, none, some, List, [], ◌∷◌,
}
use fault_tolerant_payment_l.Config.{Config}
use fault_tolerant_payment_l.Store.Schema.{Db, empty_db, Account, BalanceRow}
use fault_tolerant_payment_l.Store.World.{World, Fault}
use fault_tolerant_payment_l.Ledger.Model.{TransferCommand}

abbrev pub config : Config
config = record {
  db_max_tx_retries = 5;
  topic_payments_created = text "payments.created";
  topic_payments_reversed = text "payments.reversed";
  topic_payments_failed = text "payments.failed";
  topic_payments_dlq = text "payments.dlq";
  outbox_worker_id = text "worker-1";
  outbox_batch_size = 100;
  outbox_max_attempts = 8;
  outbox_base_backoff = 250_000_000;
  outbox_max_backoff = 60_000_000_000;
  outbox_claim_ttl = 30_000_000_000;
  webhook_endpoints = text "http://localhost:9090/webhook" ∷ [];
  webhook_max_attempts = 5;
  webhook_batch_size = 50;
  webhook_base_backoff = 500_000_000;
  webhook_max_backoff = 300_000_000_000;
  webhook_signing_secret = [];
}

-- the UUID 1000 is written "1000"
abbrev parse : Text → Option ℕ
parse [] = none
parse (c ∷ cs) = some 1000

-- the world before the first request, with the outcomes of its calls
abbrev pub fresh_world : List Fault → World
fresh_world calls = record {
  db = empty_db;
  calls = calls;
  failpoints = record { enabled = false; actions = [] };
  overrides = [];
  uuid = λ n. 1000 + n;
  random = λ n. n;
  drawn = 0;
  parse_uuid = parse;
  db_now = 7;
  go_now = 7;
  deferred = [];
  locks = [];
  correlation_id = text "c-1";
  broker = [];
  statuses = λ n. 204;
  posted = [];
  commits = [];
}

abbrev pub funding_command : TransferCommand
funding_command = record {
  source_account_id = text "system";
  destination_account_id = text "alice";
  amount = pos 1000;
  currency = text "USD";
  description = [];
  external_reference = [];
  idempotency_scope = text "t";
  idempotency_key = text "k2";
  request_hash = text "h2";
}

abbrev account : Text → Bool → Account
account id overdraft = record {
  id = id;
  currency = text "USD";
  kind = if overdraft then text "system" else text "user";
  allow_overdraft = overdraft;
  metadata = text "{}";
  created_at = 7;
}

abbrev balance_of : Text → Bool → BalanceRow
balance_of id overdraft = record {
  account_id = id;
  amount = pos 0;
  allow_overdraft = overdraft;
  version = 0;
  updated_at = 7;
}

-- the tables with both accounts open
abbrev pub opened_db : Db
opened_db = record empty_db {
  accounts = account (text "system") true ∷ account (text "alice") false ∷ [];
  balances = balance_of (text "system") true ∷ balance_of (text "alice") false ∷ [];
}
