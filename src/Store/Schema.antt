-- ===== src/Store/Schema.antt =====
-- migrations/0001_init.up.sql: the tables as lists of rows, newest first, and the tests that the
-- constraints make. A UUID is the number that it stands for, a timestamp is a number, and the bytes
-- of a JSON document are the value that it encodes.
use fault_tolerant_payment_l.Base.{
  ℕ, suc, ◌==◌, ℤ, pos, ◌+ℤ◌, Text, Bool, true, false, ◌&&◌, Option, List, [], ◌∷◌, leb, eqb_ℤ,
  if◌then◌else◌,
}

-- `accounts`, and `Account` of internal/ledger/model.go, whose metadata is the bytes of its JSON
pub record Account : Type 0 where
  pub id : Text
  pub currency : Text
  pub kind : Text
  pub allow_overdraft : Bool
  pub metadata : Text
  pub created_at : ℕ

-- `balances`; `version` is counted without the bound of its BIGINT
pub record BalanceRow : Type 0 where
  pub account_id : Text
  pub amount : ℤ
  pub allow_overdraft : Bool
  pub version : ℕ
  pub updated_at : ℕ

-- `ledger_transactions`
pub record TransactionRow : Type 0 where
  pub id : ℕ
  pub kind : Text
  pub currency : Text
  pub description : Text
  pub external_reference : Option Text
  pub reverses_transaction_id : Option ℕ
  pub created_at : ℕ

-- `ledger_entries`, and `Entry` of internal/ledger/model.go
pub record Entry : Type 0 where
  pub id : ℕ
  pub transaction_id : ℕ
  pub account_id : Text
  pub amount : ℤ
  pub currency : Text
  pub seq : ℕ
  pub created_at : ℕ

-- `reversals`
pub record ReversalRow : Type 0 where
  pub id : ℕ
  pub original_transaction_id : ℕ
  pub reversal_transaction_id : ℕ
  pub reason : Text

-- `Transaction` of internal/ledger/model.go
pub record Transaction : Type 0 where
  pub id : ℕ
  pub kind : Text
  pub currency : Text
  pub description : Text
  pub external_reference : Option Text
  pub reverses_transaction_id : Option ℕ
  pub reversed_by_transaction_id : Option ℕ
  pub created_at : ℕ
  pub entries : List Entry

-- The bytes of a stored response, as the value that `json.Marshal` was given; `raw` is any other
-- document.
pub data Body : Type 0 where
  transaction_json : Transaction → Body
  account_json : Account → Body
  raw : Text → Body

-- `state`, whose CHECK allows these two
pub data IdemState : Type 0 where
  in_progress completed : IdemState

-- `idempotency_records`, and `Record` of internal/idempotency/record.go
pub record IdemRecord : Type 0 where
  pub scope : Text
  pub key : Text
  pub request_hash : Text
  pub state : IdemState
  pub response_status : Option ℕ
  pub response_body : Option Body
  pub transaction_id : Option ℕ

-- `EntryData` of internal/outbox/event.go
pub record EntryData : Type 0 where
  pub entry_id : ℕ
  pub account_id : Text
  pub amount : ℤ
  pub currency : Text
  pub seq : ℕ

-- `PaymentData` of internal/outbox/event.go
pub record PaymentData : Type 0 where
  pub transaction_id : ℕ
  pub kind : Text
  pub currency : Text
  pub amount : ℤ
  pub source_account_id : Text
  pub destination_account_id : Text
  pub description : Text
  pub external_reference : Text
  pub reverses_transaction_id : Option ℕ
  pub reason : Text
  pub created_at : ℕ
  pub entries : List EntryData

-- `ReplayMeta` of internal/outbox/event.go
pub record ReplayMeta : Type 0 where
  pub is_replay : Bool
  pub replay_id : ℕ
  pub replayed_at : ℕ
  pub replayed_by : Text
  pub original_seq : ℕ

-- `Envelope` of internal/outbox/event.go
pub record Envelope : Type 0 where
  pub event_id : ℕ
  pub event_type : Text
  pub schema_version : ℕ
  pub transaction_id : ℕ
  pub occurred_at : ℕ
  pub correlation_id : Text
  pub replay : Option ReplayMeta
  pub payment : PaymentData

-- `status`, whose CHECK allows these four
pub data OutboxStatus : Type 0 where
  pending publishing published dead_letter : OutboxStatus

-- `outbox_events`, and `Record` of internal/outbox/event.go
pub record OutboxRow : Type 0 where
  pub id : ℕ
  pub topic : Text
  pub event_type : Text
  pub aggregate_id : ℕ
  pub partition_key : ℕ
  pub payload : Envelope
  pub headers : List (Text × Text)
  pub status : OutboxStatus
  pub attempts : ℕ
  pub last_error : Option Text
  pub claimed_by : Option Text
  pub claimed_at : Option ℕ
  pub next_attempt_at : ℕ
  pub published_at : Option ℕ
  pub created_at : ℕ

-- What a Kafka record holds: an event, the report of a dead letter, an envelope whose `event_id` is
-- empty, or bytes that are not the JSON of an envelope.
pub data Value : Type 0 where
  event_value : Envelope → Value
  dead_letter_value : OutboxRow → Text → Value
  unnamed_value : Text → Value
  malformed_value : Text → Value

-- `Message` of internal/kafka/producer.go; `event_id` and `transaction_id` are the headers that hold a UUID
pub record Message : Type 0 where
  pub topic : Text
  pub key : ℕ
  pub value : Value
  pub headers : List (Text × Text)
  pub event_id : ℕ
  pub transaction_id : ℕ

-- `status` of `webhook_deliveries`, whose CHECK allows these three
pub data DeliveryStatus : Type 0 where
  pending delivered dead_letter : DeliveryStatus

-- `webhook_deliveries`, and `Delivery` of internal/webhook/store.go
pub record Delivery : Type 0 where
  pub id : ℕ
  pub event_id : ℕ
  pub endpoint : Text
  pub event_type : Text
  pub transaction_id : ℕ
  pub payload : Value
  pub status : DeliveryStatus
  pub attempts : ℕ
  pub last_error : Option Text
  pub last_status_code : Option ℕ
  pub next_attempt_at : ℕ
  pub delivered_at : Option ℕ
  pub created_at : ℕ

-- A request that an endpoint answered: its headers and its body, and the status of the answer.
pub record Posted : Type 0 where
  pub endpoint : Text
  pub event_id : ℕ
  pub event_type : Text
  pub transaction_id : ℕ
  pub attempt : ℕ
  pub signature : Option Text
  pub body : Value
  pub answered : ℕ

pub record Db : Type 0 where
  pub accounts : List Account
  pub balances : List BalanceRow
  pub transactions : List TransactionRow
  pub entries : List Entry
  pub reversals : List ReversalRow
  pub idempotency : List IdemRecord
  pub outbox : List OutboxRow
  pub webhooks : List Delivery

abbrev pub empty_db : Db
empty_db = record {
  accounts = [];
  balances = [];
  transactions = [];
  entries = [];
  reversals = [];
  idempotency = [];
  outbox = [];
  webhooks = [];
}

-- `CHECK (currency ~ '^[A-Z]{3}$')`, and `currencyRe` of internal/ledger/model.go
unfoldable pub is_currency : Text → Bool
is_currency (a ∷ b ∷ c ∷ []) =
    leb b'A' a && leb a b'Z' && leb b'A' b && leb b b'Z' && leb b'A' c && leb c b'Z'
is_currency other = false

-- `SUM(amount)` and `COUNT(*)` over the entries of one transaction
unfoldable pub sum_of : ℕ → List Entry → ℤ
sum_of t [] = pos 0
sum_of t (e ∷ es) =
    let rest = sum_of t es in if e.transaction_id == t then e.amount +ℤ rest else rest

unfoldable pub count_of : ℕ → List Entry → ℕ
count_of t [] = 0
count_of t (e ∷ es) = let rest = count_of t es in if e.transaction_id == t then suc rest else rest

-- `assert_transaction_balanced`, as a test
unfoldable pub is_balanced : ℕ → List Entry → Bool
unfolding sum_of count_of
is_balanced t es = leb 2 (count_of t es) && eqb_ℤ (sum_of t es) (pos 0)

-- the deferred trigger of `ledger_entries_balanced`, at COMMIT: one run for each inserted entry
unfoldable pub all_balanced : List ℕ → List Entry → Bool
unfolding is_balanced
all_balanced [] es = true
all_balanced (t ∷ ts) es = is_balanced t es && all_balanced ts es
