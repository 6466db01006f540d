-- ===== src/Ledger/Model.antt =====
-- internal/ledger/model.go: the constants, the commands and their validation. Metadata is the bytes
-- of its JSON.
use fault_tolerant_payment_l.Base.{
  ℕ, ℤ, pos, leb_ℤ, Text, text, text_eq, Bool, true, false, not, ◌&&◌, ◌||◌, leb, ltb, ◌==◌, List,
  [], ◌∷◌, length, Option, none, some, if◌then◌else◌,
}
use fault_tolerant_payment_l.Apperr.{GoError}
use fault_tolerant_payment_l.Apperr.Errors.{invalid_request}
use fault_tolerant_payment_l.Int64.{add64}
use fault_tolerant_payment_l.Store.Schema.{Entry, Transaction, is_currency}

abbrev pub kind_user : Text
kind_user = text "user"

abbrev pub kind_system : Text
kind_system = text "system"

abbrev pub tx_kind_transfer : Text
tx_kind_transfer = text "transfer"

abbrev pub tx_kind_funding : Text
tx_kind_funding = text "funding"

abbrev pub tx_kind_reversal : Text
tx_kind_reversal = text "reversal"

abbrev pub event_payment_created : Text
event_payment_created = text "payment.created"

abbrev pub event_payment_reversed : Text
event_payment_reversed = text "payment.reversed"

pub record CreateAccountCommand : Type 0 where
  pub id : Text
  pub currency : Text
  pub kind : Text
  pub allow_overdraft : Bool
  pub metadata : Option Text
  pub idempotency_scope : Text
  pub idempotency_key : Text
  pub request_hash : Text

pub record TransferCommand : Type 0 where
  pub source_account_id : Text
  pub destination_account_id : Text
  pub amount : ℤ
  pub currency : Text
  pub description : Text
  pub external_reference : Text
  pub idempotency_scope : Text
  pub idempotency_key : Text
  pub request_hash : Text

pub record ReverseCommand : Type 0 where
  pub transaction_id : Text
  pub reason : Text
  pub idempotency_scope : Text
  pub idempotency_key : Text
  pub request_hash : Text

sum_from : ℤ → List Entry → ℤ
unfolding add64
sum_from total [] = total
sum_from total (e ∷ es) = sum_from (add64 total e.amount) es

-- `Transaction.Sum`
unfoldable pub sum : Transaction → ℤ
unfolding sum_from
sum t = sum_from (pos 0) t.entries

-- [A-Za-z0-9]
unfoldable pub is_alnum : ℕ → Bool
is_alnum c = (leb b'A' c && leb c b'Z') || (leb b'a' c && leb c b'z') || (leb b'0' c && leb c b'9')

-- [A-Za-z0-9._:-]
unfoldable pub is_id_byte : ℕ → Bool
unfolding is_alnum
is_id_byte c = is_alnum c || (c == b'.') || (c == b'_') || (c == b':') || (c == b'-')

unfoldable pub all_id_bytes : Text → Bool
unfolding is_id_byte
all_id_bytes [] = true
all_id_bytes (c ∷ cs) = is_id_byte c && all_id_bytes cs

-- `accountIDRe`, ^[A-Za-z0-9][A-Za-z0-9._:-]{0,127}$
unfoldable pub is_account_id : Text → Bool
unfolding is_alnum all_id_bytes
is_account_id [] = false
is_account_id (c ∷ cs) = is_alnum c && all_id_bytes cs && leb (length cs) 127

-- the first check that fails, of those that a `Validate` makes in turn
unfoldable pub first_of_checks : List Bool → Option GoError
unfolding invalid_request
first_of_checks [] = none
first_of_checks (b ∷ bs) = let rest = first_of_checks bs in if b then some invalid_request else rest

-- `CreateAccountCommand.Validate`
unfoldable pub validate_create : CreateAccountCommand → Option GoError
unfolding is_account_id is_currency first_of_checks
validate_create c = first_of_checks (
    not (is_account_id c.id)
    ∷ not (is_currency c.currency)
    ∷ (not (text_eq c.kind kind_user) && not (text_eq c.kind kind_system))
    ∷ (c.allow_overdraft && not (text_eq c.kind kind_system))
    ∷ [])

-- `TransferCommand.Validate`
unfoldable pub validate_transfer : TransferCommand → Option GoError
unfolding is_currency first_of_checks
validate_transfer c = first_of_checks (
    (text_eq c.source_account_id [] || text_eq c.destination_account_id [])
    ∷ text_eq c.source_account_id c.destination_account_id
    ∷ leb_ℤ c.amount (pos 0)
    ∷ not (is_currency c.currency)
    ∷ ltb 512 (length c.description)
    ∷ ltb 256 (length c.external_reference)
    ∷ [])
