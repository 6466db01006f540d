-- ===== src/Apperr.antt =====
-- internal/apperr/apperr.go: the stable error codes, and Go's error values with their wrapping.
-- An error's message is text for people and is left out; its code and details are kept.
pub mod Laws
pub mod Errors
use fault_tolerant_payment_l.Base.{
  ℕ, ℤ, Text, Bool, false, ◌==◌, Option, none, some, List, [], ◌∷◌, text, text_eq, if◌then◌else◌,
}

pub data Code : Type 0 where
  invalid_request unknown_account currency_mismatch insufficient_funds idempotency_conflict
        idempotency_in_progress transaction_already_reversed transaction_not_found account_exists
        rate_limited dependency_unavailable internal_error :
      Code

-- the values that `WithDetail` is given
pub data Detail : Type 0 where
  name : Text → Detail
  number : ℤ → Detail
  uuid : ℕ → Detail

pub record AppError : Type 0 where
  pub code : Code
  pub details : List (Text × Detail)

-- Go's error values: `app_caused` is an `*apperr.Error` whose cause is set, `wrapped` is
-- `fmt.Errorf("...: %w", err)`, and `pg` is a `*pgconn.PgError` with its SQLSTATE and constraint.
pub data GoError : Type 0 where
  app : AppError → GoError
  app_caused : AppError → GoError → GoError
  wrapped : Text → GoError → GoError
  pg : Text → Text → GoError
  no_rows : GoError
  plain : Text → GoError

-- `errors.As` with an `**apperr.Error`
unfoldable pub as_app : GoError → Option AppError
as_app (app a) = some a
as_app (app_caused a cause) = some a
as_app (wrapped m e) = as_app e
as_app (pg state constraint) = none
as_app no_rows = none
as_app (plain m) = none

-- `errors.As` with a `**pgconn.PgError`: the SQLSTATE and the constraint's name
unfoldable pub as_pg : GoError → Option (Text × Text)
as_pg (app a) = none
as_pg (app_caused a cause) = as_pg cause
as_pg (wrapped m e) = as_pg e
as_pg (pg state constraint) = some (state, constraint)
as_pg no_rows = none
as_pg (plain m) = none

-- `errors.Is(err, pgx.ErrNoRows)`
unfoldable pub is_no_rows : GoError → Bool
is_no_rows (app a) = false
is_no_rows (app_caused a cause) = is_no_rows cause
is_no_rows (wrapped m e) = is_no_rows e
is_no_rows (pg state constraint) = false
is_no_rows no_rows = Bool.true
is_no_rows (plain m) = false

set_detail : Text → Detail → List (Text × Detail) → List (Text × Detail)
set_detail k v [] = (k, v) ∷ []
set_detail k v ((j, u) ∷ ds) = if text_eq k j then (k, v) ∷ ds else (j, u) ∷ set_detail k v ds

-- `WithDetail`: the receiver is cloned, so a value passed on is a new one
unfoldable pub with_detail : Text → Detail → AppError → AppError
unfolding set_detail
with_detail k v a = record a { details = set_detail k v a.details }

-- `New`
unfoldable pub new : Code → AppError
new c = record { code = c; details = [] }

unfoldable pub http_status_code : Code → ℕ
http_status_code Code.invalid_request = 400
http_status_code Code.currency_mismatch = 400
http_status_code Code.unknown_account = 404
http_status_code Code.transaction_not_found = 404
http_status_code Code.insufficient_funds = 422
http_status_code Code.idempotency_conflict = 409
http_status_code Code.transaction_already_reversed = 409
http_status_code Code.account_exists = 409
http_status_code Code.idempotency_in_progress = 409
http_status_code Code.rate_limited = 429
http_status_code Code.dependency_unavailable = 503
http_status_code Code.internal_error = 500

-- `HTTPStatus`
unfoldable pub http_status : AppError → ℕ
unfolding http_status_code
http_status a = http_status_code a.code

-- `From`; the cause that it attaches is only logged
unfoldable pub from : GoError → AppError
unfolding as_app new
from e = elim (as_app e) [ none ↦ new Code.internal_error | some a ↦ a ]

code_id : Code → ℕ
code_id Code.invalid_request = 0
code_id Code.unknown_account = 1
code_id Code.currency_mismatch = 2
code_id Code.insufficient_funds = 3
code_id Code.idempotency_conflict = 4
code_id Code.idempotency_in_progress = 5
code_id Code.transaction_already_reversed = 6
code_id Code.transaction_not_found = 7
code_id Code.account_exists = 8
code_id Code.rate_limited = 9
code_id Code.dependency_unavailable = 10
code_id Code.internal_error = 11

-- `Is`
unfoldable pub is : GoError → Code → Bool
unfolding as_app code_id
is e c = elim (as_app e) [ none ↦ false | some a ↦ code_id a.code == code_id c ]
