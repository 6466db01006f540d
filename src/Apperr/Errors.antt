-- ===== src/Apperr/Errors.antt =====
-- The common constructors of internal/apperr/apperr.go.
use fault_tolerant_payment_l.Base.{Text, text}
use fault_tolerant_payment_l.Apperr.{
  Code, Detail, AppError, GoError, app, app_caused, new, with_detail,
}

-- `InvalidRequest`
unfoldable pub invalid_request : GoError
unfolding new
invalid_request = app (new Code.invalid_request)

-- `UnknownAccount`
unfoldable pub unknown_account : Text → GoError
unfolding new with_detail
unknown_account id =
    app (with_detail (text "account_id") (Detail.name id) (new Code.unknown_account))

-- `CurrencyMismatch`
unfoldable pub currency_mismatch : AppError
unfolding new
currency_mismatch = new Code.currency_mismatch

-- `InsufficientFunds`
unfoldable pub insufficient_funds : Text → AppError
unfolding new with_detail
insufficient_funds id =
    with_detail (text "account_id") (Detail.name id) (new Code.insufficient_funds)

-- `Internal`
unfoldable pub internal : GoError → GoError
unfolding new
internal cause = app_caused (new Code.internal_error) cause
