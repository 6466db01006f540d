-- ===== src/Apperr/Laws.antt =====
-- What `From`, `Is` and `HTTPStatus` of internal/apperr/apperr.go agree on.
use fault_tolerant_payment_l.Base.{◌≤◌, ◌<◌, ◌≡◌, refl, Text, arith}
use fault_tolerant_payment_l.Apperr.{Code, GoError, wrapped, as_pg, from, is, http_status}

-- Wrapping an error with `%w` changes neither the response that it maps to nor the SQLSTATE that
-- the retry loop classifies it by, and `Is` still finds its code.
pub from-wrapped :
    (m : Text) (e : GoError) (c : Code)
    → (from (wrapped m e) ≡ from e)
      × (as_pg (wrapped m e) ≡ as_pg e)
      × (is (wrapped m e) c ≡ is e c)
unfolding from as_pg is
from-wrapped m e c = (refl, refl, refl)

-- Every error maps to a client or server error status.
pub http_status_range : (e : GoError) → (400 ≤ http_status (from e)) × (http_status (from e) < 600)
unfolding http_status from
http_status_range e = ground arith
