-- ===== src/Idempotency.antt =====
-- internal/idempotency/record.go: the durable idempotency records.
pub mod Laws
pub mod Kept
use Prim.Native.Nat.{bit_xor}
use fault_tolerant_payment_l.Base.{
  ℕ, ◌*◌, ◌%◌, ◌^◌, Text, text, text_eq, Bool, true, false, ◌&&◌, Option, none, some, List, [], ◌∷◌,
  ◌++◌, find, if◌then◌else◌,
}
use fault_tolerant_payment_l.Apperr.{
  Code, Detail, AppError, GoError, app, wrapped, plain, no_rows, is_no_rows, new, with_detail,
}
use fault_tolerant_payment_l.Store.Schema.{Db, IdemRecord, IdemState, in_progress, completed, Body}
use fault_tolerant_payment_l.Store.World.{
  World, Exec, Result, ok, err, Lock, advisory, call, pure, raise, map_err, lift, ◌>>=◌, ◌>>◌,
}

-- `ErrNotFound`
abbrev pub not_found : GoError
not_found = plain (text "idempotency: record not found")

-- `fnv.New64a` over the bytes written to it
unfoldable pub fnv1a : ℕ → Text → ℕ
fnv1a h [] = h
fnv1a h (b ∷ bs) = fnv1a (bit_xor h b * 1_099_511_628_211 % 2 ^ 64) bs

-- the hash of `LockKey`, as the 64 bits that the int64 conversion keeps
unfoldable pub key_hash : Text → Text → ℕ
key_hash scope key = fnv1a 14_695_981_039_346_656_037 (scope ++ (0 ∷ key))

-- `LockKey`
unfoldable pub lock_key : Text → Text → Exec (Unit {0})
lock_key scope key =
    map_err (wrapped (text "idempotency: advisory lock"))
      (call λ w. (ok tt, record w { locks = advisory (key_hash scope key) ∷ w.locks }))

-- whether a row is that of a scope and a key
unfoldable pub is_for : Text → Text → IdemRecord → Bool
is_for scope key r = text_eq r.scope scope && text_eq r.key key

abbrev pub or_no_rows : Option IdemRecord → Result IdemRecord
or_no_rows none = err no_rows
or_no_rows (some r) = ok r

fetch_error : GoError → GoError
fetch_error e = if is_no_rows e then not_found else wrapped (text "idempotency: fetch") e

-- `Fetch`
unfoldable pub fetch : Text → Text → Exec IdemRecord
unfolding fetch_error
fetch scope key =
    map_err fetch_error (call λ w. (or_no_rows (find (is_for scope key) w.db.idempotency), w))

-- a new row, with the defaults of its columns
unfoldable pub fresh_claim : Text → Text → Text → IdemRecord
fresh_claim scope key hash = record {
  scope = scope;
  key = key;
  request_hash = hash;
  state = in_progress;
  response_status = none;
  response_body = none;
  transaction_id = none;
}

-- `INSERT ... ON CONFLICT (scope, key) DO NOTHING`, with whether a row was inserted
unfoldable pub insert_claim : Text → Text → Text → World → Result Bool × World
insert_claim scope key hash w = elim (find (is_for scope key) w.db.idempotency) [
  | some r ↦ (ok false, w)
  | none ↦ (
    ok true,
    record w { db = record w.db { idempotency = fresh_claim scope key hash ∷ w.db.idempotency } },
  )
]

abbrev pub found : IdemRecord → Option IdemRecord
found r = some r

-- `Claim`: none when the row is new, else the row that is there
unfoldable pub claim : Text → Text → Text → Exec (Option IdemRecord)
claim scope key hash = do
  inserted ← map_err (wrapped (text "idempotency: claim")) (call (insert_claim scope key hash))
  if inserted then pure none else (fetch scope key >>= λ r. pure (found r))

-- `SET state = 'completed', response_status = ..., response_body = ..., transaction_id = ...`
unfoldable pub complete_row : ℕ → Body → Option ℕ → IdemRecord → IdemRecord
complete_row status body tx r = record r {
  state = completed;
  response_status = some status;
  response_body = some body;
  transaction_id = tx;
}

unfoldable pub complete_rows : Text → Text → ℕ → Body → Option ℕ → List IdemRecord → List IdemRecord
complete_rows scope key status body tx [] = []
complete_rows scope key status body tx (r ∷ rs) =
    (if is_for scope key r then complete_row status body tx r else r)
    ∷ complete_rows scope key status body tx rs

-- `Complete`
unfoldable pub complete : Text → Text → ℕ → Body → Option ℕ → Exec (Unit {0})
complete scope key status body tx = map_err (wrapped (text "idempotency: complete")) (
    call λ w. (
      ok tt,
      record w {
        db = record w.db { idempotency = complete_rows scope key status body tx w.db.idempotency };
      },
    ))

is_in_progress : IdemState → Bool
is_in_progress in_progress = true
is_in_progress completed = false

unfoldable pub discard_rows : Text → Text → List IdemRecord → List IdemRecord
unfolding is_in_progress
discard_rows scope key [] = []
discard_rows scope key (r ∷ rs) =
    let kept = discard_rows scope key rs in
    if is_for scope key r && is_in_progress r.state then kept else r ∷ kept

-- `Discard`
unfoldable pub discard : Text → Text → Exec (Unit {0})
discard scope key = map_err (wrapped (text "idempotency: discard")) (
    call λ w. (
      ok tt,
      record w { db = record w.db { idempotency = discard_rows scope key w.db.idempotency } },
    ))

-- `Conflict`
unfoldable pub conflict : Text → GoError
conflict key =
    app (with_detail (text "idempotency_key") (Detail.name key) (new Code.idempotency_conflict))

-- `InProgress`
unfoldable pub in_progress_error : Text → GoError
in_progress_error key =
    app (with_detail (text "idempotency_key") (Detail.name key) (new Code.idempotency_in_progress))
