-- ===== src/Ledger/Repo/Load.antt =====
-- `loadTransaction` of internal/ledger/repo.go.
use fault_tolerant_payment_l.Base.{
  ℕ, ◌==◌, Text, text, text_eq, Bool, false, Option, none, some, List, [], ◌∷◌, find, leb,
  if◌then◌else◌,
}
use fault_tolerant_payment_l.Apperr.{
  Code, Detail, GoError, app, wrapped, pg, no_rows, is_no_rows, new, with_detail, as_pg,
}
use fault_tolerant_payment_l.Apperr.Errors.{invalid_request}
use fault_tolerant_payment_l.Store.Schema.{Db, TransactionRow, Entry, Transaction}
use fault_tolerant_payment_l.Store.World.{World, Exec, Result, ok, err, call, pure, map_err, ◌>>=◌}
use fault_tolerant_payment_l.Ledger.Repo.{has_id, reverses, deref_uuid}

unfoldable pub insert_by_seq : Entry → List Entry → List Entry
insert_by_seq e [] = e ∷ []
insert_by_seq e (f ∷ fs) = if leb e.seq f.seq then e ∷ f ∷ fs else f ∷ insert_by_seq e fs

-- `SELECT ... FROM ledger_entries WHERE transaction_id = $1 ORDER BY seq`
unfoldable pub entries_of : ℕ → List Entry → List Entry
entries_of t [] = []
entries_of t (e ∷ es) =
    let rest = entries_of t es in if e.transaction_id == t then insert_by_seq e rest else rest

abbrev pub id_of : Option TransactionRow → Option ℕ
id_of none = none
id_of (some t) = some t.id

-- the header of a transaction, with the subquery for the transaction that reverses it
unfoldable pub header : TransactionRow → Db → Transaction
header t d = record {
  id = t.id;
  kind = t.kind;
  currency = t.currency;
  description = t.description;
  external_reference = t.external_reference;
  reverses_transaction_id = t.reverses_transaction_id;
  reversed_by_transaction_id = id_of (find (reverses t.id) d.transactions);
  created_at = t.created_at;
  entries = [];
}

abbrev pub invalid_text_representation : Text
invalid_text_representation = text "22P02"

-- the first query of `loadTransaction`, at a text that PostgreSQL reads as `id`
unfoldable pub select_header : Option ℕ → World → Result Transaction × World
select_header none w = (err (pg invalid_text_representation []), w)
select_header (some id) w = elim (find (has_id id) w.db.transactions) [
  | none ↦ (err no_rows, w)
  | some t ↦ (ok (header t w.db), w)
]

is_invalid_uuid : GoError → Bool
is_invalid_uuid e = elim (as_pg e) [
  | none ↦ false
  | some (state, name) ↦ text_eq state invalid_text_representation
]

load_error : Option ℕ → GoError → GoError
unfolding is_invalid_uuid
load_error id e =
    if is_no_rows e
    then app (
        with_detail (text "transaction_id") (Detail.uuid (deref_uuid id))
          (new Code.transaction_not_found))
    else if is_invalid_uuid e
    then invalid_request
    else wrapped (text "ledger: get transaction") e

-- `loadTransaction`
unfoldable pub load_transaction : Option ℕ → Exec Transaction
unfolding load_error
load_transaction id = do
  t ← map_err (load_error id) (call (select_header id))
  es ←
      map_err (wrapped (text "ledger: get entries"))
        (call λ w. (ok (entries_of t.id w.db.entries), w))
  pure (record t { entries = es })
