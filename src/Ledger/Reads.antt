-- ===== src/Ledger/Reads.antt =====
-- The read operations of internal/ledger/repo.go. `format`, `parse` and `show` are the texts of times and of UUIDs.
pub mod Order
pub mod Pages
use fault_tolerant_payment_l.Base.{
  ℕ, suc, ℤ, pos, negsuc, ◌==◌, ltb, leb, Text, text, text_eq, take, length, Bool, true, false,
  ◌&&◌, ◌||◌, Option, none, some, List, [], ◌∷◌, find, select, if◌then◌else◌,
}
use fault_tolerant_payment_l.Apperr.{GoError, wrapped, pg, no_rows, is_no_rows}
use fault_tolerant_payment_l.Apperr.Errors.{unknown_account, invalid_request}
use fault_tolerant_payment_l.Store.Schema.{Account, BalanceRow, Entry, Transaction}
use fault_tolerant_payment_l.Store.World.{
  World, Exec, Result, ok, err, pure, raise, call, map_err, ◌>>=◌, ◌>>◌,
}
use fault_tolerant_payment_l.Ledger.Locks.{has_account, has_balance}
use fault_tolerant_payment_l.Ledger.Repo.Load.{load_transaction}
use fault_tolerant_payment_l.Ledger.Cursor.{encode_cursor, decode_cursor}

-- `Balance`
pub record Balance : Type 0 where
  pub account_id : Text
  pub amount : ℤ
  pub currency : Text
  pub version : ℕ
  pub updated_at : ℕ

-- `EntryPage`
pub record EntryPage : Type 0 where
  pub entries : List Entry
  pub next_cursor : Text

module _ {A : Type 0} where
  abbrev pub row_or_error : Option A → Result A
  row_or_error none = err no_rows
  row_or_error (some a) = ok a

-- `GetAccount`
unfoldable pub get_account : Text → Exec Account
get_account id =
    map_err
      (λ e. if is_no_rows e then unknown_account id else wrapped (text "ledger: get account") e)
      (call λ w. (row_or_error (find (has_account id) w.db.accounts), w))

-- the join of `GetBalance`
unfoldable pub join_account : BalanceRow → Option Account → Option Balance
join_account b none = none
join_account b (some a) = some (record {
  account_id = b.account_id;
  amount = b.amount;
  currency = a.currency;
  version = b.version;
  updated_at = b.updated_at;
})

unfoldable pub select_balance : Option BalanceRow → World → Option Balance
unfolding join_account
select_balance none w = none
select_balance (some b) w = join_account b (find (has_account b.account_id) w.db.accounts)

-- `GetBalance`
unfoldable pub get_balance : Text → Exec Balance
get_balance id =
    map_err
      (λ e. if is_no_rows e then unknown_account id else wrapped (text "ledger: get balance") e)
      (call λ w. (row_or_error (select_balance (find (has_balance id) w.db.balances) w), w))

-- `(created_at, id) < ($2, $3)`
abbrev pub is_older : ℕ → ℕ → Entry → Bool
is_older at id e = ltb e.created_at at || (e.created_at == at && ltb e.id id)

-- `ORDER BY created_at DESC, id DESC`
unfoldable pub place : Entry → List Entry → List Entry
place e [] = e ∷ []
place e (x ∷ xs) =
    let others = place e xs in if is_older e.created_at e.id x then e ∷ x ∷ xs else x ∷ others

unfoldable pub newest_first : List Entry → List Entry
newest_first [] = []
newest_first (e ∷ es) = place e (newest_first es)

abbrev pub is_of : Text → Entry → Bool
is_of id e = text_eq e.account_id id

-- the account's entries, and those before a cursor
unfoldable pub history : Text → List Entry → List Entry
history id es = newest_first (select (is_of id) es)

-- the limit of a page
unfoldable pub page_size : ℤ → ℕ
page_size (pos n) = if n == 0 || ltb 500 n then 100 else n
page_size (negsuc n) = 100

-- the last of some entries, as `page.Entries[limit-1]`
unfoldable pub last_of : Entry → List Entry → Entry
last_of e [] = e
last_of e (x ∷ xs) = last_of x xs

unfoldable pub uuid_syntax : GoError
uuid_syntax = pg (text "22P02") []

module _ (format : ℕ → Text) (parse : Text → Option ℕ) (show : ℕ → Text) where
  -- `if len(page.Entries) > limit`, on the entries that the page keeps
  next_cursor : Bool → List Entry → Text
  unfolding last_of
  next_cursor false es = []
  next_cursor true [] = []
  next_cursor true (e ∷ es) =
      let last = last_of e es in encode_cursor format last.created_at (show last.id)

  unfoldable pub page_of : ℕ → List Entry → EntryPage
  unfolding next_cursor
  page_of limit rows = record {
    entries = take limit rows;
    next_cursor = next_cursor (ltb limit (length rows)) (take limit rows);
  }

  -- the query: a cursor whose id is empty gives NULL, and so no row
  rows_before : Option ℕ → ℕ → List Entry → Result (List Entry)
  rows_before none at es = err uuid_syntax
  rows_before (some id) at es = ok (select (is_older at id) es)

  unfoldable pub rows_from :
      (Text → Option ℕ) → Option (ℕ × Text) → List Entry → Result (List Entry)
  unfolding rows_before
  rows_from parse_uuid none es = ok es
  rows_from parse_uuid (some (at, [])) es = ok []
  rows_from parse_uuid (some (at, b ∷ bs)) es = rows_before (parse_uuid (b ∷ bs)) at es

  unfoldable pub limited : ℕ → Result (List Entry) → Result (List Entry)
  limited n (ok es) = ok (take n es)
  limited n (err e) = err e
  limited n (Result.panic m) = Result.panic m

  -- the cursor of the request, which is empty on the first page
  read_cursor : Option (ℕ × Text) → Exec (Option (ℕ × Text))
  read_cursor none = raise invalid_request
  read_cursor (some c) = pure (some c)

  unfoldable pub cursor_of : Text → Exec (Option (ℕ × Text))
  unfolding read_cursor
  cursor_of [] = pure none
  cursor_of (b ∷ bs) = read_cursor (decode_cursor parse (b ∷ bs))

  -- `ListEntries`
  unfoldable pub list_entries : Text → ℤ → Text → Exec EntryPage
  list_entries id limit cursor = do
    get_account id
    from ← cursor_of cursor
    rows ← map_err (wrapped (text "ledger: list entries")) (
        call λ w. (
          limited (suc (page_size limit)) (rows_from w.parse_uuid from (history id w.db.entries)),
          w,
        ))
    pure (page_of (page_size limit) rows)

-- `GetTransaction`
unfoldable pub get_transaction : Text → Exec Transaction
get_transaction id w = load_transaction (w.parse_uuid id) w
