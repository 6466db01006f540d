-- ===== src/Ledger/Locks.antt =====
-- `lockBalances` and `listAccountsForTransaction` of internal/ledger/repo.go: which rows a payment
-- locks, and in which order.
use fault_tolerant_payment_l.Base.{
  ℕ, ◌==◌, ℤ, Text, text, text_eq, text_lt, Bool, Option, none, some, List, [], ◌∷◌, find, exists,
  is_some, if◌then◌else◌,
}
use fault_tolerant_payment_l.Apperr.{GoError, wrapped, no_rows, is_no_rows}
use fault_tolerant_payment_l.Apperr.Errors.{unknown_account}
use fault_tolerant_payment_l.Store.Schema.{Account, BalanceRow, Entry}
use fault_tolerant_payment_l.Store.World.{
  World, Exec, Result, ok, err, panic, balance, call, pure, map_err, lift, ◌>>=◌,
}

-- `lockedAccount`
pub record LockedAccount : Type 0 where
  pub id : Text
  pub currency : Text
  pub kind : Text
  pub allow_overdraft : Bool
  pub balance : ℤ
  pub version : ℕ

unfoldable pub insert_text : Text → List Text → List Text
insert_text a [] = a ∷ []
insert_text a (b ∷ bs) = if text_lt b a then b ∷ insert_text a bs else a ∷ b ∷ bs

-- `sort.Strings`
unfoldable pub sort_texts : List Text → List Text
sort_texts [] = []
sort_texts (a ∷ bs) = insert_text a (sort_texts bs)

abbrev pub has_account : Text → Account → Bool
has_account id a = text_eq a.id id

abbrev pub has_balance : Text → BalanceRow → Bool
has_balance id b = text_eq b.account_id id

unfoldable pub joined : Option Account → BalanceRow → Result LockedAccount
joined none b = err no_rows
joined (some a) b = ok (record {
  id = a.id;
  currency = a.currency;
  kind = a.kind;
  allow_overdraft = b.allow_overdraft;
  balance = b.amount;
  version = b.version;
})

-- the `SELECT ... FOR NO KEY UPDATE OF b` of one account
unfoldable pub select_locked : Text → World → Result LockedAccount × World
select_locked id w = elim (find (has_balance id) w.db.balances) [
  | none ↦ (err no_rows, w)
  | some b ↦
      (joined (find (has_account id) w.db.accounts) b, record w { locks = balance id ∷ w.locks })
]

lock_error : Text → GoError → GoError
lock_error id e =
    if is_no_rows e then unknown_account id else wrapped (text "ledger: lock balance") e

unfoldable pub lock_row : Text → Exec LockedAccount
unfolding lock_error
lock_row id = map_err (lock_error id) (call (select_locked id))

-- the map from account IDs to locked accounts
abbrev pub Locked : Type 0
Locked = List (Text × LockedAccount)

unfoldable pub get_locked : Text → Locked → Option LockedAccount
get_locked id [] = none
get_locked id ((j, a) ∷ out) = if text_eq id j then some a else get_locked id out

-- the loop of `lockBalances`
unfoldable pub lock_sorted : List Text → Locked → Exec Locked
lock_sorted [] out = pure out
lock_sorted (id ∷ ids) out =
    let seen = lock_sorted ids out in
    let fresh = (lock_row id >>= λ a. lock_sorted ids ((id, a) ∷ out)) in
    if is_some (get_locked id out) then seen else fresh

-- `lockBalances`
unfoldable pub lock_balances : List Text → Exec Locked
lock_balances ids = lock_sorted (sort_texts ids) []

-- `accounts[id]`, whose fields are read at once: a missing key would be a nil pointer
unfoldable pub deref : Text → Locked → Exec LockedAccount
deref id out = lift (elim (get_locked id out) [
  | none ↦ panic (text "invalid memory address or nil pointer dereference")
  | some a ↦ ok a
])

-- `SELECT DISTINCT account_id FROM ledger_entries WHERE transaction_id = $1`
unfoldable pub accounts_of : ℕ → List Entry → List Text
accounts_of t [] = []
accounts_of t (e ∷ es) =
    let others = accounts_of t es in
    if e.transaction_id == t
    then (if exists (text_eq e.account_id) others then others else e.account_id ∷ others)
    else others

-- `listAccountsForTransaction`
unfoldable pub list_accounts_for_transaction : ℕ → Exec (List Text)
list_accounts_for_transaction t =
    map_err (wrapped (text "ledger: list transaction accounts"))
      (call λ w. (ok (accounts_of t w.db.entries), w))
