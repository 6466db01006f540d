-- ===== src/Ledger.antt =====
-- internal/ledger: the double-entry ledger and the one PostgreSQL transaction of each use case.
pub mod Model
pub mod Locks
pub mod Repo
pub mod Cursor
pub mod Reads
pub mod Payment
pub mod Totals
pub mod Balances
pub mod Effect
pub mod Posting
pub mod Loading
pub mod Locking
pub mod LockOrder
pub mod Settlement
pub mod Consistent
pub mod Replay
pub mod Transfer
pub mod Reverse
pub mod CreateAccount
pub mod History
pub mod Keys
