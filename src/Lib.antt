-- ===== src/Lib.antt =====
-- A verification library for the fault-tolerant payment ledger: a Go service that moves money between accounts in
-- PostgreSQL, with idempotency keys, a transactional outbox, a Kafka publisher and webhooks.
--
-- How the parts interact. A use case of the ledger (internal/ledger/service.go, internal/ledger/repo.go) checks its
-- command and runs one transaction (internal/storage/postgres.go), which is retried on the errors that PostgreSQL
-- calls transient. In it the idempotency key is locked and claimed (internal/idempotency/record.go), and then the
-- stored answer is replayed or the payment is executed: the balances are locked, the header, the entries, the
-- balances and one outbox event (internal/outbox/repo.go) are written, and the answer is stored under the key. A
-- publisher (internal/outbox/publisher.go) moves the events to Kafka, and a replay (internal/outbox/replay.go) sends
-- them again. The webhook worker consumes them (internal/kafka/consumer.go), stores one delivery for each endpoint and
-- posts it until it is answered (internal/webhook). The reconciliation (internal/reconciliation/reconcile.go) compares
-- balances and entries.
--
-- The model. Store/Schema holds the tables of migrations/0001_init.up.sql as lists of rows, newest first. Store/World is
-- the state that an action runs in: the tables, the outcomes of the external calls to come, the failpoints, the
-- clocks, the source of UUIDs, the locks held, the armed triggers, the log of Kafka with the committed offsets, and the
-- requests that endpoints answered. Each external call takes the
-- next outcome of a list: it works, it fails, or it works and its answer is lost. A theorem about every world is so a
-- theorem about every schedule of failures. An action is a function from a world to a result and a world, and a
-- panic is a result of its own.
--
-- Which file models which part:
--   Apperr: internal/apperr/apperr.go; the chain of causes is data, and Error() is left out
--   Failpoint, Failpoint/Spec: internal/failpoint/failpoint.go
--   Config: the settings of internal/config/config.go that the other parts read
--   Int64: the wrap-around of Go's int64, and the range that PostgreSQL checks
--   Store/Tx: `InTx`, `runOnce`, `backoff` and the error classes of internal/storage/postgres.go
--   Idempotency: `LockKey`, `Fetch`, `Claim`, `Complete`, `Discard` of internal/idempotency/record.go
--   Outbox/Insert, Outbox/Queue: internal/outbox/repo.go and internal/outbox/event.go
--   Outbox/Publisher: internal/outbox/publisher.go and `Publish` of internal/kafka/producer.go
--   Ledger/Model: internal/ledger/model.go
--   Ledger/Locks, Ledger/Repo, Ledger/CreateAccount: internal/ledger/repo.go
--   Ledger/Cursor, Ledger/Reads: the cursors and the read operations of internal/ledger/repo.go
--   Ledger/Payment, Ledger/Transfer, Ledger/Reverse: internal/ledger/service.go
--   Ledger/History, Ledger/Keys: the use cases in any order, and a key that was used under them
--   Outbox/Replay: internal/outbox/replay.go, `Get` and `ListForReplay` of internal/outbox/repo.go
--   Kafka: internal/kafka/consumer.go
--   Webhook/Store, Webhook/Worker: internal/webhook/store.go and internal/webhook/worker.go
--   Reconciliation: internal/reconciliation/reconcile.go
-- Base holds shared names and lemmas, Store/Inversion and Store/Outcome what an action says of its parts, and Scenario
-- and Tests a small ledger on which the theorems are applied.
--
-- Bounds. Amounts are integers that Go wraps at 64 bits (Int64) and that the database refuses outside BIGINT. Retries
-- are counted down from the configured number, as the loop of `InTx` does. A client that follows cursors gets fuel for
-- the pages, and more than the entries is enough; the digits of a number get the number itself as fuel. Versions and
-- attempts are unbounded numbers, a UUID is the number that it stands for, and the JSON of a stored answer is the value
-- that it encodes.
--
-- Not modelled. The payload of an outbox row is the envelope that its JSON encodes, so that markReplayed does not fail
-- on it, and a negative sleep of a failpoint counts as 0. A transaction runs alone: the locks that it takes are
-- recorded, and the interleavings that they rule out are not; nor are two webhook workers that claim one delivery. The
-- rounding of float64 in the backoffs, logs, metrics, the polling loops and reading the environment are left out. The
-- text of an error, of a time, of a duration, of a UUID and of an HMAC, and the URLs that net/http accepts are
-- parameters. The HTTP layer, the Redis cache and the migrations have no model.
pub mod Base
pub mod Apperr
pub mod Failpoint
pub mod Int64
pub mod Store
pub mod Config
pub mod Idempotency
pub mod Outbox
pub mod Kafka
pub mod Ledger
pub mod Reconciliation
pub mod Webhook
mod Scenario
mod Tests
