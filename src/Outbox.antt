-- ===== src/Outbox.antt =====
-- internal/outbox: the transactional outbox and its publisher.
pub mod Insert
pub mod Queue
pub mod Publisher
pub mod Delivery
pub mod Delay
pub mod Replay
