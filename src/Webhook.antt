-- ===== src/Webhook.antt =====
-- internal/webhook: deliveries that PostgreSQL holds, and the worker that makes them.
pub mod Store
pub mod Worker
pub mod Sound
pub mod Deliveries
pub mod Events
pub mod Progress
pub mod Replays
pub mod Consumer
