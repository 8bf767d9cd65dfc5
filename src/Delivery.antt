-- ===== src/Delivery.antt =====
-- internal/delivery: one delivery attempt from its queue job to the durable outcome.
pub mod Text
pub mod Retry
pub mod Service
pub mod Process
pub mod Laws
pub mod Channels
pub mod Postgres
