-- ===== src/Examples.antt =====
-- The theorems at work on small tables.
pub mod Fixtures
mod Api
mod Attempts
mod Outbox
mod Delivery
mod Ingest
mod Worker
mod Retries
mod Maintenance
mod Scheduling
mod Publisher
mod Queue
mod Notify
mod Redis
