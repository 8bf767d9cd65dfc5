-- ===== src/Store.antt =====
-- internal/store: the durable state, one child for each part.
pub mod Status
pub mod Model
pub mod Action
pub mod Rows
pub mod Attempts
pub mod Policy
pub mod Outbox
pub mod Records
pub mod Accounts
pub mod Ingest
pub mod Retries
pub mod Maintenance
pub mod Scheduling
pub mod Atomic
