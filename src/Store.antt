-- ===== src/Store.antt =====
-- crates/store: correlation state and the outbox, over the statements of the SQLite backend, and the lease of the
-- Postgres one.
pub mod Payload
pub mod Model
pub mod Row
pub mod Sql
pub mod Ingest
pub mod Outbox
pub mod Retention
pub mod Query
pub mod Keys
pub mod Tracked
pub mod Postgres
pub mod Stats
