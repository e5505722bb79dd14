-- ===== src/Server.antt =====
-- crates/app/src: the HTTP side of the relay.
pub mod Auth
pub mod Webhook
pub mod Config
pub mod Cli
pub mod Replay
