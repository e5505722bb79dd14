-- ===== src/Lib.antt =====
-- The alertthread relay: Alertmanager's webhooks in, Slack messages out, with the state between them in a
-- database. A delivery (crates/app/src/http.rs) is one transaction of the store: each alert is claimed,
-- the planner (crates/core/src/plan.rs) decides on what the claims found, and its ops are written to an
-- outbox. Workers (crates/app/src/worker.rs) lease ops, execute them against Slack (delivery.rs) and record
-- the outcome in another transaction. Ops that cannot succeed are parked, and an operator can revive them
-- (replay.rs). What is posted is rendered by templates and made to fit Slack (crates/slack/src).
--
-- The files, and the code that each is about:
--   Base: shared helpers; numbers, signed spans, lists, tables (select, update and delete by a condition),
--     bits, and texts with their lines, words and decimals.
--   Core: crates/core/src. Core/Ids is ids.rs, Core/Webhook webhook.rs, Core/Domain domain.rs, Core/Policy
--     policy.rs, Core/Plan plan.rs. Core/Plan/Spec is the table that the planner is held to.
--   Store: crates/store/src. Store/Payload is payload.rs, Store/Model model.rs and error.rs, Store/Row
--     row.rs, Store/Sql the statements of sqlite.rs (by table: Alerts, Groups, Queue), Store/Ingest,
--     Store/Outbox, Store/Retention and Store/Query its methods. Store/Postgres is the lease of
--     postgres.rs, which passes over locked rows. Store/Stats is the sample of
--     the store with the gauges that crates/app/src/metrics.rs sets from it. Store/Keys is about the keys
--     of the tables, Store/Tracked about what an alert's state promises of the outbox.
--   Slack: crates/slack/src/error.rs. Slack/Message is message.rs, Slack/Client client.rs (Response: what an
--     answer means), Slack/Blocks render/blocks.rs, Slack/Vars render/view.rs, Slack/Render render/mod.rs.
--   Worker: crates/app/src/delivery.rs, and `apply` of worker.rs. Worker/Views is what messages are
--     rendered from (crates/slack/src/render/view.rs, client.rs), Worker/Delivery the execution of an op,
--     Worker/Drain the loops of worker.rs, Worker/Limits ratelimit.rs.
--   Server: crates/app/src. Server/Auth is auth.rs, Server/Webhook http.rs, Server/Cli cli.rs,
--     Server/Config config.rs (Durations: its durations), Server/Replay replay.rs.
--   Relay: the steps of all parts on the one database, in any order; Relay/Deliver is a worker's step.
--   Tests: runs at concrete inputs.
--
-- How the code is modelled. The newtypes over text are texts. An instant is its nanoseconds since the
-- least one, a `TimeDelta` a signed number of nanoseconds; the range of chrono is not bounded, but
-- for the durations of the settings. A table is the list of its rows in the order of insertion, a
-- statement a function on it, a transaction their composition; `BEGIN IMMEDIATE` lets transactions run one after the other. A column that holds the name
-- of an enum is that member or another text; a payload is a stored op or one that does not decode. Errors
-- of the store that the code raises are values of `Result`, and an error leaves the tables as they were.
-- Counters (attempts, members) are natural numbers; `saturating_add` on the members of a delta is
-- bounded as in the code. Every loop runs over a list or a text, so no function can run out of fuel but one:
-- Base/Lines prints a number by twenty digits, which are all that a `u64` has. The tasks of a worker's
-- channels are a relation that lets them take turns in any order. A request that runs out of time is
-- dropped before or after its transaction is committed, and a replay reads one database and revives
-- in another, which other transactions have made of it since.
--
-- Parameters: the text of an error, `checked_mul` and `from_std` (derived or library code), Slack's answers,
-- and for the delivery also the renderer and the answers of the rate limits; serde's reading of a body;
-- reqwest's transport and URLs; the template engine and the built-in templates; the formats of an instant;
-- `f64`, with the laws that a proof uses as a hypothesis. `may_end` (Store/Tracked/Queue) says which
-- effects end which ops, as far as the store's promise depends on it: the step of a completion in Relay asks
-- for it, for an op that is in the queue. `ends` (Worker/Delivery/Fits) is the exact table of a worker.
--
-- Not modelled: failures of the database itself, JSON, the statements of the Postgres store that are
-- SQLite's, the layers of the settings and the files they name, what axum refuses
-- by itself, metrics but those gauges, logs, tasks and signals, and the mock of Slack.
pub mod Base
pub mod Core
pub mod Store
pub mod Relay
pub mod Slack
pub mod Worker
pub mod Server
pub mod Tests
