-- ===== src/Store/Sql.antt =====
-- crates/store/src/sqlite.rs, the statements, and the tables of crates/store/migrations/sqlite.
-- A statement is a function on the table that it names; a transaction (`BEGIN IMMEDIATE` to `commit`)
-- is a composition of them. A table is the list of its rows in the order of insertion, which for the
-- outbox is the order of its ids (`AUTOINCREMENT`). A comparison with NULL selects no row.
mod Alerts
mod Groups
mod Queue
use alertthread.Base.{ℕ, Bool, false, not, ◌&&◌, Option, none, some, List, ltb, str_eq, opt_eq, any}
unfoldable pub use Alerts.*
unfoldable pub use Groups.*
unfoldable pub use Queue.*
use alertthread.Store.Row.{AlertRow, GroupRow, OutboxRow}

pub record Db : Type 0 where
  pub alerts : List AlertRow
  pub groups : List GroupRow
  pub outbox : Outbox

-- SELECT 1 FROM outbox o WHERE o.channel = alert.channel AND o.fingerprint = alert.fingerprint
abbrev pub has_work : List OutboxRow → AlertRow → Bool
has_work rows a = any (λ o. str_eq o.channel a.channel && opt_eq o.fingerprint a.fingerprint) rows

abbrev pub before : ℕ → Option ℕ → Bool
before cutoff none = false
before cutoff (some at) = ltb at cutoff

-- PRUNE_RESOLVED, its condition.
abbrev pub is_prunable_resolved : ℕ → List OutboxRow → AlertRow → Bool
is_prunable_resolved cutoff rows a =
    is_resolved a.state && before cutoff a.resolved_at && not (has_work rows a)

-- PRUNE_STALE, its condition.
abbrev pub is_prunable_stale : ℕ → List OutboxRow → AlertRow → Bool
is_prunable_stale cutoff rows a = ltb a.last_seen cutoff && not (has_work rows a)

-- PRUNE_GROUPS, its condition.
abbrev pub is_prunable_group : List AlertRow → List OutboxRow → GroupRow → Bool
is_prunable_group alerts rows g =
    not (any (λ a. str_eq a.channel g.channel && opt_eq a.group_key g.group_key) alerts)
    && not (any (λ o. str_eq o.channel g.channel && opt_eq o.group_key g.group_key) rows)
