-- ===== src/Store/Retention.antt =====
-- crates/store/src/sqlite.rs: `prune`, in one transaction.
use alertthread.Base.{ℕ, count_where}
use alertthread.Base.Int.{shift_back}
use alertthread.Base.Table.{delete_where}
use alertthread.Store.Model.{RetentionPolicy, PruneStats}
use alertthread.Store.Row.{stamp}
use alertthread.Store.Sql.{Db, is_prunable_resolved, is_prunable_stale, is_prunable_group}

unfoldable pub prune : RetentionPolicy → ℕ → Db → PruneStats × Db
prune policy at db =
    let now = stamp at in
    let rows = db.outbox.rows in
    let resolved = is_prunable_resolved (shift_back now policy.resolved_after) rows in
    let kept = delete_where resolved db.alerts in
    let stale = is_prunable_stale (shift_back now policy.stale_after) rows in
    let alerts = delete_where stale kept in
    let empty = is_prunable_group alerts rows in
    (
      record {
        resolved_alerts = count_where resolved db.alerts;
        stale_alerts = count_where stale kept;
        empty_groups = count_where empty db.groups;
      },
      record db { alerts = alerts; groups = delete_where empty db.groups },
    )
