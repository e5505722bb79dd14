-- ===== src/Store/Outbox.antt =====
-- crates/store/src/sqlite.rs: what a worker does with the outbox. Each method is one transaction.
pub mod Lease
pub mod Once
use alertthread.Base.{
  ℕ, String, Bool, true, false, Option, none, some, List, [], ◌∷◌, if◌then◌else◌, length, any,
}
use alertthread.Base.Int.{ℤ, shift}
use alertthread.Base.Table.{select_one, select_where, delete_where}
use alertthread.Core.Ids.{Fingerprint, ChannelId, GroupKey}
use alertthread.Core.Domain.{Placement, Op}
use alertthread.Store.Payload.{OpKind}
use alertthread.Store.Model.{
  OpId, WorkerId, OpEffect, posted, group_posted, refreshed, resolved, message_lost, standalone,
  Deferral, rate_limited, backoff, LeasedOp, DeadLetterScope, Result, ok, err, no_such_op,
}
use alertthread.Store.Row.{GroupRow, Named, known, AlertRow, OutboxRow, stamp, leased}
use alertthread.Store.Sql.{
  Db, has_id, lease_rows, apply_posted, apply_group_posted, apply_resolved, apply_message_lost,
  select_group_members, apply_group_message_lost, enqueue, defer_rate_limited, defer_backoff,
  dead_letter_rows, mark_alert_failed, in_scope, revive_rows, unmark_alert_failed,
}

abbrev pub with_rows : Db → List OutboxRow → Db
with_rows db rows = record db { outbox = record { rows = rows; last_id = db.outbox.last_id } }

-- The lease is committed before the rows are decoded: an error leaves them leased.
unfoldable pub lease_batch : WorkerId → ℕ → ℤ → ℕ → Db → Result (List LeasedOp) × Db
lease_batch worker limit lease at db =
    let now = stamp at in
    let until = stamp (shift now lease) in
    let (rows, after) = lease_rows worker until now limit db.outbox.rows in
    (leased rows until, with_rows db after)

-- A message of an alert is gone: forget it, and queue a fresh post at the top level.
lose_alert : Fingerprint → ChannelId → ℕ → Db → Db
unfolding apply_message_lost enqueue
lose_alert fp chan now db = record db {
  alerts = apply_message_lost fp chan db.alerts;
  outbox = enqueue (Op.post fp chan Placement.channel) now db.outbox;
}

unfoldable pub members_of : GroupKey → ChannelId → List GroupRow → ℕ
unfolding select_group_members
members_of key chan groups = elim (select_group_members key chan groups) [ none ↦ 0 | some n ↦ n ]

-- A group's parent is gone: forget it, and queue a fresh one for the members that it has.
lose_group : GroupKey → ChannelId → ℕ → Db → Db
unfolding members_of apply_group_message_lost enqueue
lose_group key chan now db =
    let members = members_of key chan db.groups in
    record db {
      groups = apply_group_message_lost key chan db.groups;
      outbox = enqueue (Op.post_group key chan members) now db.outbox;
    }

-- The match on the effect, for the subject of the row that was deleted.
unfoldable pub apply_effect :
    OpEffect → ChannelId → Option Fingerprint → Option GroupKey → ℕ → Db → Db
unfolding apply_posted apply_group_posted apply_resolved lose_alert lose_group
apply_effect (posted ts parent) chan fp key now db = record db {
  alerts = apply_posted ts parent fp chan db.alerts;
}
apply_effect (group_posted ts) chan fp key now db = record db {
  groups = apply_group_posted ts key chan db.groups;
}
apply_effect resolved chan fp key now db = record db {
  alerts = apply_resolved now fp chan db.alerts;
}
apply_effect message_lost chan (some fp) key now db = lose_alert fp chan now db
apply_effect message_lost chan none (some key) now db = lose_group key chan now db
apply_effect message_lost chan none none now db = db
apply_effect refreshed chan fp key now db = db
apply_effect standalone chan fp key now db = db

-- `complete`, with the row that COMPLETE_DELETE returns looked up before it is deleted.
unfoldable pub complete : OpId → OpEffect → ℕ → Db → Result Db
complete id effect at db = elim (select_one (has_id id) db.outbox.rows) [
  | none ↦ err (no_such_op id)
  | some r ↦ ok (
      apply_effect effect r.channel r.fingerprint r.group_key (stamp at)
        (with_rows db (delete_where (has_id id) db.outbox.rows)))
]

deferred_rows : Deferral → OpId → List OutboxRow → List OutboxRow
unfolding defer_rate_limited defer_backoff
deferred_rows (rate_limited until) id rows = defer_rate_limited (stamp until) id rows
deferred_rows (backoff until error) id rows = defer_backoff (stamp until) error id rows

unfoldable pub defer : OpId → Deferral → Db → Result Db
unfolding deferred_rows
defer id deferral db =
    if any (has_id id) db.outbox.rows
    then ok (with_rows db (deferred_rows deferral id db.outbox.rows))
    else err (no_such_op id)

-- kind == OpKind::Post.as_str()
abbrev pub is_post_kind : Named OpKind → Bool
is_post_kind (known OpKind.post) = true
is_post_kind _ = false

-- Only the loss of an alert's first message marks the alert.
unfoldable pub fail_alert : OutboxRow → List AlertRow → List AlertRow
unfolding mark_alert_failed
fail_alert r alerts = elim r.fingerprint [
  | none ↦ alerts
  | some fp ↦ if is_post_kind r.op then mark_alert_failed fp r.channel alerts else alerts
]

unfoldable pub dead_letter : OpId → String → ℕ → Db → Result Db
dead_letter id reason at db = elim (select_one (has_id id) db.outbox.rows) [
  | none ↦ err (no_such_op id)
  | some r ↦ ok (record db {
    alerts = fail_alert r db.alerts;
    outbox = record {
      rows = dead_letter_rows (stamp at) reason id db.outbox.rows;
      last_id = db.outbox.last_id;
    };
  })
]

-- The loop over the rows that REVIVE_DEAD_LETTERS returned.
unfoldable pub unmark_all : List OutboxRow → List AlertRow → List AlertRow
unfolding unmark_alert_failed
unmark_all [] alerts = alerts
unmark_all (r ∷ rest) alerts =
    unmark_all rest
      (elim r.fingerprint [ none ↦ alerts | some fp ↦ unmark_alert_failed fp r.channel alerts ])

unfoldable pub revive_dead_letters : DeadLetterScope → ℕ → Db → ℕ × Db
revive_dead_letters scope at db =
    let revived = select_where (in_scope scope) db.outbox.rows in
    (
      length revived,
      record db {
        alerts = unmark_all revived db.alerts;
        outbox = record {
          rows = revive_rows (stamp at) scope db.outbox.rows;
          last_id = db.outbox.last_id;
        };
      },
    )
