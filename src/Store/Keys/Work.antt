-- ===== src/Store/Keys/Work.antt =====
-- The keys of the tables of crates/store/migrations/sqlite under what a worker and an operator do, the
-- methods of crates/store/src/sqlite.rs but `ingest`.
use alertthread.Base.{
  ℕ, String, ◌≡◌, refl, subst, inl, inr, Bool, ◌&&◌, Option, none, some, List, [], ◌∷◌, arith,
  Bool-cases, any,
}
use alertthread.Base.Table.{
  select_where, update_where, delete_where, Keyed-update_where, Keyed-delete_where,
}
use alertthread.Base.Int.{ℤ}
use alertthread.Core.Ids.{Fingerprint, ChannelId, GroupKey}
use alertthread.Core.Domain.{Placement, Op}
use alertthread.Store.Model.{
  OpId, WorkerId, OpEffect, posted, group_posted, refreshed, resolved, message_lost, standalone,
  Deferral, rate_limited, backoff, DeadLetterScope, RetentionPolicy, ok,
}
use alertthread.Store.Row.{AlertRow, GroupRow, OutboxRow, stamp}
use alertthread.Store.Sql.{
  Db, is_alert, is_alert?, is_open, is_failed, has_id, in_scope, enqueue, lease_rows, leased_row,
  dead_letter_rows, parked_row, rate_limited_row, backoff_row, revive_rows, revived_row,
  apply_posted, posted_row, apply_resolved, resolved_row, apply_message_lost, lost_row,
  mark_alert_failed, failed_row, unmark_alert_failed, unfailed_row, apply_group_posted,
  apply_group_message_lost,
}
use alertthread.Store.Outbox.{
  with_rows, lease_batch, members_of, is_post_kind, apply_effect, complete, defer, fail_alert,
  dead_letter, unmark_all, revive_dead_letters,
}
use alertthread.Store.Retention.{prune}
use alertthread.Store.Keys.{
  same_alert, same_group, WellKeyed, Rising-update_where, Rising-delete_where,
}
use alertthread.Base.Table.{select_one}
use alertthread.Store.Keys.Preserved.{AlertKeys, GroupKeys, update_alerts, enqueue-Ids}

alerts-WellKeyed :
    (db : Db) (alerts : List AlertRow)
    → AlertKeys alerts
    → WellKeyed db
    → WellKeyed (record db { alerts = alerts })
alerts-WellKeyed db alerts a k = record { alert_keys = a; group_keys = k.group_keys; ids = k.ids }

update_rows-WellKeyed :
    (db : Db) (q : OutboxRow → Bool) (f : OutboxRow → OutboxRow)
    → ((r : OutboxRow) → (f r).id ≡ r.id)
    → WellKeyed db
    → WellKeyed (with_rows db (update_where q f db.outbox.rows))
update_rows-WellKeyed db q f same k = record {
  alert_keys = k.alert_keys;
  group_keys = k.group_keys;
  ids = Rising-update_where 0 db.outbox.last_id q f db.outbox.rows same k.ids;
}

-- A lease keeps the keys.
pub lease_batch-WellKeyed :
    (worker : WorkerId) (limit : ℕ) (lease : ℤ) (at : ℕ) (db : Db)
    → WellKeyed db
    → WellKeyed (lease_batch worker limit lease at db).1
unfolding lease_batch lease_rows
lease_batch-WellKeyed worker limit lease at db k =
    update_rows-WellKeyed db _ (leased_row worker _) (λ r. refl) k

lost_alert-WellKeyed :
    (db : Db) (fp : Fingerprint) (chan : ChannelId) (op : Op) (now : ℕ)
    → WellKeyed db
    → WellKeyed (record db {
      alerts = apply_message_lost fp chan db.alerts;
      outbox = enqueue op now db.outbox;
    })
unfolding apply_message_lost
lost_alert-WellKeyed db fp chan op now k = record {
  alert_keys = update_alerts _ lost_row db.alerts (λ x y. refl) (λ x y. refl) k.alert_keys;
  group_keys = k.group_keys;
  ids = enqueue-Ids op now db.outbox k.ids;
}

lost_group-WellKeyed :
    (db : Db) (key : GroupKey) (chan : ChannelId) (op : Op) (now : ℕ)
    → WellKeyed db
    → WellKeyed (record db {
      groups = apply_group_message_lost key chan db.groups;
      outbox = enqueue op now db.outbox;
    })
unfolding apply_group_message_lost
lost_group-WellKeyed db key chan op now k = record {
  alert_keys = k.alert_keys;
  group_keys = Keyed-update_where same_group _ _ db.groups (λ x y. refl) (λ x y. refl) k.group_keys;
  ids = enqueue-Ids op now db.outbox k.ids;
}

posted_group-GroupKeys :
    (ts : String) (key : Option GroupKey) (chan : ChannelId) (rows : List GroupRow)
    → GroupKeys rows
    → GroupKeys (apply_group_posted ts key chan rows)
unfolding apply_group_posted
posted_group-GroupKeys ts none chan rows k = k
posted_group-GroupKeys ts (some key) chan rows k =
    Keyed-update_where same_group _ _ rows (λ x y. refl) (λ x y. refl) k

effect-WellKeyed :
    (effect : OpEffect) (chan : ChannelId) (f : Option Fingerprint) (key : Option GroupKey)
    (now : ℕ) (db : Db)
    → WellKeyed db
    → WellKeyed (apply_effect effect chan f key now db)
unfolding apply_effect
effect-WellKeyed (posted ts parent) chan f key now db k =
    alerts-WellKeyed db (apply_posted ts parent f chan db.alerts)
      (unfold apply_posted in
        update_alerts (is_alert? f chan) (posted_row ts parent) db.alerts (λ x y. refl)
          (λ x y. refl) k.alert_keys)
      k
effect-WellKeyed (group_posted ts) chan f key now db k = record {
  alert_keys = k.alert_keys;
  group_keys = posted_group-GroupKeys ts key chan db.groups k.group_keys;
  ids = k.ids;
}
effect-WellKeyed resolved chan f key now db k =
    alerts-WellKeyed db (apply_resolved now f chan db.alerts)
      (unfold apply_resolved in
        update_alerts _ (resolved_row now) db.alerts (λ x y. refl) (λ x y. refl) k.alert_keys)
      k
effect-WellKeyed message_lost chan (some fp) key now db k =
    lost_alert-WellKeyed db fp chan (Op.post fp chan Placement.channel) now k
effect-WellKeyed message_lost chan none (some key) now db k =
    lost_group-WellKeyed db key chan (Op.post_group key chan (members_of key chan db.groups)) now k
effect-WellKeyed message_lost chan none none now db k = k
effect-WellKeyed refreshed chan f key now db k = k
effect-WellKeyed standalone chan f key now db k = k

-- A completion keeps the keys.
pub complete-WellKeyed :
    (id : OpId) (effect : OpEffect) (at : ℕ) (db db' : Db)
    → complete id effect at db ≡ ok db'
    → WellKeyed db
    → WellKeyed db'
unfolding complete
complete-WellKeyed id effect at db db' e k = go (select_one (has_id id) db.outbox.rows) refl
  where
    go : (found : Option OutboxRow) → select_one (has_id id) db.outbox.rows ≡ found → WellKeyed db'
    go none missing = absurd (ground arith)
    go (some r) hit =
        let left : Db = with_rows db (delete_where (has_id id) db.outbox.rows) in
        subst WellKeyed
          {x = apply_effect effect r.channel r.fingerprint r.group_key (stamp at) left} {y = db'}
          (ground arith)
          (effect-WellKeyed effect r.channel r.fingerprint r.group_key (stamp at) left (record {
            alert_keys = k.alert_keys;
            group_keys = k.group_keys;
            ids = Rising-delete_where 0 db.outbox.last_id (has_id id) db.outbox.rows k.ids;
          }))

-- A deferral keeps the keys.
pub defer-WellKeyed :
    (id : OpId) (deferral : Deferral) (db db' : Db)
    → defer id deferral db ≡ ok db'
    → WellKeyed db
    → WellKeyed db'
unfolding defer
defer-WellKeyed id (rate_limited until) db db' e k =
    elim (Bool-cases (any (has_id id) db.outbox.rows)) [
      | inl found ↦
          subst WellKeyed
            {x = with_rows db
              (update_where (has_id id) (rate_limited_row (stamp until)) db.outbox.rows)}
            {y = db'} (ground arith)
            (update_rows-WellKeyed db (has_id id) (rate_limited_row (stamp until)) (λ r. refl) k)
      | inr missing ↦ absurd (ground arith)
    ]
defer-WellKeyed id (backoff until error) db db' e k =
    elim (Bool-cases (any (has_id id) db.outbox.rows)) [
      | inl found ↦
          subst WellKeyed
            {x = with_rows db
              (update_where (has_id id) (backoff_row (stamp until) error) db.outbox.rows)}
            {y = db'} (ground arith)
            (update_rows-WellKeyed db (has_id id) (backoff_row (stamp until) error) (λ r. refl) k)
      | inr missing ↦ absurd (ground arith)
    ]

fail_alert-AlertKeys :
    (r : OutboxRow) (alerts : List AlertRow) → AlertKeys alerts → AlertKeys (fail_alert r alerts)
unfolding fail_alert mark_alert_failed
fail_alert-AlertKeys r alerts k = go r.fingerprint refl
  where
    go : (f : Option Fingerprint) → r.fingerprint ≡ f → AlertKeys (fail_alert r alerts)
    go none e = subst AlertKeys {x = alerts} {y = fail_alert r alerts} (ground arith) k
    go (some fp) e = elim (Bool-cases (is_post_kind r.op)) [
      | inl post ↦
          rw (e, post)
            (update_alerts (λ x. is_alert fp r.channel x && is_open x.state) failed_row alerts
              (λ x y. refl) (λ x y. refl) k)
      | inr other ↦ subst AlertKeys {x = alerts} {y = fail_alert r alerts} (ground arith) k
    ]

-- Parking an op keeps the keys.
pub dead_letter-WellKeyed :
    (id : OpId) (reason : String) (at : ℕ) (db db' : Db)
    → dead_letter id reason at db ≡ ok db'
    → WellKeyed db
    → WellKeyed db'
unfolding dead_letter dead_letter_rows
dead_letter-WellKeyed id reason at db db' e k = go (select_one (has_id id) db.outbox.rows) refl
  where
    go : (found : Option OutboxRow) → select_one (has_id id) db.outbox.rows ≡ found → WellKeyed db'
    go none missing = absurd (ground arith)
    go (some r) hit =
        let parked : Db =
          with_rows db (update_where (has_id id) (parked_row (stamp at) reason) db.outbox.rows) in
        subst WellKeyed {x = record parked { alerts = fail_alert r db.alerts }} {y = db'}
          (ground arith)
          (alerts-WellKeyed parked (fail_alert r db.alerts)
            (fail_alert-AlertKeys r db.alerts k.alert_keys)
            (update_rows-WellKeyed db (has_id id) (parked_row (stamp at) reason) (λ x. refl) k))

unmark_all-AlertKeys :
    (rows : List OutboxRow) (alerts : List AlertRow)
    → AlertKeys alerts
    → AlertKeys (unmark_all rows alerts)
unfolding unmark_all unmark_alert_failed
unmark_all-AlertKeys [] alerts k = k
unmark_all-AlertKeys (r ∷ rest) alerts k = unmark_all-AlertKeys rest _ (one r.fingerprint)
  where
    one :
        (f : Option Fingerprint)
        → AlertKeys (elim f [ none ↦ alerts | some fp ↦ unmark_alert_failed fp r.channel alerts ])
    one none = k
    one (some fp) =
        update_alerts (λ x. is_alert fp r.channel x && is_failed x.state) unfailed_row alerts
          (λ x y. refl) (λ x y. refl) k

-- Reviving dead letters keeps the keys.
pub revive_dead_letters-WellKeyed :
    (scope : DeadLetterScope) (at : ℕ) (db : Db)
    → WellKeyed db
    → WellKeyed (revive_dead_letters scope at db).1
unfolding revive_dead_letters revive_rows
revive_dead_letters-WellKeyed scope at db k = record {
  alert_keys =
      unmark_all-AlertKeys (select_where (in_scope scope) db.outbox.rows) db.alerts k.alert_keys;
  group_keys = k.group_keys;
  ids =
      Rising-update_where 0 db.outbox.last_id (in_scope scope) (revived_row (stamp at))
        db.outbox.rows (λ r. refl) k.ids;
}

-- Pruning keeps the keys.
pub prune-WellKeyed :
    (retention : RetentionPolicy) (at : ℕ) (db : Db)
    → WellKeyed db
    → WellKeyed (prune retention at db).1
unfolding prune
prune-WellKeyed retention at db k = record {
  alert_keys =
      Keyed-delete_where same_alert _ _ (Keyed-delete_where same_alert _ db.alerts k.alert_keys);
  group_keys = Keyed-delete_where same_group _ db.groups k.group_keys;
  ids = k.ids;
}
