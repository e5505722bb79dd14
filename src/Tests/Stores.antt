-- ===== src/Tests/Stores.antt =====
-- Runs of the store, from the empty database to the revival of a parked post.
use alertthread.Base.{
  ◌+◌, ◌≡◌, refl, true, false, Option, none, some, List, [], ◌∷◌, arith, length, count_where, any,
  All,
}
use alertthread.Core.Domain.{claimed, already_claimed, Op, Plan}
use alertthread.Core.Webhook.{intent}
use alertthread.Core.Plan.{
  is_claimed, plan, decide_all, opening, placement_of, is_collapsing, is_opening_group, new_posts,
  existing_parent, thread_placement, batch_notices, refresh_parent, note_status, decide,
}
use alertthread.Store.Model.{posted, refreshed, everything, Result, ok, err, no_such_op}
use alertthread.Store.Row.{
  known, AlertRow, OutboxRow, resolve_miss, stamp, delta_of, add_op, add_ops,
}
use alertthread.Store.Sql.{
  Db, has_id, is_parked, queued_row, claimed_row, claim_touch, apply_posted, dead_letter_rows,
  mark_alert_failed, has_id_in, lease_rows, claim_insert, claim_probe, mark_resolving_rows,
  insert_group, enqueue,
}
use alertthread.Store.Sql.{defer_rate_limited, defer_backoff, in_scope}
use alertthread.Store.Ingest.{
  claim_firing, claim_all, claim_one, mark_resolving, persist, persist_group, persist_ops, ingest,
}
use alertthread.Store.Payload.{OpKind, store_op}
use alertthread.Store.Ingest.Once.{claim_firing-once}
use alertthread.Store.Outbox.{complete, apply_effect, dead_letter, fail_alert, revive_dead_letters}
use alertthread.Store.Outbox.Lease.{is_due, attempts_of, lease_rows-attempts, lease_rows-post}
use alertthread.Store.Outbox.Once.{complete-once}
use alertthread.Store.Postgres.{lock_ready, update_locked, lease_skipping}
use alertthread.Store.Postgres.Serial.{lease_skipping-serial}
use alertthread.Store.Tracked.{is_post_of, has_live_post, IsTracked}
use alertthread.Store.Tracked.Delivery.{ingest-IsTracked}
use alertthread.Store.Tracked.Complete.{complete-IsTracked}
use alertthread.Store.Tracked.Parking.{dead_letter-IsTracked}
use alertthread.Store.Tracked.Revived.{
  is_fresh, is_saved, claimed_again, revive_dead_letters-Revived,
}
use alertthread.Store.Keys.{WellKeyed}
use alertthread.Store.Tracked.Queue.{may_end}
use alertthread.Base.Table.{select_one, select_where, update_where}
use alertthread.Store.Keys.Preserved.{ingest-WellKeyed}
use alertthread.Relay.{delivered, start, after, IsSound, empty_db, IsReachable-IsSound}
use alertthread.Tests.{firing, storm_batch, eager, db_of, db_or, value_or}

abbrev no_plan : Plan
no_plan = record { ops = []; notices = [] }

abbrev delivery : Result (Plan × Db)
delivery = ingest storm_batch 5 (λ os g. plan os storm_batch g eager 5) empty_db

abbrev pub db1 : Db
db1 = db_of empty_db delivery

test_rows : length db1.outbox.rows ≡ 4
unfolding ingest claim_all claim_one intent claim_firing claim_insert claim_probe mark_resolving
    mark_resolving_rows resolve_miss stamp persist persist_group insert_group persist_ops enqueue
    delta_of add_ops add_op plan decide_all opening placement_of is_collapsing is_opening_group
    new_posts existing_parent thread_placement batch_notices refresh_parent note_status decide
    store_op
test_rows = refl

abbrev plan1 : Plan
plan1 = value_or no_plan delivery

delivery_eq :
    ingest storm_batch 5 (λ os g. plan os storm_batch g eager 5) empty_db ≡ ok (plan1, db1)
unfolding ingest claim_all claim_one intent claim_firing claim_insert claim_probe mark_resolving
    mark_resolving_rows resolve_miss stamp persist persist_group insert_group persist_ops enqueue
    delta_of add_ops add_op plan decide_all opening placement_of is_collapsing is_opening_group
    new_posts existing_parent thread_placement batch_notices refresh_parent note_status decide
    store_op
delivery_eq = refl

ingest-IsTracked_example : IsTracked db1
ingest-IsTracked_example = ingest-IsTracked storm_batch eager 5 empty_db db1 plan1 delivery_eq tt

empty-WellKeyed : WellKeyed empty_db
empty-WellKeyed = record { alert_keys = tt; group_keys = tt; ids = omega arith }

ingest-WellKeyed_example : WellKeyed db1
ingest-WellKeyed_example =
    ingest-WellKeyed storm_batch 5 (λ os g. plan os storm_batch g eager 5) empty_db db1 plan1
      delivery_eq empty-WellKeyed

tracked1 : IsTracked db1
tracked1 = ingest-IsTracked storm_batch eager 5 empty_db db1 plan1 delivery_eq tt

keyed1 : WellKeyed db1
keyed1 =
    ingest-WellKeyed storm_batch 5 (λ os g. plan os storm_batch g eager 5) empty_db db1 plan1
      delivery_eq empty-WellKeyed

IsReachable-IsSound_example : IsSound db1
IsReachable-IsSound_example =
    IsReachable-IsSound db1
      (after empty_db db1 start (delivered storm_batch eager 5 plan1 delivery_eq))

lease_skipping-serial_example :
    (lease_skipping "w1" 100 6 1 [] db1.outbox.rows ≡ lease_rows "w1" 100 6 1 db1.outbox.rows)
    × ((lease_skipping "w2" 200 50 10 (lock_ready 6 1 [] db1.outbox.rows) db1.outbox.rows).0
        ≡ (lease_rows "w2" 200 50 10 (lease_rows "w1" 100 6 1 db1.outbox.rows).1).0)
    × (update_locked "w1" 100
          (lock_ready 6 1 [] db1.outbox.rows)
          (lease_skipping "w2" 200 50 10 (lock_ready 6 1 [] db1.outbox.rows) db1.outbox.rows).1
        ≡ (lease_rows "w2" 200 50 10 (lease_rows "w1" 100 6 1 db1.outbox.rows).1).1)
lease_skipping-serial_example =
    lease_skipping-serial "w1" "w2" 100 200 6 50 1 10 db1.outbox.rows (omega arith)

due1 : All (λ r. is_due 6 r ≡ true) db1.outbox.rows
unfolding ingest claim_all claim_one intent claim_firing claim_insert claim_probe mark_resolving
    mark_resolving_rows resolve_miss stamp persist persist_group insert_group persist_ops enqueue
    delta_of add_ops add_op plan decide_all opening placement_of is_collapsing is_opening_group
    new_posts existing_parent thread_placement batch_notices refresh_parent note_status decide
    store_op
due1 = (refl, (refl, (refl, (refl, tt))))

live1 : has_live_post db1.outbox.rows "fp1" "C1" ≡ true
unfolding ingest claim_all claim_one intent claim_firing claim_insert claim_probe mark_resolving
    mark_resolving_rows resolve_miss stamp persist persist_group insert_group persist_ops enqueue
    delta_of add_ops add_op plan decide_all opening placement_of is_collapsing is_opening_group
    new_posts existing_parent thread_placement batch_notices refresh_parent note_status decide
    store_op
live1 = refl

lease_rows-post_example :
    any (is_post_of "fp1" "C1") (lease_rows "w1" 100 6 10 db1.outbox.rows).0 ≡ true
lease_rows-post_example =
    lease_rows-post "w1" 100 6 10 db1.outbox.rows "fp1" "C1" due1 (omega (arith, test_rows)) live1

-- The post of the first alert, whose id is 2.
abbrev row_or : OutboxRow → Option OutboxRow → OutboxRow
row_or d none = d
row_or d (some r) = r

abbrev no_row : OutboxRow
no_row = queued_row 0 (Op.post_orphan_resolved "" "") 0

abbrev pub row2 : OutboxRow
row2 = row_or no_row (select_one (has_id 2) db1.outbox.rows)

pub found2 : select_one (has_id 2) db1.outbox.rows ≡ some row2
unfolding ingest claim_all claim_one intent claim_firing claim_insert claim_probe mark_resolving
    mark_resolving_rows resolve_miss stamp persist persist_group insert_group persist_ops enqueue
    delta_of add_ops add_op plan decide_all opening placement_of is_collapsing is_opening_group
    new_posts existing_parent thread_placement batch_notices refresh_parent note_status decide
    store_op
found2 = refl

pub fits2 :
    (is_parked row2 ≡ false)
    × (may_end (posted "1.2" none) row2.op ≡ true)
    × (row2.op ≡ known OpKind.post)
unfolding ingest claim_all claim_one intent claim_firing claim_insert claim_probe mark_resolving
    mark_resolving_rows resolve_miss stamp persist persist_group insert_group persist_ops enqueue
    delta_of add_ops add_op plan decide_all opening placement_of is_collapsing is_opening_group
    new_posts existing_parent thread_placement batch_notices refresh_parent note_status decide
    store_op
fits2 = (refl, refl, refl)

abbrev pub db2 : Db
db2 = db_or db1 (complete 2 (posted "1.2" none) 7 db1)

pub completed2 : complete 2 (posted "1.2" none) 7 db1 ≡ ok db2
unfolding ingest claim_all claim_one intent claim_firing claim_insert claim_probe mark_resolving
    mark_resolving_rows resolve_miss stamp persist persist_group insert_group persist_ops enqueue
    delta_of add_ops add_op plan decide_all opening placement_of is_collapsing is_opening_group
    new_posts existing_parent thread_placement batch_notices refresh_parent note_status decide
    store_op complete apply_effect apply_posted
completed2 = refl

complete-IsTracked_example : IsTracked db2
complete-IsTracked_example =
    complete-IsTracked 2 (posted "1.2" none) 7 db1 db2 row2 keyed1.ids found2 fits2.0 fits2.1
      completed2 tracked1

complete-once_example : complete 2 refreshed 8 db2 ≡ err (no_such_op 2)
complete-once_example =
    complete-once 2 (posted "1.2" none) refreshed 7 8 db1 db2 keyed1.ids completed2

abbrev db3 : Db
db3 = db_or db1 (dead_letter 2 "invalid_auth" 8 db1)

parked3 : dead_letter 2 "invalid_auth" 8 db1 ≡ ok db3
unfolding ingest claim_all claim_one intent claim_firing claim_insert claim_probe mark_resolving
    mark_resolving_rows resolve_miss stamp persist persist_group insert_group persist_ops enqueue
    delta_of add_ops add_op plan decide_all opening placement_of is_collapsing is_opening_group
    new_posts existing_parent thread_placement batch_notices refresh_parent note_status decide
    store_op dead_letter dead_letter_rows fail_alert mark_alert_failed
parked3 = refl

dead_letter-IsTracked_example : IsTracked db3
dead_letter-IsTracked_example =
    dead_letter-IsTracked 2 "invalid_auth" 8 db1 db3 keyed1.ids parked3 tracked1

tracked3 : IsTracked db3
tracked3 = dead_letter-IsTracked 2 "invalid_auth" 8 db1 db3 keyed1.ids parked3 tracked1

revive_dead_letters-Revived_example :
    IsTracked (revive_dead_letters everything 9 db3).1
    × All (λ r. in_scope everything r ≡ false) (revive_dead_letters everything 9 db3).1.outbox.rows
    × (count_where (is_fresh (stamp 9)) (revive_dead_letters everything 9 db3).1.outbox.rows
        ≡ count_where (is_fresh (stamp 9)) db3.outbox.rows
          + length (select_where (in_scope everything) db3.outbox.rows))
    × ((revive_dead_letters everything 9 db3).1.alerts
        ≡ update_where
            (is_saved (select_where (in_scope everything) db3.outbox.rows))
            claimed_again
            db3.alerts)
revive_dead_letters-Revived_example = revive_dead_letters-Revived everything 9 db3 tracked3

abbrev rows1 : List AlertRow
rows1 = claimed_row "fp1" "C1" "g1" 3 [] [] ∷ []

first_claim : claim_firing firing "C1" "g1" 3 [] ≡ ok (claimed, rows1)
unfolding ingest claim_all claim_one intent claim_firing claim_insert claim_probe mark_resolving
    mark_resolving_rows resolve_miss stamp persist persist_group insert_group persist_ops enqueue
    delta_of add_ops add_op plan decide_all opening placement_of is_collapsing is_opening_group
    new_posts existing_parent thread_placement batch_notices refresh_parent note_status decide
    store_op
first_claim = refl

abbrev rows2 : List AlertRow
rows2 = claimed_row "fp1" "C1" "g1" 3 [] [] ∷ []

second_claim : claim_firing firing "C1" "g1" 3 rows1 ≡ ok (already_claimed, rows2)
unfolding ingest claim_all claim_one intent claim_firing claim_insert claim_probe mark_resolving
    mark_resolving_rows resolve_miss stamp persist persist_group insert_group persist_ops enqueue
    delta_of add_ops add_op plan decide_all opening placement_of is_collapsing is_opening_group
    new_posts existing_parent thread_placement batch_notices refresh_parent note_status decide
    store_op claim_touch
second_claim = refl

claim_firing-once_example : is_claimed already_claimed ≡ false
claim_firing-once_example =
    claim_firing-once firing firing "C1" "g1" "g1" 3 3 [] rows1 rows2 claimed already_claimed refl
      first_claim second_claim

given2 : has_id_in (lease_rows "w1" 100 6 2 db1.outbox.rows).0 row2 ≡ true
unfolding ingest claim_all claim_one intent claim_firing claim_insert claim_probe mark_resolving
    mark_resolving_rows resolve_miss stamp persist persist_group insert_group persist_ops enqueue
    delta_of add_ops add_op plan decide_all opening placement_of is_collapsing is_opening_group
    new_posts existing_parent thread_placement batch_notices refresh_parent note_status decide
    store_op lease_rows
given2 = refl

lease_rows-attempts_example :
    (attempts_of 2 (defer_rate_limited 60 2 (lease_rows "w1" 100 6 2 db1.outbox.rows).1)
      ≡ some row2.attempts)
    × (attempts_of 2 (defer_backoff 60 "503" 2 (lease_rows "w1" 100 6 2 db1.outbox.rows).1)
        ≡ some (row2.attempts + 1))
lease_rows-attempts_example =
    lease_rows-attempts "w1" 100 6 2 60 "503" db1.outbox.rows 2 row2 found2 given2
