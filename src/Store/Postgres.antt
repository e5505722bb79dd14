-- ===== src/Store/Postgres.antt =====
-- crates/store/src/postgres.rs: its lease, the one statement that lets workers run at once. `FOR UPDATE SKIP
-- LOCKED` locks the rows that it selects and passes over those that another transaction has locked.
pub mod Serial
use alertthread.Base.{ℕ, List, not, ◌&&◌, take}
use alertthread.Base.Int.{ℤ, shift}
use alertthread.Base.Table.{select_where, update_where}
use alertthread.Store.Model.{WorkerId, LeasedOp, Result}
use alertthread.Store.Row.{OutboxRow, stamp, leased}
use alertthread.Store.Sql.{Db, is_ready, has_id_in, leased_row}
use alertthread.Store.Outbox.{with_rows}

-- The subquery of LEASE: the rows that it selects and locks, where others have locked those of `held`.
unfoldable pub lock_ready : ℕ → ℕ → List OutboxRow → List OutboxRow → List OutboxRow
lock_ready now limit held rows =
    take limit (select_where (λ r. is_ready now r && not (has_id_in held r)) rows)

-- What the update does to the rows that are locked.
unfoldable pub update_locked : WorkerId → ℕ → List OutboxRow → List OutboxRow → List OutboxRow
update_locked worker until locked rows =
    update_where (has_id_in locked) (leased_row worker until) rows

-- LEASE, with the rows that it returns.
unfoldable pub lease_skipping :
    WorkerId → ℕ → ℕ → ℕ → List OutboxRow → List OutboxRow → List OutboxRow × List OutboxRow
unfolding lock_ready update_locked
lease_skipping worker until now limit held rows =
    let locked = lock_ready now limit held rows in
    let after = update_locked worker until locked rows in
    (select_where (has_id_in locked) after, after)

-- `lease_batch`, while other transactions have locked the rows of `held`.
unfoldable pub lease_batch_skipping :
    WorkerId → ℕ → ℤ → ℕ → List OutboxRow → Db → Result (List LeasedOp) × Db
unfolding lease_skipping
lease_batch_skipping worker limit lease at held db =
    let now = stamp at in
    let until = stamp (shift now lease) in
    let (rows, after) = lease_skipping worker until now limit held db.outbox.rows in
    (leased rows until, with_rows db after)
