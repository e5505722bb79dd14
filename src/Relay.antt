-- ===== src/Relay.antt =====
-- The relay as a whole: the steps that the webhook handler (crates/app/src/http.rs), the workers
-- (crates/app/src/worker.rs), the operator's replay (crates/app/src/replay.rs) and the janitor take on the
-- one database that they share. Each step is one transaction of crates/store/src/sqlite.rs, so a run of
-- the relay is a sequence of them in any order.
pub mod Deliver
use alertthread.Base.{ℕ, String, ◌≡◌, subst, true, false, some, [], arith}
use alertthread.Base.Table.{select_one}
use alertthread.Base.Int.{ℤ}
use alertthread.Core.Policy.{Policy}
use alertthread.Core.Domain.{AlertBatch, Plan}
use alertthread.Core.Plan.{plan}
use alertthread.Store.Model.{
  OpId, WorkerId, OpEffect, Deferral, DeadLetterScope, RetentionPolicy, ok,
}
use alertthread.Store.Row.{OutboxRow}
use alertthread.Store.Sql.{Db, is_parked, has_id}
use alertthread.Store.Ingest.{ingest}
use alertthread.Store.Outbox.{lease_batch, complete, defer, dead_letter, revive_dead_letters}
use alertthread.Store.Retention.{prune}
use alertthread.Store.Keys.{WellKeyed}
use alertthread.Store.Keys.Preserved.{ingest-WellKeyed}
use alertthread.Store.Keys.Work.{
  lease_batch-WellKeyed, complete-WellKeyed, defer-WellKeyed, dead_letter-WellKeyed,
  revive_dead_letters-WellKeyed, prune-WellKeyed,
}
use alertthread.Store.Tracked.{IsTracked}
use alertthread.Store.Tracked.Queue.{may_end, lease_batch-IsTracked, defer-IsTracked}
use alertthread.Store.Tracked.Complete.{complete-IsTracked}
use alertthread.Store.Tracked.Parking.{dead_letter-IsTracked}
use alertthread.Store.Tracked.Reviving.{revive_dead_letters-IsTracked}
use alertthread.Store.Tracked.Delivery.{ingest-IsTracked, prune-IsTracked}

-- A worker completes an op that is in the queue, with an effect that its kind can have.
pub record Completes (id : OpId) (effect : OpEffect) (db : Db) : Type 0 where
  pub row : OutboxRow
  pub found : select_one (has_id id) db.outbox.rows ≡ some row
  pub queued : is_parked row ≡ false
  pub fits : may_end effect row.op ≡ true

pub data Step (db db' : Db) : Type 0 where
  delivered :
      (batch : AlertBatch) (policy : Policy) (at : ℕ) (p : Plan)
      → ingest batch at (λ outcomes group. plan outcomes batch group policy at) db ≡ ok (p, db')
      → Step db db'
  leased :
      (worker : WorkerId) (limit : ℕ) (lease : ℤ) (at : ℕ)
      → (lease_batch worker limit lease at db).1 ≡ db'
      → Step db db'
  completed :
      (id : OpId) (effect : OpEffect) (at : ℕ)
      → Completes id effect db
      → complete id effect at db ≡ ok db'
      → Step db db'
  deferred : (id : OpId) (deferral : Deferral) → defer id deferral db ≡ ok db' → Step db db'
  parked :
      (id : OpId) (reason : String) (at : ℕ) → dead_letter id reason at db ≡ ok db' → Step db db'
  revived :
      (scope : DeadLetterScope) (at : ℕ) → (revive_dead_letters scope at db).1 ≡ db' → Step db db'
  pruned : (retention : RetentionPolicy) (at : ℕ) → (prune retention at db).1 ≡ db' → Step db db'

abbrev pub empty_db : Db
empty_db = record { alerts = []; groups = []; outbox = record { rows = []; last_id = 0 } }

-- The databases that a run reaches.
pub data IsReachable : Db → Type 0 where
  start : IsReachable empty_db
  after : (db db' : Db) → IsReachable db → Step db db' → IsReachable db'

-- What holds of a database between two transactions.
abbrev pub IsSound : Db → Type 0
IsSound db = WellKeyed db × IsTracked db

step-IsSound : (db db' : Db) → Step db db' → IsSound db → IsSound db'
step-IsSound db db' (delivered batch policy at p e) h =
    (ingest-WellKeyed batch at _ db db' p e h.0, ingest-IsTracked batch policy at db db' p e h.1)
step-IsSound db db' (leased worker limit lease at e) h = subst IsSound e (
  lease_batch-WellKeyed worker limit lease at db h.0,
  lease_batch-IsTracked worker limit lease at db h.1,
)
step-IsSound db db' (completed id effect at c e) h = (
  complete-WellKeyed id effect at db db' e h.0,
  complete-IsTracked id effect at db db' c.row h.0.ids c.found c.queued c.fits e h.1,
)
step-IsSound db db' (deferred id deferral e) h =
    (defer-WellKeyed id deferral db db' e h.0, defer-IsTracked id deferral db db' e h.1)
step-IsSound db db' (parked id reason at e) h = (
  dead_letter-WellKeyed id reason at db db' e h.0,
  dead_letter-IsTracked id reason at db db' h.0.ids e h.1,
)
step-IsSound db db' (revived scope at e) h =
    subst IsSound e
      (revive_dead_letters-WellKeyed scope at db h.0, revive_dead_letters-IsTracked scope at db h.1)
step-IsSound db db' (pruned retention at e) h =
    subst IsSound e (prune-WellKeyed retention at db h.0, prune-IsTracked retention at db h.1)

-- Of every database that the relay reaches from the empty one, whatever the order of deliveries, leases,
-- deferrals, parkings, revivals, prunings and completions (of ops in the queue, with an effect of their
-- kind): each alert and each group has one row and each op one id; each claimed alert has a post in the
-- queue, and each failed alert has a post that is parked.
pub IsReachable-IsSound : (db : Db) → IsReachable db → IsSound db
IsReachable-IsSound db start = (record { alert_keys = tt; group_keys = tt; ids = omega arith }, tt)
IsReachable-IsSound db' (after db _ r s) = step-IsSound db db' s (IsReachable-IsSound db r)
