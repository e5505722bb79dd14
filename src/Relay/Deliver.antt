-- ===== src/Relay/Deliver.antt =====
-- `deliver` of crates/app/src/worker.rs: the execution of a leased op and the record of its outcome, as a
-- step of the relay. The store may have changed between the reads of the execution and the record.
use alertthread.Base.{ℕ, ◌≡◌, sym, subst, false, true, some, List, arith}
use alertthread.Base.Table.{select_one}
use alertthread.Store.Payload.{kind_of}
use alertthread.Store.Model.{LeasedOp, ok, bind-ok, rate_limited, backoff}
use alertthread.Store.Row.{known, OutboxRow}
use alertthread.Store.Sql.{Db, is_parked, has_id}
use alertthread.Store.Outbox.{complete, defer, dead_letter}
use alertthread.Store.Tracked.Queue.{may_end}
use alertthread.Worker.{Outcome, done, wait, retry, dead_letter_op, Pass, apply}
use alertthread.Worker.Views.{Call}
use alertthread.Worker.Delivery.{World, run}
use alertthread.Worker.Delivery.Ends.{run-may_end}
use alertthread.Relay.{Step, completed, deferred, parked}

-- What a worker records of an op that is still in the queue is a step of the relay: for every outcome of
-- the execution, whatever Slack answered and whatever state of the store the execution had read.
pub run-apply-Step :
    {Body : Type 0} (w : World Body) (leased : LeasedOp) (now : ℕ) (seen db db' : Db) (o : Outcome)
    (calls : List (Call Body)) (pass : Pass) (row : OutboxRow)
    → run w leased now seen ≡ ok (o, calls)
    → select_one (has_id leased.id) db.outbox.rows ≡ some row
    → is_parked row ≡ false
    → row.op ≡ known (kind_of leased.op)
    → apply leased o now db ≡ ok (pass, db')
    → Step db db'
unfolding apply
run-apply-Step w leased now seen db db' (done effect) calls pass row r found queued kind e =
    let (mid, p, q) = bind-ok (complete leased.id effect now db) _ (pass, db') e in
    completed leased.id effect now
      (record {
        row = row;
        found = found;
        queued = queued;
        fits =
            subst (λ k. may_end effect k ≡ true) (sym kind)
              (run-may_end w leased now seen effect calls r);
      })
      (ground arith)
run-apply-Step w leased now seen db db' (wait until) calls pass row r found queued kind e =
    let (mid, p, q) = bind-ok (defer leased.id (rate_limited until) db) _ (pass, db') e in
    deferred leased.id (rate_limited until) (ground arith)
run-apply-Step w leased now seen db db' (retry until error) calls pass row r found queued kind e =
    let (mid, p, q) = bind-ok (defer leased.id (backoff until error) db) _ (pass, db') e in
    deferred leased.id (backoff until error) (ground arith)
run-apply-Step w leased now seen db db' (dead_letter_op reason detail) calls pass row r found queued
      kind e =
    let (mid, p, q) = bind-ok (dead_letter leased.id detail now db) _ (pass, db') e in
    parked leased.id detail now (ground arith)
