-- ===== src/Worker/Delivery/Exhausted.antt =====
-- `Delivery::run` of crates/app/src/delivery.rs for an op that has used up its attempts.
use alertthread.Base.{ℕ, ◌≡◌, refl, Bool, true, false, List, arith}
use alertthread.Core.Domain.{Op}
use alertthread.Store.Payload.{kind_of}
use alertthread.Store.Model.{LeasedOp, Result, ok, err}
use alertthread.Store.Sql.{Db}
use alertthread.Store.Query.{alert}
use alertthread.Worker.{Outcome, retry, exhausted}
use alertthread.Worker.Views.{Call}
use alertthread.Worker.Delivery.{World, Run, post, refresh, resolve, run}
use alertthread.Worker.Delivery.Fits.{RunFits, run-RunFits}

abbrev pub is_read : {A : Type 0} → Result A → Bool
is_read (ok a) = true
is_read (err e) = false

-- The row of the alert that the op is about, if it looks one up, can be read.
abbrev pub is_readable : Op → Db → Bool
is_readable (Op.post fp chan _) db = is_read (alert fp chan db)
is_readable (Op.refresh fp chan _) db = is_read (alert fp chan db)
is_readable (Op.resolve fp chan _ _ _) db = is_read (alert fp chan db)
is_readable _ db = true

abbrev pub is_retry : Outcome → Bool
is_retry (retry until error) = true
is_retry _ = false

run-is_read :
    {Body : Type 0} (w : World Body) (leased : LeasedOp) (now : ℕ) (db : Db)
    → is_read (run w leased now db) ≡ is_readable leased.op db
unfolding run post refresh resolve
run-is_read w leased now db = ground arith

-- An op that has used up its attempts is not tried again: if the row of its alert can be read, its execution
-- has an outcome, whatever Slack answers, and the outcome ends it, parks it or waits for a rate limit.
pub run-exhausted :
    {Body : Type 0} (w : World Body) (leased : LeasedOp) (now : ℕ) (db : Db)
    → exhausted w.backoff leased.attempts ≡ true
    → is_readable leased.op db ≡ true
    → (o : Outcome) × (calls : List (Call Body)) × (run w leased now db ≡ ok (o, calls))
      × (is_retry o ≡ false)
run-exhausted {Body = Body} w leased now db spent readable =
    go (run w leased now db) refl (run-RunFits w leased now db)
  where
    go :
        (r : Result (Run w))
        → run w leased now db ≡ r
        → RunFits w leased now db (kind_of leased.op) r
        → (o : Outcome) × (calls : List (Call Body)) × (run w leased now db ≡ ok (o, calls))
          × (is_retry o ≡ false)
    go (err x) e h = absurd (ground (arith, run-is_read w leased now db))
    go (ok (o, calls)) e h = (o, calls, e, ground arith)
