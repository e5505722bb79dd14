-- ===== src/Store/Tracked/Delivery.antt =====
-- `ingest` of crates/store/src/sqlite.rs with `plan` of crates/core/src/plan.rs as its decision, as
-- crates/app/src/http.rs composes them, and the promise of Store/Tracked.antt. Also `prune`.
use alertthread.Base.{
  ℕ, ◌≡◌, subst, inl, inr, Bool, true, false, not, ◌&&◌, ◌||◌, Option, List, [], ◌∷◌, ◌++◌, arith,
  eq_iff, str_eq, if◌then◌else◌, Bool-cases, any,
}
use alertthread.Base.Table.{any-append, All-delete_where}
use alertthread.Core.Ids.{Fingerprint, ChannelId}
use alertthread.Core.Policy.{Policy}
use alertthread.Core.Domain.{AlertBatch, ClaimOutcome, GroupState, Placement, Op, Plan}
use alertthread.Core.Plan.{placement_of, plan}
use alertthread.Core.Plan.Spec.{ops_for, expected_ops, expected_opening, expected_closing, plan-ops}
use alertthread.Store.Model.{RetentionPolicy, ok, bind-ok}
use alertthread.Store.Row.{AlertRow, stamp}
use alertthread.Store.Sql.{Db, Outbox, enqueue}
use alertthread.Store.Ingest.{claim_all, persist_ops, is_post_group, persist, ingest}
use alertthread.Store.Retention.{prune}
use alertthread.Store.Tracked.{has_live_post, has_parked_post, AllBacked, IsTracked, AllBacked-mono}
use alertthread.Store.Tracked.Claims.{newly_claimed, claim_all-AllBacked}
use alertthread.Store.Tracked.Queue.{enqueue_live, enqueue_parked, enqueue-post}

-- The op is a post of the alert.
abbrev is_post_op : Fingerprint → ChannelId → Op → Bool
is_post_op fp chan (Op.post f c placement) = str_eq f fp && str_eq c chan
is_post_op fp chan _ = false

module _ (now : ℕ) (fp : Fingerprint) (chan : ChannelId) where
  persist_ops-live :
      (opened : Bool) (ops : List Op) (o : Outbox)
      → has_live_post o.rows fp chan ≡ true
      → has_live_post (persist_ops opened ops now o).1.rows fp chan ≡ true
  unfolding persist_ops
  persist_ops-live opened [] o h = h
  persist_ops-live opened (op ∷ rest) o h =
      persist_ops-live opened rest _ (ground (arith, enqueue_live op now o fp chan h))

  persist_ops-parked :
      (opened : Bool) (ops : List Op) (o : Outbox)
      → has_parked_post o.rows fp chan ≡ true
      → has_parked_post (persist_ops opened ops now o).1.rows fp chan ≡ true
  unfolding persist_ops
  persist_ops-parked opened [] o h = h
  persist_ops-parked opened (op ∷ rest) o h =
      persist_ops-parked opened rest _ (ground (arith, enqueue_parked op now o fp chan h))

  post_enqueued :
      (opened : Bool) (op : Op) (o : Outbox)
      → is_post_op fp chan op ≡ true
      → has_live_post (if is_post_group op && not opened then o else enqueue op now o).rows fp chan
        ≡ true
  post_enqueued opened (Op.post f c placement) o h =
      ground (arith, enqueue-post f c placement now o, eq_iff f fp, eq_iff c chan)
  post_enqueued opened (Op.post_group key c members) o h = absurd (ground arith)
  post_enqueued opened (Op.refresh f c ts) o h = absurd (ground arith)
  post_enqueued opened (Op.resolve f c target update reply) o h = absurd (ground arith)
  post_enqueued opened (Op.post_orphan_resolved f c) o h = absurd (ground arith)
  post_enqueued opened (Op.refresh_group key c ts) o h = absurd (ground arith)

  -- The posts of a plan are written: only the post of a group can be dropped.
  persist_ops-post :
      (opened : Bool) (ops : List Op) (o : Outbox)
      → any (is_post_op fp chan) ops ≡ true
      → has_live_post (persist_ops opened ops now o).1.rows fp chan ≡ true
  unfolding persist_ops
  persist_ops-post opened [] o h = cc
  persist_ops-post opened (op ∷ rest) o h = elim (Bool-cases (is_post_op fp chan op)) [
    | inl here ↦ persist_ops-live opened rest _ (post_enqueued opened op o here)
    | inr later ↦ persist_ops-post opened rest _ (ground arith)
  ]

-- Every fresh claim has its post among the ops of the table.
expected_ops-posts :
    (batch : AlertBatch) (policy : Policy) (placement : Placement) (now : ℕ)
    (outcomes : List ClaimOutcome) (fp : Fingerprint) (chan : ChannelId)
    → newly_claimed batch.channel outcomes fp chan ≡ true
    → any (is_post_op fp chan) (expected_ops batch policy placement now outcomes) ≡ true
expected_ops-posts batch policy placement now [] fp chan h = cc
expected_ops-posts batch policy placement now (o ∷ rest) fp chan h = ground (
  arith,
  any-append (is_post_op fp chan) (ops_for batch policy placement now o)
      (expected_ops batch policy placement now rest),
  expected_ops-posts batch policy placement now rest fp chan,
)

plan-posts :
    (outcomes : List ClaimOutcome) (batch : AlertBatch) (group : Option GroupState)
    (policy : Policy) (now : ℕ) (fp : Fingerprint) (chan : ChannelId)
    → newly_claimed batch.channel outcomes fp chan ≡ true
    → any (is_post_op fp chan) (plan outcomes batch group policy now).ops ≡ true
plan-posts outcomes batch group policy now fp chan h =
    let first = expected_opening outcomes batch group policy now in
    let middle =
      expected_ops batch policy (placement_of outcomes batch group policy) now outcomes in
    let last = expected_closing outcomes batch group policy now in
    ground (
      arith,
      plan-ops outcomes batch group policy now,
      any-append (is_post_op fp chan) first (middle ++ last),
      any-append (is_post_op fp chan) middle last,
      expected_ops-posts batch policy (placement_of outcomes batch group policy) now outcomes fp
          chan h,
    )

written :
    (here : ChannelId) (outcomes : List ClaimOutcome) (opened : Bool) (ops : List Op) (now : ℕ)
    (o : Outbox) (alerts : List AlertRow)
    → ((fp : Fingerprint) (chan : ChannelId)
        → newly_claimed here outcomes fp chan ≡ true
        → any (is_post_op fp chan) ops ≡ true)
    → AllBacked
        (λ fp chan. has_live_post o.rows fp chan || newly_claimed here outcomes fp chan)
        (has_parked_post o.rows)
        alerts
    → AllBacked
        (has_live_post (persist_ops opened ops now o).1.rows)
        (has_parked_post (persist_ops opened ops now o).1.rows)
        alerts
written here outcomes opened ops now o alerts posts h =
    let after = (persist_ops opened ops now o).1.rows in
    AllBacked-mono (λ fp chan. has_live_post o.rows fp chan || newly_claimed here outcomes fp chan)
      (has_parked_post o.rows) (has_live_post after) (has_parked_post after) alerts
      (λ fp chan e. ground (
        arith,
        persist_ops-live now fp chan opened ops o,
        persist_ops-post now fp chan opened ops o,
        posts fp chan,
      ))
      (λ fp chan. persist_ops-parked now fp chan opened ops o) h

persist-IsTracked :
    (batch : AlertBatch) (policy : Policy) (at : ℕ) (db : Db) (outcomes : List ClaimOutcome)
    (alerts : List AlertRow)
    → AllBacked
        (λ fp chan.
          has_live_post db.outbox.rows fp chan || newly_claimed batch.channel outcomes fp chan)
        (has_parked_post db.outbox.rows)
        alerts
    → IsTracked
        (persist batch
          (stamp at)
          (λ os group. plan os batch group policy at)
          db
          (outcomes, alerts)).1
unfolding persist
persist-IsTracked batch policy at db outcomes alerts h =
    written batch.channel outcomes _ _ (stamp at) db.outbox alerts
      (λ fp chan. plan-posts outcomes batch _ policy at fp chan) h

-- A delivery keeps the promise: every alert that it claims has its post in the outbox when the
-- transaction commits.
pub ingest-IsTracked :
    (batch : AlertBatch) (policy : Policy) (at : ℕ) (db db' : Db) (p : Plan)
    → ingest batch at (λ outcomes group. plan outcomes batch group policy at) db ≡ ok (p, db')
    → IsTracked db
    → IsTracked db'
unfolding ingest
ingest-IsTracked batch policy at db db' p e h =
    let (found, claim, rest) =
      bind-ok (claim_all batch (stamp at) batch.alerts db.alerts) _ (p, db') e in
    subst IsTracked
      {x = (persist batch (stamp at) (λ os group. plan os batch group policy at) db found).1}
      {y = db'} (ground arith)
      (persist-IsTracked batch policy at db found.0 found.1 (
        claim_all-AllBacked (has_live_post db.outbox.rows) (has_parked_post db.outbox.rows) batch
          (stamp at) batch.alerts db.alerts found.0 found.1 claim h))

-- Pruning keeps the promise.
pub prune-IsTracked :
    (retention : RetentionPolicy) (at : ℕ) (db : Db)
    → IsTracked db
    → IsTracked (prune retention at db).1
unfolding prune
prune-IsTracked retention at db h = All-delete_where _ _ _ (All-delete_where _ _ db.alerts h)
