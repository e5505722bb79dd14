-- ===== src/Store/Tracked/Queue.antt =====
-- What the worker's methods of crates/store/src/sqlite.rs do to the promise of Store/Tracked.antt:
-- `lease_batch`, `complete` and `defer`.
use alertthread.Base.{
  ℕ, ◌+◌, ◌≡◌, refl, subst, ◌∙◌, inl, inr, Bool, true, false, not, ◌&&◌, List, [], ◌∷◌, ◌++◌, arith,
  eq_refl, Bool-cases, any,
}
use alertthread.Base.Table.{update_where, any-append, any-update_where}
use alertthread.Base.Int.{ℤ}
use alertthread.Core.Ids.{Fingerprint, ChannelId}
use alertthread.Core.Domain.{Placement, Op}
use alertthread.Store.Payload.{OpKind}
use alertthread.Store.Model.{
  OpId, WorkerId, OpEffect, posted, group_posted, refreshed, resolved, message_lost, standalone,
  Deferral, rate_limited, backoff, ok,
}
use alertthread.Store.Row.{Named, OutboxRow, stamp}
use alertthread.Store.Sql.{
  lease_rows, Db, Outbox, is_parked, has_id, enqueue, queued_row, leased_row, rate_limited_row,
  backoff_row,
}
use alertthread.Store.Outbox.{is_post_kind, with_rows, lease_batch, defer}
use alertthread.Store.Tracked.{
  is_post_of, has_live_post, has_parked_post, IsTracked, AllBacked-mono,
}

-- What the promise asks of an effect: one that posts no alert ends no post of an alert. It is wider than what
-- a worker makes of an op, for which see `ends`.
abbrev pub may_end : OpEffect → Named OpKind → Bool
may_end (posted _ _) kind = true
may_end message_lost kind = true
may_end (group_posted _) kind = not (is_post_kind kind)
may_end refreshed kind = not (is_post_kind kind)
may_end resolved kind = not (is_post_kind kind)
may_end standalone kind = not (is_post_kind kind)

pub any_drop {ℓ} :
    {A : Type ℓ} (p : A → Bool) (xs ys : List A) (r : A)
    → p r ≡ false
    → any p (xs ++ r ∷ ys) ≡ any p (xs ++ ys)
any_drop p [] ys r e = ground arith
any_drop p (x ∷ xs) ys r e = ground (arith, any_drop p xs ys r e)

pub enqueue_live :
    (op : Op) (now : ℕ) (o : Outbox) (fp : Fingerprint) (chan : ChannelId)
    → has_live_post o.rows fp chan ≡ true
    → has_live_post (enqueue op now o).rows fp chan ≡ true
unfolding enqueue
enqueue_live op now o fp chan h = ground (
  arith,
  any-append (λ r. is_post_of fp chan r && not (is_parked r)) o.rows
      (queued_row (o.last_id + 1) op now ∷ []),
)

pub enqueue_parked :
    (op : Op) (now : ℕ) (o : Outbox) (fp : Fingerprint) (chan : ChannelId)
    → has_parked_post o.rows fp chan ≡ true
    → has_parked_post (enqueue op now o).rows fp chan ≡ true
unfolding enqueue
enqueue_parked op now o fp chan h = ground (
  arith,
  any-append (λ r. is_post_of fp chan r && is_parked r) o.rows
      (queued_row (o.last_id + 1) op now ∷ []),
)

pub enqueue-post :
    (fp : Fingerprint) (chan : ChannelId) (placement : Placement) (now : ℕ) (o : Outbox)
    → has_live_post (enqueue (Op.post fp chan placement) now o).rows fp chan ≡ true
unfolding enqueue
enqueue-post fp chan placement now o = ground (
  arith,
  any-append (λ r. is_post_of fp chan r && not (is_parked r)) o.rows
      (queued_row (o.last_id + 1) (Op.post fp chan placement) now ∷ []),
  eq_refl fp,
  eq_refl chan,
)

-- An update of the outbox that leaves the subject of a row and its place in or out of the queue alone.
untouched-IsTracked :
    (db : Db) (q : OutboxRow → Bool) (f : OutboxRow → OutboxRow)
    → ((fp : Fingerprint) (chan : ChannelId) (r : OutboxRow)
        → is_post_of fp chan (f r) ≡ is_post_of fp chan r)
    → ((r : OutboxRow) → is_parked (f r) ≡ is_parked r)
    → IsTracked db
    → IsTracked (with_rows db (update_where q f db.outbox.rows))
untouched-IsTracked db q f post park h =
    AllBacked-mono (has_live_post db.outbox.rows) (has_parked_post db.outbox.rows)
      (has_live_post (update_where q f db.outbox.rows))
      (has_parked_post (update_where q f db.outbox.rows)) db.alerts
      (λ fp chan e.
        any-update_where _ q f db.outbox.rows (λ r. ground (arith, post fp chan r, park r)) ∙ e)
      (λ fp chan e.
        any-update_where _ q f db.outbox.rows (λ r. ground (arith, post fp chan r, park r)) ∙ e)
      h

-- A lease keeps the promise: it takes no row out of the queue.
pub lease_batch-IsTracked :
    (worker : WorkerId) (limit : ℕ) (lease : ℤ) (at : ℕ) (db : Db)
    → IsTracked db
    → IsTracked (lease_batch worker limit lease at db).1
unfolding lease_batch lease_rows
lease_batch-IsTracked worker limit lease at db h =
    untouched-IsTracked db _ (leased_row worker _) (λ fp chan r. refl) (λ r. refl) h

-- A deferral keeps the promise.
pub defer-IsTracked :
    (id : OpId) (deferral : Deferral) (db db' : Db)
    → defer id deferral db ≡ ok db'
    → IsTracked db
    → IsTracked db'
unfolding defer
defer-IsTracked id (rate_limited until) db db' e h =
    elim (Bool-cases (any (has_id id) db.outbox.rows)) [
      | inl found ↦
          subst IsTracked
            {x = with_rows db
              (update_where (has_id id) (rate_limited_row (stamp until)) db.outbox.rows)}
            {y = db'} (ground arith)
            (untouched-IsTracked db (has_id id) (rate_limited_row (stamp until)) (λ fp chan r. refl)
              (λ r. refl) h)
      | inr missing ↦ absurd (ground arith)
    ]
defer-IsTracked id (backoff until error) db db' e h =
    elim (Bool-cases (any (has_id id) db.outbox.rows)) [
      | inl found ↦
          subst IsTracked
            {x = with_rows db
              (update_where (has_id id) (backoff_row (stamp until) error) db.outbox.rows)}
            {y = db'} (ground arith)
            (untouched-IsTracked db (has_id id) (backoff_row (stamp until) error)
              (λ fp chan r. refl) (λ r. refl) h)
      | inr missing ↦ absurd (ground arith)
    ]
