-- ===== src/Store/Tracked/Complete.antt =====
-- `complete` of crates/store/src/sqlite.rs and the promise of Store/Tracked.antt: what a worker did with
-- an op is recorded in the transaction that takes the op's row away.
use alertthread.Base.{
  ℕ, String, ◌≡◌, refl, subst, true, false, not, ◌&&◌, Option, none, some, List, ◌∷◌, ◌++◌, arith,
  eq_iff,
}
use alertthread.Base.Table.{select_one}
use alertthread.Core.Ids.{Fingerprint, ChannelId, GroupKey}
use alertthread.Core.Domain.{Placement, Op}
use alertthread.Store.Model.{
  OpId, OpEffect, posted, group_posted, refreshed, resolved, message_lost, standalone, ok,
}
use alertthread.Store.Row.{AlertRow, OutboxRow, stamp}
use alertthread.Store.Sql.{
  Db, Outbox, is_alert, is_alert?, is_parked, has_id, enqueue, apply_posted, posted_row,
  apply_resolved, resolved_row, is_resolving, apply_message_lost, lost_row,
}
use alertthread.Store.Outbox.{members_of, is_post_kind, with_rows, apply_effect, complete}
use alertthread.Store.Keys.{Rising, select_split}
use alertthread.Store.Tracked.{
  is_post_of, has_live_post, has_parked_post, AllBacked, IsTracked, AllBacked-mono,
  AllBacked-update_where,
}
use alertthread.Store.Tracked.Queue.{may_end, any_drop, enqueue_live, enqueue_parked, enqueue-post}

-- The row `r` leaves the table; it was in the queue.
module _ (xs ys : List OutboxRow) (r : OutboxRow) (live : is_parked r ≡ false) where
  drop_parked :
      (fp : Fingerprint) (chan : ChannelId)
      → has_parked_post (xs ++ r ∷ ys) fp chan ≡ true
      → has_parked_post (xs ++ ys) fp chan ≡ true
  drop_parked fp chan h =
      ground (arith, any_drop (λ x. is_post_of fp chan x && is_parked x) xs ys r)

  drop_live :
      (fp : Fingerprint) (chan : ChannelId)
      → is_post_of fp chan r ≡ false
      → has_live_post (xs ++ r ∷ ys) fp chan ≡ true
      → has_live_post (xs ++ ys) fp chan ≡ true
  drop_live fp chan other h =
      ground (arith, any_drop (λ x. is_post_of fp chan x && not (is_parked x)) xs ys r)

  -- The row is no post of an alert that is not its subject.
  not_post_of :
      (a : AlertRow)
      → is_alert? r.fingerprint r.channel a ≡ false
      → is_post_of a.fingerprint a.channel r ≡ false
  not_post_of a h = go r.fingerprint refl
    where
      go :
          (f : Option Fingerprint)
          → r.fingerprint ≡ f
          → is_post_of a.fingerprint a.channel r ≡ false
      go none e = ground arith
      go (some fp) e = ground (
        arith,
        eq_iff fp a.fingerprint,
        eq_iff a.fingerprint fp,
        eq_iff r.channel a.channel,
        eq_iff a.channel r.channel,
      )

  -- The promise before, and after, for what the effect does to the alerts.
  abbrev Before : List AlertRow → Type 0
  Before = AllBacked (has_live_post (xs ++ r ∷ ys)) (has_parked_post (xs ++ r ∷ ys))

  abbrev After : List AlertRow → Type 0
  After = AllBacked (has_live_post (xs ++ ys)) (has_parked_post (xs ++ ys))

  posted-After :
      (ts : String) (parent : Option String) (alerts : List AlertRow)
      → Before alerts
      → After (apply_posted ts parent r.fingerprint r.channel alerts)
  unfolding apply_posted
  posted-After ts parent alerts h =
      AllBacked-update_where (has_live_post (xs ++ r ∷ ys)) (has_parked_post (xs ++ r ∷ ys))
        (has_live_post (xs ++ ys)) (has_parked_post (xs ++ ys)) alerts
        (is_alert? r.fingerprint r.channel) (posted_row ts parent) h
        (λ a hit e. ground (arith, drop_parked a.fingerprint a.channel))
        (λ a miss e. ground (
          arith,
          drop_parked a.fingerprint a.channel,
          drop_live a.fingerprint a.channel (not_post_of a miss),
        ))

  -- An op that is no post takes no post away.
  no_post-After :
      (alerts : List AlertRow)
      → ((fp : Fingerprint) (chan : ChannelId) → is_post_of fp chan r ≡ false)
      → Before alerts
      → After alerts
  no_post-After alerts other h =
      AllBacked-mono (has_live_post (xs ++ r ∷ ys)) (has_parked_post (xs ++ r ∷ ys))
        (has_live_post (xs ++ ys)) (has_parked_post (xs ++ ys)) alerts
        (λ fp chan. drop_live fp chan (other fp chan)) drop_parked h

  resolved-After :
      (now : ℕ) (alerts : List AlertRow)
      → After alerts
      → After (apply_resolved now r.fingerprint r.channel alerts)
  unfolding apply_resolved
  resolved-After now alerts h =
      AllBacked-update_where (has_live_post (xs ++ ys)) (has_parked_post (xs ++ ys))
        (has_live_post (xs ++ ys)) (has_parked_post (xs ++ ys)) alerts
        (λ x. is_alert? r.fingerprint r.channel x && is_resolving x.state) (resolved_row now) h
        (λ a hit e. refl) (λ a miss e. e)

  lost-After :
      (fp : Fingerprint) (now last : ℕ) (alerts : List AlertRow)
      → r.fingerprint ≡ some fp
      → Before alerts
      → let o =
          enqueue
            (Op.post fp r.channel Placement.channel)
            now
            (record { rows = xs ++ ys; last_id = last }) in
        AllBacked
          (has_live_post o.rows)
          (has_parked_post o.rows)
          (apply_message_lost fp r.channel alerts)
  unfolding apply_message_lost
  lost-After fp now last alerts subject h =
      let left : Outbox = record { rows = xs ++ ys; last_id = last } in
      let op = Op.post fp r.channel Placement.channel in
      let o = enqueue op now left in
      AllBacked-update_where (has_live_post (xs ++ r ∷ ys)) (has_parked_post (xs ++ r ∷ ys))
        (has_live_post o.rows) (has_parked_post o.rows) alerts (is_alert fp r.channel) lost_row h
        (λ a hit e. ground (
          arith,
          enqueue-post fp r.channel Placement.channel now left,
          eq_iff a.fingerprint fp,
          eq_iff a.channel r.channel,
        ))
        (λ a miss e. ground (
          arith,
          enqueue_live op now left a.fingerprint a.channel,
          enqueue_parked op now left a.fingerprint a.channel,
          drop_parked a.fingerprint a.channel,
          drop_live a.fingerprint a.channel (not_post_of a (rw subject miss)),
        ))

  abbrev left_db : Db → Db
  left_db db = with_rows db (xs ++ ys)

  -- With no alert as its subject, the row is no post.
  subjectless :
      r.fingerprint ≡ none → (fp : Fingerprint) (chan : ChannelId) → is_post_of fp chan r ≡ false
  subjectless e fp chan = ground arith

  lost-IsTracked :
      (f : Option Fingerprint) (k : Option GroupKey) (now : ℕ) (db : Db)
      → r.fingerprint ≡ f
      → Before db.alerts
      → IsTracked (apply_effect message_lost r.channel f k now (left_db db))
  unfolding apply_effect
  lost-IsTracked (some fp) k now db e h = lost-After fp now db.outbox.last_id db.alerts e h
  lost-IsTracked none (some key) now db e h =
      let left = (left_db db).outbox in
      let op = Op.post_group key r.channel (members_of key r.channel db.groups) in
      let o = enqueue op now left in
      AllBacked-mono (has_live_post left.rows) (has_parked_post left.rows) (has_live_post o.rows)
        (has_parked_post o.rows) db.alerts (enqueue_live op now left) (enqueue_parked op now left)
        (no_post-After db.alerts (subjectless e) h)
  lost-IsTracked none none now db e h = no_post-After db.alerts (subjectless e) h

  no_post :
      (effect : OpEffect)
      → not (is_post_kind r.op) ≡ true
      → (fp : Fingerprint) (chan : ChannelId) → is_post_of fp chan r ≡ false
  no_post effect e fp chan = ground arith

  effect-IsTracked :
      (effect : OpEffect) (now : ℕ) (db : Db)
      → may_end effect r.op ≡ true
      → Before db.alerts
      → IsTracked (apply_effect effect r.channel r.fingerprint r.group_key now (left_db db))
  unfolding apply_effect
  effect-IsTracked (posted ts parent) now db e h = posted-After ts parent db.alerts h
  effect-IsTracked message_lost now db e h = lost-IsTracked r.fingerprint r.group_key now db refl h
  effect-IsTracked (group_posted ts) now db e h =
      no_post-After db.alerts (no_post (group_posted ts) e) h
  effect-IsTracked refreshed now db e h = no_post-After db.alerts (no_post refreshed e) h
  effect-IsTracked standalone now db e h = no_post-After db.alerts (no_post standalone e) h
  effect-IsTracked resolved now db e h =
      resolved-After now db.alerts (no_post-After db.alerts (no_post resolved e) h)

-- A completion keeps the promise, for a row that is in the queue and an effect that may end its op.
pub complete-IsTracked :
    (id : OpId) (effect : OpEffect) (at : ℕ) (db db' : Db) (r : OutboxRow)
    → Rising 0 db.outbox.last_id db.outbox.rows
    → select_one (has_id id) db.outbox.rows ≡ some r
    → is_parked r ≡ false
    → may_end effect r.op ≡ true
    → complete id effect at db ≡ ok db'
    → IsTracked db
    → IsTracked db'
unfolding complete
complete-IsTracked id effect at db db' r rising found live fits e h =
    let (xs, ys, p, d, u) =
      select_split 0 db.outbox.last_id id (λ x. x) db.outbox.rows r rising found in
    subst IsTracked
      {x = apply_effect effect r.channel r.fingerprint r.group_key (stamp at)
        (left_db xs ys r live db)}
      {y = db'} (ground arith)
      (effect-IsTracked xs ys r live effect (stamp at) db fits
        (subst (λ rows. AllBacked (has_live_post rows) (has_parked_post rows) db.alerts) p h))
