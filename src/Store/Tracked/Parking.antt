-- ===== src/Store/Tracked/Parking.antt =====
-- `dead_letter` of crates/store/src/sqlite.rs and the promise of Store/Tracked.antt: the alert whose post
-- is parked is marked as failed.
use alertthread.Base.{
  ℕ, String, ◌≡◌, refl, subst, ◌⊎◌, inl, inr, true, false, not, ◌&&◌, Option, none, some, List, ◌∷◌,
  ◌++◌, arith, eq_iff, Bool-cases,
}
use alertthread.Base.Table.{select_one, any-append}
use alertthread.Core.Ids.{Fingerprint, ChannelId}
use alertthread.Store.Model.{OpId, ok}
use alertthread.Store.Row.{AlertRow, OutboxRow, stamp}
use alertthread.Store.Sql.{
  Db, is_alert, is_open, is_parked, has_id, dead_letter_rows, parked_row, mark_alert_failed,
  failed_row,
}
use alertthread.Store.Outbox.{is_post_kind, fail_alert, dead_letter}
use alertthread.Store.Keys.{Rising, select_split}
use alertthread.Store.Tracked.{
  is_post_of, has_live_post, has_parked_post, AllBacked, IsTracked, AllBacked-mono,
  AllBacked-update_where,
}
use alertthread.Store.Tracked.Queue.{any_drop}

-- The row `r` stays in its place and is parked.
module _ (xs ys : List OutboxRow) (r : OutboxRow) (now : ℕ) (reason : String) where
  abbrev r' : OutboxRow
  r' = parked_row now reason r

  keep_live :
      (fp : Fingerprint) (chan : ChannelId)
      → is_post_of fp chan r ≡ false
      → has_live_post (xs ++ r ∷ ys) fp chan ≡ true
      → has_live_post (xs ++ r' ∷ ys) fp chan ≡ true
  keep_live fp chan other h = ground (
    arith,
    any_drop (λ x. is_post_of fp chan x && not (is_parked x)) xs ys r,
    any_drop (λ x. is_post_of fp chan x && not (is_parked x)) xs ys r',
  )

  more_parked :
      (fp : Fingerprint) (chan : ChannelId)
      → ((is_post_of fp chan r ≡ true) ⊎ (has_parked_post (xs ++ r ∷ ys) fp chan ≡ true))
      → has_parked_post (xs ++ r' ∷ ys) fp chan ≡ true
  more_parked fp chan h = ground (
    arith,
    any-append (λ x. is_post_of fp chan x && is_parked x) xs (r ∷ ys),
    any-append (λ x. is_post_of fp chan x && is_parked x) xs (r' ∷ ys),
  )

  abbrev Before : List AlertRow → Type 0
  Before = AllBacked (has_live_post (xs ++ r ∷ ys)) (has_parked_post (xs ++ r ∷ ys))

  abbrev After : List AlertRow → Type 0
  After = AllBacked (has_live_post (xs ++ r' ∷ ys)) (has_parked_post (xs ++ r' ∷ ys))

  no_post-After :
      (alerts : List AlertRow)
      → ((fp : Fingerprint) (chan : ChannelId) → is_post_of fp chan r ≡ false)
      → Before alerts
      → After alerts
  no_post-After alerts other h =
      AllBacked-mono (has_live_post (xs ++ r ∷ ys)) (has_parked_post (xs ++ r ∷ ys))
        (has_live_post (xs ++ r' ∷ ys)) (has_parked_post (xs ++ r' ∷ ys)) alerts
        (λ fp chan. keep_live fp chan (other fp chan)) (λ fp chan e. more_parked fp chan (inr e)) h

  post-After :
      (fp : Fingerprint) (alerts : List AlertRow)
      → r.fingerprint ≡ some fp
      → is_post_kind r.op ≡ true
      → Before alerts
      → After (mark_alert_failed fp r.channel alerts)
  unfolding mark_alert_failed
  post-After fp alerts subject kind h =
      AllBacked-update_where (has_live_post (xs ++ r ∷ ys)) (has_parked_post (xs ++ r ∷ ys))
        (has_live_post (xs ++ r' ∷ ys)) (has_parked_post (xs ++ r' ∷ ys)) alerts
        (λ x. is_alert fp r.channel x && is_open x.state) failed_row h
        (λ a hit e. more_parked a.fingerprint a.channel (
          inl (
            ground (
              arith,
              eq_iff fp a.fingerprint,
              eq_iff a.fingerprint fp,
              eq_iff r.channel a.channel,
              eq_iff a.channel r.channel,
            ))))
        (λ a miss e. ground (
          arith,
          more_parked a.fingerprint a.channel,
          keep_live a.fingerprint a.channel,
          eq_iff fp a.fingerprint,
          eq_iff a.fingerprint fp,
          eq_iff r.channel a.channel,
          eq_iff a.channel r.channel,
        ))

  fail-After :
      (f : Option Fingerprint) (alerts : List AlertRow)
      → r.fingerprint ≡ f
      → Before alerts
      → After (fail_alert r alerts)
  unfolding fail_alert
  fail-After none alerts e h =
      subst After {x = alerts} {y = fail_alert r alerts} (ground arith)
        (no_post-After alerts (λ fp chan. ground arith) h)
  fail-After (some fp) alerts e h = elim (Bool-cases (is_post_kind r.op)) [
    | inl kind ↦
        subst After {x = mark_alert_failed fp r.channel alerts} {y = fail_alert r alerts}
          (ground arith) (post-After fp alerts e kind h)
    | inr other ↦
        subst After {x = alerts} {y = fail_alert r alerts} (ground arith)
          (no_post-After alerts (λ fp' chan. ground arith) h)
  ]

-- Parking an op keeps the promise: the alert whose live post is parked is no longer claimed.
pub dead_letter-IsTracked :
    (id : OpId) (reason : String) (at : ℕ) (db db' : Db)
    → Rising 0 db.outbox.last_id db.outbox.rows
    → dead_letter id reason at db ≡ ok db'
    → IsTracked db
    → IsTracked db'
unfolding dead_letter dead_letter_rows
dead_letter-IsTracked id reason at db db' rising e h =
    go (select_one (has_id id) db.outbox.rows) refl
  where
    go : (found : Option OutboxRow) → select_one (has_id id) db.outbox.rows ≡ found → IsTracked db'
    go none missing = absurd (ground arith)
    go (some r) hit =
        let (xs, ys, p, d, u) =
          select_split 0 db.outbox.last_id id (parked_row (stamp at) reason) db.outbox.rows r rising
            hit in
        subst IsTracked
          {x = record db {
            alerts = fail_alert r db.alerts;
            outbox = record {
              rows = xs ++ parked_row (stamp at) reason r ∷ ys;
              last_id = db.outbox.last_id;
            };
          }}
          {y = db'} (ground arith)
          (fail-After xs ys r (stamp at) reason r.fingerprint db.alerts refl
            (subst (λ rows. AllBacked (has_live_post rows) (has_parked_post rows) db.alerts) p h))
