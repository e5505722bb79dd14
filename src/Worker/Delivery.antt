-- ===== src/Worker/Delivery.antt =====
-- `Delivery` of crates/app/src/delivery.rs: an op is executed against the store's state and Slack, and
-- its outcome is the worker's to record. The renderer, the answers of Slack and those of the rate limits
-- are parameters, and so is every text that a macro derives; the result also lists the calls of Slack. The
-- reads of one execution see one state of the store.
pub mod Fits
pub mod Ends
pub mod Exhausted
use alertthread.Base.{
  ℕ, ◌+◌, String, Bool, true, false, not, ◌&&◌, Option, none, some, List, [], ◌∷◌, ◌++◌,
  if◌then◌else◌, is_some,
}
use alertthread.Base.Int.{ℤ}
use alertthread.Base.Text.{joined}
use alertthread.Core.Ids.{Fingerprint, ChannelId, MessageTs, GroupKey, ThreadTs}
use alertthread.Core.Domain.{Placement, ResolveTarget, Op}
use alertthread.Store.Model.{
  OpEffect, posted, group_posted, refreshed, resolved, standalone, AlertState, AlertRecord,
  LeasedOp, Result, ok, ◌>>=◌,
}
use alertthread.Store.Sql.{Db}
use alertthread.Store.Query.{alert, group, group_membership}
use alertthread.Slack.{SlackError}
use alertthread.Worker.{
  Outcome, done, wait, retry, dead_letter_op, Backoff, exhausted, delay, classify,
}
use alertthread.Worker.Views.{
  RenderRequest, Call, post_message, update_message, view_of, resolved_view, group_view,
  orphan_view, missing_row,
}

-- Granted, or not before an instant.
pub data Permit : Type 0 where
  granted : Permit
  not_before : (until : ℕ) → Permit

-- Slack's answer to a post holds the timestamp of the message; that to an update holds nothing.
pub data Reply : Type 0 where
  accepted : (ts : MessageTs) → Reply
  refused : (error : SlackError) → Reply

pub record World (Body : Type 0) : Type 0 where
  pub backoff : Backoff
  pub checked_mul : ℤ → ℕ → Option ℤ
  pub from_std : ℕ → Option ℕ
  pub to_string : SlackError → String
  pub with_attempts : SlackError → ℕ → String
  pub render : RenderRequest → ℕ → Body
  pub permit_post : ChannelId → ℕ → Permit
  pub permit_update : ℕ → Permit
  pub slack : Call Body → Reply

module _ {Body : Type 0} (w : World Body) where
  abbrev pub Run : Type 0
  Run = Outcome × List (Call Body)

  abbrev quiet : Outcome → Run
  quiet o = (o, [])

  unfoldable pub failed : SlackError → ℕ → ℕ → Outcome
  unfolding classify
  failed error attempts now =
      classify w.checked_mul w.from_std w.to_string w.with_attempts w.backoff error attempts now

  -- The post of a message, with the effect that its timestamp gives.
  unfoldable pub send : ChannelId → Body → Option ThreadTs → ℕ → ℕ → (MessageTs → OpEffect) → Run
  send chan body thread attempts now effect = elim (w.permit_post chan now) [
    | not_before until ↦ quiet (wait until)
    | granted ↦
        let call = post_message chan body thread false in
        elim (w.slack call) [
          | accepted ts ↦ (done (effect ts), call ∷ [])
          | refused error ↦ (failed error attempts now, call ∷ [])
        ]
  ]

  unfoldable pub edit : ChannelId → MessageTs → Body → ℕ → ℕ → OpEffect → Run
  edit chan ts body attempts now effect = elim (w.permit_update now) [
    | not_before until ↦ quiet (wait until)
    | granted ↦
        let call = update_message chan ts body in
        elim (w.slack call) [
          | accepted _ ↦ (done effect, call ∷ [])
          | refused error ↦ (failed error attempts now, call ∷ [])
        ]
  ]

  -- The inner result of `thread_parent`: a parent or none, or an outcome at once.
  pub data Parent : Type 0 where
    under : (parent : Option ThreadTs) → Parent
    not_yet : (outcome : Outcome) → Parent

  -- What the group's row says of the parent, if the plan did not know it.
  unfoldable pub landed_parent : LeasedOp → GroupKey → Option ThreadTs → ℕ → Parent
  landed_parent leased key (some parent) now = under (some parent)
  landed_parent leased key none now =
      if exhausted w.backoff leased.attempts
      then under none
      else not_yet (
          retry (now + delay w.checked_mul w.backoff leased.attempts)
            (joined ("waiting for the group summary for " ∷ key ∷ " to post" ∷ [])))

  unfoldable pub thread_parent : LeasedOp → GroupKey → ChannelId → Option ThreadTs → ℕ → Db → Parent
  unfolding group
  thread_parent leased key chan (some parent) now db = under (some parent)
  thread_parent leased key chan none now db =
      landed_parent leased key (elim (group key chan db) [ none ↦ none | some g ↦ g.message_ts ])
        now

  unfoldable pub parent_of : LeasedOp → ChannelId → Placement → ℕ → Db → Parent
  parent_of leased chan Placement.channel now db = under none
  parent_of leased chan (Placement.thread key parent_ts) now db =
      thread_parent leased key chan parent_ts now db

  -- Firing or resolved, by whether the alert has resolved by now.
  abbrev pub request_of : AlertRecord → RenderRequest
  request_of r =
      if is_some r.resolved_at
      then RenderRequest.resolved (view_of r)
      else RenderRequest.firing (view_of r)

  unfoldable pub post_record : LeasedOp → ChannelId → Parent → ℕ → AlertRecord → Run
  unfolding send
  post_record leased chan (not_yet o) now r = quiet o
  post_record leased chan (under parent) now r =
      send chan (w.render (request_of r) now) parent leased.attempts now (λ ts. posted ts parent)

  unfoldable pub post : LeasedOp → Fingerprint → ChannelId → Placement → ℕ → Db → Result Run
  unfolding alert
  post leased fp chan placement now db = do
    found ← alert fp chan db
    ok (elim found [
      | none ↦ quiet (missing_row fp chan "post")
      | some r ↦ post_record leased chan (parent_of leased chan placement now db) now r
    ])

  unfoldable pub post_group : LeasedOp → GroupKey → ChannelId → ℕ → ℕ → Db → Run
  unfolding group group_membership
  post_group leased key chan initial_members now db =
      let view =
        group_view key (group key chan db) (group_membership key chan db) initial_members in
      send chan (w.render (RenderRequest.group_summary view) now) none leased.attempts now
        group_posted

  unfoldable pub post_orphan : LeasedOp → Fingerprint → ChannelId → ℕ → Run
  post_orphan leased fp chan now =
      send chan (w.render (RenderRequest.resolved (orphan_view fp leased.created_at)) now) none
        leased.attempts now (λ ts. standalone)

  unfoldable pub refresh : LeasedOp → Fingerprint → ChannelId → MessageTs → ℕ → Db → Result Run
  unfolding alert
  refresh leased fp chan ts now db = do
    found ← alert fp chan db
    ok (elim found [
      | none ↦ quiet (done refreshed)
      | some r ↦ edit chan ts (w.render (request_of r) now) leased.attempts now refreshed
    ])

  unfoldable pub refresh_group : LeasedOp → GroupKey → ChannelId → ThreadTs → ℕ → Db → Run
  refresh_group leased key chan ts now db =
      let view = group_view key (group key chan db) (group_membership key chan db) 0 in
      edit chan ts (w.render (RenderRequest.group_summary view) now) leased.attempts now refreshed

  -- `record.is_none_or(|row| row.state == AlertState::Failed)`
  abbrev pub is_hopeless : Option AlertRecord → Bool
  is_hopeless none = true
  is_hopeless (some r) = elim r.state [ AlertState.failed ↦ true | _ ↦ false ]

  unfoldable pub resolve_without_a_message : LeasedOp → Option AlertRecord → ChannelId → ℕ → Run
  resolve_without_a_message leased found chan now =
      if not (is_hopeless found) && not (exhausted w.backoff leased.attempts)
      then quiet (
          retry (now + delay w.checked_mul w.backoff leased.attempts)
            "waiting for the alert's own post to land")
      else elim found [
        | none ↦ quiet (
            dead_letter_op "alert_row_missing"
              "a resolution whose alert row is gone has nothing to render")
        | some r ↦
            send chan (w.render (RenderRequest.resolved (resolved_view r now)) now) none
              leased.attempts now (λ ts. resolved)
      ]

  abbrev pub landed_of : ResolveTarget → Option AlertRecord → Option MessageTs
  landed_of (ResolveTarget.message ts _) found = some ts
  landed_of ResolveTarget.awaiting_post none = none
  landed_of ResolveTarget.awaiting_post (some r) = r.message_ts

  -- The reply in the thread, behind the edit if there was one.
  unfoldable pub reply : LeasedOp → AlertRecord → ChannelId → MessageTs → Bool → ℕ → Run
  reply leased r chan ts thread_reply now =
      if thread_reply
      then send chan (w.render (RenderRequest.thread_reply (resolved_view r now)) now) (some ts)
          leased.attempts now (λ _. resolved)
      else quiet (done resolved)

  abbrev is_resolved_done : Outcome → Bool
  is_resolved_done (done resolved) = true
  is_resolved_done _ = false

  unfoldable pub resolve_message :
      LeasedOp → AlertRecord → ChannelId → MessageTs → Bool → Bool → ℕ → Run
  resolve_message leased r chan ts update_in_place thread_reply now =
      let body = w.render (RenderRequest.resolved (resolved_view r now)) now in
      let (edited, calls) = edit chan ts body leased.attempts now resolved in
      let (replied, more) = reply leased r chan ts thread_reply now in
      if update_in_place
      then (if is_resolved_done edited then (replied, calls ++ more) else (edited, calls))
      else (replied, more)

  unfoldable pub resolve :
      LeasedOp → Fingerprint → ChannelId → ResolveTarget → Bool → Bool → ℕ → Db → Result Run
  resolve leased fp chan target update_in_place thread_reply now db = do
    found ← alert fp chan db
    ok (elim (landed_of target found) [
      | none ↦ resolve_without_a_message leased found chan now
      | some ts ↦ elim found [
        | none ↦ quiet (missing_row fp chan "resolve")
        | some r ↦ resolve_message leased r chan ts update_in_place thread_reply now
      ]
    ])

  unfoldable pub run : LeasedOp → ℕ → Db → Result Run
  run leased now db = elim leased.op [
    | Op.post fp chan placement ↦ post leased fp chan placement now db
    | Op.post_group key chan members ↦ ok (post_group leased key chan members now db)
    | Op.refresh fp chan ts ↦ refresh leased fp chan ts now db
    | Op.refresh_group key chan ts ↦ ok (refresh_group leased key chan ts now db)
    | Op.resolve fp chan target update reply_too ↦
        resolve leased fp chan target update reply_too now db
    | Op.post_orphan_resolved fp chan ↦ ok (post_orphan leased fp chan now)
  ]
