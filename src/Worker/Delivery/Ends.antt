-- ===== src/Worker/Delivery/Ends.antt =====
-- The effect that `Delivery::run` of crates/app/src/delivery.rs ends an op with, and the message behind it.
use alertthread.Base.{
  ℕ, ◌≡◌, refl, subst, Bool, true, false, Option, none, some, List, [], ◌∷◌, arith,
}
use alertthread.Core.Ids.{GroupKey, ChannelId, MessageTs, ThreadTs, Fingerprint}
use alertthread.Core.Domain.{Placement, Op}
use alertthread.Store.Payload.{OpKind, kind_of, channel_of}
use alertthread.Store.Model.{
  OpEffect, posted, group_posted, refreshed, resolved, standalone, message_lost, AlertRecord,
  LeasedOp, Result, ok, err,
}
use alertthread.Store.Row.{known}
use alertthread.Store.Sql.{Db}
use alertthread.Store.Query.{alert}
use alertthread.Store.Tracked.Queue.{may_end}
use alertthread.Slack.{SlackError}
use alertthread.Worker.{Outcome, done, wait, retry, dead_letter_op, classify}
use alertthread.Worker.Views.{Call, post_message, RenderRequest, missing_row}
use alertthread.Worker.Delivery.{
  World, Permit, granted, not_before, Reply, accepted, refused, Run, failed, send, Parent, under,
  not_yet, landed_parent, thread_parent, parent_of, post_record, post, post_group, run, request_of,
}
use alertthread.Worker.Delivery.Fits.{ends, RunFits, run-RunFits}

-- Nothing but the loss of a message.
abbrev is_lost : Outcome → Bool
is_lost (done message_lost) = true
is_lost (done _) = false
is_lost _ = true

module _ {Body : Type 0} (w : World Body) (now : ℕ) where
  -- The one call of an op: a rendered message to a channel, that Slack took under a timestamp.
  abbrev pub Accepted : ChannelId → Option ThreadTs → MessageTs → List (Call Body) → Type 0
  Accepted chan thread ts calls =
      (request : RenderRequest) × (calls
        ≡ post_message chan (w.render request now) thread false ∷ [])
      × (w.slack (post_message chan (w.render request now) thread false) ≡ accepted ts)

  -- What an effect with a timestamp says of the calls.
  abbrev pub Sent : ChannelId → OpEffect → List (Call Body) → Type 0
  Sent chan (posted ts parent) calls = Accepted chan parent ts calls
  Sent chan (group_posted ts) calls = Accepted chan none ts calls
  Sent chan _ calls = Unit

  abbrev SentRun : ChannelId → Run w → Type 0
  SentRun chan (done effect, calls) = Sent chan effect calls
  SentRun chan (wait until, calls) = Unit
  SentRun chan (retry until error, calls) = Unit
  SentRun chan (dead_letter_op reason detail, calls) = Unit

  lost-SentRun :
      (chan : ChannelId) (o : Outcome) (calls : List (Call Body))
      → is_lost o ≡ true
      → SentRun chan (o, calls)
  lost-SentRun chan (done message_lost) calls h = tt
  lost-SentRun chan (done (posted ts parent)) calls h = cc
  lost-SentRun chan (done (group_posted ts)) calls h = cc
  lost-SentRun chan (done refreshed) calls h = tt
  lost-SentRun chan (done resolved) calls h = tt
  lost-SentRun chan (done standalone) calls h = tt
  lost-SentRun chan (wait until) calls h = tt
  lost-SentRun chan (retry until error) calls h = tt
  lost-SentRun chan (dead_letter_op reason detail) calls h = tt

  failed-is_lost :
      (error : SlackError) (attempts : ℕ) → is_lost (failed w error attempts now) ≡ true
  unfolding failed classify
  failed-is_lost error attempts = ground arith

  send-SentRun :
      (chan : ChannelId) (request : RenderRequest) (thread : Option ThreadTs) (attempts : ℕ)
      (effect : MessageTs → OpEffect)
      → ((ts : MessageTs) (calls : List (Call Body))
          → Accepted chan thread ts calls
          → Sent chan (effect ts) calls)
      → SentRun chan (send w chan (w.render request now) thread attempts now effect)
  unfolding send
  send-SentRun chan request thread attempts effect h =
      go (w.permit_post chan now) (w.slack call) refl refl
    where
      call : Call Body
      call = post_message chan (w.render request now) thread false

      go :
          (p : Permit) (r : Reply)
          → w.permit_post chan now ≡ p
          → w.slack call ≡ r
          → SentRun chan (send w chan (w.render request now) thread attempts now effect)
      go (not_before until) r e f =
          subst (SentRun chan) {x = (wait until, [])}
            {y = send w chan (w.render request now) thread attempts now effect} (ground arith) tt
      go granted (accepted ts) e f =
          subst (SentRun chan) {x = (done (effect ts), call ∷ [])}
            {y = send w chan (w.render request now) thread attempts now effect} (ground arith)
            (h ts (call ∷ []) (request, refl, f))
      go granted (refused error) e f =
          subst (SentRun chan) {x = (failed w error attempts now, call ∷ [])}
            {y = send w chan (w.render request now) thread attempts now effect} (ground arith)
            (lost-SentRun chan (failed w error attempts now) (call ∷ [])
              (failed-is_lost error attempts))

-- A kind that posts no message of its own has no effect with a timestamp.
abbrev posts : OpKind → Bool
posts OpKind.post = true
posts OpKind.post_group = true
posts _ = false

module _ {Body : Type 0} (w : World Body) (now : ℕ) where
  unposted-Sent :
      (chan : ChannelId) (effect : OpEffect) (kind : OpKind) (calls : List (Call Body))
      → posts kind ≡ false
      → ends effect kind ≡ true
      → Sent w now chan effect calls
  unposted-Sent chan (posted ts parent) kind calls n h = absurd (ground arith)
  unposted-Sent chan (group_posted ts) kind calls n h = absurd (ground arith)
  unposted-Sent chan refreshed kind calls n h = tt
  unposted-Sent chan resolved kind calls n h = tt
  unposted-Sent chan standalone kind calls n h = tt
  unposted-Sent chan message_lost kind calls n h = tt

  abbrev ResultSent : ChannelId → Result (Run w) → Type 0
  ResultSent chan (ok r) = SentRun w now chan r
  ResultSent chan (err e) = Unit {0}

  landed_parent-is_lost :
      (leased : LeasedOp) (key : GroupKey) (found : Option ThreadTs) (o : Outcome)
      → landed_parent w leased key found now ≡ not_yet o
      → is_lost o ≡ true
  unfolding landed_parent
  landed_parent-is_lost leased key (some parent) o e = absurd (ground arith)
  landed_parent-is_lost leased key none o e = ground arith

  parent_of-is_lost :
      (leased : LeasedOp) (chan : ChannelId) (placement : Placement) (db : Db) (o : Outcome)
      → parent_of w leased chan placement now db ≡ not_yet o
      → is_lost o ≡ true
  unfolding parent_of thread_parent
  parent_of-is_lost leased chan Placement.channel db o e = absurd (ground arith)
  parent_of-is_lost leased chan (Placement.thread key (some parent)) db o e = absurd (ground arith)
  parent_of-is_lost leased chan (Placement.thread key none) db o e =
      landed_parent-is_lost leased key _ o e

  post_record-SentRun :
      (leased : LeasedOp) (chan : ChannelId) (parent : Parent w) (r : AlertRecord)
      → ((o : Outcome) → parent ≡ not_yet o → is_lost o ≡ true)
      → SentRun w now chan (post_record w leased chan parent now r)
  unfolding post_record
  post_record-SentRun leased chan (not_yet o) r h = lost-SentRun w now chan o [] (h o refl)
  post_record-SentRun leased chan (under parent) r h =
      send-SentRun w now chan (request_of w r) parent leased.attempts (λ ts. posted ts parent)
        (λ ts calls a. a)

  post-ResultSent :
      (leased : LeasedOp) (fp : Fingerprint) (chan : ChannelId) (placement : Placement) (db : Db)
      → ResultSent chan (post w leased fp chan placement now db)
  unfolding post missing_row
  post-ResultSent leased fp chan placement db = go (alert fp chan db) refl
    where
      go :
          (found : Result (Option AlertRecord))
          → alert fp chan db ≡ found
          → ResultSent chan (post w leased fp chan placement now db)
      go (err x) e =
          subst (ResultSent chan) {x = err x} {y = post w leased fp chan placement now db}
            (ground arith) tt
      go (ok none) e =
          subst (ResultSent chan) {x = ok (missing_row fp chan "post", [])}
            {y = post w leased fp chan placement now db} (ground arith) tt
      go (ok (some r)) e =
          subst (ResultSent chan)
            {x = ok (post_record w leased chan (parent_of w leased chan placement now db) now r)}
            {y = post w leased fp chan placement now db} (ground arith)
            (post_record-SentRun leased chan (parent_of w leased chan placement now db) r
              (parent_of-is_lost leased chan placement db))

  run-Sent :
      (leased : LeasedOp) (db : Db) (op : Op) (effect : OpEffect) (calls : List (Call Body))
      → leased.op ≡ op
      → run w leased now db ≡ ok (done effect, calls)
      → ends effect (kind_of op) ≡ true
      → Sent w now (channel_of op) effect calls
  unfolding run post_group
  run-Sent leased db (Op.post fp chan placement) effect calls e r h =
      subst (ResultSent chan) {x = post w leased fp chan placement now db}
        {y = ok (done effect, calls)} (ground arith) (post-ResultSent leased fp chan placement db)
  run-Sent leased db (Op.post_group key chan members) effect calls e r h =
      subst (ResultSent chan) {x = ok (post_group w leased key chan members now db)}
        {y = ok (done effect, calls)} (ground arith)
        (send-SentRun w now chan _ none leased.attempts group_posted (λ ts calls a. a))
  run-Sent leased db (Op.refresh fp chan ts) effect calls e r h =
      unposted-Sent chan effect OpKind.refresh calls refl h
  run-Sent leased db (Op.refresh_group key chan ts) effect calls e r h =
      unposted-Sent chan effect OpKind.refresh_group calls refl h
  run-Sent leased db (Op.resolve fp chan target update reply_too) effect calls e r h =
      unposted-Sent chan effect OpKind.resolve calls refl h
  run-Sent leased db (Op.post_orphan_resolved fp chan) effect calls e r h =
      unposted-Sent chan effect OpKind.post_orphan_resolved calls refl h

-- An op ends only with the effect of its own kind or with the loss of its message, and each kind has one
-- effect of its own. An effect with a timestamp is that of the one message that was sent: rendered, to
-- the op's channel and under the parent that the effect names, and accepted by Slack under that timestamp.
pub run-ends :
    {Body : Type 0} (w : World Body) (leased : LeasedOp) (now : ℕ) (db : Db) (effect : OpEffect)
    (calls : List (Call Body))
    → run w leased now db ≡ ok (done effect, calls)
    → (ends effect (kind_of leased.op) ≡ true) × Sent w now (channel_of leased.op) effect calls
run-ends w leased now db effect calls e =
    let h : ends effect (kind_of leased.op) ≡ true =
      subst (RunFits w leased now db (kind_of leased.op)) e (run-RunFits w leased now db) in
    (h, run-Sent w now leased db leased.op effect calls refl e h)

-- What the invariants of the store ask of an effect.
pub run-may_end :
    {Body : Type 0} (w : World Body) (leased : LeasedOp) (now : ℕ) (db : Db) (effect : OpEffect)
    (calls : List (Call Body))
    → run w leased now db ≡ ok (done effect, calls)
    → may_end effect (known (kind_of leased.op)) ≡ true
run-may_end w leased now db effect calls e =
    go effect (kind_of leased.op) (run-ends w leased now db effect calls e).0
  where
    go : (x : OpEffect) (kind : OpKind) → ends x kind ≡ true → may_end x (known kind) ≡ true
    go x kind h = ground arith
