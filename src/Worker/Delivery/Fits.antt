-- ===== src/Worker/Delivery/Fits.antt =====
-- What `Delivery::run` of crates/app/src/delivery.rs can answer for an op: an effect that the op's kind can
-- have, and another attempt only while there are attempts left.
use alertthread.Base.{
  ℕ, ◌≡◌, refl, inl, inr, Bool, true, false, not, Option, none, some, arith, Option-cases,
}
use alertthread.Core.Ids.{ChannelId, MessageTs, GroupKey, ThreadTs, Fingerprint}
use alertthread.Core.Domain.{Placement, ResolveTarget, Op}
use alertthread.Store.Payload.{OpKind, kind_of}
use alertthread.Store.Model.{
  OpEffect, posted, group_posted, refreshed, resolved, standalone, message_lost, AlertRecord,
  LeasedOp, Result, ok, err,
}
use alertthread.Store.Sql.{Db}
use alertthread.Store.Query.{alert}
use alertthread.Slack.{SlackError}
use alertthread.Worker.{Outcome, done, wait, retry, dead_letter_op, exhausted, classify}
use alertthread.Worker.Views.{Call, RenderRequest, resolved_view, missing_row}
use alertthread.Worker.Delivery.{
  World, Permit, granted, not_before, Reply, accepted, refused, Run, failed, send, edit, Parent,
  under, not_yet, landed_parent, thread_parent, parent_of, post_record, post, post_group,
  post_orphan, refresh, refresh_group, resolve_without_a_message, landed_of, reply, resolve_message,
  resolve, run,
}

-- The effects that an op of each kind can end with: its own one, or the loss of its message.
abbrev pub ends : OpEffect → OpKind → Bool
ends (posted _ _) OpKind.post = true
ends (posted _ _) _ = false
ends (group_posted _) OpKind.post_group = true
ends (group_posted _) _ = false
ends refreshed OpKind.refresh = true
ends refreshed OpKind.refresh_group = true
ends refreshed _ = false
ends resolved OpKind.resolve = true
ends resolved _ = false
ends standalone OpKind.post_orphan_resolved = true
ends standalone _ = false
ends message_lost _ = true

-- The outcome of an op of a kind, whose attempts are or are not used up.
abbrev pub fits : OpKind → Bool → Outcome → Bool
fits kind spent (done effect) = ends effect kind
fits kind spent (wait until) = true
fits kind spent (retry until error) = not spent
fits kind spent (dead_letter_op reason detail) = true

module _ {Body : Type 0} (w : World Body) (kind : OpKind) (leased : LeasedOp) (now : ℕ) where
  abbrev Fits : Outcome → Type 0
  Fits o = fits kind (exhausted w.backoff leased.attempts) o ≡ true

  failed-Fits : (error : SlackError) → Fits (failed w error leased.attempts now)
  unfolding failed classify
  failed-Fits error = ground arith

  send-Fits :
      (chan : ChannelId) (body : Body) (thread : Option ThreadTs) (effect : MessageTs → OpEffect)
      → ((ts : MessageTs) → ends (effect ts) kind ≡ true)
      → Fits (send w chan body thread leased.attempts now effect).0
  unfolding send
  send-Fits chan body thread effect h =
      go (w.permit_post chan now) (w.slack (Call.post_message chan body thread false)) refl refl
    where
      go :
          (p : Permit) (r : Reply)
          → w.permit_post chan now ≡ p
          → w.slack (Call.post_message chan body thread false) ≡ r
          → Fits (send w chan body thread leased.attempts now effect).0
      go (not_before until) r e f = ground arith
      go granted (accepted ts) e f = ground (arith, h ts)
      go granted (refused error) e f = ground (arith, failed-Fits error)

  edit-Fits :
      (chan : ChannelId) (ts : MessageTs) (body : Body) (effect : OpEffect)
      → ends effect kind ≡ true
      → Fits (edit w chan ts body leased.attempts now effect).0
  unfolding edit
  edit-Fits chan ts body effect h =
      go (w.permit_update now) (w.slack (Call.update_message chan ts body)) refl refl
    where
      go :
          (p : Permit) (r : Reply)
          → w.permit_update now ≡ p
          → w.slack (Call.update_message chan ts body) ≡ r
          → Fits (edit w chan ts body leased.attempts now effect).0
      go (not_before until) r e f = ground arith
      go granted (accepted _) e f = ground arith
      go granted (refused error) e f = ground (arith, failed-Fits error)

  landed_parent-Fits :
      (key : GroupKey) (found : Option ThreadTs) (o : Outcome)
      → landed_parent w leased key found now ≡ not_yet o
      → Fits o
  unfolding landed_parent
  landed_parent-Fits key (some parent) o e = absurd (ground arith)
  landed_parent-Fits key none o e = ground arith

  parent_of-Fits :
      (chan : ChannelId) (placement : Placement) (db : Db) (o : Outcome)
      → parent_of w leased chan placement now db ≡ not_yet o
      → Fits o
  unfolding parent_of thread_parent
  parent_of-Fits chan Placement.channel db o e = absurd (ground arith)
  parent_of-Fits chan (Placement.thread key (some parent)) db o e = absurd (ground arith)
  parent_of-Fits chan (Placement.thread key none) db o e = landed_parent-Fits key _ o e

  post_record-Fits :
      (chan : ChannelId) (parent : Parent w) (r : AlertRecord)
      → kind ≡ OpKind.post
      → ((o : Outcome) → parent ≡ not_yet o → Fits o)
      → Fits (post_record w leased chan parent now r).0
  unfolding post_record
  post_record-Fits chan (not_yet o) r own h = h o refl
  post_record-Fits chan (under parent) r own h =
      send-Fits chan _ parent (λ ts. posted ts parent) (λ ts. rw own refl)

  -- The resolutions.
  module _ (other : ends resolved kind ≡ true) where
    reply-Fits :
        (r : AlertRecord) (chan : ChannelId) (ts : MessageTs) (thread_reply : Bool)
        → Fits (reply w leased r chan ts thread_reply now).0
    unfolding reply
    reply-Fits r chan ts true = send-Fits chan _ (some ts) (λ _. resolved) (λ _. other)
    reply-Fits r chan ts false = other

    resolve_message-Fits :
        (r : AlertRecord) (chan : ChannelId) (ts : MessageTs) (update_in_place thread_reply : Bool)
        → Fits (resolve_message w leased r chan ts update_in_place thread_reply now).0
    unfolding resolve_message
    resolve_message-Fits r chan ts update_in_place thread_reply = ground (
      arith,
      reply-Fits r chan ts thread_reply,
      edit-Fits chan ts (w.render (RenderRequest.resolved (resolved_view r now)) now) resolved
          other,
    )

    resolve_without-Fits :
        (found : Option AlertRecord) (chan : ChannelId)
        → Fits (resolve_without_a_message w leased found chan now).0
    unfolding resolve_without_a_message
    resolve_without-Fits none chan = refl
    resolve_without-Fits (some r) chan = ground (
      arith,
      send-Fits chan (w.render (RenderRequest.resolved (resolved_view r now)) now) none
          (λ ts. resolved) (λ ts. other),
    )

module _ {Body : Type 0} (w : World Body) (leased : LeasedOp) (now : ℕ) (db : Db) where
  abbrev pub RunFits : OpKind → Result (Run w) → Type 0
  RunFits kind (ok r) = Fits w kind leased now r.0
  RunFits kind (err e) = Unit {0}

  post-Fits :
      (fp : Fingerprint) (chan : ChannelId) (placement : Placement)
      → RunFits OpKind.post (post w leased fp chan placement now db)
  unfolding post missing_row
  post-Fits fp chan placement = go (alert fp chan db) refl
    where
      go :
          (found : Result (Option AlertRecord))
          → alert fp chan db ≡ found
          → RunFits OpKind.post (post w leased fp chan placement now db)
      go (err x) e = rw e tt
      go (ok none) e = rw e refl
      go (ok (some r)) e = rw e (
          post_record-Fits w OpKind.post leased now chan (parent_of w leased chan placement now db)
            r refl (parent_of-Fits w OpKind.post leased now chan placement db))

  refresh-Fits :
      (fp : Fingerprint) (chan : ChannelId) (ts : MessageTs)
      → RunFits OpKind.refresh (refresh w leased fp chan ts now db)
  unfolding refresh
  refresh-Fits fp chan ts = go (alert fp chan db) refl
    where
      go :
          (found : Result (Option AlertRecord))
          → alert fp chan db ≡ found
          → RunFits OpKind.refresh (refresh w leased fp chan ts now db)
      go (err x) e = rw e tt
      go (ok none) e = rw e refl
      go (ok (some r)) e = rw e (edit-Fits w OpKind.refresh leased now chan ts _ refreshed refl)

  resolve-Fits :
      (fp : Fingerprint) (chan : ChannelId) (target : ResolveTarget)
      (update_in_place thread_reply : Bool)
      → RunFits OpKind.resolve (resolve w leased fp chan target update_in_place thread_reply now db)
  unfolding resolve missing_row
  resolve-Fits fp chan target update_in_place thread_reply = go (alert fp chan db) refl
    where
      sent_to :
          (found : Option AlertRecord) (ts : MessageTs)
          → alert fp chan db ≡ ok found
          → landed_of w target found ≡ some ts
          → RunFits OpKind.resolve
              (resolve w leased fp chan target update_in_place thread_reply now db)
      sent_to none ts e sent = rw (e, sent) refl
      sent_to (some r) ts e sent =
          rw (e, sent)
            (resolve_message-Fits w OpKind.resolve leased now refl r chan ts update_in_place
              thread_reply)

      go :
          (found : Result (Option AlertRecord))
          → alert fp chan db ≡ found
          → RunFits OpKind.resolve
              (resolve w leased fp chan target update_in_place thread_reply now db)
      go (err x) e = rw e tt
      go (ok found) e = elim (Option-cases (landed_of w target found)) [
        | inl unsent ↦
            rw (e, unsent) (resolve_without-Fits w OpKind.resolve leased now refl found chan)
        | inr (ts, sent) ↦ sent_to found ts e sent
      ]

  pub run-RunFits : RunFits (kind_of leased.op) (run w leased now db)
  unfolding run post_group post_orphan refresh_group post parent_of thread_parent landed_parent
      post_record refresh resolve resolve_without_a_message resolve_message reply
  run-RunFits = go leased.op refl
    where
      go : (op : Op) → leased.op ≡ op → RunFits (kind_of leased.op) (run w leased now db)
      go (Op.post fp chan placement) e = rw e (post-Fits fp chan placement)
      go (Op.post_group key chan members) e =
          rw e (send-Fits w OpKind.post_group leased now chan _ none group_posted (λ ts. refl))
      go (Op.refresh fp chan ts) e = rw e (refresh-Fits fp chan ts)
      go (Op.refresh_group key chan ts) e =
          rw e (edit-Fits w OpKind.refresh_group leased now chan ts _ refreshed refl)
      go (Op.resolve fp chan target update reply_too) e =
          rw e (resolve-Fits fp chan target update reply_too)
      go (Op.post_orphan_resolved fp chan) e = rw e (
          send-Fits w OpKind.post_orphan_resolved leased now chan _ none (λ ts. standalone)
            (λ ts. refl))
