-- ===== src/Store/Outbox/Once.antt =====
-- `complete` of crates/store/src/sqlite.rs ends an op once, even if the effect queues a new one.
use alertthread.Base.{
  ℕ, ◌+◌, ◌≤◌, ◌≡◌, refl, inl, inr, Bool, false, Option, none, some, List, [], ◌∷◌, ◌++◌, arith,
  ◌==◌, Bool-cases, Option-cases,
}
use alertthread.Base.Table.{select_one, delete_where}
use alertthread.Core.Ids.{Fingerprint, ChannelId, GroupKey}
use alertthread.Core.Domain.{Placement, Op}
use alertthread.Store.Model.{
  OpId, OpEffect, posted, group_posted, refreshed, resolved, message_lost, standalone, ok, err,
  no_such_op,
}
use alertthread.Store.Row.{OutboxRow, stamp}
use alertthread.Store.Sql.{Db, Outbox, has_id, enqueue, queued_row}
use alertthread.Store.Outbox.{with_rows, members_of, apply_effect, complete}
use alertthread.Store.Keys.{Rising}

select_one-delete_where :
    (q : OutboxRow → Bool) (rows : List OutboxRow) → select_one q (delete_where q rows) ≡ none
select_one-delete_where q [] = refl
select_one-delete_where q (r ∷ rest) = ground (arith, select_one-delete_where q rest)

select_one-none_append :
    (q : OutboxRow → Bool) (rows : List OutboxRow) (r : OutboxRow)
    → select_one q rows ≡ none
    → q r ≡ false
    → select_one q (rows ++ r ∷ []) ≡ none
select_one-none_append q [] r e miss = ground arith
select_one-none_append q (x ∷ rest) r e miss = ground (arith, select_one-none_append q rest r)

-- No id is above the last one.
id-bounded :
    (lo hi id : ℕ) (rows : List OutboxRow) (r : OutboxRow)
    → Rising lo hi rows
    → select_one (has_id id) rows ≡ some r
    → id ≤ hi
id-bounded lo hi id [] r k e = cc
id-bounded lo hi id (x ∷ rest) r k e = elim (Bool-cases (x.id == id)) [
  | inl hit ↦ below x.id hi rest k.1 (ground arith)
  | inr miss ↦ id-bounded x.id hi id rest r k.1 (ground arith)
]
  where
    below : (l h : ℕ) (rs : List OutboxRow) → Rising l h rs → id ≤ l → id ≤ h
    below l h [] c le = omega (arith, c, le)
    below l h (y ∷ ys) c le = below y.id h ys c.1 (omega (arith, c.0, le))

module _ (id : OpId) (o : Outbox) (gone : select_one (has_id id) o.rows ≡ none)
    (old : id ≤ o.last_id) where
  enqueue-gone : (op : Op) (now : ℕ) → select_one (has_id id) (enqueue op now o).rows ≡ none
  unfolding enqueue
  enqueue-gone op now =
      select_one-none_append (has_id id) o.rows (queued_row (o.last_id + 1) op now) gone
        (ground arith)

  effect-gone :
      (effect : OpEffect) (chan : ChannelId) (f : Option Fingerprint) (key : Option GroupKey)
      (now : ℕ) (db : Db)
      → db.outbox ≡ o
      → select_one (has_id id) (apply_effect effect chan f key now db).outbox.rows ≡ none
  unfolding apply_effect
  effect-gone (posted ts parent) chan f key now db e = rw e gone
  effect-gone (group_posted ts) chan f key now db e = rw e gone
  effect-gone resolved chan f key now db e = rw e gone
  effect-gone message_lost chan (some fp) key now db e =
      rw e (enqueue-gone (Op.post fp chan Placement.channel) now)
  effect-gone message_lost chan none (some key) now db e =
      rw e (enqueue-gone (Op.post_group key chan (members_of key chan db.groups)) now)
  effect-gone message_lost chan none none now db e = rw e gone
  effect-gone refreshed chan f key now db e = rw e gone
  effect-gone standalone chan f key now db e = rw e gone

-- An op is completed once: after a completion, with whatever effect, a second one of the same op is
-- refused as an op that does not exist.
pub complete-once :
    (id : OpId) (effect effect' : OpEffect) (at at' : ℕ) (db db' : Db)
    → Rising 0 db.outbox.last_id db.outbox.rows
    → complete id effect at db ≡ ok db'
    → complete id effect' at' db' ≡ err (no_such_op id)
unfolding complete
complete-once id effect effect' at at' db db' rising e =
    elim (Option-cases (select_one (has_id id) db.outbox.rows)) [
      | inl missing ↦ absurd (ground arith)
      | inr (r, found) ↦
          let left : Db = with_rows db (delete_where (has_id id) db.outbox.rows) in
          ground (
            arith,
            effect-gone id left.outbox (select_one-delete_where (has_id id) db.outbox.rows)
                (id-bounded 0 db.outbox.last_id id db.outbox.rows r rising found) effect r.channel
                r.fingerprint r.group_key (stamp at) left refl,
          )
    ]
