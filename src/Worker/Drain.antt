-- ===== src/Worker/Drain.antt =====
-- The loops of crates/app/src/worker.rs: a batch is leased, split by channel, and each channel's ops are
-- delivered one after the other, while the channels take turns in any order. What the rest of the world
-- answers may differ from op to op. The tasks' ends by a panic, the sleeps and the logs are left out.
pub mod Order
pub mod Reports
use alertthread.Base.{
  ℕ, ◌≡◌, Bool, true, not, ◌&&◌, Option, none, some, List, [], ◌∷◌, ◌++◌, ltb, ◌==◌, str_eq,
  if◌then◌else◌, length, is_empty, any,
}
use alertthread.Base.Int.{ℤ}
use alertthread.Core.Ids.{ChannelId}
use alertthread.Store.Payload.{channel_of}
use alertthread.Store.Model.{
  OpId, WorkerId, LeasedOp, DeadLetter, everything, RetentionPolicy, Result, ok, err, ◌>>=◌,
}
use alertthread.Store.Sql.{Db}
use alertthread.Store.Outbox.{lease_batch, revive_dead_letters}
use alertthread.Store.Retention.{prune}
use alertthread.Store.Query.{dead_letters}
use alertthread.Worker.{Pass, no_pass, merge, apply, Backoff}
use alertthread.Worker.Delivery.{World, run}

pub record WorkerConfig : Type 0 where
  pub batch_size : ℕ
  pub lease : ℤ
  pub idle_poll : ℤ
  pub max_attempts : ℕ
  pub backoff_base : ℤ
  pub backoff_max : ℤ
  pub sample_interval : ℤ

-- `Worker::backoff`
unfoldable pub backoff_of : WorkerConfig → Backoff
backoff_of c = record {
  max_attempts = c.max_attempts;
  base = c.backoff_base;
  max_delay = c.backoff_max;
}

abbrev pub Queues : Type 0
Queues = List (ChannelId × List LeasedOp)

-- `by_channel.entry(channel).or_default().push(op)`
unfoldable pub enter : LeasedOp → Queues → Queues
enter op [] = (channel_of op.op, op ∷ []) ∷ []
enter op ((chan, ops) ∷ rest) =
    let more = enter op rest in
    if str_eq chan (channel_of op.op) then (chan, ops ++ op ∷ []) ∷ rest else (chan, ops) ∷ more

unfoldable pub by_channel : List LeasedOp → Queues → Queues
unfolding enter
by_channel [] queues = queues
by_channel (op ∷ rest) queues = by_channel rest (enter op queues)

abbrev pub here : ChannelId → List LeasedOp → Queues → Option (LeasedOp × Queues)
here c [] rest = none
here c (op ∷ behind) rest = some (op, (c, behind) ∷ rest)

abbrev pub there :
    ChannelId → List LeasedOp → Option (LeasedOp × Queues) → Option (LeasedOp × Queues)
there c ops none = none
there c ops (some n) = some (n.0, (c, ops) ∷ n.1)

-- The next op of a channel, and the queues without it.
unfoldable pub next_of : ChannelId → Queues → Option (LeasedOp × Queues)
next_of chan [] = none
next_of chan ((c, ops) ∷ rest) =
    let more = next_of chan rest in if str_eq c chan then here c ops rest else there c ops more

module _ {Body : Type 0} (world : LeasedOp → World Body) (now : ℕ) where
  unfoldable pub deliver : LeasedOp → Db → Result (Pass × Db)
  unfolding run apply
  deliver leased db = do r ← run (world leased) leased now db; apply leased r.0 now db

  -- One round of `drain_channel`: an op that could not be delivered is left to its lease.
  unfoldable pub drain_one : LeasedOp → Pass × Db → Pass × Db
  unfolding deliver merge
  drain_one leased (pass, db) = elim (deliver leased db) [
    | ok (counted, db') ↦ (merge pass counted, db')
    | err e ↦ (pass, db)
  ]

  unfoldable pub drain_channel : List LeasedOp → Pass × Db → Pass × Db
  unfolding drain_one
  drain_channel [] state = state
  drain_channel (op ∷ rest) state = drain_channel rest (drain_one op state)

  -- The channels' tasks in some interleaving: from queues and a state, by the ops delivered in this order,
  -- to queues and a state.
  pub data Drains : Queues → Pass × Db → List LeasedOp → Queues → Pass × Db → Type 0 where
    stop : (queues : Queues) (p : Pass × Db) → Drains queues p [] queues p
    turn :
        (chan : ChannelId) (op : LeasedOp) (queues queues' : Queues) (p : Pass × Db)
        (order : List LeasedOp) (last : Queues) (final : Pass × Db)
        → next_of chan queues ≡ some (op, queues')
        → Drains queues' (drain_one op p) order last final
        → Drains queues p (op ∷ order) last final

-- Nothing is left to deliver.
abbrev pub is_drained : Queues → Bool
is_drained [] = true
is_drained ((chan, ops) ∷ rest) = is_empty ops && is_drained rest

-- What `run_once` has leased, before the channels' tasks start.
unfoldable pub lease_work : WorkerId → WorkerConfig → ℕ → Db → Result (Queues × Pass) × Db
unfolding lease_batch by_channel
lease_work worker config now db =
    let answer = lease_batch worker config.batch_size config.lease now db in
    (answer.0 >>= λ ops. ok (by_channel ops [], record no_pass { leased = length ops }), answer.1)

unfoldable pub should_pause : ℕ → ℕ → Bool
should_pause leased batch_size = ltb leased batch_size

abbrev pub dead_letter_report_limit : ℕ
dead_letter_report_limit = 500

abbrev is_row : OpId → DeadLetter → Bool
is_row id row = row.id == id

abbrev pub is_reported : OpId → List OpId → Bool
is_reported id ids = any (λ i. i == id) ids

-- The ids that `reported` keeps: those of rows that are still parked.
unfoldable pub retained : List DeadLetter → List OpId → List OpId
retained parked [] = []
retained parked (id ∷ rest) =
    let kept = retained parked rest in if any (is_row id) parked then id ∷ kept else kept

-- The rows that are announced, and what has been reported then.
unfoldable pub announce : List DeadLetter → List OpId → List DeadLetter × List OpId
announce [] reported = ([], reported)
announce (row ∷ rest) reported =
    let later =
      announce rest (if is_reported row.id reported then reported else row.id ∷ reported) in
    if is_reported row.id reported then later else (row ∷ later.0, later.1)

unfoldable pub report_dead_letters : List DeadLetter → List OpId → List DeadLetter × List OpId
unfolding retained announce
report_dead_letters parked reported = announce parked (retained parked reported)

-- A round of `auth_probe_loop`: whether the token was valid before, whether it is now, and the state then.
unfoldable pub probe : Bool → Bool → ℕ → Db → Bool × Db
unfolding revive_dead_letters
probe was_valid is_valid now db =
    if is_valid && not was_valid
    then (true, (revive_dead_letters everything now db).1)
    else (is_valid, db)

-- A round of `dead_letter_loop`.
unfoldable pub report_round : Db → List OpId → List DeadLetter × List OpId
unfolding report_dead_letters dead_letters
report_round db reported = elim (dead_letters everything dead_letter_report_limit db) [
  | ok parked ↦ report_dead_letters parked reported
  | err e ↦ ([], reported)
]

-- A round of `prune_loop`.
unfoldable pub prune_round : RetentionPolicy → ℕ → Db → Db
unfolding prune
prune_round policy now db = (prune policy now db).1
