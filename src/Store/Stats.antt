-- ===== src/Store/Stats.antt =====
-- The numbers that the relay shows of its store: `stats` of crates/store/src/sqlite.rs and row.rs, and the
-- gauges that crates/app/src/metrics.rs sets from them.
pub mod Shown
pub mod Oldest
pub mod Sampled
use alertthread.Base.{
  ℕ, ◌+◌, ◌-◌, ◌/◌, ◌^◌, min, String, Bool, true, false, Option, none, some, List, [], ◌∷◌, str_eq,
  if◌then◌else◌, length, count_where,
}
use alertthread.Store.Payload.{OpKind}
use alertthread.Store.Payload
use alertthread.Store.Model.{Result, ok, err, ◌>>=◌, unknown_op_kind}
use alertthread.Store.Row.{Named, known, unknown, OutboxRow}
use alertthread.Store.Sql.{Db, is_parked}

-- A row of OUTBOX_DEPTH.
pub record Depth : Type 0 where
  pub op : Named OpKind
  pub count : ℕ
  pub oldest : Option ℕ

-- The text of the column.
unfoldable pub name : Named OpKind → String
unfolding Payload.as_str
name (known kind) = Payload.as_str kind
name (unknown raw) = raw

abbrev pub earlier : Option ℕ → ℕ → ℕ
earlier none at = at
earlier (some seen) at = min seen at

-- A row in the group of its op, which it opens if there is none.
unfoldable pub group_row : OutboxRow → List Depth → List Depth
unfolding name
group_row r [] = record { op = r.op; count = 1; oldest = some r.created_at } ∷ []
group_row r (d ∷ rest) =
    let others = group_row r rest in
    if str_eq (name d.op) (name r.op)
    then record d { count = d.count + 1; oldest = some (earlier d.oldest r.created_at) } ∷ rest
    else d ∷ others

-- OUTBOX_DEPTH.
unfoldable pub outbox_depths : List OutboxRow → List Depth
unfolding group_row
outbox_depths [] = []
outbox_depths (r ∷ rest) =
    let others = outbox_depths rest in if is_parked r then others else group_row r others

-- A map with the kinds of ops as its keys is a function.
pub record StoreStats : Type 0 where
  pub outbox_depth : OpKind → Option ℕ
  pub dead_lettered : ℕ
  pub oldest_queued_at : Option ℕ
  pub tracked_fingerprints : ℕ

abbrev pub insert_depth : OpKind → ℕ → (OpKind → Option ℕ) → OpKind → Option ℕ
insert_depth kind n depths other =
    if str_eq (name (known kind)) (name (known other)) then some n else depths other

abbrev pub earliest : Option ℕ → Option ℕ → Option ℕ
earliest seen none = seen
earliest seen (some at) = some (earlier seen at)

-- The loop of `stats` over the rows of OUTBOX_DEPTH.
unfoldable pub read_depths :
    List Depth → (OpKind → Option ℕ) → Option ℕ → Result ((OpKind → Option ℕ) × Option ℕ)
read_depths [] depths oldest = ok (depths, oldest)
read_depths (d ∷ rest) depths oldest = elim d.op [
  | known kind ↦ read_depths rest (insert_depth kind d.count depths) (earliest oldest d.oldest)
  | unknown raw ↦ err (unknown_op_kind raw)
]

-- `stats` of row.rs.
unfoldable pub stats_of : List Depth → ℕ → ℕ → Result StoreStats
unfolding read_depths
stats_of depth dead_lettered tracked = do
  found ← read_depths depth (λ kind. none) none
  ok (record {
    outbox_depth = found.0;
    dead_lettered = dead_lettered;
    oldest_queued_at = found.1;
    tracked_fingerprints = tracked;
  })

-- `stats` of the store, with OUTBOX_DEAD_LETTERED and COUNT_ALERTS.
unfoldable pub stats : Db → Result StoreStats
unfolding outbox_depths stats_of
stats db =
    stats_of (outbox_depths db.outbox.rows) (count_where is_parked db.outbox.rows)
      (length db.alerts)

-- The gauges of a sample. The age is in milliseconds, before its conversion to a float.
pub record Gauges : Type 0 where
  pub outbox_depth : OpKind → ℕ
  pub oldest_age : ℕ
  pub dead_lettered : ℕ
  pub tracked_fingerprints : ℕ
  pub sample_ok : Bool

-- `i64::try_from(n).unwrap_or(i64::MAX)`
unfoldable pub gauge : ℕ → ℕ
gauge n = min n (2 ^ 63 - 1)

unfoldable pub age_millis : ℕ → ℕ → ℕ
age_millis queued now = min ((now - queued) / 1000000) (2 ^ 31 - 1)

-- `unwrap_or(0)`
abbrev pub or_zero : Option ℕ → ℕ
or_zero none = 0
or_zero (some n) = n

abbrev pub shown_age : Option ℕ → ℕ → ℕ
unfolding age_millis
shown_age none now = 0
shown_age (some queued) now = age_millis queued now

-- Every kind is written on every sample, whatever its gauge was.
unfoldable pub publish : StoreStats → ℕ → Gauges
unfolding gauge age_millis
publish s now = record {
  outbox_depth = λ kind. gauge (or_zero (s.outbox_depth kind));
  oldest_age = shown_age s.oldest_queued_at now;
  dead_lettered = gauge s.dead_lettered;
  tracked_fingerprints = gauge s.tracked_fingerprints;
  sample_ok = true;
}

-- The gauges keep their values.
unfoldable pub sample_failed : Gauges → Gauges
sample_failed g = record g { sample_ok = false }
