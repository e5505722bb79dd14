-- ===== src/Store/Sql/Queue.antt =====
-- crates/store/src/sqlite.rs: the statements on the table `outbox`.
use alertthread.Base.{
  ℕ, ◌+◌, ◌-◌, String, Bool, true, not, ◌&&◌, none, some, List, [], ◌∷◌, ◌++◌, leb, ◌==◌, str_eq,
  opt_eq, is_some, take, any,
}
use alertthread.Base.Table.{select_where, update_where}
use alertthread.Core.Domain.{Op}
use alertthread.Store.Payload.{kind_of, channel_of, fingerprint_of, group_key_of, store_op}
use alertthread.Store.Model.{OpId, WorkerId, DeadLetterScope}
use alertthread.Store.Row.{known, stored, OutboxRow}

pub record Outbox : Type 0 where
  pub rows : List OutboxRow
  pub last_id : OpId

-- The row that INSERT_OUTBOX writes for an op.
abbrev pub queued_row : OpId → Op → ℕ → OutboxRow
queued_row id op now = record {
  id = id;
  op = known (kind_of op);
  channel = channel_of op;
  fingerprint = fingerprint_of op;
  group_key = group_key_of op;
  payload = stored (store_op op);
  attempts = 0;
  next_attempt_at = now;
  leased_by = none;
  leased_until = none;
  last_error = none;
  created_at = now;
  dead_lettered_at = none;
}

-- INSERT_OUTBOX, as `enqueue` runs it. The id is one above every id that the table has had.
unfoldable pub enqueue : Op → ℕ → Outbox → Outbox
enqueue op now o = record {
  rows = o.rows ++ queued_row (o.last_id + 1) op now ∷ [];
  last_id = o.last_id + 1;
}

abbrev pub has_id : OpId → OutboxRow → Bool
has_id id r = r.id == id

abbrev pub is_parked : OutboxRow → Bool
is_parked r = is_some r.dead_lettered_at

-- The condition of the inner SELECT of LEASE.
abbrev pub is_ready : ℕ → OutboxRow → Bool
is_ready now r =
    not (is_parked r)
    && leb r.next_attempt_at now
    && (elim r.leased_until [ none ↦ true | some until ↦ leb until now ])

abbrev pub has_id_in : List OutboxRow → OutboxRow → Bool
has_id_in chosen r = any (λ c. c.id == r.id) chosen

abbrev pub leased_row : WorkerId → ℕ → OutboxRow → OutboxRow
leased_row worker until r = record r {
  leased_by = some worker;
  leased_until = some until;
  attempts = r.attempts + 1;
}

-- LEASE, with the rows that it returns.
unfoldable pub lease_rows : WorkerId → ℕ → ℕ → ℕ → List OutboxRow → List OutboxRow × List OutboxRow
lease_rows worker until now limit rows =
    let chosen = take limit (select_where (is_ready now) rows) in
    let after = update_where (has_id_in chosen) (leased_row worker until) rows in
    (select_where (has_id_in chosen) after, after)

abbrev pub rate_limited_row : ℕ → OutboxRow → OutboxRow
rate_limited_row until r = record r {
  leased_by = none;
  leased_until = none;
  next_attempt_at = until;
  attempts = r.attempts - 1;
}

-- DEFER_RATE_LIMITED
unfoldable pub defer_rate_limited : ℕ → OpId → List OutboxRow → List OutboxRow
defer_rate_limited until id = update_where (has_id id) (rate_limited_row until)

abbrev pub backoff_row : ℕ → String → OutboxRow → OutboxRow
backoff_row until error r = record r {
  leased_by = none;
  leased_until = none;
  next_attempt_at = until;
  last_error = some error;
}

-- DEFER_BACKOFF
unfoldable pub defer_backoff : ℕ → String → OpId → List OutboxRow → List OutboxRow
defer_backoff until error id = update_where (has_id id) (backoff_row until error)

abbrev pub parked_row : ℕ → String → OutboxRow → OutboxRow
parked_row now reason r = record r {
  dead_lettered_at = some now;
  leased_by = none;
  leased_until = none;
  last_error = some reason;
}

-- DEAD_LETTER
unfoldable pub dead_letter_rows : ℕ → String → OpId → List OutboxRow → List OutboxRow
dead_letter_rows now reason id = update_where (has_id id) (parked_row now reason)

-- WHERE dead_lettered_at IS NOT NULL AND (? IS NULL OR channel = ?) AND (? IS NULL OR fingerprint = ?)
abbrev pub in_scope : DeadLetterScope → OutboxRow → Bool
in_scope scope r =
    is_parked r
    && (elim scope.channel [ none ↦ true | some c ↦ str_eq r.channel c ])
    && (elim scope.fingerprint [ none ↦ true | some f ↦ opt_eq r.fingerprint f ])

abbrev pub revived_row : ℕ → OutboxRow → OutboxRow
revived_row now r = record r {
  dead_lettered_at = none;
  attempts = 0;
  next_attempt_at = now;
  leased_by = none;
  leased_until = none;
}

-- REVIVE_DEAD_LETTERS, on the rows.
unfoldable pub revive_rows : ℕ → DeadLetterScope → List OutboxRow → List OutboxRow
revive_rows now scope = update_where (in_scope scope) (revived_row now)
