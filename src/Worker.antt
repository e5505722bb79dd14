-- ===== src/Worker.antt =====
-- crates/app/src/delivery.rs, `Outcome`, `Backoff` and the retry policy, and `apply` of
-- crates/app/src/worker.rs. The text of an error (`Display`, which a macro derives) and the functions
-- `checked_mul` and `from_std` of the chrono library are parameters.
pub mod Limits
pub mod Drain
pub mod Policy
pub mod Views
pub mod Delivery
use alertthread.Base.{
  ℕ, ◌+◌, ◌-◌, ◌*◌, ◌/◌, ◌%◌, ◌^◌, min, max, String, Bool, Option, none, some, leb, ◌==◌,
  if◌then◌else◌,
}
use alertthread.Base.Int.{ℤ, pos_part, leb_ℤ}
use alertthread.Store.Model.{
  OpEffect, message_lost, rate_limited, backoff, LeasedOp, Result, ok, ◌>>=◌,
}
use alertthread.Store.Sql.{Db}
use alertthread.Store.Outbox.{complete, defer, dead_letter}
use alertthread.Slack.{SlackError, Disposition, disposition, outcome}

pub data Outcome : Type 0 where
  done : (effect : OpEffect) → Outcome
  wait : (until : ℕ) → Outcome
  retry : (until : ℕ) → (error : String) → Outcome
  dead_letter_op : (reason : String) → (detail : String) → Outcome

pub record Backoff : Type 0 where
  pub max_attempts : ℕ
  pub base : ℤ
  pub max_delay : ℤ

-- `Default`: 10 attempts, 4 seconds doubling up to 10 minutes.
abbrev pub default_backoff : Backoff
default_backoff = record {
  max_attempts = 10;
  base = ℤ.pos 4_000_000_000;
  max_delay = ℤ.pos 600_000_000_000;
}

abbrev pub min_ℤ : ℤ → ℤ → ℤ
min_ℤ a b = if leb_ℤ a b then a else b

-- `attempts.clamp(1, 20) - 1`
abbrev pub steps_of : ℕ → ℕ
steps_of attempts = min (max attempts 1) 20 - 1

abbrev pub factor_of : ℕ → ℕ
factor_of attempts = min (2 ^ steps_of attempts) 2_147_483_647

unfoldable pub exhausted : Backoff → ℕ → Bool
exhausted b attempts = leb b.max_attempts attempts

module _ (checked_mul : ℤ → ℕ → Option ℤ) where
  -- `raw`, which is not negative.
  pub raw_delay : Backoff → ℕ → ℕ
  raw_delay b attempts = pos_part (
      min_ℤ (elim (checked_mul b.base (factor_of attempts)) [ none ↦ b.max_delay | some d ↦ d ])
        b.max_delay)

  -- The spread is an eighth of the whole milliseconds: taken away, left out or added by the attempt.
  unfoldable pub delay : Backoff → ℕ → ℕ
  unfolding raw_delay
  delay b attempts =
      let raw = raw_delay b attempts in
      let spread = raw / 1_000_000 / 8 * 1_000_000 in
      if attempts % 3 == 0 then raw - spread else if attempts % 3 == 1 then raw else raw + spread

  module _ (from_std : ℕ → Option ℕ) (to_string : SlackError → String)
      (with_attempts : SlackError → ℕ → String) where
    -- `with_attempts` is the text of `format!("{error} (after {attempts} attempts)")`.
    -- `from_std` has no result for a span that is too long.
    unfoldable pub classify : Backoff → SlackError → ℕ → ℕ → Outcome
    unfolding exhausted delay
    classify b error attempts now = elim (disposition error) [
      | Disposition.rate_limited retry_after ↦
          wait (now + (elim (from_std retry_after) [ none ↦ 1_000_000_000 | some d ↦ d ]))
      | Disposition.message_gone ↦ done message_lost
      | Disposition.terminal ↦ dead_letter_op (outcome error) (to_string error)
      | Disposition.retry ↦
          if exhausted b attempts
          then dead_letter_op (outcome error) (with_attempts error attempts)
          else retry (now + delay b attempts) (to_string error)
    ]

-- What one pass of the worker did.
pub record Pass : Type 0 where
  pub leased : ℕ
  pub completed : ℕ
  pub deferred : ℕ
  pub dead_lettered : ℕ

abbrev pub no_pass : Pass
no_pass = record { leased = 0; completed = 0; deferred = 0; dead_lettered = 0 }

unfoldable pub is_idle : Pass → Bool
is_idle p = p.leased == 0

unfoldable pub merge : Pass → Pass → Pass
merge p q = record {
  leased = p.leased + q.leased;
  completed = p.completed + q.completed;
  deferred = p.deferred + q.deferred;
  dead_lettered = p.dead_lettered + q.dead_lettered;
}

unfoldable pub apply : LeasedOp → Outcome → ℕ → Db → Result (Pass × Db)
apply leased (done effect) now db = do
  db' ← complete leased.id effect now db
  ok (record no_pass { completed = 1 }, db')
apply leased (wait until) now db = do
  db' ← defer leased.id (rate_limited until) db
  ok (record no_pass { deferred = 1 }, db')
apply leased (retry until error) now db = do
  db' ← defer leased.id (backoff until error) db
  ok (record no_pass { deferred = 1 }, db')
apply leased (dead_letter_op reason detail) now db = do
  db' ← dead_letter leased.id detail now db
  ok (record no_pass { dead_lettered = 1 }, db')
