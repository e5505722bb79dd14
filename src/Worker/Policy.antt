-- ===== src/Worker/Policy.antt =====
-- `Backoff::delay` of crates/app/src/delivery.rs.
use alertthread.Base.{ℕ, ◌+◌, ◌*◌, ◌/◌, ◌≤◌, Option, none, some, arith}
use alertthread.Base.Int.{ℤ, pos_part}
use alertthread.Worker.{Backoff, raw_delay, delay, min_ℤ, factor_of}

raw_delay-le :
    (checked_mul : ℤ → ℕ → Option ℤ) (b : Backoff) (attempts : ℕ)
    → raw_delay checked_mul b attempts ≤ pos_part b.max_delay
unfolding raw_delay
raw_delay-le checked_mul b attempts =
    below
      (elim (checked_mul b.base (factor_of attempts)) as (λ x. ℤ) [
        | none ↦ b.max_delay
        | some d ↦ d
      ])
      b.max_delay
  where
    below : (d m : ℤ) → pos_part (min_ℤ d m) ≤ pos_part m
    below d m = ground arith

-- A backoff is at most the longest delay and an eighth of it, whatever the attempt, also where the
-- multiplication overflows.
pub delay-le :
    (checked_mul : ℤ → ℕ → Option ℤ) (b : Backoff) (attempts : ℕ)
    → delay checked_mul b attempts ≤ pos_part b.max_delay + pos_part b.max_delay / 8
unfolding delay
delay-le checked_mul b attempts =
    let raw = raw_delay checked_mul b attempts in
    let bound = raw_delay-le checked_mul b attempts in
    let eighth : raw / 1_000_000 / 8 * 1_000_000 ≤ raw / 8 = omega arith in
    let wider : raw / 8 ≤ pos_part b.max_delay / 8 = omega (arith, bound) in
    ground (arith, bound, eighth, wider)
