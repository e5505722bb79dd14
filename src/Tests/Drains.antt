-- ===== src/Tests/Drains.antt =====
-- Runs of the worker's loops and of its rate limits.
use alertthread.Base.{
  ℕ, ◌+◌, ◌-◌, ◌*◌, ◌/◌, ◌^◌, String, ◌≡◌, refl, true, none, some, List, [], ◌∷◌, arith, ltb, leb,
  if◌then◌else◌, leb→le, le→leb,
}
use native.Mathlib.Nat.{mul-le-mul_right}
use alertthread.Base.Int.{pos, negsuc}
use alertthread.Base.Table.{select_where}
use alertthread.Core.Domain.{Op, Placement}
use alertthread.Store.Model.{LeasedOp, DeadLetter}
use alertthread.Relay.{empty_db}
use alertthread.Worker.{Pass, no_pass}
use alertthread.Store.Sql.{Db}
use alertthread.Worker.Limits.{Floats, limiter, acquire, take_from}
use alertthread.Worker.Limits.Laws.{Laws}
use alertthread.Worker.Limits.Evicted.{permits, permits-acquire}
use alertthread.Worker.Drain.{
  Queues, by_channel, enter, next_of, drain_one, Drains, stop, turn, report_dead_letters,
}
use alertthread.Worker.Drain.Order.{is_in, Drains-order}
use alertthread.Worker.Drain.Reports.{report_dead_letters_once}
use alertthread.Tests.Workers.{world}

-- Numbers of microseconds in place of `f64`.
abbrev whole : Floats
whole = record {
  F = ℕ;
  zero_f = 0;
  one_f = 1;
  fifty_f = 50;
  sixty_f = 60;
  largest = 2 ^ 63;
  epsilon = 0;
  add = λ x y. x + y;
  sub = λ x y. x - y;
  mul = λ x y. x * y;
  div = λ x y. x / y;
  min_f = λ x y. if ltb y x then y else x;
  max_f = λ x y. if ltb x y then y else x;
  lt_f = λ x y. ltb x y;
  le_f = λ x y. leb x y;
  is_finite = λ x. true;
  micros = λ m. elim m [ pos n ↦ n | negsuc n ↦ 0 ];
  to_micros = λ x. x;
}

whole-Laws : Laws whole
whole-Laws = record {
  one_pos = refl;
  one_finite = refl;
  one_le = refl;
  one_le_pos = λ x h. ground arith;
  max_zero = refl;
  zero_mul = λ x k h. omega arith;
  add_zero = λ x h. omega arith;
  min_self = λ x h. ground arith;
  min_right = λ x y k h. ground arith;
  largest_le = refl;
  micros_le = λ m n h. ground arith;
  le_largest = λ m h. ground arith;
  max_le = λ x y h. ground arith;
  max_pos = λ x. ground arith;
  min_pos = λ x y h k. ground arith;
  mul_pos = λ x z k h e. ground arith;
  mul_le = λ x y z k h e. le→leb (x * z) (y * z) (mul-le-mul_right z (leb→le x y e));
  add_pos = λ x z h k. ground arith;
  add_le = λ x y z h k e. ground arith;
  lt_le = λ x y z h k. ground arith;
}

abbrev calls : List (String × ℕ)
calls = ("C1", 5) ∷ ("C2", 6) ∷ ("C1", 700_000_000_000) ∷ ("C1", 1_500_000_000_000) ∷ []

permits-acquire_example :
    permits (acquire whole) (limiter whole 1 1) calls
    ≡ permits (take_from whole) (limiter whole 1 1) calls
permits-acquire_example =
    permits-acquire whole whole-Laws 1 1 calls
      (omega arith, (omega arith, (omega arith, (omega arith, tt))))

abbrev post_to : ℕ → String → LeasedOp
post_to id chan = record {
  id = id;
  op = Op.post "fp1" chan Placement.channel;
  attempts = 1;
  leased_until = 100;
  created_at = 5;
}

abbrev work : List LeasedOp
work = post_to 1 "C1" ∷ post_to 2 "C2" ∷ post_to 3 "C1" ∷ []

-- The channel that came second is served first.
abbrev order : List LeasedOp
order = post_to 2 "C2" ∷ post_to 1 "C1" ∷ post_to 3 "C1" ∷ []

abbrev start : Pass × Db
start = (no_pass, empty_db)

abbrev first : Pass × Db
first = drain_one (λ op. world) 7 (post_to 2 "C2") start

abbrev second : Pass × Db
second = drain_one (λ op. world) 7 (post_to 1 "C1") first

abbrev served : Pass × Db
served = drain_one (λ op. world) 7 (post_to 3 "C1") second

-- The queues after each turn.
abbrev after_one : Queues
after_one = ("C1", post_to 1 "C1" ∷ post_to 3 "C1" ∷ []) ∷ ("C2", []) ∷ []

abbrev after_two : Queues
after_two = ("C1", post_to 3 "C1" ∷ []) ∷ ("C2", []) ∷ []

abbrev after_three : Queues
after_three = ("C1", []) ∷ ("C2", []) ∷ []

drained : Drains (λ op. world) 7 (by_channel work []) start order after_three served
unfolding by_channel enter next_of
drained =
    turn "C2" (post_to 2 "C2") (by_channel work []) after_one start
      (post_to 1 "C1" ∷ post_to 3 "C1" ∷ []) after_three served refl
      (turn "C1" (post_to 1 "C1") after_one after_two first (post_to 3 "C1" ∷ []) after_three served
        refl
        (turn "C1" (post_to 3 "C1") after_two after_three second [] after_three served refl
          (stop after_three served)))

Drains-order_example : select_where (is_in "C1") order ≡ select_where (is_in "C1") work
Drains-order_example =
    Drains-order (λ op. world) 7 work order start served after_three drained refl "C1"

abbrev parked : List DeadLetter
parked =
    record {
      id = 4;
      op = Op.post "fp1" "C1" Placement.channel;
      channel = "C1";
      fingerprint = some "fp1";
      attempts = 10;
      last_error = none;
      created_at = 5;
      dead_lettered_at = 9;
    }
    ∷ []

test_reports : (report_dead_letters parked (report_dead_letters parked []).1).0 ≡ []
test_reports = report_dead_letters_once parked parked [] (refl, tt)
