-- ===== src/Tests/Workers.antt =====
-- Runs of a worker on one alert, with a Slack that accepts every message.
use alertthread.Base.{
  ℕ, ◌+◌, ◌*◌, ◌/◌, ◌≤◌, String, ◌≡◌, refl, ◌↔◌, true, false, Option, none, some, List, [], ◌∷◌,
}
use alertthread.Base.Int.{ℤ, pos, pos_part}
use alertthread.Core.Domain.{Op, Placement}
use alertthread.Store.Model.{posted, LeasedOp, ok}
use alertthread.Store.Row.{alert_into_record, read_state}
use alertthread.Store.Sql.{Db, claimed_row}
use alertthread.Store.Query.{alert}
use alertthread.Slack.{SlackMethod, terminal, disposition, from_api_code}
use alertthread.Slack.Codes.{is_final, disposition-from_api_code-eq-terminal_iff}
use alertthread.Worker.{Pass, no_pass, apply}
use alertthread.Relay.{Step}
use alertthread.Relay.Deliver.{run-apply-Step}
use alertthread.Tests.Stores.{row2, db1, db2, found2, fits2, completed2}
use alertthread.Worker.{Outcome, done, default_backoff, exhausted, delay}
use alertthread.Worker.Policy.{delay-le}
use alertthread.Worker.Views.{Call, post_message}
use alertthread.Worker.Delivery.{World, granted, accepted, run, post, post_record, parent_of, send}
use alertthread.Worker.Delivery.Fits.{ends}
use alertthread.Worker.Delivery.Ends.{Sent, run-ends}
use alertthread.Worker.Delivery.Exhausted.{is_readable, is_retry, run-exhausted}
use alertthread.Store.Payload.{kind_of, channel_of}

abbrev product : ℤ → ℕ → Option ℤ
product (pos n) k = some (pos (n * k))
product (ℤ.negsuc n) k = none

abbrev pub world : World String
world = record {
  backoff = default_backoff;
  checked_mul = product;
  from_std = λ n. some n;
  to_string = λ e. "refused";
  with_attempts = λ e n. "refused";
  render = λ r now. "body";
  permit_post = λ chan now. granted;
  permit_update = λ now. granted;
  slack = λ call. accepted "1.2";
}

abbrev tenth : LeasedOp
tenth = record {
  id = 2;
  op = Op.post "fp1" "C1" Placement.channel;
  attempts = 10;
  leased_until = 100;
  created_at = 5;
}

abbrev one_alert : Db
one_alert = record {
  alerts = claimed_row "fp1" "C1" "g1" 3 [] [] ∷ [];
  groups = [];
  outbox = record { rows = []; last_id = 2 };
}

abbrev sent : List (Call String)
sent = post_message "C1" "body" none false ∷ []

run_eq : run world tenth 7 one_alert ≡ ok (done (posted "1.2" none), sent)
unfolding run post alert alert_into_record read_state post_record parent_of send
run_eq = refl

run-ends_example :
    (ends (posted "1.2" none) (kind_of tenth.op) ≡ true)
    × Sent world 7 (channel_of tenth.op) (posted "1.2" none) sent
run-ends_example = run-ends world tenth 7 one_alert (posted "1.2" none) sent run_eq

spent : exhausted world.backoff tenth.attempts ≡ true
unfolding exhausted
spent = refl

readable : is_readable tenth.op one_alert ≡ true
unfolding alert alert_into_record read_state
readable = refl

run-exhausted_example :
    (o : Outcome) × (calls : List (Call String)) × (run world tenth 7 one_alert ≡ ok (o, calls))
    × (is_retry o ≡ false)
run-exhausted_example = run-exhausted world tenth 7 one_alert spent readable

delay-le_example :
    delay product default_backoff 8
    ≤ pos_part default_backoff.max_delay + pos_part default_backoff.max_delay / 8
delay-le_example = delay-le product default_backoff 8

-- The waits of the first attempts and the longest one, in nanoseconds.
test_delays :
    (delay product default_backoff 1 ≡ 4_000_000_000)
    × (delay product default_backoff 2 ≡ 9_000_000_000)
    × (delay product default_backoff 9 ≡ 525_000_000_000)
unfolding delay
test_delays = (refl, refl, refl)

disposition-from_api_code-eq-terminal_iff_example :
    (disposition (from_api_code SlackMethod.post_message "invalid_auth" 0) ≡ terminal)
    ↔ (is_final "invalid_auth" ≡ true)
disposition-from_api_code-eq-terminal_iff_example =
    disposition-from_api_code-eq-terminal_iff SlackMethod.post_message "invalid_auth" 0

abbrev done_one : Pass
done_one = record no_pass { completed = 1 }

applied : apply tenth (done (posted "1.2" none)) 7 db1 ≡ ok (done_one, db2)
unfolding apply
applied = rw completed2 refl

run-apply-Step_example : Step db1 db2
run-apply-Step_example =
    run-apply-Step world tenth 7 one_alert db1 db2 (done (posted "1.2" none)) sent done_one row2
      run_eq found2 fits2.0 fits2.2 applied
