-- ===== src/Tests/Servers.antt =====
-- Runs of the webhook on a relay with a token, of the credential's comparison, and of a replay.
use Prim.Native.String.{◌++◌ as str_append}
use alertthread.Server.Webhook.{serve, in_time, dropped_after_commit}
use alertthread.Base.{
  ◌⊎◌, ◌≢◌, ℕ, String, ◌≡◌, refl, ◌↔◌, true, none, some, List, [], ◌∷◌, str_eq, false,
  if◌then◌else◌,
}
use alertthread.Core.Webhook.{AlertStatus, WebhookPayload}
use alertthread.Core.Policy.{default}
use alertthread.Relay.{empty_db}
use alertthread.Server.Auth.{
  allowed, authorize, matches, differences, secrets_match, bearer, secrets_match_iff, authorize_iff,
}
use alertthread.Server.Webhook.{
  AppState, decoded, malformed, resolve_channel, webhook, require_bearer, webhook_route,
}
use alertthread.Server.Webhook.Persisted.{Delivers, Answers, Dropped, serve-Answers}
use alertthread.Base.Text.{
  is_blank, is_whitespace, as_bytes, split_once, eq_ignore_ascii_case, trim,
}
use alertthread.Core.Domain.{Op, Placement}
use alertthread.Store.Model.{DeadLetter, ok}
use alertthread.Store.Payload.{load_op, store_op}
use alertthread.Store.Row.{decode}
use alertthread.Store.Sql.{Db, queued_row}
use alertthread.Store.Query.{dead_letters}
use alertthread.Server.Cli.{Replay, replay, fine, no_replay, parse}
use alertthread.Server.Replay.{Report, scope_of, report, run, age, line}
use alertthread.Server.Replay.Committed.{Replays, run-Replays, run-dry}
use alertthread.Base.Int.{pos, negsuc}
use alertthread.Core.Ids.{ChannelId}
use alertthread.Server.Config.{
  Config, default_slack, default_config, valid, invalid, no_token, check, default_channel_of,
}
use alertthread.Server.Config.Started.{check-resolve_channel}
use alertthread.Server.Config.Durations.{
  parse_duration, done, refused, panicked, not_a_duration, unknown_unit, too_long,
}
use alertthread.Tests.{firing}

abbrev payload : WebhookPayload
payload = record {
  version = "4";
  group_key = "g1";
  truncated_alerts = 0;
  status = AlertStatus.firing;
  receiver = "slack";
  group_labels = [];
  common_labels = [];
  common_annotations = [];
  external_url = "";
  notification_reason = none;
  alerts = firing ∷ [];
}

abbrev relay : AppState
relay = record {
  policy = default;
  default_channel = some "C1";
  webhook_token = some "secret";
  decode = λ body. if str_eq body "alert" then decoded payload else malformed "no JSON";
}

abbrev right : List ℕ
right = 1 ∷ 2 ∷ []

abbrev wrong : List ℕ
wrong = 1 ∷ 3 ∷ []

secrets_match_iff_example : (secrets_match right wrong ≡ true) ↔ (right ≡ wrong)
secrets_match_iff_example = secrets_match_iff right wrong

authorize_iff_example : (authorize (some "Bearer secret") "secret" ≡ allowed) ↔ (
    (scheme credential : String) × (some "Bearer secret"
      ≡ some (str_append scheme (str_append " " credential)))
    × (eq_ignore_ascii_case scheme "bearer" ≡ true)
    × (as_bytes (trim credential) ≡ as_bytes "secret"))
authorize_iff_example = authorize_iff (some "Bearer secret") "secret"

serve-Answers_example :
    Answers
      (Delivers relay none "alert" 7 empty_db)
      empty_db
      (serve relay (some "Bearer secret") none "alert" 7 dropped_after_commit empty_db)
    ⊎ ((dropped_after_commit ≢ in_time)
        × Dropped
            (Delivers relay none "alert" 7 empty_db)
            empty_db
            (serve relay (some "Bearer secret") none "alert" 7 dropped_after_commit empty_db))
serve-Answers_example =
    serve-Answers relay (some "Bearer secret") none "alert" 7 dropped_after_commit empty_db

-- Without the token a delivery is refused, and with it one whose body does not decode.
test_statuses :
    ((webhook_route relay none none "alert" 7 empty_db).0.status ≡ 401)
    × ((webhook_route relay (some "Bearer wrong") none "alert" 7 empty_db).0.status ≡ 401)
    × ((webhook_route relay (some "Bearer secret") none "{" 7 empty_db).0.status ≡ 400)
unfolding webhook_route require_bearer authorize bearer matches secrets_match differences as_bytes
    webhook resolve_channel split_once eq_ignore_ascii_case trim is_whitespace
test_statuses = (refl, refl, refl)

abbrev one_parked : Db
one_parked = record {
  alerts = [];
  groups = [];
  outbox = record {
    rows =
        record (queued_row 4 (Op.post "fp1" "C1" Placement.channel) 5) { dead_lettered_at = some 9 }
        ∷ [];
    last_id = 4;
  };
}

abbrev everything_parked : Replay
everything_parked = record {
  config = none;
  channel = none;
  fingerprint = some "fp1";
  commit = true;
}

abbrev shown : List DeadLetter
shown =
    record {
      id = 4;
      op = Op.post "fp1" "C1" Placement.channel;
      channel = "C1";
      fingerprint = some "fp1";
      attempts = 0;
      last_error = none;
      created_at = 5;
      dead_lettered_at = 9;
    }
    ∷ []

abbrev answered : Report × Db
answered = report (λ at. "then") (scope_of everything_parked) shown true 12 one_parked

replayed : run (λ at. "then") everything_parked 12 one_parked one_parked ≡ ok answered
unfolding run scope_of dead_letters decode load_op store_op
replayed = refl

run-Replays_example :
    Replays (scope_of everything_parked) true 12 one_parked one_parked answered.0 answered.1
run-Replays_example =
    run-Replays (λ at. "then") everything_parked 12 one_parked one_parked answered.1 answered.0
      replayed

test_age : (age 90_000_000_000 0 ≡ "1m30s") × (age 0 5 ≡ "in the future")
unfolding age
test_age = (refl, refl)

-- A row fills its columns, but for the last.
test_line : line ("ID" ∷ "OP" ∷ []) (4 ∷ 9 ∷ []) ≡ "  ID    OP\n"
unfolding line
test_line = refl

abbrev dry_args : List String
dry_args = "replay" ∷ "--fingerprint" ∷ "fp1" ∷ []

abbrev dry : Replay
dry = record no_replay { fingerprint = some "fp1" }

parsed : parse dry_args ≡ fine (replay dry)
unfolding parse trim is_whitespace
parsed = refl

abbrev looked : Report × Db
looked = report (λ at. "then") (scope_of dry) shown false 12 one_parked

looked_eq : run (λ at. "then") dry 12 one_parked one_parked ≡ ok looked
unfolding run scope_of dead_letters decode load_op store_op
looked_eq = refl

run-dry_example : looked.1 ≡ one_parked
run-dry_example =
    run-dry dry_args dry (λ at. "then") 12 one_parked one_parked looked.1 looked.0 parsed refl
      looked_eq

-- A number with no unit that is too large panics, where one with a unit is refused.
test_parse :
    (parse_duration " 1h30m " ≡ done (pos 5_400_000_000_000))
    × (parse_duration "-5s" ≡ done (negsuc 4_999_999_999))
    × (parse_duration "30" ≡ done (pos 30_000_000_000))
    × (parse_duration "1h30" ≡ refused (not_a_duration "1h30"))
    × (parse_duration "5w" ≡ refused (unknown_unit "w" "5w"))
    × (parse_duration "9223372036854775807s" ≡ refused (too_long "9223372036854775807s"))
    × (parse_duration "9223372036854775807" ≡ panicked)
unfolding parse_duration is_whitespace
test_parse = (refl, refl, refl, refl, refl, refl, refl)

abbrev settings : Config ℕ 1
settings = record (default_config ℕ 1) {
  slack = record (default_slack ℕ 1) { token = some "xoxb"; default_channel = some " alerts " };
}

settings-valid : check ℕ 1 settings ≡ valid
unfolding check trim is_whitespace
settings-valid = refl

check-resolve_channel_example :
    (chan : ChannelId) × (resolve_channel (some " ") (default_channel_of ℕ 1 settings) ≡ some chan)
    × (is_blank chan ≡ false)
check-resolve_channel_example = check-resolve_channel ℕ 1 settings (some " ") settings-valid

-- Without a token the relay does not start.
test_no_token : check ℕ 1 (default_config ℕ 1) ≡ invalid no_token
unfolding check
test_no_token = refl
