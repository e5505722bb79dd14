-- ===== src/Tests/Renders.antt =====
-- Runs of the renderer and of Slack's client on small texts and answers.
use alertthread.Base.{
  ◌⊎◌, ℕ, String, ◌≡◌, refl, ◌↔◌, true, false, none, some, List, [], ◌∷◌, ◌++◌, str_eq,
  if◌then◌else◌, All,
}
use alertthread.Base.Text.{is_whitespace, joined, trim}
use alertthread.Base.Lines.{decimal, lines, join, split_whitespace}
use alertthread.Worker.Views.{AlertView}
use alertthread.Slack.{SlackMethod, rate_limited_error}
use alertthread.Slack.Client.Response.{
  whole, Sent, arrived, refused, accepted, Parsed, parsed, unparsed, call, UpdateResponse,
  parse_u64, retry_after_of,
}
use alertthread.Slack.Client.Calls.{Succeeds, IsOf, call-eq-accepted_iff, call-refused}
use alertthread.Slack.Blocks.{chunk, tidy, tidy_lines, notification}
use alertthread.Slack.Blocks.Chunks.{Fits, joined-chunk}
use alertthread.Slack.Vars.{TemplateKind, escape, humanize}
use alertthread.Slack.Vars.Escaping.{unescape, has_bracket, escape_lem}
use alertthread.Slack.Vars.{as_str}
use alertthread.Slack.Render.{Engine, made, get_template, renderer}
use alertthread.Slack.Render.Installed.{chosen, refused as refused_overrides, renderer_lem}

abbrev decode : String → Parsed UpdateResponse
decode body =
    if str_eq body "ok"
    then parsed (record { envelope = record { is_ok = true; error = none } })
    else unparsed "no JSON"

abbrev good : UpdateResponse
good = record { envelope = record { is_ok = true; error = none } }

abbrev answer : ℕ → String → Sent
answer status body = arrived (record { status = status; retry_after = some "0"; body = whole body })

call-eq-accepted_iff_example :
    (call decode (λ r. r.envelope) SlackMethod.update_message (answer 200 "ok") ≡ accepted good)
    ↔ Succeeds SlackMethod.update_message decode (λ r. r.envelope) (answer 200 "ok") good
call-eq-accepted_iff_example =
    call-eq-accepted_iff SlackMethod.update_message decode (λ r. r.envelope) (answer 200 "ok") good

-- A wait of no seconds is read as one second.
limited :
    call decode (λ r. r.envelope) SlackMethod.update_message (answer 429 "")
    ≡ refused (rate_limited_error SlackMethod.update_message 1_000_000_000)
unfolding call retry_after_of trim is_whitespace
limited = refl

call-refused_example :
    IsOf SlackMethod.update_message (rate_limited_error SlackMethod.update_message 1_000_000_000)
call-refused_example =
    call-refused SlackMethod.update_message decode (λ r. r.envelope) (answer 429 "")
      (rate_limited_error SlackMethod.update_message 1_000_000_000) limited

joined-chunk_example :
    (joined (chunk "ab\ncdef" 4) ≡ "ab\ncdef")
    × ((◌≡◌ {A = ℕ} 4 0) ⊎ All (Fits 4) (chunk "ab\ncdef" 4))
joined-chunk_example = joined-chunk "ab\ncdef" 4

-- A piece ends behind a line where that leaves it longer than half of the limit.
test_chunk : chunk "ab\ncdef" 4 ≡ "ab\n" ∷ "cdef" ∷ []
unfolding chunk
test_chunk = refl

test_tidy : tidy "a \n\n\nb" ≡ "a\n\nb"
unfolding tidy trim join tidy_lines lines is_whitespace
test_tidy = refl

test_notification : notification "\n *FIRING*  `x`\nmore" ≡ "FIRING x"
unfolding notification join split_whitespace lines trim is_whitespace
test_notification = refl

test_decimal : (decimal 0 ≡ "0") × (decimal 3050 ≡ "3050") × (parse_u64 "+17" ≡ some 17)
unfolding decimal parse_u64
test_decimal = (refl, refl, refl)

test_humanize : (humanize 90_000_000_000 ≡ "1m 30s") × (humanize 90_000_000_000_000 ≡ "1d 1h")
unfolding humanize
test_humanize = (refl, refl)

escape_lem_example :
    (unescape (escape "<!here> & co") ≡ "<!here> & co")
    × (has_bracket (escape "<!here> & co") ≡ false)
escape_lem_example = escape_lem "<!here> & co"

abbrev alert_view : AlertView
alert_view = record {
  fingerprint = "fp1";
  labels = [];
  annotations = [];
  starts_at = 0;
  resolved_at = none;
  generator_url = "";
}

-- An engine that takes every source but one, and gives the source back.
abbrev echo : Engine
echo = record {
  compile = λ name source. if str_eq source "{{" then some "unclosed" else none;
  run = λ name source value. made source;
  missing = λ name. "missing";
  source = λ k. "built in";
  stamp = λ at. "";
}

abbrev overrides : List (TemplateKind × String)
overrides = (TemplateKind.firing, "{{") ∷ (TemplateKind.resolved, "own") ∷ []

renderer_lem_example :
    ((k : TemplateKind)
      → get_template (as_str k) (renderer echo overrides).env ≡ some (chosen echo overrides k))
    × ((renderer echo overrides).rejected
        ≡ ((refused_overrides echo overrides TemplateKind.firing
              ++ refused_overrides echo overrides TemplateKind.resolved)
            ++ refused_overrides echo overrides TemplateKind.group_summary)
          ++ refused_overrides echo overrides TemplateKind.thread_reply)
renderer_lem_example = renderer_lem echo overrides (λ k. refl)
