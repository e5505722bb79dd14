-- ===== src/Server/Replay.antt =====
-- crates/app/src/replay.rs: an operator's look at the dead-letter queue, and its return to the outbox. What
-- is printed is the text of the result; the format of an instant is a parameter, and so is the opening of
-- the store.
pub mod Committed
use alertthread.Base.{
  ℕ, zero, suc, ◌-◌, ◌*◌, ◌/◌, max, String, Bool, true, false, Option, none, some, List, [], ◌∷◌,
  map, ltb, leb, ◌==◌, if◌then◌else◌, length, take,
}
use alertthread.Base.Text.{joined}
use alertthread.Base.Lines.{char_count, take_chars, decimal}
use alertthread.Core.Ids.{ChannelId, Fingerprint}
use alertthread.Store.Payload.{kind_of, as_str}
use alertthread.Store.Model.{
  DeadLetter, DeadLetterScope, everything, with_channel, with_fingerprint, Result, ok, ◌>>=◌,
}
use alertthread.Store.Sql.{Db}
use alertthread.Server.Cli.{Replay}
use alertthread.Store.Outbox.{revive_dead_letters}
use alertthread.Store.Query.{dead_letters}

abbrev pub list_limit : ℕ
list_limit = 10_000

abbrev pub show_limit : ℕ
show_limit = 50

abbrev pub error_width : ℕ
error_width = 120

pub record Summary : Type 0 where
  pub matched : ℕ
  pub revived : ℕ
  pub committed : Bool
  pub capped : Bool

abbrev narrowed :
    Option String → (DeadLetterScope → String → DeadLetterScope) → DeadLetterScope → DeadLetterScope
narrowed none narrow scope = scope
narrowed (some value) narrow scope = narrow scope value

unfoldable pub scope_of : Replay → DeadLetterScope
scope_of args =
    narrowed args.fingerprint with_fingerprint (narrowed args.channel with_channel everything)

abbrev named : Option ChannelId → Option Fingerprint → String
named none none = "the dead-letter queue"
named (some channel) none = joined ("channel " ∷ channel ∷ [])
named none (some fingerprint) = joined ("fingerprint " ∷ fingerprint ∷ [])
named (some channel) (some fingerprint) =
    joined ("channel " ∷ channel ∷ " and fingerprint " ∷ fingerprint ∷ [])

unfoldable pub describe : DeadLetterScope → String
describe scope = named scope.channel scope.fingerprint

unfoldable pub nothing_parked : DeadLetterScope → String
unfolding describe
nothing_parked scope =
    joined ("Nothing is parked in " ∷ describe scope ∷ ". There is nothing to replay." ∷ [])

unfoldable pub headline : DeadLetterScope → ℕ → Bool → String
unfolding describe decimal
headline scope matched capped = joined (
    (if capped then joined ("At least " ∷ decimal matched ∷ []) else decimal matched)
    ∷ " "
    ∷ (if matched == 1 then "operation is" else "operations are")
    ∷ " parked in "
    ∷ describe scope
    ∷ " and never reached Slack."
    ∷ [])

unfoldable pub dry_run_footer : ℕ → String
unfolding decimal
dry_run_footer matched = joined (
    "DRY RUN — nothing has been changed.\nRe-run with --commit to return "
    ∷ decimal matched
    ∷ " operation(s) to the outbox."
    ∷ [])

unfoldable pub committed_footer : ℕ → String
unfolding decimal
committed_footer revived = joined (
    "Returned "
    ∷ decimal revived
    ∷ " parked operation(s) to the outbox.\n\n"
    ∷ "They are queued, not sent: the relay's outbox worker delivers them on its next\n"
    ∷ "pass, under the same lease as any other queued work. If no relay is running\n"
    ∷ "against this store, they go out when one starts. Watch alertthread_outbox_depth\n"
    ∷ "fall back to zero, or the relay's logs."
    ∷ [])

abbrev second : ℕ
second = 1_000_000_000

unfoldable pub age : ℕ → ℕ → String
unfolding decimal
age now at =
    let seconds = (now - at) / second in
    let minutes = seconds / 60 in
    let hours = minutes / 60 in
    let days = hours / 24 in
    if ltb now at
    then "in the future"
    else if ltb 0 days
    then joined (decimal days ∷ "d" ∷ decimal (hours - days * 24) ∷ "h" ∷ [])
    else if ltb 0 hours
    then joined (decimal hours ∷ "h" ∷ decimal (minutes - hours * 60) ∷ "m" ∷ [])
    else if ltb 0 minutes
    then joined (decimal minutes ∷ "m" ∷ decimal (seconds - minutes * 60) ∷ "s" ∷ [])
    else joined (decimal seconds ∷ "s" ∷ [])

unfoldable pub elide : String → ℕ → String
elide s max = if leb (char_count s) max then s else joined (take_chars (max - 1) s ∷ "…" ∷ [])

abbrev headings : List String
headings = "ID" ∷ "OP" ∷ "CHANNEL" ∷ "FINGERPRINT" ∷ "TRIES" ∷ "PARKED" ∷ "LAST ERROR" ∷ []

abbrev or_text : Option String → String → String
or_text none other = other
or_text (some s) other = s

-- `Row::of` and `cells`.
unfoldable pub cells : (ℕ → String) → DeadLetter → ℕ → List String
unfolding decimal as_str age elide
cells rfc3339 row now =
    decimal row.id
    ∷ as_str (kind_of row.op)
    ∷ row.channel
    ∷ or_text row.fingerprint "-"
    ∷ decimal row.attempts
    ∷ joined (rfc3339 row.dead_lettered_at ∷ " (" ∷ age now row.dead_lettered_at ∷ " ago)" ∷ [])
    ∷ elide (or_text row.last_error "(none recorded)") error_width
    ∷ []

abbrev widen : List ℕ → List String → List ℕ
widen [] row = []
widen (w ∷ ws) [] = w ∷ ws
widen (w ∷ ws) (c ∷ cs) = max w (char_count c) ∷ widen ws cs

abbrev widths : List (List String) → List ℕ → List ℕ
widths [] ws = ws
widths (row ∷ rest) ws = widths rest (widen ws row)

abbrev spaces : ℕ → String
spaces zero = ""
spaces (suc n) = joined (" " ∷ spaces n ∷ [])

-- Every cell but the last is filled up to its column.
abbrev columns : List String → List ℕ → String
columns [] ws = ""
columns (c ∷ []) ws = c
columns (c ∷ d ∷ cs) [] = ""
columns (c ∷ d ∷ cs) (w ∷ ws) =
    joined (c ∷ spaces (w - char_count c) ∷ "  " ∷ columns (d ∷ cs) ws ∷ [])

unfoldable pub line : List String → List ℕ → String
line cs ws = joined ("  " ∷ columns cs ws ∷ "\n" ∷ [])

abbrev body : List (List String) → List ℕ → String
unfolding line
body [] ws = ""
body (row ∷ rest) ws = joined (line row ws ∷ body rest ws ∷ [])

unfoldable pub table : (ℕ → String) → List DeadLetter → ℕ → String
unfolding cells line decimal
table rfc3339 parked now =
    let shown = map (λ row. cells rfc3339 row now) (take show_limit parked) in
    let ws = widths shown (map char_count headings) in
    joined (
      line headings ws
      ∷ body shown ws
      ∷ (if ltb (length shown) (length parked)
          then joined
              ("  ... and " ∷ decimal (length parked - length shown) ∷ " more not shown.\n" ∷ [])
          else "")
      ∷ [])

pub record Report : Type 0 where
  pub summary : Summary
  pub printed : String

unfoldable pub listed : (ℕ → String) → DeadLetterScope → List DeadLetter → ℕ → String
unfolding headline table
listed rfc3339 scope parked now = joined (
    headline scope (length parked) (leb list_limit (length parked))
    ∷ "\n\n"
    ∷ table rfc3339 parked now
    ∷ "\n"
    ∷ [])

abbrev pub summary_of : List DeadLetter → Bool → ℕ → Summary
summary_of parked commit revived = record {
  matched = length parked;
  revived = revived;
  committed = commit;
  capped = leb list_limit (length parked);
}

unfoldable pub report :
    (ℕ → String) → DeadLetterScope → List DeadLetter → Bool → ℕ → Db → Report × Db
unfolding listed nothing_parked dry_run_footer committed_footer revive_dead_letters
report rfc3339 scope [] commit now db = (
  record { summary = summary_of [] commit 0; printed = joined (nothing_parked scope ∷ "\n" ∷ []) },
  db,
)
report rfc3339 scope (row ∷ rest) false now db = (
  record {
    summary = summary_of (row ∷ rest) false 0;
    printed =
        joined (
          listed rfc3339 scope (row ∷ rest) now ∷ dry_run_footer (length (row ∷ rest)) ∷ "\n" ∷ []);
  },
  db,
)
report rfc3339 scope (row ∷ rest) true now db =
    let requeued = revive_dead_letters scope now db in
    (
      record {
        summary = summary_of (row ∷ rest) true requeued.0;
        printed =
            joined
              (listed rfc3339 scope (row ∷ rest) now ∷ committed_footer requeued.0 ∷ "\n" ∷ []);
      },
      requeued.1,
    )

-- The listing and the revival are transactions of their own: the first reads `seen`, and the second finds
-- the database that others have made of it since.
unfoldable pub run : (ℕ → String) → Replay → ℕ → Db → Db → Result (Report × Db)
unfolding scope_of dead_letters report
run rfc3339 args now seen db = do
  parked ← dead_letters (scope_of args) list_limit seen
  ok (report rfc3339 (scope_of args) parked args.commit now db)
