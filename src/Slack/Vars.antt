-- ===== src/Slack/Vars.antt =====
-- crates/slack/src/render/view.rs: what a template is given. The format of a date is a parameter, and a
-- duration is a number of nanoseconds, as `AlertView::duration` makes none below zero.
pub mod Escaping
use Prim.Native.Char.{code}
use Prim.Native.String.{compare}
use alertthread.Base.{
  ℕ, ◌+◌, ◌-◌, ◌*◌, ◌/◌, String, Bool, not, Option, none, some, List, [], ◌∷◌, map, ltb, ◌==◌,
  str_eq, if◌then◌else◌, is_some,
}
use Prim.Native.Nat.{Ordering}
use alertthread.Base.Text.{is_blank, joined}
use alertthread.Base.Lines.{decimal}
use alertthread.Core.Ids.{LabelMap}
use alertthread.Core.Webhook.{WebhookAlert, Intent, intent}
use alertthread.Worker.Views.{AlertView, GroupView, RenderRequest, lookup, or_else}
use alertthread.Slack.Message.{Colour}

unfoldable pub alert_view_from_webhook : WebhookAlert → AlertView
alert_view_from_webhook a = record {
  fingerprint = a.fingerprint;
  labels = a.labels;
  annotations = a.annotations;
  starts_at = a.starts_at;
  resolved_at = elim (intent a.status) [ Intent.resolved ↦ some a.ends_at | Intent.firing ↦ none ];
  generator_url = a.generator_url;
}

-- `(end - starts_at).max(zero)`
unfoldable pub duration : AlertView → ℕ → ℕ
duration view now = or_else view.resolved_at now - view.starts_at

unfoldable pub total : GroupView → ℕ
total g = g.firing + g.resolved

unfoldable pub all_resolved : GroupView → Bool
all_resolved g = g.firing == 0

pub data TemplateKind : Type 0 where
  firing : TemplateKind
  resolved : TemplateKind
  group_summary : TemplateKind
  thread_reply : TemplateKind

abbrev pub all_kinds : List TemplateKind
all_kinds =
    TemplateKind.firing ∷ TemplateKind.resolved ∷ TemplateKind.group_summary
    ∷ TemplateKind.thread_reply ∷ []

unfoldable pub as_str : TemplateKind → String
as_str TemplateKind.firing = "firing"
as_str TemplateKind.resolved = "resolved"
as_str TemplateKind.group_summary = "group_summary"
as_str TemplateKind.thread_reply = "thread_reply"

unfoldable pub strip_suffix : String → String → Option String
strip_suffix suffix String.[] = if is_blank suffix then some "" else none
strip_suffix suffix (String.◌∷◌ c s) =
    let rest = strip_suffix suffix s in
    if str_eq (String.◌∷◌ c s) suffix
    then some ""
    else elim rest [ none ↦ none | some stem ↦ some (String.◌∷◌ c stem) ]

abbrev or_try : Option String → Option String → Option String
or_try none other = other
or_try (some s) other = some s

abbrev stem_of : String → String
stem_of name =
    or_else
      (or_try (strip_suffix ".j2" name)
        (or_try (strip_suffix ".jinja" name) (strip_suffix ".txt" name)))
      name

abbrev find_kind : String → List TemplateKind → Option TemplateKind
find_kind stem [] = none
find_kind stem (k ∷ rest) = if str_eq (as_str k) stem then some k else find_kind stem rest

unfoldable pub parse : String → Option TemplateKind
unfolding as_str strip_suffix
parse name = find_kind (stem_of name) all_kinds

unfoldable pub kind : RenderRequest → TemplateKind
kind (RenderRequest.firing view) = TemplateKind.firing
kind (RenderRequest.resolved view) = TemplateKind.resolved
kind (RenderRequest.thread_reply view) = TemplateKind.thread_reply
kind (RenderRequest.group_summary view) = TemplateKind.group_summary

unfoldable pub colour : RenderRequest → Colour
unfolding all_resolved
colour (RenderRequest.firing view) = Colour.firing
colour (RenderRequest.resolved view) = Colour.resolved
colour (RenderRequest.thread_reply view) = Colour.resolved
colour (RenderRequest.group_summary view) =
    if all_resolved view then Colour.resolved else Colour.firing

-- `push_str`, in front of what follows.
abbrev pub onto : String → String → String
onto String.[] t = t
onto (String.◌∷◌ c s) t = String.◌∷◌ c (onto s t)

unfoldable pub escape : String → String
escape String.[] = ""
escape (String.◌∷◌ c s) =
    let rest = escape s in
    if code c == 38
    then onto "&amp;" rest
    else if code c == 60
    then onto "&lt;" rest
    else if code c == 62
    then onto "&gt;" rest
    else String.◌∷◌ c rest

-- A `BTreeMap`: the entries in the order of their keys, and the last entry for a key.
abbrev insert : String → String → LabelMap → LabelMap
insert key value [] = (key, value) ∷ []
insert key value ((k, v) ∷ rest) =
    let more = insert key value rest in
    elim (compare key k) [
      | Ordering.lt ↦ (key, value) ∷ (k, v) ∷ rest
      | Ordering.eq ↦ (key, value) ∷ rest
      | Ordering.gt ↦ (k, v) ∷ more
    ]

abbrev collect : LabelMap → LabelMap → LabelMap
collect [] acc = acc
collect ((k, v) ∷ rest) acc = collect rest (insert k v acc)

unfoldable pub escape_map : LabelMap → LabelMap
unfolding escape
escape_map m = collect (map (λ e. (escape e.0, escape e.1)) m) []

unfoldable pub lookup_escaped : LabelMap → String → String
unfolding escape
lookup_escaped m key = elim (lookup key m) [ none ↦ "" | some value ↦ escape value ]

abbrev second : ℕ
second = 1_000_000_000

-- `TimeDelta` truncates to whole days, hours, minutes and seconds.
unfoldable pub humanize : ℕ → String
unfolding decimal
humanize delta =
    let seconds = delta / second in
    let minutes = seconds / 60 in
    let hours = minutes / 60 in
    let days = hours / 24 in
    if ltb 0 days
    then joined (decimal days ∷ "d " ∷ decimal (hours - days * 24) ∷ "h" ∷ [])
    else if ltb 0 hours
    then joined (decimal hours ∷ "h " ∷ decimal (minutes - hours * 60) ∷ "m" ∷ [])
    else if ltb 0 minutes
    then joined (decimal minutes ∷ "m " ∷ decimal (seconds - minutes * 60) ∷ "s" ∷ [])
    else joined (decimal (seconds - minutes * 60) ∷ "s" ∷ [])

pub record AlertVars : Type 0 where
  pub fingerprint : String
  pub alertname : String
  pub severity : String
  pub summary : String
  pub description : String
  pub runbook_url : String
  pub labels : LabelMap
  pub annotations : LabelMap
  pub generator_url : String
  pub started_at : String
  pub resolved_at : String
  pub duration_text : String
  pub is_firing : Bool

unfoldable pub alert_vars : (ℕ → String) → AlertView → ℕ → AlertVars
unfolding escape lookup_escaped escape_map humanize duration
alert_vars stamp view now = record {
  fingerprint = escape view.fingerprint;
  alertname = elim (lookup "alertname" view.labels) [
    | none ↦ "(unnamed alert)"
    | some name ↦ escape name
  ];
  severity = lookup_escaped view.labels "severity";
  summary = lookup_escaped view.annotations "summary";
  description = lookup_escaped view.annotations "description";
  runbook_url = lookup_escaped view.annotations "runbook_url";
  labels = escape_map view.labels;
  annotations = escape_map view.annotations;
  generator_url = escape view.generator_url;
  started_at = stamp view.starts_at;
  resolved_at = elim view.resolved_at [ none ↦ "" | some at ↦ stamp at ];
  duration_text = humanize (duration view now);
  is_firing = not (is_some view.resolved_at);
}

abbrev pairs : LabelMap → String
pairs [] = ""
pairs ((k, v) ∷ []) = joined (k ∷ "=" ∷ v ∷ [])
pairs ((k, v) ∷ e ∷ rest) = joined (k ∷ "=" ∷ v ∷ " " ∷ pairs (e ∷ rest) ∷ [])

abbrev described : LabelMap → String → String
described [] group_key = if is_blank group_key then "(unnamed group)" else group_key
described (e ∷ rest) group_key = pairs (e ∷ rest)

unfoldable pub group_title : LabelMap → String → String
group_title labels group_key = elim (lookup "alertname" labels) [
  | none ↦ described labels group_key
  | some name ↦ if is_blank name then described labels group_key else name
]

pub record GroupVars : Type 0 where
  pub group_key : String
  pub labels : LabelMap
  pub title : String
  pub firing : ℕ
  pub resolved : ℕ
  pub total_alerts : ℕ
  pub is_all_resolved : Bool

unfoldable pub group_vars : GroupView → GroupVars
unfolding escape escape_map group_title total all_resolved
group_vars view =
    let group_key = escape view.group_key in
    let labels = escape_map view.labels in
    record {
      group_key = group_key;
      labels = labels;
      title = group_title labels group_key;
      firing = view.firing;
      resolved = view.resolved;
      total_alerts = total view;
      is_all_resolved = all_resolved view;
    }
