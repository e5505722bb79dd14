-- ===== src/Slack/Render.antt =====
-- crates/slack/src/render/mod.rs: a request is rendered by its template, and by a built-in text where that
-- fails. The template engine (minijinja), its built-in sources and the format of a date are parameters.
pub mod Shown
pub mod Installed
use alertthread.Base.{
  ℕ, String, Bool, true, false, not, ◌&&◌, Option, none, some, List, [], ◌∷◌, ◌++◌, str_eq,
  if◌then◌else◌, is_some,
}
use alertthread.Base.Text.{is_blank, trim, joined}
use alertthread.Base.Lines.{decimal}
use alertthread.Worker.Views.{RenderRequest}
use alertthread.Slack.Message.{Colour, MessageBody, message_body}
use alertthread.Slack.Blocks.{Truncation, sections, notification}
use alertthread.Slack.Vars.{
  TemplateKind, all_kinds, as_str, kind, colour, AlertVars, alert_vars, GroupVars, group_vars,
}

pub data FallbackReason : Type 0 where
  render_failed : FallbackReason
  empty_output : FallbackReason

unfoldable pub reason_as_str : FallbackReason → String
reason_as_str render_failed = "render_failed"
reason_as_str empty_output = "empty_output"

pub record Degradation : Type 0 where
  pub template : TemplateKind
  pub reason : FallbackReason
  pub detail : String

pub record Rendered : Type 0 where
  pub body : MessageBody
  pub degraded : Option Degradation
  pub truncated : Option Truncation

unfoldable pub is_intact : Rendered → Bool
is_intact r = not (is_some r.degraded) && not (is_some r.truncated)

pub record RejectedOverride : Type 0 where
  pub template : TemplateKind
  pub detail : String

-- `context!` with one variable, `alert` or `group`.
pub data Value : Type 0 where
  alert_value : (vars : AlertVars) → Value
  group_value : (vars : GroupVars) → Value

-- A result whose error is a text.
pub data Attempt (A : Type 0) : Type 0 where
  made : (value : A) → Attempt A
  failed : (detail : String) → Attempt A

-- The engine: whether a source compiles under a name, and what the compiled one gives. `missing` is the
-- error for a template that the environment does not hold.
pub record Engine : Type 0 where
  pub compile : String → String → Option String
  pub run : String → String → Value → Attempt String
  pub missing : String → String
  pub source : TemplateKind → String
  pub stamp : ℕ → String

-- The environment: the sources that compiled, under their names, and what was refused.
pub record Installation : Type 0 where
  pub env : List (String × String)
  pub rejected : List RejectedOverride

abbrev pub get_template : String → List (String × String) → Option String
get_template name [] = none
get_template name ((n, source) ∷ rest) =
    if str_eq n name then some source else get_template name rest

abbrev same_kind : TemplateKind → TemplateKind → Bool
same_kind k l = str_eq (as_str k) (as_str l)

-- What the map that the overrides are collected into holds: the last one for a kind.
unfoldable pub supplied : List (TemplateKind × String) → TemplateKind → Option String
unfolding as_str
supplied [] k = none
supplied ((l, source) ∷ rest) k =
    let later = supplied rest k in
    elim later [ some s ↦ some s | none ↦ if same_kind l k then some source else none ]

unfoldable pub assemble : Colour → String → Option Degradation → Rendered
unfolding sections notification message_body
assemble bar content degraded =
    let fitted = sections content in
    record {
      body = message_body bar (notification content) fitted.0;
      degraded = degraded;
      truncated = fitted.1;
    }

unfoldable pub fallback_alert_text : AlertVars → String → String
fallback_alert_text vars status = joined (
    "*" ∷ status ∷ " · " ∷ vars.alertname ∷ "*\n`" ∷ vars.fingerprint
    ∷ "`\n_alertthread could not render its message template, so this is the built-in minimal message. "
    ∷ "The alert itself is unaffected; check `alertthread_fallback_posts_total`._" ∷ [])

unfoldable pub fallback_group_text : GroupVars → String
unfolding decimal
fallback_group_text vars = joined (
    "*"
    ∷ decimal vars.firing
    ∷ " of "
    ∷ decimal vars.total_alerts
    ∷ " alerts firing · "
    ∷ vars.title
    ∷ "*\n_alertthread could not render its message template, so this is the built-in minimal message. "
    ∷ "Individual alerts are threaded under this message._"
    ∷ [])

abbrev degraded_to : TemplateKind → FallbackReason → String → Option Degradation
degraded_to template reason detail =
    some (record { template = template; reason = reason; detail = detail })

unfoldable pub shown : TemplateKind → Colour → String → Attempt String → Rendered
unfolding assemble
shown template bar fallback (made content) =
    if is_blank (trim content)
    then assemble bar fallback (degraded_to template empty_output "")
    else assemble bar content none
shown template bar fallback (failed detail) =
    assemble bar fallback (degraded_to template render_failed detail)

module _ (engine : Engine) where
  -- Whether it compiled, and the environment then.
  unfoldable pub install : TemplateKind → String → Installation → Bool × Installation
  install k source i = elim (engine.compile (as_str k) source) [
    | none ↦ (true, record i { env = (as_str k, source) ∷ i.env })
    | some detail ↦
        (false, record i { rejected = i.rejected ++ record { template = k; detail = detail } ∷ [] })
  ]

  unfoldable pub install_builtin : TemplateKind → Bool × Installation → Installation
  unfolding install
  install_builtin k (true, i) = i
  install_builtin k (false, i) = (install k (engine.source k) i).1

  unfoldable pub install_override :
      TemplateKind → Option String → Installation → Bool × Installation
  unfolding install
  install_override k none i = (false, i)
  install_override k (some source) i = install k source i

  unfoldable pub install_kind :
      (TemplateKind → Option String) → TemplateKind → Installation → Installation
  unfolding install_override install_builtin
  install_kind overrides k i = install_builtin k (install_override k (overrides k) i)

  unfoldable pub install_all :
      (TemplateKind → Option String) → List TemplateKind → Installation → Installation
  unfolding install_kind
  install_all overrides [] i = i
  install_all overrides (k ∷ rest) i = install_all overrides rest (install_kind overrides k i)

  unfoldable pub renderer : List (TemplateKind × String) → Installation
  unfolding install_all supplied
  renderer overrides =
      install_all (supplied overrides) all_kinds (record { env = []; rejected = [] })

  unfoldable pub render_text : List (String × String) → TemplateKind → Value → Attempt String
  render_text env k value = elim (get_template (as_str k) env) [
    | none ↦ failed (engine.missing (as_str k))
    | some source ↦ engine.run (as_str k) source value
  ]

  -- The variables of a request and the text that stands in for its template.
  unfoldable pub variables : RenderRequest → ℕ → Value × String
  unfolding alert_vars group_vars fallback_alert_text fallback_group_text
  variables (RenderRequest.firing alert) now =
      let vars = alert_vars engine.stamp alert now in
      (alert_value vars, fallback_alert_text vars "FIRING")
  variables (RenderRequest.resolved alert) now =
      let vars = alert_vars engine.stamp alert now in
      (alert_value vars, fallback_alert_text vars "RESOLVED")
  variables (RenderRequest.thread_reply alert) now =
      let vars = alert_vars engine.stamp alert now in
      (alert_value vars, fallback_alert_text vars "RESOLVED")
  variables (RenderRequest.group_summary group) now =
      let vars = group_vars group in (group_value vars, fallback_group_text vars)

  unfoldable pub render : List (String × String) → RenderRequest → ℕ → Rendered
  unfolding kind colour variables render_text shown
  render env request now =
      let vars = variables request now in
      shown (kind request) (colour request) vars.1 (render_text env (kind request) vars.0)
