-- ===== src/Worker/Views.antt =====
-- What a message is rendered from: crates/slack/src/render/view.rs, the views that
-- crates/app/src/delivery.rs makes of the store's records, and the calls of crates/slack/src/client.rs.
-- The renderer gives a body of any type.
use alertthread.Base.{ℕ, max, String, Bool, Option, none, some, [], ◌∷◌, str_eq, if◌then◌else◌}
use alertthread.Base.Text.{joined}
use alertthread.Core.Ids.{Fingerprint, ChannelId, MessageTs, GroupKey, ThreadTs, LabelMap}
use alertthread.Store.Model.{AlertRecord, GroupRecord, GroupMembership}
use alertthread.Worker.{Outcome, dead_letter_op}

pub record AlertView : Type 0 where
  pub fingerprint : Fingerprint
  pub labels : LabelMap
  pub annotations : LabelMap
  pub starts_at : ℕ
  pub resolved_at : Option ℕ
  pub generator_url : String

pub record GroupView : Type 0 where
  pub group_key : GroupKey
  pub labels : LabelMap
  pub firing : ℕ
  pub resolved : ℕ

pub data RenderRequest : Type 0 where
  firing : (view : AlertView) → RenderRequest
  resolved : (view : AlertView) → RenderRequest
  thread_reply : (view : AlertView) → RenderRequest
  group_summary : (view : GroupView) → RenderRequest

-- A call of Slack, with the body that was rendered: `chat.postMessage` or `chat.update`.
pub data Call (Body : Type 0) : Type 0 where
  post_message :
      (channel : ChannelId)
      → (body : Body) → (thread_ts : Option ThreadTs) → (reply_broadcast : Bool) → Call Body
  update_message : (channel : ChannelId) → (ts : MessageTs) → (body : Body) → Call Body

abbrev pub lookup : String → LabelMap → Option String
lookup key [] = none
lookup key ((k, v) ∷ rest) = if str_eq k key then some v else lookup key rest

abbrev pub or_else {ℓ} : {A : Type ℓ} → Option A → A → A
or_else none d = d
or_else (some x) d = x

unfoldable pub view_of : AlertRecord → AlertView
view_of r = record {
  fingerprint = r.fingerprint;
  labels = r.labels;
  annotations = r.annotations;
  starts_at = r.first_seen;
  resolved_at = r.resolved_at;
  generator_url = or_else (lookup "generatorURL" r.annotations) "";
}

unfoldable pub resolved_view : AlertRecord → ℕ → AlertView
unfolding view_of
resolved_view r now = record (view_of r) { resolved_at = some (or_else r.resolved_at now) }

unfoldable pub group_view : GroupKey → Option GroupRecord → GroupMembership → ℕ → GroupView
group_view key found members initial_members = record {
  group_key = key;
  labels = elim found [ none ↦ [] | some r ↦ r.group_labels ];
  firing = max members.firing initial_members;
  resolved = members.resolved;
}

unfoldable pub orphan_view : Fingerprint → ℕ → AlertView
orphan_view fp at = record {
  fingerprint = fp;
  labels = ("alertname", "(untracked alert)") ∷ [];
  annotations =
      (
        "summary",
        joined (
            "alertthread has no record of alert `" ∷ fp
            ∷ "` firing, so this resolution could not be "
            ∷ "correlated to a message. Its state was lost, or Alertmanager's max_alerts truncated it "
            ∷ "out of the firing notification — see alertthread_orphan_resolves_total and ADR 001 D8."
            ∷ []),
      )
      ∷ [];
  starts_at = at;
  resolved_at = some at;
  generator_url = "";
}

unfoldable pub missing_row : Fingerprint → ChannelId → String → Outcome
missing_row fp chan what = dead_letter_op "alert_row_missing" (
    joined (
      "no alert_message row for " ∷ fp ∷ " in " ∷ chan ∷ ": a " ∷ what
      ∷ " renders from correlation state, and there is none" ∷ []))
