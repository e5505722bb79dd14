-- ===== src/Core/Domain.antt =====
-- crates/core/src/domain.rs: the vocabulary that the planner, the store and the worker share.
use alertthread.Base.{ℕ, String, Bool, Option, List}
use alertthread.Core.Ids.{Fingerprint, ChannelId, MessageTs, GroupKey, ThreadTs, LabelMap}
use alertthread.Core.Webhook.{WebhookAlert, WebhookPayload}

pub record AlertBatch : Type 0 where
  pub channel : ChannelId
  pub group_key : GroupKey
  pub group_labels : LabelMap
  pub truncated_alerts : ℕ
  pub alerts : List WebhookAlert

unfoldable pub from_webhook : WebhookPayload → ChannelId → AlertBatch
from_webhook payload chan = record {
  channel = chan;
  group_key = payload.group_key;
  group_labels = payload.group_labels;
  truncated_alerts = payload.truncated_alerts;
  alerts = payload.alerts;
}

-- What the atomic claim of one alert did. Times are nanoseconds.
pub data ClaimResult : Type 0 where
  claimed : ClaimResult
  already_claimed : ClaimResult
  already_posted : (last_seen : ℕ) → (message_ts : MessageTs) → ClaimResult
  resolving : (message_ts : Option MessageTs) → (thread_parent_ts : Option ThreadTs) → ClaimResult
  orphan : ClaimResult
  already_resolving : ClaimResult

pub record ClaimOutcome : Type 0 where
  pub alert : WebhookAlert
  pub result : ClaimResult

pub record GroupState : Type 0 where
  pub group_key : GroupKey
  pub message_ts : Option ThreadTs

pub data Placement : Type 0 where
  channel : Placement
  thread : (group_key : GroupKey) → (parent_ts : Option ThreadTs) → Placement

pub data ResolveTarget : Type 0 where
  message : (message_ts : MessageTs) → (thread_parent_ts : Option ThreadTs) → ResolveTarget
  awaiting_post : ResolveTarget

pub data Op : Type 0 where
  post_group : (group_key : GroupKey) → (channel : ChannelId) → (initial_members : ℕ) → Op
  post : (fingerprint : Fingerprint) → (channel : ChannelId) → (placement : Placement) → Op
  refresh : (fingerprint : Fingerprint) → (channel : ChannelId) → (message_ts : MessageTs) → Op
  resolve :
      (fingerprint : Fingerprint)
      → (channel : ChannelId) → (target : ResolveTarget) → (update_in_place : Bool)
      → (thread_reply : Bool) → Op
  post_orphan_resolved : (fingerprint : Fingerprint) → (channel : ChannelId) → Op
  refresh_group : (group_key : GroupKey) → (channel : ChannelId) → (message_ts : ThreadTs) → Op

pub data Notice : Type 0 where
  alerts_truncated : (count : ℕ) → Notice
  empty_batch : Notice
  unknown_status : (fingerprint : Fingerprint) → (status : String) → Notice
  orphan_resolve : (fingerprint : Fingerprint) → Notice
  storm_collapsed : (group_key : GroupKey) → (members : ℕ) → Notice
  outcome_count_mismatch : (alerts : ℕ) → (outcomes : ℕ) → Notice

pub record Plan : Type 0 where
  pub ops : List Op
  pub notices : List Notice
