-- ===== src/Core/Webhook.antt =====
-- crates/core/src/webhook.rs: the webhook body and the status of an alert.
use alertthread.Base.{ℕ, String, ◌≡◌, ◌↔◌, Option, List, arith, eq_iff, str_eq, if◌then◌else◌}
use alertthread.Core.Ids.{Fingerprint, GroupKey, LabelMap}

pub data AlertStatus : Type 0 where
  firing resolved : AlertStatus
  unknown : String → AlertStatus

pub data Intent : Type 0 where
  firing resolved : Intent

unfoldable pub as_str : AlertStatus → String
as_str AlertStatus.firing = "firing"
as_str AlertStatus.resolved = "resolved"
as_str (AlertStatus.unknown raw) = raw

unfoldable pub intent : AlertStatus → Intent
intent AlertStatus.resolved = Intent.resolved
intent AlertStatus.firing = Intent.firing
intent (AlertStatus.unknown _) = Intent.firing

unfoldable pub from_string : String → AlertStatus
from_string raw =
    if str_eq raw "firing"
    then AlertStatus.firing
    else if str_eq raw "resolved"
    then AlertStatus.resolved
    else AlertStatus.unknown raw

unfoldable pub into_string : AlertStatus → String
into_string AlertStatus.firing = "firing"
into_string AlertStatus.resolved = "resolved"
into_string (AlertStatus.unknown raw) = raw

pub record WebhookAlert : Type 0 where
  pub status : AlertStatus
  pub labels : LabelMap
  pub annotations : LabelMap
  pub starts_at : ℕ
  pub ends_at : ℕ
  pub generator_url : String
  pub fingerprint : Fingerprint

pub record WebhookPayload : Type 0 where
  pub version : String
  pub group_key : GroupKey
  pub truncated_alerts : ℕ
  pub status : AlertStatus
  pub receiver : String
  pub group_labels : LabelMap
  pub common_labels : LabelMap
  pub common_annotations : LabelMap
  pub external_url : String
  pub notification_reason : Option String
  pub alerts : List WebhookAlert

-- Text, status and text again: nothing that the sender wrote is lost, and the intent of a text is to
-- resolve exactly for the text "resolved".
pub into_string-from_string :
    (raw : String)
    → (into_string (from_string raw) ≡ raw)
      × (as_str (from_string raw) ≡ raw)
      × ((intent (from_string raw) ≡ Intent.resolved) ↔ (raw ≡ "resolved"))
unfolding into_string from_string as_str intent
into_string-from_string raw =
    ground (arith, eq_iff raw "firing", eq_iff raw "resolved", eq_iff "firing" "resolved")
