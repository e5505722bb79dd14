-- ===== src/Tests.antt =====
-- Inputs for the runs of the children: a storm of alerts, the database that it leaves, and what the workers
-- make of it.
pub mod Plans
pub mod Stores
pub mod Samples
pub mod Workers
pub mod Servers
pub mod Renders
pub mod Drains
use alertthread.Base.{String, List, [], ◌∷◌}
use alertthread.Core.Webhook.{AlertStatus, WebhookAlert}
use alertthread.Core.Domain.{AlertBatch, ClaimOutcome, claimed, already_claimed, orphan}
use alertthread.Core.Policy.{Policy, default}
use alertthread.Store.Model.{Result, ok, err}
use alertthread.Store.Sql.{Db}

abbrev pub alert_named : String → AlertStatus → WebhookAlert
alert_named fp status = record {
  status = status;
  labels = [];
  annotations = [];
  starts_at = 0;
  ends_at = 0;
  generator_url = "";
  fingerprint = fp;
}

abbrev pub firing : WebhookAlert
firing = alert_named "fp1" AlertStatus.firing

abbrev pub batch_of : List WebhookAlert → AlertBatch
batch_of alerts = record {
  channel = "C1";
  group_key = "g1";
  group_labels = [];
  truncated_alerts = 0;
  alerts = alerts;
}

-- Collapse is on from two new alerts.
abbrev pub eager : Policy
eager = record default { collapse_threshold = 1 }

abbrev pub off : Policy
off = record default { collapse_threshold = 0 }

abbrev pub storm : List ClaimOutcome
storm =
    record { alert = firing; result = claimed }
    ∷ record { alert = alert_named "fp2" AlertStatus.firing; result = claimed }
    ∷ record { alert = alert_named "fp3" AlertStatus.resolved; result = orphan }
    ∷ []

abbrev pub duplicates : List ClaimOutcome
duplicates = record { alert = firing; result = already_claimed } ∷ []

abbrev pub storm_batch : AlertBatch
storm_batch =
    batch_of
      (firing ∷ alert_named "fp2" AlertStatus.firing ∷ alert_named "fp3" AlertStatus.resolved ∷ [])

abbrev pub db_of {ℓ} : {A : Type ℓ} → Db → Result (A × Db) → Db
db_of d (ok (a, db)) = db
db_of d (err e) = d

abbrev pub db_or : Db → Result Db → Db
db_or d (ok db) = db
db_or d (err e) = d

abbrev pub value_or {ℓ} : {A : Type ℓ} → A → Result (A × Db) → A
value_or d (ok (a, db)) = a
value_or d (err e) = d
