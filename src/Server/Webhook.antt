-- ===== src/Server/Webhook.antt =====
-- crates/app/src/http.rs: the webhook, with the guard of crates/app/src/auth.rs before it, and the probes.
-- What a response is counted as is part of it; logs are left out. Serde's reading of the body is a
-- parameter, and so is the time.
pub mod Persisted
use alertthread.Base.{ℕ, String, Option, none, some, [], ◌∷◌, str_eq, if◌then◌else◌}
use alertthread.Base.Text.{trim, joined}
use alertthread.Core.Ids.{ChannelId}
use alertthread.Core.Webhook.{WebhookPayload}
use alertthread.Core.Policy.{Policy}
use alertthread.Core.Domain.{AlertBatch, from_webhook}
use alertthread.Core.Plan.{plan}
use alertthread.Store.Model.{ok, err}
use alertthread.Store.Sql.{Db}
use alertthread.Store.Ingest.{ingest}
use alertthread.Store.Query.{alert}
use alertthread.Server.Auth.{WebhookToken, allowed, denied, authorize, denial_outcome}

-- `counted` is the label of `alertthread_webhooks_total`.
pub record Response : Type 0 where
  pub status : ℕ
  pub body : String
  pub counted : Option String

pub data Decoded : Type 0 where
  decoded : (payload : WebhookPayload) → Decoded
  malformed : (error : String) → Decoded

pub record AppState : Type 0 where
  pub policy : Policy
  pub default_channel : Option ChannelId
  pub webhook_token : Option WebhookToken
  pub decode : String → Decoded

abbrev non_empty : String → Option ChannelId
non_empty s = if str_eq s "" then none else some s

unfoldable pub resolve_channel : Option String → Option ChannelId → Option ChannelId
resolve_channel none default = default
resolve_channel (some query) default = elim (non_empty (trim query)) [
  | none ↦ default
  | some chan ↦ some chan
]

abbrev misconfigured : Response
misconfigured = record {
  status = 500;
  body = "no channel: set ?channel= or slack.default_channel\n";
  counted = some "misconfigured";
}

abbrev rejected : String → Response
rejected error = record {
  status = 400;
  body = joined ("could not parse the Alertmanager payload: " ∷ error ∷ "\n" ∷ []);
  counted = some "rejected";
}

abbrev accepted : Response
accepted = record { status = 200; body = "ok\n"; counted = some "accepted" }

abbrev store_unavailable : Response
store_unavailable = record {
  status = 503;
  body = "could not persist the delivery; retry\n";
  counted = some "store_unavailable";
}

-- The transaction and its answer. One that fails is rolled back.
unfoldable pub deliver : AppState → AlertBatch → ℕ → Db → Response × Db
deliver state batch now db =
    elim (ingest batch now (λ outcomes group. plan outcomes batch group state.policy now) db) [
      | ok (planned, db') ↦ (accepted, db')
      | err e ↦ (store_unavailable, db)
    ]

unfoldable pub webhook : AppState → Option String → String → ℕ → Db → Response × Db
webhook state query body now db = elim (resolve_channel query state.default_channel) [
  | none ↦ (misconfigured, db)
  | some chan ↦ elim (state.decode body) [
    | malformed error ↦ (rejected error, db)
    | decoded payload ↦ deliver state (from_webhook payload chan) now db
  ]
]

abbrev pub unauthorized : String → Response
unauthorized label = record { status = 401; body = "unauthorized\n"; counted = some label }

-- `require_bearer`, before a handler.
unfoldable pub require_bearer :
    WebhookToken → Option String → (Db → Response × Db) → Db → Response × Db
require_bearer token header next db = elim (authorize header token) [
  | allowed ↦ next db
  | denied denial ↦ (unauthorized (denial_outcome denial), db)
]

-- The route `/webhook` of `router`: it is guarded if a token is configured.
unfoldable pub webhook_route :
    AppState → Option String → Option String → String → ℕ → Db → Response × Db
webhook_route state header query body now db = elim state.webhook_token [
  | none ↦ webhook state query body now db
  | some token ↦ require_bearer token header (webhook state query body now) db
]

-- What the time limit of `router` does to a request: it ends in time, or it is dropped, with its
-- transaction not committed or committed already.
pub data Course : Type 0 where
  in_time dropped_before_commit dropped_after_commit : Course

abbrev pub timed_out : Response
timed_out = record { status = 503; body = ""; counted = none }

-- The route behind the TimeoutLayer, and the database that it leaves.
unfoldable pub serve :
    AppState → Option String → Option String → String → ℕ → Course → Db → Response × Db
unfolding webhook_route
serve state header query body now in_time db = webhook_route state header query body now db
serve state header query body now dropped_before_commit db = (timed_out, db)
serve state header query body now dropped_after_commit db =
    (timed_out, (webhook_route state header query body now db).1)

unfoldable pub healthz : Response
healthz = record { status = 200; body = "ok\n"; counted = none }

abbrev readiness_probe : String
readiness_probe = "__alertthread_readiness_probe__"

unfoldable pub readyz : Db → Response
readyz db = elim (alert readiness_probe readiness_probe db) [
  | ok found ↦ record { status = 200; body = "ready\n"; counted = none }
  | err e ↦ record { status = 503; body = "the state store is not reachable\n"; counted = none }
]
