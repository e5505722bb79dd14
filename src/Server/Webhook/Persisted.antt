-- ===== src/Server/Webhook/Persisted.antt =====
-- The answer of the webhook of crates/app/src/http.rs and what it left in the database.
use alertthread.Base.{
  ℕ, String, ◌≡◌, refl, subst, ◌≢◌, ◌⊎◌, inl, inr, Option, some, arith, Option-cases,
}
use alertthread.Core.Ids.{ChannelId}
use alertthread.Core.Domain.{AlertBatch, from_webhook, Plan}
use alertthread.Core.Plan.{plan}
use alertthread.Store.Model.{Result, ok, err}
use alertthread.Store.Sql.{Db}
use alertthread.Store.Ingest.{ingest}
use alertthread.Server.Auth.{Access, allowed, denied, authorize, denial_outcome}
use alertthread.Server.Webhook.{
  Response, AppState, Decoded, decoded, malformed, resolve_channel, unauthorized, deliver, webhook,
  require_bearer, webhook_route, Course, in_time, dropped_before_commit, dropped_after_commit,
  serve, timed_out,
}
use alertthread.Core.Webhook.{WebhookPayload}

-- The whole delivery is in the database: it had a channel, its body decoded, and its transaction ended.
pub record Persists (state : AppState) (batch : AlertBatch) (now : ℕ) (db db' : Db) : Type 0 where
  pub planned : Plan
  pub ended :
      ingest batch now (λ outcomes group. plan outcomes batch group state.policy now) db
      ≡ ok (planned, db')

pub record Delivers (state : AppState) (query : Option String) (body : String) (now : ℕ)
    (db db' : Db) : Type 0 where
  pub chan : ChannelId
  pub payload : WebhookPayload
  pub has_channel : resolve_channel query state.default_channel ≡ some chan
  pub decodes : state.decode body ≡ decoded payload
  pub persists : Persists state (from_webhook payload chan) now db db'

-- A 200 goes with what `P` says of the database, any other status with a database left as it was.
abbrev pub Answers : (Db → Type 0) → Db → Response × Db → Type 0
Answers P db answer =
    ((answer.0.status ≡ 200) × P answer.1) ⊎ ((answer.0.status ≢ 200) × (answer.1 ≡ db))

deliver-Answers :
    (state : AppState) (batch : AlertBatch) (now : ℕ) (db : Db)
    → Answers (Persists state batch now db) db (deliver state batch now db)
unfolding deliver
deliver-Answers state batch now db =
    go (ingest batch now (λ outcomes group. plan outcomes batch group state.policy now) db) refl
  where
    go :
        (r : Result (Plan × Db))
        → ingest batch now (λ outcomes group. plan outcomes batch group state.policy now) db ≡ r
        → Answers (Persists state batch now db) db (deliver state batch now db)
    go (ok (p, db')) e = rw (deliver, e) (inl (refl, record { planned = p; ended = e }))
    go (err x) e = rw (deliver, e) (inr ((λ h. absurd (omega (arith, h))), refl))

Answers-imp :
    (P Q : Db → Type 0) (db : Db) (answer : Response × Db)
    → ((db' : Db) → P db' → Q db')
    → Answers P db answer
    → Answers Q db answer
Answers-imp P Q db answer f (inl h) = inl (h.0, f answer.1 h.1)
Answers-imp P Q db answer f (inr h) = inr h

webhook-Answers :
    (state : AppState) (query : Option String) (body : String) (now : ℕ) (db : Db)
    → Answers (Delivers state query body now db) db (webhook state query body now db)
unfolding webhook
webhook-Answers state query body now db =
    elim (Option-cases (resolve_channel query state.default_channel)) [
      | inl none_set ↦ rw (webhook, none_set) (inr ((λ h. absurd (omega (arith, h))), refl))
      | inr (chan, e) ↦ go chan e (state.decode body) refl
    ]
  where
    go :
        (chan : ChannelId) (e : resolve_channel query state.default_channel ≡ some chan)
        (d : Decoded)
        → state.decode body ≡ d
        → Answers (Delivers state query body now db) db (webhook state query body now db)
    go chan e (malformed error) f =
        rw (webhook, e, f) (inr ((λ h. absurd (omega (arith, h))), refl))
    go chan e (decoded payload) f =
        rw (webhook, e, f)
          (Answers-imp (Persists state (from_webhook payload chan) now db)
            (Delivers state query body now db) db (deliver state (from_webhook payload chan) now db)
            (λ db' h. record {
              chan = chan;
              payload = payload;
              has_channel = e;
              decodes = f;
              persists = h;
            })
            (deliver-Answers state (from_webhook payload chan) now db))

webhook_route-Answers :
    (state : AppState) (header query : Option String) (body : String) (now : ℕ) (db : Db)
    → Answers (Delivers state query body now db) db (webhook_route state header query body now db)
unfolding webhook_route require_bearer
webhook_route-Answers state header query body now db = elim (Option-cases state.webhook_token) [
  | inl unguarded ↦
      subst (Answers (Delivers state query body now db) db) {x = webhook state query body now db}
        {y = webhook_route state header query body now db} (ground arith)
        (webhook-Answers state query body now db)
  | inr (token, e) ↦ go token e (authorize header token) refl
]
  where
    go :
        (token : String) (e : state.webhook_token ≡ some token) (a : Access)
        → authorize header token ≡ a
        → Answers
            (Delivers state query body now db)
            db
            (webhook_route state header query body now db)
    go token e allowed f =
        subst (Answers (Delivers state query body now db) db) {x = webhook state query body now db}
          {y = webhook_route state header query body now db} (ground arith)
          (webhook-Answers state query body now db)
    go token e (denied d) f =
        subst (Answers (Delivers state query body now db) db)
          {x = (unauthorized (denial_outcome d), db)}
          {y = webhook_route state header query body now db} (ground arith)
          (inr ((λ h. absurd (omega (arith, h))), refl))

-- A request that was dropped: an answer of 503, and the database as it was or with the whole delivery.
abbrev pub Dropped : (Db → Type 0) → Db → Response × Db → Type 0
Dropped P db answer = (answer.0.status ≡ 503) × ((answer.1 ≡ db) ⊎ P answer.1)

dropped :
    (P : Db → Type 0) (db : Db) (r : Response) (answer : Response × Db)
    → r.status ≡ 503
    → Answers P db answer
    → Dropped P db (r, answer.1)
dropped P db r answer e (inl h) = (e, inr h.1)
dropped P db r answer e (inr h) = (e, inl h.1)

-- A delivery is never half persisted, and never acknowledged without being persisted: a 200 goes with the
-- whole transaction of a delivery that had a channel and whose body decoded. Any other answer leaves the
-- database as it was, whether the request was refused for its credential, for a missing channel or for its
-- body, or the store failed, but for the 503 of a request that ran out of time, which leaves the database
-- as it was or with the whole transaction.
pub serve-Answers :
    (state : AppState) (header query : Option String) (body : String) (now : ℕ) (course : Course)
    (db : Db)
    → Answers (Delivers state query body now db) db (serve state header query body now course db)
      ⊎ ((course ≢ in_time)
          × Dropped
              (Delivers state query body now db)
              db
              (serve state header query body now course db))
unfolding serve
serve-Answers state header query body now in_time db =
    inl (webhook_route-Answers state header query body now db)
serve-Answers state header query body now dropped_before_commit db =
    inr ((λ e. cc), (refl, inl refl))
serve-Answers state header query body now dropped_after_commit db = inr (
  (λ e. cc),
  dropped (Delivers state query body now db) db timed_out
      (webhook_route state header query body now db) refl
      (webhook_route-Answers state header query body now db),
)
