-- ===== src/Store/Ingest.antt =====
-- crates/store/src/sqlite.rs: the claims of `ingest` and the persistence of the plan. The whole of
-- `ingest` is one transaction: an error gives no new tables, so what was written is rolled back.
pub mod Cases
pub mod Once
use alertthread.Base.{
  ℕ, Bool, true, false, not, ◌&&◌, Option, none, some, List, [], ◌∷◌, if◌then◌else◌,
}
use alertthread.Core.Ids.{ChannelId, GroupKey, LabelMap}
use alertthread.Core.Webhook.{Intent, intent, WebhookAlert}
use alertthread.Core.Domain.{
  AlertBatch, ClaimResult, claimed, already_claimed, already_posted, resolving, ClaimOutcome,
  GroupState, Op, Plan,
}
use alertthread.Store.Model.{AlertState, Result, ok, err, ◌>>=◌, claim_vanished, group_state}
use alertthread.Store.Row.{
  AlertRow, GroupRow, ClaimProbeRow, ResolveClaimRow, read_state, resolve_miss, group_into_record,
  stamp, GroupDelta, delta_of,
}
use alertthread.Base.Table.{select_one}
use alertthread.Store.Sql.{
  Db, Outbox, claim_insert, claim_probe, claim_touch, claim_reclaim, mark_resolving_rows, is_group,
  insert_group, join_group, enqueue,
}

-- `touch`
touch : WebhookAlert → ChannelId → GroupKey → ℕ → List AlertRow → List AlertRow
unfolding claim_touch
touch alert chan key now = claim_touch alert.fingerprint chan key now alert.labels alert.annotations

-- The match on the state of the row that `claim_firing` found.
reclaim_or_touch :
    WebhookAlert
    → ChannelId
    → GroupKey
    → ℕ
    → ClaimProbeRow
    → AlertState
    → List AlertRow
    → ClaimResult × List AlertRow
unfolding touch claim_reclaim
reclaim_or_touch alert chan key now existing s rows =
    let reclaimed : ClaimResult × List AlertRow =
      (claimed, claim_reclaim alert.fingerprint chan key now alert.labels alert.annotations rows) in
    let touched = touch alert chan key now rows in
    elim s [
      | AlertState.resolved ↦ reclaimed
      | AlertState.failed ↦ reclaimed
      | AlertState.posted ↦ (
        elim existing.message_ts [
          | some ts ↦ already_posted existing.last_seen ts
          | none ↦ already_claimed
        ],
        touched,
      )
      | AlertState.claimed ↦ (already_claimed, touched)
      | AlertState.resolving ↦ (already_claimed, touched)
    ]

claim_existing :
    WebhookAlert
    → ChannelId
    → GroupKey
    → ℕ
    → Option ClaimProbeRow
    → List AlertRow
    → Result (ClaimResult × List AlertRow)
unfolding reclaim_or_touch read_state
claim_existing alert chan key now none rows = err (claim_vanished alert.fingerprint chan)
claim_existing alert chan key now (some existing) rows = do
  s ← read_state alert.fingerprint chan existing.state
  ok (reclaim_or_touch alert chan key now existing s rows)

unfoldable pub claim_firing :
    WebhookAlert → ChannelId → GroupKey → ℕ → List AlertRow → Result (ClaimResult × List AlertRow)
unfolding claim_existing claim_insert claim_probe
claim_firing alert chan key now rows =
    let (inserted, after) =
      claim_insert alert.fingerprint chan key now alert.labels alert.annotations rows in
    let old = claim_existing alert chan key now (claim_probe alert.fingerprint chan after) after in
    if inserted then ok (claimed, after) else old

resolving_or_miss :
    WebhookAlert
    → ChannelId
    → Option ResolveClaimRow
    → List AlertRow
    → Result (ClaimResult × List AlertRow)
unfolding claim_probe resolve_miss
resolving_or_miss alert chan (some r) rows = ok (resolving r.message_ts r.thread_parent_ts, rows)
resolving_or_miss alert chan none rows = do
  result ← resolve_miss (claim_probe alert.fingerprint chan rows) alert.fingerprint chan
  ok (result, rows)

unfoldable pub mark_resolving :
    WebhookAlert → ChannelId → ℕ → List AlertRow → Result (ClaimResult × List AlertRow)
unfolding resolving_or_miss mark_resolving_rows
mark_resolving alert chan now rows =
    let (hit, after) = mark_resolving_rows alert.fingerprint chan now rows in
    resolving_or_miss alert chan hit after

unfoldable pub claim_one :
    AlertBatch → ℕ → WebhookAlert → List AlertRow → Result (ClaimResult × List AlertRow)
claim_one batch now alert rows = elim (intent alert.status) [
  | Intent.firing ↦ claim_firing alert batch.channel batch.group_key now rows
  | Intent.resolved ↦ mark_resolving alert batch.channel now rows
]

-- The loop over the alerts of the batch.
unfoldable pub claim_all :
    AlertBatch → ℕ → List WebhookAlert → List AlertRow → Result (List ClaimOutcome × List AlertRow)
claim_all batch now [] rows = ok ([], rows)
claim_all batch now (alert ∷ rest) rows = do
  (result, rows') ← claim_one batch now alert rows
  (outcomes, rows'') ← claim_all batch now rest rows'
  ok (record { alert = alert; result = result } ∷ outcomes, rows'')

-- Whether this transaction opened the group, and the groups.
unfoldable pub persist_group :
    GroupDelta → ChannelId → LabelMap → ℕ → List GroupRow → Bool × List GroupRow
unfolding insert_group join_group
persist_group delta chan labels now rows = elim delta.group [
  | none ↦ (false, rows)
  | some key ↦
      let (inserted, after) =
        if delta.opens
        then insert_group key chan delta.members labels now rows
        else (false, rows) in
      if inserted then (true, after) else (false, join_group delta.members key chan after)
]

abbrev pub is_post_group : Op → Bool
is_post_group (Op.post_group _ _ _) = true
is_post_group _ = false

-- The loop over the ops of the plan: the post of a group that another transaction opened is dropped.
unfoldable pub persist_ops : Bool → List Op → ℕ → Outbox → List Op × Outbox
unfolding enqueue
persist_ops opened [] now o = ([], o)
persist_ops opened (op ∷ ops) now o =
    let dropped = is_post_group op && not opened in
    let (rest, o') = persist_ops opened ops now (if dropped then o else enqueue op now o) in
    (if dropped then rest else op ∷ rest, o')

-- What follows the claims: read the group, decide, and write the plan.
unfoldable pub persist :
    AlertBatch
    → ℕ
    → (List ClaimOutcome → Option GroupState → Plan)
    → Db
    → List ClaimOutcome × List AlertRow
    → Plan × Db
unfolding group_into_record
persist batch now decide db (outcomes, alerts) =
    let group : Option GroupState =
      elim (select_one (is_group batch.group_key batch.channel) db.groups) [
        | none ↦ none
        | some r ↦ some (group_state (group_into_record r))
      ] in
    let p = decide outcomes group in
    let (opened, groups) =
      persist_group (delta_of p.ops) batch.channel batch.group_labels now db.groups in
    let (persisted, outbox) = persist_ops opened p.ops now db.outbox in
    (
      record { ops = persisted; notices = p.notices },
      record { alerts = alerts; groups = groups; outbox = outbox },
    )

unfoldable pub ingest :
    AlertBatch → ℕ → (List ClaimOutcome → Option GroupState → Plan) → Db → Result (Plan × Db)
ingest batch at decide db = do
  claims ← claim_all batch (stamp at) batch.alerts db.alerts
  ok (persist batch (stamp at) decide db claims)
