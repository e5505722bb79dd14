-- ===== src/Store/Ingest/Cases.antt =====
-- What a claim of crates/store/src/sqlite.rs can do to the table: the five ways through `claim_firing`
-- and `mark_resolving`, each with the rows that it leaves and the result that it gives.
use alertthread.Base.{
  ℕ, ◌≡◌, refl, inl, inr, Bool, true, false, Option, none, some, List, [], ◌∷◌, ◌++◌, arith,
  Bool-cases, any,
}
use alertthread.Core.Webhook.{WebhookAlert, Intent, intent}
use alertthread.Core.Domain.{AlertBatch, ClaimResult, ClaimOutcome, claimed}
use alertthread.Core.Plan.{is_claimed}
use alertthread.Store.Model.{AlertState, Result, ok, err, bind-ok}
use alertthread.Store.Row.{AlertRow, ClaimProbeRow, read_state}
use alertthread.Store.Sql.{
  is_alert, claimed_row, claim_probe, claim_touch, claim_reclaim, mark_resolving_rows,
}
use alertthread.Store.Ingest.{
  reclaim_or_touch, claim_existing, claim_firing, mark_resolving, claim_one, claim_all,
}

module _ (batch : AlertBatch) (now : ℕ) (alert : WebhookAlert) where
  abbrev pub fresh_row : AlertRow
  fresh_row =
      claimed_row alert.fingerprint batch.channel batch.group_key now alert.labels alert.annotations

  abbrev is_hit : AlertRow → Bool
  is_hit = is_alert alert.fingerprint batch.channel

  pub data Claims (rows : List AlertRow) (result : ClaimResult) (after : List AlertRow)
      : Type 0 where
    inserted :
        any is_hit rows ≡ false
        → result ≡ claimed
        → after ≡ rows ++ fresh_row ∷ []
        → Claims rows result after
    reclaimed :
        any is_hit rows ≡ true
        → result ≡ claimed
        → after
          ≡ claim_reclaim alert.fingerprint batch.channel batch.group_key now alert.labels
              alert.annotations rows
        → Claims rows result after
    touched :
        is_claimed result ≡ false
        → after
          ≡ claim_touch alert.fingerprint batch.channel batch.group_key now alert.labels
              alert.annotations rows
        → Claims rows result after
    marked :
        is_claimed result ≡ false
        → after ≡ (mark_resolving_rows alert.fingerprint batch.channel now rows).1
        → Claims rows result after

  state-Claims :
      (rows : List AlertRow) (old : any is_hit rows ≡ true) (probe : ClaimProbeRow) (s : AlertState)
      (result : ClaimResult) (after : List AlertRow)
      → reclaim_or_touch alert batch.channel batch.group_key now probe s rows ≡ (result, after)
      → Claims rows result after
  unfolding reclaim_or_touch
  state-Claims rows old probe AlertState.claimed result after e =
      touched (ground arith) (ground arith)
  state-Claims rows old probe AlertState.posted result after e =
      touched (ground arith) (ground arith)
  state-Claims rows old probe AlertState.resolving result after e =
      touched (ground arith) (ground arith)
  state-Claims rows old probe AlertState.resolved result after e =
      reclaimed old (ground arith) (ground arith)
  state-Claims rows old probe AlertState.failed result after e =
      reclaimed old (ground arith) (ground arith)

  existing-Claims :
      (rows : List AlertRow) (old : any is_hit rows ≡ true) (probe : Option ClaimProbeRow)
      (result : ClaimResult) (after : List AlertRow)
      → claim_existing alert batch.channel batch.group_key now probe rows ≡ ok (result, after)
      → Claims rows result after
  unfolding claim_existing
  existing-Claims rows old none result after e = cc
  existing-Claims rows old (some probe) result after e =
      go (read_state alert.fingerprint batch.channel probe.state) refl
    where
      go :
          (r : Result AlertState)
          → read_state alert.fingerprint batch.channel probe.state ≡ r
          → Claims rows result after
      go (ok s) h = state-Claims rows old probe s result after (ground arith)
      go (err x) h = absurd (ground arith)

  firing-Claims :
      (rows : List AlertRow) (result : ClaimResult) (after : List AlertRow)
      → claim_firing alert batch.channel batch.group_key now rows ≡ ok (result, after)
      → Claims rows result after
  unfolding claim_firing
  firing-Claims rows result after e = elim (Bool-cases (any is_hit rows)) [
    | inl old ↦
        existing-Claims rows old (claim_probe alert.fingerprint batch.channel rows) result after
          (ground arith)
    | inr new ↦ inserted new (ground arith) (ground arith)
  ]

  resolved-Claims :
      (rows : List AlertRow) (result : ClaimResult) (after : List AlertRow)
      → mark_resolving alert batch.channel now rows ≡ ok (result, after)
      → Claims rows result after
  unfolding mark_resolving
  resolved-Claims rows result after e = marked (ground arith) (ground arith)

  -- Each claim that succeeds goes one of the ways.
  pub claim_one-Claims :
      (rows : List AlertRow) (result : ClaimResult) (after : List AlertRow)
      → claim_one batch now alert rows ≡ ok (result, after)
      → Claims rows result after
  unfolding claim_one
  claim_one-Claims rows result after e = go (intent alert.status) refl
    where
      go : (i : Intent) → intent alert.status ≡ i → Claims rows result after
      go Intent.firing h = firing-Claims rows result after (ground arith)
      go Intent.resolved h = resolved-Claims rows result after (ground arith)

-- The claims of a batch that succeed: the first alert's, then the others' on what it leaves.
pub claim_all-cons :
    (batch : AlertBatch) (now : ℕ) (alert : WebhookAlert) (rest : List WebhookAlert)
    (rows : List AlertRow) (outcomes : List ClaimOutcome) (after : List AlertRow)
    → claim_all batch now (alert ∷ rest) rows ≡ ok (outcomes, after)
    → (result : ClaimResult) × (mid : List AlertRow) × (later : List ClaimOutcome) × (claim_one
          batch now alert rows
        ≡ ok (result, mid))
      × (claim_all batch now rest mid ≡ ok (later, after))
      × (outcomes ≡ record { alert = alert; result = result } ∷ later)
unfolding claim_all
claim_all-cons batch now alert rest rows outcomes after e =
    let (first, p, q) = bind-ok (claim_one batch now alert rows) _ (outcomes, after) e in
    let (later, r, s) = bind-ok (claim_all batch now rest first.1) _ (outcomes, after) q in
    (first.0, first.1, later.0, ground arith, ground arith, ground arith)
