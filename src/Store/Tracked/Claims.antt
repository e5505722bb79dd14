-- ===== src/Store/Tracked/Claims.antt =====
-- The claims of `ingest` in crates/store/src/sqlite.rs: after them an alert lacks its post only if this
-- delivery claimed it, and the ops of the plan supply that post.
use alertthread.Base.{
  ℕ, ◌≡◌, refl, subst, Bool, true, ◌&&◌, ◌||◌, List, [], ◌∷◌, arith, eq_iff, eq_refl, str_eq, any,
  All-append,
}
use alertthread.Core.Ids.{Fingerprint, ChannelId}
use alertthread.Core.Webhook.{WebhookAlert}
use alertthread.Core.Domain.{AlertBatch, ClaimResult, ClaimOutcome}
use alertthread.Core.Plan.{is_claimed}
use alertthread.Store.Model.{ok}
use alertthread.Store.Row.{AlertRow}
use alertthread.Store.Sql.{
  is_alert, claim_touch, claim_reclaim, touch_row, reclaim_row, resolving_row, mark_resolving_rows,
  is_open,
}
use alertthread.Store.Ingest.{claim_all}
use alertthread.Store.Ingest.Cases.{
  Claims, fresh_row, inserted, reclaimed, touched, marked, claim_one-Claims, claim_all-cons,
}
use alertthread.Store.Tracked.{is_backed, AllBacked, AllBacked-mono, AllBacked-update_where}

-- The alert is the one of the outcome, and the outcome is a fresh claim.
abbrev pub claims : ChannelId → Fingerprint → ChannelId → ClaimOutcome → Bool
claims here fp chan o = is_claimed o.result && str_eq o.alert.fingerprint fp && str_eq here chan

abbrev pub newly_claimed : ChannelId → List ClaimOutcome → Fingerprint → ChannelId → Bool
newly_claimed here outcomes fp chan = any (claims here fp chan) outcomes

module _ (live parked : Fingerprint → ChannelId → Bool) (batch : AlertBatch) (now : ℕ) where
  abbrev with_claim : WebhookAlert → ClaimResult → Fingerprint → ChannelId → Bool
  with_claim alert result fp chan =
      live fp chan || claims batch.channel fp chan (record { alert = alert; result = result })

  step-AllBacked :
      (alert : WebhookAlert) (rows : List AlertRow) (result : ClaimResult) (after : List AlertRow)
      → Claims batch now alert rows result after
      → AllBacked live parked rows
      → AllBacked (with_claim alert result) parked after
  step-AllBacked alert rows result after (inserted new r a) h = rw a (
      All-append (λ x. is_backed (with_claim alert result) parked x ≡ true) rows
        (fresh_row batch now alert ∷ [])
        (AllBacked-mono live parked (with_claim alert result) parked rows
          (λ fp chan e. ground arith) (λ fp chan e. e) h)
        (ground (arith, eq_refl alert.fingerprint, eq_refl batch.channel), tt))
  step-AllBacked alert rows result after (reclaimed old r a) h = rw a (
      unfold claim_reclaim in
      AllBacked-update_where live parked (with_claim alert result) parked rows
        (is_alert alert.fingerprint batch.channel)
        (reclaim_row batch.group_key now alert.labels alert.annotations) h
        (λ x hit e. ground (
          arith,
          r,
          eq_iff x.fingerprint alert.fingerprint,
          eq_iff x.channel batch.channel,
          eq_iff alert.fingerprint x.fingerprint,
          eq_iff batch.channel x.channel,
        ))
        (λ x miss e. ground arith))
  step-AllBacked alert rows result after (touched r a) h = rw a (
      unfold claim_touch in
      AllBacked-update_where live parked (with_claim alert result) parked rows
        (is_alert alert.fingerprint batch.channel)
        (touch_row batch.group_key now alert.labels alert.annotations) h (λ x hit e. ground arith)
        (λ x miss e. ground arith))
  step-AllBacked alert rows result after (marked r a) h = rw a (
      unfold mark_resolving_rows in
      AllBacked-update_where live parked (with_claim alert result) parked rows
        (λ x. is_alert alert.fingerprint batch.channel x && is_open x.state) (resolving_row now) h
        (λ x hit e. refl) (λ x miss e. ground arith))

-- After the claims of a batch, every alert has its post or was newly claimed by an outcome.
pub claim_all-AllBacked :
    (live parked : Fingerprint → ChannelId → Bool) (batch : AlertBatch) (now : ℕ)
    (alerts : List WebhookAlert) (rows : List AlertRow) (outcomes : List ClaimOutcome)
    (after : List AlertRow)
    → claim_all batch now alerts rows ≡ ok (outcomes, after)
    → AllBacked live parked rows
    → AllBacked
        (λ fp chan. live fp chan || newly_claimed batch.channel outcomes fp chan)
        parked
        after
unfolding claim_all
claim_all-AllBacked live parked batch now [] rows outcomes after e h =
    AllBacked-mono live parked _ parked after (λ fp chan x. ground arith) (λ fp chan x. x)
      (subst (AllBacked live parked) (ground arith) h)
claim_all-AllBacked live parked batch now (alert ∷ rest) rows outcomes after e h =
    let (result, mid, later, one, others, eq) =
      claim_all-cons batch now alert rest rows outcomes after e in
    let start =
      step-AllBacked live parked batch now alert rows result mid
        (claim_one-Claims batch now alert rows result mid one) h in
    rw eq (
      AllBacked-mono _ parked _ parked after (λ fp chan x. ground arith) (λ fp chan x. x)
        (claim_all-AllBacked (with_claim live parked batch now alert result) parked batch now rest
          mid later after others start))
