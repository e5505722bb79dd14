-- ===== src/Store/Ingest/Once.antt =====
-- `claim_firing` of crates/store/src/sqlite.rs hands a claim out once: repeats of an alert find it held.
use alertthread.Base.{
  ℕ, ◌≡◌, refl, inl, inr, Bool, true, false, Option, none, some, List, [], ◌∷◌, ◌++◌, arith,
  eq_refl, Bool-cases, Option-cases, any,
}
use alertthread.Base.Table.{select_one, update_where, select_one-any}
use alertthread.Core.Ids.{ChannelId, GroupKey}
use alertthread.Core.Webhook.{WebhookAlert}
use alertthread.Core.Domain.{ClaimResult}
use alertthread.Core.Plan.{is_claimed}
use alertthread.Store.Model.{AlertState, ok}
use alertthread.Store.Row.{Named, known, unknown, AlertRow, ClaimProbeRow, read_state}
use alertthread.Store.Sql.{
  is_alert, claimed_row, claim_probe, claim_touch, claim_reclaim, touch_row, reclaim_row,
}
use alertthread.Store.Ingest.{reclaim_or_touch, claim_existing, claim_firing}

-- The alert waits for its message, has one, or is being resolved.
abbrev is_held : Option AlertRow → Bool
is_held none = false
is_held (some r) = elim r.state [
  | known s ↦ elim s [ AlertState.resolved ↦ false | AlertState.failed ↦ false | _ ↦ true ]
  | unknown _ ↦ false
]

select_one-append :
    (q : AlertRow → Bool) (rows : List AlertRow) (r : AlertRow)
    → any q rows ≡ false
    → q r ≡ true
    → select_one q (rows ++ r ∷ []) ≡ some r
select_one-append q [] r none_yet hit = ground arith
select_one-append q (x ∷ rest) r none_yet hit = ground (arith, select_one-append q rest r)

select_one-update_where :
    (q : AlertRow → Bool) (f : AlertRow → AlertRow) (rows : List AlertRow) (r : AlertRow)
    → ((x : AlertRow) → q (f x) ≡ q x)
    → select_one q rows ≡ some r
    → select_one q (update_where q f rows) ≡ some (f r)
select_one-update_where q f [] r same e = cc
select_one-update_where q f (x ∷ rest) r same e =
    ground (arith, same x, select_one-update_where q f rest r same)

module _ (alert : WebhookAlert) (chan : ChannelId) (key : GroupKey) (now : ℕ)
    (rows : List AlertRow) where
  abbrev is_hit : AlertRow → Bool
  is_hit = is_alert alert.fingerprint chan

  abbrev probe_of : AlertRow → ClaimProbeRow
  probe_of r = record { state = r.state; last_seen = r.last_seen; message_ts = r.message_ts }

  state-held :
      (r : AlertRow) (s : AlertState) (result : ClaimResult) (after : List AlertRow)
      → select_one is_hit rows ≡ some r
      → r.state ≡ known s
      → reclaim_or_touch alert chan key now (probe_of r) s rows ≡ (result, after)
      → is_held (select_one is_hit after) ≡ true
  unfolding reclaim_or_touch claim_touch claim_reclaim
  state-held r s result after found state e =
      let touched =
        select_one-update_where is_hit (touch_row key now alert.labels alert.annotations) rows r
          (λ x. refl) found in
      let reclaimed =
        select_one-update_where is_hit (reclaim_row key now alert.labels alert.annotations) rows r
          (λ x. refl) found in
      ground arith

  existing-held :
      (r : AlertRow) (result : ClaimResult) (after : List AlertRow)
      → select_one is_hit rows ≡ some r
      → claim_existing alert chan key now (some (probe_of r)) rows ≡ ok (result, after)
      → is_held (select_one is_hit after) ≡ true
  unfolding claim_existing read_state
  existing-held r result after found e = go r.state refl
    where
      go : (s : Named AlertState) → r.state ≡ s → is_held (select_one is_hit after) ≡ true
      go (known s) h = state-held r s result after found h (ground arith)
      go (unknown raw) h = absurd (ground arith)

  claim_firing-held :
      (result : ClaimResult) (after : List AlertRow)
      → claim_firing alert chan key now rows ≡ ok (result, after)
      → is_held (select_one is_hit after) ≡ true
  unfolding claim_firing claim_probe
  claim_firing-held result after e = elim (Bool-cases (any is_hit rows)) [
    | inl old ↦ elim (Option-cases (select_one is_hit rows)) [
      | inl missing ↦ absurd (ground (arith, select_one-any is_hit rows))
      | inr (r, found) ↦ existing-held r result after found (ground arith)
    ]
    | inr new ↦
        let row = claimed_row alert.fingerprint chan key now alert.labels alert.annotations in
        ground (
          arith,
          select_one-append is_hit rows row new
              (ground (arith, eq_refl alert.fingerprint, eq_refl chan)),
        )
  ]

  state-not_claimed :
      (r : AlertRow) (s : AlertState) (result : ClaimResult) (after : List AlertRow)
      → r.state ≡ known s
      → is_held (some r) ≡ true
      → reclaim_or_touch alert chan key now (probe_of r) s rows ≡ (result, after)
      → is_claimed result ≡ false
  unfolding reclaim_or_touch
  state-not_claimed r s result after state held e = ground arith

  existing-not_claimed :
      (r : AlertRow) (result : ClaimResult) (after : List AlertRow)
      → is_held (some r) ≡ true
      → claim_existing alert chan key now (some (probe_of r)) rows ≡ ok (result, after)
      → is_claimed result ≡ false
  unfolding claim_existing read_state
  existing-not_claimed r result after held e = go r.state refl
    where
      go : (s : Named AlertState) → r.state ≡ s → is_claimed result ≡ false
      go (known s) h = state-not_claimed r s result after h held (ground arith)
      go (unknown raw) h = absurd (ground arith)

  -- A claim of an alert that is held.
  held-not_claimed :
      (result : ClaimResult) (after : List AlertRow)
      → is_held (select_one is_hit rows) ≡ true
      → claim_firing alert chan key now rows ≡ ok (result, after)
      → is_claimed result ≡ false
  unfolding claim_firing claim_probe
  held-not_claimed result after held e = elim (Option-cases (select_one is_hit rows)) [
    | inl missing ↦ absurd (ground arith)
    | inr (r, found) ↦
        existing-not_claimed r result after (ground arith)
          (ground (arith, select_one-any is_hit rows))
  ]

-- An alert is claimed once: after a claim of it, whatever its result, a repeat of the same alert in the
-- channel is no fresh claim.
pub claim_firing-once :
    (alert again : WebhookAlert) (chan : ChannelId) (key key' : GroupKey) (now now' : ℕ)
    (rows rows' rows'' : List AlertRow) (result result' : ClaimResult)
    → again.fingerprint ≡ alert.fingerprint
    → claim_firing alert chan key now rows ≡ ok (result, rows')
    → claim_firing again chan key' now' rows' ≡ ok (result', rows'')
    → is_claimed result' ≡ false
claim_firing-once alert again chan key key' now now' rows rows' rows'' result result' same first
      second =
    held-not_claimed again chan key' now' rows' result' rows''
      (rw same (claim_firing-held alert chan key now rows result rows' first)) second
