-- ===== src/Store/Sql/Alerts.antt =====
-- crates/store/src/sqlite.rs: the statements on the table `alert_message`.
use alertthread.Base.{
  ℕ, Bool, true, false, ◌&&◌, Option, none, some, List, [], ◌∷◌, ◌++◌, str_eq, if◌then◌else◌, any,
}
use alertthread.Base.Table.{select_one, update_where}
use alertthread.Core.Ids.{Fingerprint, ChannelId, MessageTs, GroupKey, ThreadTs, LabelMap}
use alertthread.Store.Model.{AlertState}
use alertthread.Store.Row.{Named, known, AlertRow, ClaimProbeRow, ResolveClaimRow}

-- WHERE fingerprint = ? AND channel = ?
abbrev pub is_alert : Fingerprint → ChannelId → AlertRow → Bool
is_alert fp chan r = str_eq r.fingerprint fp && str_eq r.channel chan

-- The same with a fingerprint that may be NULL.
abbrev pub is_alert? : Option Fingerprint → ChannelId → AlertRow → Bool
is_alert? none chan r = false
is_alert? (some fp) chan r = is_alert fp chan r

-- state IN ('claimed', 'posted')
abbrev pub is_open : Named AlertState → Bool
is_open (known AlertState.claimed) = true
is_open (known AlertState.posted) = true
is_open _ = false

abbrev pub is_resolving : Named AlertState → Bool
is_resolving (known AlertState.resolving) = true
is_resolving _ = false

abbrev pub is_resolved : Named AlertState → Bool
is_resolved (known AlertState.resolved) = true
is_resolved _ = false

abbrev pub is_failed : Named AlertState → Bool
is_failed (known AlertState.failed) = true
is_failed _ = false

abbrev pub claimed_row : Fingerprint → ChannelId → GroupKey → ℕ → LabelMap → LabelMap → AlertRow
claimed_row fp chan key now labels annotations = record {
  fingerprint = fp;
  channel = chan;
  state = known AlertState.claimed;
  message_ts = none;
  thread_parent_ts = none;
  group_key = some key;
  first_seen = now;
  last_seen = now;
  resolved_at = none;
  labels = labels;
  annotations = annotations;
}

-- CLAIM_INSERT, with whether a row was inserted.
unfoldable pub claim_insert :
    Fingerprint
    → ChannelId
    → GroupKey
    → ℕ
    → LabelMap
    → LabelMap
    → List AlertRow
    → Bool × List AlertRow
claim_insert fp chan key now labels annotations rows =
    if any (is_alert fp chan) rows
    then (false, rows)
    else (true, rows ++ claimed_row fp chan key now labels annotations ∷ [])

-- CLAIM_PROBE
unfoldable pub claim_probe : Fingerprint → ChannelId → List AlertRow → Option ClaimProbeRow
claim_probe fp chan rows = elim (select_one (is_alert fp chan) rows) [
  | none ↦ none
  | some r ↦ some (record { state = r.state; last_seen = r.last_seen; message_ts = r.message_ts })
]

abbrev pub touch_row : GroupKey → ℕ → LabelMap → LabelMap → AlertRow → AlertRow
touch_row key now labels annotations r = record r {
  last_seen = now;
  group_key = some key;
  labels = labels;
  annotations = annotations;
}

-- CLAIM_TOUCH
unfoldable pub claim_touch :
    Fingerprint → ChannelId → GroupKey → ℕ → LabelMap → LabelMap → List AlertRow → List AlertRow
claim_touch fp chan key now labels annotations =
    update_where (is_alert fp chan) (touch_row key now labels annotations)

abbrev pub reclaim_row : GroupKey → ℕ → LabelMap → LabelMap → AlertRow → AlertRow
reclaim_row key now labels annotations r = record r {
  state = known AlertState.claimed;
  message_ts = none;
  thread_parent_ts = none;
  resolved_at = none;
  group_key = some key;
  first_seen = now;
  last_seen = now;
  labels = labels;
  annotations = annotations;
}

-- CLAIM_RECLAIM
unfoldable pub claim_reclaim :
    Fingerprint → ChannelId → GroupKey → ℕ → LabelMap → LabelMap → List AlertRow → List AlertRow
claim_reclaim fp chan key now labels annotations =
    update_where (is_alert fp chan) (reclaim_row key now labels annotations)

abbrev pub resolving_row : ℕ → AlertRow → AlertRow
resolving_row now r = record r {
  state = known AlertState.resolving;
  resolved_at = some now;
  last_seen = now;
}

-- MARK_RESOLVING, with the row that it returns. It leaves the two columns that it returns alone.
unfoldable pub mark_resolving_rows :
    Fingerprint → ChannelId → ℕ → List AlertRow → Option ResolveClaimRow × List AlertRow
mark_resolving_rows fp chan now rows =
    let hit : AlertRow → Bool = λ x. is_alert fp chan x && is_open x.state in
    (
      elim (select_one hit rows) [
        | none ↦ none
        | some r ↦
            some (record { message_ts = r.message_ts; thread_parent_ts = r.thread_parent_ts })
      ],
      update_where hit (resolving_row now) rows,
    )

-- CASE WHEN state = 'claimed' THEN 'posted' ELSE state END
abbrev pub after_post : Named AlertState → Named AlertState
after_post (known AlertState.claimed) = known AlertState.posted
after_post s = s

abbrev pub posted_row : MessageTs → Option ThreadTs → AlertRow → AlertRow
posted_row ts parent r = record r {
  message_ts = some ts;
  thread_parent_ts = parent;
  state = after_post r.state;
}

-- APPLY_POSTED
unfoldable pub apply_posted :
    MessageTs → Option ThreadTs → Option Fingerprint → ChannelId → List AlertRow → List AlertRow
apply_posted ts parent fp chan = update_where (is_alert? fp chan) (posted_row ts parent)

abbrev pub resolved_row : ℕ → AlertRow → AlertRow
resolved_row now r = record r {
  state = known AlertState.resolved;
  resolved_at = elim r.resolved_at [ none ↦ some now | some at ↦ some at ];
}

-- APPLY_RESOLVED
unfoldable pub apply_resolved : ℕ → Option Fingerprint → ChannelId → List AlertRow → List AlertRow
apply_resolved now fp chan =
    update_where (λ x. is_alert? fp chan x && is_resolving x.state) (resolved_row now)

abbrev pub lost_row : AlertRow → AlertRow
lost_row r = record r {
  message_ts = none;
  thread_parent_ts = none;
  state = known AlertState.claimed;
}

-- APPLY_MESSAGE_LOST
unfoldable pub apply_message_lost : Fingerprint → ChannelId → List AlertRow → List AlertRow
apply_message_lost fp chan = update_where (is_alert fp chan) lost_row

abbrev pub failed_row : AlertRow → AlertRow
failed_row r = record r { state = known AlertState.failed }

-- MARK_ALERT_FAILED
unfoldable pub mark_alert_failed : Fingerprint → ChannelId → List AlertRow → List AlertRow
mark_alert_failed fp chan = update_where (λ x. is_alert fp chan x && is_open x.state) failed_row

abbrev pub unfailed_row : AlertRow → AlertRow
unfailed_row r = record r { state = known AlertState.claimed }

-- UNMARK_ALERT_FAILED
unfoldable pub unmark_alert_failed : Fingerprint → ChannelId → List AlertRow → List AlertRow
unmark_alert_failed fp chan =
    update_where (λ x. is_alert fp chan x && is_failed x.state) unfailed_row
