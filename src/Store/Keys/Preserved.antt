-- ===== src/Store/Keys/Preserved.antt =====
-- The keys of the tables of crates/store/migrations/sqlite under the methods of crates/store/src/sqlite.rs.
use alertthread.Base.{
  ℕ, String, ◌≡◌, refl, subst, inl, inr, Bool, not, ◌&&◌, Option, none, some, List, [], ◌∷◌, arith,
  eq_iff, str_eq, Bool-cases, any,
}
use alertthread.Base.Table.{update_where, Keyed, Keyed-append, Keyed-update_where}
use alertthread.Core.Ids.{ChannelId, GroupKey, LabelMap}
use alertthread.Core.Webhook.{WebhookAlert}
use alertthread.Core.Domain.{AlertBatch, ClaimResult, ClaimOutcome, GroupState, Op, Plan}
use alertthread.Store.Model.{ok, bind-ok}
use alertthread.Store.Row.{AlertRow, GroupRow, GroupDelta, stamp}
use alertthread.Store.Sql.{
  Db, Outbox, is_group, enqueue, claim_touch, claim_reclaim, touch_row, reclaim_row,
  mark_resolving_rows, resolving_row, insert_group, join_group,
}
use alertthread.Store.Ingest.{claim_all, persist_group, persist_ops, is_post_group, persist, ingest}
use alertthread.Store.Ingest.Cases.{
  Claims, fresh_row, inserted, reclaimed, touched, marked, claim_one-Claims, claim_all-cons,
}
use alertthread.Store.Keys.{Rising, same_alert, same_group, WellKeyed, Rising-append}

str_eq_comm : (s t : String) → str_eq s t ≡ str_eq t s
str_eq_comm s t = ground (arith, eq_iff s t, eq_iff t s)

same_alert_comm : (x y : AlertRow) → same_alert x y ≡ same_alert y x
same_alert_comm x y =
    ground (arith, str_eq_comm x.fingerprint y.fingerprint, str_eq_comm x.channel y.channel)

abbrev pub AlertKeys : List AlertRow → Type 0
AlertKeys = Keyed same_alert

abbrev pub GroupKeys : List GroupRow → Type 0
GroupKeys = Keyed same_group

-- An update of a row that keeps its key.
pub update_alerts :
    (q : AlertRow → Bool) (f : AlertRow → AlertRow) (rows : List AlertRow)
    → ((x y : AlertRow) → same_alert x (f y) ≡ same_alert x y)
    → ((x y : AlertRow) → same_alert (f x) y ≡ same_alert x y)
    → AlertKeys rows
    → AlertKeys (update_where q f rows)
update_alerts q f rows right left k = Keyed-update_where same_alert q f rows right left k

claim-AlertKeys :
    (batch : AlertBatch) (now : ℕ) (alert : WebhookAlert) (rows : List AlertRow)
    (result : ClaimResult) (after : List AlertRow)
    → Claims batch now alert rows result after
    → AlertKeys rows
    → AlertKeys after
claim-AlertKeys batch now alert rows result after (inserted new r a) k = rw a (
    Keyed-append same_alert rows (fresh_row batch now alert)
      (λ x. same_alert_comm x (fresh_row batch now alert)) new k)
claim-AlertKeys batch now alert rows result after (reclaimed old r a) k = rw a (
    unfold claim_reclaim in
    update_alerts _ (reclaim_row batch.group_key now alert.labels alert.annotations) rows
      (λ x y. refl) (λ x y. refl) k)
claim-AlertKeys batch now alert rows result after (touched r a) k = rw a (
    unfold claim_touch in
    update_alerts _ (touch_row batch.group_key now alert.labels alert.annotations) rows
      (λ x y. refl) (λ x y. refl) k)
claim-AlertKeys batch now alert rows result after (marked r a) k = rw a (
    unfold mark_resolving_rows in
    update_alerts _ (resolving_row now) rows (λ x y. refl) (λ x y. refl) k)

claims-AlertKeys :
    (batch : AlertBatch) (now : ℕ) (alerts : List WebhookAlert) (rows : List AlertRow)
    (outcomes : List ClaimOutcome) (after : List AlertRow)
    → claim_all batch now alerts rows ≡ ok (outcomes, after)
    → AlertKeys rows
    → AlertKeys after
unfolding claim_all
claims-AlertKeys batch now [] rows outcomes after e k = subst AlertKeys (ground arith) k
claims-AlertKeys batch now (alert ∷ rest) rows outcomes after e k =
    let (result, mid, later, one, others, eq) =
      claim_all-cons batch now alert rest rows outcomes after e in
    claims-AlertKeys batch now rest mid later after others (
      claim-AlertKeys batch now alert rows result mid
        (claim_one-Claims batch now alert rows result mid one) k)

join_group-GroupKeys :
    (chan : ChannelId) (rows : List GroupRow) (n : ℕ) (key : GroupKey)
    → GroupKeys rows
    → GroupKeys (join_group n key chan rows)
unfolding join_group
join_group-GroupKeys chan rows n key k =
    Keyed-update_where same_group _ _ rows (λ x y. refl) (λ x y. refl) k

insert_group-GroupKeys :
    (chan : ChannelId) (rows : List GroupRow) (key : GroupKey) (n : ℕ) (labels : LabelMap) (now : ℕ)
    → GroupKeys rows
    → GroupKeys (insert_group key chan n labels now rows).1
unfolding insert_group
insert_group-GroupKeys chan rows key n labels now k =
    elim (Bool-cases (any (is_group key chan) rows)) [
      | inl old ↦ rw old k
      | inr new ↦ rw new (
          Keyed-append same_group rows _
            (λ x. ground (arith, str_eq_comm x.group_key key, str_eq_comm x.channel chan)) new k)
    ]

persist_group-GroupKeys :
    (delta : GroupDelta) (chan : ChannelId) (labels : LabelMap) (now : ℕ) (rows : List GroupRow)
    → GroupKeys rows
    → GroupKeys (persist_group delta chan labels now rows).1
unfolding persist_group
persist_group-GroupKeys delta chan labels now rows k = go delta.group refl
  where
    go :
        (g : Option GroupKey)
        → delta.group ≡ g
        → GroupKeys (persist_group delta chan labels now rows).1
    go none e =
        subst GroupKeys {x = rows} {y = (persist_group delta chan labels now rows).1} (ground arith)
          k
    go (some key) e =
        let fresh = insert_group key chan delta.members labels now rows in
        let kept = insert_group-GroupKeys chan rows key delta.members labels now k in
        elim (Bool-cases delta.opens) [
          | inl opens ↦ elim (Bool-cases fresh.0) [
            | inl new ↦ rw (e, opens, new) kept
            | inr old ↦
                rw (e, opens, old) (join_group-GroupKeys chan fresh.1 delta.members key kept)
          ]
          | inr joins ↦ rw (e, joins) (join_group-GroupKeys chan rows delta.members key k)
        ]

abbrev pub Ids : Outbox → Type 0
Ids o = Rising 0 o.last_id o.rows

pub enqueue-Ids : (op : Op) (now : ℕ) (o : Outbox) → Ids o → Ids (enqueue op now o)
unfolding enqueue
enqueue-Ids op now o k = Rising-append 0 o.last_id o.rows _ refl k

persist_ops-Ids :
    (opened : Bool) (ops : List Op) (now : ℕ) (o : Outbox)
    → Ids o
    → Ids (persist_ops opened ops now o).1
unfolding persist_ops
persist_ops-Ids opened [] now o k = k
persist_ops-Ids opened (op ∷ rest) now o k = elim (Bool-cases (is_post_group op && not opened)) [
  | inl dropped ↦ rw dropped (persist_ops-Ids opened rest now o k)
  | inr kept ↦ rw kept (persist_ops-Ids opened rest now (enqueue op now o) (enqueue-Ids op now o k))
]

-- A delivery that succeeds keeps the keys, whatever the decision on its claims: one row for an alert, one
-- for a group, and ids that rise to the last one.
pub ingest-WellKeyed :
    (batch : AlertBatch) (at : ℕ) (decide : List ClaimOutcome → Option GroupState → Plan)
    (db db' : Db) (p : Plan)
    → ingest batch at decide db ≡ ok (p, db')
    → WellKeyed db
    → WellKeyed db'
unfolding ingest persist
ingest-WellKeyed batch at decide db db' p e k =
    let (found, claim, rest) =
      bind-ok (claim_all batch (stamp at) batch.alerts db.alerts) _ (p, db') e in
    subst WellKeyed {x = (persist batch (stamp at) decide db found).1} {y = db'} (ground arith)
      (record {
        alert_keys =
            claims-AlertKeys batch (stamp at) batch.alerts db.alerts found.0 found.1 claim
              k.alert_keys;
        group_keys =
            persist_group-GroupKeys _ batch.channel batch.group_labels (stamp at) db.groups
              k.group_keys;
        ids = persist_ops-Ids _ _ (stamp at) db.outbox k.ids;
      })
