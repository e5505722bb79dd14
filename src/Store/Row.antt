-- ===== src/Store/Row.antt =====
-- crates/store/src/row.rs: the rows of the three tables and their conversions.
-- A text column that names a value of an enumeration is `Named`: the name of a value, or another text.
-- A time is a number of nanoseconds from the earliest instant that `DateTime<Utc>` has.
use alertthread.Base.{
  ℕ, ◌+◌, ◌-◌, ◌*◌, ◌/◌, ◌≤◌, min, String, ◌≡◌, Bool, true, false, Option, none, some, List, [],
  ◌∷◌, arith, leb, if◌then◌else◌,
}
use alertthread.Base.Int.{ℤ, pos_part}
use alertthread.Core.Ids.{Fingerprint, ChannelId, MessageTs, GroupKey, ThreadTs, LabelMap}
use alertthread.Core.Domain.{ClaimResult, Placement, Op}
use alertthread.Store.Payload.{OpKind, StoredOp, load_op}
use alertthread.Store.Model.{
  OpId, AlertState, AlertRecord, GroupRecord, LeasedOp, GroupMembership, Result, ok, err, ◌>>=◌,
  undecodable_op, unknown_alert_state,
}

-- `trunc_subsecs(6)`: what both databases keep is a microsecond.
unfoldable pub stamp : ℕ → ℕ
stamp at = at / 1000 * 1000

pub data Named (E : Type 0) : Type 0 where
  known : E → Named E
  unknown : String → Named E

-- The JSON of an outbox row, as far as `serde_json::from_value` tells its values apart.
pub data Payload : Type 0 where
  stored : StoredOp → Payload
  undecodable : Payload

pub record AlertRow : Type 0 where
  pub fingerprint : Fingerprint
  pub channel : ChannelId
  pub state : Named AlertState
  pub message_ts : Option MessageTs
  pub thread_parent_ts : Option ThreadTs
  pub group_key : Option GroupKey
  pub first_seen : ℕ
  pub last_seen : ℕ
  pub resolved_at : Option ℕ
  pub labels : LabelMap
  pub annotations : LabelMap

pub record GroupRow : Type 0 where
  pub group_key : GroupKey
  pub channel : ChannelId
  pub message_ts : Option ThreadTs
  pub member_count : ℕ
  pub group_labels : LabelMap
  pub created_at : ℕ

pub record OutboxRow : Type 0 where
  pub id : OpId
  pub op : Named OpKind
  pub channel : ChannelId
  pub fingerprint : Option Fingerprint
  pub group_key : Option GroupKey
  pub payload : Payload
  pub attempts : ℕ
  pub next_attempt_at : ℕ
  pub leased_by : Option String
  pub leased_until : Option ℕ
  pub last_error : Option String
  pub created_at : ℕ
  pub dead_lettered_at : Option ℕ

pub record ClaimProbeRow : Type 0 where
  pub state : Named AlertState
  pub last_seen : ℕ
  pub message_ts : Option MessageTs

pub record ResolveClaimRow : Type 0 where
  pub message_ts : Option MessageTs
  pub thread_parent_ts : Option ThreadTs

-- `AlertState::parse` of a column, with the error for the row.
unfoldable pub read_state : Fingerprint → ChannelId → Named AlertState → Result AlertState
read_state fp chan (known s) = ok s
read_state fp chan (unknown raw) = err (unknown_alert_state fp chan raw)

unfoldable pub alert_into_record : AlertRow → Result AlertRecord
unfolding read_state
alert_into_record r = do
  s ← read_state r.fingerprint r.channel r.state
  ok (record {
    fingerprint = r.fingerprint;
    channel = r.channel;
    state = s;
    message_ts = r.message_ts;
    thread_parent_ts = r.thread_parent_ts;
    group_key = r.group_key;
    first_seen = r.first_seen;
    last_seen = r.last_seen;
    resolved_at = r.resolved_at;
    labels = r.labels;
    annotations = r.annotations;
  })

unfoldable pub group_into_record : GroupRow → GroupRecord
group_into_record r = record {
  group_key = r.group_key;
  channel = r.channel;
  message_ts = r.message_ts;
  member_count = r.member_count;
  group_labels = r.group_labels;
  created_at = r.created_at;
}

unfoldable pub decode : OpId → Payload → Result Op
decode id (stored s) = ok (load_op s)
decode id undecodable = err (undecodable_op id)

unfoldable pub into_leased : OutboxRow → ℕ → Result LeasedOp
unfolding decode
into_leased r leased_until = do
  op ← decode r.id r.payload
  ok (record {
    id = r.id;
    op = op;
    attempts = r.attempts;
    leased_until = elim r.leased_until [ some at ↦ at | none ↦ leased_until ];
    created_at = r.created_at;
  })

-- `sort_by_key` on the ids: a stable sort by insertion.
abbrev insert_op : LeasedOp → List LeasedOp → List LeasedOp
insert_op x [] = x ∷ []
insert_op x (y ∷ ys) = let rest = insert_op x ys in if leb x.id y.id then x ∷ y ∷ ys else y ∷ rest

abbrev pub sort_ops : List LeasedOp → List LeasedOp
sort_ops [] = []
sort_ops (x ∷ xs) = insert_op x (sort_ops xs)

unfoldable pub decode_rows : List OutboxRow → ℕ → Result (List LeasedOp)
unfolding into_leased
decode_rows [] leased_until = ok []
decode_rows (r ∷ rest) leased_until = do
  op ← into_leased r leased_until
  ops ← decode_rows rest leased_until
  ok (op ∷ ops)

unfoldable pub leased : List OutboxRow → ℕ → Result (List LeasedOp)
unfolding decode_rows
leased rows leased_until = do ops ← decode_rows rows leased_until; ok (sort_ops ops)

-- A resolve whose update matched no row: an orphan, or a duplicate of a resolve in hand.
unfoldable pub resolve_miss : Option ClaimProbeRow → Fingerprint → ChannelId → Result ClaimResult
unfolding read_state
resolve_miss none fp chan = ok ClaimResult.orphan
resolve_miss (some existing) fp chan = do
  s ← read_state fp chan existing.state
  elim s [ AlertState.failed ↦ ok ClaimResult.orphan | _ ↦ ok ClaimResult.already_resolving ]

unfoldable pub membership : ℤ → Option ℤ → GroupMembership
membership total resolved =
    let all = pos_part total in
    let done = min (elim resolved [ none ↦ 0 | some n ↦ pos_part n ]) all in
    record { firing = all - done; resolved = done }

-- What a plan does to the membership of a group.
pub record GroupDelta : Type 0 where
  pub group : Option GroupKey
  pub opens : Bool
  pub members : ℕ

-- `i32::saturating_add(1)`
abbrev pub saturating_suc : ℕ → ℕ
saturating_suc n = min (n + 1) 2_147_483_647

unfoldable pub add_op : GroupDelta → Op → GroupDelta
add_op d (Op.post_group k _ _) = record d { group = some k; opens = true }
add_op d (Op.post _ _ (Placement.thread k _)) = record d {
  group = some (elim d.group [ none ↦ k | some g ↦ g ]);
  members = saturating_suc d.members;
}
add_op d (Op.post _ _ Placement.channel) = d
add_op d (Op.refresh _ _ _) = d
add_op d (Op.resolve _ _ _ _ _) = d
add_op d (Op.post_orphan_resolved _ _) = d
add_op d (Op.refresh_group _ _ _) = d

unfoldable pub add_ops : GroupDelta → List Op → GroupDelta
unfolding add_op
add_ops d [] = d
add_ops d (op ∷ ops) = add_ops (add_op d op) ops

abbrev pub no_delta : GroupDelta
no_delta = record { group = none; opens = false; members = 0 }

unfoldable pub delta_of : List Op → GroupDelta
unfolding add_ops
delta_of ops = add_ops no_delta ops

-- The two counts of a summary add up to the members of the group, whatever sum the query gives.
pub membership_total :
    (n : ℕ) (resolved : Option ℤ)
    → ((membership (ℤ.pos n) resolved).firing + (membership (ℤ.pos n) resolved).resolved ≡ n)
      × ((membership (ℤ.pos n) resolved).resolved ≤ n)
unfolding membership
membership_total n none = omega arith
membership_total n (some r) = omega arith
