-- ===== src/Store/Model.antt =====
-- crates/store/src/model.rs and error.rs: what the store says to its callers. A count in a column
-- (attempts, members) is a natural number, as the statements never make one negative.
use alertthread.Base.{
  ℕ, ◌+◌, String, ◌≡◌, refl, ◌↔◌, Option, none, some, arith, eq_iff, str_eq, if◌then◌else◌,
}
use alertthread.Base.Int.{ℤ, pos}
use alertthread.Core.Ids.{Fingerprint, ChannelId, MessageTs, GroupKey, ThreadTs, LabelMap}
use alertthread.Core.Domain.{GroupState, Op}

abbrev pub OpId : Type 0
OpId = ℕ

abbrev pub WorkerId : Type 0
WorkerId = String

pub data AlertState : Type 0 where
  claimed posted resolving resolved failed : AlertState

unfoldable pub as_str : AlertState → String
as_str AlertState.claimed = "claimed"
as_str AlertState.posted = "posted"
as_str AlertState.resolving = "resolving"
as_str AlertState.resolved = "resolved"
as_str AlertState.failed = "failed"

unfoldable pub parse : String → Option AlertState
parse raw =
    if str_eq raw "claimed"
    then some AlertState.claimed
    else if str_eq raw "posted"
    then some AlertState.posted
    else if str_eq raw "resolving"
    then some AlertState.resolving
    else if str_eq raw "resolved"
    then some AlertState.resolved
    else if str_eq raw "failed"
    then some AlertState.failed
    else none

pub record AlertRecord : Type 0 where
  pub fingerprint : Fingerprint
  pub channel : ChannelId
  pub state : AlertState
  pub message_ts : Option MessageTs
  pub thread_parent_ts : Option ThreadTs
  pub group_key : Option GroupKey
  pub first_seen : ℕ
  pub last_seen : ℕ
  pub resolved_at : Option ℕ
  pub labels : LabelMap
  pub annotations : LabelMap

pub record GroupRecord : Type 0 where
  pub group_key : GroupKey
  pub channel : ChannelId
  pub message_ts : Option ThreadTs
  pub member_count : ℕ
  pub group_labels : LabelMap
  pub created_at : ℕ

abbrev pub group_state : GroupRecord → GroupState
group_state r = record { group_key = r.group_key; message_ts = r.message_ts }

pub data OpEffect : Type 0 where
  posted : (message_ts : MessageTs) → (thread_parent_ts : Option ThreadTs) → OpEffect
  group_posted : (message_ts : ThreadTs) → OpEffect
  refreshed resolved message_lost standalone : OpEffect

pub data Deferral : Type 0 where
  rate_limited : (until : ℕ) → Deferral
  backoff : (until : ℕ) → (error : String) → Deferral

pub record LeasedOp : Type 0 where
  pub id : OpId
  pub op : Op
  pub attempts : ℕ
  pub leased_until : ℕ
  pub created_at : ℕ

pub record DeadLetter : Type 0 where
  pub id : OpId
  pub op : Op
  pub channel : ChannelId
  pub fingerprint : Option Fingerprint
  pub attempts : ℕ
  pub last_error : Option String
  pub created_at : ℕ
  pub dead_lettered_at : ℕ

pub record DeadLetterScope : Type 0 where
  pub channel : Option ChannelId
  pub fingerprint : Option Fingerprint

-- `DeadLetterScope::ALL`
abbrev pub everything : DeadLetterScope
everything = record { channel = none; fingerprint = none }

abbrev pub with_channel : DeadLetterScope → ChannelId → DeadLetterScope
with_channel s c = record s { channel = some c }

abbrev pub with_fingerprint : DeadLetterScope → Fingerprint → DeadLetterScope
with_fingerprint s f = record s { fingerprint = some f }

pub record RetentionPolicy : Type 0 where
  pub resolved_after : ℤ
  pub stale_after : ℤ

-- 7 and 30 days, in nanoseconds.
abbrev pub default_retention : RetentionPolicy
default_retention = record {
  resolved_after = pos 604_800_000_000_000;
  stale_after = pos 2_592_000_000_000_000;
}

pub record PruneStats : Type 0 where
  pub resolved_alerts : ℕ
  pub stale_alerts : ℕ
  pub empty_groups : ℕ

pub record GroupMembership : Type 0 where
  pub firing : ℕ
  pub resolved : ℕ

abbrev pub total : GroupMembership → ℕ
total m = m.firing + m.resolved

pub data StoreError : Type 0 where
  database migrate : StoreError
  undecodable_op : (id : OpId) → StoreError
  unknown_alert_state : Fingerprint → ChannelId → (state : String) → StoreError
  no_such_op : (id : OpId) → StoreError
  claim_vanished : Fingerprint → ChannelId → StoreError
  unknown_op_kind : String → StoreError
  unknown_backend : String → StoreError

pub data Result {ℓ} (A : Type ℓ) : Type ℓ where
  ok : A → Result A
  err : StoreError → Result A

-- The operator `?` of the source.
infixl 5 ◌>>=◌
abbrev pub ◌>>=◌ {ℓ κ} : {A : Type ℓ} {B : Type κ} → Result A → (A → Result B) → Result B
ok a >>= f = f a
err e >>= f = err e

abbrev pub or_err {ℓ} : {A : Type ℓ} → Option A → StoreError → Result A
or_err none e = err e
or_err (some a) e = ok a

-- What a chain of fallible steps that succeeded went through.
pub bind-ok {ℓ κ} :
    {A : Type ℓ} {B : Type κ} (m : Result A) (f : A → Result B) (b : B)
    → (m >>= f) ≡ ok b
    → (a : A) × (m ≡ ok a) × (f a ≡ ok b)
bind-ok (ok a) f b h = (a, refl, h)
bind-ok (err e) f b h = cc

parse_sound : (s : AlertState) (raw : String) → parse raw ≡ some s → raw ≡ as_str s
unfolding parse as_str
parse_sound s raw h = ground (
  arith,
  eq_iff raw "claimed",
  eq_iff raw "posted",
  eq_iff raw "resolving",
  eq_iff raw "resolved",
  eq_iff raw "failed",
)

parse_complete : (s : AlertState) → parse (as_str s) ≡ some s
unfolding parse as_str
parse_complete AlertState.claimed = refl
parse_complete AlertState.posted = refl
parse_complete AlertState.resolving = refl
parse_complete AlertState.resolved = refl
parse_complete AlertState.failed = refl

-- A state is read back from its name, and a text that is read as a state is that state's name.
pub parse_state_iff : (s : AlertState) (raw : String) → (parse raw ≡ some s) ↔ (raw ≡ as_str s)
parse_state_iff s raw = (parse_sound s raw, λ e. rw e (parse_complete s))
