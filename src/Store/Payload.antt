-- ===== src/Store/Payload.antt =====
-- crates/store/src/payload.rs: what an outbox row stores of an op, and the names of the kinds.
-- `serde_json`, which writes a `StoredOp` as JSON and reads it back, is not under the repository: a
-- column's JSON is `Payload` in Store/Row.antt, either a `StoredOp` or a value that is none.
use alertthread.Base.{
  ℕ, String, ◌≡◌, refl, ◌↔◌, Bool, Option, none, some, List, [], ◌∷◌, arith, eq_iff, str_eq,
}
use alertthread.Base.Table.{select_one}
use alertthread.Core.Ids.{Fingerprint, ChannelId, MessageTs, GroupKey, ThreadTs}
use alertthread.Core.Domain.{Placement, ResolveTarget, Op}

pub data OpKind : Type 0 where
  post post_group refresh refresh_group resolve post_orphan_resolved : OpKind

unfoldable pub all : List OpKind
all =
    OpKind.post ∷ OpKind.post_group ∷ OpKind.refresh ∷ OpKind.refresh_group ∷ OpKind.resolve
    ∷ OpKind.post_orphan_resolved ∷ []

unfoldable pub as_str : OpKind → String
as_str OpKind.post = "post"
as_str OpKind.post_group = "post_group"
as_str OpKind.refresh = "refresh"
as_str OpKind.refresh_group = "refresh_group"
as_str OpKind.resolve = "resolve"
as_str OpKind.post_orphan_resolved = "post_orphan_resolved"

unfoldable pub parse : String → Option OpKind
parse raw = select_one (λ kind. str_eq (as_str kind) raw) all

abbrev pub kind_of : Op → OpKind
kind_of (Op.post _ _ _) = OpKind.post
kind_of (Op.post_group _ _ _) = OpKind.post_group
kind_of (Op.refresh _ _ _) = OpKind.refresh
kind_of (Op.refresh_group _ _ _) = OpKind.refresh_group
kind_of (Op.resolve _ _ _ _ _) = OpKind.resolve
kind_of (Op.post_orphan_resolved _ _) = OpKind.post_orphan_resolved

abbrev pub channel_of : Op → ChannelId
channel_of (Op.post _ c _) = c
channel_of (Op.post_group _ c _) = c
channel_of (Op.refresh _ c _) = c
channel_of (Op.refresh_group _ c _) = c
channel_of (Op.resolve _ c _ _ _) = c
channel_of (Op.post_orphan_resolved _ c) = c

abbrev pub fingerprint_of : Op → Option Fingerprint
fingerprint_of (Op.post f _ _) = some f
fingerprint_of (Op.refresh f _ _) = some f
fingerprint_of (Op.resolve f _ _ _ _) = some f
fingerprint_of (Op.post_orphan_resolved f _) = some f
fingerprint_of (Op.post_group _ _ _) = none
fingerprint_of (Op.refresh_group _ _ _) = none

abbrev pub group_key_of : Op → Option GroupKey
group_key_of (Op.post_group k _ _) = some k
group_key_of (Op.refresh_group k _ _) = some k
group_key_of (Op.post _ _ (Placement.thread k _)) = some k
group_key_of (Op.post _ _ Placement.channel) = none
group_key_of (Op.refresh _ _ _) = none
group_key_of (Op.resolve _ _ _ _ _) = none
group_key_of (Op.post_orphan_resolved _ _) = none

pub data StoredPlacement : Type 0 where
  channel : StoredPlacement
  thread : (group_key : GroupKey) → (parent_ts : Option ThreadTs) → StoredPlacement

pub data StoredResolveTarget : Type 0 where
  message : (message_ts : MessageTs) → (thread_parent_ts : Option ThreadTs) → StoredResolveTarget
  awaiting_post : StoredResolveTarget

pub data StoredOp : Type 0 where
  post :
      (fingerprint : Fingerprint) → (channel : ChannelId) → (placement : StoredPlacement) → StoredOp
  post_group : (group_key : GroupKey) → (channel : ChannelId) → (initial_members : ℕ) → StoredOp
  refresh :
      (fingerprint : Fingerprint) → (channel : ChannelId) → (message_ts : MessageTs) → StoredOp
  refresh_group :
      (group_key : GroupKey) → (channel : ChannelId) → (message_ts : ThreadTs) → StoredOp
  resolve :
      (fingerprint : Fingerprint)
      → (channel : ChannelId) → (target : StoredResolveTarget) → (update_in_place : Bool)
      → (thread_reply : Bool) → StoredOp
  post_orphan_resolved : (fingerprint : Fingerprint) → (channel : ChannelId) → StoredOp

store_placement : Placement → StoredPlacement
store_placement Placement.channel = StoredPlacement.channel
store_placement (Placement.thread k parent) = StoredPlacement.thread k parent

load_placement : StoredPlacement → Placement
load_placement StoredPlacement.channel = Placement.channel
load_placement (StoredPlacement.thread k parent) = Placement.thread k parent

store_target : ResolveTarget → StoredResolveTarget
store_target (ResolveTarget.message ts parent) = StoredResolveTarget.message ts parent
store_target ResolveTarget.awaiting_post = StoredResolveTarget.awaiting_post

load_target : StoredResolveTarget → ResolveTarget
load_target (StoredResolveTarget.message ts parent) = ResolveTarget.message ts parent
load_target StoredResolveTarget.awaiting_post = ResolveTarget.awaiting_post

unfoldable pub store_op : Op → StoredOp
unfolding store_placement store_target
store_op (Op.post f c placement) = StoredOp.post f c (store_placement placement)
store_op (Op.post_group k c n) = StoredOp.post_group k c n
store_op (Op.refresh f c ts) = StoredOp.refresh f c ts
store_op (Op.refresh_group k c ts) = StoredOp.refresh_group k c ts
store_op (Op.resolve f c target edit reply) = StoredOp.resolve f c (store_target target) edit reply
store_op (Op.post_orphan_resolved f c) = StoredOp.post_orphan_resolved f c

unfoldable pub load_op : StoredOp → Op
unfolding load_placement load_target
load_op (StoredOp.post f c placement) = Op.post f c (load_placement placement)
load_op (StoredOp.post_group k c n) = Op.post_group k c n
load_op (StoredOp.refresh f c ts) = Op.refresh f c ts
load_op (StoredOp.refresh_group k c ts) = Op.refresh_group k c ts
load_op (StoredOp.resolve f c target edit reply) = Op.resolve f c (load_target target) edit reply
load_op (StoredOp.post_orphan_resolved f c) = Op.post_orphan_resolved f c

-- An op comes back from its stored form as it was, and every stored form is that of the op it loads as.
pub load_op-store_op :
    (op : Op) (s : StoredOp) → (load_op (store_op op) ≡ op) × (store_op (load_op s) ≡ s)
unfolding load_op store_op
load_op-store_op op s = ground arith

parse_sound : (kind : OpKind) (raw : String) → parse raw ≡ some kind → raw ≡ as_str kind
unfolding parse as_str all
parse_sound kind raw h = ground (
  arith,
  eq_iff "post" raw,
  eq_iff "post_group" raw,
  eq_iff "refresh" raw,
  eq_iff "refresh_group" raw,
  eq_iff "resolve" raw,
  eq_iff "post_orphan_resolved" raw,
)

parse_complete : (kind : OpKind) → parse (as_str kind) ≡ some kind
unfolding parse as_str all
parse_complete OpKind.post = refl
parse_complete OpKind.post_group = refl
parse_complete OpKind.refresh = refl
parse_complete OpKind.refresh_group = refl
parse_complete OpKind.resolve = refl
parse_complete OpKind.post_orphan_resolved = refl

-- A kind is read back from its name, and a text that is read as a kind is that kind's name.
pub parse_kind_iff : (kind : OpKind) (raw : String) → (parse raw ≡ some kind) ↔ (raw ≡ as_str kind)
parse_kind_iff kind raw = (parse_sound kind raw, λ e. rw e (parse_complete kind))
