-- ===== src/Core/Plan.antt =====
-- crates/core/src/plan.rs: `plan`, which turns the outcomes of the claims into work.
pub mod Spec
pub mod Collapse
pub mod Silence
use alertthread.Base.{
  ℕ, ◌+◌, Bool, true, false, not, ◌&&◌, ◌||◌, Option, none, some, List, [], ◌∷◌, ◌++◌, ltb, ◌==◌,
  if◌then◌else◌, is_some, length, is_empty, count_where,
}
use alertthread.Base.Int.{leb_ℤ, signed_duration_since}
use alertthread.Core.Ids.{Fingerprint, MessageTs, ThreadTs}
use alertthread.Core.Webhook.{AlertStatus}
use alertthread.Core.Policy.{Policy}
use alertthread.Core.Domain.{
  AlertBatch, ClaimResult, claimed, already_claimed, already_posted, resolving, orphan,
  already_resolving, ClaimOutcome, GroupState, Placement, thread, ResolveTarget, message,
  awaiting_post, Op, post_group, post, refresh, resolve, post_orphan_resolved, refresh_group,
  Notice, alerts_truncated, empty_batch, unknown_status, orphan_resolve, storm_collapsed,
  outcome_count_mismatch, Plan,
}

unfoldable pub batch_notices : List ClaimOutcome → AlertBatch → List Notice
batch_notices outcomes batch =
    (if ltb 0 batch.truncated_alerts then alerts_truncated batch.truncated_alerts ∷ [] else [])
    ++ (if is_empty batch.alerts then empty_batch ∷ [] else [])
    ++ (if length outcomes == length batch.alerts
        then []
        else outcome_count_mismatch (length batch.alerts) (length outcomes) ∷ [])

unfoldable pub thread_placement : Option GroupState → AlertBatch → Placement
thread_placement (some state) batch = thread state.group_key state.message_ts
thread_placement none batch = thread batch.group_key none

unfoldable pub resolve_target : Option MessageTs → Option ThreadTs → ResolveTarget
resolve_target (some ts) parent = message ts parent
resolve_target none parent = awaiting_post

-- `outcome.result == ClaimResult::Claimed`
abbrev pub is_claimed : ClaimResult → Bool
is_claimed claimed = true
is_claimed _ = false

unfoldable pub new_posts : List ClaimOutcome → ℕ
new_posts = count_where (λ outcome. is_claimed outcome.result)

unfoldable pub existing_parent : Option GroupState → Policy → Option GroupState
existing_parent group policy = if ltb 0 policy.collapse_threshold then group else none

unfoldable pub is_collapsing : List ClaimOutcome → Option GroupState → Policy → Bool
is_collapsing outcomes group policy =
    ltb 0 (new_posts outcomes)
    && (is_some (existing_parent group policy)
        || ltb policy.collapse_threshold (new_posts outcomes))
    && ltb 0 policy.collapse_threshold

unfoldable pub is_opening_group : List ClaimOutcome → Option GroupState → Policy → Bool
is_opening_group outcomes group policy =
    is_collapsing outcomes group policy && not (is_some (existing_parent group policy))

unfoldable pub placement_of :
    List ClaimOutcome → AlertBatch → Option GroupState → Policy → Placement
placement_of outcomes batch group policy =
    if is_collapsing outcomes group policy
    then thread_placement (existing_parent group policy) batch
    else Placement.channel

-- The variables that the loop over the outcomes changes.
pub record Progress : Type 0 where
  pub ops : List Op
  pub notices : List Notice
  pub resolved_members : ℕ

unfoldable pub note_status : ClaimOutcome → Progress → Progress
note_status outcome p = elim outcome.alert.status [
  | AlertStatus.firing ↦ p
  | AlertStatus.resolved ↦ p
  | AlertStatus.unknown raw ↦ record p {
    notices = p.notices ++ unknown_status outcome.alert.fingerprint raw ∷ [];
  }
]

push_op : Op → Progress → Progress
push_op op p = record p { ops = p.ops ++ op ∷ [] }

module _ (batch : AlertBatch) (policy : Policy) (placement : Placement) (now : ℕ) where
  -- The body of the loop behind the note on the status: the match on the claim's result.
  unfoldable pub decide : Fingerprint → ClaimResult → Progress → Progress
  unfolding push_op resolve_target
  decide fp claimed p = push_op (post fp batch.channel placement) p
  decide fp already_claimed p = p
  decide fp already_resolving p = p
  decide fp (already_posted last_seen ts) p =
      if leb_ℤ policy.refresh_debounce (signed_duration_since now last_seen)
      then push_op (refresh fp batch.channel ts) p
      else p
  decide fp (resolving ts parent) p =
      push_op
        (resolve fp batch.channel (resolve_target ts parent) policy.resolve_update_in_place
          policy.resolve_thread_reply)
        (record p { resolved_members = p.resolved_members + (if is_some parent then 1 else 0) })
  decide fp orphan p =
      push_op (post_orphan_resolved fp batch.channel)
        (record p { notices = p.notices ++ orphan_resolve fp ∷ [] })

  unfoldable pub decide_all : List ClaimOutcome → Progress → Progress
  unfolding decide note_status
  decide_all [] p = p
  decide_all (outcome ∷ rest) p =
      decide_all rest (decide outcome.alert.fingerprint outcome.result (note_status outcome p))

-- The update of the parent's count, if the parent has been posted and its membership changed.
unfoldable pub refresh_parent : Option GroupState → AlertBatch → Bool → ℕ → List Op
refresh_parent none batch collapsing resolved_members = []
refresh_parent (some state) batch collapsing resolved_members = elim state.message_ts [
  | none ↦ []
  | some parent_ts ↦
      if collapsing || ltb 0 resolved_members
      then refresh_group state.group_key batch.channel parent_ts ∷ []
      else []
]

unfoldable pub opening : List ClaimOutcome → AlertBatch → Option GroupState → Policy → Progress
opening outcomes batch group policy =
    if is_opening_group outcomes group policy
    then record {
      ops = post_group batch.group_key batch.channel (new_posts outcomes) ∷ [];
      notices =
          batch_notices outcomes batch ++ storm_collapsed batch.group_key (new_posts outcomes) ∷ [];
      resolved_members = 0;
    }
    else record { ops = []; notices = batch_notices outcomes batch; resolved_members = 0 }

unfoldable pub plan : List ClaimOutcome → AlertBatch → Option GroupState → Policy → ℕ → Plan
plan outcomes batch group policy now =
    let placement = placement_of outcomes batch group policy in
    let p = decide_all batch policy placement now outcomes (opening outcomes batch group policy) in
    record {
      ops =
          p.ops
          ++ refresh_parent (existing_parent group policy) batch
              (is_collapsing outcomes group policy) p.resolved_members;
      notices = p.notices;
    }
