-- ===== src/Core/Plan/Spec.antt =====
-- What `plan` of crates/core/src/plan.rs decides, as a table with a row for each outcome of a claim,
-- and the proof that the loop computes it.
use alertthread.Base.{
  ℕ, ◌+◌, ◌≡◌, sym, ap, ◌∙◌, Bool, false, Option, none, some, List, [], ◌∷◌, ◌++◌, arith,
  if◌then◌else◌, is_some, count_where,
}
use mathlib.Core.List.{append_assoc, append-nil}
use native.Mathlib.Nat.{zero-add}
use alertthread.Base.Int.{leb_ℤ, signed_duration_since}
use alertthread.Core.Webhook.{AlertStatus}
use alertthread.Core.Policy.{Policy}
use alertthread.Core.Domain.{
  AlertBatch, claimed, already_posted, resolving, orphan, ClaimOutcome, GroupState, Placement,
  message, awaiting_post, Op, post_group, post, refresh, resolve, post_orphan_resolved, Notice,
  unknown_status, orphan_resolve, storm_collapsed,
}
use alertthread.Core.Plan.{
  Progress, batch_notices, note_status, decide, decide_all, opening, placement_of, refresh_parent,
  existing_parent, is_collapsing, is_opening_group, new_posts, plan,
}

-- A repeat of a posted alert is due for a refresh.
abbrev pub is_due : Policy → ℕ → ℕ → Bool
is_due policy now last_seen = leb_ℤ policy.refresh_debounce (signed_duration_since now last_seen)

-- One resolution of an alert that was threaded under a group's parent.
abbrev pub is_child_resolve : ClaimOutcome → Bool
is_child_resolve o = elim o.result [ resolving ts parent ↦ is_some parent | _ ↦ false ]

module _ (batch : AlertBatch) (policy : Policy) (placement : Placement) (now : ℕ) where
  -- The table: the work that one outcome asks for.
  abbrev pub ops_for : ClaimOutcome → List Op
  ops_for o = elim o.result [
    | claimed ↦ post o.alert.fingerprint batch.channel placement ∷ []
    | already_posted last_seen ts ↦
        if is_due policy now last_seen
        then refresh o.alert.fingerprint batch.channel ts ∷ []
        else []
    | resolving ts parent ↦
        resolve o.alert.fingerprint batch.channel
          (elim ts [ none ↦ awaiting_post | some t ↦ message t parent ])
          policy.resolve_update_in_place policy.resolve_thread_reply
        ∷ []
    | orphan ↦ post_orphan_resolved o.alert.fingerprint batch.channel ∷ []
    | _ ↦ []
  ]

  abbrev pub expected_ops : List ClaimOutcome → List Op
  expected_ops [] = []
  expected_ops (o ∷ rest) = ops_for o ++ expected_ops rest

  -- What the outcome is reported as: a status that is not known, and a resolve with no alert.
  abbrev pub status_notices : ClaimOutcome → List Notice
  status_notices o = elim o.alert.status [
    | AlertStatus.unknown raw ↦ unknown_status o.alert.fingerprint raw ∷ []
    | _ ↦ []
  ]

  abbrev pub result_notices : ClaimOutcome → List Notice
  result_notices o = elim o.result [ orphan ↦ orphan_resolve o.alert.fingerprint ∷ [] | _ ↦ [] ]

  abbrev pub notices_for : ClaimOutcome → List Notice
  notices_for o = status_notices o ++ result_notices o

  abbrev pub expected_notices : List ClaimOutcome → List Notice
  expected_notices [] = []
  expected_notices (o ∷ rest) = notices_for o ++ expected_notices rest

  step : ClaimOutcome → Progress → Progress
  step o p = decide batch policy placement now o.alert.fingerprint o.result (note_status o p)

  decide_all-ops :
      (outcomes : List ClaimOutcome) (p : Progress)
      → (decide_all batch policy placement now outcomes p).ops ≡ p.ops ++ expected_ops outcomes
  unfolding decide_all step
  decide_all-ops [] p = sym (append-nil p.ops)
  decide_all-ops (o ∷ rest) p =
      ground
        (arith, decide_all-ops rest (step o p), append_assoc p.ops (ops_for o) (expected_ops rest))

  note_status-notices :
      (o : ClaimOutcome) (p : Progress) → (note_status o p).notices ≡ p.notices ++ status_notices o
  unfolding note_status
  note_status-notices o p = ground (arith, append-nil p.notices)

  decide-notices :
      (o : ClaimOutcome) (p : Progress)
      → (decide batch policy placement now o.alert.fingerprint o.result p).notices
        ≡ p.notices ++ result_notices o
  unfolding decide
  decide-notices o p = ground (arith, append-nil p.notices)

  step-notices : (o : ClaimOutcome) (p : Progress) → (step o p).notices ≡ p.notices ++ notices_for o
  unfolding step
  step-notices o p =
      decide-notices o (note_status o p)
      ∙ ap (λ ns. ns ++ result_notices o) (note_status-notices o p)
      ∙ append_assoc p.notices (status_notices o) (result_notices o)

  decide_all-notices :
      (outcomes : List ClaimOutcome) (p : Progress)
      → (decide_all batch policy placement now outcomes p).notices
        ≡ p.notices ++ expected_notices outcomes
  unfolding decide_all step
  decide_all-notices [] p = sym (append-nil p.notices)
  decide_all-notices (o ∷ rest) p =
      decide_all-notices rest (step o p)
      ∙ ap (λ ns. ns ++ expected_notices rest) (step-notices o p)
      ∙ append_assoc p.notices (notices_for o) (expected_notices rest)

  decide_all-members :
      (outcomes : List ClaimOutcome) (p : Progress)
      → (decide_all batch policy placement now outcomes p).resolved_members
        ≡ p.resolved_members + count_where is_child_resolve outcomes
  unfolding decide_all step
  decide_all-members [] p = omega arith
  decide_all-members (o ∷ rest) p = ground (arith, decide_all-members rest (step o p))

module _ (outcomes : List ClaimOutcome) (batch : AlertBatch) (group : Option GroupState)
    (policy : Policy) (now : ℕ) where
  -- The parent's message comes first, and only if this batch opens the group.
  abbrev pub expected_opening : List Op
  expected_opening =
      if is_opening_group outcomes group policy
      then post_group batch.group_key batch.channel (new_posts outcomes) ∷ []
      else []

  abbrev pub expected_closing : List Op
  expected_closing =
      refresh_parent (existing_parent group policy) batch (is_collapsing outcomes group policy)
        (count_where is_child_resolve outcomes)

  abbrev pub expected_storm : List Notice
  expected_storm =
      if is_opening_group outcomes group policy
      then storm_collapsed batch.group_key (new_posts outcomes) ∷ []
      else []

  opening-ops : (opening outcomes batch group policy).ops ≡ expected_opening
  unfolding opening
  opening-ops = ground arith

  opening-notices :
      (opening outcomes batch group policy).notices ≡ batch_notices outcomes batch ++ expected_storm
  unfolding opening
  opening-notices = ground (arith, append-nil (batch_notices outcomes batch))

  opening-members : (opening outcomes batch group policy).resolved_members ≡ 0
  unfolding opening
  opening-members = ground arith

  -- The ops of a plan are the post of the group's parent if the batch opens a group, then the ops of
  -- the table for each outcome in order, then the update of the parent's count if it is due.
  pub plan-ops :
      (plan outcomes batch group policy now).ops
      ≡ expected_opening
        ++ (expected_ops batch policy (placement_of outcomes batch group policy) now outcomes
            ++ expected_closing)
  unfolding plan
  plan-ops =
      let start = opening outcomes batch group policy in
      let where_to = placement_of outcomes batch group policy in
      rw
        (
          decide_all-ops batch policy where_to now outcomes start,
          decide_all-members batch policy where_to now outcomes start,
          opening-ops,
          opening-members,
          zero-add,
        )
        (append_assoc expected_opening (expected_ops batch policy where_to now outcomes)
          expected_closing)

  -- The notices of a plan are those about the delivery as a whole, the report of a storm if the batch
  -- opens a group, then those of the table for each outcome in order.
  pub plan-notices :
      (plan outcomes batch group policy now).notices
      ≡ batch_notices outcomes batch
        ++ (expected_storm
            ++ expected_notices batch policy
                (placement_of outcomes batch group policy)
                now
                outcomes)
  unfolding plan
  plan-notices =
      let where_to = placement_of outcomes batch group policy in
      rw
        (
          decide_all-notices batch policy where_to now outcomes
              (opening outcomes batch group policy),
          opening-notices,
        )
        (append_assoc (batch_notices outcomes batch) expected_storm
          (expected_notices batch policy where_to now outcomes))
