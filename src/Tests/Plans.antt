-- ===== src/Tests/Plans.antt =====
-- Runs of the planner, and of the texts of crates/core and crates/store.
use alertthread.Base.{
  ◌+◌, ◌≤◌, ◌<◌, String, ◌≡◌, refl, ◌↔◌, ◌⊎◌, true, Option, none, some, [], ◌∷◌, ◌++◌, count_where,
  All,
}
use alertthread.Base.Int.{ℤ, pos, leb_ℤ}
use alertthread.Core.Webhook.{
  into_string-from_string, AlertStatus, Intent, intent, from_string, into_string,
}
use alertthread.Core.Policy.{Policy, default, validate, validate_iff}
use alertthread.Core.Policy
use alertthread.Core.Webhook
use alertthread.Core.Domain.{Op, GroupState}
use alertthread.Core.Plan.{plan, new_posts, placement_of, batch_notices}
use alertthread.Core.Plan.Spec.{
  expected_ops, expected_opening, expected_closing, expected_storm, expected_notices, plan-ops,
  plan-notices,
}
use alertthread.Core.Plan.Collapse.{
  Collapses, is_post, is_post_group, is_threaded_post, is_group_work, addressee, plan-new_posts,
  plan-threaded, plan-post_group, plan-collapse_off,
}
use alertthread.Core.Plan.Silence.{is_settled, plan-eq-nil_iff, plan-addressed}
use alertthread.Store.Payload.{
  OpKind, StoredOp, store_op, load_op, load_op-store_op, parse_kind_iff,
}
use alertthread.Store.Payload
use alertthread.Store.Model
use alertthread.Store.Model.{AlertState, parse_state_iff}
use alertthread.Store.Row.{membership, membership_total}
use alertthread.Tests.{firing, storm, duplicates, storm_batch, batch_of, eager, off}

plan-ops_example :
    (plan storm storm_batch none eager 0).ops
    ≡ expected_opening storm storm_batch none eager 0
      ++ (expected_ops storm_batch eager (placement_of storm storm_batch none eager) 0 storm
          ++ expected_closing storm storm_batch none eager 0)
plan-ops_example = plan-ops storm storm_batch none eager 0

plan-notices_example :
    (plan storm storm_batch none eager 0).notices
    ≡ batch_notices storm storm_batch
      ++ (expected_storm storm storm_batch none eager 0
          ++ expected_notices storm_batch eager (placement_of storm storm_batch none eager) 0 storm)
plan-notices_example = plan-notices storm storm_batch none eager 0

plan-eq-nil_iff_example :
    ((plan duplicates (batch_of (firing ∷ [])) none default 0).ops ≡ [])
    ↔ All (λ o. is_settled default 0 o ≡ true) duplicates
plan-eq-nil_iff_example = plan-eq-nil_iff duplicates (batch_of (firing ∷ [])) none default 0

plan-addressed_example : All (λ op. addressee op ≡ "C1") (plan storm storm_batch none eager 0).ops
plan-addressed_example = plan-addressed storm storm_batch none eager 0

test_new_posts : count_where is_post (plan storm storm_batch none eager 0).ops ≡ new_posts storm
test_new_posts = plan-new_posts storm storm_batch none eager 0

plan-threaded_example :
    (Collapses storm none eager
      → count_where is_threaded_post (plan storm storm_batch none eager 0).ops ≡ new_posts storm)
    × (¬ Collapses storm none eager
        → count_where is_threaded_post (plan storm storm_batch none eager 0).ops ≡ 0)
plan-threaded_example = plan-threaded storm storm_batch none eager 0

test_collapse_off : count_where is_group_work (plan storm storm_batch none off 0).ops ≡ 0
test_collapse_off = plan-collapse_off storm storm_batch none off 0 refl

abbrev no_group : Option GroupState
no_group = none

plan-post_group_example :
    (count_where is_post_group (plan storm storm_batch none eager 0).ops ≤ 1)
    × ((count_where is_post_group (plan storm storm_batch none eager 0).ops ≡ 1) ↔ (
        (0 < eager.collapse_threshold)
        × (no_group ≡ none)
        × (eager.collapse_threshold < new_posts storm)))
plan-post_group_example = plan-post_group storm storm_batch no_group eager 0

test_validate :
    (validate default ≡ Policy.ok)
    ↔ (((true ≡ true) ⊎ (true ≡ true)) × (leb_ℤ (pos 0) (pos 60_000_000_000) ≡ true))
test_validate = validate_iff default

load_op-store_op_example :
    (load_op (store_op (Op.post_orphan_resolved "fp1" "C1")) ≡ Op.post_orphan_resolved "fp1" "C1")
    × (store_op (load_op (StoredOp.post_orphan_resolved "fp1" "C1"))
        ≡ StoredOp.post_orphan_resolved "fp1" "C1")
load_op-store_op_example =
    load_op-store_op (Op.post_orphan_resolved "fp1" "C1") (StoredOp.post_orphan_resolved "fp1" "C1")

test_parse_kind : (Payload.parse "post" ≡ some OpKind.post) ↔ ("post" ≡ Payload.as_str OpKind.post)
test_parse_kind = parse_kind_iff OpKind.post "post"

test_parse_state :
    (Model.parse "posted" ≡ some AlertState.posted) ↔ ("posted" ≡ Model.as_str AlertState.posted)
test_parse_state = parse_state_iff AlertState.posted "posted"

test_membership :
    ((membership (ℤ.pos 3) (some (ℤ.pos 5))).firing
        + (membership (ℤ.pos 3) (some (ℤ.pos 5))).resolved
      ≡ 3)
    × ((membership (ℤ.pos 3) (some (ℤ.pos 5))).resolved ≤ 3)
test_membership = membership_total 3 (some (ℤ.pos 5))

abbrev silenced : String
silenced = "silenced"

test_status :
    (into_string (from_string "silenced") ≡ "silenced")
    × (Webhook.as_str (from_string "silenced") ≡ "silenced")
    × ((intent (from_string "silenced") ≡ Intent.resolved) ↔ (silenced ≡ "resolved"))
test_status = into_string-from_string "silenced"
