-- ===== src/Core/Plan/Collapse.antt =====
-- Storm collapse, addressing and silence: what the ops of `plan` in crates/core/src/plan.rs can be.
use alertthread.Base.{
  ℕ, ◌+◌, ◌≤◌, ◌<◌, String, ◌≡◌, refl, ap, ap₂, ◌∙◌, ◌↔◌, ◌⊎◌, Bool, true, false, ◌&&◌, Option,
  none, some, List, [], ◌∷◌, arith, if◌then◌else◌, is_some, count_where, count_where-append,
}
use alertthread.Core.Ids.{ChannelId}
use alertthread.Core.Policy.{Policy}
use alertthread.Core.Domain.{
  AlertBatch, ClaimOutcome, GroupState, Placement, thread, Op, post_group, post, refresh, resolve,
  post_orphan_resolved, refresh_group,
}
use alertthread.Core.Plan.{
  placement_of, thread_placement, refresh_parent, existing_parent, is_collapsing, is_opening_group,
  is_claimed, new_posts, plan,
}
use alertthread.Core.Plan.Spec.{
  is_child_resolve, ops_for, expected_ops, expected_opening, expected_closing, plan-ops,
}

abbrev pub is_post : Op → Bool
is_post (post _ _ _) = true
is_post _ = false

abbrev pub is_post_group : Op → Bool
is_post_group (post_group _ _ _) = true
is_post_group _ = false

abbrev pub is_thread : Placement → Bool
is_thread Placement.channel = false
is_thread (thread _ _) = true

abbrev pub is_threaded_post : Op → Bool
is_threaded_post (post _ _ placement) = is_thread placement
is_threaded_post _ = false

-- The op has to do with a group: its parent, or a message threaded under it.
abbrev pub is_group_work : Op → Bool
is_group_work (post_group _ _ _) = true
is_group_work (refresh_group _ _ _) = true
is_group_work (post _ _ placement) = is_thread placement
is_group_work _ = false

-- The channel that an op is addressed to.
abbrev pub addressee : Op → ChannelId
addressee (post_group _ c _) = c
addressee (post _ c _) = c
addressee (refresh _ c _) = c
addressee (resolve _ c _ _ _) = c
addressee (post_orphan_resolved _ c) = c
addressee (refresh_group _ c _) = c

-- The collapse decision of a batch, in the words of the design record: collapse is on, there is
-- something new to post, and the group has a parent already or the batch is above the threshold.
pub record Collapses (outcomes : List ClaimOutcome) (group : Option GroupState) (policy : Policy)
    : Type 0 where
  pub on : 0 < policy.collapse_threshold
  pub some_new : 0 < new_posts outcomes
  pub large : (is_some group ≡ true) ⊎ (policy.collapse_threshold < new_posts outcomes)

pub is_collapsing_iff :
    (outcomes : List ClaimOutcome) (group : Option GroupState) (policy : Policy)
    → (is_collapsing outcomes group policy ≡ true) ↔ Collapses outcomes group policy
unfolding is_collapsing existing_parent
is_collapsing_iff outcomes group policy = ground arith

-- A group is opened where the batch collapses and nobody has posted or queued its parent.
is_opening_group_iff :
    (outcomes : List ClaimOutcome) (group : Option GroupState) (policy : Policy)
    → (is_opening_group outcomes group policy ≡ true) ↔ (
        (0 < policy.collapse_threshold)
        × (group ≡ none)
        × (policy.collapse_threshold < new_posts outcomes))
unfolding is_opening_group is_collapsing existing_parent
is_opening_group_iff outcomes none policy = ground arith
is_opening_group_iff outcomes (some state) policy = ground arith

count-refresh_parent :
    (p : Op → Bool) (parent : Option GroupState) (batch : AlertBatch) (collapsing : Bool) (n : ℕ)
    → ((k : String) (ts : String) → p (refresh_group k batch.channel ts) ≡ false)
    → count_where p (refresh_parent parent batch collapsing n) ≡ 0
unfolding refresh_parent
count-refresh_parent p none batch collapsing n h = refl
count-refresh_parent p (some state) batch collapsing n h = grind (arith, h)

count_where-none {ℓ} : {A : Type ℓ} (xs : List A) → count_where (λ (_ : A). false) xs ≡ 0
count_where-none [] = refl
count_where-none (x ∷ xs) = omega (arith, count_where-none xs)

count_where-and {ℓ} :
    {A : Type ℓ} (p : A → Bool) (b : Bool) (xs : List A)
    → count_where (λ x. p x && b) xs ≡ (if b then count_where p xs else 0)
count_where-and p b [] = ground arith
count_where-and p b (x ∷ xs) = ground (arith, count_where-and p b xs)

module _ (batch : AlertBatch) (policy : Policy) (placement : Placement) (now : ℕ) where
  count-expected_ops :
      (p : Op → Bool) (q : ClaimOutcome → Bool)
      → ((o : ClaimOutcome)
          → count_where p (ops_for batch policy placement now o) ≡ (if q o then 1 else 0))
      → (outcomes : List ClaimOutcome)
      → count_where p (expected_ops batch policy placement now outcomes) ≡ count_where q outcomes
  count-expected_ops p q each [] = refl
  count-expected_ops p q each (o ∷ rest) =
      count_where-append p (ops_for batch policy placement now o) _
      ∙ ap₂ ◌+◌ (each o) (count-expected_ops p q each rest)

  posts-expected_ops :
      (outcomes : List ClaimOutcome)
      → count_where is_post (expected_ops batch policy placement now outcomes) ≡ new_posts outcomes
  unfolding new_posts
  posts-expected_ops = count-expected_ops is_post (λ o. is_claimed o.result) (λ o. ground arith)

  threaded-expected_ops :
      (outcomes : List ClaimOutcome)
      → count_where is_threaded_post (expected_ops batch policy placement now outcomes)
        ≡ (if is_thread placement then new_posts outcomes else 0)
  unfolding new_posts
  threaded-expected_ops outcomes =
      count-expected_ops is_threaded_post (λ o. is_claimed o.result && is_thread placement)
        (λ o. ground arith) outcomes
      ∙ count_where-and (λ o. is_claimed o.result) (is_thread placement) outcomes

module _ (outcomes : List ClaimOutcome) (batch : AlertBatch) (group : Option GroupState)
    (policy : Policy) (now : ℕ) where
  abbrev ops_of_plan : List Op
  ops_of_plan = (plan outcomes batch group policy now).ops

  -- Counting ops of a plan, part by part.
  count-plan :
      (p : Op → Bool)
      → count_where p ops_of_plan
        ≡ count_where p (expected_opening outcomes batch group policy now)
          + (count_where p
                (expected_ops batch policy (placement_of outcomes batch group policy) now outcomes)
              + count_where p (expected_closing outcomes batch group policy now))
  count-plan p =
      ap (count_where p) (plan-ops outcomes batch group policy now)
      ∙ count_where-append p (expected_opening outcomes batch group policy now) _
      ∙ ap (λ n. count_where p (expected_opening outcomes batch group policy now) + n)
          (count_where-append p
            (expected_ops batch policy (placement_of outcomes batch group policy) now outcomes) _)

  closing_zero :
      (p : Op → Bool)
      → ((k : String) (ts : String) → p (refresh_group k batch.channel ts) ≡ false)
      → count_where p (expected_closing outcomes batch group policy now) ≡ 0
  closing_zero p h =
      count-refresh_parent p (existing_parent group policy) batch
        (is_collapsing outcomes group policy) (count_where is_child_resolve outcomes) h

  opening_count :
      (p : Op → Bool)
      → p (post_group batch.group_key batch.channel (new_posts outcomes)) ≡ false
      → count_where p (expected_opening outcomes batch group policy now) ≡ 0
  opening_count p h = ground arith

  -- A plan posts exactly once for each newly claimed alert.
  pub plan-new_posts : count_where is_post ops_of_plan ≡ new_posts outcomes
  plan-new_posts = omega (
    arith,
    count-plan is_post,
    posts-expected_ops batch policy (placement_of outcomes batch group policy) now outcomes,
    closing_zero is_post (λ k ts. refl),
    opening_count is_post refl,
  )

  -- The alerts that a plan posts are threaded all together or not at all: all of them exactly if the
  -- batch collapses, that is, if collapse is on, there is a newly claimed alert, and the group has a
  -- row or the newly claimed alerts are more than the threshold.
  pub plan-threaded :
      (Collapses outcomes group policy
        → count_where is_threaded_post ops_of_plan ≡ new_posts outcomes)
      × (¬ Collapses outcomes group policy → count_where is_threaded_post ops_of_plan ≡ 0)
  unfolding placement_of thread_placement
  plan-threaded = ground (
    arith,
    count-plan is_threaded_post,
    threaded-expected_ops batch policy (placement_of outcomes batch group policy) now outcomes,
    closing_zero is_threaded_post (λ k ts. refl),
    opening_count is_threaded_post refl,
    is_collapsing_iff outcomes group policy,
  )

  -- A plan opens a group at most once, and does so exactly if collapse is on, the group has no row and
  -- the newly claimed alerts are more than the threshold.
  pub plan-post_group :
      (count_where is_post_group ops_of_plan ≤ 1)
      × ((count_where is_post_group ops_of_plan ≡ 1) ↔ (
          (0 < policy.collapse_threshold)
          × (group ≡ none)
          × (policy.collapse_threshold < new_posts outcomes)))
  plan-post_group = ground (
    arith,
    count-plan is_post_group,
    count-expected_ops batch policy (placement_of outcomes batch group policy) now is_post_group
        (λ o. false) (λ o. ground arith) outcomes,
    count_where-none outcomes,
    closing_zero is_post_group (λ k ts. refl),
    is_opening_group_iff outcomes group policy,
  )

  -- With a threshold of zero a plan has no work for any group: it opens none, threads no message and
  -- updates no parent, whatever row the group has.
  pub plan-collapse_off : policy.collapse_threshold ≡ 0 → count_where is_group_work ops_of_plan ≡ 0
  unfolding placement_of is_collapsing existing_parent is_opening_group refresh_parent
  plan-collapse_off off = ground (
    arith,
    count-plan is_group_work,
    count-expected_ops batch policy Placement.channel now is_group_work (λ o. false)
        (λ o. ground arith) outcomes,
    count_where-none outcomes,
  )
