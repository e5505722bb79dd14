-- ===== src/Core/Plan/Silence.antt =====
-- When `plan` of crates/core/src/plan.rs asks for nothing, and whom its ops are addressed to.
use alertthread.Base.{
  ℕ, ◌≡◌, refl, sym, ap₂, subst, ◌∙◌, ◌↔◌, Bool, true, false, not, Option, List, [], ◌∷◌, ◌++◌,
  arith, count_where, All, All-append,
}
use alertthread.Core.Policy.{Policy}
use alertthread.Core.Domain.{
  AlertBatch, already_claimed, already_posted, already_resolving, ClaimOutcome, GroupState,
  Placement, Op,
}
use alertthread.Core.Plan.{
  placement_of, refresh_parent, is_collapsing, is_opening_group, new_posts, plan,
}
use alertthread.Core.Plan.Spec.{
  is_due, is_child_resolve, ops_for, expected_ops, expected_opening, expected_closing, plan-ops,
}
use alertthread.Core.Plan.Collapse.{addressee}

-- The work that the outcome asks for is already in hand: a duplicate, or a repeat of a posted alert
-- within the debounce window.
abbrev pub is_settled : Policy → ℕ → ClaimOutcome → Bool
is_settled policy now o = elim o.result [
  | already_claimed ↦ true
  | already_resolving ↦ true
  | already_posted last_seen ts ↦ not (is_due policy now last_seen)
  | _ ↦ false
]

append-eq-nil {ℓ} : {A : Type ℓ} (xs ys : List A) → xs ++ ys ≡ [] → (xs ≡ []) × (ys ≡ [])
append-eq-nil [] ys h = (refl, h)
append-eq-nil (x ∷ xs) ys h = (cc, cc)

module _ (batch : AlertBatch) (policy : Policy) (placement : Placement) (now : ℕ) where
  settled_of_nil :
      (outcomes : List ClaimOutcome)
      → expected_ops batch policy placement now outcomes ≡ []
      → All (λ o. is_settled policy now o ≡ true) outcomes
  settled_of_nil [] h = tt
  settled_of_nil (o ∷ rest) h =
      let (here, later) =
        append-eq-nil (ops_for batch policy placement now o)
          (expected_ops batch policy placement now rest) h in
      (ground arith, settled_of_nil rest later)

  settled-expected_ops :
      (outcomes : List ClaimOutcome)
      → All (λ o. is_settled policy now o ≡ true) outcomes
      → (expected_ops batch policy placement now outcomes ≡ [])
        × (new_posts outcomes ≡ 0)
        × (count_where is_child_resolve outcomes ≡ 0)
  unfolding new_posts
  settled-expected_ops [] h = (refl, refl, refl)
  settled-expected_ops (o ∷ rest) h = ground (arith, settled-expected_ops rest h.1)

  All-expected_ops :
      (outcomes : List ClaimOutcome)
      → All (λ op. addressee op ≡ batch.channel) (expected_ops batch policy placement now outcomes)
  All-expected_ops [] = tt
  All-expected_ops (o ∷ rest) =
      All-append (λ op. addressee op ≡ batch.channel) (ops_for batch policy placement now o)
        (expected_ops batch policy placement now rest) (ground arith) (All-expected_ops rest)

module _ (outcomes : List ClaimOutcome) (batch : AlertBatch) (group : Option GroupState)
    (policy : Policy) (now : ℕ) where
  abbrev place : Placement
  place = placement_of outcomes batch group policy

  abbrev expected : List Op
  expected = expected_ops batch policy place now outcomes

  nothing_new :
      All (λ o. is_settled policy now o ≡ true) outcomes
      → (expected_opening outcomes batch group policy now ≡ [])
        × (expected_closing outcomes batch group policy now ≡ [])
  unfolding is_collapsing is_opening_group refresh_parent
  nothing_new s = let facts = settled-expected_ops batch policy place now outcomes s in ground arith

  closing_addressed :
      All (λ op. addressee op ≡ batch.channel) (expected_closing outcomes batch group policy now)
  unfolding refresh_parent
  closing_addressed = ground arith

  -- A plan is empty exactly if every outcome is settled: a duplicate of a claim or of a resolve, or
  -- a repeat of a posted alert within the debounce window. No other alert is passed over in silence.
  pub plan-eq-nil_iff :
      ((plan outcomes batch group policy now).ops ≡ [])
      ↔ All (λ o. is_settled policy now o ≡ true) outcomes
  plan-eq-nil_iff = (
    λ h.
        settled_of_nil batch policy place now outcomes
          (append-eq-nil expected (expected_closing outcomes batch group policy now)
            (append-eq-nil (expected_opening outcomes batch group policy now) _
              (sym (plan-ops outcomes batch group policy now) ∙ h)).1).0,
    λ s.
        plan-ops outcomes batch group policy now
        ∙ ap₂ ◌++◌ (nothing_new s).0
            (ap₂ ◌++◌ (settled-expected_ops batch policy place now outcomes s).0 (nothing_new s).1),
  )

  -- Every op of a plan is addressed to the channel of the batch.
  pub plan-addressed :
      All (λ op. addressee op ≡ batch.channel) (plan outcomes batch group policy now).ops
  plan-addressed =
      subst (All (λ op. addressee op ≡ batch.channel))
        (sym (plan-ops outcomes batch group policy now))
        (All-append _ (expected_opening outcomes batch group policy now) _ (ground arith) (
          All-append _ expected _ (All-expected_ops batch policy place now outcomes)
            closing_addressed))
