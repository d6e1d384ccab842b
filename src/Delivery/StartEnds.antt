-- ===== src/Delivery/StartEnds.antt =====
-- About delivery/controller.py: the first share of a rollout, and what its ends leave.
use mathlib.Core.Path.{subst}
use agentic_ai_model_adaptat.Prelude.{
  ℕ, ◌<◌, ◌≡◌, refl, ◌∙◌, ap, inl, inr, some, List, [], ◌∷◌, Bool-cases,
}
use agentic_ai_model_adaptat.Registry.Port.{Try, gives, throws}
use agentic_ai_model_adaptat.Registry.Rules.{and_then_rule}
use agentic_ai_model_adaptat.Delivery.Rollouts.{
  RolloutState, shadow, canary, ab, awaiting_approval, rolled_back, Serving, RolloutRun,
  is_promotion_failure, rollback_row, calls, commit_row, recorded, undo_traffic,
  end_without_promotion, clear_split, after_promotion, promote,
}
use agentic_ai_model_adaptat.Delivery.Controller.{item}
use agentic_ai_model_adaptat.Delivery.InOrder.{
  OrderOf, IsInOrder, undo_traffic-SameRow, promoted-IsInOrder, unpromoted-IsInOrder,
}
use agentic_ai_model_adaptat.Delivery.Start.{
  DeliveryStrategy, by_shadow, by_canary, by_ab, by_manual, no_strategy, StartArgs, initial_state,
  first_percent,
}

-- A first share of the traffic is that of the first step.
pub first_percent-OrderOf :
    (d : DeliveryStrategy) (a : StartArgs) (initial : RolloutState) (steps : List ℕ) (percent : ℕ)
    → a.policy.canary_steps ≡ steps
    → initial_state d ≡ some initial
    → first_percent d a.policy.ab_percent steps ≡ gives percent
    → percent < 100
    → OrderOf initial a.policy 0 percent
first_percent-OrderOf d a initial [] percent same is at below = cc
first_percent-OrderOf by_shadow a initial (p ∷ ps) percent same is at below =
    let state : shadow ≡ initial = cc in subst (λ x. OrderOf x a.policy 0 percent) state tt
first_percent-OrderOf by_canary a initial (p ∷ ps) percent same is at below =
    let state : canary ≡ initial = cc in
    let first : p ≡ percent = cc in
    subst (λ x. OrderOf x a.policy 0 percent) state (ap (λ x. item x 0) same ∙ ap some first, below)
first_percent-OrderOf by_ab a initial (p ∷ ps) percent same is at below =
    let state : ab ≡ initial = cc in subst (λ x. OrderOf x a.policy 0 percent) state tt
first_percent-OrderOf by_manual a initial (p ∷ ps) percent same is at below =
    let state : awaiting_approval ≡ initial = cc in
    subst (λ x. OrderOf x a.policy 0 percent) state tt
first_percent-OrderOf no_strategy a initial (p ∷ ps) percent same is at below = cc

module _ {W : Type 0} (S : Serving W) (now : ℕ) where
  abbrev pub AnswersInOrder : Try (Unit {0}) × RolloutRun W → Type 0
  AnswersInOrder r = r.0 ≡ gives tt → IsInOrder r.1.saved

  -- An end that answers has undone the traffic and leaves the row rolled back, with no share; one that
  -- raises did so in the undo and leaves the row as it was.
  abbrev pub EndOf : RolloutRun W → Try (Unit {0}) × RolloutRun W → Type 0
  EndOf s (gives u, t) =
      ((undo_traffic S s).0 ≡ gives tt) × (t.saved.state ≡ rolled_back) × (t.saved.percent ≡ 0)
  EndOf s (throws e, t) = ((undo_traffic S s).0 ≡ throws e) × (t.row ≡ s.row)

  pub end_without_promotion-EndOf :
      (s : RolloutRun W) → EndOf s (end_without_promotion S rolled_back now s)
  unfolding end_without_promotion recorded
  end_without_promotion-EndOf s =
      and_then_rule (EndOf s) (undo_traffic S s) _ (λ u undone. (undone, refl, refl))
        (λ e raised. (raised, (undo_traffic-SameRow S s).1))

  end_without_promotion-AnswersInOrder :
      (s : RolloutRun W) → AnswersInOrder (end_without_promotion S rolled_back now s)
  unfolding end_without_promotion
  end_without_promotion-AnswersInOrder s =
      and_then_rule AnswersInOrder (undo_traffic S s) _
        (λ _ _ _. unpromoted-IsInOrder now (undo_traffic S s).1.row) (λ e _ h. cc)

  after_promotion-AnswersInOrder :
      (r : Try (Unit {0}) × RolloutRun W) → AnswersInOrder (after_promotion S now r)
  after_promotion-AnswersInOrder (gives u, s) =
      and_then_rule AnswersInOrder (clear_split S now s) _
        (λ _ _ _. promoted-IsInOrder now (clear_split S now s).1.row) (λ e _ h. cc)
  after_promotion-AnswersInOrder (throws e, s) = elim (Bool-cases (is_promotion_failure e)) [
    | inl failure ↦
        rw (failure, after_promotion) (end_without_promotion-AnswersInOrder (rollback_row s))
    | inr other ↦ rw (other, after_promotion) (λ h. cc)
  ]

  pub promote-AnswersInOrder : (s : RolloutRun W) → AnswersInOrder (promote S now s)
  unfolding promote
  promote-AnswersInOrder s =
      let r = s.row in
      after_promotion-AnswersInOrder (
        calls (S.promote r.model_id r.candidate_version r.stable_version r.rollout_id)
          (commit_row s))
