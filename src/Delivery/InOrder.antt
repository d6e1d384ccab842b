-- ===== src/Delivery/InOrder.antt =====
-- About delivery/controller.py: what every operation keeps of a rollout's row.
use mathlib.Core.Path.{subst}
use agentic_ai_model_adaptat.Prelude.{
  ℕ, ◌<◌, ◌≡◌, refl, sym, ap, inl, inr, not, ◌&&◌, ◌||◌, none, some, List, [], ◌∷◌, Bool-cases, leb,
  ltb, is_some, arith,
}
use agentic_ai_model_adaptat.Registry.Port.{is_deployment, Try, gives, throws, and_then}
use agentic_ai_model_adaptat.Registry.Rules.{and_then_rule}
use agentic_ai_model_adaptat.Delivery.Rollouts.{
  RolloutState, canary, promoted, rolled_back, expired, rejected, DeliveryPolicy, Rollout, Serving,
  RolloutRun, is_promotion_failure, commit_row, rollback_row, calls, recorded, with_row,
  split_traffic, undo_traffic, end_without_promotion, or_noted, clear_split, after_promotion,
  promote, first_step, enter_canary,
}
use agentic_ai_model_adaptat.Delivery.Controller.{item}

-- A canary stands at the percentage of its step, below 100; a rollout that ended without a promotion
-- has no share of the traffic, and a promoted one has all of it.
abbrev pub OrderOf : RolloutState → DeliveryPolicy → (step percent : ℕ) → Type 0
OrderOf canary p step percent = (item p.canary_steps step ≡ some percent) × (percent < 100)
OrderOf promoted p step percent = percent ≡ 100
OrderOf rolled_back p step percent = percent ≡ 0
OrderOf expired p step percent = percent ≡ 0
OrderOf rejected p step percent = percent ≡ 0
OrderOf st p step percent = Unit

abbrev pub IsInOrder : Rollout → Type 0
IsInOrder r = OrderOf r.state r.policy r.step r.percent

module _ {W : Type 0} where
  -- Both the committed row and that of the session.
  abbrev pub RunsInOrder : RolloutRun W → Type 0
  RunsInOrder s = IsInOrder s.saved × IsInOrder s.row

  -- The rows of two runs are the same.
  abbrev pub SameRow : RolloutRun W → RolloutRun W → Type 0
  SameRow s t = (t.saved ≡ s.saved) × (t.row ≡ s.row)

  pub SameRow-RunsInOrder : (s t : RolloutRun W) → SameRow s t → RunsInOrder s → RunsInOrder t
  SameRow-RunsInOrder s t same is =
      (subst IsInOrder (sym (same.0)) (is.0), subst IsInOrder (sym (same.1)) (is.1))

pub promoted-IsInOrder :
    (now : ℕ) (r : Rollout) → IsInOrder (recorded promoted now (some 100) none none r)
unfolding recorded
promoted-IsInOrder now r = refl

pub unpromoted-IsInOrder :
    (now : ℕ) (r : Rollout) → IsInOrder (recorded rolled_back now (some 0) none none r)
unfolding recorded
unpromoted-IsInOrder now r = refl

pub canary-IsInOrder :
    (now i percent : ℕ) (r : Rollout)
    → item r.policy.canary_steps i ≡ some percent
    → percent < 100
    → IsInOrder (recorded canary now (some percent) (some i) none r)
unfolding recorded
canary-IsInOrder now i percent r at below = (at, below)

module _ {W : Type 0} (S : Serving W) where
  pub undo_traffic-SameRow : (s : RolloutRun W) → SameRow s (undo_traffic S s).1
  unfolding undo_traffic split_traffic
  undo_traffic-SameRow s =
      elim (Bool-cases (not S.splits_traffic || not (is_some s.row.stable_version))) [
        | inl idle ↦ rw (idle, undo_traffic) (refl, refl)
        | inr splits ↦ elim (Bool-cases (ltb 0 s.row.percent)) [
          | inl shared ↦ rw (splits, shared, undo_traffic) (refl, refl)
          | inr unshared ↦
              rw (splits, unshared, undo_traffic)
                (and_then_rule (λ r. SameRow s r.1) (calls (S.traffic s.row.model_id) s) _
                  (λ candidate _. elim (Bool-cases (is_some candidate)) [
                    | inl left ↦ rw left (refl, refl)
                    | inr clear ↦ rw clear (refl, refl)
                  ])
                  (λ _ _. (refl, refl)))
        ]
      ]

  pub end_without_promotion-RunsInOrder :
      (to : RolloutState) (now : ℕ) (s : RolloutRun W)
      → ((r : Rollout) → IsInOrder (recorded to now (some 0) none none r))
      → RunsInOrder s
      → RunsInOrder (end_without_promotion S to now s).1
  unfolding end_without_promotion
  end_without_promotion-RunsInOrder to now s ends is =
      and_then_rule (λ r. RunsInOrder r.1) (undo_traffic S s) _
        (λ _ _. (ends (undo_traffic S s).1.row, ends (undo_traffic S s).1.row))
        (λ _ _. SameRow-RunsInOrder s (undo_traffic S s).1 (undo_traffic-SameRow s) is)

  or_noted-RunsInOrder :
      (now : ℕ) (r : Try (Unit {0}) × RolloutRun W)
      → RunsInOrder r.1
      → RunsInOrder (or_noted S now r).1
  or_noted-RunsInOrder now (gives u, s) is = is
  or_noted-RunsInOrder now (throws e, s) is = elim (Bool-cases (is_deployment e)) [
    | inl serving ↦ rw (serving, or_noted) is
    | inr other ↦ rw (other, or_noted) is
  ]

  clear_split-RunsInOrder :
      (now : ℕ) (s : RolloutRun W) → RunsInOrder s → RunsInOrder (clear_split S now s).1
  clear_split-RunsInOrder now s is = elim (Bool-cases (S.splits_traffic && ltb 0 s.row.percent)) [
    | inl split ↦ rw split (
        or_noted-RunsInOrder now (calls (S.split s.row.model_id s.row.candidate_version none 0) s)
          is)
    | inr whole ↦ rw whole is
  ]

  after_promotion-RunsInOrder :
      (now : ℕ) (r : Try (Unit {0}) × RolloutRun W)
      → RunsInOrder r.1
      → RunsInOrder (after_promotion S now r).1
  after_promotion-RunsInOrder now (gives u, s) is =
      and_then_rule (λ r. RunsInOrder r.1) (clear_split S now s) _
        (λ _ _. (
          promoted-IsInOrder now (clear_split S now s).1.row,
          promoted-IsInOrder now (clear_split S now s).1.row,
        ))
        (λ _ _. clear_split-RunsInOrder now s is)
  after_promotion-RunsInOrder now (throws e, s) is = elim (Bool-cases (is_promotion_failure e)) [
    | inl failure ↦
        rw (failure, after_promotion)
          (end_without_promotion-RunsInOrder rolled_back now (rollback_row s)
            (unpromoted-IsInOrder now) (is.0, is.0))
    | inr other ↦ rw (other, after_promotion) is
  ]

  pub promote-RunsInOrder :
      (now : ℕ) (s : RolloutRun W) → IsInOrder s.row → RunsInOrder (promote S now s).1
  unfolding promote
  promote-RunsInOrder now s is =
      let r = s.row in
      after_promotion-RunsInOrder now
        (calls (S.promote r.model_id r.candidate_version r.stable_version r.rollout_id)
          (commit_row s))
        (is, is)

  -- A canary that comes to a step.
  pub canary-RunsInOrder :
      (now i percent : ℕ) (s : RolloutRun W)
      → item s.row.policy.canary_steps i ≡ some percent
      → percent < 100
      → RunsInOrder s
      → RunsInOrder
          (and_then (split_traffic S percent s) λ _ s1. (
            gives tt,
            commit_row (with_row (recorded canary now (some percent) (some i) none) s1),
          )).1
  unfolding split_traffic
  canary-RunsInOrder now i percent s at below is =
      and_then_rule (λ r. RunsInOrder r.1) (split_traffic S percent s) _
        (λ _ _. (
          canary-IsInOrder now i percent s.row at below,
          canary-IsInOrder now i percent s.row at below,
        ))
        (λ _ _. is)

  first_step-RunsInOrder :
      (now : ℕ) (steps : List ℕ) (s : RolloutRun W)
      → steps ≡ s.row.policy.canary_steps
      → RunsInOrder s
      → RunsInOrder (first_step S now steps s).1
  first_step-RunsInOrder now [] s same is = is
  first_step-RunsInOrder now (p ∷ ps) s same is = elim (Bool-cases (leb 100 p)) [
    | inl whole ↦ rw whole (promote-RunsInOrder now s (is.1))
    | inr part ↦
        rw part (canary-RunsInOrder now 0 p s (ap (λ x. item x 0) (sym same)) (ground arith) is)
  ]

  pub enter_canary-RunsInOrder :
      (now : ℕ) (s : RolloutRun W) → RunsInOrder s → RunsInOrder (enter_canary S now s).1
  unfolding enter_canary
  enter_canary-RunsInOrder now s is = first_step-RunsInOrder now s.row.policy.canary_steps s refl is
