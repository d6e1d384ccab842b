-- ===== src/Delivery/Advances.antt =====
-- About `_advance` of delivery/controller.py: what each of its decisions keeps of a rollout's row.
use agentic_ai_model_adaptat.Prelude.{
  ℕ, suc, ◌+◌, ◌≡◌, refl, inl, inr, Bool, true, false, not, ◌||◌, Option, none, some, Bool-cases,
  if◌then◌else◌, leb, ltb, arith,
}
use agentic_ai_model_adaptat.Registry.Port.{Try, gives, throws}
use agentic_ai_model_adaptat.Registry.Rules.{and_then_rule}
use agentic_ai_model_adaptat.Delivery.Health.{Health, ArmStats, evaluate_health, ab_test}
use agentic_ai_model_adaptat.Delivery.Rollouts.{
  RolloutState, shadow, canary, ab, awaiting_approval, promoted, rolled_back, expired, rejected,
  ShadowThen, then_promote, then_canary, then_manual, Inconclusive, or_rollback, or_promote,
  or_manual, Rollout, Serving, RolloutRun, calls, recorded, end_without_promotion, promote,
  enter_canary,
}
use agentic_ai_model_adaptat.Delivery.Controller.{
  Ticked, went_for, is_late, is_early, is_healthy, is_breach, item, answering, ends, awaits,
  after_shadow, advance_shadow, next_step, advance_canary, conclude, outcome_of, advance_ab,
  advance_state, advance_observed, is_awaiting, advance,
}
use agentic_ai_model_adaptat.Delivery.InOrder.{
  IsInOrder, RunsInOrder, end_without_promotion-RunsInOrder, promote-RunsInOrder,
  canary-RunsInOrder, enter_canary-RunsInOrder, unpromoted-IsInOrder,
}

pub expired-IsInOrder :
    (now : ℕ) (r : Rollout) → IsInOrder (recorded expired now (some 0) none none r)
unfolding recorded
expired-IsInOrder now r = refl

pub rejected-IsInOrder :
    (now : ℕ) (r : Rollout) → IsInOrder (recorded rejected now (some 0) none none r)
unfolding recorded
rejected-IsInOrder now r = refl

awaiting-IsInOrder :
    (now : ℕ) (deadline : Option ℕ) (r : Rollout)
    → IsInOrder (recorded awaiting_approval now none none deadline r)
unfolding recorded
awaiting-IsInOrder now deadline r = tt

module _ {W : Type 0} (S : Serving W) where
  answering-RunsInOrder :
      (t : Ticked) (r : Try (Unit {0}) × RolloutRun W)
      → RunsInOrder r.1
      → RunsInOrder (answering S t r).1
  answering-RunsInOrder t (gives u, s) is = is
  answering-RunsInOrder t (throws e, s) is = is

  ends-RunsInOrder :
      (to : RolloutState) (now : ℕ) (s : RolloutRun W)
      → ((r : Rollout) → IsInOrder (recorded to now (some 0) none none r))
      → RunsInOrder s
      → RunsInOrder (ends S to now s).1
  ends-RunsInOrder to now s all is =
      answering-RunsInOrder (went_for to) (end_without_promotion S to now s)
        (end_without_promotion-RunsInOrder S to now s all is)

  promotes-RunsInOrder :
      (now : ℕ) (s : RolloutRun W)
      → RunsInOrder s
      → RunsInOrder (answering S (went_for promoted) (promote S now s)).1
  promotes-RunsInOrder now s is =
      answering-RunsInOrder (went_for promoted) (promote S now s)
        (promote-RunsInOrder S now s (is.1))

  awaits-RunsInOrder : (now : ℕ) (s : RolloutRun W) → RunsInOrder (awaits S now s).1
  awaits-RunsInOrder now s =
      let is = awaiting-IsInOrder now (some (now + s.row.policy.approval_ttl_s)) s.row in (is, is)

  or_expires-RunsInOrder :
      (late : Bool) (now : ℕ) (s : RolloutRun W)
      → RunsInOrder s
      → RunsInOrder (if late then ends S expired now s else (gives Ticked.waiting, s)).1
  or_expires-RunsInOrder true now s is = ends-RunsInOrder expired now s (expired-IsInOrder now) is
  or_expires-RunsInOrder false now s is = is

  after_shadow-RunsInOrder :
      (next : ShadowThen) (now : ℕ) (s : RolloutRun W)
      → RunsInOrder s
      → RunsInOrder (after_shadow S next now s).1
  after_shadow-RunsInOrder then_promote now s is = promotes-RunsInOrder now s is
  after_shadow-RunsInOrder then_canary now s is =
      answering-RunsInOrder (went_for canary) (enter_canary S now s)
        (enter_canary-RunsInOrder S now s is)
  after_shadow-RunsInOrder then_manual now s is = awaits-RunsInOrder now s

  next_step-RunsInOrder :
      (step : Option ℕ) (now : ℕ) (s : RolloutRun W)
      → item s.row.policy.canary_steps (suc s.row.step) ≡ step
      → RunsInOrder s
      → RunsInOrder (next_step S step now s).1
  next_step-RunsInOrder none now s at is = is
  next_step-RunsInOrder (some p) now s at is = elim (Bool-cases (leb 100 p)) [
    | inl whole ↦ rw whole (promotes-RunsInOrder now s is)
    | inr part ↦ rw part (
        answering-RunsInOrder (went_for canary) _
          (canary-RunsInOrder S now (suc s.row.step) p s at (ground arith) is))
  ]

  conclude-RunsInOrder :
      (i : Inconclusive) (now : ℕ) (s : RolloutRun W)
      → RunsInOrder s
      → RunsInOrder (conclude S i now s).1
  conclude-RunsInOrder or_promote now s is = promotes-RunsInOrder now s is
  conclude-RunsInOrder or_manual now s is = awaits-RunsInOrder now s
  conclude-RunsInOrder or_rollback now s is =
      ends-RunsInOrder rolled_back now s (unpromoted-IsInOrder now) is

  advance_shadow-RunsInOrder :
      (verdict : Health) (now : ℕ) (s : RolloutRun W)
      → RunsInOrder s
      → RunsInOrder (advance_shadow S verdict now s).1
  advance_shadow-RunsInOrder verdict now s is = elim (Bool-cases (is_healthy verdict)) [
    | inl good ↦ rw good (after_shadow-RunsInOrder s.row.policy.shadow_then now s is)
    | inr bad ↦ rw bad (or_expires-RunsInOrder (is_late s.row.deadline_at now) now s is)
  ]

  advance_canary-RunsInOrder :
      (verdict : Health) (now : ℕ) (s : RolloutRun W)
      → RunsInOrder s
      → RunsInOrder (advance_canary S verdict now s).1
  advance_canary-RunsInOrder verdict now s is =
      elim (Bool-cases (
        not (is_healthy verdict)
        || ltb now (s.row.step_started_at + s.row.policy.canary_step_hold_s))) [
          | inl holds ↦ rw holds is
          | inr due ↦ rw due (
              next_step-RunsInOrder (item s.row.policy.canary_steps (suc s.row.step)) now s refl is)
        ]

  advance_ab-RunsInOrder :
      (stable candidate : ArmStats) (now : ℕ) (s : RolloutRun W)
      → RunsInOrder s
      → RunsInOrder (advance_ab S stable candidate now s).1
  advance_ab-RunsInOrder stable candidate now s is =
      elim (Bool-cases (is_early s.row.deadline_at now)) [
        | inl early ↦ rw early is
        | inr due ↦ rw due (
            conclude-RunsInOrder
              (outcome_of S
                (ab_test s.row.policy.ab_policy (S.p_value stable candidate) stable candidate)
                s.row.policy.ab_inconclusive)
              now s is)
      ]

  advance_state-RunsInOrder :
      (st : RolloutState) (verdict : Health) (stable candidate : ArmStats) (now : ℕ)
      (s : RolloutRun W)
      → RunsInOrder s
      → RunsInOrder (advance_state S st verdict stable candidate now s).1
  advance_state-RunsInOrder shadow verdict stable candidate now s is =
      advance_shadow-RunsInOrder verdict now s is
  advance_state-RunsInOrder canary verdict stable candidate now s is =
      advance_canary-RunsInOrder verdict now s is
  advance_state-RunsInOrder ab verdict stable candidate now s is =
      advance_ab-RunsInOrder stable candidate now s is
  advance_state-RunsInOrder awaiting_approval verdict stable candidate now s is =
      advance_ab-RunsInOrder stable candidate now s is
  advance_state-RunsInOrder promoted verdict stable candidate now s is =
      advance_ab-RunsInOrder stable candidate now s is
  advance_state-RunsInOrder rolled_back verdict stable candidate now s is =
      advance_ab-RunsInOrder stable candidate now s is
  advance_state-RunsInOrder expired verdict stable candidate now s is =
      advance_ab-RunsInOrder stable candidate now s is
  advance_state-RunsInOrder rejected verdict stable candidate now s is =
      advance_ab-RunsInOrder stable candidate now s is

  advance_observed-RunsInOrder :
      (now : ℕ) (arms : ArmStats × ArmStats) (s : RolloutRun W)
      → RunsInOrder s
      → RunsInOrder (advance_observed S now arms s).1
  advance_observed-RunsInOrder now arms s is =
      let p = s.row.policy in
      let verdict = (evaluate_health p.min_samples p.health (arms.0) (arms.1)).status in
      elim (Bool-cases (is_breach verdict)) [
        | inl broken ↦ rw broken (ends-RunsInOrder rolled_back now s (unpromoted-IsInOrder now) is)
        | inr whole ↦
            rw whole (advance_state-RunsInOrder s.row.state verdict (arms.0) (arms.1) now s is)
      ]

  pub advance-RunsInOrder :
      (now : ℕ) (s : RolloutRun W) → RunsInOrder s → RunsInOrder (advance S now s).1
  unfolding advance
  advance-RunsInOrder now s is = elim (Bool-cases (is_awaiting S s.row.state)) [
    | inl awaiting ↦
        rw (awaiting, advance) (or_expires-RunsInOrder (is_late s.row.deadline_at now) now s is)
    | inr other ↦
        rw (other, advance)
          (and_then_rule (λ r. RunsInOrder r.1) (calls (S.stats s.row now) s) _
            (λ arms _. advance_observed-RunsInOrder now arms (calls (S.stats s.row now) s).1 is)
            (λ _ _. is))
  ]
