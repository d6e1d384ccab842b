-- ===== src/Delivery/Controller.antt =====
-- delivery/controller.py: `_advance`, `tick` and the actions of operators on one rollout. Whether the
-- lock of the model is taken is an argument.
use agentic_ai_model_adaptat.Prelude.{
  ℕ, zero, suc, ◌+◌, Bool, true, false, not, ◌||◌, Option, none, some, List, [], ◌∷◌, ltb, leb,
  ◌==◌, if◌then◌else◌,
}
use agentic_ai_model_adaptat.Registry.Port.{
  Exn, other_error, is_deployment, Try, gives, throws, and_then,
}
use agentic_ai_model_adaptat.Delivery.Health.{
  Health, healthy, breach, AbVerdict, better, worse, inconclusive, ArmStats, evaluate_health,
  ab_test,
}
use agentic_ai_model_adaptat.Delivery.Rollouts.{
  RolloutState, shadow, canary, awaiting_approval, promoted, rolled_back, expired, rejected,
  is_active, ShadowThen, then_promote, then_canary, then_manual, Inconclusive, or_rollback,
  or_promote, or_manual, Rollout, Serving, RolloutRun, wrong_state, index_error, commit_row,
  rollback_row, calls, recorded, noted, with_row, split_traffic, end_without_promotion, promote,
  enter_canary,
}

-- What a tick answers: it waits, or the state that the controller went for.
pub data Ticked : Type 0 where
  waiting ended busy unavailable : Ticked
  went_for : RolloutState → Ticked

-- `deadline is not None and now >= deadline`
abbrev pub is_late : Option ℕ → ℕ → Bool
is_late none now = false
is_late (some t) now = leb t now

-- `deadline is not None and now < deadline`
abbrev pub is_early : Option ℕ → ℕ → Bool
is_early none now = false
is_early (some t) now = ltb now t

abbrev pub is_healthy : Health → Bool
is_healthy healthy = true
is_healthy h = false

abbrev pub is_breach : Health → Bool
is_breach breach = true
is_breach h = false

-- `xs[i]`
abbrev pub item : List ℕ → ℕ → Option ℕ
item [] i = none
item (x ∷ xs) zero = some x
item (x ∷ xs) (suc i) = item xs i

module _ {W : Type 0} (S : Serving W) where
  -- A statement whose answer is then `outcome`.
  abbrev pub answering : Ticked → Try (Unit {0}) × RolloutRun W → Try Ticked × RolloutRun W
  answering outcome r = and_then r λ _ s. (gives outcome, s)

  abbrev pub ends : RolloutState → (now : ℕ) → RolloutRun W → Try Ticked × RolloutRun W
  ends to now s = answering (went_for to) (end_without_promotion S to now s)

  -- The candidate waits for an approval from now on.
  abbrev pub awaits : (now : ℕ) → RolloutRun W → Try Ticked × RolloutRun W
  awaits now s = (
    gives (went_for awaiting_approval),
    commit_row (
        with_row
          (recorded awaiting_approval now none none (some (now + s.row.policy.approval_ttl_s))) s),
  )

  abbrev pub advance_approval : (now : ℕ) → RolloutRun W → Try Ticked × RolloutRun W
  advance_approval now s =
      if is_late s.row.deadline_at now then ends expired now s else (gives waiting, s)

  abbrev pub after_shadow : ShadowThen → (now : ℕ) → RolloutRun W → Try Ticked × RolloutRun W
  after_shadow then_promote now s = answering (went_for promoted) (promote S now s)
  after_shadow then_canary now s = answering (went_for canary) (enter_canary S now s)
  after_shadow then_manual now s = awaits now s

  abbrev pub advance_shadow : Health → (now : ℕ) → RolloutRun W → Try Ticked × RolloutRun W
  advance_shadow verdict now s =
      if is_healthy verdict
      then after_shadow s.row.policy.shadow_then now s
      else if is_late s.row.deadline_at now
      then ends expired now s
      else (gives waiting, s)

  -- The next step of a canary, at `percent`.
  abbrev pub next_step : Option ℕ → (now : ℕ) → RolloutRun W → Try Ticked × RolloutRun W
  next_step none now s = (throws index_error, s)
  next_step (some percent) now s =
      if leb 100 percent
      then answering (went_for promoted) (promote S now s)
      else answering (went_for canary) (
          and_then (split_traffic S percent s) λ _ s1. (
            gives tt,
            commit_row
                (with_row (recorded canary now (some percent) (some (suc s.row.step)) none) s1),
          ))

  abbrev pub advance_canary : Health → (now : ℕ) → RolloutRun W → Try Ticked × RolloutRun W
  advance_canary verdict now s =
      if not (is_healthy verdict)
        || ltb now (s.row.step_started_at + s.row.policy.canary_step_hold_s)
      then (gives waiting, s)
      else next_step (item s.row.policy.canary_steps (suc s.row.step)) now s

  abbrev pub conclude : Inconclusive → (now : ℕ) → RolloutRun W → Try Ticked × RolloutRun W
  conclude or_promote now s = answering (went_for promoted) (promote S now s)
  conclude or_manual now s = awaits now s
  conclude or_rollback now s = ends rolled_back now s

  -- `{"better": "promote", "worse": "rollback"}.get(verdict, ab_inconclusive)`
  abbrev pub outcome_of : AbVerdict → Inconclusive → Inconclusive
  outcome_of better i = or_promote
  outcome_of worse i = or_rollback
  outcome_of inconclusive i = i

  abbrev pub advance_ab :
      (stable candidate : ArmStats) → (now : ℕ) → RolloutRun W → Try Ticked × RolloutRun W
  advance_ab stable candidate now s =
      if is_early s.row.deadline_at now
      then (gives waiting, s)
      else conclude
          (outcome_of (ab_test s.row.policy.ab_policy (S.p_value stable candidate) stable candidate)
            s.row.policy.ab_inconclusive)
          now s

  abbrev pub advance_state :
      RolloutState
      → Health
      → (stable candidate : ArmStats) → (now : ℕ) → RolloutRun W
      → Try Ticked × RolloutRun W
  advance_state shadow verdict stable candidate now s = advance_shadow verdict now s
  advance_state canary verdict stable candidate now s = advance_canary verdict now s
  advance_state st verdict stable candidate now s = advance_ab stable candidate now s

  abbrev pub advance_observed :
      (now : ℕ) → ArmStats × ArmStats → RolloutRun W → Try Ticked × RolloutRun W
  advance_observed now arms s =
      let p = s.row.policy in
      let verdict = (evaluate_health p.min_samples p.health (arms.0) (arms.1)).status in
      if is_breach verdict
      then ends rolled_back now s
      else advance_state s.row.state verdict (arms.0) (arms.1) now s

  abbrev pub is_awaiting : RolloutState → Bool
  is_awaiting awaiting_approval = true
  is_awaiting st = false

  -- `_advance`
  unfoldable pub advance : (now : ℕ) → RolloutRun W → Try Ticked × RolloutRun W
  advance now s =
      if is_awaiting s.row.state
      then advance_approval now s
      else and_then (calls (S.stats s.row now) s) λ arms s1. advance_observed now arms s1

  -- `isinstance(exc, (RolloutMetricsUnavailableError, DeploymentError))`
  abbrev pub is_metrics : Exn → Bool
  is_metrics (other_error n) = n == 1
  is_metrics e = false

  abbrev pub or_unavailable : (now : ℕ) → Try Ticked × RolloutRun W → Try Ticked × RolloutRun W
  or_unavailable now (gives t, s) = (gives t, s)
  or_unavailable now (throws e, s) =
      if is_metrics e || is_deployment e
      then (gives unavailable, commit_row (with_row (noted now e) (rollback_row s)))
      else (throws e, s)

  -- `finally: session.rollback()`
  abbrev pub finally_rolled_back : {T : Type 0} → Try T × RolloutRun W → Try T × RolloutRun W
  finally_rolled_back r = (r.0, rollback_row r.1)

  unfoldable pub tick : (locked : Bool) → (now : ℕ) → RolloutRun W → Try Ticked × RolloutRun W
  tick locked now s0 =
      let s = rollback_row s0 in
      if not (is_active s.row.state)
      then (gives ended, s)
      else if not locked
      then (gives busy, s)
      else finally_rolled_back (or_unavailable now (advance now s))

  -- `_locked_action`, and the action under the lock.
  abbrev pub locked_action :
      (locked : Bool)
      → (RolloutRun W → Try (Unit {0}) × RolloutRun W)
      → RolloutRun W
      → Try (Unit {0}) × RolloutRun W
  locked_action locked action s0 =
      let s = rollback_row s0 in
      if not (is_active s.row.state) || not locked
      then (throws wrong_state, s)
      else finally_rolled_back (action s)

  abbrev pub decided : (actor : ℕ) → Rollout → Rollout
  decided actor r = record r { decided_by = some actor }

  -- An approval that came too late.
  abbrev pub expires : (now : ℕ) → RolloutRun W → Try (Unit {0}) × RolloutRun W
  expires now s = and_then (end_without_promotion S expired now s) λ _ s1. (throws wrong_state, s1)

  -- `approval_then`
  abbrev pub approve_as :
      (by_canary : Bool) → (actor now : ℕ) → RolloutRun W → Try (Unit {0}) × RolloutRun W
  approve_as true actor now s = enter_canary S now (with_row (decided actor) s)
  approve_as false actor now s = promote S now (with_row (decided actor) s)

  abbrev pub approve_waiting : (actor now : ℕ) → RolloutRun W → Try (Unit {0}) × RolloutRun W
  approve_waiting actor now s =
      if not (is_awaiting s.row.state)
      then (throws wrong_state, s)
      else if is_late s.row.deadline_at now
      then expires now s
      else approve_as s.row.policy.approval_canary actor now s

  unfoldable pub approve :
      (actor : ℕ) → (locked : Bool) → (now : ℕ) → RolloutRun W → Try (Unit {0}) × RolloutRun W
  approve actor locked now s = locked_action locked (approve_waiting actor now) s

  unfoldable pub reject :
      (actor : ℕ) → (locked : Bool) → (now : ℕ) → RolloutRun W → Try (Unit {0}) × RolloutRun W
  reject actor locked now s =
      locked_action locked (λ t. end_without_promotion S rejected now (with_row (decided actor) t))
        s
