-- ===== src/Delivery/Start.antt =====
-- delivery/controller.py `start_rollout`. The table of rollouts holds the committed rows, the newest
-- first; a start that raises before its commit leaves no row.
use agentic_ai_model_adaptat.Prelude.{
  ℕ, ◌+◌, Bool, ◌&&◌, Option, none, some, List, [], ◌∷◌, ltb, leb, ◌==◌, if◌then◌else◌,
}
use agentic_ai_model_adaptat.Registry.Port.{is_deployment, Try, gives, throws}
use agentic_ai_model_adaptat.Delivery.Rollouts.{
  RolloutState, shadow, canary, ab, awaiting_approval, rolled_back, is_active, DeliveryPolicy,
  Rollout, Serving, RolloutRun, wrong_state, index_error, commit_row, recorded, noted, with_row,
  split_traffic, end_without_promotion, promote,
}

-- The last stands for any text that is not in `STRATEGIES`.
pub data DeliveryStrategy : Type 0 where
  by_shadow by_canary by_ab by_manual no_strategy : DeliveryStrategy

pub record StartArgs : Type 0 where
  pub rollout_id : ℕ
  pub model_id : ℕ
  pub strategy : DeliveryStrategy
  pub stable_version : ℕ
  pub candidate_version : ℕ
  pub policy : DeliveryPolicy

abbrev pub is_active_of : (model_id : ℕ) → Rollout → Bool
is_active_of i r = r.model_id == i && is_active r.state

unfoldable pub active_rollout : (model_id : ℕ) → List Rollout → Option Rollout
active_rollout i [] = none
active_rollout i (r ∷ rs) = if is_active_of i r then some r else active_rollout i rs

abbrev pub initial_state : DeliveryStrategy → Option RolloutState
initial_state by_shadow = some shadow
initial_state by_canary = some canary
initial_state by_ab = some ab
initial_state by_manual = some awaiting_approval
initial_state no_strategy = none

-- `policy.canary_steps[0]` is read for every strategy.
abbrev pub first_percent : DeliveryStrategy → (ab_percent : ℕ) → List ℕ → Try ℕ
first_percent d ab_percent [] = throws index_error
first_percent by_canary ab_percent (p ∷ ps) = gives p
first_percent by_ab ab_percent (p ∷ ps) = gives ab_percent
first_percent d ab_percent (p ∷ ps) = gives 0

abbrev pub first_deadline : DeliveryStrategy → (now : ℕ) → DeliveryPolicy → Option ℕ
first_deadline by_shadow now p = some (now + p.shadow_max_s)
first_deadline by_ab now p = some (now + p.ab_duration_s)
first_deadline by_manual now p = some (now + p.approval_ttl_s)
first_deadline d now p = none

abbrev pub new_rollout : StartArgs → RolloutState → (now : ℕ) → Rollout
new_rollout a initial now = record {
  rollout_id = a.rollout_id;
  model_id = a.model_id;
  state = initial;
  stable_version = some a.stable_version;
  candidate_version = a.candidate_version;
  step = 0;
  percent = 0;
  policy = a.policy;
  step_started_at = now;
  deadline_at = none;
  decided_by = none;
  history = [];
  finished_at = none;
}

-- The answer, the table of rollouts and the world.
abbrev pub Begun : Type 0 → Type 0
Begun W = Try (Unit {0}) × List Rollout × W

module _ {W : Type 0} where
  -- The session committed its row.
  abbrev pub with_saved : List Rollout → Try (Unit {0}) × RolloutRun W → Begun W
  with_saved rs (t, s) = (t, s.saved ∷ rs, s.world)

  -- `except DeploymentError as undo`
  abbrev pub or_undo_noted : (now : ℕ) → List Rollout → Try (Unit {0}) × RolloutRun W → Begun W
  or_undo_noted now rs (gives u, s) = with_saved rs (gives u, s)
  or_undo_noted now rs (throws e, s) =
      if is_deployment e
      then with_saved rs (gives tt, commit_row (with_row (noted now e) s))
      else (throws e, rs, s.world)

module _ {W : Type 0} (S : Serving W) (a : StartArgs) (now : ℕ) (rs : List Rollout) where
  -- The rollout holds its first share, or none.
  abbrev pub hold : (percent : ℕ) → RolloutRun W → Begun W
  hold percent s = with_saved rs (
    gives tt,
    commit_row (
        with_row
          (recorded s.row.state now (some percent) none (first_deadline a.strategy now a.policy))
          s),
  )

  abbrev pub after_first_split : (percent : ℕ) → Try (Unit {0}) × RolloutRun W → Begun W
  after_first_split percent (gives u, s) = hold percent s
  after_first_split percent (throws e, s) =
      if is_deployment e
      then or_undo_noted now rs (end_without_promotion S rolled_back now s)
      else (throws e, rs, s.world)

  abbrev pub begin_at : (percent : ℕ) → RolloutRun W → Begun W
  begin_at percent s =
      if leb 100 percent
      then with_saved rs (promote S now (with_row (recorded s.row.state now none none none) s))
      else if ltb 0 percent
      then after_first_split percent (split_traffic S percent s)
      else hold percent s

  abbrev pub begin : RolloutState → Try ℕ → W → Begun W
  begin initial (throws e) w = (throws e, rs, w)
  begin initial (gives percent) w =
      let r = new_rollout a initial now in
      begin_at percent (record { saved = r; row = r; world = w })

  abbrev pub begin_from : Option RolloutState → Option Rollout → W → Begun W
  begin_from none existing w = (throws wrong_state, rs, w)
  begin_from (some initial) (some existing) w = (throws wrong_state, rs, w)
  begin_from (some initial) none w =
      begin initial (first_percent a.strategy a.policy.ab_percent a.policy.canary_steps) w

  unfoldable pub start_rollout : W → Begun W
  start_rollout w = begin_from (initial_state a.strategy) (active_rollout a.model_id rs) w
