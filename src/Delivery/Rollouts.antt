-- ===== src/Delivery/Rollouts.antt =====
-- delivery/controller.py: a rollout's row, its transitions, and what they ask of the serving system.
-- `saved` is the committed row and `row` the one of the open session; the database does not fail.
-- `Serving` is what the controller acts through: splits with their read-back (`Deployer.split`),
-- `promote_version`, the metrics source and the significance test.
use agentic_ai_model_adaptat.Prelude.{
  ℕ, Bool, true, false, not, ◌&&◌, ◌||◌, Option, none, some, List, [], ◌∷◌, ◌++◌, ltb, leb, is_some,
  if◌then◌else◌,
}
use agentic_ai_model_adaptat.Registry.Port.{
  Exn, conflict, promotion_error, is_deployment, other_error, crash, Try, gives, throws, Call,
  and_then,
}
use agentic_ai_model_adaptat.Delivery.Health.{HealthRule, ArmStats, AbPolicy}

pub data RolloutState : Type 0 where
  shadow canary ab awaiting_approval promoted rolled_back expired rejected : RolloutState

-- `state in ACTIVE_STATES`
abbrev pub is_active : RolloutState → Bool
is_active shadow = true
is_active canary = true
is_active ab = true
is_active awaiting_approval = true
is_active s = false

pub data ShadowThen : Type 0 where
  then_promote then_canary then_manual : ShadowThen

pub data Inconclusive : Type 0 where
  or_rollback or_promote or_manual : Inconclusive

pub record DeliveryPolicy : Type 0 where
  pub min_samples : ℕ
  pub health : List HealthRule
  pub shadow_max_s : ℕ
  pub shadow_then : ShadowThen
  pub canary_steps : List ℕ
  pub canary_step_hold_s : ℕ
  pub ab_percent : ℕ
  pub ab_duration_s : ℕ
  pub ab_policy : AbPolicy
  pub ab_inconclusive : Inconclusive
  pub approval_ttl_s : ℕ
  -- `approval_then`: a canary, or the promotion.
  pub approval_canary : Bool

-- An entry of the history: a transition, or a note.
pub data Entry : Type 0 where
  transitioned : (at : ℕ) → (before to : RolloutState) → (step percent : ℕ) → Entry
  note : (at : ℕ) → Exn → Entry

pub record Rollout : Type 0 where
  pub rollout_id : ℕ
  pub model_id : ℕ
  pub state : RolloutState
  pub stable_version : Option ℕ
  pub candidate_version : ℕ
  pub step : ℕ
  pub percent : ℕ
  pub policy : DeliveryPolicy
  pub step_started_at : ℕ
  pub deadline_at : Option ℕ
  pub decided_by : Option ℕ
  pub history : List Entry
  pub finished_at : Option ℕ

pub record Serving (W : Type 0) : Type 0 where
  pub splits_traffic : Bool
  pub split : (model stable : ℕ) → (candidate : Option ℕ) → (percent : ℕ) → Call W (Unit {0})
  -- The candidate of `Deployer.traffic`.
  pub traffic : (model : ℕ) → Call W (Option ℕ)
  pub promote :
      (model version : ℕ) → (expected_live : Option ℕ) → (rollout_id : ℕ) → Call W (Unit {0})
  -- `_stats`: the stable arm, then the candidate's.
  pub stats : Rollout → (now : ℕ) → Call W (ArmStats × ArmStats)
  pub p_value : ArmStats → ArmStats → Option ℕ

pub record RolloutRun (W : Type 0) : Type 0 where
  pub saved : Rollout
  pub row : Rollout
  pub world : W

-- `RolloutMetricsUnavailableError`, `RolloutStateError`, an IndexError and an AssertionError.
abbrev pub metrics_unavailable : Exn
metrics_unavailable = other_error 1

abbrev pub wrong_state : Exn
wrong_state = other_error 2

abbrev pub index_error : Exn
index_error = crash 1

abbrev pub assertion_error : Exn
assertion_error = crash 2

-- `isinstance(exc, (PromotionError, ConflictError))`
abbrev pub is_promotion_failure : Exn → Bool
is_promotion_failure promotion_error = true
is_promotion_failure conflict = true
is_promotion_failure e = false

module _ {W : Type 0} where
  abbrev pub commit_row : RolloutRun W → RolloutRun W
  commit_row s = record s { saved = s.row }

  abbrev pub rollback_row : RolloutRun W → RolloutRun W
  rollback_row s = record s { row = s.saved }

  abbrev pub calls : {T : Type 0} → Call W T → RolloutRun W → Try T × RolloutRun W
  calls call s = let r = call s.world in (r.0, record s { world = r.1 })

-- `percent if percent is not None else old`
abbrev pub or_old : Option ℕ → ℕ → ℕ
or_old none old = old
or_old (some n) old = n

-- `_record`
unfoldable pub recorded :
    (to : RolloutState) → (now : ℕ) → (percent step deadline : Option ℕ) → Rollout → Rollout
recorded to now percent step deadline r = record r {
  state = to;
  percent = or_old percent r.percent;
  step = or_old step r.step;
  step_started_at = now;
  deadline_at = deadline;
  history =
      r.history ++ transitioned now r.state to (or_old step r.step) (or_old percent r.percent) ∷ [];
  finished_at = if is_active to then r.finished_at else some now;
}

-- `_note`
abbrev pub noted : (now : ℕ) → Exn → Rollout → Rollout
noted now e r = record r { history = r.history ++ note now e ∷ [] }

abbrev pub with_row : {W : Type 0} → (Rollout → Rollout) → RolloutRun W → RolloutRun W
with_row change s = record s { row = change s.row }

module _ {W : Type 0} (S : Serving W) where
  -- `_split`: `assert rollout.stable_version is not None`.
  abbrev pub split_from : Rollout → Option ℕ → (percent : ℕ) → Call W (Unit {0})
  split_from r none percent w = (throws assertion_error, w)
  split_from r (some stable) percent w =
      S.split r.model_id stable (if ltb 0 percent then some r.candidate_version else none) percent w

  unfoldable pub split_traffic : (percent : ℕ) → RolloutRun W → Try (Unit {0}) × RolloutRun W
  split_traffic percent s = calls (split_from s.row s.row.stable_version percent) s

  -- `_undo_traffic`
  unfoldable pub undo_traffic : RolloutRun W → Try (Unit {0}) × RolloutRun W
  undo_traffic s =
      if not S.splits_traffic || not (is_some s.row.stable_version)
      then (gives tt, s)
      else if ltb 0 s.row.percent
      then split_traffic 0 s
      else and_then (calls (S.traffic s.row.model_id) s)
          λ candidate s1. if is_some candidate then split_traffic 0 s1 else (gives tt, s1)

  -- `_end_without_promotion`
  unfoldable pub end_without_promotion :
      (to : RolloutState) → (now : ℕ) → RolloutRun W → Try (Unit {0}) × RolloutRun W
  end_without_promotion to now s =
      and_then (undo_traffic s)
        λ _ s1. (gives tt, commit_row (with_row (recorded to now (some 0) none none) s1))

  -- `except DeploymentError`: noted.
  abbrev pub or_noted : (now : ℕ) → Try (Unit {0}) × RolloutRun W → Try (Unit {0}) × RolloutRun W
  or_noted now (gives u, s) = (gives u, s)
  or_noted now (throws e, s) =
      if is_deployment e then (gives tt, with_row (noted now e) s) else (throws e, s)

  abbrev pub clear_split : (now : ℕ) → RolloutRun W → Try (Unit {0}) × RolloutRun W
  clear_split now s =
      if S.splits_traffic && ltb 0 s.row.percent
      then or_noted now (calls (S.split s.row.model_id s.row.candidate_version none 0) s)
      else (gives tt, s)

  -- What follows `promote_version`.
  abbrev pub after_promotion :
      (now : ℕ) → Try (Unit {0}) × RolloutRun W → Try (Unit {0}) × RolloutRun W
  after_promotion now (gives u, s) =
      and_then (clear_split now s)
        λ _ s1. (gives tt, commit_row (with_row (recorded promoted now (some 100) none none) s1))
  after_promotion now (throws e, s) =
      if is_promotion_failure e
      then end_without_promotion rolled_back now (rollback_row s)
      else (throws e, s)

  -- `_promote`
  unfoldable pub promote : (now : ℕ) → RolloutRun W → Try (Unit {0}) × RolloutRun W
  promote now s =
      let r = s.row in
      after_promotion now (
        calls (S.promote r.model_id r.candidate_version r.stable_version r.rollout_id)
          (commit_row s))

  abbrev pub first_step : (now : ℕ) → List ℕ → RolloutRun W → Try (Unit {0}) × RolloutRun W
  first_step now [] s = (throws index_error, s)
  first_step now (p ∷ ps) s =
      if leb 100 p
      then promote now s
      else and_then (split_traffic p s)
          λ _ s1. (gives tt, commit_row (with_row (recorded canary now (some p) (some 0) none) s1))

  -- `_enter_canary`
  unfoldable pub enter_canary : (now : ℕ) → RolloutRun W → Try (Unit {0}) × RolloutRun W
  enter_canary now s = first_step now s.row.policy.canary_steps s
