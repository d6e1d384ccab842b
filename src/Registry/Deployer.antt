-- ===== src/Registry/Deployer.antt =====
-- registry/deployment.py `Deployer`: putting a version into service and reading it back. The
-- polling loop runs on fuel: one round more than the ticks of the timeout.
use agentic_ai_model_adaptat.Prelude.{
  ℕ, zero, suc, ◌+◌, Bool, true, false, not, ◌&&◌, Option, none, some, leb, ◌==◌,
}
use agentic_ai_model_adaptat.Registry.Port.{
  deployment_error, out_of_rounds, is_adaptation, Try, gives, throws, Call, and_then,
  DeploymentTarget, DeploymentState, Systems,
}

-- `a == b` on optional versions.
abbrev pub same_version : Option ℕ → Option ℕ → Bool
same_version none none = true
same_version (some a) (some b) = a == b
same_version a b = false

-- `previous.version if previous else None`
abbrev pub version_of : Option DeploymentTarget → Option ℕ
version_of none = none
version_of (some t) = some t.version

pub record Deployer : Type 0 where
  pub timeout_s : ℕ
  pub poll_s : ℕ

-- What one round of the loop makes of a state: it returns, it raises, or it goes on.
pub data Round : Type 0 where
  reads_back fails waits : Round

abbrev pub judge : DeploymentState → Option ℕ → (fail_on_other : Bool) → Round
judge s version fail_on_other = elim (s.ready && same_version s.version version) [
  | Bool.true ↦ reads_back
  | Bool.false ↦ elim s.failed [
    | Bool.true ↦ fails
    | Bool.false ↦ elim (fail_on_other && (s.ready && not (same_version s.version version))) [
      | Bool.true ↦ fails
      | Bool.false ↦ waits
    ]
  ]
]

-- `serving`
abbrev pub serving : {W : Type 0} → Systems W → (model : ℕ) → Call W (Option ℕ)
serving S model w = and_then (S.status model w) λ s w'. (gives s.version, w')

module _ {W : Type 0} (S : Systems W) (d : Deployer) where
  -- The loop of `_poll`, until the deadline.
  unfoldable pub poll_until : (fuel deadline model : ℕ) → Option ℕ → Bool → Call W DeploymentState
  poll_until zero deadline model version other w = (throws out_of_rounds, w)
  poll_until (suc fuel) deadline model version other w =
      let rest = poll_until fuel deadline model version other in
      and_then (S.status model w) λ s w'. elim (judge s version other) [
        | Round.reads_back ↦ (gives s, w')
        | Round.fails ↦ (throws deployment_error, w')
        | Round.waits ↦ elim (leb deadline (S.clock w')) [
          | Bool.true ↦ (throws deployment_error, w')
          | Bool.false ↦ rest (S.sleep d.poll_s w')
        ]
      ]

  unfoldable pub poll : (model : ℕ) → Option ℕ → Bool → Call W DeploymentState
  poll model version other w =
      poll_until (suc d.timeout_s) (S.clock w + d.timeout_s) model version other w

  -- Only AdaptationErrors are caught: any other exception leaves `revert`.
  abbrev pub reverted : Try DeploymentState × W → Try Bool × W
  reverted (gives s, w) = (gives true, w)
  reverted (throws e, w) = elim (is_adaptation e) [
    | Bool.true ↦ (gives false, w)
    | Bool.false ↦ (throws e, w)
  ]

  unfoldable pub revert : (model : ℕ) → Option DeploymentTarget → Call W Bool
  revert model previous w =
      reverted
        (and_then (S.restore model previous w) λ _ w'. poll model (version_of previous) false w')

  -- The body of the `try` of `_rollout`, and its handler.
  unfoldable pub deploy_and_wait : DeploymentTarget → Call W DeploymentState
  deploy_and_wait target w =
      and_then (S.deploy target w) λ _ w'. poll target.model (some target.version) true w'

  abbrev pub undo_rollout :
      DeploymentTarget → Option DeploymentTarget → Try DeploymentState × W → Try DeploymentState × W
  undo_rollout target previous (gives s, w) = (gives s, w)
  undo_rollout target previous (throws e, w) = elim (is_adaptation e) [
    | Bool.true ↦
        and_then (revert target.model previous w) λ restored w'. (throws deployment_error, w')
    | Bool.false ↦ (throws e, w)
  ]

  unfoldable pub rollout : DeploymentTarget → Option DeploymentTarget → Call W DeploymentState
  rollout target previous w = undo_rollout target previous (deploy_and_wait target w)
