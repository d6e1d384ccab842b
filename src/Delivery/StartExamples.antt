-- ===== src/Delivery/StartExamples.antt =====
-- Starts of a rollout of delivery/, and the witnesses of the theorems about them.
use agentic_ai_model_adaptat.Prelude.{ℕ, ◌≡◌, refl, some, List, [], ◌∷◌}
use agentic_ai_model_adaptat.Registry.Port.{deployment_error, throws, gives}
use agentic_ai_model_adaptat.Delivery.Rollouts.{
  canary, transitioned, note, Rollout, Serving, recorded, split_traffic, undo_traffic,
  end_without_promotion, wrong_state,
}
use agentic_ai_model_adaptat.Delivery.Examples.{policy, serving, running}
use agentic_ai_model_adaptat.Delivery.Start.{by_canary, StartArgs, active_rollout, start_rollout}
use agentic_ai_model_adaptat.Delivery.Started.{OneActive, start_rollout-OneActive}

abbrev args : StartArgs
args = record {
  rollout_id = 8;
  model_id = 5;
  strategy = by_canary;
  stable_version = 1;
  candidate_version = 2;
  policy = policy;
}

abbrev rollouts : List Rollout
rollouts = running ∷ []

-- No split is ever read back.
abbrev stuck : Serving ℕ
stuck = record serving { split = λ m v c p w. (throws deployment_error, p) }

begun :
    ((start_rollout serving args 100 rollouts 0).0 ≡ gives tt)
    × (active_rollout 5 (start_rollout serving args 100 rollouts 0).1
        ≡ some (record running {
          rollout_id = 8;
          model_id = 5;
          step_started_at = 100;
          history = transitioned 100 canary canary 0 5 ∷ [];
        }))
    × ((start_rollout serving (record args { model_id = 4 }) 100 rollouts 0).0 ≡ throws wrong_state)
unfolding start_rollout active_rollout split_traffic recorded
begun = (refl, refl, refl)

-- The first split failed, and could not be undone: the rollout stays a canary.
left_over :
    ((start_rollout stuck args 100 rollouts 0).0 ≡ gives tt)
    × (active_rollout 5 (start_rollout stuck args 100 rollouts 0).1
        ≡ some (record running {
          rollout_id = 8;
          model_id = 5;
          percent = 0;
          step_started_at = 100;
          history = note 100 deployment_error ∷ [];
        }))
unfolding start_rollout active_rollout split_traffic recorded undo_traffic end_without_promotion
left_over = (refl, refl)

rollouts-OneActive : OneActive rollouts
unfolding active_rollout
rollouts-OneActive = (λ _. refl, tt)

start_rollout-OneActive_example : OneActive (start_rollout serving args 100 rollouts 0).1
start_rollout-OneActive_example =
    start_rollout-OneActive serving args 100 rollouts 0 rollouts-OneActive
