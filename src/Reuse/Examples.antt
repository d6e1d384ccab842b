-- ===== src/Reuse/Examples.antt =====
-- A choice of analysis/reuse_decision.py among three versions by an error metric.
use agentic_ai_model_adaptat.Prelude.{ℕ, ◌≡◌, refl, Bool, true, false, some, List, [], ◌∷◌}
use agentic_ai_model_adaptat.Decision.Constraints.{VersionEvaluation, lower_metric}
use agentic_ai_model_adaptat.Reuse.Decide.{ReuseSettings, ReuseDecision, decide_reuse}
use agentic_ai_model_adaptat.Reuse.Best.{Best, decide_reuse-Best}

abbrev settings : ReuseSettings
settings = record {
  decision_full_retrain_psi_threshold = 500;
  reuse_min_accuracy_gain = 20;
  reuse_min_rmse_reduction_ratio = 50;
  reuse_max_model_age_days = some 90;
}

abbrev version : ℕ → Bool → ℕ → VersionEvaluation
version n is_live error = record {
  version = n;
  is_live = is_live;
  compatible = true;
  metric_name = some (lower_metric 1);
  metric_value = some error;
  age_days = some 10;
}

abbrev versions : List VersionEvaluation
versions = version 3 true 400 ∷ version 2 false 300 ∷ version 1 false 390 ∷ []

decide_reuse-Best_example :
    (d : ReuseDecision) × (decide_reuse versions (some 3) 600 settings ≡ some d)
    × Best settings (lower_metric 1) 400 600 (some 3) versions d
decide_reuse-Best_example =
    decide_reuse-Best settings (lower_metric 1) 400 600 (some 3) versions refl
