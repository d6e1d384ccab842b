-- ===== src/Decision/Examples.antt =====
-- Decisions of decision/engine.py on a small package.
use agentic_ai_model_adaptat.Prelude.{◌≤◌, ◌≡◌, refl, false, not, none, some, [], ◌∷◌}
use agentic_ai_model_adaptat.Decision.Constraints.{
  fine_tuning, rollback, no_action, same_strategy, DecisionPackage, DecisionSettings,
}
use agentic_ai_model_adaptat.Decision.Llm.{answered, replied, submits, run_agent}
use agentic_ai_model_adaptat.Decision.Select.{LlmClient, choose}
use agentic_ai_model_adaptat.Decision.Trust.{Trusted, run_agent_sound}
use agentic_ai_model_adaptat.Decision.Allowed.{Justified, choose-Justified}
use agentic_ai_model_adaptat.Decision.Explained.{has_why, choose-explained}

abbrev drift_package : DecisionPackage
drift_package = record {
  model_id = 1;
  framework = some 1;
  drifted_data = some 500;
  feature_shifts = 1 ∷ [];
  drift_summary = none;
  max_psi = 300;
  recent_performance = [];
  version_evaluations = [];
}

abbrev settings : DecisionSettings
settings = record {
  supported_frameworks = 1 ∷ [];
  lower = λ f. f;
  decision_min_drifted_rows = 100;
  decision_full_retrain_psi_threshold = 250;
  decision_default_confidence = 500;
  decision_agent_enabled = false;
  decision_agent_max_steps = 4;
}

-- A client that answers with a strategy that is ruled out.
abbrev eager : LlmClient
eager = record {
  single = answered (record { strategy = fine_tuning; confidence = 900 });
  next =
      λ turns left. replied (submits (some (record { strategy = fine_tuning; confidence = 900 })));
  run_tool = λ a i. none;
}

choose-Justified_example :
    Justified drift_package settings (choose 1000 drift_package settings (some eager) none).strategy
choose-Justified_example = choose-Justified 1000 drift_package settings (some eager) none

choose-explained_example :
    has_why rollback (choose 1000 drift_package settings (some eager) none).rejected_strategies
    ≡ not (same_strategy rollback (choose 1000 drift_package settings (some eager) none).strategy)
choose-explained_example =
    choose-explained 1000 drift_package settings (some eager) none rollback refl

run_agent_sound_example :
    let o = run_agent eager.next eager.run_tool 4 (no_action ∷ []) in
    Trusted (no_action ∷ []) o.checked × (o.steps ≤ 4)
run_agent_sound_example = run_agent_sound eager.next eager.run_tool 4 (no_action ∷ [])
