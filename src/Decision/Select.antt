-- ===== src/Decision/Select.antt =====
-- decision/engine.py: `_select`, `_with_rejections` and `_choose`. Confidence figures are multiples
-- of a fixed small unit, `certain` being 1.0; the evidence's confidence is an argument, as it is
-- of `_select`.
use agentic_ai_model_adaptat.Prelude.{
  ℕ, min, Option, none, some, List, [], ◌∷◌, not, select, if◌then◌else◌,
}
use agentic_ai_model_adaptat.Decision.Constraints.{
  Strategy, same_strategy, Why, preferred, ConstraintResult, DecisionPackage, DecisionSettings,
  evaluate_constraints, select_strategy_fallback,
}
use agentic_ai_model_adaptat.Decision.Llm.{
  LlmStrategyChoice, FallbackReason, disabled, Answer, Checked, select_strategy_checked, Turn,
  Asked, run_agent,
}

pub data Source : Type 0 where
  hard_constraint llm_source fallback_source : Source

pub record Decision : Type 0 where
  pub model_id : ℕ
  pub strategy : Strategy
  pub confidence : ℕ
  pub compatible_strategies : List Strategy
  pub rejected_strategies : List (Strategy × Why)
  pub source : Source
  pub fallback_reason : Option FallbackReason

-- A configured LLM client and the agent's tools.
pub record LlmClient : Type 0 where
  pub single : Answer
  pub next : List Turn → ℕ → Asked
  pub run_tool : ℕ → ℕ → Option ℕ

abbrev pub consult : LlmClient → List Strategy → DecisionSettings → Checked
consult client ss s =
    if s.decision_agent_enabled
    then (run_agent client.next client.run_tool s.decision_agent_max_steps ss).checked
    else select_strategy_checked client.single ss

abbrev pub capped : Option ℕ → ℕ → ℕ
capped none c = c
capped (some e) c = min c e

abbrev pub or_default : Option ℕ → ℕ → ℕ
or_default none d = d
or_default (some e) d = e

-- The decision by the rules, and the one by the LLM's choice.
abbrev pub by_rules :
    DecisionPackage → List Strategy → Option ℕ → DecisionSettings → Option FallbackReason → Decision
by_rules p ss evidence s why = record {
  model_id = p.model_id;
  strategy = select_strategy_fallback ss;
  confidence = or_default evidence s.decision_default_confidence;
  compatible_strategies = ss;
  rejected_strategies = [];
  source = fallback_source;
  fallback_reason = why;
}

abbrev pub by_llm : DecisionPackage → List Strategy → Option ℕ → LlmStrategyChoice → Decision
by_llm p ss evidence c = record {
  model_id = p.model_id;
  strategy = c.strategy;
  confidence = capped evidence c.confidence;
  compatible_strategies = ss;
  rejected_strategies = [];
  source = llm_source;
  fallback_reason = none;
}

abbrev pub answer_or_rules :
    DecisionPackage → List Strategy → Option ℕ → DecisionSettings → Checked → Decision
answer_or_rules p ss evidence s r = elim r.choice [
  | some c ↦ by_llm p ss evidence c
  | none ↦ by_rules p ss evidence s r.reason
]

-- `_select`
unfoldable pub select_decision :
    (certain : ℕ)
    → DecisionPackage
    → ConstraintResult
    → Option LlmClient
    → (evidence_confidence : Option ℕ) → DecisionSettings
    → Decision
unfolding select_strategy_fallback select_strategy_checked run_agent
select_decision certain p r client evidence s = elim r.forced_strategy [
  | some f ↦ record {
    model_id = p.model_id;
    strategy = f;
    confidence = certain;
    compatible_strategies = [];
    rejected_strategies = [];
    source = hard_constraint;
    fallback_reason = none;
  }
  | none ↦ elim client [
    | none ↦ by_rules p r.compatible_strategies evidence s (some disabled)
    | some c ↦
        answer_or_rules p r.compatible_strategies evidence s (consult c r.compatible_strategies s)
  ]
]

-- `rejected[key] = value` on a dictionary, and the two steps of `_with_rejections`.
abbrev pub set_why : Strategy → Why → List (Strategy × Why) → List (Strategy × Why)
set_why s why [] = (s, why) ∷ []
set_why s why ((t, w) ∷ d) = if same_strategy t s then (t, why) ∷ d else (t, w) ∷ set_why s why d

abbrev pub reject_others : Strategy → List Strategy → List (Strategy × Why) → List (Strategy × Why)
reject_others chosen [] d = d
reject_others chosen (s ∷ ss) d =
    reject_others chosen ss (if same_strategy s chosen then d else set_why s (preferred chosen) d)

-- `_with_rejections`
unfoldable pub with_rejections : Decision → List (Strategy × Why) → Decision
with_rejections d ruled_out = record d {
  rejected_strategies =
      select (λ e. not (same_strategy (e.0) d.strategy))
        (reject_others d.strategy d.compatible_strategies ruled_out);
}

-- `_choose`
unfoldable pub choose :
    (certain : ℕ)
    → DecisionPackage
    → DecisionSettings
    → Option LlmClient
    → (evidence_confidence : Option ℕ) → Decision
unfolding with_rejections select_decision evaluate_constraints
choose certain p s client evidence =
    let r = evaluate_constraints p s in
    with_rejections (select_decision certain p r client evidence s) r.rejected
