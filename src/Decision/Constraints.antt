-- ===== src/Decision/Constraints.antt =====
-- decision/constraints.py and decision/fallback.py: the strategies that the evidence leaves open,
-- and the deterministic choice among them. A reason's text is a constructor of `Why`; a PSI is its
-- multiple of a fixed small unit, since the code only compares it.
use agentic_ai_model_adaptat.Prelude.{
  ℕ, Bool, true, false, not, ◌&&◌, ◌||◌, Option, none, some, List, [], ◌∷◌, ◌++◌, map, ltb, leb,
  elem, get_or, ◌==◌, if◌then◌else◌,
}

pub data Strategy : Type 0 where
  fine_tuning full_retraining rollback no_action : Strategy
  insufficient_information no_compatible_strategy : Strategy

abbrev pub strategy_code : Strategy → ℕ
strategy_code fine_tuning = 0
strategy_code full_retraining = 1
strategy_code rollback = 2
strategy_code no_action = 3
strategy_code insufficient_information = 4
strategy_code no_compatible_strategy = 5

abbrev pub same_strategy : Strategy → Strategy → Bool
same_strategy s t = strategy_code s == strategy_code t

-- `s in ss`, and `ss.remove(s)`.
abbrev pub has : Strategy → List Strategy → Bool
has s [] = false
has s (t ∷ ts) = same_strategy t s || has s ts

abbrev pub remove : Strategy → List Strategy → List Strategy
remove s [] = []
remove s (t ∷ ts) = if same_strategy t s then ts else t ∷ remove s ts

pub data Why : Type 0 where
  unsupported_framework few_drifted_rows no_feature_shifts small_sample : Why
  psi_too_high no_fine_tuning_engine no_retraining_engine : Why
  no_recent_performance no_earlier_version : Why
  -- Compatible, but passed over.
  preferred : Strategy → Why

pub record ConstraintResult : Type 0 where
  pub compatible_strategies : List Strategy
  pub reason : List Why
  pub forced_strategy : Option Strategy
  pub rejected : List (Strategy × Why)

abbrev pub candidates : List Strategy
candidates = full_retraining ∷ fine_tuning ∷ rollback ∷ no_action ∷ []

-- The metrics of validation/metrics.py. A value is counted in a small unit from a base at or below
-- every value, which is 0 for an error metric; an age is in days.
pub data Metric : Type 0 where
  higher_metric lower_metric : ℕ → Metric

pub record VersionEvaluation : Type 0 where
  pub version : ℕ
  pub is_live : Bool
  pub compatible : Bool
  pub metric_name : Option Metric
  pub metric_value : Option ℕ
  pub age_days : Option ℕ

-- `capabilities` is a dictionary with the keys 0 (`fine_tuning`), 1 (`full_retraining`) and 2
-- (`llm_adapter`).
pub record DriftSummary : Type 0 where
  pub sample_sufficient : Bool
  pub capabilities : List (ℕ × Bool)

pub record DecisionPackage : Type 0 where
  pub model_id : ℕ
  pub framework : Option ℕ
  pub drifted_data : Option ℕ
  pub feature_shifts : List ℕ
  pub drift_summary : Option DriftSummary
  pub max_psi : ℕ
  pub recent_performance : List ℕ
  pub version_evaluations : List VersionEvaluation

pub record DecisionSettings : Type 0 where
  -- `supported_frameworks(settings)`, and `str.lower` of a framework's name.
  pub supported_frameworks : List ℕ
  pub lower : ℕ → ℕ
  pub decision_min_drifted_rows : ℕ
  pub decision_full_retrain_psi_threshold : ℕ
  pub decision_default_confidence : ℕ
  pub decision_agent_enabled : Bool
  pub decision_agent_max_steps : ℕ

-- `_forced`
abbrev pub forced : Strategy → Why → ConstraintResult
forced s why = record {
  compatible_strategies = [];
  reason = why ∷ [];
  forced_strategy = some s;
  rejected = map (λ c. (c, why)) candidates;
}

-- The strategies still open, with the notes and the rejections so far; `_rule_out`.
pub record Field : Type 0 where
  pub compatible : List Strategy
  pub notes : List Why
  pub ruled_out : List (Strategy × Why)

abbrev pub rule_out : Bool → Strategy → Why → Field → Field
rule_out test s why f =
    if test && has s f.compatible
    then record {
      compatible = remove s f.compatible;
      notes = f.notes ++ why ∷ [];
      ruled_out = f.ruled_out ++ (s, why) ∷ [];
    }
    else f

-- `not xs`
abbrev pub is_empty {ℓ} : {A : Type ℓ} → List A → Bool
is_empty [] = true
is_empty (x ∷ xs) = false

abbrev pub capabilities_of : DecisionPackage → List (ℕ × Bool)
capabilities_of p = elim p.drift_summary [ none ↦ [] | some s ↦ s.capabilities ]

-- `caps and not caps.get(key, False) and not llm_adapter`
abbrev pub lacks : ℕ → List (ℕ × Bool) → Bool
lacks key caps = not (is_empty caps) && not (get_or key caps false) && not (get_or 2 caps false)

-- `any(e.compatible and not e.is_live ...)`
abbrev pub any_earlier : List VersionEvaluation → Bool
any_earlier [] = false
any_earlier (e ∷ es) = (e.compatible && not e.is_live) || any_earlier es

abbrev pub narrow : (psi no_tuning no_training no_performance no_version : Bool) → Field
narrow psi no_tuning no_training no_performance no_version =
    rule_out (not no_performance && no_version) rollback no_earlier_version (
      rule_out no_performance rollback no_recent_performance (
        rule_out no_training full_retraining no_retraining_engine (
          rule_out no_tuning fine_tuning no_fine_tuning_engine (
            rule_out psi fine_tuning psi_too_high
              (record { compatible = candidates; notes = []; ruled_out = [] })))))

-- The narrowing that the evidence asks for.
abbrev pub narrowed : DecisionPackage → DecisionSettings → Field
narrowed p s =
    let caps = capabilities_of p in
    narrow (leb s.decision_full_retrain_psi_threshold p.max_psi) (lacks 0 caps) (lacks 1 caps)
      (is_empty p.recent_performance)
      (not (is_empty p.version_evaluations) && not (any_earlier p.version_evaluations))

abbrev pub result_of : Field → ConstraintResult
result_of f = record {
  compatible_strategies = f.compatible;
  reason = f.notes;
  forced_strategy = none;
  rejected = f.ruled_out;
}

abbrev pub is_supported : DecisionPackage → DecisionSettings → Bool
is_supported p s = elim p.framework [
  | none ↦ false
  | some f ↦ elem (s.lower f) s.supported_frameworks
]

abbrev pub sample_note : DecisionPackage → Bool
sample_note p = elim p.drift_summary [ none ↦ false | some d ↦ not d.sample_sufficient ]

abbrev pub drifted_rows : DecisionPackage → ℕ
drifted_rows p = elim p.drifted_data [ none ↦ 0 | some n ↦ n ]

unfoldable pub evaluate_constraints : DecisionPackage → DecisionSettings → ConstraintResult
evaluate_constraints p s =
    if not (is_supported p s)
    then forced no_compatible_strategy unsupported_framework
    else if ltb (drifted_rows p) s.decision_min_drifted_rows
    then forced insufficient_information few_drifted_rows
    else if is_empty p.feature_shifts
    then forced insufficient_information no_feature_shifts
    else if sample_note p
    then forced insufficient_information small_sample
    else result_of (narrowed p s)

-- decision/fallback.py
unfoldable pub select_strategy_fallback : List Strategy → Strategy
select_strategy_fallback ss =
    if has fine_tuning ss
    then fine_tuning
    else if has full_retraining ss
    then full_retraining
    else if has rollback ss
    then rollback
    else no_action
