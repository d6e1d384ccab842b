-- ===== src/Reuse/Decide.antt =====
-- analysis/reuse_decision.py: `_hint` and `decide_reuse`. The ratio of an error metric is in
-- thousandths; the explanation texts, evidence and confidence are left out.
use agentic_ai_model_adaptat.Prelude.{
  ℕ, ◌+◌, ◌*◌, Bool, true, false, not, ◌&&◌, ◌||◌, Option, none, some, List, [], ◌∷◌, ltb, leb,
  ◌==◌, select, if◌then◌else◌,
}
use agentic_ai_model_adaptat.Decision.Constraints.{
  VersionEvaluation, Metric, higher_metric, lower_metric,
}

pub data ReuseVerdict : Type 0 where
  reuse_existing_version adapt_model retrain_model : ReuseVerdict

pub record ReuseSettings : Type 0 where
  pub decision_full_retrain_psi_threshold : ℕ
  pub reuse_min_accuracy_gain : ℕ
  pub reuse_min_rmse_reduction_ratio : ℕ
  pub reuse_max_model_age_days : Option ℕ

pub record ReuseDecision : Type 0 where
  pub verdict : ReuseVerdict
  pub live_version : Option ℕ
  pub selected_version : Option ℕ
  pub selected_value : Option ℕ

abbrev pub hint : ℕ → ReuseSettings → ReuseVerdict
hint max_psi s =
    if leb s.decision_full_retrain_psi_threshold max_psi then retrain_model else adapt_model

-- `next((e for e in evaluations if e.is_live), None)`
abbrev pub live_of : List VersionEvaluation → Option VersionEvaluation
live_of [] = none
live_of (e ∷ es) = if e.is_live then some e else live_of es

-- `higher_is_better` of a metric that one of the two tables has (of any other it raises a ValueError),
-- and `==` of two metric names.
abbrev pub higher_is_better : Metric → Bool
higher_is_better (higher_metric n) = true
higher_is_better (lower_metric n) = false

abbrev pub same_metric : Metric → Metric → Bool
same_metric (higher_metric a) (higher_metric b) = a == b
same_metric (lower_metric a) (lower_metric b) = a == b
same_metric _ _ = false

-- `gain(ev) >= required`, for the value of the version and the live one.
abbrev pub gains_enough : ReuseSettings → Metric → ℕ → ℕ → Bool
gains_enough s (higher_metric n) live v = leb (live + s.reuse_min_accuracy_gain) v
gains_enough s (lower_metric n) live v =
    leb (1000 * v + live * s.reuse_min_rmse_reduction_ratio) (1000 * live)

abbrev pub young_enough : ReuseSettings → VersionEvaluation → Bool
young_enough s e = elim s.reuse_max_model_age_days [
  | none ↦ true
  | some most ↦ elim e.age_days [ none ↦ true | some age ↦ leb age most ]
]

abbrev pub scored_enough : ReuseSettings → Metric → ℕ → VersionEvaluation → Bool
scored_enough s metric live e = elim e.metric_name [
  | none ↦ false
  | some name ↦
      same_metric name metric
      && (elim e.metric_value [ none ↦ false | some v ↦ gains_enough s metric live v ])
]

-- The condition of the list of eligible versions.
abbrev pub is_eligible : ReuseSettings → Metric → ℕ → VersionEvaluation → Bool
is_eligible s metric live e =
    (not e.is_live && e.compatible) && (young_enough s e && scored_enough s metric live e)

abbrev pub value_of : VersionEvaluation → ℕ
value_of e = elim e.metric_value [ none ↦ 0 | some v ↦ v ]

-- Whether the key `(gain, version)` of the first is greater than that of the second.
abbrev pub outranks : Bool → VersionEvaluation → VersionEvaluation → Bool
outranks true a b =
    ltb (value_of b) (value_of a) || (value_of a == value_of b && ltb b.version a.version)
outranks false a b =
    ltb (value_of a) (value_of b) || (value_of a == value_of b && ltb b.version a.version)

-- `max` of the list with its head, the first of the greatest.
abbrev pub best : Bool → VersionEvaluation → List VersionEvaluation → VersionEvaluation
best higher e [] = e
best higher e (f ∷ fs) = best higher (if outranks higher f e then f else e) fs

abbrev pub hinted : ℕ → Option ℕ → ReuseSettings → ReuseDecision
hinted max_psi live_version s = record {
  verdict = hint max_psi s;
  live_version = live_version;
  selected_version = none;
  selected_value = none;
}

abbrev pub reused : Option ℕ → VersionEvaluation → ReuseDecision
reused live_version e = record {
  verdict = reuse_existing_version;
  live_version = live_version;
  selected_version = some e.version;
  selected_value = e.metric_value;
}

abbrev pub choose_version :
    ReuseSettings → ℕ → Option ℕ → Metric → List VersionEvaluation → ReuseDecision
choose_version s max_psi live_version metric [] = hinted max_psi live_version s
choose_version s max_psi live_version metric (e ∷ es) =
    reused live_version (best (higher_is_better metric) e es)

abbrev pub eligible : ReuseSettings → Metric → ℕ → List VersionEvaluation → List VersionEvaluation
eligible s metric live = select (is_eligible s metric live)

-- The metric and the value of a live version that could be scored. A compatible version with a
-- value and no metric name fails the assertion: `err`.
pub data LiveScore : Type 0 where
  unscored unnamed : LiveScore
  scored : Metric → ℕ → LiveScore

abbrev pub live_score : Option VersionEvaluation → LiveScore
live_score none = unscored
live_score (some e) =
    if e.compatible
    then (elim e.metric_value [
      | none ↦ unscored
      | some v ↦ elim e.metric_name [ none ↦ unnamed | some m ↦ scored m v ]
    ])
    else unscored

-- `decide_reuse`; none where its assertion fails.
unfoldable pub decide_reuse :
    List VersionEvaluation
    → (live_version : Option ℕ) → (max_psi : ℕ) → ReuseSettings
    → Option ReuseDecision
decide_reuse es live_version max_psi s = elim (live_score (live_of es)) [
  | unscored ↦ some (hinted max_psi live_version s)
  | unnamed ↦ none
  | scored metric live ↦
      some (choose_version s max_psi live_version metric (eligible s metric live es))
]
