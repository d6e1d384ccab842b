-- ===== src/Decision/Allowed.antt =====
-- About decision/engine.py `_choose`: the chosen strategy against the evidence of its package.
use mathlib.Core.Path.{subst}
use agentic_ai_model_adaptat.Prelude.{
  ℕ, ◌≡◌, refl, ◌⊎◌, inl, inr, Bool, true, false, not, ◌&&◌, Option, none, some, List, leb, ltb,
  arith, Bool-cases, Option-cases, if◌then◌else◌,
}
use agentic_ai_model_adaptat.Decision.Constraints.{
  Strategy, fine_tuning, full_retraining, rollback, no_action, insufficient_information,
  no_compatible_strategy, Field, has, is_empty, result_of, DecisionPackage, DecisionSettings, Why,
  forced, unsupported_framework, few_drifted_rows, no_feature_shifts, small_sample,
  ConstraintResult, evaluate_constraints, narrowed, lacks, capabilities_of, any_earlier,
  is_supported, sample_note, drifted_rows, select_strategy_fallback,
}
use agentic_ai_model_adaptat.Decision.Llm.{Checked}
use agentic_ai_model_adaptat.Decision.Select.{
  LlmClient, consult, answer_or_rules, select_decision, choose,
}
use agentic_ai_model_adaptat.Decision.Trust.{Trusted, consult-Trusted}
use agentic_ai_model_adaptat.Decision.Narrow.{
  narrow-fine_tuning, narrow-full_retraining, narrow-rollback, narrow-candidates, no_earlier,
}

-- What the hard constraints ask for before an adaptation is chosen at all.
pub record Evidence (p : DecisionPackage) (s : DecisionSettings) : Type 0 where
  pub supported : is_supported p s ≡ true
  pub rows : ltb (drifted_rows p) s.decision_min_drifted_rows ≡ false
  pub shifts : is_empty p.feature_shifts ≡ false
  pub sample : sample_note p ≡ false

-- What each strategy needs.
abbrev pub Justified : DecisionPackage → DecisionSettings → Strategy → Type 0
Justified p s fine_tuning =
    Evidence p s
    × (leb s.decision_full_retrain_psi_threshold p.max_psi ≡ false)
    × (lacks 0 (capabilities_of p) ≡ false)
Justified p s full_retraining = Evidence p s × (lacks 1 (capabilities_of p) ≡ false)
Justified p s rollback =
    Evidence p s
    × (is_empty p.recent_performance ≡ false)
    × ((is_empty p.version_evaluations ≡ true) ⊎ (any_earlier p.version_evaluations ≡ true))
Justified p s no_action = Evidence p s
Justified p s insufficient_information =
    (is_supported p s ≡ true)
    × ((ltb (drifted_rows p) s.decision_min_drifted_rows ≡ true)
        ⊎ ((is_empty p.feature_shifts ≡ true) ⊎ (sample_note p ≡ true)))
Justified p s no_compatible_strategy = is_supported p s ≡ false

-- A strategy that the narrowed field leaves open.
-- The forced strategy, or one that is left open.
abbrev OptionOf : ConstraintResult → Strategy → Type 0
OptionOf r st =
    (r.forced_strategy ≡ some st)
    ⊎ ((r.forced_strategy ≡ none) × (has st r.compatible_strategies ≡ true))

module _ (p : DecisionPackage) (s : DecisionSettings) where
  abbrev pub psi : Bool
  psi = leb s.decision_full_retrain_psi_threshold p.max_psi

  abbrev pub nt : Bool
  nt = lacks 0 (capabilities_of p)

  abbrev pub ntr : Bool
  ntr = lacks 1 (capabilities_of p)

  abbrev pub np : Bool
  np = is_empty p.recent_performance

  abbrev pub nv : Bool
  nv = not (is_empty p.version_evaluations) && not (any_earlier p.version_evaluations)

  open-Justified :
      (st : Strategy) → Evidence p s → has st (narrowed p s).compatible ≡ true → Justified p s st
  open-Justified fine_tuning ev e = let (a, b) = narrow-fine_tuning psi nt ntr np nv e in (ev, a, b)
  open-Justified full_retraining ev e = (ev, narrow-full_retraining psi nt ntr np nv e)
  open-Justified rollback ev e =
      let (a, b) = narrow-rollback psi nt ntr np nv e in
      (ev, a, no_earlier (is_empty p.version_evaluations) (any_earlier p.version_evaluations) b)
  open-Justified no_action ev e = ev
  open-Justified insufficient_information ev e =
      let none_left = (narrow-candidates psi nt ntr np nv).1 in cc
  open-Justified no_compatible_strategy ev e =
      let none_left = (narrow-candidates psi nt ntr np nv).2 in cc

  forced-OptionOf : (f st : Strategy) (why : Why) → OptionOf (forced f why) st → f ≡ st
  forced-OptionOf f st why (inl e) = cc
  forced-OptionOf f st why (inr e) = let no = e.0 in cc

  open_one :
      (st : Strategy)
      → OptionOf (result_of (narrowed p s)) st
      → has st (narrowed p s).compatible ≡ true
  open_one st (inl e) = cc
  open_one st (inr e) = e.1

  evaluate_constraints-Justified :
      (st : Strategy) → OptionOf (evaluate_constraints p s) st → Justified p s st
  unfolding evaluate_constraints
  evaluate_constraints-Justified st o = elim (Bool-cases (is_supported p s)) [
    | inr a ↦
        subst (Justified p s)
          (forced-OptionOf no_compatible_strategy st unsupported_framework
            (rw (a, evaluate_constraints) at o))
          a
    | inl a ↦ elim (Bool-cases (ltb (drifted_rows p) s.decision_min_drifted_rows)) [
      | inl b ↦
          subst (Justified p s)
            (forced-OptionOf insufficient_information st few_drifted_rows
              (rw (a, b, evaluate_constraints) at o))
            (a, inl b)
      | inr b ↦ elim (Bool-cases (is_empty p.feature_shifts)) [
        | inl c ↦
            subst (Justified p s)
              (forced-OptionOf insufficient_information st no_feature_shifts
                (rw (a, b, c, evaluate_constraints) at o))
              (a, inr (inl c))
        | inr c ↦ elim (Bool-cases (sample_note p)) [
          | inl d ↦
              subst (Justified p s)
                (forced-OptionOf insufficient_information st small_sample
                  (rw (a, b, c, d, evaluate_constraints) at o))
                (a, inr (inr d))
          | inr d ↦
              let ev : Evidence p s = record { supported = a; rows = b; shifts = c; sample = d } in
              let left_open : OptionOf (result_of (narrowed p s)) st =
                rw (a, b, c, d, evaluate_constraints) at o in
              open-Justified st ev (open_one st left_open)
        ]
      ]
    ]
  ]

fallback-has :
    (ss : List Strategy) → has no_action ss ≡ true → has (select_strategy_fallback ss) ss ≡ true
unfolding select_strategy_fallback
fallback-has ss e = ground arith

-- The checked answer, or the rules where there is none.
answer_or_rules-has :
    (p : DecisionPackage) (ss : List Strategy) (evidence : Option ℕ) (s : DecisionSettings)
    (r : Checked)
    → has no_action ss ≡ true
    → Trusted ss r
    → has (answer_or_rules p ss evidence s r).strategy ss ≡ true
answer_or_rules-has p ss evidence s r nothing t = elim (Option-cases r.choice) [
  | inl e ↦ rw (e, answer_or_rules) (fallback-has ss nothing)
  | inr (c, e) ↦ rw (e, answer_or_rules) (t c e)
]

select_decision-OptionOf :
    (certain : ℕ) (p : DecisionPackage) (s : DecisionSettings) (client : Option LlmClient)
    (evidence : Option ℕ) (r : ConstraintResult)
    → (r.forced_strategy ≡ none → has no_action r.compatible_strategies ≡ true)
    → OptionOf r (select_decision certain p r client evidence s).strategy
unfolding select_decision
select_decision-OptionOf certain p s none evidence r nothing =
    elim (Option-cases r.forced_strategy) [
      | inr (f, e) ↦ inl (rw (e, select_decision) refl)
      | inl e ↦
          let ss = r.compatible_strategies in
          inr (e, rw (e, select_decision) (fallback-has ss (nothing e)))
    ]
select_decision-OptionOf certain p s (some c) evidence r nothing =
    elim (Option-cases r.forced_strategy) [
      | inr (f, e) ↦ inl (rw (e, select_decision) refl)
      | inl e ↦
          let ss = r.compatible_strategies in
          let t = consult-Trusted c ss s in
          inr (
            e,
            rw (e, select_decision)
                (answer_or_rules-has p ss evidence s (consult c ss s) (nothing e) t),
          )
    ]

-- The choice of `evaluate_constraints` on its four tests.
abbrev pub chain : Bool → Bool → Bool → Bool → Field → ConstraintResult
chain a b c d f =
    if not a
    then forced no_compatible_strategy unsupported_framework
    else if b
    then forced insufficient_information few_drifted_rows
    else if c
    then forced insufficient_information no_feature_shifts
    else if d
    then forced insufficient_information small_sample
    else result_of f

unforced-no_action :
    (a b c d : Bool) (f : Field)
    → has no_action f.compatible ≡ true
    → (chain a b c d f).forced_strategy ≡ none
    → has no_action (chain a b c d f).compatible_strategies ≡ true
unforced-no_action false b c d f h e = cc
unforced-no_action true true c d f h e = cc
unforced-no_action true false true d f h e = cc
unforced-no_action true false false true f h e = cc
unforced-no_action true false false false f h e = h

evaluate_constraints-no_action :
    (p : DecisionPackage) (s : DecisionSettings)
    → (evaluate_constraints p s).forced_strategy ≡ none
    → has no_action (evaluate_constraints p s).compatible_strategies ≡ true
unfolding evaluate_constraints
evaluate_constraints-no_action p s e =
    let caps = capabilities_of p in
    unforced-no_action (is_supported p s) (ltb (drifted_rows p) s.decision_min_drifted_rows)
      (is_empty p.feature_shifts) (sample_note p) (narrowed p s)
      (narrow-candidates (psi p s) (nt p s) (ntr p s) (np p s) (nv p s)).0 e

-- Whatever the language model answers, prompted once or as an agent, the strategy that is chosen is
-- justified by the evidence: an adaptation strategy has enough drifted rows, feature shifts, a
-- sufficient sample and a supported framework behind it, and what that strategy itself needs.
pub choose-Justified :
    (certain : ℕ) (p : DecisionPackage) (s : DecisionSettings) (client : Option LlmClient)
    (evidence : Option ℕ)
    → Justified p s (choose certain p s client evidence).strategy
unfolding choose
choose-Justified certain p s client evidence =
    let r = evaluate_constraints p s in
    evaluate_constraints-Justified p s (choose certain p s client evidence).strategy
      (select_decision-OptionOf certain p s client evidence r (evaluate_constraints-no_action p s))
