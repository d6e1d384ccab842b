-- ===== src/Decision/Explained.antt =====
-- About decision/engine.py `_with_rejections`: the recorded rejections of a decision.
use agentic_ai_model_adaptat.Prelude.{
  ℕ, ◌≡◌, refl, sym, ap, ◌∙◌, inl, inr, Bool, true, false, not, ◌&&◌, ◌||◌, Option, none, some,
  List, [], ◌∷◌, select, ltb, arith, Bool-cases, Option-cases, ◌==◌, ==→eq,
}
use agentic_ai_model_adaptat.Decision.Constraints.{
  Strategy, insufficient_information, no_compatible_strategy, same_strategy, strategy_code, has,
  candidates, Why, preferred, unsupported_framework, few_drifted_rows, no_feature_shifts,
  small_sample, forced, Field, narrow, narrowed, ConstraintResult, DecisionPackage,
  DecisionSettings, evaluate_constraints, is_supported, drifted_rows, is_empty, sample_note,
}
use agentic_ai_model_adaptat.Decision.Llm.{Checked}
use agentic_ai_model_adaptat.Decision.Allowed.{chain, psi, nt, ntr, np, nv}
use agentic_ai_model_adaptat.Decision.Select.{
  LlmClient, consult, answer_or_rules, Decision, set_why, reject_others, with_rejections,
  select_decision, choose,
}

-- `s in d`
abbrev pub has_why : Strategy → List (Strategy × Why) → Bool
has_why s [] = false
has_why s ((t, w) ∷ d) = same_strategy t s || has_why s d

same-code : (a b : Strategy) → same_strategy a b ≡ true → strategy_code a ≡ strategy_code b
same-code a b e = ==→eq (strategy_code a) (strategy_code b) e

same-left : (a b c : Strategy) → same_strategy a b ≡ true → same_strategy a c ≡ same_strategy b c
same-left a b c e = ap (λ n. n == strategy_code c) (same-code a b e)

or_false : (a : Bool) → (a || false) ≡ a
or_false a = ground arith

or_absorb : (a h : Bool) → (a || h) ≡ ((a || h) || a)
or_absorb a h = ground arith

or_assoc : (a b c : Bool) → (a || (b || c)) ≡ ((a || b) || c)
or_assoc a b c = ground arith

or_dropped : (a h c : Bool) → (a ≡ true → c ≡ true) → (h && not c) ≡ ((a || h) && not c)
or_dropped a h c f = ground (arith, f)

or_kept : (a h c : Bool) → (a ≡ true → c ≡ false) → (a || (h && not c)) ≡ ((a || h) && not c)
or_kept a h c f = ground (arith, f)

or_skip :
    (h x n c : Bool) → (x ≡ true → c ≡ true) → (h || (n && not c)) ≡ (h || ((x || n) && not c))
or_skip h x n c f = ground (arith, f)

or_add :
    (h x n c : Bool)
    → (x ≡ true → c ≡ false)
    → ((h || x) || (n && not c)) ≡ (h || ((x || n) && not c))
or_add h x n c f = ground (arith, f)

has_why-set_why :
    (k s : Strategy) (w : Why) (d : List (Strategy × Why))
    → has_why k (set_why s w d) ≡ (has_why k d || same_strategy s k)
has_why-set_why k s w [] = or_false (same_strategy s k)
has_why-set_why k s w ((t, v) ∷ d) = elim (Bool-cases (same_strategy t s)) [
  | inl e ↦ rw (e, sym (same-left t s k e)) (or_absorb (same_strategy t k) (has_why k d))
  | inr e ↦
      rw (e, has_why-set_why k s w d)
        (or_assoc (same_strategy t k) (has_why k d) (same_strategy s k))
]

has_why-reject_others :
    (k chosen : Strategy) (ss : List Strategy) (d : List (Strategy × Why))
    → has_why k (reject_others chosen ss d)
      ≡ (has_why k d || (has k ss && not (same_strategy k chosen)))
has_why-reject_others k chosen [] d = sym (or_false (has_why k d))
has_why-reject_others k chosen (s ∷ ss) d = elim (Bool-cases (same_strategy s chosen)) [
  | inl e ↦
      rw (e, has_why-reject_others k chosen ss d)
        (or_skip (has_why k d) (same_strategy s k) (has k ss) (same_strategy k chosen)
          (λ e'. sym (same-left s k chosen e') ∙ e))
  | inr e ↦
      rw
        (
          e,
          has_why-reject_others k chosen ss (set_why s (preferred chosen) d),
          has_why-set_why k s (preferred chosen) d,
        )
        (or_add (has_why k d) (same_strategy s k) (has k ss) (same_strategy k chosen)
          (λ e'. sym (same-left s k chosen e') ∙ e))
]

has_why-select :
    (k chosen : Strategy) (d : List (Strategy × Why))
    → has_why k (select (λ e. not (same_strategy (e.0) chosen)) d)
      ≡ (has_why k d && not (same_strategy k chosen))
has_why-select k chosen [] = refl
has_why-select k chosen ((t, v) ∷ d) = elim (Bool-cases (same_strategy t chosen)) [
  | inl e ↦
      rw (e, has_why-select k chosen d)
        (or_dropped (same_strategy t k) (has_why k d) (same_strategy k chosen)
          (λ e'. sym (same-left t k chosen e') ∙ e))
  | inr e ↦
      rw (e, has_why-select k chosen d)
        (or_kept (same_strategy t k) (has_why k d) (same_strategy k chosen)
          (λ e'. sym (same-left t k chosen e') ∙ e))
]

narrow-considered :
    (psi nt ntr np nv : Bool) (k : Strategy)
    → has k candidates ≡ true
    → let f = narrow psi nt ntr np nv in (has_why k f.ruled_out || has k f.compatible) ≡ true
narrow-considered psi nt ntr np nv k e = ground arith

-- Each candidate was ruled out or is left open.
abbrev Considered : Strategy → ConstraintResult → Type 0
Considered k r = (has_why k r.rejected || has k r.compatible_strategies) ≡ true

forced-Considered :
    (f : Strategy) (why : Why) (k : Strategy)
    → has k candidates ≡ true
    → Considered k (forced f why)
forced-Considered f why k e = ground arith

chain-Considered :
    (a b c d : Bool) (f : Field) (k : Strategy)
    → has k candidates ≡ true
    → (has_why k f.ruled_out || has k f.compatible) ≡ true
    → Considered k (chain a b c d f)
chain-Considered false b c d f k e h =
    forced-Considered no_compatible_strategy unsupported_framework k e
chain-Considered true true c d f k e h =
    forced-Considered insufficient_information few_drifted_rows k e
chain-Considered true false true d f k e h =
    forced-Considered insufficient_information no_feature_shifts k e
chain-Considered true false false true f k e h =
    forced-Considered insufficient_information small_sample k e
chain-Considered true false false false f k e h = h

evaluate_constraints-Considered :
    (p : DecisionPackage) (s : DecisionSettings) (k : Strategy)
    → has k candidates ≡ true
    → Considered k (evaluate_constraints p s)
unfolding evaluate_constraints
evaluate_constraints-Considered p s k e =
    chain-Considered (is_supported p s) (ltb (drifted_rows p) s.decision_min_drifted_rows)
      (is_empty p.feature_shifts) (sample_note p) (narrowed p s) k e
      (narrow-considered (psi p s) (nt p s) (ntr p s) (np p s) (nv p s) k e)

chain-forced_empty :
    (a b c d : Bool) (f : Field) (st : Strategy)
    → (chain a b c d f).forced_strategy ≡ some st
    → (chain a b c d f).compatible_strategies ≡ []
chain-forced_empty false b c d f st e = refl
chain-forced_empty true true c d f st e = refl
chain-forced_empty true false true d f st e = refl
chain-forced_empty true false false true f st e = refl
chain-forced_empty true false false false f st e = cc

answer_or_rules-compatible :
    (p : DecisionPackage) (ss : List Strategy) (evidence : Option ℕ) (s : DecisionSettings)
    (r : Checked)
    → (answer_or_rules p ss evidence s r).compatible_strategies ≡ ss
answer_or_rules-compatible p ss evidence s r = elim (Option-cases r.choice) [
  | inl e ↦ rw (e, answer_or_rules) refl
  | inr (c, e) ↦ rw (e, answer_or_rules) refl
]

select_decision-compatible :
    (certain : ℕ) (p : DecisionPackage) (s : DecisionSettings) (client : Option LlmClient)
    (evidence : Option ℕ) (r : ConstraintResult)
    → ((st : Strategy) → r.forced_strategy ≡ some st → r.compatible_strategies ≡ [])
    → (select_decision certain p r client evidence s).compatible_strategies
      ≡ r.compatible_strategies
unfolding select_decision
select_decision-compatible certain p s none evidence r empty =
    elim (Option-cases r.forced_strategy) [
      | inr (f, e) ↦ rw (e, select_decision) (sym (empty f e))
      | inl e ↦ rw (e, select_decision) refl
    ]
select_decision-compatible certain p s (some c) evidence r empty =
    let ss = r.compatible_strategies in
    elim (Option-cases r.forced_strategy) [
      | inr (f, e) ↦ rw (e, select_decision) (sym (empty f e))
      | inl e ↦
          rw (e, select_decision) (answer_or_rules-compatible p ss evidence s (consult c ss s))
    ]

evaluate_constraints-forced_empty :
    (p : DecisionPackage) (s : DecisionSettings) (st : Strategy)
    → (evaluate_constraints p s).forced_strategy ≡ some st
    → (evaluate_constraints p s).compatible_strategies ≡ []
unfolding evaluate_constraints
evaluate_constraints-forced_empty p s st e =
    chain-forced_empty (is_supported p s) (ltb (drifted_rows p) s.decision_min_drifted_rows)
      (is_empty p.feature_shifts) (sample_note p) (narrowed p s) st e

accounted : (w h c : Bool) → (w || h) ≡ true → ((w || (h && not c)) && not c) ≡ not c
accounted w h c e = ground arith

with_rejections-explained :
    (d : Decision) (ruled_out : List (Strategy × Why)) (k : Strategy)
    → (has_why k ruled_out || has k d.compatible_strategies) ≡ true
    → has_why k (with_rejections d ruled_out).rejected_strategies ≡ not (same_strategy k d.strategy)
unfolding with_rejections
with_rejections-explained d ruled_out k e =
    has_why-select k d.strategy (reject_others d.strategy d.compatible_strategies ruled_out)
    ∙ ap (λ b. b && not (same_strategy k d.strategy))
        (has_why-reject_others k d.strategy d.compatible_strategies ruled_out)
    ∙ accounted (has_why k ruled_out) (has k d.compatible_strategies) (same_strategy k d.strategy) e

-- Every strategy is accounted for: an adaptation strategy that was not chosen is recorded as
-- rejected with a reason, and the chosen one never is.
pub choose-explained :
    (certain : ℕ) (p : DecisionPackage) (s : DecisionSettings) (client : Option LlmClient)
    (evidence : Option ℕ) (k : Strategy)
    → has k candidates ≡ true
    → has_why k (choose certain p s client evidence).rejected_strategies
      ≡ not (same_strategy k (choose certain p s client evidence).strategy)
unfolding choose
choose-explained certain p s client evidence k e =
    let r = evaluate_constraints p s in
    let kept =
      select_decision-compatible certain p s client evidence r
        (evaluate_constraints-forced_empty p s) in
    let open_or_out = evaluate_constraints-Considered p s k e in
    with_rejections-explained (select_decision certain p r client evidence s) r.rejected k
      (rw kept open_or_out)
