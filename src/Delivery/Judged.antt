-- ===== src/Delivery/Judged.antt =====
-- About `evaluate_health` of delivery/health.py: an independent description of its verdict.
use agentic_ai_model_adaptat.Prelude.{
  ℕ, ◌≡◌, refl, sym, ◌∙◌, ap, inl, inr, Bool, true, false, not, ◌&&◌, ◌||◌, Option, none, some,
  List, [], ◌∷◌, ◌++◌, Bool-cases, if◌then◌else◌,
}
use agentic_ai_model_adaptat.Delivery.Health.{
  HealthRule, ArmStats, mean_of, Health, healthy, breach, insufficient, Broken, beyond_limit,
  degraded, over_ratio, no_candidate, no_stable, Missing, is_worse, ratio_breached, beyond,
  holds_for, only_if, Found, compare_means, is_relative, check_rule, check_rules, none_found,
  verdict_of, has_samples, evaluate_health,
}

-- Whether a rule is broken: the candidate's mean is beyond the limit, or the stable arm has a mean
-- and the candidate's is too much worse.
abbrev pub worse_than_stable : HealthRule → (candidate : ℕ) → Option ℕ → Bool
worse_than_stable r c none = false
worse_than_stable r c (some s) =
    holds_for r.max_degradation (is_worse r.direction c s)
    || holds_for r.max_ratio (λ x. ratio_breached r.direction x c s)

abbrev pub is_broken : HealthRule → (candidate stable : Option ℕ) → Bool
is_broken r none stable = false
is_broken r (some c) stable =
    holds_for r.limit (λ l. beyond r.direction l c) || worse_than_stable r c stable

-- Whether a required metric has no samples on an arm that the rule needs.
abbrev pub is_unknown : HealthRule → (candidate stable : Option ℕ) → Bool
is_unknown r none stable = r.required
is_unknown r (some c) none = r.required && is_relative r
is_unknown r (some c) (some s) = false

abbrev pub any : {A : Type 0} → (A → Bool) → List A → Bool
any p [] = false
any p (x ∷ xs) = p x || any p xs

abbrev pub broken_by : ArmStats → ArmStats → HealthRule → Bool
broken_by stable candidate r = is_broken r (mean_of candidate r.metric) (mean_of stable r.metric)

abbrev pub unknown_by : ArmStats → ArmStats → HealthRule → Bool
unknown_by stable candidate r = is_unknown r (mean_of candidate r.metric) (mean_of stable r.metric)

-- The verdict by its description.
abbrev pub described : (min_samples : ℕ) → List HealthRule → (stable candidate : ArmStats) → Health
described n rules stable candidate =
    if not (has_samples n stable candidate)
    then insufficient
    else if any (broken_by stable candidate) rules
    then breach
    else if any (unknown_by stable candidate) rules
    then insufficient
    else healthy

abbrev is_nil : {A : Type 0} → List A → Bool
is_nil [] = true
is_nil (x ∷ xs) = false

is_nil-append : {A : Type 0} (xs ys : List A) → is_nil (xs ++ ys) ≡ (is_nil xs && is_nil ys)
is_nil-append [] ys = refl
is_nil-append (x ∷ xs) ys = refl

is_nil-only_if : {A : Type 0} (b : Bool) (a : A) → is_nil (only_if b a) ≡ not b
is_nil-only_if true a = refl
is_nil-only_if false a = refl

not_or : (a b : Bool) → (not a && not b) ≡ not (a || b)
not_or true b = refl
not_or false b = refl

compare_means-is_nil :
    (r : HealthRule) (c s : ℕ) → is_nil (compare_means r c s) ≡ not (worse_than_stable r c (some s))
compare_means-is_nil r c s =
    let a = holds_for r.max_degradation (is_worse r.direction c s) in
    let b = holds_for r.max_ratio (λ x. ratio_breached r.direction x c s) in
    is_nil-append (only_if a (degraded r.metric)) (only_if b (over_ratio r.metric))
    ∙ ap (λ x. x && is_nil (only_if b (over_ratio r.metric))) (is_nil-only_if a (degraded r.metric))
    ∙ ap (λ x. not a && x) (is_nil-only_if b (over_ratio r.metric))
    ∙ not_or a b

holds_for-none :
    (o : Option ℕ) (test : ℕ → Bool) → holds_for o (λ x. true) ≡ false → holds_for o test ≡ false
holds_for-none none test h = refl
holds_for-none (some x) test h = cc

or_false : (a b : Bool) → (a || b) ≡ false → (a ≡ false) × (b ≡ false)
or_false true b h = cc
or_false false b h = (refl, h)

-- A rule with neither bound on the difference is never broken by it.
worse_than_stable-relative :
    (r : HealthRule) (c s : ℕ) → is_relative r ≡ false → worse_than_stable r c (some s) ≡ false
worse_than_stable-relative r c s h =
    let both =
      or_false (holds_for r.max_degradation (λ x. true)) (holds_for r.max_ratio (λ x. true)) h in
    ap (λ x. x || holds_for r.max_ratio (λ x. ratio_breached r.direction x c s))
      (holds_for-none r.max_degradation (is_worse r.direction c s) (both.0))
    ∙ holds_for-none r.max_ratio (λ x. ratio_breached r.direction x c s) (both.1)

or_right_false : (a : Bool) → (a || false) ≡ a
or_right_false true = refl
or_right_false false = refl

and_right_true : (a : Bool) → (a && true) ≡ a
and_right_true true = refl
and_right_true false = refl

and_right_false : (a : Bool) → (a && false) ≡ false
and_right_false true = refl
and_right_false false = refl

check_rule-is_nil :
    (r : HealthRule) (c s : Option ℕ)
    → (is_nil (check_rule r c s).reasons ≡ not (is_broken r c s))
      × (is_nil (check_rule r c s).missing ≡ not (is_unknown r c s))
check_rule-is_nil r none s = (refl, is_nil-only_if r.required (no_candidate r.metric))
check_rule-is_nil r (some c) none =
    let over = holds_for r.limit (λ l. beyond r.direction l c) in
    let limit = is_nil-only_if over (beyond_limit r.metric) ∙ ap not (sym (or_right_false over)) in
    elim (Bool-cases (is_relative r)) [
      | inl relative ↦ rw relative (
        is_nil-append (only_if over (beyond_limit r.metric)) []
            ∙ and_right_true (is_nil (only_if over (beyond_limit r.metric)))
            ∙ limit,
        is_nil-only_if r.required (no_stable r.metric) ∙ ap not (sym (and_right_true r.required)),
      )
      | inr absolute ↦ rw absolute (limit, ap not (sym (and_right_false r.required)))
    ]
check_rule-is_nil r (some c) (some s) =
    let over = holds_for r.limit (λ l. beyond r.direction l c) in
    let limit = is_nil-only_if over (beyond_limit r.metric) in
    elim (Bool-cases (is_relative r)) [
      | inl relative ↦ rw relative (
        is_nil-append (only_if over (beyond_limit r.metric)) (compare_means r c s)
            ∙ ap (λ x. x && is_nil (compare_means r c s)) limit
            ∙ ap (λ x. not over && x) (compare_means-is_nil r c s)
            ∙ not_or over (worse_than_stable r c (some s)),
        refl,
      )
      | inr absolute ↦
          let same = worse_than_stable-relative r c s absolute in
          rw absolute (
            limit ∙ ap not (sym (or_right_false over)) ∙ ap (λ x. not (over || x)) (sym same),
            refl,
          )
    ]

and_not_or : (a b c : Bool) → ((a && not b) && not c) ≡ (a && not (b || c))
and_not_or true true c = refl
and_not_or true false c = refl
and_not_or false b c = refl

check_rules-is_nil :
    (rs : List HealthRule) (stable candidate : ArmStats) (found : Found)
    → (is_nil (check_rules rs stable candidate found).reasons
        ≡ (is_nil found.reasons && not (any (broken_by stable candidate) rs)))
      × (is_nil (check_rules rs stable candidate found).missing
          ≡ (is_nil found.missing && not (any (unknown_by stable candidate) rs)))
unfolding check_rules
check_rules-is_nil [] stable candidate found =
    (sym (and_right_true (is_nil found.reasons)), sym (and_right_true (is_nil found.missing)))
check_rules-is_nil (r ∷ rs) stable candidate found =
    let now = check_rule r (mean_of candidate r.metric) (mean_of stable r.metric) in
    let here = check_rule-is_nil r (mean_of candidate r.metric) (mean_of stable r.metric) in
    let rest =
      check_rules-is_nil rs stable candidate (record {
        reasons = found.reasons ++ now.reasons;
        missing = found.missing ++ now.missing;
      }) in
    let bs = any (broken_by stable candidate) rs in
    let ms = any (unknown_by stable candidate) rs in
    (
      rest.0
          ∙ ap (λ x. x && not bs)
              (is_nil-append found.reasons now.reasons
                ∙ ap (λ x. is_nil found.reasons && x) (here.0))
          ∙ and_not_or (is_nil found.reasons) (broken_by stable candidate r) bs,
      rest.1
          ∙ ap (λ x. x && not ms)
              (is_nil-append found.missing now.missing
                ∙ ap (λ x. is_nil found.missing && x) (here.1))
          ∙ and_not_or (is_nil found.missing) (unknown_by stable candidate r) ms,
    )

not-not : (a : Bool) → not (not a) ≡ a
not-not true = refl
not-not false = refl

verdict_of-status :
    (bs : List Broken) (ms : List Missing)
    → (verdict_of bs ms).status
      ≡ (if not (is_nil bs) then breach else if not (is_nil ms) then insufficient else healthy)
verdict_of-status (b ∷ bs) ms = refl
verdict_of-status [] (m ∷ ms) = refl
verdict_of-status [] [] = refl

-- The verdict on a candidate is the described one: too few requests on an arm, then any rule broken,
-- then any required metric without samples, else healthy.
pub evaluate_health-described :
    (n : ℕ) (rules : List HealthRule) (stable candidate : ArmStats)
    → (evaluate_health n rules stable candidate).status ≡ described n rules stable candidate
unfolding evaluate_health
evaluate_health-described n rules stable candidate =
    let found = check_rules rules stable candidate none_found in
    let nil = check_rules-is_nil rules stable candidate none_found in
    let bs = any (broken_by stable candidate) rules in
    let ms = any (unknown_by stable candidate) rules in
    elim (Bool-cases (has_samples n stable candidate)) [
      | inl enough ↦
          rw (enough, evaluate_health)
            (verdict_of-status found.reasons found.missing
              ∙ ap
                  (λ x.
                    if not x
                    then breach
                    else if not (is_nil found.missing)
                    then insufficient
                    else healthy)
                  (nil.0)
              ∙ ap (λ x. if not (not bs) then breach else if not x then insufficient else healthy)
                  (nil.1)
              ∙ ap (λ x. if x then breach else if not (not ms) then insufficient else healthy)
                  (not-not bs)
              ∙ ap (λ x. if bs then breach else if x then insufficient else healthy) (not-not ms))
      | inr few ↦ rw (few, evaluate_health) refl
    ]
