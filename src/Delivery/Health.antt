-- ===== src/Delivery/Health.antt =====
-- delivery/health.py: the candidate arm against the stable arm. Means and thresholds are multiples
-- of a small unit and not negative, and their arithmetic is exact; a ratio is in hundredths. The
-- means of the samples are part of what an arm reports, and the significance test is a parameter.
use agentic_ai_model_adaptat.Prelude.{
  ℕ, ◌+◌, ◌-◌, ◌*◌, Bool, true, false, not, ◌&&◌, ◌||◌, Option, none, some, List, [], ◌∷◌, ◌++◌,
  ltb, leb, ◌==◌, if◌then◌else◌, dict_get,
}

pub data Direction : Type 0 where
  lower higher : Direction

pub record HealthRule : Type 0 where
  pub metric : ℕ
  pub direction : Direction
  pub limit : Option ℕ
  pub max_degradation : Option ℕ
  pub max_ratio : Option ℕ
  pub required : Bool

-- `ArmStats`: the requests, and for each metric with samples their number and mean.
pub record Samples : Type 0 where
  pub size : ℕ
  pub mean : ℕ

pub record ArmStats : Type 0 where
  pub count : ℕ
  pub samples : List (ℕ × Samples)

abbrev pub mean_in : Option Samples → Option ℕ
mean_in none = none
mean_in (some s) = some s.mean

abbrev pub mean_of : ArmStats → ℕ → Option ℕ
mean_of a metric = mean_in (dict_get metric a.samples)

pub data Health : Type 0 where
  healthy breach insufficient : Health

-- The ways in which a rule is broken, and the arms without samples of a required metric.
pub data Broken : Type 0 where
  beyond_limit degraded over_ratio : (metric : ℕ) → Broken

pub data Missing : Type 0 where
  no_candidate no_stable : (metric : ℕ) → Missing

pub record HealthVerdict : Type 0 where
  pub status : Health
  pub reasons : List Broken
  pub missing : List Missing

-- `_worse_by(rule, candidate, stable) > allowed`
abbrev pub is_worse : Direction → (candidate stable allowed : ℕ) → Bool
is_worse lower c s allowed = ltb (s + allowed) c
is_worse higher c s allowed = ltb (c + allowed) s

abbrev pub ratio_breached : Direction → (ratio candidate stable : ℕ) → Bool
ratio_breached lower r c s = ltb 0 s && ltb (r * s) (100 * c)
ratio_breached higher r c s = ltb 0 c && ltb (r * c) (100 * s)

abbrev pub beyond : Direction → (limit candidate : ℕ) → Bool
beyond lower l c = ltb l c
beyond higher l c = ltb c l

-- `x is not None and test(x)`
abbrev pub holds_for : Option ℕ → (ℕ → Bool) → Bool
holds_for none test = false
holds_for (some x) test = test x

abbrev pub only_if : {A : Type 0} → Bool → A → List A
only_if b a = if b then a ∷ [] else []

-- What one round of the loop adds to `reasons` and to `missing`.
pub record Found : Type 0 where
  pub reasons : List Broken
  pub missing : List Missing

abbrev pub compare_means : HealthRule → (candidate stable : ℕ) → List Broken
compare_means r c s =
    only_if (holds_for r.max_degradation (is_worse r.direction c s)) (degraded r.metric)
    ++ only_if (holds_for r.max_ratio (λ x. ratio_breached r.direction x c s)) (over_ratio r.metric)

abbrev pub is_relative : HealthRule → Bool
is_relative r = holds_for r.max_degradation (λ x. true) || holds_for r.max_ratio (λ x. true)

abbrev pub against_stable : HealthRule → (candidate : ℕ) → Option ℕ → Found
against_stable r c none = record { reasons = []; missing = only_if r.required (no_stable r.metric) }
against_stable r c (some s) = record { reasons = compare_means r c s; missing = [] }

abbrev pub check_candidate : HealthRule → (candidate : ℕ) → Option ℕ → Found
check_candidate r c stable =
    let limit = only_if (holds_for r.limit (λ l. beyond r.direction l c)) (beyond_limit r.metric) in
    let more = against_stable r c stable in
    if is_relative r
    then record { reasons = limit ++ more.reasons; missing = more.missing }
    else record { reasons = limit; missing = [] }

abbrev pub check_rule : HealthRule → (candidate stable : Option ℕ) → Found
check_rule r none stable = record {
  reasons = [];
  missing = only_if r.required (no_candidate r.metric);
}
check_rule r (some c) stable = check_candidate r c stable

-- The loop, with what it has found so far.
unfoldable pub check_rules : List HealthRule → ArmStats → ArmStats → Found → Found
check_rules [] stable candidate found = found
check_rules (r ∷ rs) stable candidate found =
    let now = check_rule r (mean_of candidate r.metric) (mean_of stable r.metric) in
    check_rules rs stable candidate
      (record { reasons = found.reasons ++ now.reasons; missing = found.missing ++ now.missing })

abbrev pub none_found : Found
none_found = record { reasons = []; missing = [] }

abbrev pub verdict_of : List Broken → List Missing → HealthVerdict
verdict_of (b ∷ bs) ms = record { status = breach; reasons = b ∷ bs; missing = [] }
verdict_of [] (m ∷ ms) = record { status = insufficient; reasons = []; missing = m ∷ ms }
verdict_of [] [] = record { status = healthy; reasons = []; missing = [] }

abbrev pub has_samples : (min_samples : ℕ) → ArmStats → ArmStats → Bool
has_samples n stable candidate = not (ltb candidate.count n || ltb stable.count n)

unfoldable pub evaluate_health :
    (min_samples : ℕ) → List HealthRule → (stable candidate : ArmStats) → HealthVerdict
evaluate_health n rules stable candidate =
    let found = check_rules rules stable candidate none_found in
    if has_samples n stable candidate
    then verdict_of found.reasons found.missing
    else record { status = insufficient; reasons = []; missing = [] }

-- The A/B verdict. `p_value` is what the t-test answers for the metric (none: it is no number), in
-- units of which `one` make 1.
pub data AbVerdict : Type 0 where
  better worse inconclusive : AbVerdict

pub record AbPolicy : Type 0 where
  pub min_samples : ℕ
  pub ab_metric : ℕ
  pub ab_direction : Direction
  pub ab_confidence : ℕ
  pub one : ℕ

abbrev pub p_or_default : AbPolicy → Option ℕ → (candidate stable : ℕ) → ℕ
p_or_default p (some v) c s = v
p_or_default p none c s = if c == s then p.one else 0

abbrev pub improves : Direction → (candidate stable : ℕ) → Bool
improves lower c s = ltb c s
improves higher c s = ltb s c

abbrev pub significant : AbPolicy → (p candidate stable : ℕ) → AbVerdict
significant a p c s =
    if ltb p (a.one - a.ab_confidence) && improves a.ab_direction c s
    then better
    else if ltb p (a.one - a.ab_confidence) && improves a.ab_direction s c
    then worse
    else inconclusive

abbrev pub compare_arms : AbPolicy → Option ℕ → Option Samples → Option Samples → AbVerdict
compare_arms a p (some c) (some s) =
    if leb 2 c.size && leb 2 s.size
    then significant a (p_or_default a p c.mean s.mean) c.mean s.mean
    else inconclusive
compare_arms a p c s = inconclusive

unfoldable pub ab_test : AbPolicy → (p_value : Option ℕ) → (stable candidate : ArmStats) → AbVerdict
ab_test a p stable candidate =
    if has_samples a.min_samples stable candidate
    then compare_arms a p (dict_get a.ab_metric candidate.samples)
        (dict_get a.ab_metric stable.samples)
    else inconclusive
