-- ===== src/Registry/Split.antt =====
-- registry/deployment.py `Deployer.split`: a share of the traffic for a candidate, read back from the
-- serving system. The loop runs on fuel: one round more than the ticks of the timeout. `traffic` and
-- `set_traffic` are those of the TrafficSplitPort.
use agentic_ai_model_adaptat.Prelude.{
  ℕ, zero, suc, ◌+◌, Bool, true, false, ◌&&◌, ◌||◌, Option, none, some, leb, ◌==◌, is_some,
  if◌then◌else◌,
}
use agentic_ai_model_adaptat.Registry.Port.{
  deployment_error, out_of_rounds, gives, throws, Call, and_then, DeploymentTarget, DeploymentState,
  Systems,
}
use agentic_ai_model_adaptat.Registry.Deployer.{same_version, version_of, Deployer}

pub record TrafficSplit : Type 0 where
  pub stable : Option ℕ
  pub candidate : Option ℕ
  pub percent : ℕ

pub record Splitter (W : Type 0) : Type 0 where
  pub splits_traffic : Bool
  pub set_traffic :
      (model : ℕ)
      → (stable : DeploymentTarget) → (candidate : Option DeploymentTarget) → (percent : ℕ)
      → Call W (Unit {0})
  pub traffic : (model : ℕ) → Call W TrafficSplit

-- What is asked of the system: the stable version, the candidate's and its share.
pub record Wanted : Type 0 where
  pub stable : ℕ
  pub candidate : Option ℕ
  pub percent : ℕ

-- With no candidate or no share, everything goes to the stable version.
abbrev pub candidate_for : Option DeploymentTarget → (percent : ℕ) → Option DeploymentTarget
candidate_for c percent = if percent == 0 then none else c

abbrev pub percent_for : Option DeploymentTarget → (percent : ℕ) → ℕ
percent_for none percent = 0
percent_for (some c) percent = percent

abbrev pub wanted : DeploymentTarget → Option DeploymentTarget → (percent : ℕ) → Wanted
wanted stable c percent = record {
  stable = stable.version;
  candidate = version_of (candidate_for c percent);
  percent = percent_for c percent;
}

abbrev pub matches : TrafficSplit → Wanted → Bool
matches s want =
    same_version s.stable (some want.stable)
    && (same_version s.candidate want.candidate && s.percent == want.percent)

-- With the split removed, the system must also serve the stable version.
abbrev pub is_settled : DeploymentState → TrafficSplit → Wanted → Bool
is_settled st s want =
    (st.ready && (is_some want.candidate || same_version st.version (some want.stable)))
    && matches s want

-- `_splitter`: a backend that cannot split traffic is refused.
abbrev pub with_splitter : {W T : Type 0} → Bool → Call W T → Call W T
with_splitter true call w = call w
with_splitter false call w = (throws deployment_error, w)

module _ {W : Type 0} (S : Systems W) (P : Splitter W) (d : Deployer) where
  -- The loop of `_read_back_split`, until the deadline.
  unfoldable pub read_back_until : (fuel deadline model : ℕ) → Wanted → Call W TrafficSplit
  read_back_until zero deadline model want w = (throws out_of_rounds, w)
  read_back_until (suc fuel) deadline model want w =
      let rest = read_back_until fuel deadline model want in
      and_then (S.status model w) λ st w1.
        if st.failed
        then (throws deployment_error, w1)
        else and_then (P.traffic model w1) λ s w2.
          if is_settled st s want
          then (gives s, w2)
          else if leb deadline (S.clock w2)
          then (throws deployment_error, w2)
          else rest (S.sleep d.poll_s w2)

  unfoldable pub read_back_split : (model : ℕ) → Wanted → Call W TrafficSplit
  read_back_split model want w =
      read_back_until (suc d.timeout_s) (S.clock w + d.timeout_s) model want w

  unfoldable pub split :
      (model : ℕ)
      → (stable : DeploymentTarget) → (candidate : Option DeploymentTarget) → (percent : ℕ)
      → Call W TrafficSplit
  split model stable candidate percent w =
      with_splitter P.splits_traffic
        (λ w0.
          and_then
            (P.set_traffic model stable (candidate_for candidate percent)
              (percent_for candidate percent) w0)
            λ _ w1. read_back_split model (wanted stable candidate percent) w1)
        w
