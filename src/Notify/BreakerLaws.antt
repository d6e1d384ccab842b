-- ===== src/Notify/BreakerLaws.antt =====
-- About `CircuitBreaker` of notifications/dispatcher.py: its threshold, its trial and its wait.
use agentic_ai_model_adaptat.Prelude.{
  ℕ, zero, suc, ◌+◌, ◌≤◌, ◌<◌, ◌≡◌, ap, ◌∙◌, true, false, none, some, List, [], ◌∷◌, leb, arith,
  if◌then◌else◌,
}
use agentic_ai_model_adaptat.Notify.Breaker.{
  SinkCircuit, closed, BreakerSettings, get_circuit, set_circuit, is_open, allow, success,
  failed_circuit, failure, wait_s,
}

get_circuit-set_circuit :
    (sink : ℕ) (c : SinkCircuit) (cs : List (ℕ × SinkCircuit))
    → get_circuit sink (set_circuit sink c cs) ≡ c
get_circuit-set_circuit sink c [] = ground arith
get_circuit-set_circuit sink c ((k, v) ∷ cs) = ground (arith, get_circuit-set_circuit sink c cs)

-- `n` failures of a sink in a row.
abbrev pub fail_times :
    BreakerSettings → ℕ → ℕ → ℕ → List (ℕ × SinkCircuit) → List (ℕ × SinkCircuit)
fail_times s now sink zero cs = cs
fail_times s now sink (suc n) cs = failure s now sink (fail_times s now sink n cs)

abbrev counted : BreakerSettings → ℕ → ℕ → SinkCircuit
counted s now n = record {
  failures = n;
  opened_at = if leb s.threshold n then some now else none;
  trial = false;
}

failed_circuit-closed :
    (s : BreakerSettings) (now : ℕ) → failed_circuit s now closed ≡ counted s now 1
failed_circuit-closed s now = ground arith

failed_circuit-counted :
    (s : BreakerSettings) (now n : ℕ)
    → failed_circuit s now (counted s now n) ≡ counted s now (suc n)
failed_circuit-counted s now n = ground arith

get_circuit-fail_times :
    (s : BreakerSettings) (now sink n : ℕ) (cs : List (ℕ × SinkCircuit))
    → get_circuit sink (fail_times s now sink (suc n) (success sink cs)) ≡ counted s now (suc n)
unfolding failure success
get_circuit-fail_times s now sink zero cs =
    get_circuit-set_circuit sink _ (success sink cs)
    ∙ ap (failed_circuit s now) (get_circuit-set_circuit sink closed cs)
    ∙ failed_circuit-closed s now
get_circuit-fail_times s now sink (suc n) cs =
    get_circuit-set_circuit sink _ (fail_times s now sink (suc n) (success sink cs))
    ∙ ap (failed_circuit s now) (get_circuit-fail_times s now sink n cs)
    ∙ failed_circuit-counted s now (suc n)

-- After a success and then failures in a row, one at least and all at one reading of the clock, a
-- sink's circuit is open at a time before the reset period from them has passed exactly when the
-- failures have reached the threshold.
pub fail_times-is_open :
    (s : BreakerSettings) (now later sink n : ℕ) (cs : List (ℕ × SinkCircuit))
    → now ≤ later
    → later < now + s.reset_s
    → is_open s later sink (fail_times s now sink (suc n) (success sink cs))
      ≡ leb s.threshold (suc n)
unfolding is_open
fail_times-is_open s now later sink n cs after early =
    ground (arith, get_circuit-fail_times s now sink n cs)

-- Half open means one trial: once an open circuit let a call through, no further call goes through,
-- however late, until the trial's result is recorded.
pub allow-one_trial :
    (s : BreakerSettings) (now later sink opened : ℕ) (cs : List (ℕ × SinkCircuit))
    → (get_circuit sink cs).opened_at ≡ some opened
    → (allow s now sink cs).0 ≡ true
    → (allow s later sink (allow s now sink cs).1).0 ≡ false
unfolding allow
allow-one_trial s now later sink opened cs e a =
    ground (arith, get_circuit-set_circuit sink (record (get_circuit sink cs) { trial = true }) cs)

-- The wait is long enough: after `wait_s` a sink may be called, unless a trial is still running.
pub wait_s-allow :
    (s : BreakerSettings) (now sink : ℕ) (cs : List (ℕ × SinkCircuit))
    → (get_circuit sink cs).trial ≡ false
    → (allow s (now + wait_s s now sink cs) sink cs).0 ≡ true
unfolding allow wait_s
wait_s-allow s now sink cs idle = ground arith
