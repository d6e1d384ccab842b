-- ===== src/Notify/Breaker.antt =====
-- notifications/dispatcher.py: `_SinkCircuit` and `CircuitBreaker`. The monotonic clock's reading is
-- an argument of each operation; the gauges and the log are left out.
use agentic_ai_model_adaptat.Prelude.{
  ℕ, ◌+◌, ◌-◌, Bool, true, false, ◌||◌, Option, none, some, List, [], ◌∷◌, ltb, leb, ◌==◌, get_or,
  if◌then◌else◌,
}

pub record SinkCircuit : Type 0 where
  pub failures : ℕ
  pub opened_at : Option ℕ
  pub trial : Bool

abbrev pub closed : SinkCircuit
closed = record { failures = 0; opened_at = none; trial = false }

pub record BreakerSettings : Type 0 where
  pub threshold : ℕ
  pub reset_s : ℕ

-- The circuits by sink; `_get` and the assignment `self._sinks[sink] = c`.
abbrev pub get_circuit : ℕ → List (ℕ × SinkCircuit) → SinkCircuit
get_circuit sink cs = get_or sink cs closed

abbrev pub set_circuit : ℕ → SinkCircuit → List (ℕ × SinkCircuit) → List (ℕ × SinkCircuit)
set_circuit sink c [] = (sink, c) ∷ []
set_circuit sink c ((k, v) ∷ cs) = if k == sink then (k, c) ∷ cs else (k, v) ∷ set_circuit sink c cs

-- Whether an open circuit still refuses calls.
abbrev pub refuses : BreakerSettings → ℕ → SinkCircuit → ℕ → Bool
refuses s now c opened = c.trial || ltb (now - opened) s.reset_s

unfoldable pub is_open : BreakerSettings → ℕ → ℕ → List (ℕ × SinkCircuit) → Bool
is_open s now sink cs =
    let c = get_circuit sink cs in
    elim c.opened_at [ none ↦ false | some opened ↦ refuses s now c opened ]

unfoldable pub allow :
    BreakerSettings → ℕ → ℕ → List (ℕ × SinkCircuit) → Bool × List (ℕ × SinkCircuit)
allow s now sink cs =
    let c = get_circuit sink cs in
    elim c.opened_at [
      | none ↦ (true, cs)
      | some opened ↦
          if refuses s now c opened
          then (false, cs)
          else (true, set_circuit sink (record c { trial = true }) cs)
    ]

unfoldable pub success : ℕ → List (ℕ × SinkCircuit) → List (ℕ × SinkCircuit)
success sink cs = set_circuit sink closed cs

abbrev pub failed_circuit : BreakerSettings → ℕ → SinkCircuit → SinkCircuit
failed_circuit s now c =
    if c.trial || leb s.threshold (c.failures + 1)
    then record { failures = c.failures + 1; opened_at = some now; trial = false }
    else record c { failures = c.failures + 1 }

unfoldable pub failure : BreakerSettings → ℕ → ℕ → List (ℕ × SinkCircuit) → List (ℕ × SinkCircuit)
failure s now sink cs = set_circuit sink (failed_circuit s now (get_circuit sink cs)) cs

unfoldable pub wait_s : BreakerSettings → ℕ → ℕ → List (ℕ × SinkCircuit) → ℕ
wait_s s now sink cs =
    let c = get_circuit sink cs in
    elim c.opened_at [
      | none ↦ 0
      | some opened ↦ if c.trial then s.reset_s else opened + s.reset_s - now
    ]
