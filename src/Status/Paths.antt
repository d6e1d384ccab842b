-- ===== src/Status/Paths.antt =====
-- What the transition table of core/state_machine.py allows over any number of moves.
use agentic_ai_model_adaptat.Prelude.{◌≡◌, refl, ◌≢◌, true, false, arith}
use mathlib.Core.Path.{subst}
use agentic_ai_model_adaptat.Status.{
  JobStatus, received, queued, validating_candidate, registering, failed, timed_out, cancelled,
  analyzing, model_comparison, decision_made, is_terminal, check_transition,
}

-- One move that `check_transition` lets through, and any number of them.
abbrev pub Move : JobStatus → JobStatus → Type 0
Move s t = check_transition s t ≡ true

pub data Moves (s : JobStatus) : JobStatus → Type 0 where
  here : Moves s s
  next : {t u : JobStatus} → Moves s t → Move t u → Moves s u

pub Moves-trans : {s t u : JobStatus} → Moves s t → Moves t u → Moves s u
Moves-trans p here = p
Moves-trans p (next q m) = next (Moves-trans p q) m

pub Move-Moves : {s t : JobStatus} → Move s t → Moves s t
Move-Moves m = next here m

pub terminal-no_Move : (s t : JobStatus) → is_terminal s ≡ true → ¬ (Move s t)
unfolding check_transition
terminal-no_Move s t e m = ground arith

-- Once a job has ended, no number of further moves changes its status.
pub terminal-Moves : {s t : JobStatus} → is_terminal s ≡ true → Moves s t → t ≡ s
terminal-Moves e here = refl
terminal-Moves {s} e (next {t = t} {u = u} p m) =
    let same = terminal-Moves e p in absurd (terminal-no_Move s u e (subst (λ x. Move x u) same m))

-- A job that has not ended can be failed, timed out and cancelled, wherever it stands.
pub active-Move_ends :
    (s : JobStatus)
    → is_terminal s ≡ false
    → (Move s failed) × (Move s timed_out) × (Move s cancelled)
unfolding check_transition
active-Move_ends s e = ground arith

-- A move that starts an attempt over goes to QUEUED, from every stage that an attempt reports.
pub active-Move_queued :
    (s : JobStatus) → is_terminal s ≡ false → s ≢ received → s ≢ queued → Move s queued
unfolding check_transition
active-Move_queued s e nr nq = ground arith

-- No move enters RECEIVED or one of the three statuses that older releases wrote.
pub Move-ne-legacy :
    (s t : JobStatus)
    → Move s t
    → (t ≢ received) × (t ≢ analyzing) × (t ≢ model_comparison) × (t ≢ decision_made)
unfolding check_transition
Move-ne-legacy s t m = ground arith

pub Move-registering : (s t : JobStatus) → Move s t → t ≡ registering → s ≡ validating_candidate
unfolding check_transition
Move-registering s t m e = ground arith

-- Moves none of which starts at `a`.
pub data MovesAvoiding (a s : JobStatus) : JobStatus → Type 0 where
  start : MovesAvoiding a s s
  step : {t u : JobStatus} → MovesAvoiding a s t → t ≢ a → Move t u → MovesAvoiding a s u

avoiding-ne-registering :
    {s t : JobStatus} → s ≢ registering → MovesAvoiding validating_candidate s t → t ≢ registering
avoiding-ne-registering ne start e = ne e
avoiding-ne-registering ne (step {t = t} {u = u} p avoids m) e = avoids (Move-registering t u m e)

-- Whatever path a job takes, retries included, it enters REGISTERING only after the candidate
-- was validated: no path from QUEUED to REGISTERING leaves VALIDATING_CANDIDATE out.
pub queued-registering_validated : ¬ (MovesAvoiding validating_candidate queued registering)
unfolding check_transition
queued-registering_validated p = avoiding-ne-registering (λ e. cc) p refl
