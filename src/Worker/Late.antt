-- ===== src/Worker/Late.antt =====
-- Two lock operations that stand outside the job's own session: `_on_abandoned` of
-- orchestrator/worker.py, which a stopped thread-mode attempt calls when its thread finishes, and
-- `_lock` of delivery/controller.py, by which a rollout takes a model's lock.
use agentic_ai_model_adaptat.Prelude.{ℕ, Bool, true, false, none, some}
use agentic_ai_model_adaptat.Jobs.Rows.{Db}
use agentic_ai_model_adaptat.Jobs.Locks.{take_over_expired_lock, add_lock, release_lock}
use agentic_ai_model_adaptat.Worker.Claim.{Claim}

-- `_release`, called by `_on_abandoned` where the attempt was stopped.
unfoldable pub on_abandoned : (abandoned : Bool) → Claim → Db → Db
on_abandoned false c db = db
on_abandoned true c db = record db { locks = release_lock c.model_id c.job_id db.locks }

-- `_lock`: whether the rollout got the lock, and the database.
unfoldable pub rollout_lock : ℕ → ℕ → ℕ → ℕ → Db → Bool × Db
rollout_lock now ttl m rollout db = elim (take_over_expired_lock m rollout now ttl db.locks) [
  | some ls ↦ (true, record db { locks = ls })
  | none ↦ elim (add_lock m rollout now ttl db.locks) [
    | some ls ↦ (true, record db { locks = ls })
    | none ↦ (false, db)
  ]
]
