-- ===== src/Worker/Fence.antt =====
-- About the lease token (orchestrator/worker.py) and the model lock in single operations.
use mathlib.Core.Path.{subst}
use agentic_ai_model_adaptat.Prelude.{
  ℕ, ◌≡◌, refl, ◌≢◌, inl, inr, Bool, true, false, none, some, arith, Option-cases, opt_eq,
}
use agentic_ai_model_adaptat.Status.{is_terminal}
use agentic_ai_model_adaptat.Jobs.Rows.{Job, Db, Settings, ok}
use agentic_ai_model_adaptat.Jobs.Tables.{find}
use agentic_ai_model_adaptat.Jobs.Locks.{
  holder, release_lock, take_over_expired_lock, holder-release_lock_ne, holder-take_over,
}
use agentic_ai_model_adaptat.Jobs.Sound.{IsSound}
use agentic_ai_model_adaptat.Worker.Claim.{Claim}
use agentic_ai_model_adaptat.Worker.Late.{on_abandoned, rollout_lock}
use agentic_ai_model_adaptat.Worker.Attempt.{
  Attempt, returned, raised, lease_lost, timed_out_attempt, cancelled_attempt, drained, worker_lost,
  registry_unavailable, database_unavailable, other, finish_attempt,
}

module _ (c : Claim) (db : Db) (j : Job) (found : find c.job_id db.jobs ≡ some j)
    (stale : opt_eq j.lease_token c.lease_token ≡ false) where
  -- A worker whose token is no longer the job's lease token records no outcome: whatever its
  -- attempt came to, the database stays as it is.
  pub stale-finish_attempt :
      (s : Settings) (now : ℕ) (in_process : Bool) (a : Attempt)
      → finish_attempt s now in_process c a db ≡ ok (false, db)
  unfolding finish_attempt
  stale-finish_attempt s now in_process (returned r) = ground arith
  stale-finish_attempt s now in_process (raised lease_lost) = refl
  stale-finish_attempt s now in_process (raised timed_out_attempt) = ground arith
  stale-finish_attempt s now in_process (raised cancelled_attempt) = ground arith
  stale-finish_attempt s now in_process (raised drained) = ground arith
  stale-finish_attempt s now in_process (raised worker_lost) = ground arith
  stale-finish_attempt s now in_process (raised registry_unavailable) = ground arith
  stale-finish_attempt s now in_process (raised database_unavailable) = ground arith
  stale-finish_attempt s now in_process (raised (other code)) = ground arith

-- When the thread of an abandoned attempt ends while its job has not ended (it was requeued, or
-- runs elsewhere), `_on_abandoned` leaves the tables out of order: the job no longer holds the lock
-- of its model.
pub on_abandoned-unsound :
    (c : Claim) (db : Db) (j : Job)
    → find c.job_id db.jobs ≡ some j
    → j.model_id ≡ c.model_id
    → is_terminal j.status ≡ false
    → ¬ (IsSound (on_abandoned true c db))
unfolding on_abandoned
on_abandoned-unsound c db j found model live s =
    holder-release_lock_ne c.model_id c.job_id db.locks (
      subst (λ m. holder m (release_lock c.model_id c.job_id db.locks) ≡ some c.job_id) model
        (s.locked c.job_id j found live))

-- A rollout takes an expired model lock without asking whether its holder has ended: from a job
-- that waits in the queue it takes the lock away.
pub rollout_lock-unsound :
    (now ttl i rollout : ℕ) (db : Db) (j : Job)
    → find i db.jobs ≡ some j
    → is_terminal j.status ≡ false
    → i ≢ rollout
    → take_over_expired_lock j.model_id rollout now ttl db.locks ≢ none
    → ((rollout_lock now ttl j.model_id rollout db).0 ≡ true)
      × ¬ (IsSound (rollout_lock now ttl j.model_id rollout db).1)
unfolding rollout_lock
rollout_lock-unsound now ttl i rollout db j found live ne expired =
    elim (Option-cases (take_over_expired_lock j.model_id rollout now ttl db.locks)) [
      | inl kept ↦ absurd (expired kept)
      | inr (ls, taken) ↦
          let now_held =
            holder-take_over j.model_id j.model_id rollout now ttl db.locks {ls' = ls} taken in
          (
            rw (taken, rollout_lock) refl,
            rw (taken, rollout_lock)
                (λ s. absurd (ne (ground (arith, s.locked i j found live, now_held)))),
          )
    ]
