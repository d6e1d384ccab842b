-- ===== src/Worker/GiveBack.antt =====
-- About `_requeue_or_end` of orchestrator/worker.py: the row of a job that has not ended.
use agentic_ai_model_adaptat.Prelude.{
  ℕ, ◌+◌, ◌-◌, ◌*◌, ◌^◌, ◌≡◌, refl, ◌≢◌, ◌⊎◌, inl, inr, Bool, true, false, Bool-cases, leb,
}
use agentic_ai_model_adaptat.Status.{JobStatus, queued, received, failed, is_terminal}
use agentic_ai_model_adaptat.Status.Paths.{Move, active-Move_ends, active-Move_queued}
use agentic_ai_model_adaptat.Jobs.Rows.{
  Job, Db, Settings, Result, ErrorCode, internal_error, ok, ◌>>=◌,
}
use agentic_ai_model_adaptat.Jobs.Transition.{
  Work, Changes, moved, apply_transition, no_changes, with_error, in_registry_stage,
}
use agentic_ai_model_adaptat.Worker.Attempt.{
  Failure, lease_lost, timed_out_attempt, cancelled_attempt, drained, worker_lost,
  registry_unavailable, database_unavailable, other, requeue, lose, retry_or_fail, give_back,
  requeued_work, lost_error, quarantine_error, quarantine_row, plain_error, transient_code,
}

-- The job rests: it has ended or waits in the queue.
abbrev pub Rests : JobStatus → Type 0
Rests s = (is_terminal s ≡ true) ⊎ (s ≡ queued)

-- A step that returns a resting row of the same job and leaves the job table alone.
abbrev pub Gives : Job → Db → Result (Bool × Work) → Type 0
Gives j db m =
    (r : Bool × Work) × (m ≡ ok r)
    × (r.1.job.job_id ≡ j.job_id)
    × (r.1.job.model_id ≡ j.model_id)
    × Rests r.1.job.status
    × (r.1.db.jobs ≡ db.jobs)

-- The moved session.
abbrev pub Moved : JobStatus → Changes → Work → Type 0
Moved to c w =
    (w' : Work) × (apply_transition to c w ≡ ok w')
    × (w'.job.job_id ≡ w.job.job_id)
    × (w'.job.model_id ≡ w.job.model_id)
    × (w'.job.status ≡ to)
    × (w'.db.jobs ≡ w.db.jobs)

pub apply_transition-Moved :
    (to : JobStatus) (c : Changes) (w : Work) → Move w.job.status to → Moved to c w
unfolding apply_transition
apply_transition-Moved to c w m =
    (moved to c w, rw (m, apply_transition) refl, refl, refl, refl, refl)

-- The two ways to give a job back.
module _ (w : Work) (live : is_terminal w.job.status ≡ false) (started : w.job.status ≢ received)
    (running : w.job.status ≢ queued) where
  failed-Gives :
      (c : Changes) → Gives w.job w.db (apply_transition failed c w >>= (λ w'. ok (true, w')))
  failed-Gives c =
      let m = apply_transition-Moved failed c w (active-Move_ends w.job.status live).0 in
      ((true, m.0), rw (m.1), m.2, m.3, inl (rw (m.4) refl), m.5)

  requeued-Gives :
      (delay : ℕ) (charge lost : Bool) (now : ℕ)
      → Gives w.job w.db (requeue now delay charge lost w >>= (λ w'. ok (false, w')))
  unfolding requeue
  requeued-Gives delay charge lost now =
      let back = active-Move_queued w.job.status live started running in
      let m = apply_transition-Moved queued no_changes w back in
      ((false, requeued_work now delay charge lost (m.0)), rw (m.1) refl, m.2, m.3, inr (m.4), m.5)

-- `give_back` on a job that has not ended.
module _ (s : Settings) (now : ℕ) (w : Work) (live : is_terminal w.job.status ≡ false)
    (started : w.job.status ≢ received) (running : w.job.status ≢ queued) where
  lose-Gives : Gives w.job w.db (lose s now w)
  unfolding lose
  lose-Gives = elim (Bool-cases (in_registry_stage w.job.status)) [
    | inl e ↦ rw e (failed-Gives w live started running (with_error (lost_error w.job.status)))
    | inr e ↦ elim (Bool-cases (leb s.job_poison_threshold (w.job.lost_count + 1))) [
      | inl p ↦
          rw (e, p)
            (failed-Gives (record w { job = quarantine_row w.job }) live started running
              (with_error (quarantine_error w.job.status)))
      | inr p ↦
          rw (e, p)
            (requeued-Gives w live started running (s.job_retry_backoff_s * 2 ^ w.job.lost_count)
              true true now)
    ]
  ]

  retry_or_fail-Gives : (code : ErrorCode) → Gives w.job w.db (retry_or_fail s now code w)
  unfolding retry_or_fail
  retry_or_fail-Gives code =
      let tries = w.job.attempt - w.job.lost_count in
      elim (Bool-cases (leb tries s.job_max_retries)) [
        | inl p ↦ rw p (
            requeued-Gives w live started running (s.job_retry_backoff_s * 2 ^ (tries - 1)) true
              false now)
        | inr p ↦ rw p (failed-Gives w live started running (with_error (plain_error code)))
      ]

  pub give_back-Gives : (f : Failure) → Gives w.job w.db (give_back s now f w)
  unfolding give_back
  give_back-Gives drained = requeued-Gives w live started running 0 false false now
  give_back-Gives worker_lost = lose-Gives
  give_back-Gives lease_lost = retry_or_fail-Gives internal_error
  give_back-Gives timed_out_attempt = retry_or_fail-Gives internal_error
  give_back-Gives cancelled_attempt = retry_or_fail-Gives internal_error
  give_back-Gives registry_unavailable = retry_or_fail-Gives (transient_code registry_unavailable)
  give_back-Gives database_unavailable = retry_or_fail-Gives (transient_code database_unavailable)
  give_back-Gives (other code) = retry_or_fail-Gives internal_error
