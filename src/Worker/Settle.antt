-- ===== src/Worker/Settle.antt =====
-- About `_record_failure` of orchestrator/worker.py: the job after a failed attempt.
use mathlib.Core.Path.{subst}
use agentic_ai_model_adaptat.Prelude.{
  ℕ, ◌≡◌, refl, ◌∙◌, ◌≢◌, inl, Bool, true, false, not, ◌&&◌, none, some, arith, opt_eq,
}
use agentic_ai_model_adaptat.Status.{
  JobStatus, queued, received, failed, timed_out, cancelled, is_terminal,
}
use agentic_ai_model_adaptat.Status.Paths.{Move, active-Move_ends, active-Move_queued}
use agentic_ai_model_adaptat.Jobs.Rows.{Job, Db, Settings, ok}
use agentic_ai_model_adaptat.Jobs.Tables.{find, put, find-put_self, find-id}
use agentic_ai_model_adaptat.Jobs.Transition.{
  Work, Changes, flush, check_fence, no_changes, with_error,
}
use agentic_ai_model_adaptat.Jobs.Cancel.{cancelled_error}
use agentic_ai_model_adaptat.Jobs.Sound.{IsSound}
use agentic_ai_model_adaptat.Worker.Claim.{Claim}
use agentic_ai_model_adaptat.Worker.Late.{on_abandoned}
use agentic_ai_model_adaptat.Worker.Fence.{on_abandoned-unsound}
use agentic_ai_model_adaptat.Worker.Attempt.{
  raised, Failure, lease_lost, timed_out_attempt, cancelled_attempt, drained, worker_lost,
  registry_unavailable, database_unavailable, other, requeue, clear_lease, requeued_work,
  plain_error, timeout_error, end_attempt, finish_attempt, record_failure, record_outcome,
  requeue_or_end, write_outcome, write_give_back,
}
use agentic_ai_model_adaptat.Worker.GiveBack.{Rests, apply_transition-Moved, give_back-Gives}

-- The lease is over and the job rests.
abbrev pub Settled : ℕ → Db → Type 0
Settled i d = (j : Job) × (find i d.jobs ≡ some j) × (j.lease_token ≡ none) × Rests j.status

-- The row that the end of an attempt writes.
end_attempt-find :
    (c : Claim) (release : Bool) (db : Db) (j : Job) (w : Work)
    → find c.job_id db.jobs ≡ some j
    → w.job.job_id ≡ j.job_id
    → w.db.jobs ≡ db.jobs
    → find c.job_id (flush (end_attempt c release w)).jobs ≡ some (clear_lease w.job)
unfolding end_attempt
end_attempt-find c release db j w found same kept =
    let key = same ∙ find-id c.job_id db.jobs {j = j} found in
    let there : find (clear_lease w.job).job_id w.db.jobs ≡ some j = rw (key, kept) found in
    subst (λ x. find x (put (clear_lease w.job) w.db.jobs) ≡ some (clear_lease w.job)) key
      (find-put_self (clear_lease w.job) w.db.jobs {old = j} there)

end_attempt-Settled :
    (c : Claim) (release : Bool) (db : Db) (j : Job) (w : Work)
    → find c.job_id db.jobs ≡ some j
    → w.job.job_id ≡ j.job_id
    → Rests w.job.status
    → w.db.jobs ≡ db.jobs
    → Settled c.job_id (flush (end_attempt c release w))
end_attempt-Settled c release db j w found same rests kept =
    (clear_lease w.job, end_attempt-find c release db j w found same kept, refl, rests)

module _ (c : Claim) (db : Db) (j : Job) (found : find c.job_id db.jobs ≡ some j)
    (mine : opt_eq j.lease_token c.lease_token ≡ true) (live : is_terminal j.status ≡ false) where
  record_outcome-settles :
      (to : JobStatus) (ch : Changes) (release : Bool)
      → is_terminal to ≡ true
      → Move j.status to
      → (d : Db) × (record_outcome c to ch release db ≡ ok (true, d)) × Settled c.job_id d
  unfolding record_outcome write_outcome check_fence
  record_outcome-settles to ch release ends m =
      let w : Work = record { job = j; db = db } in
      let r = apply_transition-Moved to ch w m in
      (
        flush (end_attempt c release (r.0)),
        ground (arith, r.1),
        end_attempt-Settled c release db j (r.0) found (r.2) (inl (rw (r.4) ends)) (r.5),
      )

  requeue_or_end-settles :
      (s : Settings) (now : ℕ) (f : Failure)
      → j.status ≢ received
      → j.status ≢ queued
      → (d : Db) × (requeue_or_end s now c f db ≡ ok (true, d)) × Settled c.job_id d
  unfolding requeue_or_end write_give_back check_fence
  requeue_or_end-settles s now f started running =
      let w : Work = record { job = j; db = db } in
      let r = give_back-Gives s now w live started running f in
      (
        flush (end_attempt c (r.0.0) (r.0.1)),
        ground (arith, r.1),
        end_attempt-Settled c (r.0.0) db j (r.0.1) found (r.2) (r.4) (r.5),
      )

  -- A failed attempt never leaves its job running: for a worker that holds the lease of a job that is
  -- running (neither ended nor RECEIVED nor QUEUED), and any failure but a lost lease, the outcome
  -- is recorded; the job's lease is cleared, and the job has ended or waits in the queue.
  pub failure-settles :
      (s : Settings) (now : ℕ) (in_process : Bool) (f : Failure)
      → j.status ≢ received
      → j.status ≢ queued
      → f ≢ lease_lost
      → (d : Db) × (finish_attempt s now in_process c (raised f) db ≡ ok (true, d))
        × Settled c.job_id d
  unfolding finish_attempt record_failure
  failure-settles s now in_process lease_lost started running held = absurd (held refl)
  failure-settles s now in_process timed_out_attempt started running held =
      let r =
        record_outcome-settles timed_out (with_error (timeout_error j.status))
          (not (in_process && true)) refl ((active-Move_ends j.status live).1) in
      (r.0, ground (arith, r.1), r.2)
  failure-settles s now in_process cancelled_attempt started running held =
      record_outcome-settles cancelled (with_error (cancelled_error none))
        (not (in_process && true)) refl ((active-Move_ends j.status live).2)
  failure-settles s now in_process (other code) started running held =
      record_outcome-settles failed (with_error (plain_error code)) (not (in_process && false)) refl
        ((active-Move_ends j.status live).0)
  failure-settles s now in_process drained started running held =
      requeue_or_end-settles s now drained started running
  failure-settles s now in_process worker_lost started running held =
      requeue_or_end-settles s now worker_lost started running
  failure-settles s now in_process registry_unavailable started running held =
      requeue_or_end-settles s now registry_unavailable started running
  failure-settles s now in_process database_unavailable started running held =
      requeue_or_end-settles s now database_unavailable started running

  -- A drained attempt in thread mode, of a running job whose lease its worker holds: the worker
  -- requeues the job and keeps its model lock; when the attempt's thread then ends, `_on_abandoned`
  -- leaves the tables out of order: the waiting job no longer holds the lock of its model.
  pub on_abandoned-drained :
      (s : Settings) (now : ℕ)
      → j.status ≢ received
      → j.status ≢ queued
      → j.model_id ≡ c.model_id
      → (d : Db) × (finish_attempt s now true c (raised drained) db ≡ ok (true, d))
        × ¬ (IsSound (on_abandoned true c d))
  unfolding finish_attempt requeue write_give_back check_fence
  on_abandoned-drained s now started running model =
      let w : Work = record { job = j; db = db } in
      let back = active-Move_queued j.status live started running in
      let m = apply_transition-Moved queued no_changes w back in
      let again = requeued_work now 0 false false (m.0) in
      let d = flush (end_attempt c false again) in
      let there = end_attempt-find c false db j again found (m.2) (m.5) in
      let waits : is_terminal (m.0.job.status) ≡ false = rw (m.4) refl in
      (
        d,
        ground (arith, m.1),
        on_abandoned-unsound c d (clear_lease again.job) there (m.3 ∙ model) waits,
      )
