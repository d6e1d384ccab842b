-- ===== src/Worker/Attempt.antt =====
-- orchestrator/worker.py: how an attempt ends: `_end_attempt`, `requeue`, `lose`, `_record`,
-- `_record_failure` and `_requeue_or_end`. A write that the fence or the state machine refuses
-- leaves the database as it was, as its rolled-back session does.
use agentic_ai_model_adaptat.Prelude.{
  ℕ, ◌+◌, ◌-◌, ◌*◌, ◌^◌, Bool, true, false, not, ◌&&◌, Option, none, some, ◌==◌, leb, opt_eq,
  if◌then◌else◌, select,
}
use agentic_ai_model_adaptat.Status.{
  JobStatus, queued, failed, timed_out, cancelled, completed, rolled_back,
}
use agentic_ai_model_adaptat.Jobs.Rows.{
  Job, Db, Settings, ErrorDoc, ErrorCode, abandoned, quarantined, timeout, internal_error, Result,
  ok, err, ◌>>=◌, ◌>>◌, job_lease_lost, invalid_transition,
}
use agentic_ai_model_adaptat.Jobs.Locks.{release_lock}
use agentic_ai_model_adaptat.Jobs.Cancel.{cancelled_error}
use agentic_ai_model_adaptat.Jobs.Transition.{
  Work, load_job, flush, in_registry_stage, Changes, with_error, no_changes, apply_transition,
  check_fence,
}
use agentic_ai_model_adaptat.Worker.Claim.{Claim}

abbrev pub clear_lease : Job → Job
clear_lease j = record j { lease_token = none; lease_expires_at = none }

-- `_end_attempt`
unfoldable pub end_attempt : Claim → (release_model_lock : Bool) → Work → Work
end_attempt c release w =
    let d = w.db in
    let j = w.job in
    record {
      job = clear_lease j;
      db = record d {
        slots =
            select
              (λ t. not ((t.tenant == c.tenant && opt_eq c.slot t.slot) && t.job_id == c.job_id))
              d.slots;
        locks = if release then release_lock j.model_id j.job_id d.locks else d.locks;
      };
    }

-- `requeue`
abbrev pub requeued_work : ℕ → (delay : ℕ) → (charge lost : Bool) → Work → Work
requeued_work now delay charge lost w =
    let j = w.job in
    record w {
      job = record j {
        available_at = some (now + delay);
        published_at = none;
        attempt = if charge then j.attempt else j.attempt - 1;
        lost_count = if lost then j.lost_count + 1 else j.lost_count;
      };
    }

unfoldable pub requeue : ℕ → (delay : ℕ) → (charge lost : Bool) → Work → Result Work
unfolding apply_transition
requeue now delay charge lost w = do
  w' ← apply_transition queued no_changes w
  ok (requeued_work now delay charge lost w')

-- The error documents of `lose`, and the row that it quarantines.
abbrev pub lost_error : JobStatus → ErrorDoc
lost_error stage = record { code = abandoned; last_stage = some stage; needs_reconciliation = true }

abbrev pub quarantine_error : JobStatus → ErrorDoc
quarantine_error stage = record {
  code = quarantined;
  last_stage = some stage;
  needs_reconciliation = false;
}

abbrev pub quarantine_row : Job → Job
quarantine_row j = record j { lost_count = j.lost_count + 1; quarantined = true }

-- An error with no context of its own.
abbrev pub plain_error : ErrorCode → ErrorDoc
plain_error code = record { code = code; last_stage = none; needs_reconciliation = false }

-- `lose`: whether the job ended.
unfoldable pub lose : Settings → ℕ → Work → Result (Bool × Work)
unfolding requeue
lose s now w =
    let j = w.job in
    if in_registry_stage j.status
    then (do w' ← apply_transition failed (with_error (lost_error j.status)) w; ok (true, w'))
    else if leb s.job_poison_threshold (j.lost_count + 1)
    then (do
      w' ←
          apply_transition failed (with_error (quarantine_error j.status))
            (record w { job = quarantine_row j })
      ok (true, w'))
    else (do
      w' ← requeue now (s.job_retry_backoff_s * 2 ^ j.lost_count) true true w
      ok (false, w'))

-- `_record`: whether the outcome was recorded, and the database.
abbrev pub settle : Db → Result Db → Result (Bool × Db)
settle db (ok db') = ok (true, db')
settle db (err job_lease_lost) = ok (false, db)
settle db (err invalid_transition) = ok (false, db)
settle db (err e) = err e

unfoldable pub write_outcome : Claim → JobStatus → Changes → Bool → Db → Result Db
unfolding apply_transition check_fence end_attempt
write_outcome c to changes release db = do
  w ← load_job c.job_id db
  check_fence w.job (some c.lease_token) to
  w' ← apply_transition to changes w
  ok (flush (end_attempt c release w'))

unfoldable pub record_outcome : Claim → JobStatus → Changes → Bool → Db → Result (Bool × Db)
unfolding write_outcome
record_outcome c to changes release db = settle db (write_outcome c to changes release db)

-- What an attempt raised.
pub data Failure : Type 0 where
  lease_lost timed_out_attempt cancelled_attempt drained worker_lost : Failure
  registry_unavailable database_unavailable : Failure
  -- Any other exception, with the code that is recorded.
  other : ErrorCode → Failure

-- The codes of the two transient errors.
abbrev pub transient_code : Failure → ErrorCode
transient_code registry_unavailable = ErrorCode.adaptation 1
transient_code database_unavailable = ErrorCode.adaptation 2
transient_code _ = internal_error

-- A transient failure: another try after its backoff while tries remain, else FAILED.
unfoldable pub retry_or_fail : Settings → ℕ → ErrorCode → Work → Result (Bool × Work)
unfolding requeue apply_transition
retry_or_fail s now code w =
    let tries = w.job.attempt - w.job.lost_count in
    if leb tries s.job_max_retries
    then (do
      w' ← requeue now (s.job_retry_backoff_s * 2 ^ (tries - 1)) true false w
      ok (false, w'))
    else (do
      w' ←
          apply_transition failed
            (with_error (record { code = code; last_stage = none; needs_reconciliation = false })) w
      ok (true, w'))

-- The choice inside `_requeue_or_end`, by what was raised: whether the job ended.
unfoldable pub give_back : Settings → ℕ → Failure → Work → Result (Bool × Work)
unfolding requeue lose retry_or_fail
give_back s now drained w = requeue now 0 false false w >>= λ w'. ok (false, w')
give_back s now worker_lost w = lose s now w
give_back s now f w = retry_or_fail s now (transient_code f) w

unfoldable pub write_give_back : Settings → ℕ → Claim → Failure → Db → Result Db
unfolding check_fence give_back end_attempt
write_give_back s now c f db = do
  w ← load_job c.job_id db
  check_fence w.job (some c.lease_token) queued
  ended ← give_back s now f w
  ok (flush (end_attempt c ended.0 ended.1))

-- `_requeue_or_end`
unfoldable pub requeue_or_end : Settings → ℕ → Claim → Failure → Db → Result (Bool × Db)
unfolding write_give_back
requeue_or_end s now c f db = settle db (write_give_back s now c f db)

-- `timeout_error`
abbrev pub timeout_error : JobStatus → ErrorDoc
timeout_error stage = record {
  code = timeout;
  last_stage = some stage;
  needs_reconciliation = in_registry_stage stage;
}

-- `_record_failure`
unfoldable pub record_failure : Settings → ℕ → Claim → Failure → Bool → Db → Result (Bool × Db)
unfolding record_outcome requeue_or_end
record_failure s now c lease_lost release db = ok (false, db)
record_failure s now c timed_out_attempt release db = do
  w ← load_job c.job_id db
  record_outcome c timed_out (with_error (timeout_error w.job.status)) release db
record_failure s now c cancelled_attempt release db =
    record_outcome c cancelled (with_error (cancelled_error none)) release db
record_failure s now c (other code) release db =
    record_outcome c failed (with_error (plain_error code)) release db
record_failure s now c f release db = requeue_or_end s now c f db

-- What the pipeline returned.
pub record JobResult : Type 0 where
  pub document : ℕ
  pub rolled_back : Bool
  pub strategy : Option ℕ

-- The recording half of `_run_claim`, given what the executor made of the attempt. A stopped
-- attempt in thread mode (`in_process`) keeps the model lock.
pub data Attempt : Type 0 where
  returned : JobResult → Attempt
  raised : Failure → Attempt

abbrev pub is_stopped : Failure → Bool
is_stopped lease_lost = true
is_stopped timed_out_attempt = true
is_stopped cancelled_attempt = true
is_stopped drained = true
is_stopped _ = false

unfoldable pub finish_attempt :
    Settings → ℕ → (in_process : Bool) → Claim → Attempt → Db → Result (Bool × Db)
unfolding record_failure record_outcome
finish_attempt s now in_process c (returned r) db =
    record_outcome c (if r.rolled_back then rolled_back else completed)
      (record { error = none; result = some r.document; strategy = r.strategy }) true db
finish_attempt s now in_process c (raised f) db =
    record_failure s now c f (not (in_process && is_stopped f)) db
