-- ===== src/Jobs/Cancel.antt =====
-- orchestrator/jobs.py: `request_cancel` and `publish`.
use agentic_ai_model_adaptat.Prelude.{
  ℕ, Bool, true, false, not, ◌&&◌, ◌||◌, Option, none, some, [], ◌∷◌, ◌++◌, is_none, if◌then◌else◌,
}
use agentic_ai_model_adaptat.Status.{JobStatus, queued, cancelled, is_terminal, status_eq}
use agentic_ai_model_adaptat.Jobs.Rows.{
  Job, Db, ErrorDoc, cancelled_on_request, job_cancel_requested, Result, ok, ◌>>=◌, ◌>>◌, require,
  job_not_cancellable,
}
use agentic_ai_model_adaptat.Jobs.Locks.{release_lock}
use agentic_ai_model_adaptat.Jobs.Submit.{drop_slots}
use agentic_ai_model_adaptat.Jobs.Transition.{
  Work, load_job, flush, in_registry_stage, with_error, apply_transition,
}

abbrev pub cancelled_error : Option JobStatus → ErrorDoc
cancelled_error stage = record {
  code = cancelled_on_request;
  last_stage = stage;
  needs_reconciliation = false;
}

-- The row with its first cancel request recorded.
abbrev pub mark_cancel : ℕ → ℕ → Job → Job
mark_cancel now actor j =
    if is_none j.cancel_requested_at
    then record j { cancel_requested_at = some now; cancel_requested_by = some actor }
    else j

abbrev pub audit_cancel : ℕ → Bool → Job → Db → Db
audit_cancel actor immediate j db = record db {
  audit =
      db.audit
      ++ record {
        action = job_cancel_requested immediate;
        actor = actor;
        job_id = j.job_id;
        model_id = j.model_id;
      }
        ∷ [];
}

-- The job ends here: it gives its model's lock and its slot back.
abbrev pub unlock_work : Work → Work
unlock_work w =
    let d = w.db in
    let i = w.job.job_id in
    let unlocked = record d { locks = release_lock w.job.model_id i d.locks } in
    record w { db = drop_slots i unlocked }

abbrev pub is_immediate : Work → Bool
is_immediate w = status_eq w.job.status queued && is_none w.job.lease_token

-- A queued job that no worker holds ends at once.
unfoldable pub cancel_step : Work → Result Work
unfolding apply_transition
cancel_step w =
    if is_immediate w
    then (apply_transition cancelled (with_error (cancelled_error none)) w
        >>= (λ w'. ok (unlock_work w')))
    else ok w

unfoldable pub request_cancel : ℕ → ℕ → ℕ → Db → Result (Job × Bool × Db)
unfolding cancel_step
request_cancel now actor job_id db = do
  w ← load_job job_id db
  require (not (is_terminal w.job.status || in_registry_stage w.job.status)) job_not_cancellable
  let marked = record w { job = mark_cancel now actor w.job }
  ended ← cancel_step marked
  ok (
    ended.job,
    is_immediate w,
    flush (record ended { db = audit_cancel actor (is_immediate w) ended.job ended.db }),
  )

-- `publish`, where `send` is the broker: whether it took the job's message.
unfoldable pub publish : ℕ → (send : Job → Bool) → ℕ → Db → Result (Bool × Db)
publish now send job_id db = do
  w ← load_job job_id db
  let j = w.job
  if status_eq j.status queued && send j
      then ok (true, flush (record w { job = record j { published_at = some now } }))
      else ok (false, db)
