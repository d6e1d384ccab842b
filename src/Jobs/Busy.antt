-- ===== src/Jobs/Busy.antt =====
-- About orchestrator/jobs.py `_submit`: an event for a model whose job is still active.
use agentic_ai_model_adaptat.Prelude.{ℕ, ◌≡◌, inl, inr, true, none, some, arith, Option-cases}
use agentic_ai_model_adaptat.Jobs.Rows.{Job, Db, Settings, err, model_busy}
use agentic_ai_model_adaptat.Jobs.Tables.{find, find_key, insert, find-insert_old}
use agentic_ai_model_adaptat.Jobs.Locks.{holder}
use agentic_ai_model_adaptat.Jobs.Submit.{
  DriftEvent, new_job, holder_is_active, lock_model, insert_job, submit,
}

-- The inserted row changes nothing about a holder that is active.
holder_is_active-insert :
    (now h : ℕ) (j : Job) (db : Db)
    → holder_is_active now db (some h) ≡ true
    → holder_is_active now (record db { jobs = insert j db.jobs }) (some h) ≡ true
unfolding holder_is_active
holder_is_active-insert now h j db e = elim (Option-cases (find h db.jobs)) [
  | inl missing ↦ let no = rw (missing, holder_is_active) at e in cc
  | inr (a, found) ↦
      let kept = find-insert_old h j db.jobs found in
      rw (kept, holder_is_active) (rw (found, holder_is_active) at e)
]

-- A new event for a model whose lock is held by a job that is queued, or that a worker renews, is
-- refused, naming that job, and nothing is recorded, even if the lock has expired.
pub submit-busy :
    (s : Settings) (now actor job_id h : ℕ) (ev : DriftEvent) (seen db : Db)
    → find_key ev.idempotency_key seen.jobs ≡ none
    → find_key ev.idempotency_key db.jobs ≡ none
    → find job_id db.jobs ≡ none
    → holder ev.model_id db.locks ≡ some h
    → holder_is_active now db (some h) ≡ true
    → submit s now actor job_id ev seen db ≡ err (model_busy (some h))
unfolding submit insert_job lock_model
submit-busy s now actor job_id h ev seen db unseen new fresh held active =
    let still = holder_is_active-insert now h (new_job s now actor job_id ev db) db active in
    ground (arith, still)
