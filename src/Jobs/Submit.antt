-- ===== src/Jobs/Submit.antt =====
-- orchestrator/jobs.py: submission (`_submit` and what it calls). The rows that a caller saw at
-- its first lookup (`seen`) may be older than the rows that its inserts meet (`db`): a lost race
-- is that difference. One call reads the clock once.
use agentic_ai_model_adaptat.Prelude.{
  ℕ, ◌+◌, Bool, true, false, not, ◌&&◌, Option, none, some, [], ◌∷◌, ◌++◌, ltb, ◌==◌, is_some,
  if◌then◌else◌, get_or, dict_get, select,
}
use agentic_ai_model_adaptat.Status.{JobStatus, received, queued, failed, is_terminal, status_eq}
use agentic_ai_model_adaptat.Jobs.Rows.{
  Job, Db, Settings, ErrorDoc, abandoned, drift_received, Result, ok, err, ◌>>=◌, model_busy,
}
use agentic_ai_model_adaptat.Jobs.Tables.{find, find_key, insert}
use agentic_ai_model_adaptat.Jobs.Locks.{holder, take_over_expired_lock, add_lock}
use agentic_ai_model_adaptat.Jobs.Transition.{
  flush, in_registry_stage, with_error, no_changes, apply_transition,
}

-- What a submission reads of a DriftEvent: `idempotency_key()` is its content's hash.
pub record DriftEvent : Type 0 where
  pub model_id : ℕ
  pub idempotency_key : ℕ
  pub severity : Option ℕ

pub record JobResponse : Type 0 where
  pub job : Job
  pub duplicate : Bool

-- `x or ""`
abbrev text_or_empty : Option ℕ → ℕ
text_or_empty none = 0
text_or_empty (some t) = t

-- The new row, with `_placement` of tenant, class, priority and deadline from the settings.
unfoldable pub new_job : Settings → ℕ → ℕ → ℕ → DriftEvent → Db → Job
new_job s now actor job_id ev db = record {
  job_id = job_id;
  idempotency_key = ev.idempotency_key;
  model_id = ev.model_id;
  status = received;
  strategy = none;
  result = none;
  error = none;
  created_at = now;
  tenant = get_or actor s.job_tenant_by_principal s.job_default_tenant;
  worker_class =
      get_or (text_or_empty (dict_get ev.model_id db.frameworks)) s.job_class_by_framework
        s.job_default_class;
  priority = get_or (text_or_empty ev.severity) s.job_priority_by_severity s.job_default_priority;
  attempt = 0;
  available_at = some now;
  deadline_at = elim s.job_deadline_s [ none ↦ none | some d ↦ some (now + d) ];
  lease_owner = none;
  lease_token = none;
  lease_expires_at = none;
  cancel_requested_at = none;
  cancel_requested_by = none;
  lost_count = 0;
  quarantined = false;
  published_at = none;
}

-- `_holder_is_active`
unfoldable pub holder_is_active : ℕ → Db → Option ℕ → Bool
holder_is_active now db none = false
holder_is_active now db (some h) = elim (find h db.jobs) [
  | none ↦ false
  | some j ↦
      if is_terminal j.status
      then false
      else if status_eq j.status queued
      then true
      else is_some j.lease_token && (elim j.lease_expires_at [ none ↦ false | some e ↦ ltb now e ])
]

-- `delete(JobSlot).where(job_id == i)`
abbrev pub drop_slots : ℕ → Db → Db
drop_slots i db = record db { slots = select (λ t. not (t.job_id == i)) db.slots }

abbrev pub abandoned_error : JobStatus → ErrorDoc
abandoned_error stage = record {
  code = abandoned;
  last_stage = some stage;
  needs_reconciliation = in_registry_stage stage;
}

-- `_fail_abandoned_job`
unfoldable pub fail_abandoned_job : ℕ → Db → Result Db
unfolding apply_transition
fail_abandoned_job old_id db = elim (find old_id db.jobs) [
  | none ↦ ok db
  | some old ↦ if is_terminal old.status then ok db else (do
    w ←
        apply_transition failed (with_error (abandoned_error old.status))
          (record { job = old; db = db })
    let j = w.job
    ok (
        drop_slots old_id
          (flush (record w { job = record j { lease_token = none; lease_expires_at = none } }))))
]

-- The lock was taken over: its former holder is failed, unless that is the new job.
unfoldable pub hand_over : Option ℕ → ℕ → Db → Result Db
unfolding fail_abandoned_job
hand_over none job_id db = ok db
hand_over (some p) job_id db = if p == job_id then ok db else fail_abandoned_job p db

-- The lock of the new job: a holder that is still active keeps it; an expired lock is taken over
-- and its job failed; else the insert of a second row fails (the IntegrityError).
unfoldable pub lock_model : Settings → ℕ → ℕ → ℕ → Db → Result Db
unfolding holder_is_active hand_over
lock_model s now m job_id db =
    if holder_is_active now db (holder m db.locks)
    then err (model_busy (holder m db.locks))
    else elim (take_over_expired_lock m job_id now s.model_lock_ttl_s db.locks) [
      | some locks' ↦ hand_over (holder m db.locks) job_id (record db { locks = locks' })
      | none ↦ elim (add_lock m job_id now s.model_lock_ttl_s db.locks) [
        | none ↦ err (model_busy (holder m db.locks))
        | some locks' ↦ ok (record db { locks = locks' })
      ]
    ]

-- The recorded arrival: history, outbox and audit.
unfoldable pub receive : ℕ → Job → Db → Db
receive actor j db = record db {
  history =
      db.history ++ record { job_id = j.job_id; from_status = none; to_status = received } ∷ [];
  outbox =
      db.outbox
      ++ record {
        subject = j.job_id;
        model_id = j.model_id;
        from_status = none;
        to_status = received;
      }
        ∷ [];
  audit =
      db.audit
      ++ record { action = drift_received; actor = actor; job_id = j.job_id; model_id = j.model_id }
        ∷ [];
}

-- The part of `_submit` behind its first lookup, up to the commit.
unfoldable pub insert_job : Settings → ℕ → ℕ → ℕ → DriftEvent → Db → Result (JobResponse × Db)
unfolding new_job lock_model receive apply_transition
insert_job s now actor job_id ev db =
    let j = new_job s now actor job_id ev db in
    elim (find_key ev.idempotency_key db.jobs) [
      | some existing ↦ ok (record { job = existing; duplicate = true }, db)
      | none ↦ elim (find job_id db.jobs) [
        | some clash ↦ err (model_busy (holder ev.model_id db.locks))
        | none ↦ (do
          locked ← lock_model s now ev.model_id job_id (record db { jobs = insert j db.jobs })
          w ← apply_transition queued no_changes (record { job = j; db = receive actor j locked })
          ok (record { job = w.job; duplicate = false }, flush w))
      ]
    ]

-- `_submit`: a call that raises leaves the database as it was.
unfoldable pub submit :
    Settings → ℕ → ℕ → ℕ → DriftEvent → (seen db : Db) → Result (JobResponse × Db)
unfolding insert_job
submit s now actor job_id ev seen db = elim (find_key ev.idempotency_key seen.jobs) [
  | some existing ↦ ok (record { job = existing; duplicate = true }, db)
  | none ↦ insert_job s now actor job_id ev db
]
