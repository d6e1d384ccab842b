-- ===== src/Jobs/Transition.antt =====
-- orchestrator/jobs.py: loading a job, `apply_transition`, `check_fence` and `_transition`. A
-- `Work` is one session: the job row as it was loaded and changed, and the other tables; `flush`
-- writes the row. A transaction that raises returns no database, so its changes are rolled back.
use agentic_ai_model_adaptat.Prelude.{
  ℕ, Bool, not, ◌&&◌, Option, none, some, [], ◌∷◌, ◌++◌, opt_eq, is_some, or_keep, if◌then◌else◌,
}
use agentic_ai_model_adaptat.Status.{
  JobStatus, queued, registering, promoting, status_eq, status_mem, is_terminal, check_transition,
}
use agentic_ai_model_adaptat.Jobs.Rows.{
  Job, Db, ErrorDoc, Result, ok, err, ◌>>=◌, ◌>>◌, job_not_found, invalid_transition,
  job_lease_lost, job_cancelled,
}
use agentic_ai_model_adaptat.Jobs.Tables.{find, put}

pub record Work : Type 0 where
  pub job : Job
  pub db : Db

abbrev pub load_job : ℕ → Db → Result Work
load_job i db = elim (find i db.jobs) [
  | none ↦ err job_not_found
  | some j ↦ ok (record { job = j; db = db })
]

-- The flush of the session's row.
abbrev pub flush : Work → Db
flush w = let d = w.db in record d { jobs = put w.job d.jobs }

-- `_REGISTRY_STAGES`, `in_registry_stage`
abbrev pub in_registry_stage : JobStatus → Bool
in_registry_stage s = status_mem s (registering ∷ promoting ∷ [])

-- The keyword arguments of `apply_transition` that change the row.
pub record Changes : Type 0 where
  pub error : Option ErrorDoc
  pub result : Option ℕ
  pub strategy : Option ℕ

abbrev pub no_changes : Changes
no_changes = record { error = none; result = none; strategy = none }

abbrev pub with_error : ErrorDoc → Changes
with_error e = record { error = some e; result = none; strategy = none }

-- The session with the transition recorded: row, history and outbox.
abbrev pub moved : JobStatus → Changes → Work → Work
moved to c w =
    let j = w.job in
    let d = w.db in
    record {
      job = record j {
        status = to;
        error = or_keep c.error j.error;
        result = or_keep c.result j.result;
        strategy = or_keep c.strategy j.strategy;
      };
      db = record d {
        history =
            d.history
            ++ record { job_id = j.job_id; from_status = some j.status; to_status = to } ∷ [];
        outbox =
            d.outbox
            ++ record {
              subject = j.job_id;
              model_id = j.model_id;
              from_status = some j.status;
              to_status = to;
            }
              ∷ [];
      };
    }

unfoldable pub apply_transition : JobStatus → Changes → Work → Result Work
apply_transition to c w =
    if check_transition w.job.status to then ok (moved to c w) else err invalid_transition

unfoldable pub check_fence : Job → Option ℕ → JobStatus → Result (Unit {0})
check_fence j none to = ok tt
check_fence j (some fence) to =
    if not (opt_eq j.lease_token fence)
    then err job_lease_lost
    else if is_some j.cancel_requested_at
        && not (is_terminal to)
        && not (status_eq to queued)
        && not (in_registry_stage j.status)
    then err job_cancelled
    else ok tt

-- `_transition`: one committed state change.
unfoldable pub transition : ℕ → JobStatus → Changes → Option ℕ → Db → Result Db
unfolding apply_transition check_fence
transition job_id to c fence db = do
  w ← load_job job_id db
  check_fence w.job fence to
  w' ← apply_transition to c w
  ok (flush w')
