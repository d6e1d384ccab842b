-- ===== src/Worker/Reap.antt =====
-- orchestrator/worker.py: `reap`, one pass over expired leases, overdue queued jobs, unpublished
-- jobs and expired slots, and `_unpublish`. Each pass lists its rows first and checks each row
-- again in a transaction of its own.
use agentic_ai_model_adaptat.Prelude.{
  ℕ, ◌+◌, ◌-◌, Bool, true, false, not, ◌&&◌, ◌||◌, none, some, List, [], ◌∷◌, map, ltb, leb, opt_eq,
  is_none, length, if◌then◌else◌, select,
}
use agentic_ai_model_adaptat.Status.{JobStatus, queued, timed_out, is_terminal, status_eq}
use agentic_ai_model_adaptat.Jobs.Rows.{Job, Db, Settings, Result, ok, ◌>>=◌}
use agentic_ai_model_adaptat.Jobs.Tables.{find, put}
use agentic_ai_model_adaptat.Jobs.Locks.{release_lock}
use agentic_ai_model_adaptat.Jobs.Submit.{drop_slots}
use agentic_ai_model_adaptat.Jobs.Cancel.{publish}
use agentic_ai_model_adaptat.Jobs.Transition.{Work, load_job, flush, with_error, apply_transition}
use agentic_ai_model_adaptat.Worker.Claim.{sort_by_claim}
use agentic_ai_model_adaptat.Worker.Attempt.{clear_lease, lose, timeout_error}

-- `_ACTIVE`
abbrev pub is_running : JobStatus → Bool
is_running s = not (is_terminal s) && not (status_eq s queued)

abbrev pub is_expired : ℕ → Job → Bool
is_expired now j =
    (elim j.lease_expires_at [ none ↦ false | some e ↦ ltb e now ]) && is_running j.status

-- The jobs whose lease expired, with the token that each was seen under.
unfoldable pub expired_leases : ℕ → List Job → List (ℕ × ℕ)
expired_leases now [] = []
expired_leases now (j ∷ js) =
    let rest = expired_leases now js in
    elim j.lease_token [
      | none ↦ rest
      | some t ↦ if is_expired now j then (j.job_id, t) ∷ rest else rest
    ]

-- The model lock of a job that ended is released.
abbrev pub release_if : Bool → Work → Db
release_if ended w =
    let d = w.db in
    let j = w.job in
    record d { locks = if ended then release_lock j.model_id j.job_id d.locks else d.locks }

unfoldable pub reap_lease : Settings → ℕ → ℕ × ℕ → Db → Result (Bool × Db)
unfolding lose
reap_lease s now (job_id, token) db = elim (find job_id db.jobs) [
  | none ↦ ok (false, db)
  | some j ↦
      if opt_eq j.lease_token token
      then (do
        ended ← lose s now (record { job = clear_lease j; db = db })
        let w = ended.1
        ok (true, drop_slots job_id (flush (record w { db = release_if ended.0 w }))))
      else ok (false, db)
]

-- The rows of the second pass.
abbrev pub is_overdue : ℕ → Job → Bool
is_overdue now j =
    status_eq j.status queued
    && is_none j.lease_token
    && (elim j.deadline_at [ none ↦ false | some d ↦ ltb d now ])

unfoldable pub reap_overdue : ℕ → Db → Result (Bool × Db)
unfolding apply_transition
reap_overdue job_id db = do
  w ← load_job job_id db
  if not (status_eq w.job.status queued) || not (is_none w.job.lease_token)
      then ok (false, db)
      else (apply_transition timed_out (with_error (timeout_error queued)) w
          >>= (λ w'. ok (true, flush (record w' { db = release_if true w' }))))

-- The rows of the third pass.
abbrev pub is_unpublished : ℕ → ℕ → Job → Bool
is_unpublished now before j =
    status_eq j.status queued
    && is_none j.lease_token
    && not j.quarantined
    && (elim j.available_at [ none ↦ true | some t ↦ leb t now ])
    && (elim j.published_at [ none ↦ true | some t ↦ ltb t before ])

-- A pass over listed rows: how many it changed.
unfoldable pub each {ℓ} :
    {A : Type ℓ} → (A → Db → Result (Bool × Db)) → List A → ℕ → Db → Result (ℕ × Db)
each f [] n db = ok (n, db)
each f (x ∷ xs) n db = f x db >>= λ r. each f xs (if r.0 then n + 1 else n) r.1

-- The publishing pass stops at the first job that the broker does not take.
unfoldable pub publish_each : ℕ → (Job → Bool) → List ℕ → ℕ → Db → Result (ℕ × Db)
unfolding publish
publish_each now send [] n db = ok (n, db)
publish_each now send (i ∷ is) n db = publish now send i db >>= λ r. elim r.0 [
  | true ↦ publish_each now send is (n + 1) r.1
  | false ↦ ok (n, r.1)
]

abbrev pub job_ids : List Job → List ℕ
job_ids = map (λ j. j.job_id)

-- The third pass, which the inline backend does not run.
unfoldable pub publish_due :
    Settings → ℕ → (runs_inline : Bool) → (Job → Bool) → Db → Result (ℕ × Db)
unfolding publish_each sort_by_claim
publish_due s now true send db = ok (0, db)
publish_due s now false send db =
    let due = select (is_unpublished now (now - s.job_republish_after_s)) db.jobs in
    publish_each now send (job_ids (sort_by_claim due)) 0 db

pub record ReapCounts : Type 0 where
  pub lease_expired : ℕ
  pub deadline : ℕ
  pub published : ℕ
  pub slots_freed : ℕ

unfoldable pub reap :
    Settings → ℕ → (runs_inline : Bool) → (Job → Bool) → Db → Result (ReapCounts × Db)
unfolding each expired_leases reap_lease reap_overdue publish_due
reap s now runs_inline send db = do
  a ← each (reap_lease s now) (expired_leases now db.jobs) 0 db
  b ← each reap_overdue (job_ids (select (is_overdue now) a.1.jobs)) 0 a.1
  c ← publish_due s now runs_inline send b.1
  let last = c.1
  let kept = select (λ t. not (ltb t.expires_at now)) last.slots
  ok (
    record {
      lease_expired = a.0;
      deadline = b.0;
      published = c.0;
      slots_freed = length last.slots - length kept;
    },
    record last { slots = kept },
  )

-- `_unpublish`
unfoldable pub unpublish : ℕ → Db → Db
unpublish job_id db = elim (find job_id db.jobs) [
  | none ↦ db
  | some j ↦
      if status_eq j.status queued && is_none j.lease_token
      then record db { jobs = put (record j { published_at = none }) db.jobs }
      else db
]
