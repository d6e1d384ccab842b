-- ===== src/Jobs/Rows.antt =====
-- The rows of db/models.py that the job queue reads and writes, and the settings that it reads.
-- Ids, names and hashes are only compared, so they are numbers (the empty text is 0). Times and
-- durations are whole ticks of one clock.
use agentic_ai_model_adaptat.Prelude.{ℕ, ◌≡◌, refl, Bool, Option, List}
use agentic_ai_model_adaptat.Status.{JobStatus}

pub data ErrorCode : Type 0 where
  abandoned quarantined timeout cancelled_on_request internal_error : ErrorCode
  -- The code of any other AdaptationError.
  adaptation : ℕ → ErrorCode

-- The `error` document of a job: its code, and what its context says of the stage.
pub record ErrorDoc : Type 0 where
  pub code : ErrorCode
  pub last_stage : Option JobStatus
  pub needs_reconciliation : Bool

-- `AdaptationJob`. `result` and `strategy` name the recorded documents.
pub record Job : Type 0 where
  pub job_id : ℕ
  pub idempotency_key : ℕ
  pub model_id : ℕ
  pub status : JobStatus
  pub strategy : Option ℕ
  pub result : Option ℕ
  pub error : Option ErrorDoc
  pub created_at : ℕ
  pub tenant : ℕ
  pub worker_class : ℕ
  pub priority : ℕ
  pub attempt : ℕ
  pub available_at : Option ℕ
  pub deadline_at : Option ℕ
  pub lease_owner : Option ℕ
  pub lease_token : Option ℕ
  pub lease_expires_at : Option ℕ
  pub cancel_requested_at : Option ℕ
  pub cancel_requested_by : Option ℕ
  pub lost_count : ℕ
  pub quarantined : Bool
  pub published_at : Option ℕ

-- `ModelLock`, keyed by its model.
pub record ModelLock : Type 0 where
  pub model_id : ℕ
  pub job_id : ℕ
  pub acquired_at : ℕ
  pub expires_at : ℕ

-- `JobSlot`, keyed by tenant and slot.
pub record JobSlot : Type 0 where
  pub tenant : ℕ
  pub slot : ℕ
  pub job_id : ℕ
  pub expires_at : ℕ

-- `AdaptationEvent`: one recorded transition.
pub record AdaptationEvent : Type 0 where
  pub job_id : ℕ
  pub from_status : Option JobStatus
  pub to_status : JobStatus

-- What `record_job_transition` stages in the outbox: the event `job.<to_status>`.
pub record OutboxEvent : Type 0 where
  pub subject : ℕ
  pub model_id : ℕ
  pub from_status : Option JobStatus
  pub to_status : JobStatus

pub data AuditAction : Type 0 where
  drift_received : AuditAction
  job_cancel_requested : (immediate : Bool) → AuditAction

pub record AuditRow : Type 0 where
  pub action : AuditAction
  pub actor : ℕ
  pub job_id : ℕ
  pub model_id : ℕ

-- The tables. `frameworks` is the framework column of ModelMetadata, by model.
pub record Db : Type 0 where
  pub jobs : List Job
  pub locks : List ModelLock
  pub slots : List JobSlot
  pub history : List AdaptationEvent
  pub outbox : List OutboxEvent
  pub audit : List AuditRow
  pub frameworks : List (ℕ × ℕ)

-- The fields of core.config.Settings that the job queue reads.
pub record Settings : Type 0 where
  pub job_max_retries : ℕ
  pub job_retry_backoff_s : ℕ
  pub job_timeout_s : ℕ
  pub job_lease_ttl_s : ℕ
  pub job_republish_after_s : ℕ
  pub job_poison_threshold : ℕ
  pub job_deadline_s : Option ℕ
  pub job_default_class : ℕ
  pub job_class_by_framework : List (ℕ × ℕ)
  pub job_priority_by_severity : List (ℕ × ℕ)
  pub job_default_priority : ℕ
  pub job_claim_candidates : ℕ
  pub job_tenant_by_principal : List (ℕ × ℕ)
  pub job_default_tenant : ℕ
  pub job_tenant_concurrency : ℕ
  pub job_tenant_limits : List (ℕ × ℕ)
  pub model_lock_ttl_s : ℕ

-- The exceptions that the job operations raise.
pub data JobError : Type 0 where
  job_not_found invalid_transition job_lease_lost job_cancelled : JobError
  job_not_cancellable : JobError
  model_busy : (running_job_id : Option ℕ) → JobError

pub data Result {ℓ} (T : Type ℓ) : Type ℓ where
  ok : (value : T) → Result T
  err : (raised : JobError) → Result T

-- A statement after another that may raise.
infixl 5 ◌>>=◌
abbrev pub ◌>>=◌ {ℓ ℓ'} : {T : Type ℓ} {U : Type ℓ'} → Result T → (T → Result U) → Result U
(ok value) >>= rest = rest value
(err raised) >>= rest = err raised

-- A chain that returns has returned at each of its steps.
pub >>=-eq-ok {ℓ ℓ'} :
    {T : Type ℓ} {U : Type ℓ'} (m : Result T) (rest : T → Result U) {u : U}
    → (m >>= rest) ≡ ok u
    → (v : T) × (m ≡ ok v) × (rest v ≡ ok u)
>>=-eq-ok (ok value) rest h = (value, refl, h)
>>=-eq-ok (err raised) rest h = cc

-- `if not b: raise e`
abbrev pub require : Bool → JobError → Result (Unit {0})
require b e = elim b [ Bool.true ↦ ok tt | Bool.false ↦ err e ]

infixl 5 ◌>>◌
abbrev pub ◌>>◌ {ℓ'} : {U : Type ℓ'} → Result (Unit {0}) → Result U → Result U
check >> rest = check >>= λ _. rest
