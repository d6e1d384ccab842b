-- ===== src/Worker/Examples.antt =====
-- Runs of the job queue (orchestrator/jobs.py, orchestrator/worker.py) on small tables.
use agentic_ai_model_adaptat.Prelude.{
  ℕ, ◌+◌, ◌<◌, ◌≡◌, refl, arith, elem, true, false, Option, none, some, List, [], ◌∷◌,
}
use agentic_ai_model_adaptat.Status.{queued, data_preparing, check_transition}
use agentic_ai_model_adaptat.Jobs.Rows.{Job, JobSlot, Db, Settings, Result, ok, err}
use agentic_ai_model_adaptat.Jobs.Tables.{find}
use agentic_ai_model_adaptat.Jobs.Locks.{take_over_expired_lock, add_lock, renew_lock}
use agentic_ai_model_adaptat.Jobs.Submit.{DriftEvent, JobResponse, holder_is_active, submit}
use agentic_ai_model_adaptat.Jobs.Rows.{model_busy}
use agentic_ai_model_adaptat.Jobs.Busy.{submit-busy}
use agentic_ai_model_adaptat.Jobs.Evolve.{SameOutcome}
use agentic_ai_model_adaptat.Jobs.Sound.{IsSound}
use agentic_ai_model_adaptat.Status.{is_terminal}
use agentic_ai_model_adaptat.Status.Paths.{Moves}
use agentic_ai_model_adaptat.Worker.Claim.{
  Claim, claim, take_slot, try_claim, tenant_limit, used_slots, live_slots,
}
use agentic_ai_model_adaptat.Worker.Late.{on_abandoned, rollout_lock}
use agentic_ai_model_adaptat.Worker.Attempt.{raised, drained, worker_lost, finish_attempt}
use agentic_ai_model_adaptat.Worker.System.{Step, Reach, Reach-one_live, Reach-outcome}
use agentic_ai_model_adaptat.Worker.Fence.{stale-finish_attempt, rollout_lock-unsound}
use agentic_ai_model_adaptat.Worker.Settle.{Settled, failure-settles, on_abandoned-drained}
use agentic_ai_model_adaptat.Worker.Exclusive.{
  Claims, try_claim-Claims, try_claim-once, take_slot-bounds,
}

abbrev settings : Settings
settings = record {
  job_max_retries = 3;
  job_retry_backoff_s = 5;
  job_timeout_s = 600;
  job_lease_ttl_s = 60;
  job_republish_after_s = 30;
  job_poison_threshold = 3;
  job_deadline_s = none;
  job_default_class = 1;
  job_class_by_framework = [];
  job_priority_by_severity = [];
  job_default_priority = 0;
  job_claim_candidates = 10;
  job_tenant_by_principal = [];
  job_default_tenant = 1;
  job_tenant_concurrency = 2;
  job_tenant_limits = [];
  model_lock_ttl_s = 900;
}

abbrev empty_db : Db
empty_db = record {
  jobs = [];
  locks = [];
  slots = [];
  history = [];
  outbox = [];
  audit = [];
  frameworks = [];
}

abbrev seven : ℕ
seven = 7

abbrev eight : ℕ
eight = 8

abbrev drift : ℕ → ℕ → DriftEvent
drift model key = record { model_id = model; idempotency_key = key; severity = none }

abbrev got {ℓ} : {A : Type ℓ} → A → Result A → A
got a (ok b) = b
got a (err e) = a

-- Job 7 of model 1 and job 8 of model 2 are submitted, and job 7 is claimed.
abbrev blank : Job
blank = record {
  job_id = 0;
  idempotency_key = 0;
  model_id = 0;
  status = queued;
  strategy = none;
  result = none;
  error = none;
  created_at = 0;
  tenant = 1;
  worker_class = 1;
  priority = 0;
  attempt = 0;
  available_at = none;
  deadline_at = none;
  lease_owner = none;
  lease_token = none;
  lease_expires_at = none;
  cancel_requested_at = none;
  cancel_requested_by = none;
  lost_count = 0;
  quarantined = false;
  published_at = none;
}

abbrev nothing : JobResponse × Db
nothing = (record { job = blank; duplicate = false }, empty_db)

abbrev first_db : JobResponse × Db
first_db = got nothing (submit settings 10 5 7 (drift 1 100) empty_db empty_db)

abbrev second_db : JobResponse × Db
second_db = got nothing (submit settings 11 5 8 (drift 2 101) empty_db (first_db.1))

abbrev claimed_db : Option Claim × Db
claimed_db =
    got (none, empty_db) (claim settings 12 (λ i. 40 + i) 3 (1 ∷ []) (some 7) (second_db.1))

abbrev row_of : Option Job → Job
row_of none = blank
row_of (some j) = j

empty_db-IsSound : IsSound empty_db
empty_db-IsSound = record { keys = λ i j a b ea. cc; locked = λ i a ea. cc }

run : Reach empty_db (claimed_db.1)
unfolding submit claim take_over_expired_lock add_lock renew_lock check_transition
run =
    Reach.next
      (Reach.next
        (Reach.next Reach.here
          (Step.submitted settings 10 5 7 (drift 1 100) empty_db first_db refl))
        (Step.submitted settings 11 5 8 (drift 2 101) empty_db second_db refl))
      (Step.claimed settings 12 (λ i. 40 + i) 3 (1 ∷ []) (some 7) claimed_db refl)

Reach-one_live_example :
    let a = row_of (find 7 (claimed_db.1).jobs) in
    let b = row_of (find 8 (claimed_db.1).jobs) in
    ((a.model_id ≡ b.model_id)
      → is_terminal a.status ≡ false
      → is_terminal b.status ≡ false
      → seven ≡ eight)
    × ((a.idempotency_key ≡ b.idempotency_key) → seven ≡ eight)
unfolding submit claim take_over_expired_lock add_lock renew_lock check_transition
Reach-one_live_example =
    Reach-one_live 7 8 (row_of (find 7 (claimed_db.1).jobs)) (row_of (find 8 (claimed_db.1).jobs))
      empty_db-IsSound run refl refl

later : Reach (first_db.1) (claimed_db.1)
unfolding submit claim take_over_expired_lock add_lock renew_lock check_transition
later =
    Reach.next
      (Reach.next Reach.here (Step.submitted settings 11 5 8 (drift 2 101) empty_db second_db refl))
      (Step.claimed settings 12 (λ i. 40 + i) 3 (1 ∷ []) (some 7) claimed_db refl)

Reach-outcome_example :
    let a = row_of (find 7 (first_db.1).jobs) in
    (b : Job) × (find 7 (claimed_db.1).jobs ≡ some b)
    × Moves a.status b.status
    × (is_terminal a.status ≡ true → (b.status ≡ a.status) × SameOutcome a b)
unfolding submit claim take_over_expired_lock add_lock renew_lock check_transition
Reach-outcome_example = Reach-outcome 7 (row_of (find 7 (first_db.1).jobs)) later refl

-- A running job 7 of model 1 whose lease is token 42, and claims with that token and an older one.
abbrev running : Job
running = record blank {
  job_id = 7;
  model_id = 1;
  status = data_preparing;
  attempt = 1;
  lease_token = some 42;
}

abbrev running_db : Db
running_db = record empty_db {
  jobs = running ∷ [];
  locks = record { model_id = 1; job_id = 7; acquired_at = 0; expires_at = 100 } ∷ [];
}

abbrev claim_with : ℕ → Claim
claim_with token = record {
  job_id = 7;
  lease_token = token;
  attempt = 1;
  tenant = 1;
  slot = none;
  model_id = 1;
  deadline_at = none;
}

stale-finish_attempt_example :
    finish_attempt settings 50 false (claim_with 41) (raised worker_lost) running_db
    ≡ ok (false, running_db)
stale-finish_attempt_example =
    stale-finish_attempt (claim_with 41) running_db running refl refl settings 50 false
      (raised worker_lost)

failure-settles_example :
    (d : Db) × (finish_attempt settings 50 true (claim_with 42) (raised drained) running_db
      ≡ ok (true, d))
    × Settled 7 d
failure-settles_example =
    failure-settles (claim_with 42) running_db running refl refl refl settings 50 true drained
      (λ e. cc) (λ e. cc) (λ e. cc)

-- A queued job 7 of model 1.
abbrev waiting : Job
waiting = record blank { job_id = 7; model_id = 1 }

abbrev waiting_db : Db
waiting_db = record running_db { jobs = waiting ∷ [] }

try_claim-Claims_example : Claims settings 20 42 3 7 waiting waiting_db
unfolding take_slot
try_claim-Claims_example =
    try_claim-Claims settings 20 42 3 7 waiting_db waiting (some 0)
      (record { tenant = 1; slot = 0; job_id = 7; expires_at = 80 } ∷ []) refl refl refl

try_claim-once_example :
    (r : Claim × Db) × (try_claim settings 20 42 3 7 waiting_db ≡ ok (some (r.0), r.1))
    × (try_claim settings 25 43 4 7 (r.1) ≡ ok (none, r.1))
unfolding take_slot
try_claim-once_example =
    try_claim-once settings 20 42 3 7 waiting_db waiting (some 0)
      (record { tenant = 1; slot = 0; job_id = 7; expires_at = 80 } ∷ []) 25 43 4 refl refl refl

abbrev one_slot : List JobSlot
one_slot = record { tenant = 1; slot = 0; job_id = 9; expires_at = 80 } ∷ []

take_slot-bounds_example :
    (1 < tenant_limit settings 1) × (elem 1 (used_slots 1 (live_slots 20 1 one_slot)) ≡ false)
unfolding take_slot
take_slot-bounds_example =
    take_slot-bounds settings 20 1 7 80 one_slot 1
      (record { tenant = 1; slot = 0; job_id = 9; expires_at = 80 }
        ∷ record { tenant = 1; slot = 1; job_id = 7; expires_at = 80 }
        ∷ [])
      refl

on_abandoned-drained_example :
    (d : Db) × (finish_attempt settings 50 true (claim_with 42) (raised drained) running_db
      ≡ ok (true, d))
    × ¬ (IsSound (on_abandoned true (claim_with 42) d))
on_abandoned-drained_example =
    on_abandoned-drained (claim_with 42) running_db running refl refl refl settings 50 (λ e. cc)
      (λ e. cc) refl

rollout_lock-unsound_example :
    ((rollout_lock 200 50 1 9 waiting_db).0 ≡ true)
    × ¬ (IsSound (rollout_lock 200 50 1 9 waiting_db).1)
unfolding take_over_expired_lock
rollout_lock-unsound_example =
    rollout_lock-unsound 200 50 7 9 waiting_db waiting refl refl (λ e. omega (arith, e)) (λ e. cc)

submit-busy_example :
    submit settings 200 5 8 (drift 1 101) waiting_db waiting_db ≡ err (model_busy (some 7))
unfolding holder_is_active
submit-busy_example =
    submit-busy settings 200 5 8 7 (drift 1 101) waiting_db waiting_db refl refl refl refl refl
