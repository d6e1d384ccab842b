-- ===== src/Worker/Keep.antt =====
-- About orchestrator/worker.py: the writes of an attempt (Worker/Attempt) and Jobs/Keep.
use mathlib.Core.Path.{subst, ap}
use agentic_ai_model_adaptat.Prelude.{
  ℕ, ◌+◌, ◌-◌, ◌≡◌, refl, inl, inr, Bool, true, false, none, some, arith, Bool-cases, leb,
  if◌then◌else◌,
}
use agentic_ai_model_adaptat.Status.{
  JobStatus, queued, failed, timed_out, cancelled, completed, rolled_back, is_terminal,
}
use agentic_ai_model_adaptat.Jobs.Rows.{
  Job, Db, Settings, Result, ok, err, ◌>>=◌, >>=-eq-ok, ErrorCode, job_lease_lost,
  invalid_transition,
}
use agentic_ai_model_adaptat.Jobs.Tables.{find}
use agentic_ai_model_adaptat.Jobs.Transition.{
  Work, Changes, apply_transition, no_changes, with_error, in_registry_stage, check_fence, load_job,
}
use agentic_ai_model_adaptat.Jobs.Evolve.{apply_transition-status, Evolved-touch}
use agentic_ai_model_adaptat.Jobs.Keep.{
  Keeps, Keeps-refl, Tracks, Tracks-start, Tracks-row, Tracks-release, Tracks-apply_transition,
  Tracks-Keeps,
}
use agentic_ai_model_adaptat.Jobs.Cancel.{cancelled_error}
use agentic_ai_model_adaptat.Worker.Claim.{Claim}
use agentic_ai_model_adaptat.Worker.Attempt.{
  clear_lease, end_attempt, requeue, lose, retry_or_fail, give_back, Failure, lease_lost,
  timed_out_attempt, cancelled_attempt, drained, worker_lost, registry_unavailable,
  database_unavailable, other, settle, lost_error, quarantine_error, quarantine_row, plain_error,
  write_give_back, write_outcome, requeue_or_end, record_outcome, record_failure, transient_code,
  timeout_error, Attempt, returned, raised, finish_attempt,
}

-- When a step says that the job ended, it has.
abbrev Says : Bool × Work → Type 0
Says r = r.0 ≡ true → is_terminal r.1.job.status ≡ true

module _ (a : Job) (db : Db) where
  pub requeue-Tracks :
      (now delay : ℕ) (charge lost : Bool) (w w' : Work)
      → Tracks a db w
      → requeue now delay charge lost w ≡ ok w'
      → Tracks a db w'
  unfolding requeue
  requeue-Tracks now delay charge lost w w' t e =
      let (m, em, ew) = >>=-eq-ok (apply_transition queued no_changes w) _ e in
      let tm = Tracks-apply_transition a db queued no_changes w m t em in
      Tracks-row a w'.job db w'.db m tm (Evolved-touch m.job w'.job (ground arith) (ground arith))
        (ground arith) (ground arith)

  -- A step that fails the job and says so.
  failed-Tracks :
      (c : Changes) (w : Work) (r : Bool × Work)
      → Tracks a db w
      → (apply_transition failed c w >>= (λ w'. ok (true, w'))) ≡ ok r
      → Tracks a db r.1 × Says r
  failed-Tracks c w r t e =
      let (m, em, ew) = >>=-eq-ok (apply_transition failed c w) _ e in
      let tm = Tracks-apply_transition a db failed c w m t em in
      let st = apply_transition-status failed c w m em in
      (
        Tracks-row a r.1.job db r.1.db m tm
            (Evolved-touch m.job r.1.job (ground arith) (ground arith)) (ground arith)
            (ground arith),
        λ _. ground arith,
      )

  requeued-Tracks :
      (now delay : ℕ) (charge lost : Bool) (w : Work) (r : Bool × Work)
      → Tracks a db w
      → (requeue now delay charge lost w >>= (λ w'. ok (false, w'))) ≡ ok r
      → Tracks a db r.1 × Says r
  requeued-Tracks now delay charge lost w r t e =
      let (m, em, ew) = >>=-eq-ok (requeue now delay charge lost w) _ e in
      let tm = requeue-Tracks now delay charge lost w m t em in
      (
        Tracks-row a r.1.job db r.1.db m tm
            (Evolved-touch m.job r.1.job (ground arith) (ground arith)) (ground arith)
            (ground arith),
        ground arith,
      )

  pub lose-Tracks :
      (s : Settings) (now : ℕ) (w : Work) (r : Bool × Work)
      → Tracks a db w
      → lose s now w ≡ ok r
      → Tracks a db r.1 × Says r
  unfolding lose
  lose-Tracks s now w r t e = elim (Bool-cases (in_registry_stage w.job.status)) [
    | inl reg ↦ failed-Tracks (with_error (lost_error w.job.status)) w r t (rw reg at e)
    | inr free ↦ elim (Bool-cases (leb s.job_poison_threshold (w.job.lost_count + 1))) [
      | inl poison ↦
          failed-Tracks (with_error (quarantine_error w.job.status))
            (record w { job = quarantine_row w.job }) r
            (Tracks-row a (quarantine_row w.job) db w.db w t
              (Evolved-touch w.job (quarantine_row w.job) (refl, refl, refl, refl)
                (record { error = refl; result = refl; strategy = refl }))
              refl refl)
            (rw (free, poison) at e)
      | inr alive ↦ requeued-Tracks now _ true true w r t (rw (free, alive) at e)
    ]
  ]

  retry_or_fail-Tracks :
      (s : Settings) (now : ℕ) (code : ErrorCode) (w : Work) (r : Bool × Work)
      → Tracks a db w
      → retry_or_fail s now code w ≡ ok r
      → Tracks a db r.1 × Says r
  unfolding retry_or_fail
  retry_or_fail-Tracks s now code w r t e =
      elim (Bool-cases (leb (w.job.attempt - w.job.lost_count) s.job_max_retries)) [
        | inl more ↦ requeued-Tracks now _ true false w r t (rw more at e)
        | inr out ↦ failed-Tracks (with_error (plain_error code)) w r t (rw out at e)
      ]

  give_back-Tracks :
      (s : Settings) (now : ℕ) (f : Failure) (w : Work) (r : Bool × Work)
      → Tracks a db w
      → give_back s now f w ≡ ok r
      → Tracks a db r.1 × Says r
  unfolding give_back
  give_back-Tracks s now drained w r t e = requeued-Tracks now 0 false false w r t e
  give_back-Tracks s now worker_lost w r t e = lose-Tracks s now w r t e
  give_back-Tracks s now f w r t e = retry_or_fail-Tracks s now (transient_code f) w r t e

  end_attempt-Tracks :
      (c : Claim) (release : Bool) (w : Work)
      → Tracks a db w
      → (release ≡ true → is_terminal w.job.status ≡ true)
      → Tracks a db (end_attempt c release w)
  unfolding end_attempt
  end_attempt-Tracks c release w t says =
      let touch =
        Evolved-touch w.job (clear_lease w.job) (refl, refl, refl, refl)
          (record { error = refl; result = refl; strategy = refl }) in
      let cleared = Tracks-row a (clear_lease w.job) db w.db w t touch refl refl in
      elim (Bool-cases release) [
        | inl yes' ↦ rw yes' (Tracks-release a db _ _ w.job.model_id cleared (says yes') refl refl)
        | inr no' ↦ rw no' (Tracks-row a _ db _ w t touch refl refl)
      ]

pub load_job-find :
    (db : Db) (i : ℕ) (w : Work)
    → load_job i db ≡ ok w
    → (find i db.jobs ≡ some w.job) × (w.db ≡ db)
load_job-find db i w e = ground arith

-- Any session of a claim that loads the job, tracks it and flushes it.
module _ (c : Claim) (db : Db) where
  -- A refused write changes nothing.
  settle-Keeps :
      (m : Result Db) (r : Bool × Db)
      → ((d : Db) → m ≡ ok d → Keeps db d)
      → settle db m ≡ ok r
      → Keeps db r.1
  settle-Keeps (ok d) r k e = subst (λ x. Keeps db x) (ground arith) (k d refl)
  settle-Keeps (err job_lease_lost) r k e = subst (λ x. Keeps db x) (ground arith) (Keeps-refl db)
  settle-Keeps (err invalid_transition) r k e =
      subst (λ x. Keeps db x) (ground arith) (Keeps-refl db)
  settle-Keeps (err _) r k e = ground arith

  write_outcome-Keeps :
      (to : JobStatus) (changes : Changes) (release : Bool) (d : Db)
      → is_terminal to ≡ true
      → write_outcome c to changes release db ≡ ok d
      → Keeps db d
  unfolding write_outcome
  write_outcome-Keeps to changes release d ended e =
      let (w, ew, e₁) = >>=-eq-ok (load_job c.job_id db) _ e in
      let (u, eu, e₂) = >>=-eq-ok (check_fence w.job (some c.lease_token) to) _ e₁ in
      let (m, em, e₃) = >>=-eq-ok (apply_transition to changes w) _ e₂ in
      let (found, same) = load_job-find db c.job_id w ew in
      let t = Tracks-start w.job db w.db (ap (λ x. x.jobs) same) (ap (λ x. x.locks) same) in
      let tm = Tracks-apply_transition w.job db to changes w m t em in
      let st = apply_transition-status to changes w m em in
      let te = end_attempt-Tracks w.job db c release m tm (λ _. rw st ended) in
      subst (λ x. Keeps db x) (ground arith) (Tracks-Keeps c.job_id w.job db _ found te)

  write_give_back-Keeps :
      (s : Settings) (now : ℕ) (f : Failure) (d : Db)
      → write_give_back s now c f db ≡ ok d
      → Keeps db d
  unfolding write_give_back
  write_give_back-Keeps s now f d e =
      let (w, ew, e₁) = >>=-eq-ok (load_job c.job_id db) _ e in
      let (u, eu, e₂) = >>=-eq-ok (check_fence w.job (some c.lease_token) queued) _ e₁ in
      let (m, em, e₃) = >>=-eq-ok (give_back s now f w) _ e₂ in
      let (found, same) = load_job-find db c.job_id w ew in
      let t = Tracks-start w.job db w.db (ap (λ x. x.jobs) same) (ap (λ x. x.locks) same) in
      let (tm, says) = give_back-Tracks w.job db s now f w m t em in
      let te = end_attempt-Tracks w.job db c m.0 m.1 tm says in
      subst (λ x. Keeps db x) (ground arith) (Tracks-Keeps c.job_id w.job db _ found te)

  record_outcome-Keeps :
      (to : JobStatus) (changes : Changes) (release : Bool) (r : Bool × Db)
      → is_terminal to ≡ true
      → record_outcome c to changes release db ≡ ok r
      → Keeps db r.1
  unfolding record_outcome
  record_outcome-Keeps to changes release r ended e =
      settle-Keeps (write_outcome c to changes release db) r
        (λ d. write_outcome-Keeps to changes release d ended) e

  requeue_or_end-Keeps :
      (s : Settings) (now : ℕ) (f : Failure) (r : Bool × Db)
      → requeue_or_end s now c f db ≡ ok r
      → Keeps db r.1
  unfolding requeue_or_end
  requeue_or_end-Keeps s now f r e =
      settle-Keeps (write_give_back s now c f db) r (write_give_back-Keeps s now f) e

  record_failure-Keeps :
      (s : Settings) (now : ℕ) (f : Failure) (release : Bool) (r : Bool × Db)
      → record_failure s now c f release db ≡ ok r
      → Keeps db r.1
  unfolding record_failure
  record_failure-Keeps s now lease_lost release r e =
      subst (λ x. Keeps db x) (ground arith) (Keeps-refl db)
  record_failure-Keeps s now timed_out_attempt release r e =
      let (w, ew, e₁) = >>=-eq-ok (load_job c.job_id db) _ e in
      record_outcome-Keeps timed_out (with_error (timeout_error w.job.status)) release r refl e₁
  record_failure-Keeps s now cancelled_attempt release r e =
      record_outcome-Keeps cancelled (with_error (cancelled_error none)) release r refl e
  record_failure-Keeps s now (other code) release r e =
      record_outcome-Keeps failed (with_error (plain_error code)) release r refl e
  record_failure-Keeps s now drained release r e = requeue_or_end-Keeps s now drained r e
  record_failure-Keeps s now worker_lost release r e = requeue_or_end-Keeps s now worker_lost r e
  record_failure-Keeps s now registry_unavailable release r e =
      requeue_or_end-Keeps s now registry_unavailable r e
  record_failure-Keeps s now database_unavailable release r e =
      requeue_or_end-Keeps s now database_unavailable r e

  pub finish_attempt-Keeps :
      (s : Settings) (now : ℕ) (in_process : Bool) (att : Attempt) (r : Bool × Db)
      → finish_attempt s now in_process c att db ≡ ok r
      → Keeps db r.1
  unfolding finish_attempt
  finish_attempt-Keeps s now in_process (returned res) r e =
      record_outcome-Keeps (if res.rolled_back then rolled_back else completed)
        (record { error = none; result = some res.document; strategy = res.strategy }) true r
        (ground arith) e
  finish_attempt-Keeps s now in_process (raised f) r e = record_failure-Keeps s now f _ r e
