-- ===== src/Worker/System.antt =====
-- The job queue as a whole: any interleaving of the transactions of the API and the workers, by
-- any arguments (orchestrator/jobs.py, orchestrator/worker.py).
use mathlib.Core.Path.{subst}
use agentic_ai_model_adaptat.Prelude.{
  ℕ, ◌≡◌, ap, ◌∙◌, inl, inr, Bool, true, false, Option, some, List, arith, Option-cases,
}
use agentic_ai_model_adaptat.Status.{JobStatus, queued, is_terminal}
use agentic_ai_model_adaptat.Status.Paths.{Moves, terminal-Moves}
use agentic_ai_model_adaptat.Jobs.Rows.{Job, Db, Settings, ok, >>=-eq-ok}
use agentic_ai_model_adaptat.Jobs.Tables.{find, put, insert, find_key}
use agentic_ai_model_adaptat.Jobs.Transition.{
  Work, Changes, flush, load_job, check_fence, apply_transition, no_changes, transition,
}
use agentic_ai_model_adaptat.Jobs.Submit.{
  DriftEvent, JobResponse, new_job, lock_model, receive, insert_job, submit,
}
use agentic_ai_model_adaptat.Jobs.Cancel.{request_cancel, publish}
use agentic_ai_model_adaptat.Jobs.Evolve.{
  Evolves, Evolves-refl, Evolves-trans, SameOutcome, apply_transition-Evolved,
  apply_transition-jobs, apply_transition-locks,
}
use agentic_ai_model_adaptat.Jobs.Keep.{Keeps, Tracks-start, Tracks-apply_transition, Tracks-Keeps}
use agentic_ai_model_adaptat.Jobs.Sound.{IsSound, Keeps-IsSound, IsSound-one_live}
use agentic_ai_model_adaptat.Jobs.LockTaken.{lock_model-Locked}
use agentic_ai_model_adaptat.Jobs.SubmitSound.{queued-Evolves, queued-IsSound}
use agentic_ai_model_adaptat.Worker.Claim.{Claim, claim, try_claim, supervise}
use agentic_ai_model_adaptat.Worker.Attempt.{Attempt, finish_attempt}
use agentic_ai_model_adaptat.Worker.Reap.{ReapCounts, reap, reap_lease, reap_overdue, unpublish}
use agentic_ai_model_adaptat.Worker.Keep.{load_job-find, finish_attempt-Keeps}
use agentic_ai_model_adaptat.Worker.KeepQueue.{claim-Keeps, try_claim-Keeps, supervise-Keeps}
use agentic_ai_model_adaptat.Worker.KeepReap.{
  reap-Keeps, reap_lease-Keeps, reap_overdue-Keeps, unpublish-Keeps, publish-Keeps,
  request_cancel-Keeps,
}

-- A stage report keeps what Jobs/Keep says.
transition-Keeps :
    (i : ℕ) (to : JobStatus) (c : Changes) (fence : Option ℕ) (db d : Db)
    → transition i to c fence db ≡ ok d
    → Keeps db d
unfolding transition
transition-Keeps i to c fence db d e =
    let (w, ew, e₁) = >>=-eq-ok (load_job i db) _ e in
    let (found, same) = load_job-find db i w ew in
    let (u, eu, e₂) = >>=-eq-ok (check_fence w.job fence to) _ e₁ in
    let (v, ev, e₃) = >>=-eq-ok (apply_transition to c w) _ e₂ in
    let t₀ = Tracks-start w.job db w.db (ap (λ x. x.jobs) same) (ap (λ x. x.locks) same) in
    let t₁ = Tracks-apply_transition w.job db to c w v t₀ ev in
    subst (λ x. Keeps db x) (ground arith) (Tracks-Keeps i w.job db v found t₁)

-- What a submission does: the invariant is kept and the old rows evolve.
record Grows (db d : Db) : Type 0 where
  evolves : Evolves db.jobs d.jobs
  sound : IsSound db → IsSound d

Grows-refl : (db : Db) → Grows db db
Grows-refl db = record { evolves = Evolves-refl db.jobs; sound = λ s. s }

insert_job-Grows :
    (s : Settings) (now actor i : ℕ) (ev : DriftEvent) (db : Db) (r : JobResponse × Db)
    → insert_job s now actor i ev db ≡ ok r
    → Grows db r.1
unfolding insert_job
insert_job-Grows s now actor i ev db r e =
    elim (Option-cases (find_key ev.idempotency_key db.jobs)) [
      | inr (old, eo) ↦ subst (λ x. Grows db x) (ground arith) (Grows-refl db)
      | inl unseen ↦ elim (Option-cases (find i db.jobs)) [
        | inr (clash, ec) ↦ ground arith
        | inl missing ↦
            let j = new_job s now actor i ev db in
            let grown = record db { jobs = insert j db.jobs } in
            let (d, ed, e₁) =
              >>=-eq-ok (lock_model s now ev.model_id i grown) _
                (rw (unseen, missing, insert_job) at e) in
            let start : Work = record { job = j; db = receive actor j d } in
            let (w, ew, e₂) = >>=-eq-ok (apply_transition queued no_changes start) _ e₁ in
            let locked = lock_model-Locked s now ev.model_id i grown d ed in
            let row = apply_transition-Evolved queued no_changes start w ew in
            let after : r.1.locks ≡ w.db.locks = ground arith in
            let jobs' : r.1.jobs ≡ (flush w).jobs = ground arith in
            let jobs'' : r.1.jobs ≡ put w.job d.jobs =
              jobs' ∙ ap (put w.job) (apply_transition-jobs queued no_changes start w ew) in
            let locks' : r.1.locks ≡ d.locks =
              cc (apply_transition-locks queued no_changes start w ew, after) in
            record {
              evolves = queued-Evolves db d j w.job r.1 missing locked row jobs'' locks';
              sound = queued-IsSound db d j w.job r.1 missing locked row jobs'' locks' unseen;
            }
      ]
    ]

submit-Grows :
    (s : Settings) (now actor i : ℕ) (ev : DriftEvent) (seen db : Db) (r : JobResponse × Db)
    → submit s now actor i ev seen db ≡ ok r
    → Grows db r.1
unfolding submit
submit-Grows s now actor i ev seen db r e =
    elim (Option-cases (find_key ev.idempotency_key seen.jobs)) [
      | inl unseen ↦ insert_job-Grows s now actor i ev db r (rw (unseen, submit) at e)
      | inr (old, eo) ↦ subst (λ x. Grows db x) (ground arith) (Grows-refl db)
    ]

-- One committed transaction of the API, a worker or the reaper.
pub data Step : Db → Db → Type 0 where
  submitted :
      (s : Settings) (now actor i : ℕ) (ev : DriftEvent) (seen : Db) {db : Db}
      (r : JobResponse × Db)
      → submit s now actor i ev seen db ≡ ok r
      → Step db r.1
  cancel_requested :
      (now actor i : ℕ) {db : Db} (r : Job × Bool × Db)
      → request_cancel now actor i db ≡ ok r
      → Step db r.2
  published :
      (now : ℕ) (send : Job → Bool) (i : ℕ) {db : Db} (r : Bool × Db)
      → publish now send i db ≡ ok r
      → Step db r.1
  claimed :
      (s : Settings) (now : ℕ) (token : ℕ → ℕ) (owner : ℕ) (classes : List ℕ) (i : Option ℕ)
      {db : Db} (r : Option Claim × Db)
      → claim s now token owner classes i db ≡ ok r
      → Step db r.1
  reported :
      (i : ℕ) (to : JobStatus) (c : Changes) (fence : Option ℕ) {db : Db} (d : Db)
      → transition i to c fence db ≡ ok d
      → Step db d
  supervised :
      (s : Settings) (now : ℕ) (reachable drain_over : Bool) (c : Claim) (until : ℕ) (db : Db)
      → Step db (supervise s now reachable drain_over c until db).2
  finished :
      (s : Settings) (now : ℕ) (in_process : Bool) (c : Claim) (a : Attempt) {db : Db}
      (r : Bool × Db)
      → finish_attempt s now in_process c a db ≡ ok r
      → Step db r.1
  reaped :
      (s : Settings) (now : ℕ) (runs_inline : Bool) (send : Job → Bool) {db : Db}
      (r : ReapCounts × Db)
      → reap s now runs_inline send db ≡ ok r
      → Step db r.1
  unpublished : (i : ℕ) (db : Db) → Step db (unpublish i db)
  -- The transactions inside `claim` and `reap`, on rows that were listed at any earlier time.
  tried :
      (s : Settings) (now token owner i : ℕ) {db : Db} (r : Option Claim × Db)
      → try_claim s now token owner i db ≡ ok r
      → Step db r.1
  lease_reaped :
      (s : Settings) (now i token : ℕ) {db : Db} (r : Bool × Db)
      → reap_lease s now (i, token) db ≡ ok r
      → Step db r.1
  overdue_reaped : (i : ℕ) {db : Db} (r : Bool × Db) → reap_overdue i db ≡ ok r → Step db r.1

Keeps-Grows : (db d : Db) → Keeps db d → Grows db d
Keeps-Grows db d k = record { evolves = k.evolves; sound = Keeps-IsSound db d k }

Step-Grows : {db d : Db} → Step db d → Grows db d
Step-Grows (submitted s now actor i ev seen {db = db} r e) =
    submit-Grows s now actor i ev seen db r e
Step-Grows (cancel_requested now actor i {db = db} r e) =
    Keeps-Grows db r.2 (request_cancel-Keeps now actor i db r e)
Step-Grows (published now send i {db = db} r e) =
    Keeps-Grows db r.1 (publish-Keeps now send i db r e)
Step-Grows (claimed s now token owner classes i {db = db} r e) =
    Keeps-Grows db r.1 (claim-Keeps s now token owner classes i db r e)
Step-Grows (reported i to c fence {db = db} d e) =
    Keeps-Grows db d (transition-Keeps i to c fence db d e)
Step-Grows (supervised s now reachable drain_over c until db) =
    Keeps-Grows db _ (supervise-Keeps s now reachable drain_over c until db)
Step-Grows (finished s now in_process c a {db = db} r e) =
    Keeps-Grows db r.1 (finish_attempt-Keeps c db s now in_process a r e)
Step-Grows (reaped s now runs_inline send {db = db} r e) =
    Keeps-Grows db r.1 (reap-Keeps s now runs_inline send db r e)
Step-Grows (unpublished i db) = Keeps-Grows db _ (unpublish-Keeps i db)
Step-Grows (tried s now token owner i {db = db} r e) =
    Keeps-Grows db r.1 (try_claim-Keeps s now token owner i db r e)
Step-Grows (lease_reaped s now i token {db = db} r e) =
    Keeps-Grows db r.1 (reap_lease-Keeps s now (i, token) db r e)
Step-Grows (overdue_reaped i {db = db} r e) = Keeps-Grows db r.1 (reap_overdue-Keeps i db r e)

pub data Reach (db : Db) : Db → Type 0 where
  here : Reach db db
  next : {d d' : Db} → Reach db d → Step d d' → Reach db d'

Reach-Grows : {db d : Db} → Reach db d → Grows db d
Reach-Grows {db} here = Grows-refl db
Reach-Grows {db} (next {d = d} {d' = d'} r st) =
    let g = Reach-Grows r in
    let h = Step-Grows st in
    record {
      evolves = Evolves-trans db.jobs d.jobs d'.jobs g.evolves h.evolves;
      sound = λ s. h.sound (g.sound s);
    }

-- Mutual exclusion and idempotency: whatever transactions of `Step` run in whatever order, from
-- tables that are in order (every job that has not ended holds its model's lock, and no two jobs
-- have one idempotency key), two jobs of one model that have not ended are one job, and so are two
-- jobs with one idempotency key. `Step` does not hold the lock of a rollout, nor the release of a
-- lock by the thread of a stopped attempt.
pub Reach-one_live :
    {db d : Db} (i j : ℕ) (a b : Job)
    → IsSound db
    → Reach db d
    → find i d.jobs ≡ some a
    → find j d.jobs ≡ some b
    → ((a.model_id ≡ b.model_id)
        → is_terminal a.status ≡ false
        → is_terminal b.status ≡ false
        → i ≡ j)
      × ((a.idempotency_key ≡ b.idempotency_key) → i ≡ j)
Reach-one_live {d = d} i j a b s r ea eb =
    let sound = (Reach-Grows r).sound s in
    (
      λ same la lb. IsSound-one_live d i j a b sound ea eb same la lb,
      λ same. sound.keys i j a b ea eb same,
    )

-- Exactly one outcome: whatever transactions of `Step` run in whatever order, a job is never lost, its status only moves along the state machine, and
-- once it has ended, no later transaction changes its status, error, result or strategy.
pub Reach-outcome :
    {db d : Db} (i : ℕ) (a : Job)
    → Reach db d
    → find i db.jobs ≡ some a
    → (b : Job) × (find i d.jobs ≡ some b)
      × Moves a.status b.status
      × (is_terminal a.status ≡ true → (b.status ≡ a.status) × SameOutcome a b)
Reach-outcome i a r e =
    let (b, eb, ab) = (Reach-Grows r).evolves i a e in
    (b, eb, ab.moves, λ t. (terminal-Moves t ab.moves, ab.frozen t))
