-- ===== src/Worker/KeepReap.antt =====
-- About the reaper (orchestrator/worker.py), a cancel request and a publication, and Jobs/Keep.
use mathlib.Core.Path.{subst, ap}
use agentic_ai_model_adaptat.Prelude.{
  ℕ, ◌+◌, ◌≡◌, refl, inl, inr, Bool, true, false, not, ◌&&◌, ◌||◌, none, some, List, [], ◌∷◌, arith,
  Bool-cases, Option-cases, opt_eq, is_none, select,
}
use agentic_ai_model_adaptat.Status.{queued, timed_out, cancelled, is_terminal, status_eq}
use agentic_ai_model_adaptat.Jobs.Rows.{
  Job, Db, Settings, Result, ok, >>=-eq-ok, require, job_not_cancellable,
}
use agentic_ai_model_adaptat.Jobs.Tables.{find}
use agentic_ai_model_adaptat.Jobs.Locks.{release_lock}
use agentic_ai_model_adaptat.Jobs.Transition.{
  Work, flush, apply_transition, with_error, in_registry_stage, load_job,
}
use agentic_ai_model_adaptat.Jobs.Cancel.{
  cancelled_error, mark_cancel, request_cancel, publish, unlock_work, cancel_step, is_immediate,
}
use agentic_ai_model_adaptat.Jobs.Evolve.{apply_transition-status, Evolved-touch, Evolved-refl}
use agentic_ai_model_adaptat.Jobs.Keep.{
  Keeps, Keeps-refl, Keeps-trans, Keeps-other, Tracks, Tracks-start, Tracks-row, Tracks-release,
  Tracks-apply_transition, Tracks-Keeps,
}
use agentic_ai_model_adaptat.Worker.Attempt.{clear_lease, lose, timeout_error}
use agentic_ai_model_adaptat.Worker.Reap.{
  release_if, reap_lease, reap_overdue, each, publish_each, reap, unpublish, expired_leases,
  is_overdue, publish_due, job_ids, ReapCounts,
}
use agentic_ai_model_adaptat.Worker.Keep.{load_job-find, lose-Tracks}
use agentic_ai_model_adaptat.Worker.KeepQueue.{put-Keeps}

-- The release at a job's end.
release_if-Tracks :
    (a : Job) (db : Db) (ended : Bool) (w : Work)
    → Tracks a db w
    → (ended ≡ true → is_terminal w.job.status ≡ true)
    → Tracks a db (record w { db = release_if ended w })
release_if-Tracks a db true w t says =
    Tracks-release a db (release_if true w) w w.job.model_id t (says refl) refl refl
release_if-Tracks a db false w t says =
    Tracks-row a w.job db (release_if false w) w t (Evolved-refl w.job) refl refl

pub reap_lease-Keeps :
    (s : Settings) (now : ℕ) (x : ℕ × ℕ) (db : Db) (r : Bool × Db)
    → reap_lease s now x db ≡ ok r
    → Keeps db r.1
unfolding reap_lease
reap_lease-Keeps s now (i, token) db r e = elim (Option-cases (find i db.jobs)) [
  | inl missing ↦ subst (λ x. Keeps db x) (ground arith) (Keeps-refl db)
  | inr (j, ej) ↦ elim (Bool-cases (opt_eq j.lease_token token)) [
    | inr passed ↦ subst (λ x. Keeps db x) (ground arith) (Keeps-refl db)
    | inl same ↦
        let start : Work = record { job = clear_lease j; db = db } in
        let (q, eq, e₁) = >>=-eq-ok (lose s now start) _ (rw (ej, reap_lease, same) at e) in
        let touched =
          Evolved-touch j (clear_lease j) (refl, refl, refl, refl)
            (record { error = refl; result = refl; strategy = refl }) in
        let t₀ =
          Tracks-row j (clear_lease j) db db _ (Tracks-start j db db refl refl) touched refl refl in
        let (t₁, says) = lose-Tracks j db s now start q t₀ eq in
        let t₂ = release_if-Tracks j db q.0 q.1 t₁ says in
        Keeps-other db _ r.1 (Tracks-Keeps i j db _ ej t₂) (ground arith) (ground arith)
  ]
]

pub reap_overdue-Keeps : (i : ℕ) (db : Db) (r : Bool × Db) → reap_overdue i db ≡ ok r → Keeps db r.1
unfolding reap_overdue
reap_overdue-Keeps i db r e =
    let (w, ew, e₁) = >>=-eq-ok (load_job i db) _ e in
    let (found, same) = load_job-find db i w ew in
    elim (Bool-cases (not (status_eq w.job.status queued) || not (is_none w.job.lease_token))) [
      | inl skip ↦ let e₂ = rw skip at e₁ in subst (λ x. Keeps db x) (ground arith) (Keeps-refl db)
      | inr due ↦
          let (v, ev, e₂) =
            >>=-eq-ok (apply_transition timed_out (with_error (timeout_error queued)) w) _
              (rw due at e₁) in
          let t₀ = Tracks-start w.job db w.db (ap (λ x. x.jobs) same) (ap (λ x. x.locks) same) in
          let t₁ =
            Tracks-apply_transition w.job db timed_out (with_error (timeout_error queued)) w v t₀
              ev in
          let st = apply_transition-status timed_out (with_error (timeout_error queued)) w v ev in
          let t₂ = release_if-Tracks w.job db true v t₁ (λ _. rw st refl) in
          subst (λ x. Keeps db x) (ground arith) (Tracks-Keeps i w.job db _ found t₂)
    ]

pub each-Keeps :
    {A : Type 0} (f : A → Db → Result (Bool × Db))
    → ((x : A) (d : Db) (r : Bool × Db) → f x d ≡ ok r → Keeps d r.1)
    → (xs : List A) (n : ℕ) (db : Db) (r : ℕ × Db) → each f xs n db ≡ ok r
    → Keeps db r.1
unfolding each
each-Keeps f k [] n db r e = subst (λ x. Keeps db x) (ground arith) (Keeps-refl db)
each-Keeps f k (x ∷ xs) n db r e =
    let (q, eq, e₁) = >>=-eq-ok (f x db) _ e in
    Keeps-trans db q.1 r.1 (k x db q eq) (each-Keeps f k xs _ q.1 r e₁)

pub publish-Keeps :
    (now : ℕ) (send : Job → Bool) (i : ℕ) (db : Db) (r : Bool × Db)
    → publish now send i db ≡ ok r
    → Keeps db r.1
unfolding publish
publish-Keeps now send i db r e =
    let (w, ew, e₁) = >>=-eq-ok (load_job i db) _ e in
    let (found, same) = load_job-find db i w ew in
    elim (Bool-cases (status_eq w.job.status queued && send w.job)) [
      | inl told ↦
          let e₂ = rw told at e₁ in
          let row = record (w.job) { published_at = some now } in
          let touched =
            Evolved-touch w.job row (refl, refl, refl, refl)
              (record { error = refl; result = refl; strategy = refl }) in
          subst (λ x. Keeps db x) (ground arith)
            (put-Keeps i w.job row db w.db found touched (ap (λ x. x.jobs) same)
              (ap (λ x. x.locks) same))
      | inr quiet ↦
          let e₂ = rw quiet at e₁ in subst (λ x. Keeps db x) (ground arith) (Keeps-refl db)
    ]

publish_each-Keeps :
    (now : ℕ) (send : Job → Bool) (is : List ℕ) (n : ℕ) (db : Db) (r : ℕ × Db)
    → publish_each now send is n db ≡ ok r
    → Keeps db r.1
unfolding publish_each
publish_each-Keeps now send [] n db r e = subst (λ x. Keeps db x) (ground arith) (Keeps-refl db)
publish_each-Keeps now send (i ∷ is) n db r e =
    let (q, eq, e₁) = >>=-eq-ok (publish now send i db) _ e in
    let k = publish-Keeps now send i db q eq in
    let rest = publish_each-Keeps now send is (n + 1) q.1 r in
    elim (Bool-cases q.0) [
      | inl went ↦ Keeps-trans db q.1 r.1 k (rest (rw went at e₁))
      | inr stopped ↦ let e₂ = rw stopped at e₁ in subst (λ x. Keeps db x) (ground arith) k
    ]

publish_due-Keeps :
    (s : Settings) (now : ℕ) (runs_inline : Bool) (send : Job → Bool) (db : Db) (r : ℕ × Db)
    → publish_due s now runs_inline send db ≡ ok r
    → Keeps db r.1
unfolding publish_due
publish_due-Keeps s now true send db r e = subst (λ x. Keeps db x) (ground arith) (Keeps-refl db)
publish_due-Keeps s now false send db r e = publish_each-Keeps now send _ 0 db r e

pub reap-Keeps :
    (s : Settings) (now : ℕ) (runs_inline : Bool) (send : Job → Bool) (db : Db)
    (r : ReapCounts × Db)
    → reap s now runs_inline send db ≡ ok r
    → Keeps db r.1
unfolding reap
reap-Keeps s now runs_inline send db r e =
    let (a, ea, e₁) = >>=-eq-ok (each (reap_lease s now) (expired_leases now db.jobs) 0 db) _ e in
    let overdue = job_ids (select (is_overdue now) a.1.jobs) in
    let (b, eb, e₂) = >>=-eq-ok (each reap_overdue overdue 0 a.1) _ e₁ in
    let (c, ec, e₃) = >>=-eq-ok (publish_due s now runs_inline send b.1) _ e₂ in
    let ka = each-Keeps (reap_lease s now) (reap_lease-Keeps s now) _ 0 db a ea in
    let kb = each-Keeps reap_overdue reap_overdue-Keeps overdue 0 a.1 b eb in
    let kc = publish_due-Keeps s now runs_inline send b.1 c ec in
    Keeps-other db c.1 r.1 (Keeps-trans db a.1 c.1 ka (Keeps-trans a.1 b.1 c.1 kb kc))
      (ground arith) (ground arith)

cancel_step-Tracks :
    (a : Job) (db : Db) (w v : Work) → Tracks a db w → cancel_step w ≡ ok v → Tracks a db v
unfolding cancel_step
cancel_step-Tracks a db w v t e = elim (Bool-cases (is_immediate w)) [
  | inr later ↦ let e₁ = rw later at e in subst (λ x. Tracks a db x) (ground arith) t
  | inl at_once ↦
      let c = with_error (cancelled_error none) in
      let (m, em, e₁) = >>=-eq-ok (apply_transition cancelled c w) _ (rw at_once at e) in
      let tm = Tracks-apply_transition a db cancelled c w m t em in
      let st = apply_transition-status cancelled c w m em in
      let u = unlock_work m in
      let d = m.db in
      let unlocked = record d { locks = release_lock m.job.model_id m.job.job_id d.locks } in
      let tr = Tracks-release a db unlocked m m.job.model_id tm (rw st refl) refl refl in
      subst (λ x. Tracks a db x) (ground arith)
        (Tracks-row a m.job db u.db (record m { db = unlocked }) tr (Evolved-refl m.job) refl refl)
]

pub request_cancel-Keeps :
    (now actor i : ℕ) (db : Db) (r : Job × Bool × Db)
    → request_cancel now actor i db ≡ ok r
    → Keeps db r.2
unfolding request_cancel
request_cancel-Keeps now actor i db r e =
    let (w, ew, e₁) = >>=-eq-ok (load_job i db) _ e in
    let (found, same) = load_job-find db i w ew in
    let open' = not (is_terminal w.job.status || in_registry_stage w.job.status) in
    let (u, eu, e₂) = >>=-eq-ok (require open' job_not_cancellable) _ e₁ in
    let marked : Work = record w { job = mark_cancel now actor w.job } in
    let (v, ev, e₃) = >>=-eq-ok (cancel_step marked) _ e₂ in
    let t₀ = Tracks-start w.job db w.db (ap (λ x. x.jobs) same) (ap (λ x. x.locks) same) in
    let touched = Evolved-touch w.job marked.job (ground arith) (ground arith) in
    let t₁ = Tracks-row w.job marked.job db w.db w t₀ touched refl refl in
    let t₂ = cancel_step-Tracks w.job db marked v t₁ ev in
    Keeps-other db (flush v) r.2 (Tracks-Keeps i w.job db v found t₂) (ground arith) (ground arith)

pub unpublish-Keeps : (i : ℕ) (db : Db) → Keeps db (unpublish i db)
unfolding unpublish
unpublish-Keeps i db = elim (Option-cases (find i db.jobs)) [
  | inl missing ↦ subst (λ x. Keeps db x) (ground arith) (Keeps-refl db)
  | inr (j, ej) ↦ elim (Bool-cases (status_eq j.status queued && is_none j.lease_token)) [
    | inl waiting ↦
        let row = record j { published_at = none } in
        let touched =
          Evolved-touch j row (refl, refl, refl, refl)
            (record { error = refl; result = refl; strategy = refl }) in
        subst (λ x. Keeps db x) (ground arith) (put-Keeps i j row db db ej touched refl refl)
    | inr other ↦ subst (λ x. Keeps db x) (ground arith) (Keeps-refl db)
  ]
]
