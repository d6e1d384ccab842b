-- ===== src/Jobs/LockTaken.antt =====
-- About orchestrator/jobs.py `_submit`: the model lock after `lock_model` of Jobs/Submit.
use mathlib.Core.Path.{subst}
use agentic_ai_model_adaptat.Prelude.{
  ℕ, ◌≡◌, refl, sym, ◌∙◌, ap, ◌≢◌, ◌⊎◌, inl, inr, true, Option, none, some, arith, ◌==◌, Bool-cases,
  Option-cases,
}
use agentic_ai_model_adaptat.Status.{failed, is_terminal}
use agentic_ai_model_adaptat.Jobs.Rows.{Db, Settings, ok, >>=-eq-ok}
use agentic_ai_model_adaptat.Jobs.Tables.{find, find-id, find-put_self}
use agentic_ai_model_adaptat.Jobs.Locks.{
  holder, take_over_expired_lock, add_lock, holder-take_over, holder-add_lock, add_lock-free,
}
use agentic_ai_model_adaptat.Jobs.Transition.{Work, flush, apply_transition, with_error}
use agentic_ai_model_adaptat.Jobs.Submit.{
  holder_is_active, fail_abandoned_job, hand_over, lock_model, abandoned_error,
}
use agentic_ai_model_adaptat.Jobs.Evolve.{
  Evolved-refl, Evolved-touch, Evolves, Evolves-refl, Comes, apply_transition-jobs,
  apply_transition-locks, apply_transition-status,
}
use agentic_ai_model_adaptat.Jobs.Keep.{
  Ended, Keeps, Keeps-refl, Keeps-other, Tracks-start, Tracks-row, Tracks-apply_transition,
  Tracks-Keeps,
}

-- After `fail_abandoned_job` the old job has ended; no lock moves.
pub record Failed (p : ℕ) (d d' : Db) : Type 0 where
  pub keeps : Keeps d d'
  pub locks : d'.locks ≡ d.locks
  pub ended : Ended p d'.jobs

fail_abandoned_job-Failed : (p : ℕ) (d d' : Db) → fail_abandoned_job p d ≡ ok d' → Failed p d d'
unfolding fail_abandoned_job
fail_abandoned_job-Failed p d d' e = elim (Option-cases (find p d.jobs)) [
  | inl missing ↦
      let same : d' ≡ d = ground arith in
      record {
        keeps = subst (λ x. Keeps d x) (sym same) (Keeps-refl d);
        locks = ap (λ x. x.locks) same;
        ended = λ b eb. cc (ap (λ x. find p x.jobs) same, missing, eb);
      }
  | inr (old, eo) ↦ elim (Bool-cases (is_terminal old.status)) [
    | inl done ↦
        let same : d' ≡ d = ground arith in
        record {
          keeps = subst (λ x. Keeps d x) (sym same) (Keeps-refl d);
          locks = ap (λ x. x.locks) same;
          ended = λ b eb.
              let ob : old ≡ b = cc (ap (λ x. find p x.jobs) same, eo, eb) in
              subst (λ x. is_terminal x.status ≡ true) ob done;
        }
    | inr live ↦
        let start : Work = record { job = old; db = d } in
        let c = with_error (abandoned_error old.status) in
        let (w, ew, e₁) =
          >>=-eq-ok (apply_transition failed c start) _ (rw (eo, fail_abandoned_job, live) at e) in
        let j = w.job in
        let last : Work = record w {
          job = record j { lease_token = none; lease_expires_at = none };
        } in
        let t₁ =
          Tracks-apply_transition old d failed c start w (Tracks-start old d d refl refl) ew in
        let touched =
          Evolved-touch j last.job (refl, refl, refl, refl)
            (record { error = refl; result = refl; strategy = refl }) in
        let t₂ = Tracks-row old last.job d w.db w t₁ touched refl refl in
        let unlocked : d'.locks ≡ w.db.locks = ground arith in
        let flushed : d'.jobs ≡ (flush last).jobs = ground arith in
        record {
          keeps =
              Keeps-other d (flush last) d' (Tracks-Keeps p old d last eo t₂) flushed
                (ground arith);
          locks = cc (apply_transition-locks failed c start w ew, unlocked);
          ended = λ b eb.
              let own : last.job.job_id ≡ p = t₂.row.same_id ∙ find-id p d.jobs eo in
              let kept : find last.job.job_id w.db.jobs ≡ some old =
                cc (apply_transition-jobs failed c start w ew, own, eo) in
              let mine = find-put_self last.job w.db.jobs kept in
              let lb : last.job ≡ b = cc (mine, own, ap (find p) flushed, eb) in
              subst (λ x. is_terminal x.status ≡ true) lb
                (rw (apply_transition-status failed c start w ew) refl);
        }
  ]
]

-- What `hand_over` makes of the former holder.
hand_over-Ended :
    (prev : Option ℕ) (i : ℕ) (d d' : Db)
    → hand_over prev i d ≡ ok d'
    → (Keeps d d') × (d'.locks ≡ d.locks) × ((h : ℕ) → prev ≡ some h → (h ≡ i) ⊎ Ended h d'.jobs)
unfolding hand_over
hand_over-Ended none i d d' e =
    let same : d' ≡ d = ground arith in
    (subst (λ x. Keeps d x) (sym same) (Keeps-refl d), ap (λ x. x.locks) same, λ h q. ground arith)
hand_over-Ended (some p) i d d' e = elim (Bool-cases (p == i)) [
  | inl own ↦
      let same : d' ≡ d = ground arith in
      (
        subst (λ x. Keeps d x) (sym same) (Keeps-refl d),
        ap (λ x. x.locks) same,
        λ h q. inl (ground arith),
      )
  | inr other ↦
      let f = fail_abandoned_job-Failed p d d' (rw (other, hand_over) at e) in
      (
        f.keeps,
        f.locks,
        λ h q. let ph : p ≡ h = cc q in inr (subst (λ n. Ended n d'.jobs) ph f.ended),
      )
]

-- The model's lock after `lock_model`: the new job's, and any former holder has ended.
pub record Locked (m i : ℕ) (d d' : Db) : Type 0 where
  pub evolves : Evolves d.jobs d'.jobs
  pub comes : Comes d.jobs d'.jobs
  pub mine : holder m d'.locks ≡ some i
  pub others : (m' : ℕ) → m' ≢ m → holder m' d'.locks ≡ holder m' d.locks
  pub former : (h : ℕ) → holder m d.locks ≡ some h → (h ≡ i) ⊎ Ended h d'.jobs

pub lock_model-Locked :
    (s : Settings) (now m i : ℕ) (d d' : Db) → lock_model s now m i d ≡ ok d' → Locked m i d d'
unfolding lock_model
lock_model-Locked s now m i d d' e =
    let ttl = s.model_lock_ttl_s in
    elim (Bool-cases (holder_is_active now d (holder m d.locks))) [
      | inl active ↦ ground arith
      | inr idle ↦ elim (Option-cases (take_over_expired_lock m i now ttl d.locks)) [
        | inr (ls, taken) ↦
            let mid = record d { locks = ls } in
            let (k, same, former) =
              hand_over-Ended (holder m d.locks) i mid d' (rw (idle, taken, lock_model) at e) in
            record {
              evolves = k.evolves;
              comes = k.comes;
              mine = ground (arith, holder-take_over m m i now ttl d.locks {ls' = ls});
              others = λ m' ne. ground (arith, holder-take_over m' m i now ttl d.locks {ls' = ls});
              former = former;
            }
        | inl fresh ↦ elim (Option-cases (add_lock m i now ttl d.locks)) [
          | inl clash ↦ ground arith
          | inr (ls, added) ↦
              let same : d' ≡ record d { locks = ls } = ground arith in
              record {
                evolves = subst (λ x. Evolves d.jobs x.jobs) (sym same) (Evolves-refl d.jobs);
                comes =
                    subst (λ x. Comes d.jobs x.jobs) (sym same) (λ n b eb. (b, eb, Evolved-refl b));
                mine = rw same (ground (arith, holder-add_lock m m i now ttl d.locks {ls' = ls}));
                others = λ m' ne.
                    rw same (ground (arith, holder-add_lock m' m i now ttl d.locks {ls' = ls}));
                former = λ h q. cc (add_lock-free m i now ttl d.locks added, q);
              }
        ]
      ]
    ]
