-- ===== src/Jobs/Keep.antt =====
-- About orchestrator/jobs.py and orchestrator/worker.py: what an operation on queued and running
-- jobs keeps of the rows and of the model locks.
use mathlib.Core.Path.{subst}
use agentic_ai_model_adaptat.Prelude.{
  ℕ, ◌≡◌, sym, ◌∙◌, ap, ◌⊎◌, inl, inr, true, some, List, arith, ◌==◌, Bool-cases, ==→eq,
}
use agentic_ai_model_adaptat.Status.{JobStatus, is_terminal}
use agentic_ai_model_adaptat.Jobs.Rows.{Job, Db, ok}
use agentic_ai_model_adaptat.Jobs.Tables.{find, put, find-id, find-put_self}
use agentic_ai_model_adaptat.Jobs.Locks.{
  holder, release_lock, holder-release_lock_other, renew_lock, holder-renew_lock,
}
use agentic_ai_model_adaptat.Jobs.Transition.{Work, Changes, flush, apply_transition}
use agentic_ai_model_adaptat.Jobs.Evolve.{
  Evolved, Evolved-refl, Evolved-trans, Evolves, Evolves-refl, Evolves-trans, Evolves-put, Comes,
  Comes-put, Evolved-terminal, apply_transition-Evolved, apply_transition-jobs,
  apply_transition-locks,
}

-- The job, if it is there, has ended.
abbrev pub Ended : ℕ → List Job → Type 0
Ended i js = (b : Job) → find i js ≡ some b → is_terminal b.status ≡ true

pub record Keeps (db db' : Db) : Type 0 where
  pub evolves : Evolves db.jobs db'.jobs
  pub comes : Comes db.jobs db'.jobs
  pub locks :
      (m h : ℕ) → holder m db.locks ≡ some h → (holder m db'.locks ≡ some h) ⊎ Ended h db'.jobs

pub Keeps-refl : (db : Db) → Keeps db db
Keeps-refl db = record {
  evolves = Evolves-refl db.jobs;
  comes = λ i b e. (b, e, Evolved-refl b);
  locks = λ m h e. inl e;
}

Ended-Comes : (i : ℕ) (js js' : List Job) → Comes js js' → Ended i js → Ended i js'
Ended-Comes i js js' c d b e = let (a, ea, ab) = c i b e in Evolved-terminal a b ab (d a ea)

pub Keeps-trans : (a b c : Db) → Keeps a b → Keeps b c → Keeps a c
Keeps-trans a b c p q = record {
  evolves = Evolves-trans a.jobs b.jobs c.jobs p.evolves q.evolves;
  comes = λ i z ez.
      let (y, ey, yz) = q.comes i z ez in
      let (x, ex, xy) = p.comes i y ey in (x, ex, Evolved-trans x y z xy yz);
  locks = λ m h e. elim (p.locks m h e) [
    | inl held ↦ q.locks m h held
    | inr ended ↦ inr (Ended-Comes h b.jobs c.jobs q.comes ended)
  ];
}

-- What a session has done so far to the row `a` of `db` that it loaded: the other rows are as
-- they were, and the job's lock is gone only if the job has ended.
pub record Tracks (a : Job) (db : Db) (w : Work) : Type 0 where
  pub row : Evolved a w.job
  pub jobs : w.db.jobs ≡ db.jobs
  pub locks :
      (m h : ℕ)
      → holder m db.locks ≡ some h
      → (holder m w.db.locks ≡ some h) ⊎ ((h ≡ a.job_id) × (is_terminal w.job.status ≡ true))

pub Tracks-start :
    (a : Job) (db d : Db)
    → d.jobs ≡ db.jobs
    → d.locks ≡ db.locks
    → Tracks a db (record { job = a; db = d })
Tracks-start a db d ej el = record {
  row = Evolved-refl a;
  jobs = ej;
  locks = λ m h e. inl (subst (λ ls. holder m ls ≡ some h) (sym el) e);
}

pub Tracks-row :
    (a b : Job) (db d : Db) (w : Work)
    → Tracks a db w
    → Evolved w.job b
    → d.jobs ≡ w.db.jobs
    → d.locks ≡ w.db.locks
    → Tracks a db (record { job = b; db = d })
Tracks-row a b db d w t e j l = record {
  row = Evolved-trans a w.job b t.row e;
  jobs = j ∙ t.jobs;
  locks = λ m h x. elim (t.locks m h x) [
    | inl held ↦ inl (subst (λ ls. holder m ls ≡ some h) (sym l) held)
    | inr (own, ended) ↦ inr (own, Evolved-terminal w.job b e ended)
  ];
}

-- An ended job may give its lock back.
pub Tracks-release :
    (a : Job) (db d : Db) (w : Work) (m : ℕ)
    → Tracks a db w
    → is_terminal w.job.status ≡ true
    → d.jobs ≡ w.db.jobs
    → d.locks ≡ release_lock m w.job.job_id w.db.locks
    → Tracks a db (record { job = w.job; db = d })
Tracks-release a db d w m t ended j l = record {
  row = t.row;
  jobs = j ∙ t.jobs;
  locks = λ m' h x. elim (t.locks m' h x) [
    | inl held ↦ elim (Bool-cases (h == w.job.job_id)) [
      | inl own ↦ inr (==→eq h w.job.job_id own ∙ t.row.same_id, ended)
      | inr other ↦ inl (
          subst (λ ls. holder m' ls ≡ some h) (sym l)
            (holder-release_lock_other m' m w.job.job_id w.db.locks held (λ q. ground arith)))
    ]
    | inr done ↦ inr done
  ];
}

pub Tracks-apply_transition :
    (a : Job) (db : Db) (to : JobStatus) (c : Changes) (w w' : Work)
    → Tracks a db w
    → apply_transition to c w ≡ ok w'
    → Tracks a db w'
Tracks-apply_transition a db to c w w' t e =
    Tracks-row a w'.job db w'.db w t (apply_transition-Evolved to c w w' e)
      (apply_transition-jobs to c w w' e) (apply_transition-locks to c w w' e)

-- The commit of such a session.
pub Tracks-Keeps :
    (i : ℕ) (a : Job) (db : Db) (w : Work)
    → find i db.jobs ≡ some a
    → Tracks a db w
    → Keeps db (flush w)
Tracks-Keeps i a db w e t =
    let same = ap (put w.job) t.jobs in
    let ended : is_terminal w.job.status ≡ true → Ended a.job_id (put w.job db.jobs) = λ done b eb.
      let here = subst (λ n. find n db.jobs ≡ some a) (sym (find-id i db.jobs e)) e in
      let mine =
        find-put_self w.job db.jobs
          (subst (λ n. find n db.jobs ≡ some a) (sym t.row.same_id) here) in
      let wb : w.job ≡ b = cc (mine, eb, t.row.same_id) in
      subst (λ x. is_terminal x.status ≡ true) wb done in
    record {
      evolves = subst (λ js. Evolves db.jobs js) (sym same) (Evolves-put i a w.job db.jobs e t.row);
      comes = subst (λ js. Comes db.jobs js) (sym same) (Comes-put i a w.job db.jobs e t.row);
      locks = λ m h x. elim (t.locks m h x) [
        | inl held ↦ inl held
        | inr (own, done) ↦ inr (
            subst (λ js. Ended h js) (sym same)
              (subst (λ n. Ended n (put w.job db.jobs)) (sym own) (ended done)))
      ];
    }

-- A change of other tables.
pub Keeps-other :
    (db db' d : Db) → Keeps db db' → d.jobs ≡ db'.jobs → d.locks ≡ db'.locks → Keeps db d
Keeps-other db db' d k ej el = record {
  evolves = subst (λ js. Evolves db.jobs js) (sym ej) k.evolves;
  comes = subst (λ js. Comes db.jobs js) (sym ej) k.comes;
  locks = λ m h x.
      subst (λ js. (holder m d.locks ≡ some h) ⊎ Ended h js) (sym ej)
        (subst (λ ls. (holder m ls ≡ some h) ⊎ Ended h db'.jobs) (sym el) (k.locks m h x));
}

-- Renewing a lock changes no holder.
pub Keeps-renew :
    (db db' d : Db) (m i until : ℕ)
    → Keeps db db'
    → d.jobs ≡ db'.jobs
    → d.locks ≡ renew_lock m i until db'.locks
    → Keeps db d
Keeps-renew db db' d m i until k ej el = record {
  evolves = subst (λ js. Evolves db.jobs js) (sym ej) k.evolves;
  comes = subst (λ js. Comes db.jobs js) (sym ej) k.comes;
  locks = λ m' h x.
      let same : holder m' d.locks ≡ holder m' db'.locks =
        ap (holder m') el ∙ holder-renew_lock m' m i until db'.locks in
      subst (λ js. (holder m' d.locks ≡ some h) ⊎ Ended h js) (sym ej)
        (subst (λ o. (o ≡ some h) ⊎ Ended h db'.jobs) (sym same) (k.locks m' h x));
}
