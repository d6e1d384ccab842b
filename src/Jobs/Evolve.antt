-- ===== src/Jobs/Evolve.antt =====
-- About orchestrator/jobs.py: how a job row may change from one transaction to another.
use mathlib.Core.Path.{subst}
use agentic_ai_model_adaptat.Prelude.{
  ℕ, ◌≡◌, refl, sym, ◌∙◌, inl, inr, true, some, List, arith, ◌==◌, Bool-cases, ==→eq,
}
use agentic_ai_model_adaptat.Status.{JobStatus, is_terminal, check_transition}
use agentic_ai_model_adaptat.Status.Paths.{
  Moves, here, Moves-trans, Move-Moves, terminal-Moves, terminal-no_Move,
}
use agentic_ai_model_adaptat.Jobs.Rows.{Job, ok}
use agentic_ai_model_adaptat.Jobs.Tables.{find, put, find-id, find-put_self, find-put_ne}
use agentic_ai_model_adaptat.Jobs.Transition.{Work, Changes, apply_transition}

-- The outcome of a job: what an ended job keeps.
pub record SameOutcome (a b : Job) : Type 0 where
  pub error : b.error ≡ a.error
  pub result : b.result ≡ a.result
  pub strategy : b.strategy ≡ a.strategy

pub record Evolved (a b : Job) : Type 0 where
  pub same_id : b.job_id ≡ a.job_id
  pub same_key : b.idempotency_key ≡ a.idempotency_key
  pub same_model : b.model_id ≡ a.model_id
  pub moves : Moves a.status b.status
  pub frozen : is_terminal a.status ≡ true → SameOutcome a b

pub Evolved-refl : (a : Job) → Evolved a a
Evolved-refl a = record {
  same_id = refl;
  same_key = refl;
  same_model = refl;
  moves = here;
  frozen = λ _. record { error = refl; result = refl; strategy = refl };
}

pub Evolved-trans : (a b c : Job) → Evolved a b → Evolved b c → Evolved a c
Evolved-trans a b c p q = record {
  same_id = q.same_id ∙ p.same_id;
  same_key = q.same_key ∙ p.same_key;
  same_model = q.same_model ∙ p.same_model;
  moves = Moves-trans p.moves q.moves;
  frozen = λ e.
      let pf = p.frozen e in
      let qf = q.frozen (subst (λ s. is_terminal s ≡ true) (sym (terminal-Moves e p.moves)) e) in
      record {
        error = qf.error ∙ pf.error;
        result = qf.result ∙ pf.result;
        strategy = qf.strategy ∙ pf.strategy;
      };
}

-- Every row of one database is a row of the other, evolved.
abbrev pub Evolves : List Job → List Job → Type 0
Evolves js js' =
    (i : ℕ) (a : Job) → find i js ≡ some a → (b : Job) × (find i js' ≡ some b) × Evolved a b

pub Evolves-refl : (js : List Job) → Evolves js js
Evolves-refl js i a e = (a, e, Evolved-refl a)

pub Evolves-trans : (a b c : List Job) → Evolves a b → Evolves b c → Evolves a c
Evolves-trans a b c p q i x e =
    let (y, ey, xy) = p i x e in let (z, ez, yz) = q i y ey in (z, ez, Evolved-trans x y z xy yz)

-- Flushing an evolved row evolves the table.
pub Evolves-put :
    (i : ℕ) (a b : Job) (js : List Job) → find i js ≡ some a → Evolved a b → Evolves js (put b js)
Evolves-put i a b js e ab k x f =
    let bi : b.job_id ≡ i = ab.same_id ∙ find-id i js e in
    let there : find b.job_id js ≡ some a = subst (λ n. find n js ≡ some a) (sym bi) e in
    elim (Bool-cases (k == b.job_id)) [
      | inl hit ↦
          let kb = ==→eq k b.job_id hit in
          let xa : x ≡ a = cc (f, there, kb) in
          (
            b,
            subst (λ n. find n (put b js) ≡ some b) (sym kb) (find-put_self b js there),
            subst (λ y. Evolved y b) (sym xa) ab,
          )
      | inr miss ↦ (x, find-put_ne k b js (λ q. ground arith) ∙ f, Evolved-refl x)
    ]

-- `apply_transition` moves the row along one allowed edge, and never out of an ended status.
pub apply_transition-Evolved :
    (to : JobStatus) (c : Changes) (w w' : Work)
    → apply_transition to c w ≡ ok w'
    → Evolved w.job w'.job
unfolding apply_transition
apply_transition-Evolved to c w w' e = elim (Bool-cases (check_transition w.job.status to)) [
  | inl allowed ↦ record {
    same_id = ground arith;
    same_key = ground arith;
    same_model = ground arith;
    moves = subst (λ s. Moves w.job.status s) (ground arith) (Move-Moves {t = to} allowed);
    frozen = λ t. absurd (terminal-no_Move w.job.status to t allowed);
  }
  | inr refused ↦ ground arith
]

pub apply_transition-jobs :
    (to : JobStatus) (c : Changes) (w w' : Work)
    → apply_transition to c w ≡ ok w'
    → w'.db.jobs ≡ w.db.jobs
unfolding apply_transition
apply_transition-jobs to c w w' e = ground arith

-- A row whose identity, status and outcome fields are as before.
pub Evolved-touch :
    (a b : Job)
    → (b.job_id ≡ a.job_id)
      × (b.idempotency_key ≡ a.idempotency_key)
      × (b.model_id ≡ a.model_id)
      × (b.status ≡ a.status)
    → SameOutcome a b
    → Evolved a b
Evolved-touch a b (i, k, m, s) o = record {
  same_id = i;
  same_key = k;
  same_model = m;
  moves = subst (λ t. Moves a.status t) (sym s) here;
  frozen = λ _. o;
}

-- The new status of a recorded transition.
pub apply_transition-status :
    (to : JobStatus) (c : Changes) (w w' : Work)
    → apply_transition to c w ≡ ok w'
    → w'.job.status ≡ to
unfolding apply_transition
apply_transition-status to c w w' e = ground arith

pub apply_transition-locks :
    (to : JobStatus) (c : Changes) (w w' : Work)
    → apply_transition to c w ≡ ok w'
    → w'.db.locks ≡ w.db.locks
unfolding apply_transition
apply_transition-locks to c w w' e = ground arith

-- A row that has evolved from an ended one has ended.
pub Evolved-terminal :
    (a b : Job) → Evolved a b → is_terminal a.status ≡ true → is_terminal b.status ≡ true
Evolved-terminal a b e t = subst (λ s. is_terminal s ≡ true) (sym (terminal-Moves t e.moves)) t

-- Every row of the later database is a row of the earlier one, evolved.
abbrev pub Comes : List Job → List Job → Type 0
Comes js js' =
    (i : ℕ) (b : Job) → find i js' ≡ some b → (a : Job) × (find i js ≡ some a) × Evolved a b

pub Comes-put :
    (i : ℕ) (a b : Job) (js : List Job) → find i js ≡ some a → Evolved a b → Comes js (put b js)
Comes-put i a b js e ab k y f =
    let bi : b.job_id ≡ i = ab.same_id ∙ find-id i js e in
    let there : find b.job_id js ≡ some a = subst (λ n. find n js ≡ some a) (sym bi) e in
    elim (Bool-cases (k == b.job_id)) [
      | inl hit ↦
          let kb = ==→eq k b.job_id hit in
          let yb : y ≡ b = cc (f, find-put_self b js there, kb) in
          (a, subst (λ n. find n js ≡ some a) (sym kb) there, subst (λ z. Evolved a z) (sym yb) ab)
      | inr miss ↦ (y, sym (find-put_ne k b js (λ q. ground arith)) ∙ f, Evolved-refl y)
    ]
