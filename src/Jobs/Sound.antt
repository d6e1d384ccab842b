-- ===== src/Jobs/Sound.antt =====
-- The invariant of the job tables: one job for each idempotency key, and every job that has not
-- ended holds its model's lock.
use agentic_ai_model_adaptat.Prelude.{ℕ, ◌≡◌, sym, ◌∙◌, inl, inr, false, some, Bool-cases, some}
use agentic_ai_model_adaptat.Status.{is_terminal}
use agentic_ai_model_adaptat.Jobs.Rows.{Job, Db}
use agentic_ai_model_adaptat.Jobs.Tables.{find}
use agentic_ai_model_adaptat.Jobs.Locks.{holder}
use agentic_ai_model_adaptat.Jobs.Evolve.{Evolved, Evolved-terminal}
use agentic_ai_model_adaptat.Jobs.Keep.{Keeps}

pub record IsSound (db : Db) : Type 0 where
  pub keys :
      (i j : ℕ) (a b : Job)
      → find i db.jobs ≡ some a
      → find j db.jobs ≡ some b
      → a.idempotency_key ≡ b.idempotency_key
      → i ≡ j
  pub locked :
      (i : ℕ) (a : Job)
      → find i db.jobs ≡ some a
      → is_terminal a.status ≡ false
      → holder a.model_id db.locks ≡ some i

-- A row that has not ended comes from one that had not.
pub Evolved-live :
    (a b : Job) → Evolved a b → is_terminal b.status ≡ false → is_terminal a.status ≡ false
Evolved-live a b e live = elim (Bool-cases (is_terminal a.status)) [
  | inl ended ↦ cc (Evolved-terminal a b e ended)
  | inr alive ↦ alive
]

pub Keeps-IsSound : (db db' : Db) → Keeps db db' → IsSound db → IsSound db'
Keeps-IsSound db db' k s = record {
  keys = λ i j a b ea eb same.
      let (a₀, fa, ra) = k.comes i a ea in
      let (b₀, fb, rb) = k.comes j b eb in
      s.keys i j a₀ b₀ fa fb (sym ra.same_key ∙ same ∙ rb.same_key);
  locked = λ i b eb live.
      let (a, ea, ab) = k.comes i b eb in
      let held = s.locked i a ea (Evolved-live a b ab live) in
      elim (k.locks a.model_id i held) [
        | inl still ↦ rw ab.same_model still
        | inr ended ↦ cc (ended b eb)
      ];
}

-- Two jobs of one model that have not ended are one job.
pub IsSound-one_live :
    (db : Db) (i j : ℕ) (a b : Job)
    → IsSound db
    → find i db.jobs ≡ some a
    → find j db.jobs ≡ some b
    → a.model_id ≡ b.model_id
    → is_terminal a.status ≡ false
    → is_terminal b.status ≡ false
    → i ≡ j
IsSound-one_live db i j a b s ea eb same la lb = cc (s.locked i a ea la, s.locked j b eb lb, same)
