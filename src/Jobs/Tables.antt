-- ===== src/Jobs/Tables.antt =====
-- Reading and writing rows of the job table by primary key, with the laws of the two.
use agentic_ai_model_adaptat.Prelude.{
  ℕ, ◌≡◌, refl, ◌≢◌, ◌⊎◌, inl, inr, Bool-cases, Option, none, some, List, [], ◌∷◌, ◌++◌, arith,
  ◌==◌, if◌then◌else◌,
}
use agentic_ai_model_adaptat.Jobs.Rows.{Job}

-- `select(AdaptationJob).where(job_id == ...)`, `.scalar_one_or_none()`
abbrev pub find : ℕ → List Job → Option Job
find i [] = none
find i (j ∷ js) = if j.job_id == i then some j else find i js

-- The flush of a changed row.
abbrev pub put : Job → List Job → List Job
put j [] = []
put j (k ∷ ks) = if k.job_id == j.job_id then j ∷ ks else k ∷ put j ks

-- `select(AdaptationJob).where(idempotency_key == ...)`
abbrev pub find_key : ℕ → List Job → Option Job
find_key k [] = none
find_key k (j ∷ js) = if j.idempotency_key == k then some j else find_key k js

-- `session.add(job)` and its flush.
abbrev pub insert : Job → List Job → List Job
insert j js = js ++ j ∷ []

pub find-id : (i : ℕ) (js : List Job) {j : Job} → find i js ≡ some j → j.job_id ≡ i
find-id i [] e = cc
find-id i (k ∷ ks) {j = j} e = ground (arith, find-id i ks {j = j})

pub find-put_self :
    (j : Job) (js : List Job) {old : Job}
    → find j.job_id js ≡ some old
    → find j.job_id (put j js) ≡ some j
find-put_self j [] e = cc
find-put_self j (k ∷ ks) {old = old} e = ground (arith, find-put_self j ks {old = old})

pub find-put_ne : (i : ℕ) (j : Job) (js : List Job) → i ≢ j.job_id → find i (put j js) ≡ find i js
find-put_ne i j [] ne = refl
find-put_ne i j (k ∷ ks) ne = ground (arith, find-put_ne i j ks)

pub find-insert_old :
    (i : ℕ) (j : Job) (js : List Job) {a : Job} → find i js ≡ some a → find i (insert j js) ≡ some a
find-insert_old i j [] e = cc
find-insert_old i j (k ∷ ks) {a = a} e = ground (arith, find-insert_old i j ks {a = a})

pub find-insert_new :
    (i : ℕ) (j : Job) (js : List Job)
    → find i js ≡ none
    → find i (insert j js) ≡ (if j.job_id == i then some j else none)
find-insert_new i j [] e = refl
find-insert_new i j (k ∷ ks) e = ground (arith, find-insert_new i j ks)

-- A row of the grown table is an old row or the new one.
pub find-insert_cases :
    (i : ℕ) (j : Job) (js : List Job) {a : Job}
    → find i (insert j js) ≡ some a
    → (find i js ≡ some a) ⊎ ((i ≡ j.job_id) × (a ≡ j))
find-insert_cases i j [] e = ground arith
find-insert_cases i j (k ∷ ks) {a = a} e = elim (Bool-cases (k.job_id == i)) [
  | inl own ↦ inl (ground arith)
  | inr other ↦
      let rest = find-insert_cases i j ks {a = a} (ground arith) in
      elim rest [ inl old ↦ inl (ground arith) | inr new ↦ inr new ]
]

-- No row has the key that `find_key` does not find.
pub find_key-none :
    (k : ℕ) (js : List Job) (i : ℕ) {j : Job}
    → find_key k js ≡ none
    → find i js ≡ some j
    → j.idempotency_key ≢ k
find_key-none k [] i e f = cc
find_key-none k (x ∷ xs) i {j = j} e f = ground (arith, find_key-none k xs i {j = j})

pub find_key-key :
    (k : ℕ) (js : List Job) {j : Job} → find_key k js ≡ some j → j.idempotency_key ≡ k
find_key-key k [] e = cc
find_key-key k (x ∷ xs) {j = j} e = ground (arith, find_key-key k xs {j = j})
