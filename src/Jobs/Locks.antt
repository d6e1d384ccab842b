-- ===== src/Jobs/Locks.antt =====
-- orchestrator/locks.py: the per-model lock rows, keyed by model.
use agentic_ai_model_adaptat.Prelude.{
  ℕ, ◌+◌, ◌≡◌, refl, ◌&&◌, Option, none, some, List, [], ◌∷◌, ◌++◌, arith, ltb, ◌≢◌, Option-cases,
  inl, inr, ◌==◌, if◌then◌else◌,
}
use agentic_ai_model_adaptat.Jobs.Rows.{ModelLock}

-- Which job holds the model's lock.
abbrev pub holder : ℕ → List ModelLock → Option ℕ
holder m [] = none
holder m (l ∷ ls) = if l.model_id == m then some l.job_id else holder m ls

abbrev new_lock : ℕ → ℕ → ℕ → ℕ → ModelLock
new_lock m job_id now ttl = record {
  model_id = m;
  job_id = job_id;
  acquired_at = now;
  expires_at = now + ttl;
}

-- The conditional UPDATE: the lock rows after it, or `none` when no row matched.
unfoldable pub take_over_expired_lock : ℕ → ℕ → ℕ → ℕ → List ModelLock → Option (List ModelLock)
take_over_expired_lock m job_id now ttl [] = none
take_over_expired_lock m job_id now ttl (l ∷ ls) =
    let rest = take_over_expired_lock m job_id now ttl ls in
    if l.model_id == m
    then if ltb l.expires_at now then some (new_lock m job_id now ttl ∷ ls) else none
    else elim rest [ none ↦ none | some ls' ↦ some (l ∷ ls') ]

-- The INSERT with its flush: `none` is the IntegrityError of a row that exists.
unfoldable pub add_lock : ℕ → ℕ → ℕ → ℕ → List ModelLock → Option (List ModelLock)
add_lock m job_id now ttl ls = elim (holder m ls) [
  | none ↦ some (ls ++ new_lock m job_id now ttl ∷ [])
  | some _ ↦ none
]

-- The DELETE of the rows that match.
unfoldable pub release_lock : ℕ → ℕ → List ModelLock → List ModelLock
release_lock m job_id [] = []
release_lock m job_id (l ∷ ls) =
    let rest = release_lock m job_id ls in
    if l.model_id == m && l.job_id == job_id then rest else l ∷ rest

-- `update(ModelLock).where(model_id == m, job_id == job_id).values(expires_at = until)`
unfoldable pub renew_lock : ℕ → ℕ → ℕ → List ModelLock → List ModelLock
renew_lock m job_id until [] = []
renew_lock m job_id until (l ∷ ls) =
    if l.model_id == m && l.job_id == job_id
    then record l { expires_at = until } ∷ ls
    else l ∷ renew_lock m job_id until ls

-- Renewing a lock moves no lock to another job.
pub holder-renew_lock :
    (m' m job_id until : ℕ) (ls : List ModelLock)
    → holder m' (renew_lock m job_id until ls) ≡ holder m' ls
unfolding renew_lock
holder-renew_lock m' m job_id until [] = refl
holder-renew_lock m' m job_id until (l ∷ ls) =
    ground (arith, holder-renew_lock m' m job_id until ls)

-- A release takes no lock from another job,
pub holder-release_lock_other :
    (m' m job_id : ℕ) (ls : List ModelLock) {h : ℕ}
    → holder m' ls ≡ some h
    → h ≢ job_id
    → holder m' (release_lock m job_id ls) ≡ some h
unfolding release_lock
holder-release_lock_other m' m job_id [] e ne = cc
holder-release_lock_other m' m job_id (l ∷ ls) {h = h} e ne =
    ground (arith, holder-release_lock_other m' m job_id ls {h = h})

-- and the job does not hold the lock after it.
pub holder-release_lock_ne :
    (m job_id : ℕ) (ls : List ModelLock) → holder m (release_lock m job_id ls) ≢ some job_id
unfolding release_lock
holder-release_lock_ne m job_id [] e = cc
holder-release_lock_ne m job_id (l ∷ ls) e = ground (arith, holder-release_lock_ne m job_id ls)

pub holder-take_over :
    (m' m job_id now ttl : ℕ) (ls : List ModelLock) {ls' : List ModelLock}
    → take_over_expired_lock m job_id now ttl ls ≡ some ls'
    → holder m' ls' ≡ (if m' == m then some job_id else holder m' ls)
unfolding take_over_expired_lock
holder-take_over m' m job_id now ttl [] e = cc
holder-take_over m' m job_id now ttl (l ∷ ls) {ls' = ls'} e =
    elim (Option-cases (take_over_expired_lock m job_id now ttl ls)) [
      | inl unmatched ↦ ground arith
      | inr (rest, taken) ↦ ground (arith, holder-take_over m' m job_id now ttl ls {ls' = rest})
    ]

pub holder-append_lock :
    (m' : ℕ) (l : ModelLock) (ls : List ModelLock)
    → holder l.model_id ls ≡ none
    → holder m' (ls ++ l ∷ []) ≡ (if m' == l.model_id then some l.job_id else holder m' ls)
holder-append_lock m' l [] e = ground arith
holder-append_lock m' l (x ∷ xs) e = ground (arith, holder-append_lock m' l xs)

pub holder-add_lock :
    (m' m job_id now ttl : ℕ) (ls : List ModelLock) {ls' : List ModelLock}
    → add_lock m job_id now ttl ls ≡ some ls'
    → holder m' ls' ≡ (if m' == m then some job_id else holder m' ls)
unfolding add_lock
holder-add_lock m' m job_id now ttl ls e =
    ground (arith, holder-append_lock m' (new_lock m job_id now ttl) ls)

-- A lock is added where there was none.
pub add_lock-free :
    (m job_id now ttl : ℕ) (ls : List ModelLock) {ls' : List ModelLock}
    → add_lock m job_id now ttl ls ≡ some ls'
    → holder m ls ≡ none
unfolding add_lock
add_lock-free m job_id now ttl ls e = ground arith
