-- ===== src/Worker/Exclusive.antt =====
-- About orchestrator/worker.py `_try_claim` and `_take_slot`: what a claim gives.
use mathlib.Core.Path.{subst}
use agentic_ai_model_adaptat.Prelude.{
  ℕ, zero, suc, ◌+◌, ◌<◌, ◌≡◌, refl, ◌∙◌, inl, inr, true, false, Option, none, some, List, elem,
  arith, Bool-cases, Option-cases, ◌==◌,
}
use agentic_ai_model_adaptat.Status.{
  JobStatus, queued, validating, data_preparing, status_eq, check_transition,
}
use agentic_ai_model_adaptat.Status.Paths.{Move}
use agentic_ai_model_adaptat.Jobs.Rows.{Job, JobSlot, Db, Settings, ok}
use agentic_ai_model_adaptat.Jobs.Tables.{find, put, find-put_self, find-id}
use agentic_ai_model_adaptat.Jobs.Locks.{renew_lock}
use agentic_ai_model_adaptat.Jobs.Transition.{Work, flush, no_changes, moved, apply_transition}
use agentic_ai_model_adaptat.Worker.Claim.{
  Claim, is_claimable, lease_row, claim_of, take_slot, first_free, tenant_limit, used_slots,
  live_slots, begin_attempt, try_claim,
}

-- `find` of a job's own row after a session that started with it.
flushed :
    (i : ℕ) (j : Job) (w : Work) (jobs : List Job)
    → find i jobs ≡ some j
    → w.job.job_id ≡ j.job_id
    → w.db.jobs ≡ jobs
    → find i (flush w).jobs ≡ some w.job
flushed i j w jobs found same kept =
    let key = same ∙ find-id i jobs {j = j} found in
    let there : find w.job.job_id w.db.jobs ≡ some j = rw (key, kept) found in
    subst (λ x. find x (put w.job w.db.jobs) ≡ some w.job) key
      (find-put_self w.job w.db.jobs {old = j} there)

queued-moves :
    (s : JobStatus)
    → status_eq s queued ≡ true
    → (Move s validating) × (Move validating data_preparing)
unfolding check_transition
queued-moves s e = ground arith

claimable-queued : (j : Job) → is_claimable j ≡ true → status_eq j.status queued ≡ true
claimable-queued j e = ground arith

-- The row is leased to a token: running, with one more attempt.
abbrev pub Leased : ℕ → ℕ → Job → Db → Type 0
Leased token i old d =
    (j : Job) × (find i d.jobs ≡ some j)
    × (j.status ≡ data_preparing)
    × (j.lease_token ≡ some token)
    × (j.attempt ≡ old.attempt + 1)

abbrev pub Claims : Settings → ℕ → ℕ → ℕ → ℕ → Job → Db → Type 0
Claims s now token owner i j db =
    (r : Claim × Db) × (try_claim s now token owner i db ≡ ok (some (r.0), r.1))
    × (r.0.lease_token ≡ token)
    × Leased token i j (r.1)

leased-not_claimable : (j : Job) (token : ℕ) → j.lease_token ≡ some token → is_claimable j ≡ false
leased-not_claimable j token e = ground arith

-- A queued job that no worker holds, whose tenant has a slot left, is claimed: its row is leased to
-- the worker's token and counts the attempt.
pub try_claim-Claims :
    (s : Settings) (now token owner i : ℕ) (db : Db) (j : Job) (slot : Option ℕ)
    (slots' : List JobSlot)
    → find i db.jobs ≡ some j
    → is_claimable j ≡ true
    → take_slot s now j.tenant j.job_id (now + s.job_lease_ttl_s) db.slots ≡ some (slot, slots')
    → Claims s now token owner i j db
unfolding try_claim begin_attempt apply_transition
try_claim-Claims s now token owner i db j slot slots' found free room =
    let (first, second) = queued-moves j.status (claimable-queued j free) in
    let start : Work = record {
      job = lease_row s now token owner j;
      db = record db { slots = slots' };
    } in
    let w : Work = moved data_preparing no_changes (moved validating no_changes start) in
    let d = w.db in
    let done : Work = record w {
      db = record d { locks = renew_lock j.model_id j.job_id (now + s.model_lock_ttl_s) d.locks };
    } in
    (
      (claim_of token slot w.job, flush done),
      ground arith,
      refl,
      (w.job, flushed i j done db.jobs found refl refl, refl, refl, refl),
    )

not_claimable-refused :
    (s : Settings) (now token owner i : ℕ) (db : Db) (j : Job)
    → find i db.jobs ≡ some j
    → is_claimable j ≡ false
    → try_claim s now token owner i db ≡ ok (none, db)
unfolding try_claim
not_claimable-refused s now token owner i db j found held = rw (found, held, try_claim) refl

-- Exclusive: when a queued job that no worker holds, and whose tenant has a slot left, was claimed, a
-- claim of it that follows is given nothing and changes nothing, by any worker and at any time.
pub try_claim-once :
    (s : Settings) (now token owner i : ℕ) (db : Db) (j : Job) (slot : Option ℕ)
    (slots' : List JobSlot) (later token' owner' : ℕ)
    → find i db.jobs ≡ some j
    → is_claimable j ≡ true
    → take_slot s now j.tenant j.job_id (now + s.job_lease_ttl_s) db.slots ≡ some (slot, slots')
    → (r : Claim × Db) × (try_claim s now token owner i db ≡ ok (some (r.0), r.1))
      × (try_claim s later token' owner' i (r.1) ≡ ok (none, r.1))
try_claim-once s now token owner i db j slot slots' later token' owner' found free room =
    let (r, claimed, is, (k, there, status, leased, tries)) =
      try_claim-Claims s now token owner i db j slot slots' found free room in
    (
      r,
      claimed,
      not_claimable-refused s later token' owner' i (r.1) k there
          (leased-not_claimable k token leased),
    )

first_free-bounds :
    (start count : ℕ) (used : List ℕ) (n : ℕ)
    → first_free start count used ≡ some n
    → (n < start + count) × (elem n used ≡ false)
first_free-bounds start zero used n e = cc
first_free-bounds start (suc count) used n e =
    ground (arith, first_free-bounds (suc start) count used n)

-- Bounded concurrency: a slot that a claim takes is below the tenant's limit, and no live slot of
-- that tenant has its number.
pub take_slot-bounds :
    (s : Settings) (now tenant job_id expires : ℕ) (slots : List JobSlot) (n : ℕ)
    (slots' : List JobSlot)
    → take_slot s now tenant job_id expires slots ≡ some (some n, slots')
    → (n < tenant_limit s tenant)
      × (elem n (used_slots tenant (live_slots now tenant slots)) ≡ false)
unfolding take_slot
take_slot-bounds s now tenant job_id expires slots n slots' e =
    let used = used_slots tenant (live_slots now tenant slots) in
    elim (Bool-cases (tenant_limit s tenant == 0)) [
      | inl z ↦ let e' = rw (z, take_slot) at e in cc
      | inr z ↦ elim (Option-cases (first_free 0 (tenant_limit s tenant) used)) [
        | inl full ↦ let e' = rw (z, full, take_slot) at e in cc
        | inr (m, free) ↦
            let e' = rw (z, free, take_slot) at e in
            let bounds = first_free-bounds 0 (tenant_limit s tenant) used m free in
            let same : m ≡ n = cc in
            subst (λ x. (x < tenant_limit s tenant) × (elem x used ≡ false)) same
              (omega (arith, bounds.0), bounds.1)
      ]
    ]
