-- ===== src/Worker/Claim.antt =====
-- orchestrator/worker.py: `_take_slot`, `_try_claim`, `claim`, and the supervisor's tick. A claim
-- is one transaction; one call reads the clock once, and its fresh token is an argument.
use agentic_ai_model_adaptat.Prelude.{
  ℕ, zero, suc, ◌+◌, Bool, true, false, not, ◌&&◌, ◌||◌, Option, none, some, List, [], ◌∷◌, ◌++◌,
  map, ltb, leb, ◌==◌, opt_eq, is_some, is_none, if◌then◌else◌, get_or, select, take, elem,
}
use agentic_ai_model_adaptat.Status.{queued, validating, data_preparing, status_eq}
use agentic_ai_model_adaptat.Jobs.Rows.{Job, JobSlot, Db, Settings, Result, ok, err, ◌>>=◌}
use agentic_ai_model_adaptat.Jobs.Tables.{find, put}
use agentic_ai_model_adaptat.Jobs.Locks.{renew_lock}
use agentic_ai_model_adaptat.Jobs.Transition.{
  flush, in_registry_stage, no_changes, apply_transition,
}

pub record Claim : Type 0 where
  pub job_id : ℕ
  pub lease_token : ℕ
  pub attempt : ℕ
  pub tenant : ℕ
  pub slot : Option ℕ
  pub model_id : ℕ
  pub deadline_at : Option ℕ

-- The slots of a tenant that are left once its expired ones are deleted, and the numbers in use.
abbrev pub live_slots : ℕ → ℕ → List JobSlot → List JobSlot
live_slots now tenant = select (λ t. not (t.tenant == tenant && ltb t.expires_at now))

abbrev pub used_slots : ℕ → List JobSlot → List ℕ
used_slots tenant slots = map (λ t. t.slot) (select (λ t. t.tenant == tenant) slots)

-- `next((n for n in range(limit) if n not in used), None)`, `n` counting up to `from + count`.
abbrev pub first_free : ℕ → ℕ → List ℕ → Option ℕ
first_free from zero used = none
first_free from (suc count) used =
    let rest = first_free (suc from) count used in if elem from used then rest else some from

abbrev pub tenant_limit : Settings → ℕ → ℕ
tenant_limit s tenant = get_or tenant s.job_tenant_limits s.job_tenant_concurrency

-- `_take_slot`: the slot (none: unlimited) and the slot rows, or `none` for `_NoSlot`.
unfoldable pub take_slot :
    Settings → ℕ → ℕ → ℕ → ℕ → List JobSlot → Option (Option ℕ × List JobSlot)
take_slot s now tenant job_id expires slots =
    let limit = tenant_limit s tenant in
    let live = live_slots now tenant slots in
    if limit == 0 then some (none, slots) else elim (first_free 0 limit (used_slots tenant live)) [
      | none ↦ none
      | some n ↦ some (
        some n,
        live ++ record { tenant = tenant; slot = n; job_id = job_id; expires_at = expires } ∷ [],
      )
    ]

-- The condition of the claim's UPDATE.
abbrev pub is_claimable : Job → Bool
is_claimable j = status_eq j.status queued && is_none j.lease_token && not j.quarantined

-- The values of the claim's UPDATE.
abbrev pub lease_row : Settings → ℕ → ℕ → ℕ → Job → Job
lease_row s now token owner j = record j {
  lease_token = some token;
  lease_owner = some owner;
  lease_expires_at = some (now + s.job_lease_ttl_s);
  attempt = j.attempt + 1;
}

abbrev pub claim_of : ℕ → Option ℕ → Job → Claim
claim_of token slot j = record {
  job_id = j.job_id;
  lease_token = token;
  attempt = j.attempt;
  tenant = j.tenant;
  slot = slot;
  model_id = j.model_id;
  deadline_at = j.deadline_at;
}

-- The row in its slot: its two transitions and the renewal of its model's lock.
unfoldable pub begin_attempt :
    Settings → ℕ → ℕ → ℕ → Job → Option ℕ → List JobSlot → Db → Result (Option Claim × Db)
unfolding apply_transition
begin_attempt s now token owner j slot slots' db = do
  w ←
      apply_transition validating no_changes
        (record { job = lease_row s now token owner j; db = record db { slots = slots' } })
  w' ← apply_transition data_preparing no_changes w
  let d = w'.db
  ok (
    some (claim_of token slot w'.job),
    flush (record w' {
      db = record d { locks = renew_lock j.model_id j.job_id (now + s.model_lock_ttl_s) d.locks };
    }),
  )

-- The claim of a row that the UPDATE won.
unfoldable pub claim_row : Settings → ℕ → ℕ → ℕ → Job → Db → Result (Option Claim × Db)
unfolding take_slot begin_attempt
claim_row s now token owner j db =
    elim (take_slot s now j.tenant j.job_id (now + s.job_lease_ttl_s) db.slots) [
      | none ↦ ok (none, db)
      | some (slot, slots') ↦ begin_attempt s now token owner j slot slots' db
    ]

-- `_try_claim`
unfoldable pub try_claim : Settings → ℕ → ℕ → ℕ → ℕ → Db → Result (Option Claim × Db)
unfolding claim_row
try_claim s now token owner job_id db = elim (find job_id db.jobs) [
  | none ↦ ok (none, db)
  | some j ↦ if is_claimable j then claim_row s now token owner j db else ok (none, db)
]

-- `order_by(priority.desc(), created_at, job_id)`
unfoldable pub claims_before : Job → Job → Bool
claims_before a b =
    ltb b.priority a.priority
    || (a.priority == b.priority
        && (ltb a.created_at b.created_at
            || (a.created_at == b.created_at && leb a.job_id b.job_id)))

unfoldable pub insert_by_claim : Job → List Job → List Job
insert_by_claim j [] = j ∷ []
insert_by_claim j (k ∷ ks) = if claims_before j k then j ∷ k ∷ ks else k ∷ insert_by_claim j ks

unfoldable pub sort_by_claim : List Job → List Job
unfolding insert_by_claim claims_before
sort_by_claim [] = []
sort_by_claim (j ∷ js) = insert_by_claim j (sort_by_claim js)

-- The rows that the candidate query selects.
abbrev pub is_candidate : ℕ → List ℕ → Job → Bool
is_candidate now classes j =
    is_claimable j
    && elem j.worker_class classes
    && (elim j.available_at [ none ↦ true | some t ↦ leb t now ])

unfoldable pub claim_candidates : Settings → ℕ → List ℕ → Db → List ℕ
unfolding sort_by_claim
claim_candidates s now classes db =
    map (λ j. j.job_id)
      (take s.job_claim_candidates (sort_by_claim (select (is_candidate now classes) db.jobs)))

-- The loop of `claim` over its candidates; `token i` is the token drawn for job `i`.
unfoldable pub claim_first :
    Settings → ℕ → (token : ℕ → ℕ) → ℕ → List ℕ → Db → Result (Option Claim × Db)
unfolding try_claim
claim_first s now token owner [] db = ok (none, db)
claim_first s now token owner (i ∷ is) db = elim (try_claim s now (token i) owner i db) [
  | err e ↦ err e
  | ok (some c, db') ↦ ok (some c, db')
  | ok (none, db') ↦ claim_first s now token owner is db'
]

-- `claim`: the named job, else the first that can be claimed of the candidates.
unfoldable pub claim :
    Settings → ℕ → (token : ℕ → ℕ) → ℕ → List ℕ → Option ℕ → Db → Result (Option Claim × Db)
unfolding claim_first claim_candidates
claim s now token owner classes none db =
    claim_first s now token owner (claim_candidates s now classes db) db
claim s now token owner classes (some i) db = try_claim s now (token i) owner i db

-- Why the supervisor stops an attempt.
pub data Stop : Type 0 where
  lease_lost cancelled drained : Stop

abbrev pub renew_slots : Claim → ℕ → List JobSlot → List JobSlot
renew_slots c until = map λ t.
    if (opt_eq c.slot t.slot && t.tenant == c.tenant) && t.job_id == c.job_id
    then record t { expires_at = until }
    else t

-- The renewal of the lease, the model lock and the slot.
abbrev pub renewed : Settings → ℕ → Claim → Job → Db → Db
renewed s now c j db = record db {
  jobs = put (record j { lease_expires_at = some (now + s.job_lease_ttl_s) }) db.jobs;
  locks = renew_lock c.model_id c.job_id (now + s.model_lock_ttl_s) db.locks;
  slots = renew_slots c (now + s.job_lease_ttl_s) db.slots;
}

-- `_Supervisor.__call__`: why to stop, the new `renewed_until`, and the database. `reachable`
-- says whether the database answered, `drain_over` whether the drain ran out of time.
unfoldable pub supervise :
    Settings → ℕ → (reachable drain_over : Bool) → Claim → ℕ → Db → Option Stop × ℕ × Db
supervise s now false drain_over c renewed_until db =
    (if leb renewed_until now then some lease_lost else none, renewed_until, db)
supervise s now true drain_over c renewed_until db = elim (find c.job_id db.jobs) [
  | none ↦ (some lease_lost, renewed_until, db)
  | some j ↦
      if not (opt_eq j.lease_token c.lease_token) then (some lease_lost, renewed_until, db) else (
        if is_some j.cancel_requested_at && not (in_registry_stage j.status)
            then some cancelled
            else (if drain_over then some drained else none),
        now + s.job_lease_ttl_s,
        renewed s now c j db,
      )
]
