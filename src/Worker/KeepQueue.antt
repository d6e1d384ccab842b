-- ===== src/Worker/KeepQueue.antt =====
-- About orchestrator/worker.py: the claim and the supervisor's tick, and Jobs/Keep.
use mathlib.Core.Path.{subst}
use agentic_ai_model_adaptat.Prelude.{
  ℕ, ◌+◌, ◌≡◌, refl, sym, inl, inr, Bool, true, false, Option, none, some, List, [], ◌∷◌, arith,
  Bool-cases, Option-cases, opt_eq,
}
use agentic_ai_model_adaptat.Status.{validating, data_preparing}
use agentic_ai_model_adaptat.Jobs.Rows.{Job, JobSlot, Db, Settings, Result, ok, err, >>=-eq-ok}
use agentic_ai_model_adaptat.Jobs.Tables.{find, find-id}
use agentic_ai_model_adaptat.Jobs.Transition.{Work, flush, apply_transition, no_changes}
use agentic_ai_model_adaptat.Jobs.Evolve.{Evolved, Evolved-touch}
use agentic_ai_model_adaptat.Jobs.Keep.{
  Keeps, Keeps-refl, Keeps-trans, Keeps-renew, Tracks-start, Tracks-row, Tracks-apply_transition,
  Tracks-Keeps,
}
use agentic_ai_model_adaptat.Worker.Claim.{
  Claim, take_slot, lease_row, begin_attempt, renewed, claim_row, try_claim, claim_first,
  claim_candidates, claim, supervise, is_claimable,
}

-- Writing a row that has only been touched.
pub put-Keeps :
    (i : ℕ) (a b : Job) (db d : Db)
    → find i db.jobs ≡ some a
    → Evolved a b
    → d.jobs ≡ db.jobs
    → d.locks ≡ db.locks
    → Keeps db (flush (record { job = b; db = d }))
put-Keeps i a b db d found e ej el =
    Tracks-Keeps i a db (record { job = b; db = d }) found
      (Tracks-row a b db d (record { job = a; db = d }) (Tracks-start a db d ej el) e refl refl)

begin_attempt-Keeps :
    (s : Settings) (now token owner : ℕ) (j : Job) (slot : Option ℕ) (slots' : List JobSlot)
    (db : Db) (r : Option Claim × Db)
    → find j.job_id db.jobs ≡ some j
    → begin_attempt s now token owner j slot slots' db ≡ ok r
    → Keeps db r.1
unfolding begin_attempt
begin_attempt-Keeps s now token owner j slot slots' db r found e =
    let row = lease_row s now token owner j in
    let start : Work = record { job = row; db = record db { slots = slots' } } in
    let (w, ew, e₁) = >>=-eq-ok (apply_transition validating no_changes start) _ e in
    let (v, ev, e₂) = >>=-eq-ok (apply_transition data_preparing no_changes w) _ e₁ in
    let loaded = Tracks-start j db (record db { slots = slots' }) refl refl in
    let touched =
      Evolved-touch j row (refl, refl, refl, refl)
        (record { error = refl; result = refl; strategy = refl }) in
    let t₀ = Tracks-row j row db (record db { slots = slots' }) _ loaded touched refl refl in
    let t₁ = Tracks-apply_transition j db validating no_changes start w t₀ ew in
    let t₂ = Tracks-apply_transition j db data_preparing no_changes w v t₁ ev in
    Keeps-renew db (flush v) r.1 j.model_id j.job_id (now + s.model_lock_ttl_s)
      (Tracks-Keeps j.job_id j db v found t₂) (ground arith) (ground arith)

claim_row-Keeps :
    (s : Settings) (now token owner : ℕ) (j : Job) (db : Db) (r : Option Claim × Db)
    → find j.job_id db.jobs ≡ some j
    → claim_row s now token owner j db ≡ ok r
    → Keeps db r.1
unfolding claim_row
claim_row-Keeps s now token owner j db r found e =
    elim (Option-cases (take_slot s now j.tenant j.job_id (now + s.job_lease_ttl_s) db.slots)) [
      | inl full ↦ subst (λ x. Keeps db x) (ground arith) (Keeps-refl db)
      | inr (t, et) ↦
          begin_attempt-Keeps s now token owner j t.0 t.1 db r found (rw (et, claim_row) at e)
    ]

pub try_claim-Keeps :
    (s : Settings) (now token owner i : ℕ) (db : Db) (r : Option Claim × Db)
    → try_claim s now token owner i db ≡ ok r
    → Keeps db r.1
unfolding try_claim
try_claim-Keeps s now token owner i db r e = elim (Option-cases (find i db.jobs)) [
  | inl missing ↦ subst (λ x. Keeps db x) (ground arith) (Keeps-refl db)
  | inr (j, ej) ↦ elim (Bool-cases (is_claimable j)) [
    | inl free ↦
        let own = subst (λ n. find n db.jobs ≡ some j) (sym (find-id i db.jobs ej)) ej in
        claim_row-Keeps s now token owner j db r own (rw (ej, try_claim, free) at e)
    | inr taken ↦ subst (λ x. Keeps db x) (ground arith) (Keeps-refl db)
  ]
]

pub claim_first-Keeps :
    (s : Settings) (now : ℕ) (token : ℕ → ℕ) (owner : ℕ) (is : List ℕ) (db : Db)
    (r : Option Claim × Db)
    → claim_first s now token owner is db ≡ ok r
    → Keeps db r.1
unfolding claim_first
claim_first-Keeps s now token owner [] db r e =
    subst (λ x. Keeps db x) (ground arith) (Keeps-refl db)
claim_first-Keeps s now token owner (i ∷ is) db r e =
    go (try_claim s now (token i) owner i db) (try_claim-Keeps s now (token i) owner i db)
      (λ d. claim_first-Keeps s now token owner is d r) e
  where
    go :
        (m : Result (Option Claim × Db))
        → ((q : Option Claim × Db) → m ≡ ok q → Keeps db q.1)
        → ((d : Db) → claim_first s now token owner is d ≡ ok r → Keeps d r.1)
        → (elim m as (λ _. Result (Option Claim × Db)) [
          | err e ↦ err e
          | ok (some c, db') ↦ ok (some c, db')
          | ok (none, db') ↦ claim_first s now token owner is db'
        ])
          ≡ ok r
        → Keeps db r.1
    go (err x) k next h = ground arith
    go (ok (some c, d)) k next h = subst (λ x. Keeps db x) (ground arith) (k (some c, d) refl)
    go (ok (none, d)) k next h = Keeps-trans db d r.1 (k (none, d) refl) (next d h)

pub claim-Keeps :
    (s : Settings) (now : ℕ) (token : ℕ → ℕ) (owner : ℕ) (classes : List ℕ) (i : Option ℕ) (db : Db)
    (r : Option Claim × Db)
    → claim s now token owner classes i db ≡ ok r
    → Keeps db r.1
unfolding claim
claim-Keeps s now token owner classes none db r e =
    claim_first-Keeps s now token owner (claim_candidates s now classes db) db r e
claim-Keeps s now token owner classes (some i) db r e =
    try_claim-Keeps s now (token i) owner i db r e

pub supervise-Keeps :
    (s : Settings) (now : ℕ) (reachable drain_over : Bool) (c : Claim) (until : ℕ) (db : Db)
    → Keeps db (supervise s now reachable drain_over c until db).2
unfolding supervise
supervise-Keeps s now false drain_over c until db = Keeps-refl db
supervise-Keeps s now true drain_over c until db = elim (Option-cases (find c.job_id db.jobs)) [
  | inl missing ↦ subst (λ x. Keeps db x) (ground arith) (Keeps-refl db)
  | inr (j, ej) ↦ elim (Bool-cases (opt_eq j.lease_token c.lease_token)) [
    | inr lost ↦ subst (λ x. Keeps db x) (ground arith) (Keeps-refl db)
    | inl held ↦
        let row = record j { lease_expires_at = some (now + s.job_lease_ttl_s) } in
        let touched =
          Evolved-touch j row (refl, refl, refl, refl)
            (record { error = refl; result = refl; strategy = refl }) in
        subst (λ x. Keeps db x) (ground arith)
          (Keeps-renew db (flush (record { job = row; db = db })) (renewed s now c j db) c.model_id
            c.job_id (now + s.model_lock_ttl_s)
            (put-Keeps c.job_id j row db db ej touched refl refl) refl refl)
  ]
]
