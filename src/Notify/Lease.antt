-- ===== src/Notify/Lease.antt =====
-- About notifications/dispatcher.py: who holds a delivery, from its claim to its outcome.
use agentic_ai_model_adaptat.Prelude.{
  ℕ, ◌+◌, ◌<◌, ◌≡◌, refl, sym, ◌∙◌, ◌⊎◌, inl, inr, Bool, true, false, not, ◌&&◌, Option, none, some,
  List, [], ◌∷◌, elem, leb, arith, Bool-cases, Option-cases, if◌then◌else◌,
}
use agentic_ai_model_adaptat.Notify.Breaker.{SinkCircuit}
use agentic_ai_model_adaptat.Notify.Deliveries.{
  Delivery, DeliveryStatus, pending, delivered, dead, row, row-update_row, row-update_row_off,
  update_row-matched, row-update_row_cases, update_row-unmatched,
}
use agentic_ai_model_adaptat.Notify.Dispatch.{
  NotifySettings, Dispatch, is_due, leased, claim_row, claim_rows, claim_due, finish, is_ours,
  unleased, Sent, accepted, refused, broke, settle_sent, delivered_values, refused_values,
}

-- A row that is due at `t` and not before.
abbrev DueAt : ℕ → ℕ → List Delivery → Type 0
DueAt t i ds = (d : Delivery) × (row i ds ≡ some d) × (d.next_attempt_at ≡ t)

not_due : (d : Delivery) (t now : ℕ) → d.next_attempt_at ≡ t → now < t → is_due now d ≡ false
not_due d t now e lt = ground arith

claim_row-DueAt :
    (s : NotifySettings) (now worker j i : ℕ) (ds : List Delivery)
    → DueAt (now + s.notification_lease_s) i ds
    → DueAt (now + s.notification_lease_s) i (claim_row s now worker j ds).1
unfolding claim_row
claim_row-DueAt s now worker j i ds (d, e, t) =
    elim (row-update_row_cases j i (is_due now) (leased s now worker) (λ x. refl) ds e) [
      | inl kept ↦ (d, kept, t)
      | inr set ↦ (leased s now worker d, set, refl)
    ]

claim_row-mine :
    (s : NotifySettings) (now worker i : ℕ) (ds : List Delivery)
    → (claim_row s now worker i ds).0 ≡ true
    → DueAt (now + s.notification_lease_s) i (claim_row s now worker i ds).1
unfolding claim_row
claim_row-mine s now worker i ds e = elim (Option-cases (row i ds)) [
  | inl n ↦ let no = update_row-unmatched i (is_due now) (leased s now worker) ds n in cc
  | inr (d, f) ↦
      let due =
        sym (update_row-matched i (is_due now) (leased s now worker) (λ x. refl) ds f) ∙ e in
      let after = row-update_row i (is_due now) (leased s now worker) (λ x. refl) ds f in
      (leased s now worker d, rw due at after, refl)
]

claim_rows-DueAt :
    (s : NotifySettings) (now worker : ℕ) (is : List ℕ) (i : ℕ) (ds : List Delivery)
    → DueAt (now + s.notification_lease_s) i ds
    → DueAt (now + s.notification_lease_s) i (claim_rows s now worker is ds).1
unfolding claim_rows
claim_rows-DueAt s now worker [] i ds h = h
claim_rows-DueAt s now worker (j ∷ is) i ds h =
    claim_rows-DueAt s now worker is i (claim_row s now worker j ds).1
      (claim_row-DueAt s now worker j i ds h)

elem-if :
    (i j : ℕ) (b : Bool) (r : List ℕ)
    → elem i (if b then j ∷ r else r) ≡ true
    → ((b ≡ true) × (j ≡ i)) ⊎ (elem i r ≡ true)
elem-if i j b r e = ground arith

elem-unless :
    (i j : ℕ) (b : Bool) (r : List ℕ)
    → (j ≡ i → b ≡ false)
    → elem i r ≡ false
    → elem i (if b then j ∷ r else r) ≡ false
elem-unless i j true r f e = ground (arith, f)
elem-unless i j false r f e = e

claim_rows-mine :
    (s : NotifySettings) (now worker : ℕ) (is : List ℕ) (i : ℕ) (ds : List Delivery)
    → elem i (claim_rows s now worker is ds).0 ≡ true
    → DueAt (now + s.notification_lease_s) i (claim_rows s now worker is ds).1
unfolding claim_rows
claim_rows-mine s now worker [] i ds e = cc
claim_rows-mine s now worker (j ∷ is) i ds e =
    let ds' = (claim_row s now worker j ds).1 in
    elim (elem-if i j (claim_row s now worker j ds).0 (claim_rows s now worker is ds').0 e) [
      | inl (b, same) ↦
          claim_rows-DueAt s now worker is i ds'
            (rw (sym same) (claim_row-mine s now worker j ds b))
      | inr rest ↦ claim_rows-mine s now worker is i ds' rest
    ]

claim_rows-others :
    (s : NotifySettings) (now worker t : ℕ) (is : List ℕ) (i : ℕ) (ds : List Delivery)
    → now < t
    → DueAt t i ds
    → elem i (claim_rows s now worker is ds).0 ≡ false
unfolding claim_rows claim_row
claim_rows-others s now worker t [] i ds lt h = refl
claim_rows-others s now worker t (j ∷ is) i ds lt (d, e, due) =
    let off = not_due d t now due lt in
    let kept = row-update_row_off j i (is_due now) (leased s now worker) (λ x. refl) ds e off in
    let rest =
      claim_rows-others s now worker t is i (claim_row s now worker j ds).1 lt (d, kept, due) in
    elem-unless i j (claim_row s now worker j ds).0 _
      (λ same.
        rw same (update_row-matched i (is_due now) (leased s now worker) (λ x. refl) ds e ∙ off))
      rest

-- Two dispatchers never both hold a delivery: once one has claimed it, a claim by any dispatcher,
-- whatever its sinks and circuits, does not get it before the lease has run out.
pub claim_due-exclusive :
    (s : NotifySettings) (now worker : ℕ) (sinks : List ℕ) (st : Dispatch) (i : ℕ)
    (s' : NotifySettings) (now' worker' : ℕ) (sinks' : List ℕ) (circuits' : List (ℕ × SinkCircuit))
    → elem i (claim_due s now worker sinks st).0 ≡ true
    → now' < now + s.notification_lease_s
    → elem i
        (claim_due s' now' worker' sinks'
          (record { circuits = circuits'; rows = (claim_due s now worker sinks st).1 })).0
      ≡ false
unfolding claim_due
claim_due-exclusive s now worker sinks st i s' now' worker' sinks' circuits' e lt =
    claim_rows-others s' now' worker' (now + s.notification_lease_s) _ i _ lt
      (claim_rows-mine s now worker _ i st.rows e)

-- How a message ends: what the sink answered, and the attempts that the message carries.
abbrev verdict : NotifySettings → Delivery → Sent → DeliveryStatus
verdict s m accepted = delivered
verdict s m (refused retryable error code) =
    if retryable && not (leb s.notification_max_attempts m.attempts) then pending else dead
verdict s m (broke error) =
    if not (leb s.notification_max_attempts m.attempts) then pending else dead

abbrev pub Ended : NotifySettings → Delivery → Sent → List Delivery → Type 0
Ended s m sent ds =
    (d : Delivery) × (row m.id ds ≡ some d)
    × (d.status ≡ verdict s m sent)
    × (d.leased_by ≡ none)
    × (d.attempts ≡ m.attempts)

pub refused_values-id :
    (s : NotifySettings) (now rng attempt : ℕ) (retryable : Bool) (error : ℕ) (code : Option ℕ)
    (d : Delivery)
    → (refused_values s now rng attempt retryable error code d).id ≡ d.id
refused_values-id s now rng attempt retryable error code d =
    elim (Bool-cases (retryable && not (leb s.notification_max_attempts attempt))) [
      | inl e ↦ rw e refl
      | inr e ↦ rw e refl
    ]

refused_values-verdict :
    (s : NotifySettings) (now rng : ℕ) (m d : Delivery) (retryable : Bool) (error : ℕ)
    (code : Option ℕ)
    → d.status ≡ pending
    → let d' = refused_values s now rng m.attempts retryable error code (unleased d) in
      (d'.status ≡ verdict s m (refused retryable error code))
      × (d'.leased_by ≡ none)
      × (d'.attempts ≡ d.attempts)
      × (d'.id ≡ d.id)
refused_values-verdict s now rng m d retryable error code p =
    elim (Bool-cases (retryable && not (leb s.notification_max_attempts m.attempts))) [
      | inl e ↦ rw (e) (p, refl, refl, refl)
      | inr e ↦ rw (e) (refl, refl, refl, refl)
    ]

finish-owned :
    (worker : ℕ) (values : Delivery → Delivery) (same : (x : Delivery) → (values x).id ≡ x.id)
    (ds : List Delivery) (d : Delivery)
    → row d.id ds ≡ some d
    → d.leased_by ≡ some worker
    → d.status ≡ pending
    → row d.id (finish worker d.id values ds).1 ≡ some (values (unleased d))
unfolding finish
finish-owned worker values same ds d e l p =
    let ours : is_ours worker d ≡ true = ground (arith, l, p) in
    let after =
      row-update_row d.id (is_ours worker) (λ x. values (unleased x)) (λ x. same (unleased x)) ds
        e in
    rw ours at after

-- The outcome of a send, recorded by the dispatcher that still holds the delivery: taken by the
-- sink it is DELIVERED; a refusal that may be retried leaves it PENDING while attempts remain;
-- else it is DEAD. In each case its lease is over.
pub settle_sent-Ended :
    (s : NotifySettings) (now worker rng : ℕ) (m : Delivery) (sent : Sent) (st : Dispatch)
    → row m.id st.rows ≡ some m
    → m.leased_by ≡ some worker
    → m.status ≡ pending
    → Ended s m sent (settle_sent s now worker rng m sent st).rows
settle_sent-Ended s now worker rng m accepted st e l p = (
  delivered_values now (unleased m),
  finish-owned worker (delivered_values now) (λ x. refl) st.rows m e l p,
  refl,
  refl,
  refl,
)
settle_sent-Ended s now worker rng m (refused retryable error code) st e l p =
    let values = refused_values s now rng m.attempts retryable error code in
    let (a, b, c', d) = refused_values-verdict s now rng m m retryable error code p in
    (
      values (unleased m),
      finish-owned worker values
          (λ x. (refused_values-id s now rng m.attempts retryable error code x)) st.rows m e l p,
      a,
      b,
      c',
    )
settle_sent-Ended s now worker rng m (broke error) st e l p =
    let values = refused_values s now rng m.attempts true error none in
    let (a, b, c, d) = refused_values-verdict s now rng m m true error none p in
    (
      values (unleased m),
      finish-owned worker values (λ x. (refused_values-id s now rng m.attempts true error none x))
          st.rows m e l p,
      a,
      b,
      c,
    )
