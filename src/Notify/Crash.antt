-- ===== src/Notify/Crash.antt =====
-- About `Dispatcher._claim` of notifications/dispatcher.py: sends that kill their dispatcher.
use agentic_ai_model_adaptat.Prelude.{
  ℕ, zero, suc, ◌+◌, ◌≡◌, refl, ap, true, false, not, List, [], ◌∷◌, map, take, select, arith,
}
use agentic_ai_model_adaptat.Notify.Breaker.{SinkCircuit, is_open}
use agentic_ai_model_adaptat.Notify.Deliveries.{Delivery, pending}
use agentic_ai_model_adaptat.Notify.Dispatch.{
  NotifySettings, is_due, leased, claim_row, claim_rows, claim_due, candidate_ids,
}

-- The delivery after `n` claims, each at the moment that it is due, none of which was settled.
abbrev pub crashed : NotifySettings → ℕ → ℕ → Delivery → Delivery
crashed s worker zero d = d
crashed s worker (suc n) d = let d' = crashed s worker n d in leased s d'.next_attempt_at worker d'

crashed-pending :
    (s : NotifySettings) (worker n : ℕ) (d : Delivery)
    → d.status ≡ pending
    → ((crashed s worker n d).status ≡ pending)
      × ((crashed s worker n d).attempts ≡ d.attempts + n)
      × ((crashed s worker n d).id ≡ d.id)
      × ((crashed s worker n d).sink ≡ d.sink)
crashed-pending s worker zero d p = (p, omega arith, refl, refl)
crashed-pending s worker (suc n) d p =
    let (a, b, c, e) = crashed-pending s worker n d p in (a, omega (arith, b), c, e)

take_none : (n : ℕ) → map (λ (x : Delivery). x.id) (take n []) ≡ []
take_none zero = refl
take_none (suc n) = refl

candidates_one :
    (s : NotifySettings) (now b : ℕ) (d : Delivery)
    → s.notification_dispatch_batch ≡ suc b
    → is_due now d ≡ true
    → candidate_ids s now (d.sink ∷ []) (d ∷ []) ≡ d.id ∷ []
candidates_one s now b d batch due = ground (arith, take_none b)

claim_row_one :
    (s : NotifySettings) (now worker : ℕ) (d : Delivery)
    → is_due now d ≡ true
    → claim_rows s now worker (d.id ∷ []) (d ∷ []) ≡ (d.id ∷ [], leased s now worker d ∷ [])
unfolding claim_rows claim_row
claim_row_one s now worker d due = ground arith

claim_one :
    (s : NotifySettings) (now worker b : ℕ) (circuits : List (ℕ × SinkCircuit)) (d : Delivery)
    → s.notification_dispatch_batch ≡ suc b
    → is_open s.breaker now d.sink circuits ≡ false
    → is_due now d ≡ true
    → claim_due s now worker (d.sink ∷ []) (record { circuits = circuits; rows = d ∷ [] })
      ≡ (d.id ∷ [], leased s now worker d ∷ [])
unfolding claim_due
claim_one s now worker b circuits d batch shut due =
    let usable : select (λ k. not (is_open s.breaker now k circuits)) (d.sink ∷ []) ≡ d.sink ∷ [] =
      rw shut refl in
    rw (usable, candidates_one s now b d batch due) (claim_row_one s now worker d due)

-- The claim has no bound on the attempts: however many claims of a delivery ended with no outcome
-- recorded, the next claim gets it as soon as it is due, while its sink's circuit is not open.
pub claim_due-unbounded :
    (s : NotifySettings) (worker b n : ℕ) (circuits : List (ℕ × SinkCircuit)) (d : Delivery)
    → s.notification_dispatch_batch ≡ suc b
    → d.status ≡ pending
    → let d' = crashed s worker n d in
      is_open s.breaker d'.next_attempt_at d'.sink circuits ≡ false
      → (d'.attempts ≡ d.attempts + n)
        × ((claim_due s d'.next_attempt_at worker
              (d'.sink ∷ [])
              (record { circuits = circuits; rows = d' ∷ [] })).0
            ≡ d.id ∷ [])
claim_due-unbounded s worker b n circuits d batch p shut =
    let d' = crashed s worker n d in
    let (pending', attempts, same, sink) = crashed-pending s worker n d p in
    let due : is_due d'.next_attempt_at d' ≡ true = ground (arith, pending') in
    (
      attempts,
      rw (claim_one s d'.next_attempt_at worker b circuits d' batch shut due)
          (ap (λ i. i ∷ []) same),
    )
