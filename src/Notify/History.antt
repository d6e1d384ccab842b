-- ===== src/Notify/History.antt =====
-- About notifications/dispatcher.py and notifications/service.py: what dispatchers, however many
-- run at once, and operators may do to the deliveries.
use agentic_ai_model_adaptat.Prelude.{
  ℕ, ◌≡◌, refl, true, false, not, none, some, List, [], ◌∷◌, select, opt_eq,
}
use agentic_ai_model_adaptat.Notify.Breaker.{SinkCircuit, is_open}
use agentic_ai_model_adaptat.Notify.Deliveries.{
  Delivery, delivered, is_dead, row, row-update_row_off,
}
use agentic_ai_model_adaptat.Notify.Dispatch.{
  NotifySettings, is_due, leased, claim_row, claim_rows, claim_due, candidate_ids, released,
  release, finish, is_ours, unleased, Sent, accepted, refused, broke, settle_sent, delivered_values,
  refused_values, redriven, redrive_rows,
}
use agentic_ai_model_adaptat.Notify.Lease.{refused_values-id}

-- One transaction on the deliveries. A sink is called outside any transaction, so the outcome of a
-- message meets whatever the table is by then.
pub data Step (ds : List Delivery) : List Delivery → Type 0 where
  claimed :
      (s : NotifySettings) (now worker : ℕ) (sinks : List ℕ) (circuits : List (ℕ × SinkCircuit))
      → Step ds (claim_due s now worker sinks (record { circuits = circuits; rows = ds })).1
  handed_back : (worker i due : ℕ) → Step ds (release worker i due ds)
  settled :
      (s : NotifySettings) (now worker rng : ℕ) (message : Delivery) (sent : Sent)
      (circuits : List (ℕ × SinkCircuit))
      → Step ds
          (settle_sent s now worker rng message sent
            (record { circuits = circuits; rows = ds })).rows
  redrove : (now : ℕ) (ids : List ℕ) → Step ds (redrive_rows now ids ds).1

pub data Reach (ds : List Delivery) : List Delivery → Type 0 where
  here : Reach ds ds
  next : {es fs : List Delivery} → Reach ds es → Step es fs → Reach ds fs

-- A delivery that the sink took and no dispatcher holds.
abbrev Final : Delivery → Type 0
Final d = (d.status ≡ delivered) × (d.leased_by ≡ none)

Final-not_due : (d : Delivery) (now : ℕ) → Final d → is_due now d ≡ false
Final-not_due d now (e, l) = rw e refl

Final-not_ours : (d : Delivery) (worker : ℕ) → Final d → is_ours worker d ≡ false
Final-not_ours d worker (e, l) = rw l refl

claim_rows-Final :
    (s : NotifySettings) (now worker : ℕ) (is : List ℕ) (k : ℕ) (ds : List Delivery) (d : Delivery)
    → Final d
    → row k ds ≡ some d
    → row k (claim_rows s now worker is ds).1 ≡ some d
unfolding claim_rows claim_row
claim_rows-Final s now worker [] k ds d f e = e
claim_rows-Final s now worker (i ∷ is) k ds d f e =
    claim_rows-Final s now worker is k (claim_row s now worker i ds).1 d f (
      row-update_row_off i k (is_due now) (leased s now worker) (λ x. refl) ds e
        (Final-not_due d now f))

redrive_rows-Final :
    (now : ℕ) (is : List ℕ) (k : ℕ) (ds : List Delivery) (d : Delivery)
    → Final d
    → row k ds ≡ some d
    → row k (redrive_rows now is ds).1 ≡ some d
unfolding redrive_rows
redrive_rows-Final now [] k ds d f e = e
redrive_rows-Final now (i ∷ is) k ds d f e =
    redrive_rows-Final now is k _ d f (
      row-update_row_off i k (λ d. is_dead d.status) (redriven now) (λ x. refl) ds e
        (rw (f.0) refl))

finish-Final :
    (worker i k : ℕ) (values : Delivery → Delivery) (same : (x : Delivery) → (values x).id ≡ x.id)
    (ds : List Delivery) (d : Delivery)
    → Final d
    → row k ds ≡ some d
    → row k (finish worker i values ds).1 ≡ some d
unfolding finish
finish-Final worker i k values same ds d f e =
    row-update_row_off i k (is_ours worker) (λ d. values (unleased d)) (λ x. same (unleased x)) ds e
      (Final-not_ours d worker f)

Step-Final :
    (k : ℕ) (d : Delivery) {ds es : List Delivery}
    → Final d
    → row k ds ≡ some d
    → Step ds es
    → row k es ≡ some d
unfolding claim_due release
Step-Final k d {ds} f e (claimed s now worker sinks circuits) =
    let usable = select (λ k. not (is_open s.breaker now k circuits)) sinks in
    claim_rows-Final s now worker (candidate_ids s now usable ds) k ds d f e
Step-Final k d {ds} f e (handed_back worker i due) =
    row-update_row_off i k (λ d. opt_eq d.leased_by worker) (released due) (λ x. refl) ds e
      (rw (f.1) refl)
Step-Final k d {ds} f e (settled s now worker rng m accepted circuits) =
    finish-Final worker m.id k (delivered_values now) (λ x. refl) ds d f e
Step-Final k d {ds} f e (settled s now worker rng m (refused retryable error code) circuits) =
    finish-Final worker m.id k (refused_values s now rng m.attempts retryable error code)
      (refused_values-id s now rng m.attempts retryable error code) ds d f e
Step-Final k d {ds} f e (settled s now worker rng m (broke error) circuits) =
    finish-Final worker m.id k (refused_values s now rng m.attempts true error none)
      (refused_values-id s now rng m.attempts true error none) ds d f e
Step-Final k d {ds} f e (redrove now ids) = redrive_rows-Final now ids k ds d f e

-- Delivered is final: whatever dispatchers claim, send, hand back and record, in whatever order,
-- and whatever operators redrive, a delivery that its sink took and that no dispatcher holds stays
-- as it is.
pub Reach-delivered :
    (k : ℕ) (d : Delivery) {ds es : List Delivery}
    → d.status ≡ delivered
    → d.leased_by ≡ none
    → row k ds ≡ some d
    → Reach ds es
    → row k es ≡ some d
Reach-delivered k d st l e here = e
Reach-delivered k d st l e (next {es = es} {fs = fs} r step) =
    Step-Final k d (st, l) (Reach-delivered k d st l e r) step
