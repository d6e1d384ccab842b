-- ===== src/Notify/Examples.antt =====
-- Deliveries and circuits of notifications/dispatcher.py on small tables.
use agentic_ai_model_adaptat.Prelude.{
  ℕ, ◌+◌, ◌≡◌, refl, arith, elem, leb, true, false, none, some, List, [], ◌∷◌,
}
use agentic_ai_model_adaptat.Notify.Breaker.{
  SinkCircuit, BreakerSettings, is_open, allow, success, wait_s,
}
use agentic_ai_model_adaptat.Notify.Deliveries.{Delivery, pending, delivered, row}
use agentic_ai_model_adaptat.Notify.Dispatch.{
  NotifySettings, Dispatch, claim_due, settle_sent, refused, redrive_rows,
}
use agentic_ai_model_adaptat.Notify.BreakerLaws.{
  fail_times, fail_times-is_open, allow-one_trial, wait_s-allow,
}
use agentic_ai_model_adaptat.Notify.History.{Step, Reach, Reach-delivered}
use agentic_ai_model_adaptat.Notify.Lease.{Ended, claim_due-exclusive, settle_sent-Ended}
use agentic_ai_model_adaptat.Notify.Crash.{crashed, claim_due-unbounded}

abbrev breaker : BreakerSettings
breaker = record { threshold = 3; reset_s = 30 }

abbrev settings : NotifySettings
settings = record {
  breaker = breaker;
  notification_lease_s = 60;
  notification_dispatch_batch = 10;
  notification_max_attempts = 5;
  notification_backoff_initial_s = 2;
  notification_backoff_max_s = 60;
  notification_backoff_jitter = 100;
}

abbrev fresh : Delivery
fresh = record {
  id = 4;
  event_id = 40;
  sink = 1;
  status = pending;
  attempts = 0;
  next_attempt_at = 10;
  lease_until = none;
  leased_by = none;
  last_error = none;
  last_status_code = none;
  redrive_count = 0;
  delivered_at = none;
  dead_at = none;
}

abbrev table : Dispatch
table = record { circuits = []; rows = fresh ∷ [] }

claim_due-exclusive_example :
    elem 4
      (claim_due settings 25 9
        (1 ∷ [])
        (record { circuits = []; rows = (claim_due settings 20 8 (1 ∷ []) table).1 })).0
    ≡ false
unfolding claim_due
claim_due-exclusive_example =
    claim_due-exclusive settings 20 8 (1 ∷ []) table 4 settings 25 9 (1 ∷ []) [] refl (omega arith)

abbrev held : Delivery
held = record fresh { leased_by = some 8; attempts = 1; next_attempt_at = 80 }

settle_sent-Ended_example :
    Ended settings held
      (refused true 7 none)
      (settle_sent settings 30 8 500 held
        (refused true 7 none)
        (record { circuits = []; rows = held ∷ [] })).rows
settle_sent-Ended_example =
    settle_sent-Ended settings 30 8 500 held (refused true 7 none)
      (record { circuits = []; rows = held ∷ [] }) refl refl refl

abbrev taken : Delivery
taken = record fresh { status = delivered; delivered_at = some 30 }

redriven_claimed :
    Reach
      (taken ∷ [])
      (claim_due settings 90 9
        (1 ∷ [])
        (record { circuits = []; rows = (redrive_rows 80 (4 ∷ []) (taken ∷ [])).1 })).1
redriven_claimed =
    Reach.next (Reach.next Reach.here (Step.redrove 80 (4 ∷ [])))
      (Step.claimed settings 90 9 (1 ∷ []) [])

Reach-delivered_example :
    row 4
      (claim_due settings 90 9
        (1 ∷ [])
        (record { circuits = []; rows = (redrive_rows 80 (4 ∷ []) (taken ∷ [])).1 })).1
    ≡ some taken
Reach-delivered_example = Reach-delivered 4 taken refl refl refl redriven_claimed

fail_times-is_open_example :
    is_open breaker 45 1 (fail_times breaker 20 1 3 (success 1 [])) ≡ leb breaker.threshold 3
fail_times-is_open_example = fail_times-is_open breaker 20 45 1 2 [] (omega arith) (omega arith)

abbrev opened : List (ℕ × SinkCircuit)
opened = (1, record { failures = 3; opened_at = some 20; trial = false }) ∷ []

allow-one_trial_example : (allow breaker 900 1 (allow breaker 60 1 opened).1).0 ≡ false
unfolding allow
allow-one_trial_example = allow-one_trial breaker 60 900 1 20 opened refl refl

wait_s-allow_example : (allow breaker (25 + wait_s breaker 25 1 opened) 1 opened).0 ≡ true
wait_s-allow_example = wait_s-allow breaker 25 1 opened refl

claim_due-unbounded_example :
    let d' = crashed settings 8 6 fresh in
    (d'.attempts ≡ 6)
    × ((claim_due settings d'.next_attempt_at 8
          (1 ∷ [])
          (record { circuits = []; rows = d' ∷ [] })).0
        ≡ 4 ∷ [])
unfolding is_open
claim_due-unbounded_example = claim_due-unbounded settings 8 9 6 [] fresh refl refl refl
