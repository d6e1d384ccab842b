-- ===== src/Notify/Dispatch.antt =====
-- notifications/dispatcher.py `Dispatcher`, and `_redrive_rows` of notifications/service.py. One
-- call reads the clock once. The sinks are a parameter `send`; the two backoff
-- settings count units of 10^6 ticks, and the jitter and the random number thousandths.
use agentic_ai_model_adaptat.Prelude.{
  ℕ, zero, suc, ◌+◌, ◌-◌, ◌*◌, ◌^◌, min, Bool, true, not, ◌&&◌, ◌||◌, Option, none, some, List, [],
  ◌∷◌, map, ltb, leb, ◌==◌, opt_eq, select, take, length, elem, if◌then◌else◌,
}
use agentic_ai_model_adaptat.Notify.Breaker.{
  SinkCircuit, BreakerSettings, is_open, allow, success, failure, wait_s,
}
use agentic_ai_model_adaptat.Notify.Deliveries.{
  Delivery, pending, delivered, dead, is_pending, is_dead, row, update_row,
}

pub record NotifySettings : Type 0 where
  pub breaker : BreakerSettings
  pub notification_lease_s : ℕ
  pub notification_dispatch_batch : ℕ
  pub notification_max_attempts : ℕ
  pub notification_backoff_initial_s : ℕ
  pub notification_backoff_max_s : ℕ
  pub notification_backoff_jitter : ℕ

-- A dispatcher's circuits, and the table.
pub record Dispatch : Type 0 where
  pub circuits : List (ℕ × SinkCircuit)
  pub rows : List Delivery

abbrev pub is_due : ℕ → Delivery → Bool
is_due now d = is_pending d.status && leb d.next_attempt_at now

-- `order_by(next_attempt_at, id)`
abbrev pub before : Delivery → Delivery → Bool
before a b =
    ltb a.next_attempt_at b.next_attempt_at
    || (a.next_attempt_at == b.next_attempt_at && leb a.id b.id)

abbrev pub insert_by_due : Delivery → List Delivery → List Delivery
insert_by_due d [] = d ∷ []
insert_by_due d (e ∷ es) = if before d e then d ∷ e ∷ es else e ∷ insert_by_due d es

abbrev pub sort_by_due : List Delivery → List Delivery
sort_by_due [] = []
sort_by_due (d ∷ ds) = insert_by_due d (sort_by_due ds)

-- The claim's UPDATE of one row.
abbrev pub leased : NotifySettings → ℕ → ℕ → Delivery → Delivery
leased s now worker d = record d {
  next_attempt_at = now + s.notification_lease_s;
  lease_until = some (now + s.notification_lease_s);
  leased_by = some worker;
  attempts = d.attempts + 1;
}

unfoldable pub claim_row : NotifySettings → ℕ → ℕ → ℕ → List Delivery → Bool × List Delivery
claim_row s now worker i ds = update_row i (is_due now) (leased s now worker) ds

unfoldable pub claim_rows : NotifySettings → ℕ → ℕ → List ℕ → List Delivery → List ℕ × List Delivery
unfolding claim_row
claim_rows s now worker [] ds = ([], ds)
claim_rows s now worker (i ∷ is) ds =
    let one = claim_row s now worker i ds in
    let rest = claim_rows s now worker is (one.1) in
    ((if one.0 then i ∷ rest.0 else rest.0), rest.1)

abbrev pub candidate_ids : NotifySettings → ℕ → List ℕ → List Delivery → List ℕ
candidate_ids s now usable ds =
    map (λ d. d.id)
      (take s.notification_dispatch_batch
        (sort_by_due (select (λ d. is_due now d && elem d.sink usable) ds)))

-- `_claim`: the ids claimed, and the rows.
unfoldable pub claim_due :
    NotifySettings → ℕ → ℕ → (sinks : List ℕ) → Dispatch → List ℕ × List Delivery
unfolding is_open claim_rows
claim_due s now worker sinks st =
    let usable = select (λ k. not (is_open s.breaker now k st.circuits)) sinks in
    claim_rows s now worker (candidate_ids s now usable st.rows) st.rows

-- `_release`
abbrev pub released : ℕ → Delivery → Delivery
released due d = record d {
  next_attempt_at = due;
  lease_until = none;
  leased_by = none;
  attempts = d.attempts - 1;
}

unfoldable pub release : ℕ → ℕ → (due : ℕ) → List Delivery → List Delivery
release worker i due ds = (update_row i (λ d. opt_eq d.leased_by worker) (released due) ds).1

-- `_backoff_s`, in millionths.
unfoldable pub backoff_s : NotifySettings → (rng : ℕ) → (attempts : ℕ) → ℕ
backoff_s s rng attempts =
    let base =
      min s.notification_backoff_max_s (s.notification_backoff_initial_s * 2 ^ (attempts - 1)) in
    base
    * (1000000 + s.notification_backoff_jitter * (2 * rng) - s.notification_backoff_jitter * 1000)

-- `_finish`, given the values that it writes besides the end of the lease.
abbrev pub is_ours : ℕ → Delivery → Bool
is_ours worker d = opt_eq d.leased_by worker && is_pending d.status

abbrev pub unleased : Delivery → Delivery
unleased d = record d { lease_until = none; leased_by = none }

unfoldable pub finish :
    ℕ → ℕ → (values : Delivery → Delivery) → List Delivery → Bool × List Delivery
finish worker i values ds = update_row i (is_ours worker) (λ d. values (unleased d)) ds

-- What a sink's `send` comes to: an exception other than NotificationDeliveryError is retryable
-- and has no status code.
pub data Sent : Type 0 where
  accepted : Sent
  refused : (retryable : Bool) → (error : ℕ) → (status_code : Option ℕ) → Sent
  broke : (error : ℕ) → Sent

abbrev pub delivered_values : ℕ → Delivery → Delivery
delivered_values now d = record d {
  status = delivered;
  delivered_at = some now;
  last_error = none;
  last_status_code = none;
}

abbrev pub retry_values : ℕ → ℕ → Option ℕ → Delivery → Delivery
retry_values due error code d = record d {
  next_attempt_at = due;
  last_error = some error;
  last_status_code = code;
}

abbrev pub dead_values : ℕ → ℕ → Option ℕ → Delivery → Delivery
dead_values now error code d = record d {
  status = dead;
  dead_at = some now;
  last_error = some error;
  last_status_code = code;
}

-- What `_deliver` writes for an error, by the attempts that the message carries.
abbrev pub refused_values :
    NotifySettings → ℕ → (rng : ℕ) → ℕ → Bool → ℕ → Option ℕ → Delivery → Delivery
refused_values s now rng attempt retryable error code =
    if retryable && not (leb s.notification_max_attempts attempt)
    then retry_values (now + backoff_s s rng attempt) error code
    else dead_values now error code

-- The rest of `_deliver` once the sink was called for the message `d`.
abbrev pub settle_sent : NotifySettings → ℕ → ℕ → ℕ → Delivery → Sent → Dispatch → Dispatch
settle_sent s now worker rng d accepted st = record {
  circuits = success d.sink st.circuits;
  rows = (finish worker d.id (delivered_values now) st.rows).1;
}
settle_sent s now worker rng d (refused retryable error code) st = record {
  circuits = failure s.breaker now d.sink st.circuits;
  rows = (finish worker d.id (refused_values s now rng d.attempts retryable error code) st.rows).1;
}
settle_sent s now worker rng d (broke error) st = record {
  circuits = failure s.breaker now d.sink st.circuits;
  rows = (finish worker d.id (refused_values s now rng d.attempts true error none) st.rows).1;
}

-- `_deliver`; none when the row does not exist and `.one()` raises.
unfoldable pub deliver :
    NotifySettings → ℕ → ℕ → ℕ → (send : Delivery → Sent) → ℕ → Dispatch → Option Dispatch
unfolding allow release wait_s finish success failure
deliver s now worker rng send i st = elim (row i st.rows) [
  | none ↦ none
  | some d ↦
      let go = allow s.breaker now d.sink st.circuits in
      some (
        if go.0
        then settle_sent s now worker rng d (send d) (record { circuits = go.1; rows = st.rows })
        else record {
          circuits = go.1;
          rows = release worker i (now + wait_s s.breaker now d.sink go.1) st.rows;
        })
]

unfoldable pub deliver_all :
    NotifySettings → ℕ → ℕ → ℕ → (Delivery → Sent) → List ℕ → Dispatch → Option Dispatch
unfolding deliver
deliver_all s now worker rng send [] st = some st
deliver_all s now worker rng send (i ∷ is) st = elim (deliver s now worker rng send i st) [
  | none ↦ none
  | some st' ↦ deliver_all s now worker rng send is st'
]

-- `run_once`: the number of deliveries claimed, and the state.
unfoldable pub run_once :
    NotifySettings → ℕ → ℕ → ℕ → List ℕ → (Delivery → Sent) → Dispatch → Option (ℕ × Dispatch)
unfolding claim_due deliver_all
run_once s now worker rng sinks send st =
    let got = claim_due s now worker sinks st in
    elim (deliver_all s now worker rng send (got.0) (record st { rows = got.1 })) [
      | none ↦ none
      | some st' ↦ some (length (got.0), st')
    ]

-- `drain`, over the rounds that are left.
unfoldable pub drain :
    NotifySettings
    → ℕ
    → ℕ
    → ℕ
    → List ℕ
    → (Delivery → Sent)
    → (max_rounds : ℕ) → Dispatch
    → Option (ℕ × Dispatch)
unfolding run_once
drain s now worker rng sinks send zero st = some (0, st)
drain s now worker rng sinks send (suc rounds) st = elim (run_once s now worker rng sinks send st) [
  | none ↦ none
  | some (n, st') ↦
      if n == 0 then some (0, st') else elim (drain s now worker rng sinks send rounds st') [
        | none ↦ none
        | some (m, st'') ↦ some (n + m, st'')
      ]
]

-- notifications/service.py `_redrive_rows`: the rows moved, and the table.
abbrev pub redriven : ℕ → Delivery → Delivery
redriven now d = record d {
  status = pending;
  attempts = 0;
  next_attempt_at = now;
  lease_until = none;
  leased_by = none;
  dead_at = none;
  redrive_count = d.redrive_count + 1;
}

unfoldable pub redrive_rows : ℕ → List ℕ → List Delivery → ℕ × List Delivery
redrive_rows now [] ds = (0, ds)
redrive_rows now (i ∷ is) ds =
    let one = update_row i (λ d. is_dead d.status) (redriven now) ds in
    let rest = redrive_rows now is (one.1) in ((if one.0 then rest.0 + 1 else rest.0), rest.1)
