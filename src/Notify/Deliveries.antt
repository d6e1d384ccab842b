-- ===== src/Notify/Deliveries.antt =====
-- db/models.py `NotificationDelivery` and the UPDATE statements on it by primary key.
use agentic_ai_model_adaptat.Prelude.{
  ℕ, ◌≡◌, refl, ◌⊎◌, arith, Bool, true, false, Option, none, some, List, [], ◌∷◌, ◌==◌,
  if◌then◌else◌,
}

pub data DeliveryStatus : Type 0 where
  pending delivered dead : DeliveryStatus

abbrev pub is_pending : DeliveryStatus → Bool
is_pending pending = true
is_pending _ = false

abbrev pub is_dead : DeliveryStatus → Bool
is_dead dead = true
is_dead _ = false

pub record Delivery : Type 0 where
  pub id : ℕ
  pub event_id : ℕ
  pub sink : ℕ
  pub status : DeliveryStatus
  pub attempts : ℕ
  pub next_attempt_at : ℕ
  pub lease_until : Option ℕ
  pub leased_by : Option ℕ
  pub last_error : Option ℕ
  pub last_status_code : Option ℕ
  pub redrive_count : ℕ
  pub delivered_at : Option ℕ
  pub dead_at : Option ℕ

-- `where(NotificationDelivery.id == i)`
abbrev pub row : ℕ → List Delivery → Option Delivery
row i [] = none
row i (d ∷ ds) = if d.id == i then some d else row i ds

-- `update(...).where(id == i, p).values(...)`: whether it matched, and the rows.
abbrev pub update_row :
    ℕ → (Delivery → Bool) → (Delivery → Delivery) → List Delivery → Bool × List Delivery
update_row i p f [] = (false, [])
update_row i p f (d ∷ ds) =
    let rest = update_row i p f ds in
    if d.id == i then (if p d then (true, f d ∷ ds) else (false, d ∷ ds)) else (rest.0, d ∷ rest.1)

pub row-id : (i : ℕ) (ds : List Delivery) {d : Delivery} → row i ds ≡ some d → d.id ≡ i
row-id i [] e = cc
row-id i (k ∷ ks) {d = d} e = ground (arith, row-id i ks {d = d})

-- The effect of an UPDATE on the row that it names, and on the others.
module _ (i : ℕ) (p : Delivery → Bool) (f : Delivery → Delivery)
    (same : (d : Delivery) → (f d).id ≡ d.id) where
  pub row-update_row :
      (ds : List Delivery) {d : Delivery}
      → row i ds ≡ some d
      → row i (update_row i p f ds).1 ≡ some (if p d then f d else d)
  row-update_row [] e = cc
  row-update_row (k ∷ ks) {d = d} e = ground (arith, row-update_row ks {d = d}, same k)

  pub update_row-matched :
      (ds : List Delivery) {d : Delivery} → row i ds ≡ some d → (update_row i p f ds).0 ≡ p d
  update_row-matched [] e = cc
  update_row-matched (k ∷ ks) {d = d} e = ground (arith, update_row-matched ks {d = d})

-- An UPDATE whose condition a row does not meet leaves that row alone.
pub row-update_row_off :
    (i k : ℕ) (p : Delivery → Bool) (f : Delivery → Delivery)
    (same : (d : Delivery) → (f d).id ≡ d.id) (ds : List Delivery) {d : Delivery}
    → row k ds ≡ some d
    → p d ≡ false
    → row k (update_row i p f ds).1 ≡ some d
row-update_row_off i k p f same [] e off = cc
row-update_row_off i k p f same (x ∷ xs) {d = d} e off =
    ground (arith, same x, row-update_row_off i k p f same xs {d = d})

pub update_row-unmatched :
    (i : ℕ) (p : Delivery → Bool) (f : Delivery → Delivery) (ds : List Delivery)
    → row i ds ≡ none
    → (update_row i p f ds).0 ≡ false
update_row-unmatched i p f [] e = refl
update_row-unmatched i p f (d ∷ ds) e = ground (arith, update_row-unmatched i p f ds)

-- Any UPDATE leaves a row as it is or gives it the new values.
pub row-update_row_cases :
    (i k : ℕ) (p : Delivery → Bool) (f : Delivery → Delivery)
    (same : (d : Delivery) → (f d).id ≡ d.id) (ds : List Delivery) {d : Delivery}
    → row k ds ≡ some d
    → (row k (update_row i p f ds).1 ≡ some d) ⊎ (row k (update_row i p f ds).1 ≡ some (f d))
row-update_row_cases i k p f same [] e = cc
row-update_row_cases i k p f same (x ∷ xs) {d = d} e =
    ground (arith, same x, row-update_row_cases i k p f same xs {d = d})
