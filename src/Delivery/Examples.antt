-- ===== src/Delivery/Examples.antt =====
-- Runs of delivery/: a rollout whose promotion fails, a canary, and the witnesses of the theorems.
use agentic_ai_model_adaptat.Prelude.{
  Option, ℕ, ◌≡◌, refl, true, false, none, some, [], ◌∷◌, ◌==◌, if◌then◌else◌, arith,
}
use agentic_ai_model_adaptat.Registry.Port.{promotion_error, Try, gives, throws}
use agentic_ai_model_adaptat.Delivery.Health.{
  lower, HealthRule, ArmStats, evaluate_health, check_rules,
}
use agentic_ai_model_adaptat.Delivery.Judged.{described, evaluate_health-described}
use agentic_ai_model_adaptat.Delivery.Rollouts.{
  shadow, promote, undo_traffic, end_without_promotion, canary, promoted, rolled_back, then_promote,
  or_rollback, DeliveryPolicy, Rollout, Serving, recorded, split_traffic,
}
use agentic_ai_model_adaptat.Delivery.Controller.{Ticked, went_for, advance, tick, reject}
use agentic_ai_model_adaptat.Delivery.InOrder.{IsInOrder}
use agentic_ai_model_adaptat.Delivery.Actions.{
  read_row, done, ticks, rejects, Actions-IsInOrder, Actions-ended,
}
use agentic_ai_model_adaptat.Delivery.Undone.{SplitLaws, EndsClear, end_without_promotion-EndsClear}

abbrev rule : HealthRule
rule = record {
  metric = 1;
  direction = lower;
  limit = some 50;
  max_degradation = some 10;
  max_ratio = none;
  required = true;
}

abbrev arm : ℕ → ArmStats
arm mean = record { count = 200; samples = (1, record { size = 20; mean = mean }) ∷ [] }

abbrev pub policy : DeliveryPolicy
policy = record {
  min_samples = 100;
  health = rule ∷ [];
  shadow_max_s = 1000;
  shadow_then = then_promote;
  canary_steps = 5 ∷ 25 ∷ 100 ∷ [];
  canary_step_hold_s = 60;
  ab_percent = 50;
  ab_duration_s = 500;
  ab_policy = record {
    min_samples = 100;
    ab_metric = 1;
    ab_direction = lower;
    ab_confidence = 95;
    one = 100;
  };
  ab_inconclusive = or_rollback;
  approval_ttl_s = 300;
  approval_canary = false;
}

-- Version 7 cannot be promoted.
abbrev pub serving : Serving ℕ
serving = record {
  splits_traffic = true;
  split = λ m v c p w. (gives tt, p);
  traffic = λ m w. (gives (if w == 0 then none else some 2), w);
  promote = λ m v l i w. (if v == 7 then throws promotion_error else gives tt, w);
  stats = λ r now w. (gives (arm 20, arm 25), w);
  p_value = λ a b. none;
}

abbrev pub running : Rollout
running = record {
  rollout_id = 3;
  model_id = 4;
  state = canary;
  stable_version = some 1;
  candidate_version = 2;
  step = 0;
  percent = 5;
  policy = policy;
  step_started_at = 10;
  deadline_at = none;
  decided_by = none;
  history = [];
  finished_at = none;
}

advanced :
    ((tick serving true 100 (read_row serving running 5)).1.saved.percent ≡ 25)
    × ((tick serving true 100 (read_row serving running 5)).1.world ≡ 25)
    × ((tick serving true 50 (read_row serving running 5)).0 ≡ gives Ticked.waiting)
unfolding tick advance evaluate_health check_rules split_traffic recorded
advanced = (refl, refl, refl)

evaluate_health-described_example :
    (evaluate_health 100 (rule ∷ []) (arm 20) (arm 45)).status
    ≡ described 100 (rule ∷ []) (arm 20) (arm 45)
evaluate_health-described_example = evaluate_health-described 100 (rule ∷ []) (arm 20) (arm 45)

Actions-IsInOrder_example :
    IsInOrder
      (reject serving 6 true 200
        (read_row serving (tick serving true 100 (read_row serving running 5)).1.saved 25)).1.saved
Actions-IsInOrder_example =
    Actions-IsInOrder serving running
      (reject serving 6 true 200
        (read_row serving (tick serving true 100 (read_row serving running 5)).1.saved 25)).1.saved
      (refl, omega arith) (ticks true 100 5 running _ (rejects 6 true 200 25 _ _ (done _)))

abbrev finished : Rollout
finished = record running { state = rolled_back; percent = 0 }

Actions-ended_example : (tick serving true 100 (read_row serving finished 0)).1.saved ≡ finished
Actions-ended_example =
    Actions-ended serving finished (tick serving true 100 (read_row serving finished 0)).1.saved
      refl (ticks true 100 0 finished _ (done _))

-- In shadow, then to be promoted to a version that cannot be.
abbrev doomed : Rollout
doomed = record running {
  candidate_version = 7;
  state = shadow;
  policy = record policy { shadow_then = then_promote };
}

-- The promotion failed and the row says ROLLED_BACK, but the tick answers PROMOTED.
misreported :
    ((tick serving true 100 (read_row serving doomed 0)).0 ≡ gives (went_for promoted))
    × ((tick serving true 100 (read_row serving doomed 0)).1.saved.state ≡ rolled_back)
unfolding tick advance evaluate_health check_rules promote end_without_promotion undo_traffic
    split_traffic recorded
misreported = (refl, refl)

-- Systems whose state is the candidate with a share of the traffic.
abbrev sharing : Serving (Option ℕ)
sharing = record {
  splits_traffic = true;
  split = λ m v c p w. (gives tt, c);
  traffic = λ m w. (gives w, w);
  promote = λ m v l i w. (throws promotion_error, w);
  stats = λ r now w. (gives (arm 20, arm 25), w);
  p_value = λ a b. none;
}

gives_same : (a b : Option ℕ) → ◌≡◌ {A = Try (Option ℕ)} (gives a) (gives b) → a ≡ b
gives_same a b h = cc

abbrev sharing_laws : SplitLaws sharing
sharing_laws = record {
  shared = λ w m. w;
  split_removed = λ m v w h. refl;
  traffic_read = λ m c w h. gives_same w c h;
}

end_without_promotion-EndsClear_example :
    EndsClear sharing sharing_laws
      (read_row sharing running (some 2))
      (end_without_promotion sharing rolled_back 300 (read_row sharing running (some 2)))
end_without_promotion-EndsClear_example =
    end_without_promotion-EndsClear sharing sharing_laws rolled_back 300
      (read_row sharing running (some 2)) refl refl
