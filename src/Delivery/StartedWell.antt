-- ===== src/Delivery/StartedWell.antt =====
-- About delivery/controller.py: the row that a start leaves.
use agentic_ai_model_adaptat.Prelude.{ℕ, ◌<◌, ◌≤◌, true, ◌≡◌, ◌⊎◌, none, some, List, ◌∷◌, true}
use agentic_ai_model_adaptat.Registry.Port.{Exn, is_deployment, gives, throws}
use agentic_ai_model_adaptat.Delivery.Rollouts.{
  RolloutState, rolled_back, Rollout, Serving, RolloutRun, recorded, noted, with_row, split_traffic,
  undo_traffic, promote,
}
use agentic_ai_model_adaptat.Delivery.InOrder.{IsInOrder}
use agentic_ai_model_adaptat.Delivery.Start.{
  StartArgs, initial_state, first_percent, first_deadline, new_rollout, Begun,
}

module _ {W : Type 0} (S : Serving W) (a : StartArgs) (now : ℕ) (rs : List Rollout) (w : W) where
  -- The session with the new row.
  abbrev pub fresh : RolloutState → RolloutRun W
  fresh initial = record {
    saved = new_rollout a initial now;
    row = new_rollout a initial now;
    world = w;
  }

  -- The row and the world that a start from `w` leaves.
  pub data StartsWith : Rollout → W → Type 0 where
    -- No share is asked for, or the serving system took the first one: it is recorded.
    holds :
        (initial : RolloutState) (percent : ℕ) (r : Rollout) (v : W)
        → initial_state a.strategy ≡ some initial
        → first_percent a.strategy a.policy.ab_percent a.policy.canary_steps ≡ gives percent
        → percent < 100
        → (percent ≡ 0) ⊎ ((split_traffic S percent (fresh initial)).0 ≡ gives tt)
        → (r.state ≡ initial) × (r.step ≡ 0) × (r.percent ≡ percent)
        → r.deadline_at ≡ first_deadline a.strategy now a.policy
        → IsInOrder r
        → StartsWith r v
    -- The first share is everything: the candidate was promoted or rolled back.
    delivers :
        (initial : RolloutState) (percent : ℕ) (t : RolloutRun W)
        → first_percent a.strategy a.policy.ab_percent a.policy.canary_steps ≡ gives percent
        → 100 ≤ percent
        → promote S now (with_row (recorded initial now none none none) (fresh initial))
          ≡ (gives tt, t)
        → IsInOrder t.saved
        → StartsWith t.saved t.world
    -- The first split failed and its traffic was undone.
    undoes :
        (initial : RolloutState) (percent : ℕ) (e : Exn) (s : RolloutRun W) (r : Rollout) (v : W)
        → split_traffic S percent (fresh initial) ≡ (throws e, s)
        → is_deployment e ≡ true
        → (undo_traffic S s).0 ≡ gives tt
        → (r.state ≡ rolled_back) × (r.percent ≡ 0)
        → StartsWith r v
    -- The first split failed, and so did its undo: the row stands in its first state.
    fails_to_undo :
        (initial : RolloutState) (percent : ℕ) (e e' : Exn) (s : RolloutRun W) (v : W)
        → split_traffic S percent (fresh initial) ≡ (throws e, s)
        → is_deployment e ≡ true
        → (undo_traffic S s).0 ≡ throws e'
        → is_deployment e' ≡ true
        → StartsWith (noted now e' (new_rollout a initial now)) v

  abbrev StartsWell : Begun W → Type 0
  StartsWell b = b.0 ≡ gives tt → (r : Rollout) × (b.1 ≡ r ∷ rs) × StartsWith r b.2
