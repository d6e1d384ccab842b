-- ===== src/Delivery/Steps.antt =====
-- About the steps of a canary of delivery/controller.py, under a policy that core/policies.py
-- accepts.
use agentic_ai_model_adaptat.Prelude.{
  ℕ, suc, ◌<◌, ◌≡◌, Bool, false, ◌&&◌, List, [], ◌∷◌, ltb, ◌⊎◌, ◌==◌,
}
use agentic_ai_model_adaptat.Registry.Port.{Exn, Try, gives, throws}
use agentic_ai_model_adaptat.Delivery.Health.{Health}
use agentic_ai_model_adaptat.Delivery.Rollouts.{
  canary, promoted, Serving, RolloutRun, split_traffic, promote,
}
use agentic_ai_model_adaptat.Delivery.Controller.{Ticked, waiting, went_for}

-- `DeliveryPolicy._steps`: the percentages grow strictly, from 1 on, and the last is 100.
abbrev pub grow_to_100 : (above : ℕ) → List ℕ → Bool
grow_to_100 above [] = above == 100
grow_to_100 above (p ∷ ps) = ltb above p && grow_to_100 p ps

abbrev pub accepts_steps : List ℕ → Bool
accepts_steps [] = false
accepts_steps (p ∷ ps) = grow_to_100 0 (p ∷ ps)

module _ {W : Type 0} (S : Serving W) (now : ℕ) where
  -- What a tick of a canary comes to: it waits and changes nothing; it goes on to its next step, at a
  -- greater share, below 100, that the serving system took; it goes for the promotion; or a call that it
  -- made raised: the split of the next step, or the promotion.
  pub data CanaryTick (s : RolloutRun W) : Try Ticked × RolloutRun W → Type 0 where
    holds : CanaryTick s (gives waiting, s)
    grows :
        (percent : ℕ) (t : RolloutRun W)
        → s.row.percent < percent
        → percent < 100
        → (split_traffic S percent s).0 ≡ gives tt
        → t.saved.state ≡ canary
        → t.saved.step ≡ suc s.row.step
        → t.saved.percent ≡ percent
        → CanaryTick s (gives (went_for canary), t)
    goes_live :
        (t : RolloutRun W)
        → promote S now s ≡ (gives tt, t)
        → CanaryTick s (gives (went_for promoted), t)
    raises :
        (e : Exn) (t : RolloutRun W)
        → ((percent : ℕ) × (s.row.percent < percent) × (split_traffic S percent s ≡ (throws e, t)))
          ⊎ (promote S now s ≡ (throws e, t))
        → CanaryTick s (throws e, t)
