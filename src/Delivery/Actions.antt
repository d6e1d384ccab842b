-- ===== src/Delivery/Actions.antt =====
-- About delivery/controller.py: sequences of ticks, approvals and rejections of one rollout.
use agentic_ai_model_adaptat.Prelude.{
  ℕ, ◌≡◌, refl, ◌∙◌, ap, inl, inr, Bool, true, false, not, ◌||◌, Bool-cases,
}
use agentic_ai_model_adaptat.Registry.Port.{is_deployment, Try, gives, throws}
use agentic_ai_model_adaptat.Registry.Rules.{and_then_rule}
use agentic_ai_model_adaptat.Delivery.Rollouts.{
  expired, rejected, is_active, Rollout, Serving, RolloutRun, rollback_row, with_row,
  end_without_promotion,
}
use agentic_ai_model_adaptat.Delivery.Controller.{
  Ticked, is_late, is_awaiting, advance, is_metrics, or_unavailable, tick, locked_action, decided,
  approve_as, approve_waiting, approve, reject,
}
use agentic_ai_model_adaptat.Delivery.InOrder.{
  IsInOrder, RunsInOrder, end_without_promotion-RunsInOrder, promote-RunsInOrder,
  enter_canary-RunsInOrder,
}
use agentic_ai_model_adaptat.Delivery.Advances.{
  expired-IsInOrder, rejected-IsInOrder, advance-RunsInOrder,
}

module _ {W : Type 0} (S : Serving W) where
  or_unavailable-IsInOrder :
      (now : ℕ) (r : Try Ticked × RolloutRun W)
      → RunsInOrder r.1
      → IsInOrder (or_unavailable S now r).1.saved
  or_unavailable-IsInOrder now (gives t, s) is = is.0
  or_unavailable-IsInOrder now (throws e, s) is =
      elim (Bool-cases (is_metrics S e || is_deployment e)) [
        | inl outside ↦ rw (outside, or_unavailable) (is.0)
        | inr other ↦ rw (other, or_unavailable) (is.0)
      ]

  tick-IsInOrder :
      (locked : Bool) (now : ℕ) (s : RolloutRun W)
      → IsInOrder s.saved
      → IsInOrder (tick S locked now s).1.saved
  unfolding tick
  tick-IsInOrder locked now s is = elim (Bool-cases (is_active s.saved.state)) [
    | inl active ↦ elim (Bool-cases locked) [
      | inl held ↦
          rw (active, held, tick)
            (or_unavailable-IsInOrder now (advance S now (rollback_row s))
              (advance-RunsInOrder S now (rollback_row s) (is, is)))
      | inr taken ↦ rw (active, taken, tick) is
    ]
    | inr over ↦ rw (over, tick) is
  ]

  approve_as-RunsInOrder :
      (by_canary : Bool) (actor now : ℕ) (s : RolloutRun W)
      → RunsInOrder s
      → RunsInOrder (approve_as S by_canary actor now s).1
  approve_as-RunsInOrder true actor now s is =
      enter_canary-RunsInOrder S now (with_row (decided S actor) s) is
  approve_as-RunsInOrder false actor now s is =
      promote-RunsInOrder S now (with_row (decided S actor) s) (is.1)

  approve_waiting-IsInOrder :
      (actor now : ℕ) (s : RolloutRun W)
      → RunsInOrder s
      → RunsInOrder (approve_waiting S actor now s).1
  approve_waiting-IsInOrder actor now s is = elim (Bool-cases (is_awaiting S s.row.state)) [
    | inl awaiting ↦ elim (Bool-cases (is_late s.row.deadline_at now)) [
      | inl late ↦
          rw (awaiting, late)
            (and_then_rule (λ r. RunsInOrder r.1) (end_without_promotion S expired now s) _
              (λ _ _. end_without_promotion-RunsInOrder S expired now s (expired-IsInOrder now) is)
              (λ _ _. end_without_promotion-RunsInOrder S expired now s (expired-IsInOrder now) is))
      | inr timely ↦
          rw (awaiting, timely) (approve_as-RunsInOrder s.row.policy.approval_canary actor now s is)
    ]
    | inr other ↦ rw other is
  ]

  locked_action-IsInOrder :
      (locked : Bool) (action : RolloutRun W → Try (Unit {0}) × RolloutRun W) (s : RolloutRun W)
      → ((t : RolloutRun W) → RunsInOrder t → RunsInOrder (action t).1)
      → IsInOrder s.saved
      → IsInOrder (locked_action S locked action s).1.saved
  locked_action-IsInOrder locked action s keeps is =
      elim (Bool-cases (not (is_active s.saved.state) || not locked)) [
        | inl closed ↦ rw closed is
        | inr free ↦ rw free ((keeps (rollback_row s) (is, is)).0)
      ]

  approve-IsInOrder :
      (actor : ℕ) (locked : Bool) (now : ℕ) (s : RolloutRun W)
      → IsInOrder s.saved
      → IsInOrder (approve S actor locked now s).1.saved
  unfolding approve
  approve-IsInOrder actor locked now s is =
      locked_action-IsInOrder locked (approve_waiting S actor now) s
        (approve_waiting-IsInOrder actor now) is

  reject-IsInOrder :
      (actor : ℕ) (locked : Bool) (now : ℕ) (s : RolloutRun W)
      → IsInOrder s.saved
      → IsInOrder (reject S actor locked now s).1.saved
  unfolding reject
  reject-IsInOrder actor locked now s is =
      locked_action-IsInOrder locked
        (λ t. end_without_promotion S rejected now (with_row (decided S actor) t)) s
        (λ t all.
          end_without_promotion-RunsInOrder S rejected now (with_row (decided S actor) t)
            (rejected-IsInOrder now) all)
        is

  -- A session that has read the row, with the systems in any state.
  abbrev pub read_row : Rollout → W → RolloutRun W
  read_row r w = record { saved = r; row = r; world = w }

  -- Ticks, approvals and rejections of a rollout, one after another, from its row to its row.
  pub data Actions : Rollout → Rollout → Type 0 where
    done : (r : Rollout) → Actions r r
    ticks :
        (locked : Bool) (now : ℕ) (w : W) (r t : Rollout)
        → Actions (tick S locked now (read_row r w)).1.saved t
        → Actions r t
    approves :
        (actor : ℕ) (locked : Bool) (now : ℕ) (w : W) (r t : Rollout)
        → Actions (approve S actor locked now (read_row r w)).1.saved t
        → Actions r t
    rejects :
        (actor : ℕ) (locked : Bool) (now : ℕ) (w : W) (r t : Rollout)
        → Actions (reject S actor locked now (read_row r w)).1.saved t
        → Actions r t

  -- In any sequence of ticks, approvals and rejections, whatever the systems answer, a rollout in
  -- order stays in order: a canary is at the percentage of its step, below 100, and one that ended
  -- has no share of the traffic recorded, or all of it when it was promoted.
  pub Actions-IsInOrder : (r t : Rollout) → IsInOrder r → Actions r t → IsInOrder t
  Actions-IsInOrder r t is (done u) = is
  Actions-IsInOrder r t is (ticks locked now w u v rest) =
      Actions-IsInOrder _ v (tick-IsInOrder locked now (read_row u w) is) rest
  Actions-IsInOrder r t is (approves actor locked now w u v rest) =
      Actions-IsInOrder _ v (approve-IsInOrder actor locked now (read_row u w) is) rest
  Actions-IsInOrder r t is (rejects actor locked now w u v rest) =
      Actions-IsInOrder _ v (reject-IsInOrder actor locked now (read_row u w) is) rest

  tick-ended :
      (locked : Bool) (now : ℕ) (r : Rollout) (w : W)
      → is_active r.state ≡ false
      → (tick S locked now (read_row r w)).1.saved ≡ r
  unfolding tick
  tick-ended locked now r w over = rw (over, tick) refl

  locked_action-ended :
      (locked : Bool) (action : RolloutRun W → Try (Unit {0}) × RolloutRun W) (r : Rollout) (w : W)
      → is_active r.state ≡ false
      → (locked_action S locked action (read_row r w)).1.saved ≡ r
  locked_action-ended locked action r w over = rw over refl

  approve-ended :
      (actor : ℕ) (locked : Bool) (now : ℕ) (r : Rollout) (w : W)
      → is_active r.state ≡ false
      → (approve S actor locked now (read_row r w)).1.saved ≡ r
  unfolding approve
  approve-ended actor locked now r w over =
      locked_action-ended locked (approve_waiting S actor now) r w over

  reject-ended :
      (actor : ℕ) (locked : Bool) (now : ℕ) (r : Rollout) (w : W)
      → is_active r.state ≡ false
      → (reject S actor locked now (read_row r w)).1.saved ≡ r
  unfolding reject
  reject-ended actor locked now r w over =
      locked_action-ended locked
        (λ t. end_without_promotion S rejected now (with_row (decided S actor) t)) r w over

  -- A rollout that has ended is never changed by ticks, approvals or rejections.
  pub Actions-ended : (r t : Rollout) → is_active r.state ≡ false → Actions r t → t ≡ r
  Actions-ended r t over (done u) = refl
  Actions-ended r t over (ticks locked now w u v rest) =
      let same = tick-ended locked now u w over in
      Actions-ended _ v (ap (λ x. is_active x.state) same ∙ over) rest ∙ same
  Actions-ended r t over (approves actor locked now w u v rest) =
      let same = approve-ended actor locked now u w over in
      Actions-ended _ v (ap (λ x. is_active x.state) same ∙ over) rest ∙ same
  Actions-ended r t over (rejects actor locked now w u v rest) =
      let same = reject-ended actor locked now u w over in
      Actions-ended _ v (ap (λ x. is_active x.state) same ∙ over) rest ∙ same
