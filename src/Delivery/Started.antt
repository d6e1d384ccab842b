-- ===== src/Delivery/Started.antt =====
-- About delivery/controller.py: the start of a rollout.
use mathlib.Core.Path.{subst}
use agentic_ai_model_adaptat.Prelude.{
  ℕ, ◌≡◌, refl, sym, ◌∙◌, ap, ◌⊎◌, inl, inr, true, ◌&&◌, Option, none, some, List, [], ◌∷◌,
  Bool-cases, leb, ltb,
}
use agentic_ai_model_adaptat.Registry.Port.{is_deployment, Try, gives, throws}
use agentic_ai_model_adaptat.Registry.Rules.{and_then_rule}
use agentic_ai_model_adaptat.Delivery.Rollouts.{
  RolloutState, promoted, rolled_back, is_active, Rollout, Serving, RolloutRun,
  is_promotion_failure, commit_row, rollback_row, calls, recorded, noted, with_row, split_traffic,
  undo_traffic, end_without_promotion, or_noted, clear_split, after_promotion, promote,
}
use agentic_ai_model_adaptat.Delivery.InOrder.{undo_traffic-SameRow}
use agentic_ai_model_adaptat.Delivery.Start.{
  StartArgs, active_rollout, initial_state, first_percent, new_rollout, Begun, with_saved,
  or_undo_noted, hold, after_first_split, begin_at, begin, begin_from, start_rollout,
}

-- A model has one active rollout at most.
abbrev pub OneActive : List Rollout → Type 0
OneActive [] = Unit
OneActive (r ∷ rs) = (is_active r.state ≡ true → active_rollout r.model_id rs ≡ none) × OneActive rs

recorded-model :
    (to : RolloutState) (now : ℕ) (percent step deadline : Option ℕ) (r : Rollout)
    → (recorded to now percent step deadline r).model_id ≡ r.model_id
unfolding recorded
recorded-model to now percent step deadline r = refl

module _ {W : Type 0} (S : Serving W) (i : ℕ) where
  -- Both the committed row and that of the session are of the model.
  abbrev RunFor : RolloutRun W → Type 0
  RunFor s = (s.saved.model_id ≡ i) × (s.row.model_id ≡ i)

  recorded-RunFor :
      (to : RolloutState) (now : ℕ) (percent step deadline : Option ℕ) (s : RolloutRun W)
      → RunFor s
      → RunFor (commit_row (with_row (recorded to now percent step deadline) s))
  recorded-RunFor to now percent step deadline s is =
      let same = recorded-model to now percent step deadline s.row ∙ is.1 in (same, same)

  end_without_promotion-RunFor :
      (to : RolloutState) (now : ℕ) (s : RolloutRun W)
      → RunFor s
      → RunFor (end_without_promotion S to now s).1
  unfolding end_without_promotion
  end_without_promotion-RunFor to now s is =
      let same = undo_traffic-SameRow S s in
      let after : RunFor (undo_traffic S s).1 =
        (ap (λ r. r.model_id) (same.0) ∙ is.0, ap (λ r. r.model_id) (same.1) ∙ is.1) in
      and_then_rule (λ r. RunFor r.1) (undo_traffic S s) _
        (λ _ _. recorded-RunFor to now (some 0) none none (undo_traffic S s).1 after) (λ _ _. after)

  or_noted-RunFor :
      (now : ℕ) (r : Try (Unit {0}) × RolloutRun W) → RunFor r.1 → RunFor (or_noted S now r).1
  or_noted-RunFor now (gives u, s) is = is
  or_noted-RunFor now (throws e, s) is = elim (Bool-cases (is_deployment e)) [
    | inl serving ↦ rw (serving, or_noted) is
    | inr other ↦ rw (other, or_noted) is
  ]

  clear_split-RunFor : (now : ℕ) (s : RolloutRun W) → RunFor s → RunFor (clear_split S now s).1
  clear_split-RunFor now s is = elim (Bool-cases (S.splits_traffic && ltb 0 s.row.percent)) [
    | inl split ↦
        rw split
          (or_noted-RunFor now (calls (S.split s.row.model_id s.row.candidate_version none 0) s) is)
    | inr whole ↦ rw whole is
  ]

  after_promotion-RunFor :
      (now : ℕ) (r : Try (Unit {0}) × RolloutRun W)
      → RunFor r.1
      → RunFor (after_promotion S now r).1
  after_promotion-RunFor now (gives u, s) is =
      let cleared = clear_split-RunFor now s is in
      and_then_rule (λ r. RunFor r.1) (clear_split S now s) _
        (λ _ _. recorded-RunFor promoted now (some 100) none none (clear_split S now s).1 cleared)
        (λ _ _. cleared)
  after_promotion-RunFor now (throws e, s) is = elim (Bool-cases (is_promotion_failure e)) [
    | inl failure ↦
        rw (failure, after_promotion)
          (end_without_promotion-RunFor rolled_back now (rollback_row s) (is.0, is.0))
    | inr other ↦ rw (other, after_promotion) is
  ]

  promote-RunFor : (now : ℕ) (s : RolloutRun W) → s.row.model_id ≡ i → RunFor (promote S now s).1
  unfolding promote
  promote-RunFor now s is =
      let r = s.row in
      after_promotion-RunFor now
        (calls (S.promote r.model_id r.candidate_version r.stable_version r.rollout_id)
          (commit_row s))
        (is, is)

module _ {W : Type 0} (S : Serving W) (a : StartArgs) (now : ℕ) (rs : List Rollout) where
  -- The table is as before, or has one more row, of the model.
  abbrev Adds : Begun W → Type 0
  Adds b = (b.1 ≡ rs) ⊎ ((r : Rollout) × (b.1 ≡ r ∷ rs) × (r.model_id ≡ a.model_id))

  with_saved-Adds :
      (r : Try (Unit {0}) × RolloutRun W) → RunFor S a.model_id r.1 → Adds (with_saved rs r)
  with_saved-Adds (t, s) is = inr (s.saved, refl, is.0)

  or_undo_noted-Adds :
      (r : Try (Unit {0}) × RolloutRun W) → RunFor S a.model_id r.1 → Adds (or_undo_noted now rs r)
  or_undo_noted-Adds (gives u, s) is = inr (s.saved, refl, is.0)
  or_undo_noted-Adds (throws e, s) is = elim (Bool-cases (is_deployment e)) [
    | inl serving ↦ rw (serving, or_undo_noted) (inr (noted now e s.row, refl, is.1))
    | inr other ↦ rw (other, or_undo_noted) (inl refl)
  ]

  hold-Adds :
      (percent : ℕ) (s : RolloutRun W) → RunFor S a.model_id s → Adds (hold S a now rs percent s)
  hold-Adds percent s is =
      inr (_, refl, (recorded-RunFor S a.model_id s.row.state now (some percent) none _ s is).0)

  after_first_split-Adds :
      (percent : ℕ) (r : Try (Unit {0}) × RolloutRun W)
      → RunFor S a.model_id r.1
      → Adds (after_first_split S a now rs percent r)
  after_first_split-Adds percent (gives u, s) is = hold-Adds percent s is
  after_first_split-Adds percent (throws e, s) is = elim (Bool-cases (is_deployment e)) [
    | inl serving ↦
        rw (serving, after_first_split)
          (or_undo_noted-Adds (end_without_promotion S rolled_back now s)
            (end_without_promotion-RunFor S a.model_id rolled_back now s is))
    | inr other ↦ rw (other, after_first_split) (inl refl)
  ]

  begin_at-Adds :
      (percent : ℕ) (s : RolloutRun W)
      → RunFor S a.model_id s
      → Adds (begin_at S a now rs percent s)
  unfolding split_traffic
  begin_at-Adds percent s is = elim (Bool-cases (leb 100 percent)) [
    | inl whole ↦
        let s1 = with_row (recorded s.row.state now none none none) s in
        let of_model = recorded-model s.row.state now none none none s.row ∙ is.1 in
        rw whole (with_saved-Adds (promote S now s1) (promote-RunFor S a.model_id now s1 of_model))
    | inr part ↦ elim (Bool-cases (ltb 0 percent)) [
      | inl some_share ↦
          rw (part, some_share) (after_first_split-Adds percent (split_traffic S percent s) is)
      | inr no_share ↦ rw (part, no_share) (hold-Adds percent s is)
    ]
  ]

  begin-Adds : (initial : RolloutState) (t : Try ℕ) (w : W) → Adds (begin S a now rs initial t w)
  begin-Adds initial (throws e) w = inl refl
  begin-Adds initial (gives percent) w =
      let r = new_rollout a initial now in
      begin_at-Adds percent (record { saved = r; row = r; world = w }) (refl, refl)

  Adds-OneActive :
      (b : Begun W) → active_rollout a.model_id rs ≡ none → OneActive rs → Adds b → OneActive b.1
  Adds-OneActive b free one (inl same) = subst OneActive (sym same) one
  Adds-OneActive b free one (inr (r, same, mine)) =
      subst OneActive (sym same) (λ _. subst (λ x. active_rollout x rs ≡ none) (sym mine) free, one)

  begin_from-OneActive :
      (initial : Option RolloutState) (existing : Option Rollout) (w : W)
      → active_rollout a.model_id rs ≡ existing
      → OneActive rs
      → OneActive (begin_from S a now rs initial existing w).1
  begin_from-OneActive none existing w is one = one
  begin_from-OneActive (some initial) (some existing) w is one = one
  begin_from-OneActive (some initial) none w is one =
      let t = first_percent a.strategy a.policy.ab_percent a.policy.canary_steps in
      Adds-OneActive (begin S a now rs initial t w) is one (begin-Adds initial t w)

  -- A start keeps one active rollout at most per model, whatever the serving system answers.
  pub start_rollout-OneActive : (w : W) → OneActive rs → OneActive (start_rollout S a now rs w).1
  unfolding start_rollout
  start_rollout-OneActive w one =
      begin_from-OneActive (initial_state a.strategy) (active_rollout a.model_id rs) w refl one
