-- ===== src/Delivery/Undone.antt =====
-- About the end of a rollout in delivery/controller.py: the traffic of its candidate.
use agentic_ai_model_adaptat.Prelude.{
  ℕ, ◌≡◌, ◌∙◌, ap, inl, inr, true, false, not, ◌||◌, Option, none, some, ltb, is_some, Bool-cases,
  Option-cases,
}
use agentic_ai_model_adaptat.Registry.Port.{Try, gives, throws}
use agentic_ai_model_adaptat.Registry.Rules.{and_then_rule}
use agentic_ai_model_adaptat.Delivery.Rollouts.{
  RolloutState, Rollout, Serving, RolloutRun, calls, split_from, split_traffic, undo_traffic,
  end_without_promotion,
}
use agentic_ai_model_adaptat.Delivery.InOrder.{undo_traffic-SameRow}

-- What is relied on of the serving system: `shared` is the candidate that has a share of a model's
-- traffic. A split that is removed and read back leaves none, and `traffic` tells it.
pub record SplitLaws {W : Type 0} (S : Serving W) : Type 0 where
  pub shared : W → (model : ℕ) → Option ℕ
  pub split_removed :
      (m v : ℕ) (w : W)
      → (S.split m v none 0 w).0 ≡ gives tt
      → shared (S.split m v none 0 w).1 m ≡ none
  pub traffic_read :
      (m : ℕ) (c : Option ℕ) (w : W) → (S.traffic m w).0 ≡ gives c → shared (S.traffic m w).1 m ≡ c

module _ {W : Type 0} (S : Serving W) (L : SplitLaws S) where
  -- After a call that answers, no candidate has a share.
  abbrev Clears : (model : ℕ) → Try (Unit {0}) × RolloutRun W → Type 0
  Clears m r = r.0 ≡ gives tt → L.shared r.1.world m ≡ none

  split_from-Clears :
      (r : Rollout) (stable : Option ℕ) (w : W)
      → (split_from S r stable 0 w).0 ≡ gives tt
      → L.shared (split_from S r stable 0 w).1 r.model_id ≡ none
  split_from-Clears r none w h = cc
  split_from-Clears r (some v) w h = L.split_removed r.model_id v w h

  undo_traffic-Clears :
      (s : RolloutRun W)
      → S.splits_traffic ≡ true
      → is_some s.row.stable_version ≡ true
      → Clears s.row.model_id (undo_traffic S s)
  unfolding undo_traffic split_traffic
  undo_traffic-Clears s splits stable =
      let active : (not S.splits_traffic || not (is_some s.row.stable_version)) ≡ false =
        ap (λ b. not b || not (is_some s.row.stable_version)) splits ∙ ap not stable in
      let m = s.row.model_id in
      let reading = calls (S.traffic m) s in
      elim (Bool-cases (ltb 0 s.row.percent)) [
        | inl part ↦
            rw (active, part, undo_traffic) (split_from-Clears s.row s.row.stable_version s.world)
        | inr unrecorded ↦
            rw (active, unrecorded, undo_traffic)
              (and_then_rule (Clears m) reading _
                (λ candidate read. elim (Option-cases candidate) [
                  | inl gone ↦ rw gone (λ _. L.traffic_read m candidate s.world read ∙ gone)
                  | inr (c, left) ↦
                      rw left (split_from-Clears s.row s.row.stable_version (reading.1).world)
                ])
                (λ e _ h. cc))
      ]

  -- What an end comes to: it answers and no candidate has a share, or it raises and the committed row
  -- is as before.
  abbrev pub EndsClear : RolloutRun W → Try (Unit {0}) × RolloutRun W → Type 0
  EndsClear s (gives u, t) = L.shared t.world s.row.model_id ≡ none
  EndsClear s (throws e, t) = t.saved ≡ s.saved

  -- A rollout that ends without a promotion, where the serving system splits traffic and a stable
  -- version is known, ends with no candidate traffic, whatever share the row recorded; when the split
  -- cannot be removed, the rollout does not end and its row stays as it was.
  pub end_without_promotion-EndsClear :
      (to : RolloutState) (now : ℕ) (s : RolloutRun W)
      → S.splits_traffic ≡ true
      → is_some s.row.stable_version ≡ true
      → EndsClear s (end_without_promotion S to now s)
  unfolding end_without_promotion
  end_without_promotion-EndsClear to now s splits stable =
      and_then_rule (EndsClear s) (undo_traffic S s) _
        (λ u undone. undo_traffic-Clears s splits stable undone)
        (λ e _. (undo_traffic-SameRow S s).0)
