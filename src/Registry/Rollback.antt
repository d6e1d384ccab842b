-- ===== src/Registry/Rollback.antt =====
-- About `rollback_model` of registry/promotion.py after a move.
use mathlib.Core.Path.{subst}
use agentic_ai_model_adaptat.Prelude.{
  ℕ, ◌<◌, ◌≡◌, refl, ◌∙◌, ap, inl, inr, none, some, List, ◌∷◌, eq→==,
}
use agentic_ai_model_adaptat.Registry.Port.{Try, gives, Systems, Laws}
use agentic_ai_model_adaptat.Registry.Deployer.{Deployer}
use agentic_ai_model_adaptat.Registry.Session.{
  applied, ModelPromotion, ModelMeta, Session, State, earlier, last_applied_promotion,
  PromotionResult, promotion_result, model_meta,
}
use agentic_ai_model_adaptat.Registry.Promote.{MoveArgs}
use agentic_ai_model_adaptat.Registry.Moves.{
  dropped, promote_version, rollback_target, rollback_move, rollback_model,
}
use agentic_ai_model_adaptat.Registry.Contract.{
  LiveView, Records, LiveStep, repeats, refuses, keeps_live, moves, view,
}
use agentic_ai_model_adaptat.Registry.Atomic.{promote_version-Refines}
use agentic_ai_model_adaptat.Registry.History.{rollback_model-RollsBack}
use agentic_ai_model_adaptat.Registry.Runs.{for_model, model_meta_same}

-- The row that an applied move adds, when its key is new.
LiveStep-applied :
    (m : MoveArgs) (v v' : LiveView) (res : PromotionResult)
    → LiveStep m v v' (gives res)
    → earlier m.idempotency_key v.history ≡ none
    → res.status ≡ applied
    → (p : ModelPromotion) × Records m v.live p applied × (v'.history ≡ p ∷ v.history)
LiveStep-applied m v v' res (repeats p found answer same) new is = cc
LiveStep-applied m v v' res (refuses e answer same) new is = cc
LiveStep-applied m v v' res (keeps_live p row answer live grown) new is =
    let same : res ≡ promotion_result p = cc in
    let same_status = ap (λ x. x.status) same in let unchanged = row.3 in cc
LiveStep-applied m v v' res (moves p row answer live grown) new is = (p, row, grown)

-- What is live after a step that answers, when its key is new.
LiveStep-live :
    (m : MoveArgs) (v v' : LiveView) (res : PromotionResult)
    → LiveStep m v v' (gives res)
    → earlier m.idempotency_key v.history ≡ none
    → v'.live ≡ some m.version
LiveStep-live m v v' res (repeats p found answer same) new = cc
LiveStep-live m v v' res (refuses e answer same) new = cc
LiveStep-live m v v' res (keeps_live p row answer live grown) new = live.1
LiveStep-live m v v' res (moves p row answer live grown) new = live

last_applied_promotion-newest :
    (i : ℕ) (p : ModelPromotion) (ps : List ModelPromotion)
    → p.model_id ≡ i
    → p.status ≡ applied
    → last_applied_promotion i (p ∷ ps) ≡ some p
unfolding last_applied_promotion
last_applied_promotion-newest i p ps mine is = rw (eq→== p.model_id i mine, is) refl

module _ {W : Type 0} (S : Systems W) (L : Laws S) (d : Deployer) (pos : 0 < d.poll_s) (i : ℕ)
    (meta : ModelMeta) (alias : ℕ) where
  rollback_target-newest :
      (m : MoveArgs) (p : ModelPromotion) (v : ℕ) (s : Session)
      → last_applied_promotion m.model_id s.committed.promotions ≡ some p
      → p.from_version ≡ some v
      → rollback_target S d m none s ≡ gives v
  rollback_target-newest m p v s newest from = rw (rollback_target, newest, from) refl

  -- The state after a move in a session of its own, and after a rollback with no target.
  abbrev pub after_move : MoveArgs → ℕ → State W → Try PromotionResult × State W
  after_move m live_text s =
      promote_version S d (for_model S L d pos i meta alias m) live_text (dropped s)

  abbrev pub after_rollback : MoveArgs → ℕ → ℕ → State W → Try PromotionResult × State W
  after_rollback m live_text back_text s =
      rollback_model S d (for_model S L d pos i meta alias m) none live_text back_text (dropped s)

  -- A rollback that is given no target, after a move with a new key was applied while LIVE pointed at
  -- a version, and that answers under a new key of its own, makes that version live again.
  pub rollback_model-undoes :
      (m back : MoveArgs) (live_text back_text v : ℕ) (s : State W) (res res' : PromotionResult)
      → model_meta i s.session ≡ gives meta
      → L.points s.world meta.registered_name alias ≡ some v
      → earlier m.idempotency_key s.session.committed.promotions ≡ none
      → (after_move m live_text s).0 ≡ gives res
      → res.status ≡ applied
      → earlier back.idempotency_key (after_move m live_text s).1.session.committed.promotions
        ≡ none
      → (after_rollback back live_text back_text (after_move m live_text s).1).0 ≡ gives res'
      → L.points
          (after_rollback back live_text back_text (after_move m live_text s).1).1.world
          meta.registered_name
          alias
        ≡ some v
  rollback_model-undoes m back live_text back_text v s res res' onboarded there new answered is new'
        answered' =
      let move = for_model S L d pos i meta alias m in
      let undo = for_model S L d pos i meta alias back in
      let s1 = (after_move m live_text s).1 in
      let r' = after_rollback back live_text back_text s1 in
      let first =
        promote_version-Refines S L d pos move meta live_text (dropped s) onboarded refl in
      let added =
        LiveStep-applied move _ _ res
          (subst
            (λ x.
              LiveStep move (view S L meta.registered_name alias s)
                (view S L meta.registered_name alias s1) x)
            answered
            (elim (first.0) [
              | inl step ↦ step
              | inr (torn, (e, raised), same) ↦ let answer = answered in cc
            ]))
          new is in
      let p = added.0 in
      let newest =
        ap (last_applied_promotion i) (added.2)
        ∙ last_applied_promotion-newest i p _ (added.1.0) (added.1.3) in
      let target =
        rollback_target-newest undo p v (dropped s1).session newest (added.1.1 ∙ there) in
      let still = model_meta_same i s.session s1.session (first.1) ∙ onboarded in
      elim (rollback_model-RollsBack S L d pos undo meta none live_text back_text (dropped s1) still
        refl).0 [
          | inl (u, targeted, inr (torn, (e, raised), same)) ↦ let answer = answered' in cc
          | inl (u, targeted, inl step) ↦
              let same : u ≡ v = cc in
              LiveStep-live (rollback_move S d undo u back_text) _ _ res'
                (subst
                  (λ x.
                    LiveStep (rollback_move S d undo u back_text)
                      (view S L meta.registered_name alias s1)
                      (view S L meta.registered_name alias r'.1) x)
                  answered' step)
                new'
              ∙ ap some same
          | inr (e, raised, kept) ↦ cc
        ]
