-- ===== src/Registry/History.antt =====
-- About registry/promotion.py: what the recorded moves say of the live alias, over any sequence of
-- moves and rollbacks.
use mathlib.Core.Path.{subst}
use agentic_ai_model_adaptat.Prelude.{
  ℕ, ◌<◌, ◌≡◌, refl, sym, ◌∙◌, ap, ◌⊎◌, inl, inr, Bool, true, false, ◌&&◌, Option, none, some, List,
  [], ◌∷◌, ◌==◌, eq→==,
}
use agentic_ai_model_adaptat.Registry.Port.{Exn, Try, gives, throws, Artifact, Systems, Laws}
use agentic_ai_model_adaptat.Registry.Deployer.{Deployer}
use agentic_ai_model_adaptat.Registry.Session.{
  is_applied, ModelPromotion, ModelMeta, State, PromotionResult, model_meta, outside,
}
use agentic_ai_model_adaptat.Registry.Promote.{MoveArgs, verify_version_artifact}
use agentic_ai_model_adaptat.Registry.Moves.{
  promote_version, rollback_target, as_artifact_error, check_loads, rollback_move, rollback_model,
}
use agentic_ai_model_adaptat.Registry.Rules.{and_then_rule}
use agentic_ai_model_adaptat.Registry.Reads.{verify_version_artifact-points}
use agentic_ai_model_adaptat.Registry.Contract.{
  LiveView, LiveStep, repeats, refuses, keeps_live, moves, view, view_same,
}
use agentic_ai_model_adaptat.Registry.Atomic.{Torn, promote_version-Refines}

abbrev pub Either : Bool → Type 0 → Type 0 → Type 0
Either true A B = A
Either false A B = B

-- Going back from what is live through the applied moves of a model, each row led from what it
-- names as before to what was live then.
abbrev pub Chains : (model_id : ℕ) → Option ℕ → List ModelPromotion → Type 0
Chains i live [] = Unit
Chains i live (p ∷ ps) =
    Either (p.model_id == i && is_applied p.status)
      ((live ≡ some p.to_version) × Chains i p.from_version ps) (Chains i live ps)

and_false : (b : Bool) → (b && false) ≡ false
and_false true = refl
and_false false = refl

Chains-skipped :
    (i : ℕ) (live : Option ℕ) (p : ModelPromotion) (ps : List ModelPromotion)
    → is_applied p.status ≡ false
    → Chains i live ps
    → Chains i live (p ∷ ps)
Chains-skipped i live p ps skipped chain = rw (skipped, and_false (p.model_id == i)) chain

Chains-moved :
    (i : ℕ) (live : Option ℕ) (p : ModelPromotion) (ps : List ModelPromotion)
    → p.model_id ≡ i
    → is_applied p.status ≡ true
    → live ≡ some p.to_version
    → Chains i p.from_version ps
    → Chains i live (p ∷ ps)
Chains-moved i live p ps mine moved there chain = rw (eq→== p.model_id i mine, moved) (there, chain)

pub LiveStep-Chains :
    (m : MoveArgs) (v v' : LiveView) (r : Try PromotionResult)
    → LiveStep m v v' r
    → Chains m.model_id v.live v.history
    → Chains m.model_id v'.live v'.history
LiveStep-Chains m v v' r (repeats p found answer same) chain =
    subst (λ x. Chains m.model_id x.live x.history) (sym same) chain
LiveStep-Chains m v v' r (refuses e answer same) chain =
    subst (λ x. Chains m.model_id x.live x.history) (sym same) chain
LiveStep-Chains m v v' r (keeps_live p is answer live grown) chain =
    rw (live.0, grown) (Chains-skipped m.model_id v.live p v.history (ap is_applied (is.3)) chain)
LiveStep-Chains m v v' r (moves p is answer live grown) chain = rw grown (
    Chains-moved m.model_id v'.live p v.history (is.0) (ap is_applied (is.3))
      (live ∙ ap some (sym (is.2))) (subst (λ x. Chains m.model_id x v.history) (sym (is.1)) chain))

module _ {W : Type 0} (S : Systems W) (L : Laws S) (d : Deployer) (pos : 0 < d.poll_s) where
  as_artifact_error_same : (r : Try (Unit {0}) × W) → (as_artifact_error S d r).1 ≡ r.1
  as_artifact_error_same (gives u, w) = refl
  as_artifact_error_same (throws e, w) = refl

  pub check_loads-points :
      (framework : Option ℕ) (a : Artifact) (n b : ℕ) (w : W)
      → L.points (check_loads S d framework a w).1 n b ≡ L.points w n b
  check_loads-points none a n b w = refl
  check_loads-points (some f) a n b w =
      ap (λ x. L.points x n b) (as_artifact_error_same (S.load a f w)) ∙ L.load_kept a f n b w

  -- The move that a rollback makes, once its artifact `a` was loaded, is torn.
  abbrev pub TornBack : MoveArgs → ModelMeta → (back_text v : ℕ) → State W → Type 0
  TornBack m meta back_text v s =
      (a : Artifact) × Torn S L d pos (rollback_move S d m v back_text) meta (record s {
        world =
            (check_loads S d meta.framework a
              (verify_version_artifact S meta.registered_name v m.max_bytes
                (S.get_version meta.registered_name v s.world).1).1).1;
      })

  -- A rollback is refused and changes nothing, or is the move of LIVE to its target, or that move is
  -- torn.
  abbrev pub RollsBack :
      MoveArgs → ModelMeta → Option ℕ → ℕ → State W → Try PromotionResult × State W → Type 0
  RollsBack m meta target back_text s r =
      ((v : ℕ) × (rollback_target S d m target s.session ≡ gives v)
        × (LiveStep (rollback_move S d m v back_text) (view S L meta.registered_name m.live_alias s)
              (view S L meta.registered_name m.live_alias r.1) r.0
            ⊎ (TornBack m meta back_text v s
                × ((e : Exn) × (r.0 ≡ throws e))
                × (r.1.session.committed.promotions ≡ s.session.committed.promotions))))
      ⊎ ((e : Exn) × (r.0 ≡ throws e)
          × (view S L meta.registered_name m.live_alias r.1
              ≡ view S L meta.registered_name m.live_alias s))

  pub rollback_model-RollsBack :
      (m : MoveArgs) (meta : ModelMeta) (target : Option ℕ) (live_text back_text : ℕ) (s : State W)
      → model_meta m.model_id s.session ≡ gives meta
      → s.session.added.promotions ≡ []
      → RollsBack m meta target back_text s (rollback_model S d m target live_text back_text s)
        × ((rollback_model S d m target live_text back_text s).1.session.models ≡ s.session.models)
  unfolding rollback_model
  rollback_model-RollsBack m meta target live_text back_text s onboarded clean =
      let n = meta.registered_name in
      let b = m.live_alias in
      let Q = λ (r : Try PromotionResult × State W).
        RollsBack m meta target back_text s r × (r.1.session.models ≡ s.session.models) in
      let none_moved : (e : Exn) (w : W)
          → L.points w n b ≡ L.points s.world n b
          → Q (throws e, record s { world = w }) =
        λ e w kept. (inr (e, refl, view_same _ _ kept refl), refl) in
      rw onboarded (
        and_then_rule Q (rollback_target S d m target s.session, s) _
          (λ v targeted.
            let w1 = (S.get_version n v s.world).1 in
            let kept1 = L.version_kept n v n b s.world in
            let w2 = (verify_version_artifact S n v m.max_bytes w1).1 in
            let kept2 = verify_version_artifact-points S L n v m.max_bytes n b w1 ∙ kept1 in
            and_then_rule Q (outside (S.get_version n v) s) _
              (λ _ _.
                and_then_rule Q
                  (outside (verify_version_artifact S n v m.max_bytes) (record s { world = w1 })) _
                  (λ checked _.
                    let w3 = (check_loads S d meta.framework (checked.0) w2).1 in
                    let kept3 = check_loads-points meta.framework (checked.0) n b w2 ∙ kept2 in
                    and_then_rule Q
                      (outside (check_loads S d meta.framework (checked.0))
                        (record s { world = w2 }))
                      _
                      (λ _ _.
                        let move = rollback_move S d m v back_text in
                        let s4 : State W = record s { world = w3 } in
                        let step =
                          promote_version-Refines S L d pos move meta live_text s4 onboarded
                            clean in
                        let r = promote_version S d move live_text s4 in
                        (
                          inl (
                            v,
                            targeted,
                            elim (step.0) [
                              | inl moved ↦ inl (
                                  subst (λ x. LiveStep move x (view S L n b r.1) r.0)
                                    (view_same (view S L n b s) (view S L n b s4) kept3 refl) moved)
                              | inr (torn, raised, same) ↦ inr ((checked.0, torn), raised, same)
                            ],
                          ),
                          step.1,
                        ))
                      (λ e _. none_moved e w3 kept3))
                  (λ e _. none_moved e w2 kept2))
              (λ e _. none_moved e w1 kept1))
          (λ e _. none_moved e s.world refl))
