-- ===== src/Registry/Runs.antt =====
-- About registry/promotion.py: sequences of moves and rollbacks of one model.
use mathlib.Core.Path.{subst}
use agentic_ai_model_adaptat.Prelude.{ℕ, ◌<◌, ◌≡◌, refl, sym, ◌∙◌, inl, inr, Option}
use agentic_ai_model_adaptat.Registry.Port.{gives, Systems, Laws}
use agentic_ai_model_adaptat.Registry.Deployer.{Deployer}
use agentic_ai_model_adaptat.Registry.Session.{ModelMeta, Session, State, model_meta}
use agentic_ai_model_adaptat.Registry.Promote.{MoveArgs}
use agentic_ai_model_adaptat.Registry.Moves.{
  dropped, promote_version, rollback_move, rollback_model,
}
use agentic_ai_model_adaptat.Registry.Atomic.{Torn, promote_version-Refines}
use agentic_ai_model_adaptat.Registry.History.{
  Chains, LiveStep-Chains, TornBack, rollback_model-RollsBack,
}

pub model_meta_same :
    (i : ℕ) (s t : Session) → t.models ≡ s.models → model_meta i t ≡ model_meta i s
model_meta_same i s t same = rw same refl

module _ {W : Type 0} (S : Systems W) (L : Laws S) (d : Deployer) (pos : 0 < d.poll_s) (i : ℕ)
    (meta : ModelMeta) (alias : ℕ) where
  -- The arguments `m`, for the model and its live alias.
  abbrev pub for_model : MoveArgs → MoveArgs
  for_model m = record m { model_id = i; live_alias = alias }

  -- Calls one after another, each in a session of its own, whatever they answer; none is torn.
  pub data Calls : State W → State W → Type 0 where
    done : (s : State W) → Calls s s
    promotes :
        (m : MoveArgs) (live_text : ℕ) (s t : State W)
        → ¬ Torn S L d pos (for_model m) meta (dropped s)
        → Calls (promote_version S d (for_model m) live_text (dropped s)).1 t
        → Calls s t
    rolls_back :
        (m : MoveArgs) (target : Option ℕ) (live_text back_text : ℕ) (s t : State W)
        → ((v : ℕ) → ¬ TornBack S L d pos (for_model m) meta back_text v (dropped s))
        → Calls (rollback_model S d (for_model m) target live_text back_text (dropped s)).1 t
        → Calls s t

  abbrev pub ChainsAt : State W → Type 0
  ChainsAt s = Chains i (L.points s.world meta.registered_name alias) s.session.committed.promotions

  promote_version-ChainsAt :
      (m : MoveArgs) (live_text : ℕ) (s : State W)
      → model_meta i s.session ≡ gives meta
      → ¬ Torn S L d pos (for_model m) meta (dropped s)
      → ChainsAt s
      → ChainsAt (promote_version S d (for_model m) live_text (dropped s)).1
  promote_version-ChainsAt m live_text s onboarded whole chain =
      elim (promote_version-Refines S L d pos (for_model m) meta live_text (dropped s) onboarded
        refl).0 [
          | inl step ↦ LiveStep-Chains (for_model m) _ _ _ step chain
          | inr (torn, raised, same) ↦ absurd (whole torn)
        ]

  rollback_model-ChainsAt :
      (m : MoveArgs) (target : Option ℕ) (live_text back_text : ℕ) (s : State W)
      → model_meta i s.session ≡ gives meta
      → ((v : ℕ) → ¬ TornBack S L d pos (for_model m) meta back_text v (dropped s))
      → ChainsAt s
      → ChainsAt (rollback_model S d (for_model m) target live_text back_text (dropped s)).1
  rollback_model-ChainsAt m target live_text back_text s onboarded whole chain =
      elim (rollback_model-RollsBack S L d pos (for_model m) meta target live_text back_text
        (dropped s) onboarded refl).0 [
          | inl (v, targeted, inr (torn, raised, same)) ↦ absurd (whole v torn)
          | inl (v, targeted, inl step) ↦
              LiveStep-Chains (rollback_move S d (for_model m) v back_text) _ _ _ step chain
          | inr (e, raised, same) ↦ subst (λ x. Chains i x.live x.history) (sym same) chain
        ]

  -- In any sequence of moves and rollbacks of a model's live alias, whatever fails in them, the
  -- recorded moves explain LIVE when they did at the start: going back from what LIVE points at, each
  -- applied row led from the version that it names as before to what was live then. None of the calls
  -- is torn: in no run of theirs did the try fail and the revert raise, or putting LIVE back raise, or
  -- setting it raise what is no AdaptationError.
  pub Calls-ChainsAt :
      (s t : State W) → model_meta i s.session ≡ gives meta → ChainsAt s → Calls s t → ChainsAt t
  Calls-ChainsAt s t onboarded chain (done u) = chain
  Calls-ChainsAt s t onboarded chain (promotes m live_text u v whole rest) =
      Calls-ChainsAt _ v
        (model_meta_same i u.session
            (promote_version S d (for_model m) live_text (dropped u)).1.session
            (promote_version-Refines S L d pos (for_model m) meta live_text (dropped u) onboarded
              refl).1
          ∙ onboarded)
        (promote_version-ChainsAt m live_text u onboarded whole chain) rest
  Calls-ChainsAt s t onboarded chain (rolls_back m target live_text back_text u v whole rest) =
      Calls-ChainsAt _ v
        (model_meta_same i u.session
            (rollback_model S d (for_model m) target live_text back_text (dropped u)).1.session
            (rollback_model-RollsBack S L d pos (for_model m) meta target live_text back_text
              (dropped u) onboarded refl).1
          ∙ onboarded)
        (rollback_model-ChainsAt m target live_text back_text u onboarded whole chain) rest
