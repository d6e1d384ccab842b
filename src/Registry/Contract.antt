-- ===== src/Registry/Contract.antt =====
-- About `promote_version` of registry/promotion.py: the contract of a move, on what the live alias
-- points at and the recorded moves alone.
use agentic_ai_model_adaptat.Prelude.{
  ℕ, ◌<◌, ◌≡◌, refl, sym, ◌∙◌, ap, ◌⊎◌, true, inl, inr, Option, some, List, [], ◌∷◌, ◌++◌,
}
use agentic_ai_model_adaptat.Registry.Port.{Exn, Try, gives, throws, and_then, Systems, Laws}
use agentic_ai_model_adaptat.Registry.Deployer.{Deployer}
use agentic_ai_model_adaptat.Registry.Session.{
  PromotionStatus, applied, no_change, ModelPromotion, State, add_row, earlier, PromotionResult,
  promotion_result,
}
use agentic_ai_model_adaptat.Registry.Promote.{MoveArgs, Progress}
use agentic_ai_model_adaptat.Registry.Moves.{unchanged_row, handled, keep_live}
use agentic_ai_model_adaptat.Registry.Tries.{SetRaised, Tries, commit_session_rule}
use agentic_ai_model_adaptat.Registry.Undo.{
  CannotPutBack, RevertRaised, reverted_world, failed_move-Undoes,
}

-- What clients of a move see: what is live, and the recorded moves, newest first.
pub record LiveView : Type 0 where
  pub live : Option ℕ
  pub history : List ModelPromotion

-- The row of a move: its model, what was live before, and what was asked for.
abbrev pub Records : MoveArgs → Option ℕ → ModelPromotion → PromotionStatus → Type 0
Records m live p st =
    (p.model_id ≡ m.model_id)
    × (p.from_version ≡ live)
    × (p.to_version ≡ m.version)
    × (p.status ≡ st)

-- A move in one step: it answers what an earlier row of its key says, is refused, records that the
-- version is live already, or makes the version live and records what was live before.
pub data LiveStep (m : MoveArgs) (v v' : LiveView) (r : Try PromotionResult) : Type 0 where
  repeats :
      (p : ModelPromotion)
      → earlier m.idempotency_key v.history ≡ some p
      → r ≡ gives (promotion_result p)
      → v' ≡ v
      → LiveStep m v v' r
  refuses : (e : Exn) → r ≡ throws e → v' ≡ v → LiveStep m v v' r
  keeps_live :
      (p : ModelPromotion)
      → Records m v.live p no_change
      → r ≡ gives (promotion_result p)
      → (v'.live ≡ v.live) × (v'.live ≡ some m.version)
      → v'.history ≡ p ∷ v.history
      → LiveStep m v v' r
  moves :
      (p : ModelPromotion)
      → Records m v.live p applied
      → r ≡ gives (promotion_result p)
      → v'.live ≡ some m.version
      → v'.history ≡ p ∷ v.history
      → LiveStep m v v' r

module _ {W : Type 0} (S : Systems W) (L : Laws S) where
  abbrev pub view : (name alias : ℕ) → State W → LiveView
  view name alias s = record {
    live = L.points s.world name alias;
    history = s.session.committed.promotions;
  }

pub view_same : (v v' : LiveView) → v'.live ≡ v.live → v'.history ≡ v.history → v' ≡ v
view_same v v' live history = cc

module _ {W : Type 0} (S : Systems W) (L : Laws S) (d : Deployer) (pos : 0 < d.poll_s)
    (m : MoveArgs) (name : ℕ) where
  -- A try that failed and whose alias could not be put back: the revert before that raised, or putting
  -- the alias back in the world that the revert left, or setting the alias raised what is no AdaptationError.
  abbrev pub TornBy :
      (previous : Option ℕ)
      → (digest : ℕ) → State W
      → Try (Unit {0}) × (Progress × State W)
      → Type 0
  TornBy previous digest s r =
      (e : Exn) × (p : Progress) × (t : State W) × (r ≡ (throws e, (p, t)))
      × (((p.alias_moved ≡ true)
            × (RevertRaised S L d pos m name previous digest e p t.world
                ⊎ CannotPutBack S L d pos m name previous digest
                    (reverted_world S L d pos m name previous digest e p t.world)))
          ⊎ SetRaised S L m name previous digest s e)

  -- A step of the contract, or, where the move is torn as `X` says, an exception and no record.
  abbrev pub Refines : (X : Type 0) → State W → Try PromotionResult × State W → Type 0
  Refines X s r =
      (LiveStep m (view S L name m.live_alias s) (view S L name m.live_alias r.1) r.0
        ⊎ (X
            × ((e : Exn) × (r.0 ≡ throws e))
            × (r.1.session.committed.promotions ≡ s.session.committed.promotions)))
      × (r.1.session.models ≡ s.session.models)

  pub refused-Refines :
      (X : Type 0) (e : Exn) (s t : State W)
      → t.session ≡ s.session
      → L.points t.world name m.live_alias ≡ L.points s.world name m.live_alias
      → Refines X s (throws e, t)
  refused-Refines X e s t same kept = (
    inl (refuses e refl (view_same _ _ kept (ap (λ x. x.committed.promotions) same))),
    ap (λ x. x.models) same,
  )

  pub keep_live-Refines :
      (X : Type 0) (previous : Option ℕ) (live_text : ℕ) (s : State W) (w : W)
      → s.session.added.promotions ≡ []
      → L.points w name m.live_alias ≡ previous
      → L.points s.world name m.live_alias ≡ previous
      → previous ≡ some m.version
      → Refines X s (keep_live S d m previous live_text (record s { world = w }))
  unfolding keep_live
  keep_live-Refines X previous live_text s w clean there before already =
      let row = unchanged_row m previous live_text s.session in
      let after = L.commit_kept name m.live_alias w ∙ there in
      commit_session_rule S
        (λ a. Refines X s (and_then a λ _ s1. (gives (promotion_result row), s1))) _
        (
          inl (
              keeps_live row (refl, sym before, refl, refl) refl
                (after ∙ sym before, after ∙ already)
                (ap (λ x. row ∷ (x ++ s.session.committed.promotions)) clean)),
          refl,
        )
        (λ e. (inl (refuses e refl (view_same _ _ (after ∙ sym before) refl)), refl))

  pub handled-Refines :
      (X : Type 0) (previous : Option ℕ) (digest : ℕ) (row : ModelPromotion) (s : State W) (w : W)
      (r : Try (Unit {0}) × (Progress × State W))
      → Records m previous row applied
      → s.session.added.promotions ≡ []
      → L.points w name m.live_alias ≡ previous
      → L.points s.world name m.live_alias ≡ previous
      → Tries S L m name previous digest (record { session = add_row row s.session; world = w }) r
      → (TornBy previous digest (record { session = add_row row s.session; world = w }) r → X)
      → Refines X s (handled S d m name previous digest row r)
  handled-Refines X previous digest row s w (gives u, (p, t)) is clean there before tries tear =
      let done = tries.0 refl in
      (
        inl (
            moves row (is.0, is.1 ∙ sym before, is.2, is.3) refl (done.0.0)
              (ap (λ x. x.committed.promotions) (done.1)
                ∙ ap (λ x. row ∷ (x ++ s.session.committed.promotions)) clean)),
        ap (λ x. x.models) (done.1),
      )
  handled-Refines X previous digest row s w (throws e, (p, t)) is clean there before tries tear =
      let failed = tries.1 e refl in
      let s1 : State W = record { session = add_row row s.session; world = w } in
      let at =
        failed_move-Undoes S L d pos m name previous digest
          (SetRaised S L m name previous digest s1 e) e p s t (failed.0)
          (elim (failed.1) [
            | inl moved ↦ inl moved
            | inr (unmoved, inl kept) ↦ inr (unmoved, inl (kept ∙ there))
            | inr (unmoved, inr crashed) ↦ inr (unmoved, inr crashed)
          ]) in
      (
        elim (at.2) [
          | inl back ↦ inl (refuses (at.0.0) (at.0.1) (view_same _ _ (back ∙ sym before) (at.1.0)))
          | inr stuck ↦ inr (tear (e, p, t, refl, stuck), at.0, at.1.0)
        ],
        at.1.1,
      )
