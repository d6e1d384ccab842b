-- ===== src/Registry/Undo.antt =====
-- About the handler of a failed move of registry/promotion.py.
use agentic_ai_model_adaptat.Prelude.{
  ℕ, ◌<◌, ◌≡◌, refl, ◌∙◌, ap, ◌⊎◌, inl, inr, Bool, true, false, not, ◌&&◌, ◌||◌, Option, none, some,
  [], ◌++◌,
}
use agentic_ai_model_adaptat.Registry.Port.{
  Exn, promotion_error, is_deployment, Try, gives, throws, DeploymentTarget, Systems, Laws,
  RestoreAdapts,
}
use agentic_ai_model_adaptat.Registry.Deployer.{Deployer}
use agentic_ai_model_adaptat.Registry.Session.{State, PromotionResult, outside}
use agentic_ai_model_adaptat.Registry.Promote.{MoveArgs, Progress, logged, put_back, restore_alias}
use agentic_ai_model_adaptat.Registry.Moves.{
  dropped, revert_if, restore_if, or_rolled_back, audit_failed_move, failed_move,
}
use agentic_ai_model_adaptat.Registry.Rules.{and_then_rule, Try-cases}
use agentic_ai_model_adaptat.Registry.Rollouts.{revert-Reverts}
use agentic_ai_model_adaptat.Registry.Tries.{SameRows, IsUnmoved, commit_session_rule}

module _ {W : Type 0} (S : Systems W) (L : Laws S) (d : Deployer) (pos : 0 < d.poll_s)
    (m : MoveArgs) (name : ℕ) (previous : Option ℕ) (digest : ℕ) where
  -- Neither the recorded moves nor the models are other than in `s0`.
  abbrev pub SameHistory : State W → State W → Type 0
  SameHistory s0 s =
      (s.session.committed.promotions ≡ s0.session.committed.promotions)
      × (s.session.models ≡ s0.session.models)

  -- Putting the alias back raises in the world `w`.
  abbrev pub CannotPutBack : W → Type 0
  CannotPutBack w = (e : Exn) × ((put_back S name m.live_alias previous w).0 ≡ throws e)

  put_back-points :
      (v : Option ℕ) (w : W)
      → (put_back S name m.live_alias v w).0 ≡ gives tt
      → L.points (put_back S name m.live_alias v w).1 name m.live_alias ≡ v
  put_back-points none w given = L.alias_deleted name m.live_alias w given
  put_back-points (some v) w given = L.alias_set name m.live_alias v w given

  logged-same : (r : Try (Unit {0}) × W) → r.0 ≡ gives tt → logged S r ≡ r
  logged-same (gives u, w) given = refl
  logged-same (throws e, w) given = cc

  restore_alias-points :
      (w : W)
      → (L.points (restore_alias S name m.live_alias previous w).1 name m.live_alias ≡ previous)
        ⊎ CannotPutBack w
  unfolding restore_alias
  restore_alias-points w = elim (Try-cases ((put_back S name m.live_alias previous w).0)) [
    | inl (u, given) ↦
        let same = logged-same (put_back S name m.live_alias previous w) given in
        inl (ap (λ r. L.points r.1 name m.live_alias) same ∙ put_back-points previous w given)
    | inr (e, raised) ↦ inr (e, raised)
  ]

  audit_failed_move-SameHistory :
      (s0 s : State W)
      → SameRows s.session s0.session
      → s.session.added.promotions ≡ []
      → SameHistory s0 (audit_failed_move S d m previous digest s)
        × (L.points (audit_failed_move S d m previous digest s).world name m.live_alias
            ≡ L.points s.world name m.live_alias)
  unfolding audit_failed_move
  audit_failed_move-SameHistory s0 s rows clean =
      let before = ap (λ x. x.promotions) (rows.0) in
      commit_session_rule S
        (λ a.
          SameHistory s0 (or_rolled_back S d a)
          × (L.points (or_rolled_back S d a).world name m.live_alias
              ≡ L.points s.world name m.live_alias))
        _
        (
          (ap (λ x. x ++ s.session.committed.promotions) clean ∙ before, rows.1),
          L.commit_kept name m.live_alias s.world,
        )
        (λ e. ((before, rows.1), L.commit_kept name m.live_alias s.world))

  pub revert_if-gives :
      (restores : RestoreAdapts S) (needed : Bool) (before : Option DeploymentTarget) (w : W)
      → (b : Bool) × ((revert_if S d needed name before w).0 ≡ gives b)
  revert_if-gives restores true before w =
      let r = revert-Reverts S L d pos restores name before w in (r.0, r.1)
  revert_if-gives restores false before w = (false, refl)

  -- The world in which the handler puts the alias back.
  abbrev pub reverted_world : Exn → Progress → W → W
  reverted_world e p w =
      (revert_if S d (p.deployed || (p.rollout_started && not (is_deployment e))) name
        p.serving_before w).1

  -- The revert that the handler makes raises.
  abbrev pub RevertRaised : Exn → Progress → W → Type 0
  RevertRaised e p w =
      (e' : Exn) × ((revert_if S d (p.deployed || (p.rollout_started && not (is_deployment e))) name
          p.serving_before w).0
        ≡ throws e')

  -- `X` stands for another reason why the alias is not as it was.
  restore_if-points :
      (X : Type 0) (moved : Bool) (w : W)
      → (moved ≡ true) ⊎ ((L.points w name m.live_alias ≡ previous) ⊎ X)
      → (L.points (restore_if S d moved name m.live_alias previous w).1 name m.live_alias
          ≡ previous)
        ⊎ (((moved ≡ true) × CannotPutBack w) ⊎ X)
  restore_if-points X true w there = elim (restore_alias-points w) [
    | inl back ↦ inl back
    | inr stuck ↦ inr (inl (refl, stuck))
  ]
  restore_if-points X false w (inl moved) = cc
  restore_if-points X false w (inr (inl there)) = inl there
  restore_if-points X false w (inr (inr x)) = inr (inr x)

  -- What the alias points at when the handler comes to it.
  revert_if-points :
      (X : Type 0) (e : Exn) (p : Progress) (w : W)
      → ((p.alias_moved ≡ true) ⊎ (IsUnmoved p × ((L.points w name m.live_alias ≡ previous) ⊎ X)))
      → (p.alias_moved ≡ true)
        ⊎ ((L.points (reverted_world e p w) name m.live_alias ≡ previous) ⊎ X)
  revert_if-points X e p w (inl moved) = inl moved
  revert_if-points X e p w (inr (unmoved, inl there)) = inr (inl (rw (unmoved.2, unmoved.1) there))
  revert_if-points X e p w (inr (unmoved, inr x)) = inr (inr x)

  -- A failed move raises and records nothing. Its alias is as before, unless the revert or
  -- putting it back raised, or
  -- for the reason `X` that it was not known to be moved.
  abbrev pub Undoes :
      (X : Type 0) → Exn → Progress → State W → State W → Try PromotionResult × State W → Type 0
  Undoes X e p s0 s r =
      ((e' : Exn) × (r.0 ≡ throws e'))
      × SameHistory s0 r.1
      × ((L.points r.1.world name m.live_alias ≡ previous)
          ⊎ (((p.alias_moved ≡ true)
                × (RevertRaised e p s.world ⊎ CannotPutBack (reverted_world e p s.world)))
              ⊎ X))

  pub failed_move-Undoes :
      (X : Type 0) (e : Exn) (p : Progress) (s0 s : State W)
      → SameRows s.session s0.session
      → ((p.alias_moved ≡ true)
          ⊎ (IsUnmoved p × ((L.points s.world name m.live_alias ≡ previous) ⊎ X)))
      → Undoes X e p s0 s (failed_move S d m name previous digest e p s)
  unfolding failed_move
  failed_move-Undoes X e p s0 s rows where_it_is =
      let needed = p.deployed || (p.rollout_started && not (is_deployment e)) in
      let reverting = outside (revert_if S d needed name p.serving_before) (dropped s) in
      let restoring =
        outside (restore_if S d p.alias_moved name m.live_alias previous) (reverting.1) in
      let there = revert_if-points X e p s.world where_it_is in
      let restores = restore_if-points X p.alias_moved (reverting.1).world there in
      let kept : SameHistory s0 (reverting.1) = (ap (λ x. x.promotions) (rows.0), rows.1) in
      and_then_rule (Undoes X e p s0 s) reverting _
        (λ _ _.
          and_then_rule (Undoes X e p s0 s) restoring _
            (λ _ _.
              let audited = audit_failed_move-SameHistory s0 (restoring.1) rows refl in
              (
                (promotion_error, refl),
                audited.0,
                elim restores [
                  | inl back ↦ inl (audited.1 ∙ back)
                  | inr (inl (moved, stuck)) ↦ inr (inl (moved, inr stuck))
                  | inr (inr x) ↦ inr (inr x)
                ],
              ))
            (λ e' raised. (
              (e', refl),
              (ap (λ x. x.promotions) (rows.0), rows.1),
              elim restores [
                | inl back ↦ inl back
                | inr (inl (moved, stuck)) ↦ inr (inl (moved, inr stuck))
                | inr (inr x) ↦ inr (inr x)
              ],
            )))
        (λ e' raised. (
          (e', refl),
          kept,
          elim there [
            | inl moved ↦ inr (inl (moved, inl (e', raised)))
            | inr (inl back) ↦ inl back
            | inr (inr x) ↦ inr (inr x)
          ],
        ))
