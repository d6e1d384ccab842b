-- ===== src/Registry/Rollouts.antt =====
-- About `revert` and `rollout` of registry/deployment.py.
use agentic_ai_model_adaptat.Prelude.{
  ℕ, ◌<◌, ◌≡◌, refl, sym, ◌∙◌, ◌⊎◌, inl, inr, Bool, true, false, Option, some, Bool-cases,
}
use agentic_ai_model_adaptat.Registry.Port.{
  Exn, deployment_error, is_adaptation, Try, gives, throws, and_then, DeploymentTarget,
  DeploymentState, Systems, Laws, RestoreAdapts,
}
use agentic_ai_model_adaptat.Registry.Deployer.{
  version_of, Deployer, poll, reverted, revert, deploy_and_wait, undo_rollout, rollout,
}
use agentic_ai_model_adaptat.Registry.Rules.{and_then_rule, is_adaptation_same}
use agentic_ai_model_adaptat.Registry.Polling.{
  SettledAt, ReadsBack, RaisesAdaptation, poll-ReadsBack, poll-points, poll-ends,
}

module _ {W : Type 0} (S : Systems W) (L : Laws S) (d : Deployer) (pos : 0 < d.poll_s) where
  -- What `revert` answers where a restore raises AdaptationErrors only: it never raises, and when it answers true the previous version was read
  -- back as serving.
  abbrev pub Reverts : (model : ℕ) → Option DeploymentTarget → Try Bool × W → Type 0
  Reverts model previous r =
      (b : Bool) × (r.0 ≡ gives b) × (b ≡ true → L.serves r.1 model ≡ version_of previous)

  reverted-Reverts :
      (model : ℕ) (previous : Option DeploymentTarget) (r : Try DeploymentState × W)
      → ReadsBack S L d model (version_of previous) false r
      → RaisesAdaptation S L d model (version_of previous) false r
      → Reverts model previous (reverted S d r)
  reverted-Reverts model previous (gives s, w) back ends = (true, refl, λ _. (back s refl).1)
  reverted-Reverts model previous (throws e, w) back ends =
      rw (ends e refl, reverted) (false, refl, λ h. cc)

  pub revert-Reverts :
      (restores : RestoreAdapts S) (model : ℕ) (previous : Option DeploymentTarget) (w : W)
      → Reverts model previous (revert S d model previous w)
  unfolding revert
  revert-Reverts restores model previous w =
      let v = version_of previous in
      let r = and_then (S.restore model previous w) λ _ w'. poll S d model v false w' in
      reverted-Reverts model previous r
        (and_then_rule (ReadsBack S L d model v false) (S.restore model previous w) _
          (λ _ _. poll-ReadsBack S L d model v false (S.restore model previous w).1)
          (λ e h s h'. cc))
        (and_then_rule (RaisesAdaptation S L d model v false) (S.restore model previous w) _
          (λ _ _. poll-ends S L d model v false (S.restore model previous w).1 pos)
          (λ e h e' h'. is_adaptation_same e e' h' (restores model previous e w h)))

  -- What `rollout` answers: the state at which the version was read back as serving, or a
  -- DeploymentError after the revert, or what the call of the serving system crashed with.
  abbrev pub RollsOut :
      DeploymentTarget → Option DeploymentTarget → W → Try DeploymentState × W → Type 0
  RollsOut target previous w r =
      ((s : DeploymentState) × (r.0 ≡ gives s)
        × SettledAt s (some target.version)
        × (L.serves r.1 target.model ≡ some target.version))
      ⊎ (((r.0 ≡ throws deployment_error)
            × ((b : Bool) × (w' : W) × (revert S d target.model previous w' ≡ (gives b, r.1))
                × (b ≡ true → L.serves r.1 target.model ≡ version_of previous)))
          ⊎ ((e : Exn) × (r.0 ≡ throws e)
              × (is_adaptation e ≡ false)
              × ((S.deploy target w).0 ≡ throws e)))

  -- An exception that is no AdaptationError is the deployment's own.
  abbrev OfDeploy : DeploymentTarget → W → Try DeploymentState × W → Type 0
  OfDeploy target w r =
      (e : Exn) → r.0 ≡ throws e → is_adaptation e ≡ false → (S.deploy target w).0 ≡ throws e

  raise-RollsOut :
      (target : DeploymentTarget) (previous : Option DeploymentTarget) (w0 w : W) (r : Try Bool × W)
      → revert S d target.model previous w ≡ r
      → Reverts target.model previous r
      → RollsOut target previous w0 (and_then r λ _ w'. (throws deployment_error, w'))
  raise-RollsOut target previous w0 w (gives b, w') same (b', given, held) =
      inr (inl (refl, (b, w, same, λ h. held (let equal : b ≡ b' = cc in sym equal ∙ h))))
  raise-RollsOut target previous w0 w (throws e, w') same (b', given, held) = cc

  undo_rollout-RollsOut :
      (restores : RestoreAdapts S) (target : DeploymentTarget) (previous : Option DeploymentTarget)
      (w0 : W) (r : Try DeploymentState × W)
      → ReadsBack S L d target.model (some target.version) true r
      → OfDeploy target w0 r
      → RollsOut target previous w0 (undo_rollout S d target previous r)
  undo_rollout-RollsOut restores target previous w0 (gives s, w) back of_deploy =
      inl (s, refl, (back s refl).0, (back s refl).1)
  undo_rollout-RollsOut restores target previous w0 (throws e, w) back of_deploy =
      elim (Bool-cases (is_adaptation e)) [
        | inl adapts ↦
            rw (adapts, undo_rollout)
              (raise-RollsOut target previous w0 w _ refl
                (revert-Reverts restores target.model previous w))
        | inr odd ↦ rw (odd, undo_rollout) (inr (inr (e, refl, odd, of_deploy e refl odd)))
      ]

  -- A rollout returns the state at which the version was read back as serving; or it raises a
  -- DeploymentError after the attempt to put the previous version back, which then serves if the
  -- attempt held; or it raises what the call to deploy raised, if that is no AdaptationError. The
  -- poll interval is at least a tick, and a restore raises AdaptationErrors only.
  pub rollout-RollsOut :
      (restores : RestoreAdapts S) (target : DeploymentTarget) (previous : Option DeploymentTarget)
      (w : W)
      → RollsOut target previous w (rollout S d target previous w)
  unfolding rollout deploy_and_wait
  rollout-RollsOut restores target previous w =
      undo_rollout-RollsOut restores target previous w (deploy_and_wait S d target w)
        (and_then_rule (ReadsBack S L d target.model (some target.version) true) (S.deploy target w)
          _
          (λ _ _.
            poll-ReadsBack S L d target.model (some target.version) true (S.deploy target w).1)
          (λ e h s h'. cc))
        (and_then_rule (OfDeploy target w) (S.deploy target w) _
          (λ _ _ e h odd.
            let adapts =
              poll-ends S L d target.model (some target.version) true (S.deploy target w).1 pos e
                h in
            cc)
          (λ e h e' h' _. let same : e ≡ e' = cc in rw (sym same) h))

  -- An alias that points at the version before its rollout does so when the rollout returns.
  abbrev pub KeepsAlias : DeploymentTarget → ℕ → Try DeploymentState × W → Type 0
  KeepsAlias target b r =
      (s : DeploymentState) → r.0 ≡ gives s → L.points r.1 target.model b ≡ some target.version

  undo_rollout-KeepsAlias :
      (target : DeploymentTarget) (previous : Option DeploymentTarget) (b : ℕ)
      (r : Try DeploymentState × W)
      → KeepsAlias target b r
      → KeepsAlias target b (undo_rollout S d target previous r)
  undo_rollout-KeepsAlias target previous b (gives s, w) kept = kept
  undo_rollout-KeepsAlias target previous b (throws e, w) kept =
      elim (Bool-cases (is_adaptation e)) [
        | inl adapts ↦
            rw (adapts, undo_rollout)
              (and_then_rule (KeepsAlias target b) (revert S d target.model previous w) _
                (λ _ _ s h. cc) (λ _ _ s h. cc))
        | inr odd ↦ rw (odd, undo_rollout) (λ s h. cc)
      ]

  pub rollout-KeepsAlias :
      (target : DeploymentTarget) (previous : Option DeploymentTarget) (b : ℕ) (w : W)
      → L.points w target.model b ≡ some target.version
      → KeepsAlias target b (rollout S d target previous w)
  unfolding rollout deploy_and_wait
  rollout-KeepsAlias target previous b w there =
      undo_rollout-KeepsAlias target previous b (deploy_and_wait S d target w) (
        and_then_rule (KeepsAlias target b) (S.deploy target w) _
          (λ t given s _.
            poll-points S L d target.model (some target.version) true target.model b
              (S.deploy target w).1
            ∙ elim (L.deploy_kept target b w given) [ inl same ↦ same ∙ there | inr moved ↦ moved ])
          (λ _ _ s h. cc))

  undo_rollout-ReadsBack :
      (target : DeploymentTarget) (previous : Option DeploymentTarget) (r : Try DeploymentState × W)
      → ReadsBack S L d target.model (some target.version) true r
      → ReadsBack S L d target.model (some target.version) true (undo_rollout S d target previous r)
  undo_rollout-ReadsBack target previous (gives s, w) back = back
  undo_rollout-ReadsBack target previous (throws e, w) back = elim (Bool-cases (is_adaptation e)) [
    | inl adapts ↦
        rw (adapts, undo_rollout)
          (and_then_rule (ReadsBack S L d target.model (some target.version) true)
            (revert S d target.model previous w) _ (λ _ _ s h. cc) (λ _ _ s h. cc))
    | inr odd ↦ rw (odd, undo_rollout) (λ s h. cc)
  ]

  -- A rollout that returns has read the version back as serving.
  pub rollout-ReadsBack :
      (target : DeploymentTarget) (previous : Option DeploymentTarget) (w : W)
      → ReadsBack S L d target.model (some target.version) true (rollout S d target previous w)
  unfolding rollout deploy_and_wait
  rollout-ReadsBack target previous w =
      undo_rollout-ReadsBack target previous (deploy_and_wait S d target w) (
        and_then_rule (ReadsBack S L d target.model (some target.version) true) (S.deploy target w)
          _
          (λ _ _.
            poll-ReadsBack S L d target.model (some target.version) true (S.deploy target w).1)
          (λ e h s h'. cc))
