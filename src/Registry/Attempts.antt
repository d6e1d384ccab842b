-- ===== src/Registry/Attempts.antt =====
-- About the `try` body of `promote_version` of registry/promotion.py, as a whole.
use mathlib.Core.Path.{subst}
use agentic_ai_model_adaptat.Prelude.{
  ℕ, ◌<◌, ◌≡◌, refl, ◌∙◌, ◌⊎◌, inl, inr, true, Option, none, some, ap, ◌==◌, ==→eq, Bool-cases,
}
use agentic_ai_model_adaptat.Registry.Port.{
  Exn, is_adaptation, is_not_found, promotion_error, Try, gives, throws, DeploymentTarget,
  DeploymentState, Systems, Laws,
}
use agentic_ai_model_adaptat.Registry.Deployer.{Deployer, serving, rollout}
use agentic_ai_model_adaptat.Registry.Session.{State, outside}
use agentic_ai_model_adaptat.Registry.Promote.{
  MoveArgs, Progress, no_progress, absent_as_none, as_target, serving_target, roll_out, try_move,
}
use agentic_ai_model_adaptat.Registry.Rules.{and_then_rule, then_do_rule}
use agentic_ai_model_adaptat.Registry.Rollouts.{rollout-ReadsBack, rollout-KeepsAlias}
use agentic_ai_model_adaptat.Registry.Tries.{
  SameRows, IsUnmoved, SetRaised, IsLive, Tries, raised-Tries, settle_move-Tries,
}

-- A reading call leaves what aliases point at.
pub absent_as_none_same :
    {W T : Type 0} (S : Systems W) (r : Try T × W) → (absent_as_none S r).1 ≡ r.1
absent_as_none_same S (gives t, w) = refl
absent_as_none_same S (throws e, w) = elim (Bool-cases (is_not_found e)) [
  | inl absent ↦ rw (absent, absent_as_none) refl
  | inr other ↦ rw (other, absent_as_none) refl
]

module _ {W : Type 0} (S : Systems W) (L : Laws S) where
  serving-points : (name m b : ℕ) (w : W) → L.points (serving S name w).1 m b ≡ L.points w m b
  serving-points name m b w =
      and_then_rule (λ r. L.points r.1 m b ≡ L.points w m b) (S.status name w) _
        (λ _ _. L.status_kept name m b w) (λ _ _. L.status_kept name m b w)

  as_target-points :
      (name : ℕ) (served : Option ℕ) (m b : ℕ) (w : W)
      → L.points (as_target S name served w).1 m b ≡ L.points w m b
  as_target-points name none m b w = refl
  as_target-points name (some v) m b w =
      let found =
        ap (λ x. L.points x m b) (absent_as_none_same S (S.get_version name v w))
        ∙ L.version_kept name v m b w in
      and_then_rule (λ r. L.points r.1 m b ≡ L.points w m b)
        (absent_as_none S (S.get_version name v w)) _ (λ _ _. found) (λ _ _. found)

  pub serving_target-points :
      (name m b : ℕ) (w : W) → L.points (serving_target S name w).1 m b ≡ L.points w m b
  unfolding serving_target
  serving_target-points name m b w =
      let kept = serving-points name m b w in
      and_then_rule (λ r. L.points r.1 m b ≡ L.points w m b) (serving S name w) _
        (λ served _. as_target-points name served m b (serving S name w).1 ∙ kept) (λ _ _. kept)

module _ {W : Type 0} (S : Systems W) (L : Laws S) (d : Deployer) (pos : 0 < d.poll_s)
    (m : MoveArgs) (name : ℕ) (previous : Option ℕ) (digest : ℕ) (source dir : Option ℕ) where
  abbrev pub target_of : DeploymentTarget
  target_of = record { model = name; version = m.version; source = source; artifact_dir = dir }

  -- What a rollout that returns leaves: the version is live and serves.
  rollout-IsLive :
      (before : Option DeploymentTarget) (w : W) (s : DeploymentState)
      → L.points w name m.live_alias ≡ some m.version
      → (rollout S d target_of before w).0 ≡ gives s
      → IsLive S L m name previous digest (rollout S d target_of before w).1
  rollout-IsLive before w s there given = (
    rollout-KeepsAlias S L d pos target_of before m.live_alias w there s given,
    (rollout-ReadsBack S L d pos target_of before w s given).1,
  )

  roll_out-Tries :
      (p : Progress) (s0 s : State W)
      → s.session ≡ s0.session
      → p.alias_moved ≡ true
      → L.points s.world name m.live_alias ≡ some m.version
      → Tries S L m name previous digest s0 (roll_out S d m name previous digest target_of p s)
  unfolding roll_out
  roll_out-Tries p s0 s same moved there =
      let call = rollout S d target_of p.serving_before in
      let started = record p { rollout_started = true } in
      let rows : SameRows s.session s0.session =
        (ap (λ x. x.committed) same, ap (λ x. x.models) same) in
      then_do_rule (Tries S L m name previous digest s0) (outside call s) started _
        (λ t given.
          settle_move-Tries S L m name previous digest
            (record p { rollout_started = true; deployed = true }) s0 (outside call s).1 same moved
            (rollout-IsLive p.serving_before s.world t there given))
        (λ e _. raised-Tries S L m name previous digest e started s0 (outside call s).1 rows moved)

  -- A statement that raises while the alias is as it was.
  unmoved-Tries :
      (e : Exn) (p : Progress) (s0 s : State W)
      → IsUnmoved p
      → s.session ≡ s0.session
      → (L.points s.world name m.live_alias ≡ L.points s0.world name m.live_alias)
        ⊎ SetRaised S L m name previous digest s0 e
      → Tries S L m name previous digest s0 (throws e, (p, s))
  unmoved-Tries e p s0 s unmoved same kept = (
    λ h. cc,
    λ e' raised.
        let own : e ≡ e' = cc in
        (
          (ap (λ x. x.committed) same, ap (λ x. x.models) same),
          inr (
            unmoved,
            subst
                (λ x.
                  (L.points s.world name m.live_alias ≡ L.points s0.world name m.live_alias)
                  ⊎ SetRaised S L m name previous digest s0 x)
                own kept,
          ),
        ),
  )

  pub try_move-Tries :
      (s : State W)
      → Tries S L m name previous digest s (try_move S d m name previous digest target_of s)
  unfolding try_move
  try_move-Tries s =
      let T = Tries S L m name previous digest s in
      let s1 = (outside S.flush s).1 in
      let kept1 = L.flush_kept name m.live_alias s.world in
      let s2 = (outside (serving_target S name) s1).1 in
      let kept2 = serving_target-points S L name name m.live_alias s1.world ∙ kept1 in
      let setting = outside (S.set_alias name m.live_alias m.version) s2 in
      let reading = outside (S.get_version_by_alias name m.live_alias) (setting.1) in
      then_do_rule T (outside S.flush s) no_progress _
        (λ _ _.
          then_do_rule T (outside (serving_target S name) s1) no_progress _
            (λ before _.
              let p = record no_progress { serving_before = before } in
              let q = record p { alias_moved = true } in
              then_do_rule T setting p _
                (λ _ _.
                  then_do_rule T reading q _
                    (λ v read. elim (Bool-cases (v == m.version)) [
                      | inl same ↦ rw same (
                          roll_out-Tries q s (reading.1) refl refl (
                            L.alias_kept name m.live_alias name m.live_alias (setting.1).world
                            ∙ L.alias_read name m.live_alias v (setting.1).world read
                            ∙ ap some (==→eq v m.version same)))
                      | inr other ↦ rw other (
                          raised-Tries S L m name previous digest promotion_error q s (reading.1)
                            (refl, refl) refl)
                    ])
                    (λ e _.
                      raised-Tries S L m name previous digest e q s (reading.1) (refl, refl) refl))
                (λ e unset.
                  unmoved-Tries e p s (setting.1) (refl, refl, refl) refl
                    (elim (Bool-cases (is_adaptation e)) [
                      | inl known ↦
                          inl (
                            L.alias_unset name m.live_alias m.version e s2.world unset known
                            ∙ kept2)
                      | inr crashed ↦ inr (crashed, unset)
                    ])))
            (λ e _. unmoved-Tries e no_progress s s2 (refl, refl, refl) refl (inl kept2)))
        (λ e _. unmoved-Tries e no_progress s s1 (refl, refl, refl) refl (inl kept1))
