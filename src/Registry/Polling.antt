-- ===== src/Registry/Polling.antt =====
-- About `Deployer` of registry/deployment.py: the polling loop, `revert` and `rollout`.
use mathlib.Core.Path.{subst}
use agentic_ai_model_adaptat.Prelude.{
  ℕ, zero, suc, ◌+◌, ◌≤◌, ◌<◌, ◌≡◌, refl, ◌∙◌, ◌⊎◌, inl, inr, Bool, true, Option, arith, leb,
  Bool-cases,
}
use agentic_ai_model_adaptat.Registry.Port.{
  Exn, deployment_error, is_adaptation, Try, gives, throws, DeploymentState, Systems, Laws,
}
use agentic_ai_model_adaptat.Registry.Deployer.{
  same_version, Deployer, Round, reads_back, fails, waits, judge, poll_until, poll,
}
use agentic_ai_model_adaptat.Registry.Rules.{
  and_then_rule, Try-cases, is_adaptation_same, same_version→eq,
}

-- The state that a poll returns.
abbrev pub SettledAt : DeploymentState → Option ℕ → Type 0
SettledAt s v = (s.ready ≡ true) × (s.version ≡ v)

judge-reads_back :
    (s : DeploymentState) (v : Option ℕ) (other : Bool)
    → judge s v other ≡ reads_back
    → SettledAt s v
judge-reads_back s v other h = elim (Bool-cases s.ready) [
  | inl r ↦ elim (Bool-cases (same_version s.version v)) [
    | inl e ↦ (r, same_version→eq s.version v e)
    | inr e ↦ ground (arith, e)
  ]
  | inr r ↦ ground (arith, r)
]

Round-cases : (r : Round) → (r ≡ reads_back) ⊎ ((r ≡ fails) ⊎ (r ≡ waits))
Round-cases reads_back = inl refl
Round-cases fails = inr (inl refl)
Round-cases waits = inr (inr refl)

module _ {W : Type 0} (S : Systems W) (d : Deployer) where
  -- One round of the loop.
  round_rule :
      (Q : Try DeploymentState × W → Type 0) (fuel deadline model : ℕ) (v : Option ℕ) (other : Bool)
      (w : W)
      → ((e : Exn) → (S.status model w).0 ≡ throws e → Q (throws e, (S.status model w).1))
      → ((s : DeploymentState)
          → (S.status model w).0 ≡ gives s
          → SettledAt s v
          → Q (gives s, (S.status model w).1))
      → Q (throws deployment_error, (S.status model w).1)
      → (S.clock (S.status model w).1 < deadline
          → Q (poll_until S d fuel deadline model v other (S.sleep d.poll_s (S.status model w).1)))
      → Q (poll_until S d (suc fuel) deadline model v other w)
  unfolding poll_until
  round_rule Q fuel deadline model v other w on_error on_settled on_failure on_wait =
      and_then_rule Q (S.status model w) _
        (λ s e. elim (Round-cases (judge s v other)) [
          | inl r ↦ rw r (on_settled s e (judge-reads_back s v other r))
          | inr (inl r) ↦ rw r on_failure
          | inr (inr r) ↦ elim (Bool-cases (leb deadline (S.clock (S.status model w).1))) [
            | inl late ↦ rw (r, late) on_failure
            | inr early ↦ rw (r, early) (on_wait ground arith)
          ]
        ])
        on_error

module _ {W : Type 0} (S : Systems W) (L : Laws S) (d : Deployer) (model : ℕ) (v : Option ℕ)
    (other : Bool) where
  -- A poll that returns has read the version back as serving.
  abbrev pub ReadsBack : Try DeploymentState × W → Type 0
  ReadsBack r = (s : DeploymentState) → r.0 ≡ gives s → SettledAt s v × (L.serves r.1 model ≡ v)

  poll_until-ReadsBack :
      (fuel deadline : ℕ) (w : W) → ReadsBack (poll_until S d fuel deadline model v other w)
  unfolding poll_until
  poll_until-ReadsBack zero deadline w = λ s h. cc
  poll_until-ReadsBack (suc fuel) deadline w =
      round_rule S d ReadsBack fuel deadline model v other w (λ e _ s h. cc)
        (λ s e settled s' h.
          let same : s ≡ s' = cc in
          subst (λ x. SettledAt x v × (L.serves (S.status model w).1 model ≡ v)) same
            (settled, L.status_read model s w e (settled.0) ∙ settled.1))
        (λ s h. cc)
        (λ _. poll_until-ReadsBack fuel deadline (S.sleep d.poll_s (S.status model w).1))

  poll_until-points :
      (fuel deadline m b : ℕ) (w : W)
      → L.points (poll_until S d fuel deadline model v other w).1 m b ≡ L.points w m b
  unfolding poll_until
  poll_until-points zero deadline m b w = refl
  poll_until-points (suc fuel) deadline m b w =
      let kept = L.status_kept model m b w in
      round_rule S d (λ r. L.points r.1 m b ≡ L.points w m b) fuel deadline model v other w
        (λ e _. kept) (λ s _ _. kept) kept
        (λ _.
          poll_until-points fuel deadline m b (S.sleep d.poll_s (S.status model w).1)
          ∙ L.sleep_kept d.poll_s m b (S.status model w).1
          ∙ kept)

  -- A poll that does not return raises an AdaptationError: it does not run out of rounds.
  abbrev pub RaisesAdaptation : {T : Type 0} → Try T × W → Type 0
  RaisesAdaptation r = (e : Exn) → r.0 ≡ throws e → is_adaptation e ≡ true

  poll_until-ends :
      (fuel deadline : ℕ) (w : W)
      → 0 < d.poll_s
      → deadline ≤ S.clock w + fuel
      → RaisesAdaptation (poll_until S d (suc fuel) deadline model v other w)
  poll_until-ends zero deadline w pos enough =
      let on = L.status_clock model w in
      round_rule S d RaisesAdaptation zero deadline model v other w
        (λ e h e' h'. is_adaptation_same e e' h' (L.status_raises model e w h)) (λ s _ _ e h. cc)
        (λ e h. is_adaptation_same deployment_error e h refl) (λ early. absurd (omega arith))
  poll_until-ends (suc fuel) deadline w pos enough =
      let w' = (S.status model w).1 in
      let on = L.status_clock model w in
      let slept = L.sleep_clock d.poll_s w' in
      round_rule S d RaisesAdaptation (suc fuel) deadline model v other w
        (λ e h e' h'. is_adaptation_same e e' h' (L.status_raises model e w h)) (λ s _ _ e h. cc)
        (λ e h. is_adaptation_same deployment_error e h refl)
        (λ _. poll_until-ends fuel deadline (S.sleep d.poll_s w') pos (omega arith))

  pub poll-ReadsBack : (w : W) → ReadsBack (poll S d model v other w)
  unfolding poll
  poll-ReadsBack w = poll_until-ReadsBack (suc d.timeout_s) (S.clock w + d.timeout_s) w

  pub poll-points : (m b : ℕ) (w : W) → L.points (poll S d model v other w).1 m b ≡ L.points w m b
  unfolding poll
  poll-points m b w = poll_until-points (suc d.timeout_s) (S.clock w + d.timeout_s) m b w

  pub poll-ends : (w : W) → 0 < d.poll_s → RaisesAdaptation (poll S d model v other w)
  unfolding poll
  poll-ends w pos = poll_until-ends d.timeout_s (S.clock w + d.timeout_s) w pos (omega arith)

  -- The last round of a loop: it began less than a poll interval after the deadline.
  abbrev pub LastRound : {T : Type 0} → (deadline : ℕ) → Try T × W → Type 0
  LastRound deadline r = (u : W) × (S.clock u < deadline + d.poll_s) × (r.1 ≡ (S.status model u).1)

  poll_until-LastRound :
      (fuel deadline : ℕ) (w : W)
      → ((s : ℕ) (u : W) → S.clock (S.sleep s u) ≡ S.clock u + s)
      → 0 < d.poll_s
      → S.clock w < deadline + d.poll_s
      → deadline ≤ S.clock w + fuel
      → LastRound deadline (poll_until S d (suc fuel) deadline model v other w)
  poll_until-LastRound zero deadline w exact pos begun enough =
      let on = L.status_clock model w in
      let this : LastRound {T = DeploymentState} deadline
          (throws deployment_error, (S.status model w).1) =
        (w, begun, refl) in
      round_rule S d (LastRound deadline) zero deadline model v other w (λ e _. this)
        (λ s _ _. this) this (λ early. absurd (omega arith))
  poll_until-LastRound (suc fuel) deadline w exact pos begun enough =
      let w' = (S.status model w).1 in
      let on = L.status_clock model w in
      let slept = exact d.poll_s w' in
      let this : LastRound {T = DeploymentState} deadline (throws deployment_error, w') =
        (w, begun, refl) in
      round_rule S d (LastRound deadline) (suc fuel) deadline model v other w (λ e _. this)
        (λ s _ _. this) this
        (λ early.
          poll_until-LastRound fuel deadline (S.sleep d.poll_s w') exact pos (omega arith)
            (omega arith))

  poll-LastRound :
      (w : W)
      → ((s : ℕ) (u : W) → S.clock (S.sleep s u) ≡ S.clock u + s)
      → 0 < d.poll_s
      → LastRound (S.clock w + d.timeout_s) (poll S d model v other w)
  unfolding poll
  poll-LastRound w exact pos =
      poll_until-LastRound d.timeout_s (S.clock w + d.timeout_s) w exact pos (omega arith)
        (omega arith)

  -- The polling loop ends, with a poll interval of at least a tick and sleeps as long as asked: its
  -- last call of `status` begins less than a poll interval after the timeout. It returns a state in
  -- which the serving system reports the version as settled and serving, or it raises an
  -- AdaptationError.
  pub poll-answers :
      (w : W)
      → ((s : ℕ) (u : W) → S.clock (S.sleep s u) ≡ S.clock u + s)
      → 0 < d.poll_s
      → ((u : W) × (S.clock u < S.clock w + d.timeout_s + d.poll_s)
          × ((poll S d model v other w).1 ≡ (S.status model u).1))
        × (((s : DeploymentState) × ((poll S d model v other w).0 ≡ gives s)
              × SettledAt s v
              × (L.serves (poll S d model v other w).1 model ≡ v))
            ⊎ ((e : Exn) × ((poll S d model v other w).0 ≡ throws e) × (is_adaptation e ≡ true)))
  poll-answers w exact pos = (
    poll-LastRound w exact pos,
    elim (Try-cases (poll S d model v other w).0) [
      | inl (s, answered) ↦
          let back = poll-ReadsBack w s answered in inl (s, answered, back.0, back.1)
      | inr (e, raised) ↦ inr (e, raised, poll-ends w pos e raised)
    ],
  )
