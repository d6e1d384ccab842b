-- ===== src/Registry/Examples.antt =====
-- Runs of registry/: moves of the live alias, failing and not, and the witnesses of the theorems.
use mathlib.Core.Path.{subst}
use agentic_ai_model_adaptat.Prelude.{
  not, ◌&&◌, ◌||◌, ℕ, ◌<◌, ◌≡◌, refl, sym, ◌∙◌, ◌⊎◌, inl, inr, Bool-cases, leb, Bool, true, false,
  Option, none, some, List, [], ◌∷◌, arith,
}
use agentic_ai_model_adaptat.Registry.Port.{
  is_deployment, Exn, promotion_error, is_adaptation, Try, gives, throws, DeploymentTarget,
  DeploymentState, model_not_found,
}
use agentic_ai_model_adaptat.Registry.Deployer.{
  Deployer, rollout, poll, poll_until, revert, deploy_and_wait,
}
use agentic_ai_model_adaptat.Registry.Session.{
  promote_candidate, rollback, applied, ModelMeta, Session, State, nothing_added, PromotionResult,
  last_applied_promotion, commit_session,
}
use agentic_ai_model_adaptat.Registry.Promote.{
  MoveArgs, current_live, verify_version_artifact, serving_target, put_back, restore_alias,
  settle_move, roll_out, try_move,
}
use agentic_ai_model_adaptat.Registry.Moves.{
  dropped, rollback_move, check_loads, audit_failed_move, failed_move, keep_live, move_live,
  promote_new, promote_version, rollback_model,
}
use agentic_ai_model_adaptat.Registry.Undo.{revert_if-gives}
use agentic_ai_model_adaptat.Registry.Polling.{SettledAt, poll-answers}
use agentic_ai_model_adaptat.Registry.Rollouts.{RollsOut, rollout-RollsOut}
use agentic_ai_model_adaptat.Registry.Atomic.{Torn}
use agentic_ai_model_adaptat.Registry.Runs.{
  for_model, promotes, rolls_back, done, ChainsAt, Calls-ChainsAt,
}
use agentic_ai_model_adaptat.Registry.Reads.{verify_version_artifact-points}
use agentic_ai_model_adaptat.Registry.History.{TornBack, check_loads-points}
use agentic_ai_model_adaptat.Registry.Rollback.{after_move, after_rollback, rollback_model-undoes}
use agentic_ai_model_adaptat.Registry.Desk.{Desk, point_at, desk_systems, desk_laws, desk_restores}

abbrev pub deployer : Deployer
deployer = record { timeout_s = 10; poll_s = 5 }

abbrev pub meta : ModelMeta
meta = record { registered_name = 40; framework = some 2 }

-- A session without rows, and a world where version 1 is live.
abbrev pub session : Session
session = record {
  committed = record { promotions = []; audits = [] };
  added = nothing_added;
  models = (4, meta) ∷ [];
}

abbrev start : List Bool → State Desk
start faults = record {
  session = session;
  world = record { live = some 1; db_faults = faults; now = 0 };
}

abbrev pub to_version : ℕ → MoveArgs
to_version v = record {
  model_id = 4;
  version = v;
  kind = promote_candidate;
  live_alias = 3;
  reason = 8;
  actor = 6;
  job_id = none;
  expected_live = none;
  idempotency_key = none;
  max_bytes = 100;
}

-- The answer and what is live after a move.
abbrev outcome : Try PromotionResult × State Desk → Try PromotionResult × Option ℕ
outcome r = (r.0, r.1.world.live)

abbrev moved_to : ℕ → List Bool → Try PromotionResult × State Desk
moved_to v faults = promote_version desk_systems deployer (to_version v) 9 (start faults)

abbrev applied_result : ℕ → PromotionResult
applied_result v = record {
  model_id = 4;
  kind = promote_candidate;
  from_version = some 1;
  to_version = v;
  status = applied;
  promotion_id = 1;
  artifact_sha256 = some v;
  reason = 8;
}

-- A move; one whose commit fails, one to a version that never becomes ready, and one that the
-- deployment refuses.
moves_and_failures :
    (outcome (moved_to 2 []) ≡ (gives (applied_result 2), some 2))
    × (outcome (moved_to 2 (false ∷ true ∷ [])) ≡ (throws promotion_error, some 1))
    × (outcome (moved_to 5 []) ≡ (throws promotion_error, some 1))
    × (outcome (moved_to 7 []) ≡ (throws promotion_error, some 1))
unfolding promote_version promote_new current_live move_live keep_live verify_version_artifact
    try_move serving_target roll_out settle_move rollout deploy_and_wait poll poll_until revert
    failed_move restore_alias audit_failed_move commit_session
moves_and_failures = (refl, refl, refl, refl)

abbrev pub some_ticks : 0 < deployer.poll_s
some_ticks = omega arith

abbrev back : MoveArgs
back = record (to_version 0) { idempotency_key = some 77 }

rollback_model-undoes_example :
    (after_rollback desk_systems desk_laws deployer some_ticks 4 meta 3 back 9 9
      (after_move desk_systems desk_laws deployer some_ticks 4 meta 3
        (to_version 2)
        9
        (start [])).1).1.world.live
    ≡ some 1
unfolding promote_version promote_new current_live move_live keep_live verify_version_artifact
    try_move serving_target roll_out settle_move rollout deploy_and_wait poll poll_until revert
    failed_move restore_alias audit_failed_move commit_session rollback_model last_applied_promotion
rollback_model-undoes_example =
    rollback_model-undoes desk_systems desk_laws deployer some_ticks 4 meta 3 (to_version 2) back 9
      9 1 (start []) (applied_result 2)
      (record (applied_result 1) {
        kind = rollback;
        from_version = some 2;
        promotion_id = 2;
        reason = 8;
      })
      refl refl refl refl refl refl refl

point_at-adapts :
    (v : ℕ) (e : Exn) (w : Desk) → (point_at v w).0 ≡ throws e → is_adaptation e ≡ true
point_at-adapts v e w raised = elim (Bool-cases (leb v 9)) [
  | inl there ↦ let raised' = rw there at raised in cc
  | inr gone ↦
      let raised' = rw gone at raised in
      let own : model_not_found ≡ e = cc in subst (λ x. is_adaptation x ≡ true) own refl
]

-- A move is not torn where what is live can be put back.
desk-whole :
    (m : MoveArgs) (s : State Desk)
    → ((w : Desk) → (put_back desk_systems 40 m.live_alias s.world.live w).0 ≡ gives tt)
    → ¬ Torn desk_systems desk_laws deployer some_ticks m meta s
desk-whole m s can (digest, source, dir, (e, p, t, failed, inl (moved, inr (e', raised)))) =
    let clash = sym (can _) ∙ raised in cc
desk-whole m s can (digest, source, dir, (e, p, t, failed, inl (moved, inl (e', raised)))) =
    let needed = p.deployed || (p.rollout_started && not (is_deployment e)) in
    let reverted =
      revert_if-gives desk_systems desk_laws deployer some_ticks m 40 s.world.live digest
        desk_restores needed p.serving_before t.world in
    let given = reverted.1 in cc
desk-whole m s can (digest, source, dir, (e, p, t, failed, inr (crashed, raised))) =
    let known = point_at-adapts m.version e _ raised in cc

desk-whole_back :
    (m : MoveArgs) (back_text v : ℕ) (s : State Desk)
    → ((w : Desk) → (put_back desk_systems 40 m.live_alias s.world.live w).0 ≡ gives tt)
    → ¬ TornBack desk_systems desk_laws deployer some_ticks m meta back_text v s
desk-whole_back m back_text v s can (a, torn) =
    let w1 = (verify_version_artifact desk_systems 40 v m.max_bytes s.world).1 in
    let kept =
      check_loads-points desk_systems desk_laws deployer some_ticks (some 2) a 40 3 w1
      ∙ verify_version_artifact-points desk_systems desk_laws 40 v m.max_bytes 40 3 s.world in
    desk-whole (rollback_move desk_systems deployer m v back_text)
      (record s { world = (check_loads desk_systems deployer (some 2) a w1).1 })
      (λ w.
        subst (λ o. (put_back desk_systems 40 m.live_alias o w).0 ≡ gives tt) (sym kept) (can w))
      torn

Calls-ChainsAt_example :
    ChainsAt desk_systems desk_laws deployer some_ticks 4 meta 3
      (after_rollback desk_systems desk_laws deployer some_ticks 4 meta 3 back 9 9
        (after_move desk_systems desk_laws deployer some_ticks 4 meta 3
          (to_version 2)
          9
          (start [])).1).1
unfolding promote_version promote_new current_live move_live keep_live verify_version_artifact
    try_move serving_target roll_out settle_move rollout deploy_and_wait poll poll_until revert
    failed_move restore_alias audit_failed_move commit_session rollback_model last_applied_promotion
Calls-ChainsAt_example =
    Calls-ChainsAt desk_systems desk_laws deployer some_ticks 4 meta 3 (start [])
      (after_rollback desk_systems desk_laws deployer some_ticks 4 meta 3 back 9 9
        (after_move desk_systems desk_laws deployer some_ticks 4 meta 3 (to_version 2) 9
          (start [])).1).1
      refl tt
      (promotes (to_version 2) 9 (start []) _
        (desk-whole (for_model desk_systems desk_laws deployer some_ticks 4 meta 3 (to_version 2))
          (dropped (start [])) (λ w. refl))
        (rolls_back back none 9 9 _ _
          (λ v.
            desk-whole_back (for_model desk_systems desk_laws deployer some_ticks 4 meta 3 back) 9 v
              (dropped
                (after_move desk_systems desk_laws deployer some_ticks 4 meta 3 (to_version 2) 9
                  (start [])).1)
              (λ w. refl))
          (done _)))

abbrev pub target : ℕ → DeploymentTarget
target v = record { model = 40; version = v; source = none; artifact_dir = none }

rollout-RollsOut_example :
    RollsOut desk_systems desk_laws deployer some_ticks
      (target 7)
      (some (target 1))
      (start []).world
      (rollout desk_systems deployer (target 7) (some (target 1)) (start []).world)
rollout-RollsOut_example =
    rollout-RollsOut desk_systems desk_laws deployer some_ticks desk_restores (target 7)
      (some (target 1)) (start []).world

poll-answers_example :
    ((u : Desk) × (u.now < 15)
      × ((poll desk_systems deployer 40 (some 2) false (start []).world).1 ≡ u))
    × (((s : DeploymentState) × ((poll desk_systems deployer 40 (some 2) false (start []).world).0
            ≡ gives s)
          × SettledAt s (some 2)
          × ((poll desk_systems deployer 40 (some 2) false (start []).world).1.live ≡ some 2))
        ⊎ ((e : Exn) × ((poll desk_systems deployer 40 (some 2) false (start []).world).0
              ≡ throws e)
            × (is_adaptation e ≡ true)))
poll-answers_example =
    poll-answers desk_systems desk_laws deployer 40 (some 2) false (start []).world (λ s u. refl)
      some_ticks
