-- ===== src/Registry/Moves.antt =====
-- registry/promotion.py: the handler of a failed move, `promote_version` and `rollback_model`.
use agentic_ai_model_adaptat.Prelude.{
  ℕ, Bool, false, not, ◌&&◌, ◌||◌, Option, none, some, is_some, if◌then◌else◌,
}
use agentic_ai_model_adaptat.Registry.Port.{
  Exn, conflict, artifact_error, promotion_error, is_deployment, Try, gives, throws, Call, and_then,
  Artifact, DeploymentTarget, Systems,
}
use agentic_ai_model_adaptat.Registry.Deployer.{same_version, Deployer, revert}
use agentic_ai_model_adaptat.Registry.Session.{
  rollback, applied, no_change, ModelPromotion, ModelMeta, Session, State, next_id, add_row,
  add_audit, rollback_session, earlier, last_applied_promotion, PromotionResult, promotion_result,
  model_meta, outside, commit_session,
}
use agentic_ai_model_adaptat.Registry.Promote.{
  MoveArgs, reason_or, Progress, current_live, verify_version_artifact, restore_alias, audit_of,
  try_move,
}

-- `s` with the rows of the open transaction dropped.
abbrev pub dropped : {W : Type 0} → State W → State W
dropped s = record s { session = rollback_session s.session }

-- A move that does not change what is live.
abbrev pub unchanged_row : MoveArgs → Option ℕ → (live_text : ℕ) → Session → ModelPromotion
unchanged_row m previous live_text s = record {
  promotion_id = next_id s.committed.promotions;
  model_id = m.model_id;
  kind = m.kind;
  from_version = previous;
  to_version = m.version;
  status = no_change;
  reason = reason_or m.reason live_text;
  actor = m.actor;
  job_id = m.job_id;
  idempotency_key = m.idempotency_key;
  artifact_sha256 = none;
}

abbrev pub applied_row : MoveArgs → Option ℕ → (digest : ℕ) → Session → ModelPromotion
applied_row m previous digest s = record {
  promotion_id = next_id s.committed.promotions;
  model_id = m.model_id;
  kind = m.kind;
  from_version = previous;
  to_version = m.version;
  status = applied;
  reason = m.reason;
  actor = m.actor;
  job_id = m.job_id;
  idempotency_key = m.idempotency_key;
  artifact_sha256 = some digest;
}

-- `expected_live is not None and previous != expected_live`
abbrev pub live_moved : Option ℕ → Option ℕ → Bool
live_moved expected previous = is_some expected && not (same_version previous expected)

module _ {W : Type 0} (S : Systems W) (d : Deployer) where
  abbrev pub revert_if : Bool → (name : ℕ) → Option DeploymentTarget → Call W Bool
  revert_if needed name before w = elim needed [
    | Bool.true ↦ revert S d name before w
    | Bool.false ↦ (gives false, w)
  ]

  abbrev pub restore_if : Bool → (name alias : ℕ) → Option ℕ → Call W (Unit {0})
  restore_if moved name alias previous w = elim moved [
    | Bool.true ↦ restore_alias S name alias previous w
    | Bool.false ↦ (gives tt, w)
  ]

  -- `_audit_failed_move`: a failure to write the row never replaces the error.
  abbrev pub or_rolled_back : Try (Unit {0}) × State W → State W
  or_rolled_back (gives u, s) = s
  or_rolled_back (throws e, s) = dropped s

  unfoldable pub audit_failed_move : MoveArgs → Option ℕ → (digest : ℕ) → State W → State W
  audit_failed_move m previous digest s = or_rolled_back (
      commit_session S
        (record s { session = add_audit (audit_of m previous digest false) s.session }))

  -- The handler `except Exception as exc`.
  unfoldable pub failed_move :
      MoveArgs
      → ℕ
      → Option ℕ
      → (digest : ℕ) → Exn
      → Progress
      → State W
      → Try PromotionResult × State W
  failed_move m name previous digest e p s =
      let needed = p.deployed || (p.rollout_started && not (is_deployment e)) in
      and_then (outside (revert_if needed name p.serving_before) (dropped s)) λ _ s1.
        and_then (outside (restore_if p.alias_moved name m.live_alias previous) s1)
          λ _ s2. (throws promotion_error, audit_failed_move m previous digest s2)

  abbrev pub handled :
      MoveArgs
      → ℕ
      → Option ℕ
      → (digest : ℕ) → ModelPromotion
      → Try (Unit {0}) × (Progress × State W)
      → Try PromotionResult × State W
  handled m name previous digest row (gives u, (p, s)) = (gives (promotion_result row), s)
  handled m name previous digest row (throws e, (p, s)) = failed_move m name previous digest e p s

  unfoldable pub keep_live : MoveArgs → Option ℕ → ℕ → State W → Try PromotionResult × State W
  keep_live m previous live_text s =
      let row = unchanged_row m previous live_text s.session in
      and_then (commit_session S (record s { session = add_row row s.session }))
        λ _ s1. (gives (promotion_result row), s1)

  unfoldable pub move_live :
      MoveArgs → ModelMeta → Option ℕ → State W → Try PromotionResult × State W
  move_live m meta previous s =
      let name = meta.registered_name in
      and_then (outside (verify_version_artifact S name m.version m.max_bytes) s) λ checked s1.
        and_then (outside (S.get_version name m.version) s1) λ info s2.
          let target : DeploymentTarget = record {
            model = name;
            version = m.version;
            source = info.source;
            artifact_dir = some ((checked.0).path);
          } in
          let row = applied_row m previous (checked.1) s2.session in
          handled m name previous (checked.1) row (
            try_move S d m name previous (checked.1) target
              (record s2 { session = add_row row s2.session }))

  -- `live_text` is the reason recorded for a version that is already live.
  unfoldable pub promote_new : MoveArgs → (live_text : ℕ) → State W → Try PromotionResult × State W
  promote_new m live_text s =
      and_then (model_meta m.model_id s.session, s)
        λ meta s0.
          and_then (outside (current_live S meta.registered_name m.live_alias) s0) λ previous s1.
            if live_moved m.expected_live previous
            then (throws conflict, s1)
            else if same_version previous (some m.version)
            then keep_live m previous live_text s1
            else move_live m meta previous s1

  unfoldable pub promote_version :
      MoveArgs → (live_text : ℕ) → State W → Try PromotionResult × State W
  promote_version m live_text s = elim (earlier m.idempotency_key s.session.committed.promotions) [
    | some p ↦ (gives (promotion_result p), s)
    | none ↦ promote_new m live_text s
  ]

  -- The arguments of a rollback are those of the move that it makes, without the version.
  abbrev pub rollback_target : MoveArgs → Option ℕ → Session → Try ℕ
  rollback_target m (some v) s = gives v
  rollback_target m none s = elim (last_applied_promotion m.model_id s.committed.promotions) [
    | none ↦ throws conflict
    | some last ↦ elim last.from_version [ none ↦ throws conflict | some v ↦ gives v ]
  ]

  abbrev pub as_artifact_error : Try (Unit {0}) × W → Try (Unit {0}) × W
  as_artifact_error (gives u, w) = (gives u, w)
  as_artifact_error (throws e, w) = (throws artifact_error, w)

  abbrev pub check_loads : Option ℕ → Artifact → Call W (Unit {0})
  check_loads none a w = (throws artifact_error, w)
  check_loads (some framework) a w = as_artifact_error (S.load a framework w)

  -- The move that a rollback makes: `back_text` is the reason recorded when it is given none.
  abbrev pub rollback_move : MoveArgs → (version back_text : ℕ) → MoveArgs
  rollback_move m version back_text = record m {
    version = version;
    kind = rollback;
    reason = reason_or m.reason back_text;
    job_id = none;
    expected_live = none;
  }

  unfoldable pub rollback_model :
      MoveArgs
      → (target_version : Option ℕ) → (live_text back_text : ℕ) → State W
      → Try PromotionResult × State W
  rollback_model m target_version live_text back_text s =
      and_then (model_meta m.model_id s.session, s)
        λ meta s0.
          and_then (rollback_target m target_version s0.session, s0)
            λ version s1.
              and_then (outside (S.get_version meta.registered_name version) s1) λ info s2.
                and_then
                  (outside (verify_version_artifact S meta.registered_name version m.max_bytes) s2)
                  λ checked s3.
                    and_then (outside (check_loads meta.framework (checked.0)) s3)
                      λ _ s4. promote_version (rollback_move m version back_text) live_text s4
