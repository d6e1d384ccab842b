-- ===== src/Registry/Promote.antt =====
-- registry/promotion.py `promote_version`: a move of the live alias.
use agentic_ai_model_adaptat.Prelude.{
  ℕ, Bool, true, false, Option, none, some, ltb, ◌==◌, if◌then◌else◌,
}
use agentic_ai_model_adaptat.Registry.Port.{
  is_not_found, artifact_error, promotion_error, is_adaptation, Try, gives, throws, Call, and_then,
  live, archived, ModelVersion, Artifact, DeploymentTarget, Systems,
}
use agentic_ai_model_adaptat.Registry.Deployer.{Deployer, serving, rollout}
use agentic_ai_model_adaptat.Registry.Session.{
  PromotionKind, MoveAudit, State, add_audit, outside, commit_session,
}

-- The arguments of a move. `max_bytes` is the limit of the artifact policy.
pub record MoveArgs : Type 0 where
  pub model_id : ℕ
  pub version : ℕ
  pub kind : PromotionKind
  pub live_alias : ℕ
  pub reason : ℕ
  pub actor : ℕ
  pub job_id : Option ℕ
  pub expected_live : Option ℕ
  pub idempotency_key : Option ℕ
  pub max_bytes : ℕ

-- `reason or other`: the empty text is 0.
abbrev pub reason_or : ℕ → ℕ → ℕ
reason_or r other = if r == 0 then other else r

-- `alias_moved`, `rollout_started`, `deployed` and `serving_before`.
pub record Progress : Type 0 where
  pub alias_moved : Bool
  pub rollout_started : Bool
  pub deployed : Bool
  pub serving_before : Option DeploymentTarget

abbrev pub no_progress : Progress
no_progress = record {
  alias_moved = false;
  rollout_started = false;
  deployed = false;
  serving_before = none;
}

-- A statement of the `try` body: what it had done is known to the handler.
abbrev pub then_do :
    {W T : Type 0}
    → Try T × State W
    → Progress
    → (T → State W → Try (Unit {0}) × (Progress × State W))
    → Try (Unit {0}) × (Progress × State W)
then_do (gives t, s) p rest = rest t s
then_do (throws e, s) p rest = (throws e, (p, s))

abbrev pub audit_of : MoveArgs → Option ℕ → (digest : ℕ) → Bool → MoveAudit
audit_of m previous digest ok = record {
  kind = m.kind;
  model_id = m.model_id;
  version = m.version;
  previous = previous;
  digest = digest;
  succeeded = ok;
}

module _ {W : Type 0} (S : Systems W) where
  -- `except ModelNotFoundError: return None`
  abbrev pub absent_as_none : {T : Type 0} → Try T × W → Try (Option T) × W
  absent_as_none (gives t, w) = (gives (some t), w)
  absent_as_none (throws e, w) = if is_not_found e then (gives none, w) else (throws e, w)

  unfoldable pub current_live : (name alias : ℕ) → Call W (Option ℕ)
  current_live name alias w = absent_as_none (S.get_version_by_alias name alias w)

  abbrev pub check_size : Artifact → (max_bytes : ℕ) → Call W (Unit {0})
  check_size a max_bytes w =
      if ltb max_bytes a.size then (throws artifact_error, w) else (gives tt, w)

  -- A version with a recorded checksum is compared with it; another has its own recorded.
  abbrev pub check_digest : (name version : ℕ) → ModelVersion → Artifact → Call W (Artifact × ℕ)
  check_digest name version info a w = elim info.checksum [
    | none ↦ and_then (S.set_checksum_tag name version a.sha256 w) λ _ w'. (gives (a, a.sha256), w')
    | some expected ↦
        if a.sha256 == expected then (gives (a, expected), w) else (throws artifact_error, w)
  ]

  unfoldable pub verify_version_artifact : (name version max_bytes : ℕ) → Call W (Artifact × ℕ)
  verify_version_artifact name version max_bytes w =
      and_then (S.get_version name version w) λ info w1.
        and_then (S.download_artifacts name version w1)
          λ a w2. and_then (check_size a max_bytes w2) λ _ w3. check_digest name version info a w3

  -- The source of a served version, if the registry still holds it.
  abbrev pub source_of : Option ModelVersion → Option ℕ
  source_of none = none
  source_of (some info) = info.source

  abbrev pub as_target : (name : ℕ) → Option ℕ → Call W (Option DeploymentTarget)
  as_target name none w = (gives none, w)
  as_target name (some v) w = and_then (absent_as_none (S.get_version name v w)) λ info w'. (
    gives
        (some (record { model = name; version = v; source = source_of info; artifact_dir = none })),
    w',
  )

  unfoldable pub serving_target : (name : ℕ) → Call W (Option DeploymentTarget)
  serving_target name w = and_then (serving S name w) (as_target name)

  -- A failure to restore that is an AdaptationError is only logged.
  abbrev pub logged : Try (Unit {0}) × W → Try (Unit {0}) × W
  logged (gives u, w) = (gives u, w)
  logged (throws e, w) = if is_adaptation e then (gives tt, w) else (throws e, w)

  abbrev pub put_back : (name alias : ℕ) → Option ℕ → Call W (Unit {0})
  put_back name alias none w = S.delete_alias name alias w
  put_back name alias (some v) w = S.set_alias name alias v w

  unfoldable pub restore_alias : (name alias : ℕ) → Option ℕ → Call W (Unit {0})
  restore_alias name alias previous w = logged (put_back name alias previous w)

  abbrev pub archive : (name : ℕ) → Option ℕ → Call W (Unit {0})
  archive name none w = (gives tt, w)
  archive name (some v) w = S.set_status_tag name v archived w

  -- The rest of the `try` body, once the version serves.
  unfoldable pub settle_move :
      MoveArgs → ℕ → Option ℕ → ℕ → Progress → State W → Try (Unit {0}) × (Progress × State W)
  settle_move m name previous digest p s =
      then_do (outside (S.set_status_tag name m.version live) s) p λ _ s1.
        then_do (outside (archive name previous) s1) p λ _ s2.
          then_do
            (commit_session S
              (record s2 { session = add_audit (audit_of m previous digest true) s2.session }))
            p λ _ s3. (gives tt, (p, s3))

  unfoldable pub roll_out :
      Deployer
      → MoveArgs
      → ℕ
      → Option ℕ
      → ℕ
      → DeploymentTarget
      → Progress
      → State W
      → Try (Unit {0}) × (Progress × State W)
  roll_out d m name previous digest target p s =
      then_do (outside (rollout S d target p.serving_before) s)
        (record p { rollout_started = true })
        λ _ s1.
          settle_move m name previous digest (record p { rollout_started = true; deployed = true })
            s1

  -- The `try` body, from the flush of the row on.
  unfoldable pub try_move :
      Deployer
      → MoveArgs
      → ℕ
      → Option ℕ
      → ℕ
      → DeploymentTarget
      → State W
      → Try (Unit {0}) × (Progress × State W)
  try_move d m name previous digest target s = then_do (outside S.flush s) no_progress λ _ s1.
      then_do (outside (serving_target name) s1) no_progress λ before s2.
        let p = record no_progress { serving_before = before } in
        then_do (outside (S.set_alias name m.live_alias m.version) s2) p λ _ s3.
          let q = record p { alias_moved = true } in
          then_do (outside (S.get_version_by_alias name m.live_alias) s3) q λ now_live s4.
            elim (now_live == m.version) [
              | Bool.true ↦ roll_out d m name previous digest target q s4
              | Bool.false ↦ (throws promotion_error, (q, s4))
            ]
