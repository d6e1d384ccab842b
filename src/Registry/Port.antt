-- ===== src/Registry/Port.antt =====
-- ports/registry.py and ports/runtime.py: the registry, the serving system and the rest that a move
-- of the live alias calls. Each call is a function of the state `W` of everything outside, which
-- answers or raises. Versions, names, aliases and checksums are only compared: they are numbers.
use agentic_ai_model_adaptat.Prelude.{ℕ, ◌≤◌, ◌+◌, ◌≡◌, ◌⊎◌, Bool, true, false, Option, none, some}

-- The exceptions of core/errors.py that a move tells apart. `other_error` is any other
-- AdaptationError and `crash` any exception that is none. `out_of_rounds` is not of the source: it
-- marks the end of the fuel of a polling loop.
pub data Exn : Type 0 where
  model_not_found conflict artifact_error promotion_error deployment_error : Exn
  other_error : ℕ → Exn
  crash : ℕ → Exn
  out_of_rounds : Exn

-- `isinstance(exc, AdaptationError)`
abbrev pub is_adaptation : Exn → Bool
is_adaptation (crash n) = false
is_adaptation out_of_rounds = false
is_adaptation e = true

abbrev pub is_not_found : Exn → Bool
is_not_found model_not_found = true
is_not_found e = false

abbrev pub is_deployment : Exn → Bool
is_deployment deployment_error = true
is_deployment e = false

pub data Try {ℓ} (T : Type ℓ) : Type ℓ where
  gives : (value : T) → Try T
  throws : (raised : Exn) → Try T

-- A call: its answer and the state after it.
abbrev pub Call : (W T : Type 0) → Type 0
Call W T = W → Try T × W

-- A statement after another that may raise.
abbrev pub and_then : {W T U : Type 0} → Try T × W → (T → W → Try U × W) → Try U × W
and_then (gives t, w) rest = rest t w
and_then (throws e, w) rest = (throws e, w)

pub data VersionStatus : Type 0 where
  candidate validated live archived : VersionStatus

-- `ModelVersion`: the source, and the checksum tag.
pub record ModelVersion : Type 0 where
  pub source : Option ℕ
  pub checksum : Option ℕ

-- A downloaded artifact: its size in bytes, its SHA-256 and whether it loads are what is read of it.
pub record Artifact : Type 0 where
  pub path : ℕ
  pub size : ℕ
  pub sha256 : ℕ

pub record DeploymentTarget : Type 0 where
  pub model : ℕ
  pub version : ℕ
  pub source : Option ℕ
  pub artifact_dir : Option ℕ

pub record DeploymentState : Type 0 where
  pub version : Option ℕ
  pub ready : Bool
  pub failed : Bool

pub record Systems (W : Type 0) : Type 0 where
  -- ModelRegistryPort
  pub get_version : (name version : ℕ) → Call W ModelVersion
  pub get_version_by_alias : (name alias : ℕ) → Call W ℕ
  pub set_alias : (name alias version : ℕ) → Call W (Unit {0})
  pub delete_alias : (name alias : ℕ) → Call W (Unit {0})
  pub set_status_tag : (name version : ℕ) → VersionStatus → Call W (Unit {0})
  pub set_checksum_tag : (name version digest : ℕ) → Call W (Unit {0})
  pub download_artifacts : (name version : ℕ) → Call W Artifact
  -- DeploymentPort
  pub status : (model : ℕ) → Call W DeploymentState
  pub deploy : DeploymentTarget → Call W (Unit {0})
  pub restore : (model : ℕ) → Option DeploymentTarget → Call W (Unit {0})
  -- The clock and the sleep of a Deployer.
  pub clock : W → ℕ
  pub sleep : ℕ → W → W
  -- The model handler, and what the database answers to a flush and to a commit.
  pub load : Artifact → (framework : ℕ) → Call W (Unit {0})
  pub flush : Call W (Unit {0})
  pub commit : Call W (Unit {0})

-- What a move relies on, of the systems outside. `points` is the version that an alias points at.
pub record Laws {W : Type 0} (S : Systems W) : Type 0 where
  pub points : W → (name alias : ℕ) → Option ℕ
  -- Reading an alias tells what it points at, and changes nothing of it.
  pub alias_read :
      (n a v : ℕ) (w : W) → (S.get_version_by_alias n a w).0 ≡ gives v → points w n a ≡ some v
  pub alias_missing :
      (n a : ℕ) (w : W)
      → (S.get_version_by_alias n a w).0 ≡ throws model_not_found
      → points w n a ≡ none
  pub alias_kept :
      (n a m b : ℕ) (w : W) → points (S.get_version_by_alias n a w).1 m b ≡ points w m b
  -- Setting an alias happens, or raises an AdaptationError and changes nothing of it; nothing is said
  -- of any other exception. Deleting an alias that answers leaves none.
  pub alias_set :
      (n a v : ℕ) (w : W)
      → (S.set_alias n a v w).0 ≡ gives tt
      → points (S.set_alias n a v w).1 n a ≡ some v
  pub alias_unset :
      (n a v : ℕ) (e : Exn) (w : W)
      → (S.set_alias n a v w).0 ≡ throws e
      → is_adaptation e ≡ true
      → points (S.set_alias n a v w).1 n a ≡ points w n a
  pub alias_deleted :
      (n a : ℕ) (w : W)
      → (S.delete_alias n a w).0 ≡ gives tt
      → points (S.delete_alias n a w).1 n a ≡ none
  -- The other calls leave aliases alone; a deployment may serve from the alias itself.
  pub version_kept : (n v m b : ℕ) (w : W) → points (S.get_version n v w).1 m b ≡ points w m b
  pub status_tag_kept :
      (n v : ℕ) (t : VersionStatus) (m b : ℕ) (w : W)
      → points (S.set_status_tag n v t w).1 m b ≡ points w m b
  pub checksum_tag_kept :
      (n v d m b : ℕ) (w : W) → points (S.set_checksum_tag n v d w).1 m b ≡ points w m b
  pub download_kept :
      (n v m b : ℕ) (w : W) → points (S.download_artifacts n v w).1 m b ≡ points w m b
  pub status_kept : (n m b : ℕ) (w : W) → points (S.status n w).1 m b ≡ points w m b
  pub sleep_kept : (s m b : ℕ) (w : W) → points (S.sleep s w) m b ≡ points w m b
  pub flush_kept : (m b : ℕ) (w : W) → points (S.flush w).1 m b ≡ points w m b
  pub commit_kept : (m b : ℕ) (w : W) → points (S.commit w).1 m b ≡ points w m b
  pub load_kept : (x : Artifact) (f m b : ℕ) (w : W) → points (S.load x f w).1 m b ≡ points w m b
  pub deploy_kept :
      (t : DeploymentTarget) (b : ℕ) (w : W)
      → (S.deploy t w).0 ≡ gives tt
      → (points (S.deploy t w).1 t.model b ≡ points w t.model b)
        ⊎ (points (S.deploy t w).1 t.model b ≡ some t.version)
  -- What the serving system serves: what a settled status reports. Tags and commits are no part
  -- of it.
  pub serves : W → (model : ℕ) → Option ℕ
  pub status_read :
      (n : ℕ) (s : DeploymentState) (w : W)
      → (S.status n w).0 ≡ gives s
      → s.ready ≡ true
      → serves (S.status n w).1 n ≡ s.version
  pub status_tag_serves :
      (n v : ℕ) (t : VersionStatus) (m : ℕ) (w : W)
      → serves (S.set_status_tag n v t w).1 m ≡ serves w m
  pub commit_serves : (m : ℕ) (w : W) → serves (S.commit w).1 m ≡ serves w m
  -- `status` raises AdaptationErrors only.
  pub status_raises :
      (n : ℕ) (e : Exn) (w : W) → (S.status n w).0 ≡ throws e → is_adaptation e ≡ true
  -- The clock is monotonic and a sleep lasts as long as asked.
  pub status_clock : (n : ℕ) (w : W) → S.clock w ≤ S.clock (S.status n w).1
  pub sleep_clock : (s : ℕ) (w : W) → S.clock w + s ≤ S.clock (S.sleep s w)

-- A restore raises AdaptationErrors only.
abbrev pub RestoreAdapts : {W : Type 0} → Systems W → Type 0
RestoreAdapts {W} S =
    (n : ℕ) (p : Option DeploymentTarget) (e : Exn) (w : W)
    → (S.restore n p w).0 ≡ throws e
    → is_adaptation e ≡ true
