-- ===== src/Registry/AliasDeployment.antt =====
-- adapters/deployment/alias.py: the served version is the one that an alias of the registry points
-- at; and the systems of a move that it makes with the filesystem registry. The handler that loads a
-- model is a parameter, and the database fails where `db_faults` says so.
use agentic_ai_model_adaptat.Prelude.{
  ℕ, ◌+◌, Bool, true, false, Option, none, some, List, [], ◌∷◌, if◌then◌else◌,
}
use agentic_ai_model_adaptat.Registry.Port.{
  is_not_found, crash, Try, gives, throws, Call, Artifact, DeploymentTarget, DeploymentState,
  Systems,
}
use agentic_ai_model_adaptat.Registry.Filesystem.{
  Files, get_version, get_version_by_alias, set_alias, delete_alias, set_version_tags,
  download_artifacts,
}

abbrev pub settled_at : Option ℕ → DeploymentState
settled_at v = record { version = v; ready = true; failed = false }

abbrev pub as_state : Try ℕ × Files → Try DeploymentState × Files
as_state (gives v, f) = (gives (settled_at (some v)), f)
as_state (throws e, f) = if is_not_found e then (gives (settled_at none), f) else (throws e, f)

module _ (alias : ℕ) where
  unfoldable pub status : (model : ℕ) → Call Files DeploymentState
  status model f = as_state (get_version_by_alias model alias f)

  unfoldable pub deploy : DeploymentTarget → Call Files (Unit {0})
  deploy t f = set_alias t.model alias t.version f

  abbrev pub restore : (model : ℕ) → Option DeploymentTarget → Call Files (Unit {0})
  restore model none f = delete_alias model alias f
  restore model (some t) f = set_alias model alias t.version f

-- What the database answers.
abbrev pub database_with : List Bool → Call Files (Unit {0})
database_with [] f = (gives tt, f)
database_with (true ∷ rest) f = (throws (crash 0), record f { db_faults = rest })
database_with (false ∷ rest) f = (gives tt, record f { db_faults = rest })

abbrev pub database : Call Files (Unit {0})
database f = database_with f.db_faults f

abbrev pub files_systems : (alias : ℕ) → (Artifact → ℕ → Try (Unit {0})) → Systems Files
files_systems alias loads = record {
  get_version = get_version;
  get_version_by_alias = get_version_by_alias;
  set_alias = set_alias;
  delete_alias = delete_alias;
  set_status_tag = λ n v t. set_version_tags n v (λ x. record x { tagged = some t });
  set_checksum_tag = λ n v h. set_version_tags n v (λ x. record x { checksum = some h });
  download_artifacts = download_artifacts;
  status = status alias;
  deploy = deploy alias;
  restore = restore alias;
  clock = λ f. f.now;
  sleep = λ s f. record f { now = f.now + s };
  load = λ a k f. (loads a k, f);
  flush = database;
  commit = database;
}
