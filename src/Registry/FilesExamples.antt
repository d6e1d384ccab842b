-- ===== src/Registry/FilesExamples.antt =====
-- Runs of adapters/registry/filesystem.py and adapters/deployment/alias.py, and the witnesses of their
-- theorems.
use agentic_ai_model_adaptat.Prelude.{◌≡◌, refl, true, false, none, some, [], ◌∷◌}
use agentic_ai_model_adaptat.Registry.Port.{Laws, gives, throws}
use agentic_ai_model_adaptat.Registry.Session.{State}
use agentic_ai_model_adaptat.Registry.Moves.{promote_version}
use agentic_ai_model_adaptat.Registry.Filesystem.{
  VersionFile, ready, Files, os_error, access, write, with_lock, read_model, save_model,
  raw_version, set_alias,
}
use agentic_ai_model_adaptat.Registry.AliasDeployment.{deploy, restore, files_systems}
use agentic_ai_model_adaptat.Registry.FilesLaws.{files_laws}
use agentic_ai_model_adaptat.Registry.Contract.{Refines}
use agentic_ai_model_adaptat.Registry.Atomic.{Torn, promote_version-Refines}
use agentic_ai_model_adaptat.Registry.FilesMoved.{SetsAlias, Happens, set_alias-Happens}
use agentic_ai_model_adaptat.Registry.FilesServed.{Serves, deploy-Serves}
use agentic_ai_model_adaptat.Registry.FilesKept.{alias_at}
use agentic_ai_model_adaptat.Registry.Examples.{
  deployer, meta, session, to_version, target, some_ticks,
}

-- Files with one model, whose version 1 is live and of which version 2 is registered.
abbrev version_file : VersionFile
version_file = record {
  checksum = some 5;
  tagged = none;
  status = ready;
  artifact_key = 6;
  artifact_uri = none;
}

abbrev files : Files
files = record {
  models = (40, record { aliases = (3, 1) ∷ []; next = 3 }) ∷ [];
  versions = (40, (1, version_file) ∷ (2, version_file) ∷ []) ∷ [];
  store = (6, record { path = 6; size = 1; sha256 = 5 }) ∷ [];
  faults = false ∷ false ∷ false ∷ false ∷ true ∷ [];
  db_faults = false ∷ true ∷ [];
  now = 0;
}

abbrev quiet : Files
quiet = record files { faults = [] }

-- The ninth access fails: the removal of the lock file.
abbrev slipped : Files
slipped = record files {
  faults = false ∷ false ∷ false ∷ false ∷ false ∷ false ∷ false ∷ false ∷ true ∷ [];
}

set_alias-Happens_example :
    Happens (SetsAlias 40 3 2 files.models) files.models (set_alias 40 3 2 files)
set_alias-Happens_example = set_alias-Happens 40 3 2 files

-- The lock file cannot be removed after the write: LIVE was moved, and the call raises.
lock_left :
    ((set_alias 40 3 2 slipped).0 ≡ throws os_error)
    × (alias_at (set_alias 40 3 2 slipped).1 40 3 ≡ some 2)
unfolding set_alias raw_version read_model access with_lock save_model write
lock_left = (refl, refl)

deploy-Serves_example :
    Serves 3 40 (some 2) (deploy 3 (target 2) quiet).1
    × Serves 3 40 (some 1) (restore 3 40 (some (target 1)) (deploy 3 (target 2) quiet).1).1
unfolding set_alias raw_version read_model access with_lock save_model write deploy
deploy-Serves_example = deploy-Serves 3 (target 2) (some (target 1)) quiet refl refl

files_laws_example : Laws (files_systems 3 (λ a k. gives tt))
files_laws_example = files_laws 3 (λ a k. gives tt)

-- The filesystem registry, where the commit of the move fails.
abbrev stored : State Files
stored = record { session = session; world = record files { faults = [] } }

promote_version-Refines_example :
    Refines
      (files_systems 3 (λ a k. gives tt))
      (files_laws 3 (λ a k. gives tt))
      deployer
      some_ticks
      (to_version 2)
      40
      (Torn
        (files_systems 3 (λ a k. gives tt))
        (files_laws 3 (λ a k. gives tt))
        deployer
        some_ticks
        (to_version 2)
        meta
        stored)
      stored
      (promote_version (files_systems 3 (λ a k. gives tt)) deployer (to_version 2) 9 stored)
promote_version-Refines_example =
    promote_version-Refines (files_systems 3 (λ a k. gives tt)) (files_laws 3 (λ a k. gives tt))
      deployer some_ticks (to_version 2) meta 9 stored refl refl
