-- ===== src/Registry/Filesystem.antt =====
-- adapters/registry/filesystem.py: the registry as one file for each model and one for each
-- version. Files are dictionaries, and `faults` says of each coming access to them whether it fails
-- (none are left: it does not). A write replaces its file at once. The lock of a model is a file too:
-- an open of it that fails stands also for another process, or a file left behind, that holds it too
-- long.
use agentic_ai_model_adaptat.Prelude.{
  ℕ, ◌==◌, Bool, true, false, Option, none, some, List, [], ◌∷◌, if◌then◌else◌, is_some, dict_get,
}
use agentic_ai_model_adaptat.Registry.Port.{
  Exn, model_not_found, artifact_error, other_error, crash, Try, gives, throws, Call, and_then,
  VersionStatus, ModelVersion, Artifact,
}

pub data Stored : Type 0 where
  pending ready failed : Stored

abbrev pub is_ready : Stored → Bool
is_ready ready = true
is_ready s = false

-- `model.json`: its aliases and the number of the next version.
pub record ModelFile : Type 0 where
  pub aliases : List (ℕ × ℕ)
  pub next : ℕ

-- `version.json`
pub record VersionFile : Type 0 where
  pub checksum : Option ℕ
  pub tagged : Option VersionStatus
  pub status : Stored
  pub artifact_key : ℕ
  pub artifact_uri : Option ℕ

-- `versions` by model and then by number. The artifact store is by key.
pub record Files : Type 0 where
  pub models : List (ℕ × ModelFile)
  pub versions : List (ℕ × List (ℕ × VersionFile))
  pub store : List (ℕ × Artifact)
  pub faults : List Bool
  pub db_faults : List Bool
  pub now : ℕ

-- `d[k] = v`
abbrev pub dict_set : {A : Type 0} → ℕ → A → List (ℕ × A) → List (ℕ × A)
dict_set k v [] = (k, v) ∷ []
dict_set k v ((j, u) ∷ d) = if j == k then (k, v) ∷ d else (j, u) ∷ dict_set k v d

-- `d.pop(k, None)`
abbrev pub dict_pop : {A : Type 0} → ℕ → List (ℕ × A) → List (ℕ × A)
dict_pop k [] = []
dict_pop k ((j, u) ∷ d) = if j == k then dict_pop k d else (j, u) ∷ dict_pop k d

-- `RegistryUnavailableError`
abbrev pub registry_unavailable : Exn
registry_unavailable = other_error 0

-- An `OSError` that nothing catches.
abbrev pub os_error : Exn
os_error = crash 2

-- One access to the files, with the exception that leaves it when it fails.
abbrev pub access_with : Exn → List Bool → Call Files (Unit {0})
access_with e [] f = (gives tt, f)
access_with e (true ∷ rest) f = (throws e, record f { faults = rest })
access_with e (false ∷ rest) f = (gives tt, record f { faults = rest })

unfoldable pub access : Exn → Call Files (Unit {0})
access e f = access_with e f.faults f

-- `_write` of the file that `change` writes: the folder, the temporary file with its replacement, and
-- where that fails the removal of what there is of the temporary file.
abbrev pub or_removed : Try (Unit {0}) × Files → Try (Unit {0}) × Files
or_removed (gives u, f) = (gives u, f)
or_removed (throws e, f) = and_then (access os_error f) λ _ f1. (throws e, f1)

unfoldable pub write : (Files → Files) → Call Files (Unit {0})
write change f =
    and_then (access os_error f)
      λ _ f1. and_then (or_removed (access registry_unavailable f1)) λ _ f2. (gives tt, change f2)

-- The `finally` of `_lock`: the removal of the lock file, whatever the body came to.
abbrev pub unlocked : Try (Unit {0}) × Files → Try (Unit {0}) × Files
unlocked (t, f) = and_then (access os_error f) λ _ f1. (t, f1)

-- `with self._lock(name)`: the folder, the open of the lock file, its content and then the body.
unfoldable pub with_lock : Call Files (Unit {0}) → Call Files (Unit {0})
with_lock body f = and_then (access os_error f) λ _ f1.
    and_then (access registry_unavailable f1)
      λ _ f2. unlocked (and_then (access os_error f2) λ _ f3. body f3)

abbrev pub or_missing : {T : Type 0} → Option T → Call Files T
or_missing none f = (throws model_not_found, f)
or_missing (some t) f = (gives t, f)

-- `_model`
unfoldable pub read_model : (name : ℕ) → Call Files ModelFile
read_model name f =
    and_then (access registry_unavailable f) λ _ f1. or_missing (dict_get name f1.models) f1

-- `_save_model`
unfoldable pub save_model : (name : ℕ) → ModelFile → Call Files (Unit {0})
save_model name m f = write (λ f1. record f1 { models = dict_set name m f1.models }) f

abbrev pub versions_of : ℕ → Files → List (ℕ × VersionFile)
versions_of name f = elim (dict_get name f.versions) [ none ↦ [] | some vs ↦ vs ]

-- `_raw_version`: versions are numbers here, so every one is made of digits.
unfoldable pub raw_version : (name version : ℕ) → Call Files VersionFile
raw_version name version f = and_then (read_model name f) λ _ f1.
    and_then (access registry_unavailable f1)
      λ _ f2. or_missing (dict_get version (versions_of name f2)) f2

unfoldable pub write_version : (name version : ℕ) → VersionFile → Call Files (Unit {0})
write_version name version v f =
    write
      (λ f1. record f1 {
        versions = dict_set name (dict_set version v (versions_of name f1)) f1.versions;
      })
      f

unfoldable pub get_version : (name version : ℕ) → Call Files ModelVersion
get_version name version f =
    and_then (raw_version name version f)
      λ v f1. (gives (record { source = v.artifact_uri; checksum = v.checksum }), f1)

unfoldable pub get_version_by_alias : (name alias : ℕ) → Call Files ℕ
get_version_by_alias name alias f =
    and_then (read_model name f) λ m f1. or_missing (dict_get alias m.aliases) f1

unfoldable pub set_alias : (name alias version : ℕ) → Call Files (Unit {0})
set_alias name alias version f = and_then (raw_version name version f) λ _ f1.
    with_lock
      (λ f2.
        and_then (read_model name f2)
          λ m f3. save_model name (record m { aliases = dict_set alias version m.aliases }) f3)
      f1

-- Under the lock the file is read again, and written when the alias is still there.
abbrev pub save_without : (name alias : ℕ) → ModelFile → Call Files (Unit {0})
save_without name alias m f =
    if is_some (dict_get alias m.aliases)
    then save_model name (record m { aliases = dict_pop alias m.aliases }) f
    else (gives tt, f)

abbrev pub delete_locked : (name alias : ℕ) → Call Files (Unit {0})
delete_locked name alias f =
    with_lock (λ f1. and_then (read_model name f1) λ m f2. save_without name alias m f2) f

unfoldable pub delete_alias : (name alias : ℕ) → Call Files (Unit {0})
delete_alias name alias f = and_then (read_model name f) λ m f1.
    if is_some (dict_get alias m.aliases) then delete_locked name alias f1 else (gives tt, f1)

-- `set_version_tags`, with the tags that `tagged` sets.
unfoldable pub set_version_tags :
    (name version : ℕ) → (VersionFile → VersionFile) → Call Files (Unit {0})
set_version_tags name version tagged f = and_then (raw_version name version f) λ _ f1.
    with_lock
      (λ f2.
        and_then (raw_version name version f2) λ v f3. write_version name version (tagged v) f3)
      f1

abbrev pub stored_at : ℕ → Files → Try Artifact × Files
stored_at key f = and_then (access registry_unavailable f) λ _ f1. elim (dict_get key f1.store) [
  | none ↦ (throws artifact_error, f1)
  | some a ↦ (gives a, f1)
]

unfoldable pub download_artifacts : (name version : ℕ) → Call Files Artifact
download_artifacts name version f =
    and_then (raw_version name version f)
      λ v f1. if is_ready v.status then stored_at v.artifact_key f1 else (throws artifact_error, f1)
