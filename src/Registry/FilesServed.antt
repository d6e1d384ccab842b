-- ===== src/Registry/FilesServed.antt =====
-- About adapters/deployment/alias.py: what a deployment serves.
use mathlib.Core.Path.{subst}
use agentic_ai_model_adaptat.Prelude.{
  ℕ, List, ◌≡◌, refl, sym, ◌∙◌, ap, ◌⊎◌, inl, inr, Option, none, some, dict_get,
}
use agentic_ai_model_adaptat.Registry.Port.{
  Exn, model_not_found, Try, gives, throws, DeploymentTarget,
}
use agentic_ai_model_adaptat.Registry.Deployer.{version_of}
use agentic_ai_model_adaptat.Registry.Filesystem.{
  ModelFile, Files, dict_set, registry_unavailable, get_version_by_alias, set_alias, delete_alias,
}
use agentic_ai_model_adaptat.Registry.AliasDeployment.{
  settled_at, as_state, status, deploy, restore,
}
use agentic_ai_model_adaptat.Registry.FilesKept.{dict_get-dict_set, alias_in, alias_at}
use agentic_ai_model_adaptat.Registry.FilesMoved.{
  Happens, SetsAlias, DropsAlias, set_alias-Happens, delete_alias-Happens,
}
use agentic_ai_model_adaptat.Registry.FilesRead.{
  get_version_by_alias-AnswersAlias, get_version_by_alias-raised,
}

pub Happens-gives :
    (P : List (ℕ × ModelFile) → Type 0) (ms : List (ℕ × ModelFile)) (r : Try (Unit {0}) × Files)
    → r.0 ≡ gives tt
    → Happens P ms r
    → P r.1.models
Happens-gives P ms (gives u, f) given is = is
Happens-gives P ms (throws e, f) given is = cc

-- The alias that `set_alias` set.
pub set_alias-alias_at :
    (n a v : ℕ) (f : Files)
    → (set_alias n a v f).0 ≡ gives tt
    → alias_at (set_alias n a v f).1 n a ≡ some v
set_alias-alias_at n a v f given =
    let set =
      Happens-gives (SetsAlias n a v f.models) f.models (set_alias n a v f) given
        (set_alias-Happens n a v f) in
    let new = record set.0 { aliases = dict_set a v (set.0).aliases } in
    ap (λ ms. alias_in (dict_get n ms) a) (set.2)
    ∙ ap (λ o. alias_in o a) (dict_get-dict_set n new f.models)
    ∙ dict_get-dict_set a v (set.0).aliases

module _ (alias : ℕ) where
  as_state-answers :
      (o : Option ℕ) (r : Try ℕ × Files)
      → ((v : ℕ) → r.0 ≡ gives v → o ≡ some v)
      → (r.0 ≡ throws model_not_found → o ≡ none)
      → ((e : Exn) → r.0 ≡ throws e → (e ≡ model_not_found) ⊎ (e ≡ registry_unavailable))
      → ((as_state r).0 ≡ gives (settled_at o)) ⊎ ((as_state r).0 ≡ throws registry_unavailable)
  as_state-answers o (gives v, f) found missing raised =
      inl (ap (λ x. gives (settled_at x)) (sym (found v refl)))
  as_state-answers o (throws e, f) found missing raised = elim (raised e refl) [
    | inl absent ↦
        inl (
          rw (absent, as_state) (ap (λ x. gives (settled_at x)) (sym (missing (ap throws absent)))))
    | inr down ↦ inr (rw (down, as_state) refl)
  ]

  status-answers :
      (n : ℕ) (f : Files)
      → ((status alias n f).0 ≡ gives (settled_at (alias_at f n alias)))
        ⊎ ((status alias n f).0 ≡ throws registry_unavailable)
  unfolding status
  status-answers n f =
      let answers = get_version_by_alias-AnswersAlias n alias f in
      as_state-answers (alias_at f n alias) (get_version_by_alias n alias f) (answers.0) (answers.1)
        (get_version_by_alias-raised n alias f)

  -- What a call of the deployment leaves: `status` reports `v` as settled and serving, or the file of
  -- the model cannot be read.
  abbrev pub Serves : (model : ℕ) → Option ℕ → Files → Type 0
  Serves n v f =
      ((status alias n f).0 ≡ gives (settled_at v))
      ⊎ ((status alias n f).0 ≡ throws registry_unavailable)

  alias_at-Serves : (n : ℕ) (v : Option ℕ) (f : Files) → alias_at f n alias ≡ v → Serves n v f
  alias_at-Serves n v f there = subst (λ x. Serves n x f) there (status-answers n f)

  restore-Serves :
      (n : ℕ) (previous : Option DeploymentTarget) (f : Files)
      → (restore alias n previous f).0 ≡ gives tt
      → Serves n (version_of previous) (restore alias n previous f).1
  restore-Serves n none f given = alias_at-Serves n none (restore alias n none f).1 (
      Happens-gives (DropsAlias n alias) f.models (delete_alias n alias f) given
        (delete_alias-Happens n alias f))
  restore-Serves n (some t) f given =
      alias_at-Serves n (some t.version) (restore alias n (some t) f).1
        (set_alias-alias_at n alias t.version f given)

  -- After a deployment that answers, the alias deployment reports the deployed version as settled and
  -- serving; after a restore from there that answers, the version put back, or none. In both cases the
  -- alternative is that the file of the model cannot be read.
  pub deploy-Serves :
      (t : DeploymentTarget) (previous : Option DeploymentTarget) (f : Files)
      → (deploy alias t f).0 ≡ gives tt
      → (restore alias t.model previous (deploy alias t f).1).0 ≡ gives tt
      → Serves t.model (some t.version) (deploy alias t f).1
        × Serves t.model
            (version_of previous)
            (restore alias t.model previous (deploy alias t f).1).1
  unfolding deploy
  deploy-Serves t previous f given back = (
    alias_at-Serves t.model (some t.version) (deploy alias t f).1
        (set_alias-alias_at t.model alias t.version f given),
    restore-Serves t.model previous (deploy alias t f).1 back,
  )
