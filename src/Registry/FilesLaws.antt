-- ===== src/Registry/FilesLaws.antt =====
-- About adapters/registry/filesystem.py and adapters/deployment/alias.py: they are what a move of
-- the live alias relies on.
use agentic_ai_model_adaptat.Prelude.{
  ℕ, ◌≤◌, ◌≡◌, refl, sym, ◌∙◌, ap, ◌⊎◌, inl, inr, Bool, true, false, Option, none, some, List, [],
  ◌∷◌, Bool-cases, dict_get, ◌==◌, ==→eq, arith,
}
use agentic_ai_model_adaptat.Registry.Port.{
  Exn, is_not_found, is_adaptation, model_not_found, Try, gives, throws, Artifact, DeploymentTarget,
  DeploymentState, Laws,
}
use agentic_ai_model_adaptat.Registry.Rules.{is_adaptation_same}
use agentic_ai_model_adaptat.Registry.Reads.{is_not_found→eq}
use agentic_ai_model_adaptat.Registry.Filesystem.{
  ModelFile, Files, dict_set, registry_unavailable, get_version_by_alias, set_alias, delete_alias,
}
use agentic_ai_model_adaptat.Registry.AliasDeployment.{
  settled_at, as_state, status, deploy, database_with, files_systems,
}
use agentic_ai_model_adaptat.Registry.FilesKept.{
  dict_get-dict_set, dict_get-dict_set_other, alias_in, alias_at, Reads, get_version_by_alias-Reads,
  get_version-Reads, set_version_tags-Reads, download_artifacts-Reads,
}
use agentic_ai_model_adaptat.Registry.FilesMoved.{
  Happens, SetsAlias, DropsAlias, set_alias-Happens, delete_alias-Happens,
}
use agentic_ai_model_adaptat.Registry.FilesServed.{Happens-gives, set_alias-alias_at}
use agentic_ai_model_adaptat.Registry.FilesRead.{
  alias_at-Reads, AnswersAlias, get_version_by_alias-AnswersAlias, get_version_by_alias-SameTime,
  get_version_by_alias-raised,
}

as_state_same : (r : Try ℕ × Files) → (as_state r).1 ≡ r.1
as_state_same (gives v, f) = refl
as_state_same (throws e, f) = elim (Bool-cases (is_not_found e)) [
  | inl absent ↦ rw (absent, as_state) refl
  | inr other ↦ rw (other, as_state) refl
]

as_state-adapts :
    (r : Try ℕ × Files)
    → ((e : Exn) → r.0 ≡ throws e → (e ≡ model_not_found) ⊎ (e ≡ registry_unavailable))
    → (e : Exn) → (as_state r).0 ≡ throws e
    → is_adaptation e ≡ true
as_state-adapts (gives v, f) raised = λ e h. cc
as_state-adapts (throws u, f) raised = elim (raised u refl) [
  | inl absent ↦ rw (absent, as_state) (λ e h. cc)
  | inr down ↦ rw (down, as_state) (λ e h. is_adaptation_same registry_unavailable e h refl)
]

database_with-models : (bits : List Bool) (f : Files) → (database_with bits f).1.models ≡ f.models
database_with-models [] f = refl
database_with-models (true ∷ bits) f = refl
database_with-models (false ∷ bits) f = refl

module _ (alias : ℕ) where
  status-Reads : (n : ℕ) (f : Files) → Reads f (status alias n f)
  unfolding status
  status-Reads n f =
      ap (λ g. g.models) (as_state_same (get_version_by_alias n alias f))
      ∙ get_version_by_alias-Reads n alias f

  as_state-serves :
      (o : Option ℕ) (r : Try ℕ × Files) (s : DeploymentState)
      → AnswersAlias o r
      → (as_state r).0 ≡ gives s
      → o ≡ s.version
  as_state-serves o (gives v, f) s answers given =
      let same : settled_at (some v) ≡ s = cc in answers.0 v refl ∙ ap (λ x. x.version) same
  as_state-serves o (throws e, f) s answers given = elim (Bool-cases (is_not_found e)) [
    | inl absent ↦
        let given' = rw (absent, as_state) at given in
        let same : settled_at none ≡ s = cc in
        answers.1 (ap throws (is_not_found→eq e absent)) ∙ ap (λ x. x.version) same
    | inr other ↦ let given' = rw (other, as_state) at given in cc
  ]

  as_state-status :
      (n : ℕ) (s : DeploymentState) (f : Files)
      → (status alias n f).0 ≡ gives s
      → alias_at f n alias ≡ s.version
  unfolding status
  as_state-status n s f given =
      as_state-serves (alias_at f n alias) (get_version_by_alias n alias f) s
        (get_version_by_alias-AnswersAlias n alias f) given

  status_read :
      (n : ℕ) (s : DeploymentState) (f : Files)
      → (status alias n f).0 ≡ gives s
      → alias_at (status alias n f).1 n alias ≡ s.version
  status_read n s f given =
      ap (λ ms. alias_in (dict_get n ms) alias) (status-Reads n f) ∙ as_state-status n s f given

  status-adapts :
      (n : ℕ) (f : Files) (e : Exn) → (status alias n f).0 ≡ throws e → is_adaptation e ≡ true
  unfolding status
  status-adapts n f =
      as_state-adapts (get_version_by_alias n alias f) (get_version_by_alias-raised n alias f)

  status_clock : (n : ℕ) (f : Files) → f.now ≤ (status alias n f).1.now
  unfolding status
  status_clock n f =
      let same =
        ap (λ g. g.now) (as_state_same (get_version_by_alias n alias f))
        ∙ get_version_by_alias-SameTime n alias f in
      omega arith

  deploy_kept :
      (t : DeploymentTarget) (b : ℕ) (f : Files)
      → (deploy alias t f).0 ≡ gives tt
      → (alias_at (deploy alias t f).1 t.model b ≡ alias_at f t.model b)
        ⊎ (alias_at (deploy alias t f).1 t.model b ≡ some t.version)
  unfolding deploy
  deploy_kept t b f given =
      let set =
        Happens-gives (SetsAlias t.model alias t.version f.models) f.models
          (set_alias t.model alias t.version f) given
          (set_alias-Happens t.model alias t.version f) in
      let old = (set.0).aliases in
      let new = record set.0 { aliases = dict_set alias t.version old } in
      let after =
        ap (λ ms. alias_in (dict_get t.model ms) b) (set.2)
        ∙ ap (λ o. alias_in o b) (dict_get-dict_set t.model new f.models) in
      elim (Bool-cases (alias == b)) [
        | inl same ↦ inr (
            after
            ∙ ap (λ x. dict_get x (dict_set alias t.version old)) (sym (==→eq alias b same))
            ∙ dict_get-dict_set alias t.version old)
        | inr apart ↦ inl (
            after
            ∙ dict_get-dict_set_other b alias t.version old apart
            ∙ sym (ap (λ o. alias_in o b) (set.1)))
      ]

-- A `set_alias` that raises an AdaptationError leaves the files of the models as they were.
Happens-kept :
    (P : List (ℕ × ModelFile) → Type 0) (ms : List (ℕ × ModelFile)) (r : Try (Unit {0}) × Files)
    (e : Exn)
    → r.0 ≡ throws e
    → is_adaptation e ≡ true
    → Happens P ms r
    → r.1.models ≡ ms
Happens-kept P ms (gives u, f) e raised known is = cc
Happens-kept P ms (throws e', f) e raised known (inl kept) = kept
Happens-kept P ms (throws e', f) e raised known (inr (is, crashed)) = let own : e' ≡ e = cc in cc

-- The filesystem registry and the deployment by an alias of it are systems that a move may rely on,
-- whichever of their accesses fail and with whatever exception.
pub files_laws :
    (alias : ℕ) (loads : Artifact → ℕ → Try (Unit {0})) → Laws (files_systems alias loads)
files_laws alias loads = record {
  points = alias_at;
  alias_read = λ n a v f. (get_version_by_alias-AnswersAlias n a f).0 v;
  alias_missing = λ n a f. (get_version_by_alias-AnswersAlias n a f).1;
  alias_kept = λ n a m b f.
      alias_at-Reads f (get_version_by_alias n a f) m b (get_version_by_alias-Reads n a f);
  alias_set = set_alias-alias_at;
  alias_unset = λ n a v e f raised known.
      ap (λ ms. alias_in (dict_get n ms) a)
        (Happens-kept (SetsAlias n a v f.models) f.models (set_alias n a v f) e raised known
          (set_alias-Happens n a v f));
  alias_deleted = λ n a f given.
      Happens-gives (DropsAlias n a) f.models (delete_alias n a f) given
        (delete_alias-Happens n a f);
  version_kept = λ n v m b f. ap (λ ms. alias_in (dict_get m ms) b) (get_version-Reads n v f);
  status_tag_kept = λ n v t m b f.
      ap (λ ms. alias_in (dict_get m ms) b)
        (set_version_tags-Reads n v (λ x. record x { tagged = some t }) f);
  checksum_tag_kept = λ n v h m b f.
      ap (λ ms. alias_in (dict_get m ms) b)
        (set_version_tags-Reads n v (λ x. record x { checksum = some h }) f);
  download_kept =
      λ n v m b f. ap (λ ms. alias_in (dict_get m ms) b) (download_artifacts-Reads n v f);
  status_kept = λ n m b f. ap (λ ms. alias_in (dict_get m ms) b) (status-Reads alias n f);
  sleep_kept = λ s m b f. refl;
  flush_kept = λ m b f. ap (λ ms. alias_in (dict_get m ms) b) (database_with-models f.db_faults f);
  commit_kept = λ m b f. ap (λ ms. alias_in (dict_get m ms) b) (database_with-models f.db_faults f);
  load_kept = λ x k m b f. refl;
  deploy_kept = deploy_kept alias;
  serves = λ f n. alias_at f n alias;
  status_read = λ n s f given _. status_read alias n s f given;
  status_tag_serves = λ n v t m f.
      ap (λ ms. alias_in (dict_get m ms) alias)
        (set_version_tags-Reads n v (λ x. record x { tagged = some t }) f);
  commit_serves =
      λ m f. ap (λ ms. alias_in (dict_get m ms) alias) (database_with-models f.db_faults f);
  status_raises = λ n e f. status-adapts alias n f e;
  status_clock = status_clock alias;
  sleep_clock = λ s f. omega arith;
}
