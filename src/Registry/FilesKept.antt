-- ===== src/Registry/FilesKept.antt =====
-- About adapters/registry/filesystem.py: what its calls leave of the aliases.
use agentic_ai_model_adaptat.Prelude.{
  ℕ, ◌≡◌, refl, ◌∙◌, ap, inl, inr, Bool, true, false, Option, none, some, List, [], ◌∷◌, Bool-cases,
  Option-cases, dict_get, ◌==◌, ==→eq, ==_refl,
}
use agentic_ai_model_adaptat.Registry.Port.{Exn, Try, gives, throws, and_then}
use agentic_ai_model_adaptat.Registry.Rules.{and_then_rule}
use agentic_ai_model_adaptat.Registry.Filesystem.{
  os_error, or_removed, write, unlocked, with_lock, ModelFile, VersionFile, Files, dict_set,
  dict_pop, registry_unavailable, access_with, access, or_missing, read_model, versions_of,
  raw_version, write_version, get_version, get_version_by_alias, set_version_tags, stored_at,
  is_ready, download_artifacts,
}

module _ {A : Type 0} where
  pub dict_get-dict_set : (k : ℕ) (v : A) (d : List (ℕ × A)) → dict_get k (dict_set k v d) ≡ some v
  dict_get-dict_set k v [] = rw (==_refl k) refl
  dict_get-dict_set k v ((j, u) ∷ d) = elim (Bool-cases (j == k)) [
    | inl same ↦ rw (same, ==_refl k) refl
    | inr other ↦ rw (other, other) (dict_get-dict_set k v d)
  ]

  pub dict_get-dict_set_other :
      (i k : ℕ) (v : A) (d : List (ℕ × A))
      → (k == i) ≡ false
      → dict_get i (dict_set k v d) ≡ dict_get i d
  dict_get-dict_set_other i k v [] apart = rw apart refl
  dict_get-dict_set_other i k v ((j, u) ∷ d) apart =
      let rest = dict_get-dict_set_other i k v d apart in
      elim (Bool-cases (j == k)) [
        | inl same ↦
            let away : (j == i) ≡ false = ap (λ x. x == i) (==→eq j k same) ∙ apart in
            rw (same, apart, away) refl
        | inr other ↦ elim (Bool-cases (j == i)) [
          | inl here ↦ rw (other, here) refl
          | inr away ↦ rw (other, away) rest
        ]
      ]

  pub dict_get-dict_pop : (k : ℕ) (d : List (ℕ × A)) → dict_get k (dict_pop k d) ≡ none
  dict_get-dict_pop k [] = refl
  dict_get-dict_pop k ((j, u) ∷ d) = elim (Bool-cases (j == k)) [
    | inl same ↦ rw same (dict_get-dict_pop k d)
    | inr other ↦ rw (other, other) (dict_get-dict_pop k d)
  ]

-- What an alias points at.
abbrev pub alias_in : Option ModelFile → ℕ → Option ℕ
alias_in none a = none
alias_in (some m) a = dict_get a m.aliases

abbrev pub alias_at : Files → (name alias : ℕ) → Option ℕ
alias_at f n a = alias_in (dict_get n f.models) a

-- A call that leaves the files of the models alone.
abbrev pub Reads : {T : Type 0} → Files → Try T × Files → Type 0
Reads f r = r.1.models ≡ f.models

-- Two calls one after another do what both do.
pub and_then-Reads :
    {T U : Type 0} (f : Files) (r : Try T × Files) (rest : T → Files → Try U × Files)
    → Reads f r
    → ((t : T) (g : Files) → Reads g (rest t g))
    → Reads f (and_then r rest)
and_then-Reads f r rest kept after =
    and_then_rule (Reads f) r rest (λ t _. after t r.1 ∙ kept) (λ _ _. kept)

access_with-Reads : (e : Exn) (bits : List Bool) (f : Files) → Reads f (access_with e bits f)
access_with-Reads e [] f = refl
access_with-Reads e (true ∷ bits) f = refl
access_with-Reads e (false ∷ bits) f = refl

pub access-Reads : (e : Exn) (f : Files) → Reads f (access e f)
unfolding access
access-Reads e f = access_with-Reads e f.faults f

pub or_missing-Reads : {T : Type 0} (o : Option T) (f : Files) → Reads f (or_missing o f)
or_missing-Reads none f = refl
or_missing-Reads (some t) f = refl

pub read_model-Reads : (n : ℕ) (f : Files) → Reads f (read_model n f)
unfolding read_model
read_model-Reads n f =
    and_then-Reads f (access registry_unavailable f) _ (access-Reads registry_unavailable f)
      (λ _ g. or_missing-Reads (dict_get n g.models) g)

pub raw_version-Reads : (n v : ℕ) (f : Files) → Reads f (raw_version n v f)
unfolding raw_version
raw_version-Reads n v f = and_then-Reads f (read_model n f) _ (read_model-Reads n f) (λ _ g.
    and_then-Reads g (access registry_unavailable g) _ (access-Reads registry_unavailable g)
      (λ _ h. or_missing-Reads (dict_get v (versions_of n h)) h))

pub get_version-Reads : (n v : ℕ) (f : Files) → Reads f (get_version n v f)
unfolding get_version
get_version-Reads n v f =
    and_then-Reads f (raw_version n v f) _ (raw_version-Reads n v f) (λ _ _. refl)

pub get_version_by_alias-Reads : (n a : ℕ) (f : Files) → Reads f (get_version_by_alias n a f)
unfolding get_version_by_alias
get_version_by_alias-Reads n a f =
    and_then-Reads f (read_model n f) _ (read_model-Reads n f)
      (λ m g. or_missing-Reads (dict_get a m.aliases) g)

or_removed-Reads : (f : Files) (r : Try (Unit {0}) × Files) → Reads f r → Reads f (or_removed r)
or_removed-Reads f (gives u, g) kept = kept
or_removed-Reads f (throws e, g) kept =
    and_then-Reads f (access os_error g) _ (access-Reads os_error g ∙ kept) (λ _ _. refl)

pub or_removed-access-Reads : (f : Files) → Reads f (or_removed (access registry_unavailable f))
or_removed-access-Reads f =
    or_removed-Reads f (access registry_unavailable f) (access-Reads registry_unavailable f)

write-Reads :
    (change : Files → Files) (f : Files)
    → ((g : Files) → (change g).models ≡ g.models)
    → Reads f (write change f)
unfolding write
write-Reads change f keeps =
    and_then-Reads f (access os_error f) _ (access-Reads os_error f) (λ _ g.
      and_then-Reads g (or_removed (access registry_unavailable g)) _ (or_removed-access-Reads g)
        (λ _ h. keeps h))

unlocked-Reads : (f : Files) (r : Try (Unit {0}) × Files) → Reads f r → Reads f (unlocked r)
unlocked-Reads f (t, g) kept =
    and_then-Reads f (access os_error g) _ (access-Reads os_error g ∙ kept) (λ _ _. refl)

with_lock-Reads :
    (body : Files → Try (Unit {0}) × Files) (f : Files)
    → ((g : Files) → Reads g (body g))
    → Reads f (with_lock body f)
unfolding with_lock
with_lock-Reads body f keeps =
    and_then-Reads f (access os_error f) _ (access-Reads os_error f) (λ _ g.
      and_then-Reads g (access registry_unavailable g) _ (access-Reads registry_unavailable g)
        (λ _ h.
          unlocked-Reads h (and_then (access os_error h) λ _ k. body k)
            (and_then-Reads h (access os_error h) _ (access-Reads os_error h) (λ _ k. keeps k))))

write_version-Reads : (n v : ℕ) (x : VersionFile) (f : Files) → Reads f (write_version n v x f)
unfolding write_version
write_version-Reads n v x f = write-Reads _ f (λ g. refl)

pub set_version_tags-Reads :
    (n v : ℕ) (tagged : VersionFile → VersionFile) (f : Files)
    → Reads f (set_version_tags n v tagged f)
unfolding set_version_tags
set_version_tags-Reads n v tagged f =
    and_then-Reads f (raw_version n v f) _ (raw_version-Reads n v f) (λ _ g.
      with_lock-Reads _ g (λ h.
        and_then-Reads h (raw_version n v h) _ (raw_version-Reads n v h)
          (λ x k. write_version-Reads n v (tagged x) k)))

stored_at-Reads : (k : ℕ) (f : Files) → Reads f (stored_at k f)
stored_at-Reads k f =
    and_then-Reads f (access registry_unavailable f) _ (access-Reads registry_unavailable f) (λ _ g.
      elim (Option-cases (dict_get k g.store)) [
        | inl gone ↦ rw gone refl
        | inr (a, there) ↦ rw there refl
      ])

pub download_artifacts-Reads : (n v : ℕ) (f : Files) → Reads f (download_artifacts n v f)
unfolding download_artifacts
download_artifacts-Reads n v f =
    and_then-Reads f (raw_version n v f) _ (raw_version-Reads n v f) (λ x g.
      elim (Bool-cases (is_ready x.status)) [
        | inl is ↦ rw is (stored_at-Reads x.artifact_key g)
        | inr not_yet ↦ rw not_yet refl
      ])
