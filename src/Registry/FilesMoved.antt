-- ===== src/Registry/FilesMoved.antt =====
-- About adapters/registry/filesystem.py: what `set_alias` and `delete_alias` do, failures
-- included.
use mathlib.Core.Path.{subst}
use agentic_ai_model_adaptat.Prelude.{
  ℕ, ◌≡◌, refl, sym, ◌∙◌, ap, ◌⊎◌, inl, inr, Bool, [], ◌∷◌, true, false, Option, none, some, List,
  Bool-cases, is_some, dict_get,
}
use agentic_ai_model_adaptat.Registry.Port.{Exn, is_adaptation, Try, gives, throws, and_then}
use agentic_ai_model_adaptat.Registry.Rules.{and_then_rule}
use agentic_ai_model_adaptat.Registry.Filesystem.{
  ModelFile, Files, dict_set, dict_pop, registry_unavailable, os_error, access_with, or_removed,
  write, unlocked, with_lock, access, or_missing, read_model, save_model, raw_version, set_alias,
  save_without, delete_locked, delete_alias,
}
use agentic_ai_model_adaptat.Registry.FilesKept.{
  dict_get-dict_set, dict_get-dict_pop, alias_in, access-Reads, or_removed-access-Reads,
  read_model-Reads, raw_version-Reads,
}

-- What a call does to the files of the models, `ms` before it: when it answers they became as `P` says.
-- When it raises they are as before, or the change was made and what it raises is no AdaptationError.
abbrev pub Happens :
    (List (ℕ × ModelFile) → Type 0) → List (ℕ × ModelFile) → Try (Unit {0}) × Files → Type 0
Happens P ms (gives u, f) = P f.models
Happens P ms (throws e, f) = (f.models ≡ ms) ⊎ (P f.models × (is_adaptation e ≡ false))

-- Reading first changes nothing of that.
and_then-Happens :
    {T : Type 0} (P : List (ℕ × ModelFile) → Type 0) (ms : List (ℕ × ModelFile)) (r : Try T × Files)
    (rest : T → Files → Try (Unit {0}) × Files)
    → r.1.models ≡ ms
    → ((t : T) → r.0 ≡ gives t → Happens P ms (rest t r.1))
    → Happens P ms (and_then r rest)
and_then-Happens P ms r rest kept after =
    and_then_rule (Happens P ms) r rest after (λ _ _. inl kept)

Happens-map :
    (P P' : List (ℕ × ModelFile) → Type 0) (ms ms' : List (ℕ × ModelFile))
    (r : Try (Unit {0}) × Files)
    → ms ≡ ms'
    → ((x : List (ℕ × ModelFile)) → P x → P' x)
    → Happens P ms r
    → Happens P' ms' r
Happens-map P P' ms ms' (gives u, f) same to is = to f.models is
Happens-map P P' ms ms' (throws e, f) same to (inl kept) = inl (kept ∙ same)
Happens-map P P' ms ms' (throws e, f) same to (inr (is, crashed)) = inr (to f.models is, crashed)

access_with-os_error :
    (bits : List Bool) (f : Files) (e : Exn)
    → (access_with os_error bits f).0 ≡ throws e
    → is_adaptation e ≡ false
access_with-os_error [] f e h = cc
access_with-os_error (true ∷ bits) f e h =
    let own : os_error ≡ e = cc in subst (λ x. is_adaptation x ≡ false) own refl
access_with-os_error (false ∷ bits) f e h = cc

access-os_error : (f : Files) (e : Exn) → (access os_error f).0 ≡ throws e → is_adaptation e ≡ false
unfolding access
access-os_error f = access_with-os_error f.faults f

-- The lock file is removed, or that raises an `OSError`.
unlocked-Happens :
    (P : List (ℕ × ModelFile) → Type 0) (ms : List (ℕ × ModelFile)) (r : Try (Unit {0}) × Files)
    → Happens P ms r
    → Happens P ms (unlocked r)
unlocked-Happens P ms (gives u, f) is =
    let back = sym (access-Reads os_error f) in
    and_then_rule (Happens P ms) (access os_error f) _ (λ _ _. subst P back is)
      (λ e raised. inr (subst P back is, access-os_error f e raised))
unlocked-Happens P ms (throws e, f) (inl kept) =
    let kept' = access-Reads os_error f ∙ kept in
    and_then_rule (Happens P ms) (access os_error f) _ (λ _ _. inl kept') (λ _ _. inl kept')
unlocked-Happens P ms (throws e, f) (inr (is, crashed)) =
    let back = sym (access-Reads os_error f) in
    and_then_rule (Happens P ms) (access os_error f) _ (λ _ _. inr (subst P back is, crashed))
      (λ e' raised. inr (subst P back is, access-os_error f e' raised))

with_lock-Happens :
    (P : List (ℕ × ModelFile) → Type 0) (body : Files → Try (Unit {0}) × Files) (f : Files)
    → ((g : Files) → g.models ≡ f.models → Happens P f.models (body g))
    → Happens P f.models (with_lock body f)
unfolding with_lock
with_lock-Happens P body f does =
    let f1 = (access os_error f).1 in
    let kept1 = access-Reads os_error f in
    let f2 = (access registry_unavailable f1).1 in
    let kept2 = access-Reads registry_unavailable f1 ∙ kept1 in
    let f3 = (access os_error f2).1 in
    let kept3 = access-Reads os_error f2 ∙ kept2 in
    and_then-Happens P f.models (access os_error f) _ kept1 (λ _ _.
      and_then-Happens P f.models (access registry_unavailable f1) _ kept2 (λ _ _.
        unlocked-Happens P f.models (and_then (access os_error f2) λ _ k. body k)
          (and_then-Happens P f.models (access os_error f2) _ kept3 (λ _ _. does f3 kept3))))

or_missing-found :
    {T : Type 0} (o : Option T) (f : Files) (t : T) → (or_missing o f).0 ≡ gives t → o ≡ some t
or_missing-found none f t h = cc
or_missing-found (some u) f t h = let same : u ≡ t = cc in ap some same

is_some-none : (o : Option ℕ) → is_some o ≡ false → o ≡ none
is_some-none none h = refl
is_some-none (some n) h = cc

-- The file that was read.
pub read_model-found :
    (n : ℕ) (f : Files) (m : ModelFile)
    → (read_model n f).0 ≡ gives m
    → dict_get n f.models ≡ some m
unfolding read_model
read_model-found n f =
    and_then_rule (λ r. (m : ModelFile) → r.0 ≡ gives m → dict_get n f.models ≡ some m)
      (access registry_unavailable f) _
      (λ _ _ m h.
        ap (dict_get n) (sym (access-Reads registry_unavailable f))
        ∙ or_missing-found (dict_get n (access registry_unavailable f).1.models)
            (access registry_unavailable f).1 m h)
      (λ e _ m h. cc)

save_model-Happens :
    (n : ℕ) (m : ModelFile) (f : Files)
    → Happens (λ ms. ms ≡ dict_set n m f.models) f.models (save_model n m f)
unfolding save_model write
save_model-Happens n m f =
    let P = λ (ms : List (ℕ × ModelFile)). ms ≡ dict_set n m f.models in
    let f1 = (access os_error f).1 in
    let kept1 = access-Reads os_error f in
    let kept2 = or_removed-access-Reads f1 ∙ kept1 in
    and_then-Happens P f.models (access os_error f) _ kept1 (λ _ _.
      and_then-Happens P f.models (or_removed (access registry_unavailable f1)) _ kept2
        (λ _ _. ap (dict_set n m) kept2))

-- The files of the models `ms`, with the alias set.
abbrev pub SetsAlias : ℕ → ℕ → ℕ → List (ℕ × ModelFile) → List (ℕ × ModelFile) → Type 0
SetsAlias n a v ms ms' =
    (m : ModelFile) × (dict_get n ms ≡ some m)
    × (ms' ≡ dict_set n (record m { aliases = dict_set a v m.aliases }) ms)

abbrev pub DropsAlias : ℕ → ℕ → List (ℕ × ModelFile) → Type 0
DropsAlias n a ms = alias_in (dict_get n ms) a ≡ none

-- Setting an alias that answers points it at the version and changes no other alias and no other
-- model. When it raises, the files of all models are as before, or that change was made and the
-- exception is no AdaptationError.
pub set_alias-Happens :
    (n a v : ℕ) (f : Files) → Happens (SetsAlias n a v f.models) f.models (set_alias n a v f)
unfolding set_alias
set_alias-Happens n a v f =
    let P = SetsAlias n a v f.models in
    let f1 = (raw_version n v f).1 in
    let kept1 = raw_version-Reads n v f in
    and_then-Happens P f.models (raw_version n v f) _ kept1 (λ _ _.
      Happens-map P P f1.models f.models _ kept1 (λ x is. is)
        (with_lock-Happens P _ f1 (λ f2 same2.
          let kept2 = same2 ∙ kept1 in
          let f3 = (read_model n f2).1 in
          let kept3 = read_model-Reads n f2 ∙ same2 in
          and_then-Happens P f1.models (read_model n f2) _ kept3 (λ m read.
            let new = record m { aliases = dict_set a v m.aliases } in
            Happens-map (λ x. x ≡ dict_set n new f3.models) P f3.models f1.models
              (save_model n new f3) kept3
              (λ x same. (
                m,
                ap (dict_get n) (sym kept2) ∙ read_model-found n f2 m read,
                same ∙ ap (dict_set n new) (kept3 ∙ kept1),
              ))
              (save_model-Happens n new f3)))))

save_without-Happens :
    (n a : ℕ) (m : ModelFile) (f : Files)
    → dict_get n f.models ≡ some m
    → Happens (DropsAlias n a) f.models (save_without n a m f)
save_without-Happens n a m f found =
    let new = record m { aliases = dict_pop a m.aliases } in
    elim (Bool-cases (is_some (dict_get a m.aliases))) [
      | inl there ↦ rw there (
          Happens-map (λ x. x ≡ dict_set n new f.models) (DropsAlias n a) f.models f.models
            (save_model n new f) refl
            (λ x same.
              ap (λ ms. alias_in (dict_get n ms) a) same
              ∙ ap (λ o. alias_in o a) (dict_get-dict_set n new f.models)
              ∙ dict_get-dict_pop a m.aliases)
            (save_model-Happens n new f))
      | inr gone ↦ rw gone (rw found (is_some-none (dict_get a m.aliases) gone))
    ]

delete_locked-Happens :
    (n a : ℕ) (f : Files) → Happens (DropsAlias n a) f.models (delete_locked n a f)
delete_locked-Happens n a f = with_lock-Happens (DropsAlias n a) _ f (λ f1 same1.
    let f2 = (read_model n f1).1 in
    let kept2 = read_model-Reads n f1 ∙ same1 in
    and_then-Happens (DropsAlias n a) f.models (read_model n f1) _ kept2 (λ m read.
      Happens-map (DropsAlias n a) (DropsAlias n a) f2.models f.models (save_without n a m f2) kept2
        (λ x is. is)
        (save_without-Happens n a m f2
          (ap (dict_get n) (read_model-Reads n f1) ∙ read_model-found n f1 m read))))

pub delete_alias-Happens :
    (n a : ℕ) (f : Files) → Happens (DropsAlias n a) f.models (delete_alias n a f)
unfolding delete_alias
delete_alias-Happens n a f =
    let f1 = (read_model n f).1 in
    let kept = read_model-Reads n f in
    and_then-Happens (DropsAlias n a) f.models (read_model n f) _ kept (λ m read.
      elim (Bool-cases (is_some (dict_get a m.aliases))) [
        | inl there ↦ rw there (
            Happens-map (DropsAlias n a) (DropsAlias n a) f1.models f.models (delete_locked n a f1)
              kept (λ x is. is) (delete_locked-Happens n a f1))
        | inr gone ↦
            let found = ap (dict_get n) kept ∙ read_model-found n f m read in
            rw gone (rw found (is_some-none (dict_get a m.aliases) gone))
      ])
