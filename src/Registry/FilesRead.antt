-- ===== src/Registry/FilesRead.antt =====
-- About adapters/registry/filesystem.py: what its reads of an alias answer.
use mathlib.Core.Path.{subst}
use agentic_ai_model_adaptat.Prelude.{
  ℕ, ◌≡◌, refl, sym, ◌∙◌, ap, ◌⊎◌, inl, inr, Bool, true, false, Option, none, some, List, [], ◌∷◌,
  dict_get,
}
use agentic_ai_model_adaptat.Registry.Port.{Exn, model_not_found, Try, gives, throws}
use agentic_ai_model_adaptat.Registry.Rules.{and_then_rule}
use agentic_ai_model_adaptat.Registry.Filesystem.{
  Files, registry_unavailable, access_with, access, or_missing, read_model, get_version_by_alias,
}
use agentic_ai_model_adaptat.Registry.FilesKept.{alias_in, alias_at, Reads, access-Reads}
use agentic_ai_model_adaptat.Registry.FilesMoved.{read_model-found}

-- Calls that leave the files of the models alone leave the aliases alone.
pub alias_at-Reads :
    {T : Type 0} (f : Files) (r : Try T × Files) (n a : ℕ)
    → Reads f r
    → alias_at r.1 n a ≡ alias_at f n a
alias_at-Reads f r n a same = ap (λ ms. alias_in (dict_get n ms) a) same

-- What a read of an alias answers.
abbrev pub AnswersAlias : Option ℕ → Try ℕ × Files → Type 0
AnswersAlias o r =
    ((v : ℕ) → r.0 ≡ gives v → o ≡ some v) × (r.0 ≡ throws model_not_found → o ≡ none)

or_missing-AnswersAlias : (o : Option ℕ) (f : Files) → AnswersAlias o (or_missing o f)
or_missing-AnswersAlias none f = (λ v h. cc, λ h. refl)
or_missing-AnswersAlias (some u) f = (λ v h. let same : u ≡ v = cc in ap some same, λ h. cc)

access_with-raised :
    (bits : List Bool) (f : Files) (e : Exn)
    → (access_with registry_unavailable bits f).0 ≡ throws e
    → e ≡ registry_unavailable
access_with-raised [] f e h = cc
access_with-raised (true ∷ bits) f e h = cc
access_with-raised (false ∷ bits) f e h = cc

or_missing-missing :
    {T : Type 0} (o : Option T) (f : Files) → (or_missing o f).0 ≡ throws model_not_found → o ≡ none
or_missing-missing none f h = refl
or_missing-missing (some t) f h = cc

or_missing-raised :
    {T : Type 0} (o : Option T) (f : Files) (e : Exn)
    → (or_missing o f).0 ≡ throws e
    → (e ≡ model_not_found) ⊎ (e ≡ registry_unavailable)
or_missing-raised none f e h = inl cc
or_missing-raised (some t) f e h = cc

read_model-missing :
    (n : ℕ) (f : Files) → (read_model n f).0 ≡ throws model_not_found → dict_get n f.models ≡ none
unfolding read_model access
read_model-missing n f =
    and_then_rule (λ r. r.0 ≡ throws model_not_found → dict_get n f.models ≡ none)
      (access registry_unavailable f) _
      (λ _ _ h.
        ap (dict_get n) (sym (access-Reads registry_unavailable f))
        ∙ or_missing-missing (dict_get n (access registry_unavailable f).1.models)
            (access registry_unavailable f).1 h)
      (λ e raised h. let known = access_with-raised f.faults f e raised in cc)

pub get_version_by_alias-AnswersAlias :
    (n a : ℕ) (f : Files) → AnswersAlias (alias_at f n a) (get_version_by_alias n a f)
unfolding get_version_by_alias
get_version_by_alias-AnswersAlias n a f =
    let f1 = (read_model n f).1 in
    and_then_rule (AnswersAlias (alias_at f n a)) (read_model n f) _
      (λ m read.
        subst (λ o. AnswersAlias (alias_in o a) (or_missing (dict_get a m.aliases) f1))
          (sym (read_model-found n f m read)) (or_missing-AnswersAlias (dict_get a m.aliases) f1))
      (λ e raised. (
        λ v h. cc,
        λ h.
            let absent : e ≡ model_not_found = cc in
            ap (λ o. alias_in o a) (read_model-missing n f (raised ∙ ap throws absent)),
      ))

-- What a read of the file of a model raises.
read_model-raised :
    (n : ℕ) (f : Files) (e : Exn)
    → (read_model n f).0 ≡ throws e
    → (e ≡ model_not_found) ⊎ (e ≡ registry_unavailable)
unfolding read_model access
read_model-raised n f =
    and_then_rule
      (λ r. (e : Exn) → r.0 ≡ throws e → (e ≡ model_not_found) ⊎ (e ≡ registry_unavailable))
      (access registry_unavailable f) _
      (λ _ _.
        or_missing-raised (dict_get n (access registry_unavailable f).1.models)
          (access registry_unavailable f).1)
      (λ e raised e' h.
        let known = access_with-raised f.faults f e raised in
        let own : e ≡ e' = cc in inr (sym own ∙ known))

pub get_version_by_alias-raised :
    (n a : ℕ) (f : Files) (e : Exn)
    → (get_version_by_alias n a f).0 ≡ throws e
    → (e ≡ model_not_found) ⊎ (e ≡ registry_unavailable)
unfolding get_version_by_alias
get_version_by_alias-raised n a f =
    and_then_rule
      (λ r. (e : Exn) → r.0 ≡ throws e → (e ≡ model_not_found) ⊎ (e ≡ registry_unavailable))
      (read_model n f) _ (λ m _. or_missing-raised (dict_get a m.aliases) (read_model n f).1)
      (λ e raised e' h.
        let own : e ≡ e' = cc in
        subst (λ x. (x ≡ model_not_found) ⊎ (x ≡ registry_unavailable)) own
          (read_model-raised n f e raised))

-- Reading takes no time.
abbrev SameTime : {T : Type 0} → Files → Try T × Files → Type 0
SameTime f r = r.1.now ≡ f.now

access_with-SameTime :
    (bits : List Bool) (f : Files) → SameTime f (access_with registry_unavailable bits f)
access_with-SameTime [] f = refl
access_with-SameTime (true ∷ bits) f = refl
access_with-SameTime (false ∷ bits) f = refl

or_missing-SameTime : {T : Type 0} (o : Option T) (f : Files) → SameTime f (or_missing o f)
or_missing-SameTime none f = refl
or_missing-SameTime (some t) f = refl

read_model-SameTime : (n : ℕ) (f : Files) → SameTime f (read_model n f)
unfolding read_model access
read_model-SameTime n f =
    let kept = access_with-SameTime f.faults f in
    and_then_rule (SameTime f) (access registry_unavailable f) _
      (λ _ _.
        or_missing-SameTime (dict_get n (access registry_unavailable f).1.models)
          (access registry_unavailable f).1
        ∙ kept)
      (λ _ _. kept)

pub get_version_by_alias-SameTime : (n a : ℕ) (f : Files) → SameTime f (get_version_by_alias n a f)
unfolding get_version_by_alias
get_version_by_alias-SameTime n a f =
    and_then_rule (SameTime f) (read_model n f) _
      (λ m _.
        or_missing-SameTime (dict_get a m.aliases) (read_model n f).1 ∙ read_model-SameTime n f)
      (λ _ _. read_model-SameTime n f)
