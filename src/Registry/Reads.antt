-- ===== src/Registry/Reads.antt =====
-- About the reads of registry/promotion.py: `current_live` and `verify_version_artifact`.
use agentic_ai_model_adaptat.Prelude.{
  ℕ, ◌≡◌, refl, ◌∙◌, ap, ◌⊎◌, inl, inr, true, Option, none, some, Bool-cases, Option-cases, ltb,
  ◌==◌,
}
use agentic_ai_model_adaptat.Registry.Port.{
  Exn, model_not_found, conflict, artifact_error, promotion_error, deployment_error, other_error,
  crash, out_of_rounds, is_not_found, Try, gives, throws, ModelVersion, Artifact, Systems, Laws,
}
use agentic_ai_model_adaptat.Registry.Promote.{
  current_live, absent_as_none, verify_version_artifact, check_size, check_digest,
}
use agentic_ai_model_adaptat.Registry.Rules.{and_then_rule}
use agentic_ai_model_adaptat.Registry.Attempts.{absent_as_none_same}

pub is_not_found→eq : (e : Exn) → is_not_found e ≡ true → e ≡ model_not_found
is_not_found→eq model_not_found h = refl
is_not_found→eq conflict h = cc
is_not_found→eq artifact_error h = cc
is_not_found→eq promotion_error h = cc
is_not_found→eq deployment_error h = cc
is_not_found→eq (other_error n) h = cc
is_not_found→eq (crash n) h = cc
is_not_found→eq out_of_rounds h = cc

module _ {W : Type 0} (S : Systems W) (L : Laws S) where
  pub current_live-points :
      (name alias n b : ℕ) (w : W) → L.points (current_live S name alias w).1 n b ≡ L.points w n b
  unfolding current_live
  current_live-points name alias n b w =
      ap (λ x. L.points x n b) (absent_as_none_same S (S.get_version_by_alias name alias w))
      ∙ L.alias_kept name alias n b w

  absent_as_none-inverse :
      (r : Try ℕ × W) (v : Option ℕ)
      → (absent_as_none S r).0 ≡ gives v
      → ((n : ℕ) × (r.0 ≡ gives n) × (some n ≡ v)) ⊎ ((r.0 ≡ throws model_not_found) × (none ≡ v))
  absent_as_none-inverse (gives n, w) v given = inl (n, refl, cc)
  absent_as_none-inverse (throws e, w) v given = elim (Bool-cases (is_not_found e)) [
    | inl absent ↦
        let given' = rw (absent, absent_as_none) at given in
        inr (ap throws (is_not_found→eq e absent), cc)
    | inr other ↦ let given' = rw (other, absent_as_none) at given in cc
  ]

  -- What `current_live` answers is what the alias points at.
  pub current_live-live :
      (name alias : ℕ) (w : W) (v : Option ℕ)
      → (current_live S name alias w).0 ≡ gives v
      → L.points w name alias ≡ v
  unfolding current_live
  current_live-live name alias w v given =
      elim (absent_as_none-inverse (S.get_version_by_alias name alias w) v given) [
        | inl (n, read, same) ↦ L.alias_read name alias n w read ∙ same
        | inr (missing, same) ↦ L.alias_missing name alias w missing ∙ same
      ]

  check_size-same : (a : Artifact) (max_bytes : ℕ) (w : W) → (check_size S a max_bytes w).1 ≡ w
  check_size-same a max_bytes w = elim (Bool-cases (ltb max_bytes a.size)) [
    | inl larger ↦ rw larger refl
    | inr fits ↦ rw fits refl
  ]

  check_digest-points :
      (name version : ℕ) (info : ModelVersion) (a : Artifact) (n b : ℕ) (w : W)
      → L.points (check_digest S name version info a w).1 n b ≡ L.points w n b
  check_digest-points name version info a n b w = elim (Option-cases info.checksum) [
    | inl untagged ↦ rw untagged (
        and_then_rule (λ r. L.points r.1 n b ≡ L.points w n b)
          (S.set_checksum_tag name version a.sha256 w) _
          (λ _ _. L.checksum_tag_kept name version a.sha256 n b w)
          (λ _ _. L.checksum_tag_kept name version a.sha256 n b w))
    | inr (expected, tagged) ↦ elim (Bool-cases (a.sha256 == expected)) [
      | inl same ↦ rw (tagged, same) refl
      | inr other ↦ rw (tagged, other) refl
    ]
  ]

  pub verify_version_artifact-points :
      (name version max_bytes n b : ℕ) (w : W)
      → L.points (verify_version_artifact S name version max_bytes w).1 n b ≡ L.points w n b
  unfolding verify_version_artifact
  verify_version_artifact-points name version max_bytes n b w =
      let Kept = λ (r : Try (Artifact × ℕ) × W). L.points r.1 n b ≡ L.points w n b in
      let kept1 = L.version_kept name version n b w in
      let w1 = (S.get_version name version w).1 in
      let kept2 = L.download_kept name version n b w1 ∙ kept1 in
      let w2 = (S.download_artifacts name version w1).1 in
      and_then_rule Kept (S.get_version name version w) _
        (λ info _.
          and_then_rule Kept (S.download_artifacts name version w1) _
            (λ a _.
              let kept3 = ap (λ x. L.points x n b) (check_size-same a max_bytes w2) ∙ kept2 in
              and_then_rule Kept (check_size S a max_bytes w2) _
                (λ _ _.
                  check_digest-points name version info a n b (check_size S a max_bytes w2).1
                  ∙ kept3)
                (λ _ _. kept3))
            (λ _ _. kept2))
        (λ _ _. kept1)
