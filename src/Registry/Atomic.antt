-- ===== src/Registry/Atomic.antt =====
-- About `promote_version` of registry/promotion.py: whatever fails, LIVE and the recorded moves change
-- together.
use mathlib.Core.Path.{subst}
use agentic_ai_model_adaptat.Prelude.{
  ℕ, ◌<◌, ◌≡◌, refl, sym, ◌∙◌, inl, inr, Option, some, [], Bool-cases, Option-cases,
}
use agentic_ai_model_adaptat.Registry.Port.{conflict, gives, Systems, Laws}
use agentic_ai_model_adaptat.Registry.Deployer.{same_version, Deployer}
use agentic_ai_model_adaptat.Registry.Session.{
  ModelMeta, State, add_row, earlier, model_meta, outside,
}
use agentic_ai_model_adaptat.Registry.Promote.{
  MoveArgs, current_live, verify_version_artifact, try_move,
}
use agentic_ai_model_adaptat.Registry.Moves.{
  applied_row, live_moved, move_live, promote_new, promote_version,
}
use agentic_ai_model_adaptat.Registry.Rules.{and_then_rule, same_version→eq}
use agentic_ai_model_adaptat.Registry.Reads.{
  current_live-points, current_live-live, verify_version_artifact-points,
}
use agentic_ai_model_adaptat.Registry.Attempts.{target_of, try_move-Tries}
use agentic_ai_model_adaptat.Registry.Contract.{
  TornBy, repeats, Refines, refused-Refines, keep_live-Refines, handled-Refines,
}

module _ {W : Type 0} (S : Systems W) (L : Laws S) (d : Deployer) (pos : 0 < d.poll_s)
    (m : MoveArgs) (meta : ModelMeta) where
  -- The world in which the `try` body starts, when the move goes on from `w`.
  abbrev pub checked_world : W → W
  checked_world w =
      (S.get_version meta.registered_name m.version
        (verify_version_artifact S meta.registered_name m.version m.max_bytes w).1).1

  -- The state in which the `try` body starts.
  abbrev pub try_from : Option ℕ → (digest : ℕ) → State W → W → State W
  try_from previous digest s w = record {
    session = add_row (applied_row m previous digest s.session) s.session;
    world = checked_world w;
  }

  -- The try of a move that goes on from `w` is torn.
  abbrev pub TornAt : Option ℕ → State W → W → Type 0
  TornAt previous s w =
      (digest : ℕ) × (source : Option ℕ) × (dir : Option ℕ) × TornBy S L d pos m
        meta.registered_name previous digest (try_from previous digest s w)
        (try_move S d m meta.registered_name previous digest
          (target_of S L d pos m meta.registered_name previous digest source dir)
          (try_from previous digest s w))

  -- The try of the move is torn.
  abbrev pub Torn : State W → Type 0
  Torn s =
      TornAt (L.points s.world meta.registered_name m.live_alias) s
        (current_live S meta.registered_name m.live_alias s.world).1

  move_live-Refines :
      (previous : Option ℕ) (s : State W) (w : W)
      → s.session.added.promotions ≡ []
      → L.points w meta.registered_name m.live_alias ≡ previous
      → L.points s.world meta.registered_name m.live_alias ≡ previous
      → Refines S L d pos m meta.registered_name
          (TornAt previous s w)
          s
          (move_live S d m meta previous (record s { world = w }))
  unfolding move_live
  move_live-Refines previous s w clean there before =
      let X = TornAt previous s w in
      let same = sym before in
      let w1 = (verify_version_artifact S meta.registered_name m.version m.max_bytes w).1 in
      let there1 =
        verify_version_artifact-points S L meta.registered_name m.version m.max_bytes
          meta.registered_name m.live_alias w
        ∙ there in
      let w2 = (S.get_version meta.registered_name m.version w1).1 in
      let there2 =
        L.version_kept meta.registered_name m.version meta.registered_name m.live_alias w1
        ∙ there1 in
      (and_then_rule (Refines S L d pos m meta.registered_name X s)
        (outside (verify_version_artifact S meta.registered_name m.version m.max_bytes)
          (record s { world = w }))
        _
        (λ checked _.
          and_then_rule (Refines S L d pos m meta.registered_name X s)
            (outside (S.get_version meta.registered_name m.version) (record s { world = w1 })) _
            (λ info _.
              let row = applied_row m previous (checked.1) s.session in
              handled-Refines S L d pos m meta.registered_name X previous (checked.1) row s w2 _
                (refl, refl, refl, refl) clean there2 before
                (try_move-Tries S L d pos m meta.registered_name previous (checked.1) info.source
                  (some ((checked.0).path))
                  (record { session = add_row row s.session; world = w2 }))
                (λ torn. (checked.1, info.source, some ((checked.0).path), torn)))
            (λ e _.
              refused-Refines S L d pos m meta.registered_name X e s (record s { world = w2 }) refl
                (there2 ∙ same)))
        (λ e _.
          refused-Refines S L d pos m meta.registered_name X e s (record s { world = w1 }) refl
            (there1 ∙ same)))

  promote_new-Refines :
      (live_text : ℕ) (s : State W)
      → model_meta m.model_id s.session ≡ gives meta
      → s.session.added.promotions ≡ []
      → Refines S L d pos m meta.registered_name (Torn s) s (promote_new S d m live_text s)
  unfolding promote_new
  promote_new-Refines live_text s onboarded clean =
      let X = Torn s in
      let w = (current_live S meta.registered_name m.live_alias s.world).1 in
      let kept =
        current_live-points S L meta.registered_name m.live_alias meta.registered_name m.live_alias
          s.world in
      rw onboarded (
        and_then_rule (Refines S L d pos m meta.registered_name X s)
          (outside (current_live S meta.registered_name m.live_alias) s) _
          (λ previous read.
            let before =
              current_live-live S L meta.registered_name m.live_alias s.world previous read in
            elim (Bool-cases (live_moved m.expected_live previous)) [
              | inl moved ↦ rw moved (
                  refused-Refines S L d pos m meta.registered_name X conflict s
                    (record s { world = w }) refl kept)
              | inr planned ↦ elim (Bool-cases (same_version previous (some m.version))) [
                | inl already ↦
                    rw (planned, already)
                      (keep_live-Refines S L d pos m meta.registered_name X previous live_text s w
                        clean (kept ∙ before) before
                        (same_version→eq previous (some m.version) already))
                | inr other ↦
                    rw (planned, other)
                      (subst
                        (λ x.
                          Refines S L d pos m meta.registered_name (TornAt x s w) s
                            (move_live S d m meta previous (record s { world = w })))
                        (sym before) (move_live-Refines previous s w clean (kept ∙ before) before))
              ]
            ])
          (λ e _.
            refused-Refines S L d pos m meta.registered_name X e s (record s { world = w }) refl
              kept))

  -- A move of the live alias of an onboarded model refines the contract of a move in one step:
  -- whatever fails on the way and whatever the systems answer, LIVE and the recorded moves change
  -- together or not at all, and the answer tells which. The one exception is a torn move, which
  -- raises and records nothing: its try failed, and in that run the revert raised, or putting LIVE back
  -- raised, or setting it raised what is no AdaptationError.
  pub promote_version-Refines :
      (live_text : ℕ) (s : State W)
      → model_meta m.model_id s.session ≡ gives meta
      → s.session.added.promotions ≡ []
      → Refines S L d pos m meta.registered_name (Torn s) s (promote_version S d m live_text s)
  unfolding promote_version
  promote_version-Refines live_text s onboarded clean =
      elim (Option-cases (earlier m.idempotency_key s.session.committed.promotions)) [
        | inl new ↦ rw (new, promote_version) (promote_new-Refines live_text s onboarded clean)
        | inr (p, found) ↦ rw (found, promote_version) (inl (repeats p found refl refl), refl)
      ]
