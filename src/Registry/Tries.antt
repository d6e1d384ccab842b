-- ===== src/Registry/Tries.antt =====
-- About the `try` body of `promote_version` of registry/promotion.py: what it has done when it
-- ends, and what it had done when it raises.
use agentic_ai_model_adaptat.Prelude.{
  ℕ, ◌≡◌, ◌∙◌, ◌⊎◌, inl, inr, true, false, Option, none, some, ap,
}
use agentic_ai_model_adaptat.Registry.Port.{
  Exn, is_adaptation, Try, gives, throws, VersionStatus, live, archived, Systems, Laws,
}
use agentic_ai_model_adaptat.Registry.Session.{
  Session, State, add_audit, merged, outside, commit_session, committed_by,
}
use agentic_ai_model_adaptat.Registry.Promote.{
  MoveArgs, Progress, serving_target, then_do, audit_of, archive, settle_move,
}
use agentic_ai_model_adaptat.Registry.Rules.{then_do_rule, Try-cases}

-- The part of the session that only a commit changes.
abbrev pub SameRows : Session → Session → Type 0
SameRows t s = (t.committed ≡ s.committed) × (t.models ≡ s.models)

-- Before the alias was moved.
abbrev pub IsUnmoved : Progress → Type 0
IsUnmoved p = (p.alias_moved ≡ false) × (p.rollout_started ≡ false) × (p.deployed ≡ false)

pub commit_session_rule :
    {W : Type 0} (S : Systems W) (Q : Try (Unit {0}) × State W → Type 0) (s : State W)
    → Q (gives tt, record { session = merged s.session; world = (S.commit s.world).1 })
    → ((e : Exn) → Q (throws e, record { session = s.session; world = (S.commit s.world).1 }))
    → Q (commit_session S s)
unfolding commit_session
commit_session_rule S Q s on_value on_error = elim (Try-cases ((S.commit s.world).0)) [
  | inl (t, e) ↦ rw (e, committed_by) on_value
  | inr (e, h) ↦ rw (h, committed_by) (on_error e)
]

module _ {W : Type 0} (S : Systems W) (L : Laws S) (m : MoveArgs) (name : ℕ) (previous : Option ℕ)
    (digest : ℕ) where
  -- The version is live and serves.
  abbrev pub IsLive : W → Type 0
  IsLive w = (L.points w name m.live_alias ≡ some m.version) × (L.serves w name ≡ some m.version)

  -- Setting the alias raised what is no AdaptationError.
  abbrev pub SetRaised : State W → Exn → Type 0
  SetRaised s e =
      (is_adaptation e ≡ false)
      × ((S.set_alias name m.live_alias m.version (serving_target S name (S.flush s.world).1).1).0
          ≡ throws e)

  abbrev pub Tries : State W → Try (Unit {0}) × (Progress × State W) → Type 0
  Tries s r =
      (r.0 ≡ gives tt
        → IsLive r.1.1.world
          × (r.1.1.session ≡ merged (add_audit (audit_of m previous digest true) s.session)))
      × ((e : Exn)
          → r.0 ≡ throws e
          → SameRows r.1.1.session s.session
            × ((r.1.0.alias_moved ≡ true)
                ⊎ (IsUnmoved r.1.0
                    × ((L.points r.1.1.world name m.live_alias ≡ L.points s.world name m.live_alias)
                        ⊎ SetRaised s e))))

  tag-IsLive :
      (v : ℕ) (t : VersionStatus) (w : W) → IsLive w → IsLive (S.set_status_tag name v t w).1
  tag-IsLive v t w lives = (
    L.status_tag_kept name v t name m.live_alias w ∙ lives.0,
    L.status_tag_serves name v t name w ∙ lives.1,
  )

  archive-IsLive : (old : Option ℕ) (w : W) → IsLive w → IsLive (archive S name old w).1
  archive-IsLive none w lives = lives
  archive-IsLive (some v) w lives = tag-IsLive v archived w lives

  commit-IsLive : (w : W) → IsLive w → IsLive (S.commit w).1
  commit-IsLive w lives =
      (L.commit_kept name m.live_alias w ∙ lives.0, L.commit_serves name w ∙ lives.1)

  -- A statement that raises after the alias was moved.
  pub raised-Tries :
      (e : Exn) (p : Progress) (s0 s : State W)
      → SameRows s.session s0.session
      → p.alias_moved ≡ true
      → Tries s0 (throws e, (p, s))
  raised-Tries e p s0 s same moved = (λ h. cc, λ _ _. (same, inl moved))

  pub settle_move-Tries :
      (p : Progress) (s0 s : State W)
      → s.session ≡ s0.session
      → p.alias_moved ≡ true
      → IsLive s.world
      → Tries s0 (settle_move S m name previous digest p s)
  unfolding settle_move
  settle_move-Tries p s0 s same moved lives =
      let rows : SameRows s.session s0.session =
        (ap (λ x. x.committed) same, ap (λ x. x.models) same) in
      let s1 = (outside (S.set_status_tag name m.version live) s).1 in
      let s2 = (outside (archive S name previous) s1).1 in
      let s3 : State W = record s2 {
        session = add_audit (audit_of m previous digest true) s2.session;
      } in
      let lives2 = archive-IsLive previous s1.world (tag-IsLive m.version live s.world lives) in
      then_do_rule (Tries s0) (outside (S.set_status_tag name m.version live) s) p _
        (λ _ _.
          then_do_rule (Tries s0) (outside (archive S name previous) s1) p _
            (λ _ _.
              commit_session_rule S (λ a. Tries s0 (then_do a p λ _ s4. (gives tt, (p, s4)))) s3
                (
                  λ _. (
                    commit-IsLive s2.world lives2,
                    ap (λ x. merged (add_audit (audit_of m previous digest true) x)) same,
                  ),
                  λ e h. cc,
                )
                (λ e. raised-Tries e p s0 _ rows moved))
            (λ e _. raised-Tries e p s0 s2 rows moved))
        (λ e _. raised-Tries e p s0 s1 rows moved)
