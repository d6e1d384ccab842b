-- ===== src/Registry/Desk.antt =====
-- Systems of a move for the examples: one alias that also serves, versions up to 9, of which 5 never
-- becomes ready and 7 is refused, and a database that fails where `db_faults` says so.
use agentic_ai_model_adaptat.Prelude.{
  ℕ, ◌+◌, ◌≡◌, refl, ap, inl, inr, Bool, true, false, not, Option, none, some, List, [], ◌∷◌, leb,
  ◌==◌, opt_eq, if◌then◌else◌, Bool-cases, arith,
}
use agentic_ai_model_adaptat.Registry.Port.{
  Exn, model_not_found, deployment_error, crash, is_adaptation, Try, gives, throws, Call,
  DeploymentState, Systems, Laws, RestoreAdapts,
}
use agentic_ai_model_adaptat.Registry.Deployer.{version_of}

pub record Desk : Type 0 where
  pub live : Option ℕ
  pub db_faults : List Bool
  pub now : ℕ

abbrev read_alias : Option ℕ → Try ℕ
read_alias none = throws model_not_found
read_alias (some v) = gives v

abbrev pub point_at : ℕ → Call Desk (Unit {0})
point_at v w =
    if leb v 9 then (gives tt, record w { live = some v }) else (throws model_not_found, w)

abbrev desk_database : List Bool → Call Desk (Unit {0})
desk_database [] w = (gives tt, w)
desk_database (true ∷ rest) w = (throws (crash 0), record w { db_faults = rest })
desk_database (false ∷ rest) w = (gives tt, record w { db_faults = rest })

abbrev pub state_of : Desk → DeploymentState
state_of w = record { version = w.live; ready = not (opt_eq w.live 5); failed = opt_eq w.live 5 }

abbrev pub desk_systems : Systems Desk
desk_systems = record {
  get_version = λ n v w. (
    if leb v 9 then gives (record { source = none; checksum = some v }) else throws model_not_found,
    w,
  );
  get_version_by_alias = λ n a w. (read_alias w.live, w);
  set_alias = λ n a v w. point_at v w;
  delete_alias = λ n a w. (gives tt, record w { live = none });
  set_status_tag = λ n v t w. (gives tt, w);
  set_checksum_tag = λ n v h w. (gives tt, w);
  download_artifacts = λ n v w. (gives (record { path = v; size = v; sha256 = v }), w);
  status = λ n w. (gives (state_of w), w);
  deploy = λ t w. (if t.version == 7 then throws deployment_error else gives tt, w);
  restore = λ n p w. (gives tt, record w { live = version_of p });
  clock = λ w. w.now;
  sleep = λ s w. record w { now = w.now + s };
  load = λ a k w. (gives tt, w);
  flush = λ w. desk_database w.db_faults w;
  commit = λ w. desk_database w.db_faults w;
}

pub read_alias-some : (o : Option ℕ) (v : ℕ) → read_alias o ≡ gives v → o ≡ some v
read_alias-some none v h = cc
read_alias-some (some u) v h = let same : u ≡ v = cc in rw same refl

pub read_alias-none : (o : Option ℕ) → read_alias o ≡ throws model_not_found → o ≡ none
read_alias-none none h = refl
read_alias-none (some u) h = cc

pub point_at-set : (v : ℕ) (w : Desk) → (point_at v w).0 ≡ gives tt → (point_at v w).1.live ≡ some v
point_at-set v w given = elim (Bool-cases (leb v 9)) [
  | inl there ↦ rw there refl
  | inr gone ↦ let given' = rw gone at given in cc
]

pub point_at-unset :
    (v : ℕ) (e : Exn) (w : Desk) → (point_at v w).0 ≡ throws e → (point_at v w).1.live ≡ w.live
point_at-unset v e w raised = elim (Bool-cases (leb v 9)) [
  | inl there ↦ let raised' = rw there at raised in cc
  | inr gone ↦ rw gone refl
]

pub desk_database-live : (bits : List Bool) (w : Desk) → (desk_database bits w).1.live ≡ w.live
desk_database-live [] w = refl
desk_database-live (true ∷ rest) w = refl
desk_database-live (false ∷ rest) w = refl

pub state_of-version :
    (w : Desk) (s : DeploymentState)
    → ◌≡◌ {A = Try DeploymentState} (gives (state_of w)) (gives s)
    → w.live ≡ s.version
state_of-version w s given = let same : state_of w ≡ s = cc in ap (λ x. x.version) same

pub no_raise :
    {T : Type 0} (t : T) (e : Exn) → ◌≡◌ {A = Try T} (gives t) (throws e) → is_adaptation e ≡ true
no_raise t e h = cc

abbrev pub desk_laws : Laws desk_systems
desk_laws = record {
  points = λ w n a. w.live;
  alias_read = λ n a v w. read_alias-some w.live v;
  alias_missing = λ n a w. read_alias-none w.live;
  alias_kept = λ n a m b w. refl;
  alias_set = λ n a v w. point_at-set v w;
  alias_unset = λ n a v e w raised _. point_at-unset v e w raised;
  alias_deleted = λ n a w given. refl;
  version_kept = λ n v m b w. refl;
  status_tag_kept = λ n v t m b w. refl;
  checksum_tag_kept = λ n v h m b w. refl;
  download_kept = λ n v m b w. refl;
  status_kept = λ n m b w. refl;
  sleep_kept = λ s m b w. refl;
  flush_kept = λ m b w. desk_database-live w.db_faults w;
  commit_kept = λ m b w. desk_database-live w.db_faults w;
  load_kept = λ a k m b w. refl;
  deploy_kept = λ t b w given. inl refl;
  serves = λ w n. w.live;
  status_read = λ n s w given is. state_of-version w s given;
  status_tag_serves = λ n v t m w. refl;
  commit_serves = λ m w. desk_database-live w.db_faults w;
  status_raises = λ n e w h. no_raise (state_of w) e h;
  status_clock = λ n w. omega arith;
  sleep_clock = λ s w. omega arith;
}

pub desk_restores : RestoreAdapts desk_systems
desk_restores n p e w h = no_raise tt e h
