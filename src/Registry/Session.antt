-- ===== src/Registry/Session.antt =====
-- db/models.py `ModelPromotion` and the session that a move uses: the committed rows, newest first,
-- and what the open transaction has added.
use agentic_ai_model_adaptat.Prelude.{
  ℕ, suc, ◌==◌, Bool, true, false, ◌&&◌, Option, none, some, List, [], ◌∷◌, ◌++◌, if◌then◌else◌,
  opt_eq, dict_get,
}
use agentic_ai_model_adaptat.Registry.Port.{model_not_found, Try, gives, throws, Call, Systems}

pub data PromotionKind : Type 0 where
  promote_candidate reuse rollback : PromotionKind

pub data PromotionStatus : Type 0 where
  applied no_change : PromotionStatus

abbrev pub is_applied : PromotionStatus → Bool
is_applied applied = true
is_applied no_change = false

pub record ModelPromotion : Type 0 where
  pub promotion_id : ℕ
  pub model_id : ℕ
  pub kind : PromotionKind
  pub from_version : Option ℕ
  pub to_version : ℕ
  pub status : PromotionStatus
  pub reason : ℕ
  pub actor : ℕ
  pub job_id : Option ℕ
  pub idempotency_key : Option ℕ
  pub artifact_sha256 : Option ℕ

-- `ModelMetadata`, as far as a move reads it.
pub record ModelMeta : Type 0 where
  pub registered_name : ℕ
  pub framework : Option ℕ

-- The audit row of a move: `succeeded` is its status.
pub record MoveAudit : Type 0 where
  pub kind : PromotionKind
  pub model_id : ℕ
  pub version : ℕ
  pub previous : Option ℕ
  pub digest : ℕ
  pub succeeded : Bool

pub record Tables : Type 0 where
  pub promotions : List ModelPromotion
  pub audits : List MoveAudit

pub record Session : Type 0 where
  pub committed : Tables
  pub added : Tables
  pub models : List (ℕ × ModelMeta)

-- The session and what is outside.
pub record State (W : Type 0) : Type 0 where
  pub session : Session
  pub world : W

-- The primary key of the next row.
abbrev pub next_id : List ModelPromotion → ℕ
next_id [] = 1
next_id (p ∷ ps) = suc p.promotion_id

abbrev pub add_row : ModelPromotion → Session → Session
add_row p s = record s { added = record s.added { promotions = p ∷ s.added.promotions } }

abbrev pub add_audit : MoveAudit → Session → Session
add_audit a s = record s { added = record s.added { audits = a ∷ s.added.audits } }

abbrev pub nothing_added : Tables
nothing_added = record { promotions = []; audits = [] }

-- `session.rollback()`
abbrev pub rollback_session : Session → Session
rollback_session s = record s { added = nothing_added }

abbrev pub merged : Session → Session
merged s = record s {
  committed = record {
    promotions = s.added.promotions ++ s.committed.promotions;
    audits = s.added.audits ++ s.committed.audits;
  };
  added = nothing_added;
}

-- The row whose key it is; a key that is missing or empty is not looked up.
abbrev pub row_of_key : ℕ → List ModelPromotion → Option ModelPromotion
row_of_key k [] = none
row_of_key k (p ∷ ps) = if opt_eq p.idempotency_key k then some p else row_of_key k ps

abbrev pub earlier : Option ℕ → List ModelPromotion → Option ModelPromotion
earlier none ps = none
earlier (some k) ps = if k == 0 then none else row_of_key k ps

unfoldable pub last_applied_promotion : (model_id : ℕ) → List ModelPromotion → Option ModelPromotion
last_applied_promotion m [] = none
last_applied_promotion m (p ∷ ps) =
    let older = last_applied_promotion m ps in
    if p.model_id == m && is_applied p.status then some p else older

pub record PromotionResult : Type 0 where
  pub model_id : ℕ
  pub kind : PromotionKind
  pub from_version : Option ℕ
  pub to_version : ℕ
  pub status : PromotionStatus
  pub promotion_id : ℕ
  pub artifact_sha256 : Option ℕ
  pub reason : ℕ

abbrev pub promotion_result : ModelPromotion → PromotionResult
promotion_result p = record {
  model_id = p.model_id;
  kind = p.kind;
  from_version = p.from_version;
  to_version = p.to_version;
  status = p.status;
  promotion_id = p.promotion_id;
  artifact_sha256 = p.artifact_sha256;
  reason = p.reason;
}

-- What a model id is registered as.
abbrev pub model_meta : ℕ → Session → Try ModelMeta
model_meta m s = elim (dict_get m s.models) [
  | none ↦ throws model_not_found
  | some meta ↦ gives meta
]

-- A call of what is outside, from a state with a session.
abbrev pub outside : {W T : Type 0} → Call W T → State W → Try T × State W
outside call s = let r = call s.world in (r.0, record s { world = r.1 })

-- `session.commit()`: what was added is kept when the database takes it.
abbrev pub committed_by : {W : Type 0} → Try (Unit {0}) × State W → Try (Unit {0}) × State W
committed_by (gives u, s) = (gives u, record s { session = merged s.session })
committed_by (throws e, s) = (throws e, s)

unfoldable pub commit_session : {W : Type 0} → Systems W → State W → Try (Unit {0}) × State W
commit_session S s = committed_by (outside S.commit s)
