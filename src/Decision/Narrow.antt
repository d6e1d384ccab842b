-- ===== src/Decision/Narrow.antt =====
-- About decision/constraints.py: what the five tests of the narrowing leave open.
use agentic_ai_model_adaptat.Prelude.{◌≡◌, ◌⊎◌, Bool, true, false, not, ◌&&◌, arith}
use agentic_ai_model_adaptat.Decision.Constraints.{
  fine_tuning, full_retraining, rollback, no_action, insufficient_information,
  no_compatible_strategy, has, narrow,
}

module _ (psi nt ntr np nv : Bool) where
  pub narrow-fine_tuning :
      has fine_tuning (narrow psi nt ntr np nv).compatible ≡ true → (psi ≡ false) × (nt ≡ false)
  narrow-fine_tuning e = ground arith

  pub narrow-full_retraining :
      has full_retraining (narrow psi nt ntr np nv).compatible ≡ true → ntr ≡ false
  narrow-full_retraining e = ground arith

  pub narrow-rollback :
      has rollback (narrow psi nt ntr np nv).compatible ≡ true → (np ≡ false) × (nv ≡ false)
  narrow-rollback e = ground arith

  pub narrow-candidates :
      let ss = (narrow psi nt ntr np nv).compatible in
      (has no_action ss ≡ true)
      × (has insufficient_information ss ≡ false)
      × (has no_compatible_strategy ss ≡ false)
  narrow-candidates = ground arith

pub no_earlier : (a b : Bool) → (not a && not b) ≡ false → (a ≡ true) ⊎ (b ≡ true)
no_earlier a b e = ground arith
