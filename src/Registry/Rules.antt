-- ===== src/Registry/Rules.antt =====
-- About the statements of registry/ one after another: the rule of a call and what follows it.
use agentic_ai_model_adaptat.Prelude.{
  ℕ, ◌≡◌, refl, sym, ◌⊎◌, inl, inr, true, Option, none, some, ==→eq,
}
use agentic_ai_model_adaptat.Registry.Port.{Exn, is_adaptation, Try, gives, throws, and_then}
use agentic_ai_model_adaptat.Registry.Deployer.{same_version}
use agentic_ai_model_adaptat.Registry.Session.{State}
use agentic_ai_model_adaptat.Registry.Promote.{Progress, then_do}

pub and_then_rule :
    {W T U : Type 0} (Q : Try U × W → Type 0) (p : Try T × W) (rest : T → W → Try U × W)
    → ((t : T) → p.0 ≡ gives t → Q (rest t p.1))
    → ((e : Exn) → p.0 ≡ throws e → Q (throws e, p.1))
    → Q (and_then p rest)
and_then_rule Q (gives t, w) rest on_value on_error = on_value t refl
and_then_rule Q (throws e, w) rest on_value on_error = on_error e refl

pub then_do_rule :
    {W T : Type 0} (Q : Try (Unit {0}) × (Progress × State W) → Type 0) (a : Try T × State W)
    (p : Progress) (rest : T → State W → Try (Unit {0}) × (Progress × State W))
    → ((t : T) → a.0 ≡ gives t → Q (rest t a.1))
    → ((e : Exn) → a.0 ≡ throws e → Q (throws e, (p, a.1)))
    → Q (then_do a p rest)
then_do_rule Q (gives t, s) p rest on_value on_error = on_value t refl
then_do_rule Q (throws e, s) p rest on_value on_error = on_error e refl

pub Try-cases : {T : Type 0} (a : Try T) → ((t : T) × (a ≡ gives t)) ⊎ ((e : Exn) × (a ≡ throws e))
Try-cases (gives t) = inl (t, refl)
Try-cases (throws e) = inr (e, refl)

pub same_version→eq : (a b : Option ℕ) → same_version a b ≡ true → a ≡ b
same_version→eq none none h = refl
same_version→eq none (some b) h = cc
same_version→eq (some a) none h = cc
same_version→eq (some a) (some b) h = rw (==→eq a b h) refl

pub is_adaptation_same :
    {T : Type 0} (e e' : Exn)
    → ◌≡◌ {A = Try T} (throws e) (throws e')
    → is_adaptation e ≡ true
    → is_adaptation e' ≡ true
is_adaptation_same e e' same h = let raised : e ≡ e' = cc in rw (sym raised) h
