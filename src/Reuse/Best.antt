-- ===== src/Reuse/Best.antt =====
-- About analysis/reuse_decision.py: which of the eligible versions is chosen.
use agentic_ai_model_adaptat.Prelude.{
  ℕ, ◌≡◌, refl, sym, ◌⊎◌, inl, inr, Bool, true, false, Option, some, List, [], ◌∷◌, select, arith,
  Bool-cases,
}
use mathlib.Core.Path.{subst}
use agentic_ai_model_adaptat.Decision.Constraints.{VersionEvaluation, Metric}
use agentic_ai_model_adaptat.Reuse.Decide.{
  ReuseSettings, ReuseDecision, higher_is_better, live_of, live_score, scored, is_eligible,
  eligible, outranks, best, choose_version, hinted, reused, decide_reuse,
}

-- `e` is in the list.
abbrev pub Among : VersionEvaluation → List VersionEvaluation → Type 0
Among e [] = ⊥
Among e (f ∷ fs) = (e ≡ f) ⊎ Among e fs

outranks_self : (h : Bool) (a : VersionEvaluation) → outranks h a a ≡ false
outranks_self true a = ground arith
outranks_self false a = ground arith

outranks_trans :
    (h : Bool) (e c x : VersionEvaluation)
    → outranks h x c ≡ true
    → outranks h e c ≡ false
    → outranks h e x ≡ false
outranks_trans true e c x p q = ground arith
outranks_trans false e c x p q = ground arith

best_keeps :
    (h : Bool) (e c : VersionEvaluation) (xs : List VersionEvaluation)
    → outranks h e c ≡ false
    → outranks h e (best h c xs) ≡ false
best_keeps h e c [] p = p
best_keeps h e c (x ∷ xs) p = elim (Bool-cases (outranks h x c)) [
  | inl b ↦ rw b (best_keeps h e x xs (outranks_trans h e c x b p))
  | inr b ↦ rw b (best_keeps h e c xs p)
]

best-Among :
    (h : Bool) (c : VersionEvaluation) (xs : List VersionEvaluation) → Among (best h c xs) (c ∷ xs)
best-Among h c [] = inl refl
best-Among h c (x ∷ xs) = elim (Bool-cases (outranks h x c)) [
  | inl b ↦
      let same : best h x xs ≡ best h c (x ∷ xs) = rw b refl in
      subst (λ y. Among y (c ∷ x ∷ xs)) same (inr (best-Among h x xs))
  | inr b ↦
      let same : best h c xs ≡ best h c (x ∷ xs) = rw b refl in
      subst (λ y. Among y (c ∷ x ∷ xs)) same
        (elim (best-Among h c xs) [ inl head ↦ inl head | inr m ↦ inr (inr m) ])
]

best_top :
    (h : Bool) (e c : VersionEvaluation) (xs : List VersionEvaluation)
    → Among e (c ∷ xs)
    → outranks h e (best h c xs) ≡ false
best_top h e c xs (inl same) = best_keeps h e c xs (rw same (outranks_self h c))
best_top h e c [] (inr m) = absurd m
best_top h e c (x ∷ xs) (inr m) = elim (Bool-cases (outranks h x c)) [
  | inl b ↦ rw b (best_top h e x xs m)
  | inr b ↦
      rw b (elim m [
        | inl same ↦ best_keeps h e c xs (rw same b)
        | inr m' ↦ best_top h e c xs (inr m')
      ])
]

module _ (p : VersionEvaluation → Bool) (e : VersionEvaluation) where
  select-Among : (xs : List VersionEvaluation) → Among e (select p xs) → Among e xs × (p e ≡ true)
  select-Among [] m = absurd m
  select-Among (x ∷ xs) m = elim (Bool-cases (p x)) [
    | inl b ↦ elim (rw b at m) [
      | inl same ↦ (inl same, rw same b)
      | inr m' ↦ let r = select-Among xs m' in (inr (r.0), r.1)
    ]
    | inr b ↦ let r = select-Among xs (rw b at m) in (inr (r.0), r.1)
  ]

  Among-select : (xs : List VersionEvaluation) → Among e xs → p e ≡ true → Among e (select p xs)
  Among-select [] m q = absurd m
  Among-select (x ∷ xs) (inl same) q = let b : p x ≡ true = rw (sym same) q in rw b (inl same)
  Among-select (x ∷ xs) (inr m) q = elim (Bool-cases (p x)) [
    | inl b ↦ rw b (inr (Among-select xs m q))
    | inr b ↦ rw b (Among-select xs m q)
  ]

-- What is decided when the live version could be scored: the best eligible version is reused, or
-- none is eligible and the hint is given.
pub record Picked (s : ReuseSettings) (metric : Metric) (live : ℕ) (live_version : Option ℕ)
    (es : List VersionEvaluation) (d : ReuseDecision) : Type 0 where
  pub chosen : VersionEvaluation
  pub among : Among chosen es
  pub allowed : is_eligible s metric live chosen ≡ true
  pub decision : d ≡ reused live_version chosen
  pub top :
      (f : VersionEvaluation)
      → Among f es
      → is_eligible s metric live f ≡ true
      → outranks (higher_is_better metric) f chosen ≡ false

pub record NothingEligible (s : ReuseSettings) (metric : Metric) (live max_psi : ℕ)
    (live_version : Option ℕ) (es : List VersionEvaluation) (d : ReuseDecision) : Type 0 where
  pub decision : d ≡ hinted max_psi live_version s
  pub nothing : (f : VersionEvaluation) → Among f es → is_eligible s metric live f ≡ false

module _ (s : ReuseSettings) (metric : Metric) (live max_psi : ℕ) (live_version : Option ℕ)
    (es : List VersionEvaluation) where
  abbrev pub Best : ReuseDecision → Type 0
  Best d =
      Picked s metric live live_version es d
      ⊎ NothingEligible s metric live max_psi live_version es d

  choose_version-Best :
      (ok : List VersionEvaluation)
      → eligible s metric live es ≡ ok
      → Best (choose_version s max_psi live_version metric ok)
  choose_version-Best [] e = inr (record {
    decision = refl;
    nothing = λ f m. elim (Bool-cases (is_eligible s metric live f)) [
      | inl b ↦
          let there = Among-select (is_eligible s metric live) f es m b in absurd (rw e at there)
      | inr b ↦ b
    ];
  })
  choose_version-Best (c ∷ cs) e =
      let h = higher_is_better metric in
      let there : Among (best h c cs) (eligible s metric live es) = rw e (best-Among h c cs) in
      let (m, a) = select-Among (is_eligible s metric live) (best h c cs) es there in
      inl (record {
        chosen = best h c cs;
        among = m;
        allowed = a;
        decision = refl;
        top = λ f m' b.
            let in_list = Among-select (is_eligible s metric live) f es m' b in
            best_top h f c cs (rw e at in_list);
      })

  -- When LIVE was scored, a decision is made: either it is to reuse an eligible version and no
  -- eligible version of the list has a greater gain, or an equal gain and a newer version; or no
  -- version is eligible, and the decision is the hint that the PSI gives.
  pub decide_reuse-Best :
      live_score (live_of es) ≡ scored metric live
      → (d : ReuseDecision) × (decide_reuse es live_version max_psi s ≡ some d) × Best d
  unfolding decide_reuse
  decide_reuse-Best e =
      let ok = eligible s metric live es in
      (
        choose_version s max_psi live_version metric ok,
        rw (e, decide_reuse) refl,
        choose_version-Best ok refl,
      )
