-- ===== src/Decision/Trust.antt =====
-- About decision/llm_selector.py and decision/agent.py: the answers that are used.
use agentic_ai_model_adaptat.Prelude.{
  ℕ, zero, suc, ◌+◌, ◌≤◌, ◌≡◌, refl, ◌∙◌, ◌⊎◌, inl, inr, true, Option, none, some, List, [], ◌∷◌,
  ◌++◌, arith, Bool-cases, Option-cases,
}
use agentic_ai_model_adaptat.Decision.Constraints.{Strategy, has, DecisionSettings}
use agentic_ai_model_adaptat.Decision.Llm.{
  LlmStrategyChoice, Answer, call_failed, malformed, answered, Checked, check_answer,
  select_strategy_checked, Turn, Reply, garbled, submits, calls_tool, Asked, unanswered, replied,
  act, agent_steps, run_agent,
}
use agentic_ai_model_adaptat.Decision.Select.{LlmClient, consult}

-- An answer that is used is one of the strategies that were open.
abbrev pub Trusted : List Strategy → Checked → Type 0
Trusted ss r = (c : LlmStrategyChoice) → r.choice ≡ some c → has c.strategy ss ≡ true

check_answer-Trusted : (ss : List Strategy) (a : Answer) → Trusted ss (check_answer ss a)
check_answer-Trusted ss (call_failed r) c e = cc
check_answer-Trusted ss malformed c e = cc
check_answer-Trusted ss (answered a) c e = ground arith

select_strategy_checked-Trusted :
    (ss : List Strategy) (a : Answer) → Trusted ss (select_strategy_checked a ss)
unfolding select_strategy_checked
select_strategy_checked-Trusted [] a c e = cc
select_strategy_checked-Trusted (s ∷ ss) a c e = check_answer-Trusted (s ∷ ss) a c e

act-Trusted :
    (run_tool : ℕ → ℕ → Option ℕ) (ss : List Strategy) (r : Reply) (c : LlmStrategyChoice)
    → (act run_tool ss r).0 ≡ some c
    → has c.strategy ss ≡ true
act-Trusted run_tool ss garbled c e = cc
act-Trusted run_tool ss (submits none) c e = cc
act-Trusted run_tool ss (submits (some a)) c e = ground arith
act-Trusted run_tool ss (calls_tool a i) c e = cc

Asked-cases : (a : Asked) → ((r : ℕ) × (a ≡ unanswered r)) ⊎ ((r : Reply) × (a ≡ replied r))
Asked-cases (unanswered r) = inl (r, refl)
Asked-cases (replied r) = inr (r, refl)

module _ (next : List Turn → ℕ → Asked) (run_tool : ℕ → ℕ → Option ℕ) (ss : List Strategy) where
  -- The loop ends within its steps with an answer that may be used, if any.
  agent_steps_sound :
      (left taken : ℕ) (turns : List Turn)
      → let o = agent_steps next run_tool ss left taken turns in
        Trusted ss o.checked × (o.steps ≤ taken + left)
  unfolding agent_steps
  agent_steps_sound zero taken turns = (λ c e. cc, omega arith)
  agent_steps_sound (suc left) taken turns = elim (Asked-cases (next turns (suc left))) [
    | inl (r, e) ↦ rw (e, agent_steps) ((λ c e'. cc), omega arith)
    | inr (r, e) ↦ elim (Option-cases ((act run_tool ss r).0)) [
      | inr (c, e') ↦
          rw (e, e', agent_steps)
            ((λ c' same. act-Trusted run_tool ss r c' (e' ∙ same)), omega arith)
      | inl e' ↦
          let turn : Turn = record { reply = r; observation = (act run_tool ss r).1 } in
          let rest = agent_steps_sound left (suc taken) (turns ++ turn ∷ []) in
          rw (e, e', agent_steps) (rest.0, omega (arith, rest.1))
    ]
  ]

-- The agent, which may call its client and its tools as it likes, ends within its step limit, and
-- an answer of its that is used is one of the compatible strategies.
pub run_agent_sound :
    (next : List Turn → ℕ → Asked) (run_tool : ℕ → ℕ → Option ℕ) (max_steps : ℕ)
    (ss : List Strategy)
    → let o = run_agent next run_tool max_steps ss in Trusted ss o.checked × (o.steps ≤ max_steps)
unfolding run_agent
run_agent_sound next run_tool max_steps [] = (λ c e. cc, omega arith)
run_agent_sound next run_tool max_steps (s ∷ ss) =
    let r = agent_steps_sound next run_tool (s ∷ ss) max_steps 0 [] in (r.0, omega (arith, r.1))

pub consult-Trusted :
    (c : LlmClient) (ss : List Strategy) (s : DecisionSettings) → Trusted ss (consult c ss s)
consult-Trusted c ss s = elim (Bool-cases s.decision_agent_enabled) [
  | inl e ↦ rw e (run_agent_sound c.next c.run_tool s.decision_agent_max_steps ss).0
  | inr e ↦ rw e (select_strategy_checked-Trusted ss c.single)
]
