-- ===== src/Decision/Llm.antt =====
-- decision/llm_selector.py `select_strategy_checked` and decision/agent.py `run_agent`: what the
-- language model may decide. Its client is a parameter that may answer anything: `single` is the
-- answer to the one prompt, `next` the reply to the turns so far with the steps that are left, and
-- `run_tool` what a tool observes (none: the action is unknown or the tool refuses its input).
use agentic_ai_model_adaptat.Prelude.{
  ℕ, zero, suc, Option, none, some, List, [], ◌∷◌, ◌++◌, if◌then◌else◌,
}
use agentic_ai_model_adaptat.Decision.Constraints.{Strategy, has, is_empty}

pub record LlmStrategyChoice : Type 0 where
  pub strategy : Strategy
  pub confidence : ℕ

pub data FallbackReason : Type 0 where
  disabled invalid_output outside_set step_limit : FallbackReason
  -- The reason of an `LlmUnavailableError`.
  unavailable : ℕ → FallbackReason

-- The answer to the selection prompt, parsed and validated.
pub data Answer : Type 0 where
  call_failed : ℕ → Answer
  malformed : Answer
  answered : LlmStrategyChoice → Answer

pub record Checked : Type 0 where
  pub choice : Option LlmStrategyChoice
  pub reason : Option FallbackReason

abbrev pub trusted : LlmStrategyChoice → Checked
trusted c = record { choice = some c; reason = none }

abbrev pub refused : FallbackReason → Checked
refused r = record { choice = none; reason = some r }

abbrev pub check_answer : List Strategy → Answer → Checked
check_answer ss (call_failed r) = refused (unavailable r)
check_answer ss malformed = refused invalid_output
check_answer ss (answered c) = if has c.strategy ss then trusted c else refused outside_set

unfoldable pub select_strategy_checked : Answer → List Strategy → Checked
select_strategy_checked single ss =
    if is_empty ss then refused outside_set else check_answer ss single

-- One reply of the agent: no JSON object, a final answer (none: it does not validate), or a tool
-- with its input.
pub data Reply : Type 0 where
  garbled : Reply
  submits : Option LlmStrategyChoice → Reply
  calls_tool : (action : ℕ) → (input : ℕ) → Reply

-- A turn: the reply and what was observed, none for an error.
pub record Turn : Type 0 where
  pub reply : Reply
  pub observation : Option ℕ

pub data Asked : Type 0 where
  unanswered : ℕ → Asked
  replied : Reply → Asked

pub record AgentOutcome : Type 0 where
  pub checked : Checked
  pub steps : ℕ

abbrev pub submitted : List Strategy → Option LlmStrategyChoice → Option LlmStrategyChoice
submitted ss none = none
submitted ss (some c) = if has c.strategy ss then some c else none

-- What a reply leads to: the accepted answer, or the observation of the turn.
abbrev pub act : (ℕ → ℕ → Option ℕ) → List Strategy → Reply → Option LlmStrategyChoice × Option ℕ
act run_tool ss garbled = (none, none)
act run_tool ss (submits c) = (submitted ss c, none)
act run_tool ss (calls_tool a i) = (none, run_tool a i)

-- The loop over the steps that are left.
unfoldable pub agent_steps :
    (next : List Turn → ℕ → Asked) (run_tool : ℕ → ℕ → Option ℕ)
    → List Strategy
    → (left : ℕ) → (taken : ℕ) → List Turn
    → AgentOutcome
agent_steps next run_tool ss zero taken turns = record {
  checked = refused step_limit;
  steps = taken;
}
agent_steps next run_tool ss (suc left) taken turns = elim (next turns (suc left)) [
  | unanswered r ↦ record { checked = refused (unavailable r); steps = taken }
  | replied reply ↦ elim ((act run_tool ss reply).0) [
    | some c ↦ record { checked = trusted c; steps = suc taken }
    | none ↦
        agent_steps next run_tool ss left (suc taken)
          (turns ++ record { reply = reply; observation = (act run_tool ss reply).1 } ∷ [])
  ]
]

unfoldable pub run_agent :
    (List Turn → ℕ → Asked) → (ℕ → ℕ → Option ℕ) → (max_steps : ℕ) → List Strategy → AgentOutcome
unfolding agent_steps
run_agent next run_tool max_steps ss =
    if is_empty ss
    then record { checked = refused outside_set; steps = 0 }
    else agent_steps next run_tool ss max_steps 0 []
