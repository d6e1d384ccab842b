-- ===== src/Status.antt =====
-- core/enums.py `JobStatus`, `TERMINAL_STATUSES`, and core/state_machine.py: which status may
-- follow which. A frozenset of statuses is a list, of which only membership is asked.
pub mod Paths
use agentic_ai_model_adaptat.Prelude.{
  ℕ, Bool, true, false, ◌||◌, List, [], ◌∷◌, ◌++◌, ◌==◌, if◌then◌else◌,
}

pub data JobStatus : Type 0 where
  received queued validating data_preparing evaluating_versions : JobStatus
  reuse_decision decision_pending adapting validating_candidate : JobStatus
  registering promoting completed failed rolled_back timed_out cancelled : JobStatus
  analyzing model_comparison decision_made : JobStatus

abbrev pub status_code : JobStatus → ℕ
status_code received = 0
status_code queued = 1
status_code validating = 2
status_code data_preparing = 3
status_code evaluating_versions = 4
status_code reuse_decision = 5
status_code decision_pending = 6
status_code adapting = 7
status_code validating_candidate = 8
status_code registering = 9
status_code promoting = 10
status_code completed = 11
status_code failed = 12
status_code rolled_back = 13
status_code timed_out = 14
status_code cancelled = 15
status_code analyzing = 16
status_code model_comparison = 17
status_code decision_made = 18

-- `a == b` of two members of the enum.
abbrev pub status_eq : JobStatus → JobStatus → Bool
status_eq a b = status_code a == status_code b

abbrev pub status_mem : JobStatus → List JobStatus → Bool
status_mem s [] = false
status_mem s (t ∷ ts) = status_eq t s || status_mem s ts

abbrev pub terminal_statuses : List JobStatus
terminal_statuses = completed ∷ failed ∷ rolled_back ∷ timed_out ∷ cancelled ∷ []

-- `status in TERMINAL_STATUSES`
abbrev pub is_terminal : JobStatus → Bool
is_terminal s = status_mem s terminal_statuses

-- `_ALLOWED.get(status, frozenset({S.FAILED}))`
abbrev pub listed_next : JobStatus → List JobStatus
listed_next received = queued ∷ validating ∷ failed ∷ []
listed_next queued = validating ∷ failed ∷ []
listed_next validating = data_preparing ∷ failed ∷ []
listed_next data_preparing = evaluating_versions ∷ decision_pending ∷ completed ∷ failed ∷ []
listed_next evaluating_versions = reuse_decision ∷ failed ∷ []
listed_next reuse_decision = promoting ∷ decision_pending ∷ failed ∷ []
listed_next decision_pending = adapting ∷ completed ∷ failed ∷ []
listed_next adapting = validating_candidate ∷ failed ∷ []
listed_next validating_candidate = registering ∷ completed ∷ failed ∷ []
listed_next registering = promoting ∷ failed ∷ []
listed_next promoting = completed ∷ rolled_back ∷ failed ∷ []
listed_next _ = failed ∷ []

unfoldable pub allowed_next : JobStatus → List JobStatus
allowed_next s =
    if is_terminal s
    then []
    else (listed_next s
        ++ (timed_out
            ∷ cancelled
            ∷ (if status_mem s (received ∷ queued ∷ []) then [] else queued ∷ [])))

-- `check_transition`: whether it passes, where the code raises InvalidTransitionError if not.
unfoldable pub check_transition : JobStatus → JobStatus → Bool
unfolding allowed_next
check_transition current target = status_mem target (allowed_next current)
