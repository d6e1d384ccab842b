-- ===== src/Lib.antt =====
-- The ORAN adaptation framework: a service that receives drift events for deployed models, runs
-- one adaptation job at a time for each model through a state machine, decides on a strategy, and
-- notifies other systems. This library models the parts that decide what happens to a job.
--
-- Parts, and the files that model them:
-- - core/enums.py and core/state_machine.py (`JobStatus`, `allowed_next`, `check_transition`):
--   Status, with paths of moves in Status/Paths.
-- - db/models.py, the rows that the queue uses: Jobs/Rows and Jobs/Tables. `Db` is the database;
--   a table is a list of rows read by primary key.
-- - orchestrator/locks.py: Jobs/Locks (`take_over_expired_lock`, `add_lock`, `release_lock`).
-- - orchestrator/jobs.py: Jobs/Transition (`load_job`, `apply_transition`, `check_fence`,
--   `_transition`), Jobs/Submit (`_placement`, `_holder_is_active`, `_fail_abandoned_job`,
--   `_submit`), Jobs/Cancel (`request_cancel`, `publish`).
-- - orchestrator/worker.py: Worker/Claim (`_take_slot`, `_try_claim`, `claim`, `_Supervisor`),
--   Worker/Attempt (`_end_attempt`, `requeue`, `lose`, `_record`, `_record_failure`,
--   `_requeue_or_end`, the recording half of `_run_claim`), Worker/Reap (`reap`, `_unpublish`),
--   Worker/Late (`_on_abandoned`, and `_lock` of delivery/controller.py).
-- - decision/constraints.py and decision/fallback.py: Decision/Constraints;
--   decision/llm_selector.py and decision/agent.py: Decision/Llm; decision/engine.py:
--   Decision/Select.
-- - analysis/reuse_decision.py: Reuse/Decide (`_hint`, `decide_reuse`).
-- - notifications/dispatcher.py: Notify/Breaker (`CircuitBreaker`) and Notify/Dispatch
--   (`Dispatcher`); `_redrive_rows` of notifications/service.py stands there too.
--   Notify/Deliveries is the table.
-- - registry/deployment.py: Registry/Deployer (`rollout`, `_poll`, `revert`) and Registry/Split
--   (`split`); registry/promotion.py: Registry/Session, Registry/Promote and Registry/Moves
--   (`promote_version`, `rollback_model` and what they call). Registry/Port is what they call
--   outside: the ports of ports/registry.py and ports/runtime.py, the database and the clock, a
--   record of operations (`Systems`) with what is relied on of them (`Laws`).
-- - adapters/registry/filesystem.py: Registry/Filesystem; adapters/deployment/alias.py:
--   Registry/AliasDeployment, which puts both together as one `Systems`.
-- - delivery/health.py: Delivery/Health (`evaluate_health`, `ab_test`); delivery/controller.py:
--   Delivery/Rollouts (`_record`, `_split`, `_undo_traffic`, `_end_without_promotion`,
--   `_promote`, `_enter_canary`), Delivery/Start (`start_rollout`) and Delivery/Controller
--   (`_advance`, `tick`, `approve`, `reject`). `Serving` is what a rollout acts through: splits
--   with their read-back, `promote_version` and the metrics source.
--
-- All these paths are under src/oran_adapt/.
--
-- The proofs are in modules of their own: Jobs/Evolve, Keep, Sound, LockTaken, SubmitSound and
-- Busy and Worker/Keep, KeepQueue and KeepReap say what each operation does to the tables;
-- Worker/System puts all of them into one relation `Step`, a committed transaction, and `Reach`,
-- any sequence of those (a claim and a reaper pass also as the single transactions inside them);
-- Worker/Fence, GiveBack, Settle and Exclusive are about single operations of a worker.
-- Decision/Trust, Narrow, Allowed and Explained, Registry/Polling, Rollouts, Tries, Attempts,
-- Undo, Reads, Contract, Atomic, History, Runs and Rollback (a move), ReadBack (a split),
-- FilesKept, FilesMoved, FilesRead, FilesServed and FilesLaws (the adapters), Delivery/Judged,
-- InOrder, Advances, Actions, Steps, Started, StartEnds, StartedWell and Undone, and
-- Notify/BreakerLaws, Lease, History and Crash, and Reuse/Best, are about the other parts. The
-- modules whose names end in Examples hold concrete runs.
--
-- How the program is read:
-- - A transaction is a function from the database to a result with a new database; one that
--   raises has no new database, since its session is rolled back. Transactions are serial, which
--   row locks and conditional updates give. `submit` takes besides the table as its first lookup
--   saw it, so that a concurrent caller may have committed in between. `publish` merges its two
--   sessions.
-- - Ids, names, hashes, documents and texts are numbers, since the code only compares and stores
--   them. Times are whole ticks; one call reads the clock once. PSI values, metrics and
--   confidences are multiples of a small unit, and their arithmetic is exact. A backoff is 2 to
--   the power of the tries, where a job's tries are at least one.
-- - A fresh uuid, token, random number, the clock, the broker's answer, a sink's answer and the
--   language model's answers are arguments; nothing is assumed of them.
-- - A sink is called outside any transaction, so `Notify.History.Step` records the outcome of any
--   message on any table.
-- - What is outside a move of the live alias is one state that each call changes; a call may
--   raise at any time. A session's rows are the committed ones and those that the open
--   transaction added; queries do not fail. The polling loops of a deployment and of a split have
--   fuel, one round more than the ticks of its timeout, which is enough since each round sleeps
--   at least a tick.
-- - Loops are recursion on lists. `drain` and `run_agent` recurse on the rounds and steps that
--   are left, which are the bounds that the code has itself.
--
-- Not modelled: logging, metrics and tracing; the inline backend as one call (it is the same
-- steps); the polling loops and signal handlers; the execution of an attempt; the figures of
-- `_evidence_confidence` (an argument, as of `_select`) and the texts of decision/report.py;
-- signing and the HTTP adapters; the samples that a rollout's source receives, registering a
-- version, the other adapters, the validation gate, the data store and the training engines, and
-- the API; a metric that neither table of validation/metrics.py has, for which `higher_is_better`
-- raises a ValueError. The limits and means of health rules are not negative. The settings hold
-- the fields that the modelled code reads.
pub mod Prelude
pub mod Status
pub mod Jobs
pub mod Worker
pub mod Decision
pub mod Notify
pub mod Reuse
pub mod Registry
pub mod Delivery
