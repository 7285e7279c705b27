-- ===== src/Lib.antt =====
-- ThreadForge runs coding agents: an API server (api-server/src/threadforge_api) keeps tasks and
-- approvals on the disk, starts one run at a time over the runtime of pico-legacy-runtime/pico, and
-- streams the run's events to its clients. A tool call that may do harm waits for an approval; a user
-- may cancel at any time; and any write may fail. The files model this control plane, and the gates
-- that agent-orchestrator/src/langgraph_pico sets around a run: its plan, its inbox and its review.
--
-- Json, Prelude: the JSON values, dictionaries in the order of insertion, and shared lemmas.
-- TaskState: pico/task_state.py, the state of a run. Fields has the record, Codec `to_dict` and
--   `from_dict`, Progress the operations, History any sequence of them.
-- ApprovalPolicy: pico/approval.py, the strategies that decide about a tool call.
-- Domain: domain/enums.py and domain/entities.py of the API server, and its errors.
-- Journal: infrastructure/recovery_journal.py, an append-only file and its torn tail.
-- Publisher: infrastructure/event_publisher.py and domain/events.py.
-- Broker: infrastructure/event_broker.py, with the callbacks of the event loop as a list.
-- Control: the state that the next three share, and the actions on it: an action returns or raises,
--   and what it wrote before stays written. infrastructure/run_gate.py and cancellation.py are here.
-- Repositories: infrastructure/json_repositories.py. Steps has each operation case by case.
-- ApprovalGate: infrastructure/approval_gate.py. Records changes the records, Request opens a wait,
--   polls and settles it, Decide ends it; the resolution that both use is in ApprovalGate itself.
-- RunFiles, RunStore: pico/run_store.py, the files of a run, and infrastructure/fenced_run_store.py.
-- Security: pico/security.py, the redaction of artifacts.
-- Finalization: pico/run_lifecycle.py, the files of a run at its end.
-- Reconciliation: infrastructure/run_reconciliation.py, on the files of a run.
-- TaskRunner: infrastructure/task_runner.py. Outcome decides the status that a run ends with, with
--   `terminal_task_from_run` of run_reconciliation.py; Ending stores it, Worker starts a run, Shutdown
--   ends what is left.
-- Startup: `reconcile` of lifespan.py, which ends what a crash has left open before the service takes
--   work. Restoring, Tasks, Approvals and Transitions have its loops, Closing the journal after them.
-- TaskService: application/task_service.py, the queueing of a task and the requests of its owner.
-- ToolExecutor: pico/tool_executor.py, a call of a tool from its checks to its result; Runtime has what
--   it uses of pico/runtime.py, Calls the log of what a call does.
-- ExecutionBoundary: infrastructure/execution_boundary.py, the hooks of the runtime.
-- ReviewGate: pico/evaluation/review_gate.py, and in Completion its call at the end of
--   agent-orchestrator/src/langgraph_pico/native_runner.py.
-- Inbox: agent-orchestrator/src/langgraph_pico/inbox.py.
-- agent-orchestrator/src/langgraph_pico/planning.py is in the folder Plan: Texts, Steps, Budgets and
--   Dag have its parts, Contract the whole. A number in the JSON is a whole one.
-- DeviceStore: the devices of infrastructure/device_store.py, on a disk that works.
-- OneUse: PairingCodeStore of infrastructure/device_store.py and OAuthAttemptStore of
--   infrastructure/auth.py.
-- Ids: infrastructure/id_validators.py.
-- Examples: concrete inputs.
--
-- The repositories call the disk, the gate calls the repositories, the journal and the publisher, the
-- runner calls the gate and the reconciliation, the start of the service calls the repositories, the
-- reconciliation and the journal, and the hooks, which a tool call calls, read the runner's state.
-- Every disk operation takes its answer from a list of faults in the state, so a theorem for all states
-- holds for every pattern of failures; where the list is over the disk works. A failed write leaves the
-- record as it was, as the atomic rename does. infrastructure/jsonutil.py sets the mode and syncs the directory
-- after the rename, so that a write may also fail with the record in place: this is modelled for the
-- creation of a task, by a flag, and nowhere else. The listings of the repositories take the ids that
-- `list_stable` finds as an argument and leave its own errors out, but for the start of the service,
-- where it may raise. A failed append leaves the journal as it was, and a torn append is the journal's
-- own flag. A step that the source does
-- under a lock is one action; what may come between two actions is another action. `request` waits,
-- so it is several actions.
--
-- Times are numbers on one clock that an action does not move. Ids, digests, previews and
-- `sorted` are arguments, as are `str`, `int`, `bool`, `strip` and `upper`, of which `IsPython` states
-- what the code relies on. The recursions are structural, but for the loop of Plan/Dag, which runs on
-- fuel: one turn for each step, since a turn takes one step off the stack and no step comes on it
-- twice. The payload of an event leaves out its times, which no operation reads.
--
-- Not modelled: the runtime under the adapter but for the calls of its tools (its outcome is an
-- argument), the tools themselves, the prompts and the model clients, the worker hub, users and
-- sessions, the SQLite repositories, HTTP routes, and all user interfaces.
mod Prelude
pub mod Json
pub mod Security
pub mod TaskState
pub mod Startup
pub mod ToolExecutor
pub mod TaskService
pub mod DeviceStore
pub mod Domain
pub mod Journal
pub mod Publisher
pub mod Broker
pub mod RunFiles
pub mod Control
pub mod RunStore
pub mod Repositories
pub mod ApprovalPolicy
pub mod ApprovalGate
pub mod OneUse
pub mod Ids
pub mod TaskRunner
pub mod ReviewGate
pub mod Inbox
pub mod ExecutionBoundary
pub mod Plan
pub mod Finalization
pub mod Reconciliation
pub mod Examples
