-- ===== src/TaskRunner.antt =====
-- api-server/src/threadforge_api/infrastructure/task_runner.py: the control plane's side of the one
-- active run: here its registration and its cancellation. The adapter is not modelled: whether the
-- worker's thread starts, whether the adapter's shell, if there is an adapter, is gone, and the task
-- state that it leaves are arguments.
pub mod Outcome
pub mod SameTasks
pub mod Cancelling
pub mod Registering
pub mod Ending
pub mod Worker
pub mod Shutdown
use thread_forge.Prelude.{
  String, Bool, true, false, Option, none, some, List, [], ◌||◌, ◌&&◌, not, if◌then◌else◌, ◌==◌, ℕ,
}
use thread_forge.Prelude.Dict.{get, put, remove}
use thread_forge.Domain.{
  TaskStatus, Task, Error, terminal, or_none, stale_generation, persistence_unavailable,
  active_task_exists, task_runner_unavailable,
}
use thread_forge.Publisher.{Envelope, no_envelope}
use thread_forge.Control.{
  Control, Run, Exec, Result, ok, err, ◌>>=◌, ◌>>◌, pure, raise, gets, modify, attempt, succeeded,
  mark_degraded, publish, set_run,
}
use thread_forge.Repositories.{get_task, update_task}
use thread_forge.ApprovalGate.Decide.{cancel_pending, release_gate}

pub record RunRequest : Type 0 where
  pub task_id : String
  pub run_id : String
  pub session_id : String
  pub workspace_id : String
  pub owner_id : String
  pub input : String
  pub max_steps : ℕ
  pub permission_mode : String

unfoldable pub is_available : Control → Bool
is_available c = not c.degraded && not c.shutting_down

-- A fresh RunContext, with its gate and its token.
abbrev pub context_for : RunRequest → Run
context_for q = record {
  task_id = q.task_id;
  run_id = q.run_id;
  owner_id = q.owner_id;
  closed = false;
  generation = 0;
  cancelled = false;
  process_cleanup_succeeded = true;
}

abbrev pub claim : RunRequest → Control → Control
claim q c = record c {
  runs = put c.runs q.run_id (context_for q);
  contexts = put c.contexts q.task_id q.run_id;
  active_task = some q.task_id;
}

abbrev pub unclaim : RunRequest → Control → Control
unclaim q c = record c { contexts = remove c.contexts q.task_id; active_task = none }

unfoldable pub register : RunRequest → Bool → Exec Run
unfolding is_available
register q starts = do
  available ← gets is_available
  active ← gets (λ c. c.active_task)
  if not available then raise task_runner_unavailable else do
    elim active [
      | some task ↦ raise active_task_exists
      | none ↦ do
        modify (claim q)
        if starts
            then pure (context_for q)
            else do modify (unclaim q); raise task_runner_unavailable
    ]

-- `self._contexts.get`
unfoldable pub get_context : String → Control → Option Run
get_context task c = elim (get c.contexts task) [ none ↦ none | some run ↦ get c.runs run ]

abbrev pub is_task : Option String → String → Bool
is_task none task = false
is_task (some active) task = active == task

-- `_release_active`
unfoldable pub release_active : String → Exec (Unit {0})
release_active task = do
  modify (λ c. record c {
    contexts = remove c.contexts task;
    active_task = if is_task c.active_task task then none else c.active_task;
  })
  release_gate task

abbrev pub set_status : TaskStatus → Task → Task
set_status status t = record t { status = status }

abbrev pub set_terminal : TaskStatus → String → String → Task → Task
set_terminal status stop_reason final_answer t = record t {
  status = status;
  stop_reason = or_none stop_reason;
  final_answer = or_none final_answer;
  pending_approval = none;
}

abbrev pub is_cancel_requested : TaskStatus → Bool
is_cancel_requested TaskStatus.cancel_requested = true
is_cancel_requested _ = false

abbrev cancel_envelope : Envelope
cancel_envelope = record no_envelope { phase = "final"; status = "cancel_requested" }

abbrev pub announce_cancel : Run → Exec (Unit {0})
announce_cancel r = publish r.task_id r.run_id "task.cancel_requested" [] cancel_envelope

-- The body of the `try` in `cancel`.
unfoldable pub request_cancel : Run → String → Exec (Unit {0})
request_cancel r task = do
  t ← get_task task
  if terminal t.status || is_cancel_requested t.status then pure tt else do
    update_task task (set_status TaskStatus.cancel_requested) (some r.generation)
    announce_cancel r

-- Its `except` clauses: `false` is kept as the error that is raised at the end.
unfoldable pub excused : Result (Unit {0}) → Exec Bool
excused (ok _) = pure true
excused (err stale_generation) = pure true
excused (err e) = do mark_degraded; pure false

-- RunContext.terminate_shell, given the answer of the adapter, if there is one.
unfoldable pub terminate_shell : Option Bool → Run → Run
terminate_shell none r = r
terminate_shell (some gone) r = record r { process_cleanup_succeeded = gone }

abbrev cleaned_up : Option Run → Bool
cleaned_up none = true
cleaned_up (some r) = r.process_cleanup_succeeded

abbrev pub cancel_token : Run → Run
cancel_token r = record r { cancelled = true }

-- The part of `cancel` that follows the `try` of `cancel_pending`.
unfoldable pub conclude : Run → Option Bool → Bool → Result (Unit {0}) → Exec Bool
conclude r shell written approvals = do
  modify (set_run r.run_id (terminate_shell shell))
  after ← gets (λ c. get c.runs r.run_id)
  modify (λ c. record c {
    degraded = c.degraded || not (succeeded approvals) || not (cleaned_up after);
  })
  if succeeded approvals && written then pure true else raise persistence_unavailable

unfoldable pub cancel_run : Run → String → List String → Option Bool → Exec Bool
cancel_run r task ids shell = do
  requested ← attempt (request_cancel r task)
  written ← excused requested
  modify (set_run r.run_id cancel_token)
  approvals ← attempt (cancel_pending r ids)
  conclude r shell written approvals

unfoldable pub cancel : String → List String → Option Bool → Exec Bool
cancel task ids shell = do
  found ← gets (get_context task)
  elim found [ none ↦ pure false | some r ↦ cancel_run r task ids shell ]
