-- ===== src/TaskService.antt =====
-- api-server/src/threadforge_api/application/task_service.py: the queueing of a new task for the server's own
-- runner, the last part of `create_task`, and the requests to cancel a task and to decide an approval. The worker
-- hub, which serves the tasks of a local worker, is an argument. A snapshot is the task that it shows.
pub mod Queueing
pub mod Owned
use thread_forge.Prelude.{
  String, Bool, true, false, Option, none, some, is_some, List, [], ◌∷◌, ◌==◌, not, if◌then◌else◌,
}
use thread_forge.Json.{Python}
use thread_forge.Security.{Secrets}
use thread_forge.Domain.{
  TaskStatus, Task, Approval, terminal, active_task_exists, task_runner_unavailable,
  approval_not_found,
}
use thread_forge.Publisher.{no_envelope}
use thread_forge.Control.{
  Control, Run, Exec, Result, ok, err, ◌>>=◌, ◌>>◌, pure, raise, gets, attempt, mark_degraded,
  publish,
}
use thread_forge.Repositories.{create_task, update_task, get_task_for_owner, get_approval_for_owner}
use thread_forge.ApprovalGate.Decide.{apply_decision}
use thread_forge.TaskRunner.{RunRequest, register, is_available, cancel, set_terminal}
use thread_forge.Reconciliation.{converge_run_artifacts}

abbrev pub request_for : Task → RunRequest
request_for t = record {
  task_id = t.task_id;
  run_id = t.run_id;
  session_id = t.session_id;
  workspace_id = t.workspace_id;
  owner_id = t.owner_id;
  input = t.input;
  max_steps = t.max_steps;
  permission_mode = t.permission_mode;
}

-- The `try` after a registration that failed.
unfoldable pub record_refusal : Python → Secrets → String → Task → Exec (Unit {0})
record_refusal py z now t = do
  converge_run_artifacts py z now t TaskStatus.failed "task_runner_unavailable" ""
  update_task t.task_id (set_terminal TaskStatus.failed "task_runner_unavailable" "") none
  publish t.task_id t.run_id "task.failed" (("stop_reason", "task_runner_unavailable") ∷ [])
      no_envelope

-- `except Exception: self._runner.mark_degraded()`, and the raise.
abbrev pub refuse_task : Result (Unit {0}) → Exec Task
refuse_task (ok _) = raise task_runner_unavailable
refuse_task (err e) = mark_degraded >> raise task_runner_unavailable

abbrev pub or_refused : Python → Secrets → String → Task → Result Run → Exec Task
or_refused py z now t (ok r) = pure t
or_refused py z now t (err e) = do
  recorded ← attempt (record_refusal py z now t)
  refuse_task recorded

-- What follows the two guards; the flags say if a failing write of the new record has replaced the file, and if
-- a thread can be started.
unfoldable pub store_and_register : Python → Secrets → String → Task → Bool → Bool → Exec Task
store_and_register py z now t landed starts = do
  create_task landed t
  publish t.task_id t.run_id "task.queued" (("status", "queued") ∷ []) no_envelope
  registered ← attempt (register (request_for t) starts)
  or_refused py z now t registered

unfoldable pub queue_task : Python → Secrets → String → Task → Bool → Bool → Exec Task
queue_task py z now t landed starts = do
  available ← gets is_available
  active ← gets (λ c. c.active_task)
  if not available
      then raise task_runner_unavailable
      else (if is_some active
          then raise active_task_exists
          else store_and_register py z now t landed starts)

unfoldable pub cancel_task :
    (String → String)
    → (String → Exec Bool)
    → List String
    → Option Bool
    → String
    → String
    → Exec Task
cancel_task canonical cancel_worker ids shell task owner = do
  t ← get_task_for_owner canonical task (canonical owner)
  if terminal t.status then pure t else do
    if t.execution_environment == "local_worker" then cancel_worker task else cancel task ids shell
    get_task_for_owner canonical task (canonical owner)

unfoldable pub resolve_approval :
    (String → String)
    → (String → String → Exec Approval)
    → String
    → String
    → String
    → String
    → String
    → Exec Approval
resolve_approval canonical resolve_worker txn task id decision owner = do
  get_task_for_owner canonical task (canonical owner)
  a ← get_approval_for_owner canonical id (canonical owner)
  if not (a.task_id == task) then raise approval_not_found else do
    t ← get_task_for_owner canonical task (canonical owner)
    if t.execution_environment == "local_worker"
        then resolve_worker id decision
        else apply_decision id decision txn
