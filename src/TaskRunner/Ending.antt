-- ===== src/TaskRunner/Ending.antt =====
-- How a run ends: `_persist_terminal`, `_converge_terminal` and the last part of `_worker`. `final` is
-- the runtime's task state, if there is one, `ids` the order in which the approvals are listed, and
-- `now` the time in the trace. The lock is held from the first step of `_persist_terminal` to its last.
pub mod Durable
pub mod Place
use Prim.Native.String.{◌++◌ as append_text}
use thread_forge.Prelude.{
  String, Bool, true, false, Option, none, some, is_some, List, [], ◌∷◌, ◌==◌, ◌||◌, not,
  if◌then◌else◌,
}
use thread_forge.Prelude.Dict.{Dict, get}
use thread_forge.Json.{Python}
use thread_forge.Security.{Secrets, redact_text}
use thread_forge.Domain.{TaskStatus, Task, Error, stale_generation, status_value}
use thread_forge.TaskState.Fields.{TaskState}
use thread_forge.Publisher.{Envelope, no_envelope}
use thread_forge.Control.{
  Control, Run, Exec, Result, ok, err, ◌>>=◌, ◌>>◌, pure, raise, gets, modify, attempt, succeeded,
  mark_degraded, publish, set_run, close,
}
use thread_forge.Repositories.{get_task, update_task}
use thread_forge.Reconciliation.{run_artifacts_match, converge_run_artifacts}
use thread_forge.ApprovalGate.Decide.{cancel_pending}
use thread_forge.TaskRunner.{RunRequest, set_terminal, release_active}
use thread_forge.TaskRunner.Outcome.{Outcome, observed, converged}

abbrev pub or_same : Option Run → Run → Run
or_same none r = r
or_same (some r) s = r

-- The `RunContext` object as it is now.
abbrev pub current : Run → Exec Run
current r = gets (λ c. or_same (get c.runs r.run_id) r)

-- Sets the fields of a run's end on the artifacts.
unfoldable pub persist_artifacts :
    Python → Secrets → String → RunRequest → Outcome → Exec (Unit {0})
persist_artifacts py z now q o = do
  t ← get_task q.task_id
  same ← run_artifacts_match py (set_terminal o.status o.stop_reason o.final_answer t)
  if same then pure tt else converge_run_artifacts py z now t o.status o.stop_reason o.final_answer

unfoldable pub persist_open :
    Python → Secrets → String → RunRequest → Run → Outcome → Exec (Unit {0})
persist_open py z now q r o = if r.closed then raise stale_generation else do
  persist_artifacts py z now q o
  update_task q.task_id (set_terminal o.status o.stop_reason o.final_answer) (some r.generation)
  pure tt

unfoldable pub persist_terminal :
    Python → Secrets → String → RunRequest → Run → Outcome → Exec (Unit {0})
unfolding persist_open
persist_terminal py z now q r o = do r' ← current r; persist_open py z now q r' o

abbrev pub end_envelope : Outcome → Envelope
end_envelope o = record no_envelope {
  phase = "final";
  status = status_value o.status;
  summary = o.stop_reason;
}

-- f"task.{status}"
abbrev pub end_event : Outcome → String
end_event o = append_text "task." (status_value o.status)

abbrev is_completed : TaskStatus → Bool
is_completed TaskStatus.completed = true
is_completed _ = false

abbrev announce_message : Secrets → RunRequest → Outcome → Exec (Unit {0})
announce_message z q o =
    publish q.task_id q.run_id "message.completed" (("text", redact_text z o.final_answer) ∷ [])
      (record no_envelope { phase = "final"; status = "completed" })

-- What follows `_persist_terminal` in `_converge_terminal`.
unfoldable pub announce_end : Secrets → RunRequest → Run → Outcome → Exec (Unit {0})
announce_end z q r o = do
  modify (set_run r.run_id close)
  if is_completed o.status then announce_message z q o else pure tt
  publish q.task_id q.run_id (end_event o) (("final_answer", redact_text z o.final_answer) ∷ [])
      (end_envelope o)

-- The outcome before the check of the processes.
abbrev unchecked : Bool → Option TaskState → Outcome
unchecked cancelled none = observed cancelled "" "" ""
unchecked cancelled (some s) = observed cancelled s.status s.stop_reason s.final_answer

abbrev not_cleaned : Run → Run
not_cleaned r = record r { process_cleanup_succeeded = false }

unfoldable pub note_cleanup : Run → Outcome → Exec (Unit {0})
note_cleanup r o =
    if o.stop_reason == "process_cleanup_failed"
    then modify (set_run r.run_id not_cleaned) >> mark_degraded
    else pure tt

unfoldable pub withdraw_pending : RunRequest → Run → List String → Exec (Unit {0})
withdraw_pending q r ids = do
  t ← get_task q.task_id
  if is_some t.pending_approval then cancel_pending r ids else pure tt

unfoldable pub converge_terminal :
    Python → Secrets → String → RunRequest → Run → List String → Option TaskState → Exec (Unit {0})
unfolding note_cleanup withdraw_pending
converge_terminal py z now q r ids final = do
  r' ← current r
  note_cleanup r (unchecked r'.cancelled final)
  withdraw_pending q r ids
  persist_terminal py z now q r (converged r'.cancelled r'.process_cleanup_succeeded final)
  announce_end z q r (converged r'.cancelled r'.process_cleanup_succeeded final)

-- The `finally` of `_worker`: what it does with the outcome of `_converge_terminal`.
unfoldable pub release_or_degrade : RunRequest → Result (Unit {0}) → Exec (Unit {0})
release_or_degrade q (ok _) = release_active q.task_id
release_or_degrade q (err e) = mark_degraded

unfoldable pub finish :
    Python → Secrets → String → RunRequest → Run → List String → Option TaskState → Exec (Unit {0})
unfolding converge_terminal release_or_degrade
finish py z now q r ids final = do
  ended ← attempt (converge_terminal py z now q r ids final)
  release_or_degrade q ended
