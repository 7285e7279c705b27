-- ===== src/TaskRunner/Outcome.antt =====
-- The public status that a run ends with: the part of `_converge_terminal` of
-- api-server/src/threadforge_api/infrastructure/task_runner.py that decides it, from the run's
-- final task state while the service runs, and `terminal_task_from_run` of run_reconciliation.py,
-- from the task state on the disk after a restart.
use thread_forge.Prelude.{
  String, ◌≡◌, Bool, true, false, Option, none, some, inl, inr, Bool-cases, List, [], ◌∷◌, ◌||◌,
  ◌&&◌, not, if◌then◌else◌, ◌==◌, contains,
}
use mathlib.Core.Option.{some-injective}
use thread_forge.Domain.{TaskStatus, Task}
use thread_forge.TaskState.Fields.{
  TaskState, status_running, status_completed, status_stopped, status_failed,
}

-- A public status, a stop reason and a final answer.
pub record Outcome : Type 0 where
  pub status : TaskStatus
  pub stop_reason : String
  pub final_answer : String

abbrev interrupting : List String
interrupting = "service_restarted" ∷ "service_shutdown_timeout" ∷ []

abbrev blocking : List String
blocking =
    "approval_denied" ∷ "budget_exhausted" ∷ "convergence_guard_triggered" ∷ "no_changes_to_review"
    ∷ "retry_limit_reached" ∷ "review_retry_limit_reached" ∷ "step_limit_reached" ∷ []

-- The last branches, which the two functions share.
unfoldable pub failure_status : String → TaskStatus
failure_status reason =
    if contains reason interrupting
    then TaskStatus.interrupted
    else if contains reason blocking
    then TaskStatus.blocked
    else TaskStatus.failed

abbrev or_runtime_error : String → String
or_runtime_error reason = if reason == "" then "runtime_error" else reason

-- The branches of `_converge_terminal`, on the task state of the runtime, if there is one.
unfoldable pub observed : Bool → String → String → String → Outcome
unfolding failure_status
observed cancelled status reason answer =
    if cancelled
    then record { status = TaskStatus.cancelled; stop_reason = "user_cancelled"; final_answer = "" }
    else if status == status_completed && reason == "final_answer_returned"
    then record { status = TaskStatus.completed; stop_reason = reason; final_answer = answer }
    else if status == status_stopped && reason == "user_cancelled"
    then record { status = TaskStatus.cancelled; stop_reason = reason; final_answer = answer }
    else record {
      status = failure_status (or_runtime_error reason);
      stop_reason = or_runtime_error reason;
      final_answer = answer;
    }

-- A process that may still be there overrides them; the flag says if the cleanup had succeeded.
unfoldable pub checked : Bool → Outcome → Outcome
checked cleaned o =
    if o.stop_reason == "process_cleanup_failed" || not cleaned
    then record {
      status = TaskStatus.failed;
      stop_reason = "process_cleanup_failed";
      final_answer = "";
    }
    else o

unfoldable pub converged : Bool → Bool → Option TaskState → Outcome
unfolding observed checked
converged cancelled cleaned none = checked cleaned (observed cancelled "" "" "")
converged cancelled cleaned (some s) =
    checked cleaned (observed cancelled s.status s.stop_reason s.final_answer)

-- terminal_task_from_run; `none` for a file that is missing or is not a task state.
unfoldable pub terminal_task_from_run : Option TaskState → Task → Option Outcome
unfolding failure_status
terminal_task_from_run none t = none
terminal_task_from_run (some s) t =
    if t.run_id == ""
    then none
    else if not (s.run_id == t.run_id) || not (s.task_id == t.task_id) || s.status == status_running
    then none
    else if s.status == status_completed && s.stop_reason == "final_answer_returned"
    then some (record {
      status = TaskStatus.completed;
      stop_reason = s.stop_reason;
      final_answer = s.final_answer;
    })
    else if s.status == status_stopped && s.stop_reason == "user_cancelled"
    then some (record {
      status = TaskStatus.cancelled;
      stop_reason = s.stop_reason;
      final_answer = s.final_answer;
    })
    else if s.status == status_stopped || s.status == status_failed
    then some (record {
      status = failure_status s.stop_reason;
      stop_reason = s.stop_reason;
      final_answer = s.final_answer;
    })
    else none

abbrev foreign : TaskState → Task → Bool
foreign s t =
    not (s.run_id == t.run_id) || not (s.task_id == t.task_id) || s.status == status_running

-- What a restart recovers from a run's task state is what the runner would have published for it,
-- for a run that was not cancelled and whose processes are gone, as long as the task state says why
-- the run ended.
pub recovered-converged :
    (s : TaskState) (t : Task) (o : Outcome)
    → terminal_task_from_run (some s) t ≡ some o
    → (s.stop_reason == "") ≡ false
    → (s.stop_reason == "process_cleanup_failed") ≡ false
    → converged false true (some s) ≡ o
unfolding converged observed checked terminal_task_from_run
recovered-converged s t o h named gone = elim (Bool-cases (t.run_id == "")) [
  | inl unnamed ↦ let h' = rw unnamed at h in cc
  | inr run ↦ elim (Bool-cases (foreign s t)) [
    | inl other ↦ let h' = rw (run, other) at h in cc
    | inr own ↦
        elim (Bool-cases
          (s.status == status_completed && s.stop_reason == "final_answer_returned")) [
            | inl done ↦ some-injective _ _ (rw (done, gone) (rw (run, own, done) at h))
            | inr short ↦
                elim (Bool-cases
                  (s.status == status_stopped && s.stop_reason == "user_cancelled")) [
                    | inl stopped ↦
                        some-injective _ _
                          (rw (short, stopped, gone) (rw (run, own, short, stopped) at h))
                    | inr failed ↦
                        elim (Bool-cases
                          (s.status == status_stopped || s.status == status_failed)) [
                            | inl ended ↦ some-injective _ _ (
                                rw (short, failed, named, gone)
                                  (rw (run, own, short, failed, ended) at h))
                            | inr never ↦ let h' = rw (run, own, short, failed, never) at h in cc
                          ]
                  ]
          ]
  ]
]
