-- ===== src/Reconciliation.antt =====
-- api-server/src/threadforge_api/infrastructure/run_reconciliation.py, over the artifacts of a run;
-- `terminal_task_from_run` stands in TaskRunner/Outcome. The time of a trace event is an argument. A
-- missing file and a file that is no task state raise other errors than a disk that does not answer.
pub mod Converging
use thread_forge.Prelude.{
  String, Bool, true, false, Option, none, some, is_some, List, ◌==◌, ◌&&◌, not, if◌then◌else◌,
}
use thread_forge.Json.{Python, Json, Fields, text, obj, end, field, find_field}
use thread_forge.Security.{Secrets, redact_fields}
use thread_forge.Domain.{TaskStatus, Task, or_empty, record_corrupted, record_unavailable}
use thread_forge.TaskState.Fields.{
  TaskState, new_state, status_completed, status_stopped, status_failed,
}
use thread_forge.TaskState.Codec.{to_dict, from_dict}
use thread_forge.RunFiles.{files_of, to_fields}
use thread_forge.RunStore.{start_run, append_trace, write_report, load_task_state, load_report}
use thread_forge.Control.{Control, Exec, Result, ok, err, ◌>>=◌, ◌>>◌, pure, raise, gets, attempt}

abbrev pub decoded : Option TaskState → Exec TaskState
decoded none = raise record_corrupted
decoded (some s) = pure s

-- TaskState.from_dict(store.load_task_state(run_id))
unfoldable pub load_state : Python → String → Exec TaskState
load_state py run = do d ← load_task_state run; decoded (from_dict py d)

unfoldable pub run_status : TaskStatus → String
run_status TaskStatus.completed = status_completed
run_status TaskStatus.cancelled = status_stopped
run_status _ = status_failed

-- The `except` clause: all but an OSError other than FileNotFoundError.
unfoldable pub or_new : Task → Result TaskState → Exec TaskState
or_new t (ok s) = pure s
or_new t (err record_unavailable) = raise record_unavailable
or_new t (err _) = pure (new_state t.run_id t.task_id t.input)

-- The `try` of `converge_run_artifacts`.
unfoldable pub load_or_new : Python → Task → Exec TaskState
unfolding load_state or_new
load_or_new py t = do loaded ← attempt (load_state py t.run_id); or_new t loaded

unfoldable pub ended : TaskStatus → String → String → TaskState → TaskState
unfolding run_status
ended status reason answer s = record s {
  status = run_status status;
  stop_reason = reason;
  final_answer = answer;
}

abbrev pub run_event : String → String → String → String → Fields
run_event kind now status reason = field "event" (text kind) (
    field "created_at" (text now)
      (field "status" (text status) (field "stop_reason" (text reason) end)))

-- redact_artifact of the report, whose keys are not secret.
abbrev pub run_report : Secrets → TaskState → String → String → Fields
run_report z s reason answer = redact_fields z (
    field "status" (text s.status) (
      field "stop_reason" (text reason) (
        field "final_answer" (text answer) (field "task_state" (obj (to_fields (to_dict s))) end))))

unfoldable pub write_artifacts : Secrets → String → TaskState → Exec (Unit {0})
write_artifacts z now s = do
  start_run s
  append_trace s (run_event "run_interrupted" now s.status s.stop_reason)
  write_report s (run_report z s s.stop_reason s.final_answer)

unfoldable pub converge_run_artifacts :
    Python → Secrets → String → Task → TaskStatus → String → String → Exec (Unit {0})
unfolding ended
converge_run_artifacts py z now t status reason answer =
    if t.run_id == ""
    then pure tt
    else do s ← load_or_new py t; write_artifacts z now (ended status reason answer s)

-- `expected_status`, for the statuses that have one.
unfoldable pub expected_status : TaskStatus → Option String
expected_status TaskStatus.completed = some status_completed
expected_status TaskStatus.cancelled = some status_stopped
expected_status TaskStatus.failed = some status_failed
expected_status TaskStatus.interrupted = some status_failed
expected_status TaskStatus.blocked = some status_failed
expected_status _ = none

-- report.get(key) == value
abbrev pub reports : Fields → String → String → Bool
reports r key value = elim (find_field r key) [ some (text s) ↦ s == value | _ ↦ false ]

unfoldable pub agrees : Task → TaskState → Fields → Bool → String → Bool
agrees t s r traced status =
    (s.run_id == t.run_id && s.task_id == t.task_id)
    && ((s.status == status
          && (s.stop_reason == or_empty t.stop_reason && s.final_answer == or_empty t.final_answer))
        && (reports r "status" status
            && (reports r "stop_reason" (or_empty t.stop_reason) && traced)))

unfoldable pub agrees_as : Task → TaskState → Fields → Bool → Option String → Bool
unfolding agrees
agrees_as t s r traced none = false
agrees_as t s r traced (some status) = agrees t s r traced status

abbrev pub has_trace : String → Control → Bool
has_trace run c = is_some (files_of run c.run_files).trace

abbrev pub both : Python → String → Exec (TaskState × Fields)
both py run = do s ← load_state py run; r ← load_report run; pure (s, r)

abbrev pub matched : Task → Bool → Result (TaskState × Fields) → Bool
matched t traced (ok (s, r)) = agrees_as t s r traced (expected_status t.status)
matched t traced (err e) = false

unfoldable pub run_artifacts_match : Python → Task → Exec Bool
unfolding load_state agrees_as expected_status
run_artifacts_match py t = if t.run_id == "" then pure true else do
  loaded ← attempt (both py t.run_id)
  traced ← gets (has_trace t.run_id)
  pure (matched t traced loaded)

abbrev pub recorded : TaskState → String → Result Fields → Bool
recorded s reason (ok r) = reports r "status" s.status && reports r "stop_reason" reason
recorded s reason (err e) = false

abbrev pub repair_trace : String → TaskState → String → Exec (Unit {0})
repair_trace now s reason = append_trace s (run_event "run_recovered" now s.status reason)

abbrev pub repair_report : Secrets → TaskState → String → String → Result Fields → Exec (Unit {0})
repair_report z s reason answer reported =
    if recorded s reason reported then pure tt else write_report s (run_report z s reason answer)

unfoldable pub repair_terminal_run_artifacts :
    Python → Secrets → String → Task → String → String → Exec (Unit {0})
unfolding load_state
repair_terminal_run_artifacts py z now t reason answer = do
  s ← load_state py t.run_id
  traced ← gets (has_trace t.run_id)
  if traced then pure tt else repair_trace now s reason
  reported ← attempt (load_report t.run_id)
  repair_report z s reason answer reported
