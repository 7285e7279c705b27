-- ===== src/Finalization.antt =====
-- pico-legacy-runtime/pico/run_lifecycle.py: the files of a run at its end, each written whatever
-- became of the others. The store is the fenced one of the server. `event` and `report` make the trace's
-- event and the redacted report of a state; `error` is the text of a failed run.
pub mod Told
use thread_forge.Prelude.{
  String, Bool, true, false, List, [], ◌∷◌, ◌&&◌, not, contains, if◌then◌else◌, ◌==◌,
}
use thread_forge.Json.{Fields}
use thread_forge.TaskState.Fields.{TaskState, status_running, status_failed}
use thread_forge.TaskState.Progress.{stop}
use thread_forge.RunStore.{guarded, write_task_state, append_trace, write_report}
use thread_forge.Control.{
  Control, Run, Exec, Result, ok, err, ◌>>=◌, ◌>>◌, pure, attempt, succeeded,
}

unfoldable pub fail_to_persist : TaskState → TaskState
unfolding stop
fail_to_persist s =
    stop "persistence_error" status_failed "agent run finalization failed: persistence error" s

abbrev pub finished : TaskState → TaskState
finished s = record s { run_finished_emitted = true }

abbrev pub fail_unless : Bool → TaskState → TaskState
fail_unless b s = if b then s else fail_to_persist s

-- The report, and the state again if the report could not be written.
unfoldable pub store_report :
    Run → (TaskState → Fields) → TaskState → Result (Unit {0}) → Exec TaskState
store_report r report s (ok _) = pure s
store_report r report s (err e) = do
  attempt (guarded r (write_task_state (fail_to_persist s)))
  pure (fail_to_persist s)

module _ (event report : TaskState → Fields) where
  -- The event, unless it was sent; tells whether it is there.
  unfoldable pub emit_finished : Run → TaskState → Exec Bool
  emit_finished r s =
      if s.run_finished_emitted
      then pure true
      else do sent ← attempt (guarded r (append_trace s (event s))); pure (succeeded sent)

  unfoldable pub finalize_run : Run → TaskState → Exec TaskState
  unfolding emit_finished store_report
  finalize_run r s = do
    stored ← attempt (guarded r (write_task_state s))
    sent ← emit_finished r s
    let t : TaskState = fail_unless (succeeded stored && sent) (if sent then finished s else s)
    reported ← attempt (guarded r (write_report t (report t)))
    store_report r report t reported

  abbrev failures : List String
  failures = "model_error" ∷ "runtime_error" ∷ "persistence_error" ∷ []

  abbrev failure_of : String → String
  failure_of reason = if contains reason failures then reason else "runtime_error"

  unfoldable pub finalize_failed_run : Run → String → String → TaskState → Exec TaskState
  unfolding finalize_run
  finalize_failed_run r error reason s =
      finalize_run r
        (if s.status == status_running then stop (failure_of reason) status_failed error s else s)
