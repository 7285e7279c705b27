-- ===== src/Examples/Runner.antt =====
-- Concrete inputs: a run from its start to its end, and what its hooks say.
use thread_forge.Prelude.{ℕ, String, ◌≡◌, refl, Bool, true, none, some, List, [], ◌∷◌, ◌⊎◌}
use thread_forge.Prelude.Dict
use thread_forge.Prelude.Dict.{Dict}
use thread_forge.Domain.{TaskStatus, Task}
use thread_forge.Json
use thread_forge.Finalization
use thread_forge.Finalization.Told
use thread_forge.TaskState.Fields.{TaskState}
use thread_forge.Security
use thread_forge.RunFiles
use thread_forge.RunFiles.{RunFiles}
use thread_forge.Control
use thread_forge.Control.{Control, Run, ok}
use thread_forge.Repositories
use thread_forge.ApprovalGate.Decide
use thread_forge.Repositories.Steps.{drawn}
use thread_forge.Reconciliation
use thread_forge.Reconciliation.Converging
use thread_forge.TaskRunner
use thread_forge.TaskRunner.{RunRequest}
use thread_forge.TaskRunner.Outcome
use thread_forge.TaskRunner.Ending
use thread_forge.TaskRunner.Ending.Durable
use thread_forge.TaskRunner.Worker
use thread_forge.TaskRunner.Shutdown
use thread_forge.ExecutionBoundary
use thread_forge.ExecutionBoundary.{
  Boundary, HookCall, before_model, before_tool, after_tool, commentary,
}
use thread_forge.ExecutionBoundary.Silence
use thread_forge.Examples.{task_with, plane, live_run}
use thread_forge.Examples.Streams.{plain, plain-IsPython}
use thread_forge.Examples.Gates.{secrets, written_run}

abbrev pub running : Task
running = task_with TaskStatus.running none

abbrev control : Control
control = plane running [] []

abbrev request : RunRequest
request = record {
  task_id = "t1";
  run_id = "r1";
  session_id = "s1";
  workspace_id = "w1";
  owner_id = "u1";
  input = "fix the build";
  max_steps = 20;
  permission_mode = "default";
}

kept : Converging.Keeps secrets "failed" "service_restarted"
unfolding Security.is_secret Security.redact_text
kept = record { status_key = refl; reason_key = refl; status_text = refl; reason_text = refl }

unheld : Converging.owned plain running (RunFiles.files_of "r1" control.run_files).task_state ≡ true
unfolding Dict.get
unheld = refl

kept_status :
    Converging.Keeps secrets (Reconciliation.run_status TaskStatus.interrupted) "service_restarted"
unfolding Reconciliation.run_status
kept_status = kept

converge_run_artifacts-match_example :
    (d : Dict RunFiles) × (Reconciliation.converge_run_artifacts plain secrets "now" running
        TaskStatus.interrupted "service_restarted" ""
        (drawn [] control)
      ≡ (ok tt, record control { faults = []; run_files = d }))
    × (Reconciliation.run_artifacts_match plain
          (TaskRunner.set_terminal TaskStatus.interrupted "service_restarted" "" running)
          (record control { faults = []; run_files = d })
        ≡ (ok true, record control { faults = []; run_files = d }))
converge_run_artifacts-match_example =
    Converging.converge_run_artifacts-match plain secrets "now" running TaskStatus.interrupted
      "service_restarted" "" control plain-IsPython kept_status refl refl unheld

abbrev now_run : Run
now_run = Ending.or_same (Dict.get control.runs live_run.run_id) live_run

finish-Released_example :
    (d : Control) × (Ending.finish plain secrets "now" request live_run []
        (some written_run)
        control
      ≡ (ok tt, d))
    × (Durable.Released request
          (Outcome.converged now_run.cancelled now_run.process_cleanup_succeeded (some written_run))
          d
        ⊎ Durable.Withheld control d)
finish-Released_example =
    Durable.finish-Released plain secrets "now" request live_run [] (some written_run) control

begin_run-Settles_example :
    (go : Bool) × (d : Control) × (Worker.begin_run plain secrets "now" request live_run control
      ≡ (ok go, d))
    × Worker.Begun request go d
begin_run-Settles_example = Worker.begin_run-Settles plain secrets "now" request live_run control

expire_run-Interrupted_example :
    (d : Control) × (Shutdown.expire_run plain secrets "now" "t1" live_run control ≡ (ok tt, d))
    × (Shutdown.Interrupted "t1" d ⊎ (d.degraded ≡ true))
expire_run-Interrupted_example =
    Shutdown.expire_run-Interrupted plain secrets "now" "t1" live_run control

abbrev show : ℕ → String
show n = "n"

abbrev idle : Boundary
idle = record { active_tools = []; model_round = 0; model_round_id = "" }

abbrev calls : List HookCall
calls =
    before_model
    ∷ before_tool "c2" "read_file"
    ∷ after_tool "c2" "ok" "" []
    ∷ commentary "on it"
    ∷ []

context_found : TaskRunner.get_context "t1" control ≡ some live_run
unfolding TaskRunner.get_context Dict.get
context_found = refl

run_found : Dict.get control.runs "r1" ≡ some live_run
unfolding Dict.get
run_found = refl

cancelled : (TaskRunner.cancel "t1" [] none control).0 ≡ ok true
unfolding TaskRunner.cancel TaskRunner.get_context TaskRunner.cancel_run TaskRunner.excused
    TaskRunner.request_cancel TaskRunner.conclude Repositories.get_task Repositories.read_task
    Repositories.update_task Repositories.write_task Repositories.list_pending_for_task
    Decide.cancel_pending Control.disk Dict.get
cancelled = refl

cancel-run_hooks_example :
    (ExecutionBoundary.run_hooks show live_run calls idle
      (TaskRunner.cancel "t1" [] none control).1).1
    ≡ (TaskRunner.cancel "t1" [] none control).1
cancel-run_hooks_example =
    Silence.cancel-run_hooks show "t1" [] none control live_run calls idle context_found run_found
      cancelled

abbrev told : TaskState → Json.Fields
told s = Json.field "status" (Json.text s.status) Json.end

finalize_run-IsTold_example :
    (t : TaskState) × (d : Control) × (Finalization.finalize_run told told live_run written_run
        control
      ≡ (ok t, d))
    × (Told.IsFailed t
        ⊎ Told.IsTold told written_run t (RunFiles.files_of written_run.run_id d.run_files))
finalize_run-IsTold_example = Told.finalize_run-IsTold told told live_run written_run control
