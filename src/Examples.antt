-- ===== src/Examples.antt =====
-- Concrete inputs: one run whose tool call waits for an approval, a journal, a queue, a task state.
mod Streams
mod Gates
mod Runner
mod Starting
use thread_forge.Prelude.{
  ap, ◌≤◌, length, arith, String, ◌≡◌, refl, true, false, Option, none, some, List, [], ◌∷◌, ◌⊎◌,
  ◌==◌, inl, inr,
}
use thread_forge.Prelude.Dict
use thread_forge.Domain.{
  TaskStatus, ApprovalStatus, PendingApproval, Task, Approval, Error, approval_already_resolved,
  active_task_exists,
}
use thread_forge.Journal
use thread_forge.Publisher
use thread_forge.Control
use thread_forge.Control.{Control, Run, Fault, fine, unavailable, ok, err, disk, set_run, close}
use thread_forge.Repositories
use thread_forge.Repositories.Deleting
use thread_forge.Repositories.Listing
use thread_forge.Repositories.Steps.{drawn}
use thread_forge.OneUse
use thread_forge.Ids
use thread_forge.ApprovalPolicy
use thread_forge.ApprovalPolicy.{ApprovalOutcome, ApprovalRequest, Strategy}
use thread_forge.ApprovalPolicy.Modes
use thread_forge.ApprovalGate
use thread_forge.ApprovalGate.Request
use thread_forge.ApprovalGate.Decide
use thread_forge.ApprovalGate.Resolution
use thread_forge.ApprovalGate.Decision
use thread_forge.ApprovalGate.Requesting
use thread_forge.ApprovalGate.Settling
use thread_forge.ApprovalGate.Waking
use thread_forge.TaskRunner
use thread_forge.TaskRunner.Cancelling
use thread_forge.TaskRunner.Registering

abbrev pending_write : PendingApproval
pending_write = record {
  approval_id = "a1";
  tool_call_id = "c1";
  tool_name = "write_file";
  args_preview = "path";
  created_at = 10;
  expires_at = 40;
}

abbrev pub task_with : TaskStatus → Option PendingApproval → Task
task_with status pending = record {
  task_id = "t1";
  session_id = "s1";
  workspace_id = "w1";
  owner_id = "u1";
  run_id = "r1";
  input = "fix the build";
  execution_environment = "server";
  device_id = "";
  status = status;
  max_steps = 20;
  permission_mode = "default";
  model_id = "";
  reasoning_effort = "";
  provider_id = "";
  review_provider_id = "";
  review_model_id = "";
  review_reasoning_effort = "";
  run_index = [];
  final_answer = none;
  stop_reason = none;
  error_stage = "";
  error_code = "";
  error_retryable = false;
  error_attempts = 0;
  pending_approval = pending;
  created_at = 1;
  updated_at = 10;
  generation = 0;
  transition_id = none;
  schema_version = 5;
}

abbrev pub approval_with : ApprovalStatus → Approval
approval_with status = record {
  approval_id = "a1";
  task_id = "t1";
  run_id = "r1";
  owner_id = "u1";
  tool_call_id = "c1";
  tool_name = "write_file";
  args_digest = "d1";
  args_preview = "path";
  request_digest = "";
  status = status;
  decision = none;
  created_at = 10;
  expires_at = 40;
  decided_at = none;
  transition_id = none;
  schema_version = 5;
}

abbrev pub live_run : Run
live_run = record {
  task_id = "t1";
  run_id = "r1";
  owner_id = "u1";
  closed = false;
  generation = 0;
  cancelled = false;
  process_cleanup_succeeded = true;
}

-- The control plane with one task and one approval, and a disk that answers as told.
abbrev pub plane : Task → List (String × Approval) → List Fault → Control
plane t approvals faults = record {
  tasks = ("t1", t) ∷ [];
  approvals = approvals;
  journal = Journal.new;
  run_files = [];
  publisher = Publisher.new;
  runs = ("r1", live_run) ∷ [];
  task_gates = ("t1", "r1") ∷ [];
  contexts = ("t1", "r1") ∷ [];
  active_task = some "t1";
  degraded = false;
  shutting_down = false;
  clock = 20;
  faults = faults;
}

abbrev waiting : List Fault → Control
waiting fs =
    plane (task_with TaskStatus.waiting_for_approval (some pending_write))
      (("a1", approval_with ApprovalStatus.pending) ∷ []) fs

abbrev decided : Control
decided =
    plane (task_with TaskStatus.running none) (("a1", approval_with ApprovalStatus.approved) ∷ [])
      []

abbrev stopping : Control
stopping =
    plane (task_with TaskStatus.cancel_requested (some pending_write))
      (("a1", approval_with ApprovalStatus.pending) ∷ []) []

-- The write of the approval fails after that of the task.
abbrev half_written : Control
half_written = waiting (fine ∷ fine ∷ fine ∷ fine ∷ fine ∷ unavailable ∷ [])

resolve_locked-Atomic_example :
    Resolution.Atomic live_run "a1" ApprovalStatus.approved "approved" "x1"
      (ApprovalGate.resolve_locked live_run "a1" ApprovalStatus.approved "approved" "x1"
        half_written).0
      half_written
      (ApprovalGate.resolve_locked live_run "a1" ApprovalStatus.approved "approved" "x1"
        half_written).1
resolve_locked-Atomic_example =
    Resolution.resolve_locked-Atomic live_run "a1" ApprovalStatus.approved "approved" "x1"
      half_written

abbrev write_call : Request.ToolCall
write_call = record {
  tool_call_id = "c1";
  tool_name = "write_file";
  digest = "d1";
  preview = "path";
}

abbrev idle_plane : Control
idle_plane = plane (task_with TaskStatus.running none) [] (fine ∷ fine ∷ unavailable ∷ [])

open_request-Opened_example :
    Requesting.Opened live_run "a1" write_call 30 "x1"
      (Request.open_request live_run "a1" write_call 30 "x1" idle_plane).0
      idle_plane
      (Request.open_request live_run "a1" write_call 30 "x1" idle_plane).1
open_request-Opened_example =
    Requesting.open_request-Opened live_run "a1" write_call 30 "x1" idle_plane

apply_decision-refused_example :
    Decision.Harmless (Decide.apply_decision "a1" "approved" "x1") stopping
unfolding Dict.get
apply_decision-refused_example =
    Decision.apply_decision-refused "a1" "approved" "x1" stopping
      (approval_with ApprovalStatus.pending)
      (task_with TaskStatus.cancel_requested (some pending_write)) refl refl (inl refl)

apply_decision-decided_example :
    Decision.Harmless (Decide.apply_decision "a1" "rejected" "x1") decided
unfolding Dict.get
apply_decision-decided_example =
    Decision.apply_decision-decided "a1" "rejected" "x1" decided
      (approval_with ApprovalStatus.approved) refl refl

settle_calm :
    (Request.settle live_run "a1" "d1" "x1" ApprovalOutcome.approved decided).0
    ≡ ok ApprovalOutcome.approved
unfolding Request.settle Repositories.get_approval Repositories.read_approval disk Dict.get
settle_calm = refl

settle-approved_example :
    (live_run.cancelled ≡ false)
    × ((a : Approval) × (Dict.get decided.approvals "a1" ≡ some a)
        × (((ApprovalOutcome.approved ≡ ApprovalOutcome.approved)
              × ((a.args_digest == "d1") ≡ true))
            ⊎ ((ApprovalOutcome.approved ≡ ApprovalOutcome.expired)
                × (a.status ≡ ApprovalStatus.approved))))
settle-approved_example =
    Settling.settle-approved live_run "a1" "d1" "x1" ApprovalOutcome.approved decided settle_calm

abbrev edit_request : ApprovalRequest
edit_request = record { name = "patch_file"; args = "{}"; tool_call_id = "c1" }

strategy_for_mode-promised_example :
    (ApprovalPolicy.decide (ApprovalPolicy.strategy_for_mode "bypass" Strategy.never) edit_request
      ≡ ApprovalOutcome.approved)
    × (ApprovalPolicy.decide (ApprovalPolicy.strategy_for_mode "auto" Strategy.never) edit_request
        ≡ ApprovalOutcome.approved)
    × (ApprovalPolicy.decide (ApprovalPolicy.strategy_for_mode "plan" Strategy.never) edit_request
        ≡ ApprovalOutcome.rejected)
    × (ApprovalPolicy.decide (ApprovalPolicy.strategy_for_mode "never" Strategy.never) edit_request
        ≡ ApprovalOutcome.rejected)
    × (ApprovalPolicy.decide
          (ApprovalPolicy.strategy_for_mode "acceptEdits" Strategy.never)
          edit_request
        ≡ ApprovalOutcome.approved)
    × (ApprovalPolicy.decide
          (ApprovalPolicy.strategy_for_mode "default" Strategy.never)
          edit_request
        ≡ ApprovalPolicy.decide Strategy.never edit_request)
    × (ApprovalPolicy.decide
          (ApprovalPolicy.strategy_for_policy "acceptEdits" (λ q. none))
          edit_request
        ≡ ApprovalOutcome.approved)
    × (ApprovalPolicy.decide (ApprovalPolicy.strategy_for_policy "default" (λ q. none)) edit_request
        ≡ ApprovalPolicy.decide (Strategy.ask (λ q. none)) edit_request)
strategy_for_mode-promised_example =
    Modes.strategy_for_mode-promised "default" Strategy.never (λ q. none) edit_request refl

delete_many-active_example :
    (e : Error) × ((Repositories.delete_many (λ x. x) ("t0" ∷ "t1" ∷ []) "u1" decided).0 ≡ err e)
    × ((Repositories.delete_many (λ x. x) ("t0" ∷ "t1" ∷ []) "u1" decided).1.tasks ≡ decided.tasks)
unfolding Dict.get
delete_many-active_example =
    Deleting.delete_many-active (λ x. x) ("t0" ∷ []) [] "t1" "u1" decided
      (task_with TaskStatus.running none) refl refl refl

abbrev request_one : TaskRunner.RunRequest
request_one = record {
  task_id = "t1";
  run_id = "r1";
  session_id = "s1";
  workspace_id = "w1";
  owner_id = "u1";
  input = "fix the build";
  max_steps = 20;
  permission_mode = "default";
}

abbrev free_plane : Control
free_plane = record decided { active_task = none; contexts = []; runs = []; task_gates = [] }

register_free : (TaskRunner.register request_one true free_plane).0 ≡ ok live_run
unfolding TaskRunner.register TaskRunner.is_available
register_free = refl

register-exclusive_example :
    (TaskRunner.is_available free_plane ≡ true)
    × (free_plane.active_task ≡ none)
    × ((TaskRunner.register request_one true free_plane).1.active_task ≡ some "t1")
    × (TaskRunner.get_context "t1" (TaskRunner.register request_one true free_plane).1
        ≡ some live_run)
    × (TaskRunner.register request_one true (TaskRunner.register request_one true free_plane).1
        ≡ (err active_task_exists, (TaskRunner.register request_one true free_plane).1))
    × ((e : Error) × (TaskRunner.register request_one true
            (set_run "r1" close (TaskRunner.register request_one true free_plane).1)
          ≡ (err e, set_run "r1" close (TaskRunner.register request_one true free_plane).1)))
unfolding set_run TaskRunner.register Dict.get Dict.put
register-exclusive_example =
    Registering.register-exclusive request_one request_one true true free_plane
      (set_run "r1" close (TaskRunner.register request_one true free_plane).1) live_run
      register_free refl

cancel_calm : (TaskRunner.cancel "t1" ("a1" ∷ []) (some true) (waiting [])).0 ≡ ok true
unfolding TaskRunner.cancel TaskRunner.get_context TaskRunner.cancel_run TaskRunner.request_cancel
    TaskRunner.excused TaskRunner.conclude TaskRunner.terminate_shell Control.set_run
    Decide.cancel_pending Decide.cancel_each Repositories.list_pending_for_task
    Repositories.update_approval Repositories.read_approval Repositories.write_approval
    Repositories.get_task Repositories.read_task Repositories.update_task Repositories.write_task
    disk Dict.get Dict.put
cancel_calm = refl

context_found : TaskRunner.get_context "t1" (waiting []) ≡ some live_run
unfolding TaskRunner.get_context Dict.get
context_found = refl

cancel-effective_example :
    Cancelling.IsCancelled
      (Dict.get (TaskRunner.cancel "t1" ("a1" ∷ []) (some true) (waiting [])).1.runs "r1")
    × Cancelling.Stopped live_run
        (Dict.get (TaskRunner.cancel "t1" ("a1" ∷ []) (some true) (waiting [])).1.tasks "t1")
unfolding Dict.get
cancel-effective_example =
    Cancelling.cancel-effective "t1" ("a1" ∷ []) (some true) (waiting []) live_run context_found
      refl cancel_calm

resolved_calm :
    ApprovalGate.resolve_locked live_run "a1" ApprovalStatus.approved "approved" "x1" (waiting [])
    ≡ (
      ok tt,
      (ApprovalGate.resolve_locked live_run "a1" ApprovalStatus.approved "approved" "x1"
          (waiting [])).1,
    )
unfolding ApprovalGate.resolve_locked ApprovalGate.write_resolution ApprovalGate.journal_begin
    ApprovalGate.journal_commit ApprovalGate.announce ApprovalGate.clear_pending_approval
    ApprovalGate.set_decided Repositories.update_approval Repositories.read_approval
    Repositories.write_approval Repositories.get_task Repositories.read_task
    Repositories.update_task Repositories.write_task disk Dict.get Dict.put
resolved_calm = refl

still_calm :
    (ApprovalGate.resolve_locked live_run "a1" ApprovalStatus.approved "approved" "x1"
      (waiting [])).1.faults
    ≡ []
unfolding ApprovalGate.resolve_locked ApprovalGate.write_resolution ApprovalGate.journal_begin
    ApprovalGate.journal_commit ApprovalGate.announce ApprovalGate.clear_pending_approval
    ApprovalGate.set_decided Repositories.update_approval Repositories.read_approval
    Repositories.write_approval Repositories.get_task Repositories.read_task
    Repositories.update_task Repositories.write_task disk Dict.get Dict.put
still_calm = refl

resolve_locked-poll_example :
    (Request.poll live_run "a1" 40
      (ApprovalGate.resolve_locked live_run "a1" ApprovalStatus.approved "approved" "x1"
        (waiting [])).1).0
    ≡ ok (some ApprovalOutcome.approved)
resolve_locked-poll_example =
    Waking.resolve_locked-poll live_run live_run "a1" ApprovalStatus.approved "approved" "x1" 40
      (waiting []) (ap (λ x. x.0) resolved_calm) still_calm refl

list_for_session-IsPage_example :
    let all = Listing.matching "s1" "u1" ("t0" ∷ "t1" ∷ []) (waiting []).tasks in
    Listing.IsPage all 5
      (Listing.list_for_session (λ x. x) ("t0" ∷ "t1" ∷ []) "s1" "u1" 5 (waiting [])).0
    × (Listing.list_for_session (λ x. x) ("t0" ∷ "t1" ∷ []) "s1" "u1" 5 (drawn [] (waiting []))
        ≡ (ok (Listing.first 5 all, length all), drawn [] (waiting [])))
list_for_session-IsPage_example =
    Listing.list_for_session-IsPage (λ x. x) ("t0" ∷ "t1" ∷ []) "s1" "u1" 5 (waiting [])

abbrev one_code : Dict.Dict (OneUse.Entry String)
one_code = ("AB12", record { item = "u1"; expires_at = 610 }) ∷ []

consume-once_example : (OneUse.consume 40 "AB12" (OneUse.consume 20 "AB12" one_code).1).0 ≡ none
consume-once_example = OneUse.consume-once 20 40 "AB12" one_code

task_id_passes : (Ids.validate_task_id "task_0123456789abcdef0123456789abcdef" decided).0 ≡ ok tt
unfolding Ids.validate_task_id Ids.fullmatch Ids.hex_digits
task_id_passes = refl

validate-stays_example : Ids.stays_inside "task_0123456789abcdef0123456789abcdef" ≡ true
validate-stays_example =
    Ids.validate-stays "task_0123456789abcdef0123456789abcdef" decided (inr (inl task_id_passes))
