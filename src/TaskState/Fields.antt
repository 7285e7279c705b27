-- ===== src/TaskState/Fields.antt =====
-- The constants and the fields of `TaskState`, and its default values.
use thread_forge.Prelude.{String, Bool, List, [], ◌∷◌, false}
use thread_forge.Prelude.Int.{ℤ, pos}
use thread_forge.Prelude.Dict.{Dict}
use thread_forge.Json.{Fields}

abbrev pub status_running : String
status_running = "running"

abbrev pub status_completed : String
status_completed = "completed"

abbrev pub status_stopped : String
status_stopped = "stopped"

abbrev pub status_failed : String
status_failed = "failed"

abbrev pub phase_understand_request : String
phase_understand_request = "UNDERSTAND_REQUEST"

abbrev pub phase_gather_context : String
phase_gather_context = "GATHER_CONTEXT"

abbrev pub phase_analyze_context : String
phase_analyze_context = "ANALYZE_CONTEXT"

abbrev pub phase_act_or_answer : String
phase_act_or_answer = "ACT_OR_ANSWER"

abbrev pub phase_verify : String
phase_verify = "VERIFY"

abbrev pub phase_final : String
phase_final = "FINAL"

abbrev pub task_phases : List String
task_phases =
    phase_understand_request ∷ phase_gather_context ∷ phase_analyze_context ∷ phase_act_or_answer
    ∷ phase_verify ∷ phase_final ∷ []

abbrev pub first_step : String
first_step = "Understand the request and acceptance criteria"

abbrev pub gather_step : String
gather_step = "Gather the minimum workspace context"

abbrev pub analyze_step : String
analyze_step = "Analyze evidence and choose the next action"

abbrev pub default_checklist : List String
default_checklist =
    first_step ∷ gather_step ∷ analyze_step ∷ "Act or prepare a grounded answer"
    ∷ "Verify the result before finishing" ∷ []

pub record TaskState : Type 0 where
  pub run_id : String
  pub task_id : String
  pub user_request : String
  pub session_id : String
  pub workspace_id : String
  pub status : String
  pub tool_steps : ℤ
  pub attempts : ℤ
  pub last_tool : String
  pub stop_reason : String
  pub final_answer : String
  pub checkpoint_id : String
  pub resume_status : String
  pub sandbox_violations : ℤ
  pub malformed_output_recovered : ℤ
  pub affected_paths : List String
  pub phase : String
  pub checklist : List String
  pub done_when : List String
  pub completed_items : List String
  pub step_done_when : Dict (List String)
  pub next_step : String
  pub requires_post_tool_reasoning : Bool
  pub read_files : ℤ
  pub max_tool_steps : ℤ
  pub max_read_files : ℤ
  pub max_total_steps : ℤ
  pub plan_id : String
  pub plan_revision : ℤ
  pub plan_history : List Fields
  pub replan_reasons : List String
  pub intent : String
  pub review_status : String
  pub budget_converged : Bool
  pub run_finished_emitted : Bool
  pub talk_steps : ℤ
  pub evidence : List Fields
  pub rejected_finals : List Fields
  pub input_tokens : ℤ
  pub output_tokens : ℤ
  pub error_stage : String
  pub error_code : String
  pub error_retryable : Bool
  pub error_attempts : ℤ
  pub stagnation_audit : List Fields
  pub review_audit : List Fields

-- The dataclass's defaults, for the three fields that it takes.
unfoldable pub new_state : String → String → String → TaskState
new_state run task request = record {
  run_id = run;
  task_id = task;
  user_request = request;
  session_id = "";
  workspace_id = "";
  status = status_running;
  tool_steps = pos 0;
  attempts = pos 0;
  last_tool = "";
  stop_reason = "";
  final_answer = "";
  checkpoint_id = "";
  resume_status = "";
  sandbox_violations = pos 0;
  malformed_output_recovered = pos 0;
  affected_paths = [];
  phase = phase_understand_request;
  checklist = [];
  done_when = [];
  completed_items = [];
  step_done_when = [];
  next_step = first_step;
  requires_post_tool_reasoning = false;
  read_files = pos 0;
  max_tool_steps = pos 6;
  max_read_files = pos 4;
  max_total_steps = pos 18;
  plan_id = "";
  plan_revision = pos 0;
  plan_history = [];
  replan_reasons = [];
  intent = "";
  review_status = "";
  budget_converged = false;
  run_finished_emitted = false;
  talk_steps = pos 0;
  evidence = [];
  rejected_finals = [];
  input_tokens = pos 0;
  output_tokens = pos 0;
  error_stage = "";
  error_code = "";
  error_retryable = false;
  error_attempts = pos 0;
  stagnation_audit = [];
  review_audit = [];
}
