-- ===== src/TaskState/Codec.antt =====
-- `to_dict` and `from_dict`. `from_dict` gives `none` where `int` raises.
use thread_forge.Prelude.{
  String, Bool, false, Option, none, some, List, [], ◌∷◌, if◌then◌else◌, ◌==◌,
}
use thread_forge.Prelude.Int.{ℤ, pos, max_int}
use thread_forge.Prelude.Dict.{Dict, get}
use thread_forge.Json.{
  Json, bool, num, text, arr, obj, nil, cons, end, Items, Fields, Python, texts, objects, to_texts,
  to_objects, text_lists, to_text_lists, items_of,
}
use thread_forge.TaskState.Fields.{
  TaskState, status_running, phase_understand_request, first_step, default_checklist,
}

infixl 5 ◌>>=◌
abbrev ◌>>=◌ : {A B : Type 0} → Option A → (A → Option B) → Option B
none >>= f = none
some a >>= f = f a

-- d.get(k, default), with a default that is a value
abbrev or_else : Option Json → Json → Json
or_else none v = v
or_else (some w) v = w

text_at : Python → Dict Json → String → String → String
text_at py d k default = py.to_text (or_else (get d k) (text default))

int_at : Python → Dict Json → String → ℤ → Option ℤ
int_at py d k default = py.to_int (or_else (get d k) (num default))

-- int(d.get(k, 0) or 0)
int_or_zero : Python → Dict Json → String → Option ℤ
int_or_zero py d k =
    let v = or_else (get d k) (num (pos 0)) in if py.to_bool v then py.to_int v else some (pos 0)

bool_at : Python → Dict Json → String → Bool
bool_at py d k = py.to_bool (or_else (get d k) (bool false))

items_at : Dict Json → String → List String → Items
items_at d k default = items_of (or_else (get d k) (arr (texts default)))

abbrev fields_of : Json → Fields
fields_of (obj fs) = fs
fields_of _ = end

fields_at : Dict Json → String → Fields
fields_at d k = fields_of (or_else (get d k) (obj end))

-- [str(x) for x in xs if str(x).strip()]
unfoldable pub not_blank : Python → Items → List String
not_blank py nil = []
not_blank py (cons x xs) =
    let rest = not_blank py xs in
    if py.strip (py.to_text x) == "" then rest else py.to_text x ∷ rest

unfoldable pub to_dict : TaskState → Dict Json
to_dict s =
    ("run_id", text s.run_id)
    ∷ ("task_id", text s.task_id)
    ∷ ("user_request", text s.user_request)
    ∷ ("session_id", text s.session_id)
    ∷ ("workspace_id", text s.workspace_id)
    ∷ ("status", text s.status)
    ∷ ("tool_steps", num s.tool_steps)
    ∷ ("attempts", num s.attempts)
    ∷ ("last_tool", text s.last_tool)
    ∷ ("stop_reason", text s.stop_reason)
    ∷ ("final_answer", text s.final_answer)
    ∷ ("checkpoint_id", text s.checkpoint_id)
    ∷ ("resume_status", text s.resume_status)
    ∷ ("sandbox_violations", num s.sandbox_violations)
    ∷ ("malformed_output_recovered", num s.malformed_output_recovered)
    ∷ ("affected_paths", arr (texts s.affected_paths))
    ∷ ("phase", text s.phase)
    ∷ ("checklist", arr (texts s.checklist))
    ∷ ("done_when", arr (texts s.done_when))
    ∷ ("completed_items", arr (texts s.completed_items))
    ∷ ("step_done_when", obj (text_lists s.step_done_when))
    ∷ ("next_step", text s.next_step)
    ∷ ("requires_post_tool_reasoning", bool s.requires_post_tool_reasoning)
    ∷ ("read_files", num s.read_files)
    ∷ ("max_tool_steps", num s.max_tool_steps)
    ∷ ("max_read_files", num s.max_read_files)
    ∷ ("max_total_steps", num s.max_total_steps)
    ∷ ("plan_id", text s.plan_id)
    ∷ ("plan_revision", num s.plan_revision)
    ∷ ("plan_history", arr (objects s.plan_history))
    ∷ ("replan_reasons", arr (texts s.replan_reasons))
    ∷ ("intent", text s.intent)
    ∷ ("review_status", text s.review_status)
    ∷ ("budget_converged", bool s.budget_converged)
    ∷ ("run_finished_emitted", bool s.run_finished_emitted)
    ∷ ("talk_steps", num s.talk_steps)
    ∷ ("evidence", arr (objects s.evidence))
    ∷ ("rejected_finals", arr (objects s.rejected_finals))
    ∷ ("input_tokens", num s.input_tokens)
    ∷ ("output_tokens", num s.output_tokens)
    ∷ ("error_stage", text s.error_stage)
    ∷ ("error_code", text s.error_code)
    ∷ ("error_retryable", bool s.error_retryable)
    ∷ ("error_attempts", num s.error_attempts)
    ∷ ("stagnation_audit", arr (objects s.stagnation_audit))
    ∷ ("review_audit", arr (objects s.review_audit))
    ∷ []

unfoldable pub from_dict : Python → Dict Json → Option TaskState
unfolding text_at int_at int_or_zero bool_at items_at fields_at not_blank
from_dict py d = do
  tool_steps ← int_at py d "tool_steps" (pos 0)
  attempts ← int_at py d "attempts" (pos 0)
  sandbox_violations ← int_at py d "sandbox_violations" (pos 0)
  malformed_output_recovered ← int_at py d "malformed_output_recovered" (pos 0)
  read_files ← int_at py d "read_files" (pos 0)
  max_tool_steps ←
      py.to_int (or_else (get d "max_tool_steps") (or_else (get d "max_steps") (num (pos 6))))
  max_read_files ← int_at py d "max_read_files" (pos 4)
  max_total_steps ← int_at py d "max_total_steps" (pos 18)
  plan_revision ← int_at py d "plan_revision" (pos 0)
  talk_steps ← int_at py d "talk_steps" (pos 0)
  input_tokens ← int_or_zero py d "input_tokens"
  output_tokens ← int_or_zero py d "output_tokens"
  error_attempts ← int_or_zero py d "error_attempts"
  some (record {
    run_id = text_at py d "run_id" "";
    task_id = text_at py d "task_id" "";
    user_request = text_at py d "user_request" "";
    session_id = text_at py d "session_id" "";
    workspace_id = text_at py d "workspace_id" "";
    status = text_at py d "status" status_running;
    tool_steps = tool_steps;
    attempts = attempts;
    last_tool = text_at py d "last_tool" "";
    stop_reason = text_at py d "stop_reason" "";
    final_answer = text_at py d "final_answer" "";
    checkpoint_id = text_at py d "checkpoint_id" "";
    resume_status = text_at py d "resume_status" "";
    sandbox_violations = sandbox_violations;
    malformed_output_recovered = malformed_output_recovered;
    affected_paths = to_texts py (items_at d "affected_paths" []);
    phase = text_at py d "phase" phase_understand_request;
    checklist = to_texts py (items_at d "checklist" default_checklist);
    done_when = to_texts py (items_at d "done_when" []);
    completed_items = to_texts py (items_at d "completed_items" []);
    step_done_when = to_text_lists py (fields_at d "step_done_when");
    next_step = text_at py d "next_step" first_step;
    requires_post_tool_reasoning = bool_at py d "requires_post_tool_reasoning";
    read_files = read_files;
    max_tool_steps = max_int (pos 1) max_tool_steps;
    max_read_files = max_int (pos 0) max_read_files;
    max_total_steps = max_int (pos 1) max_total_steps;
    plan_id = text_at py d "plan_id" "";
    plan_revision = max_int (pos 0) plan_revision;
    plan_history = to_objects (items_at d "plan_history" []);
    replan_reasons = not_blank py (items_at d "replan_reasons" []);
    intent = text_at py d "intent" "";
    review_status = text_at py d "review_status" "";
    budget_converged = bool_at py d "budget_converged";
    run_finished_emitted = bool_at py d "run_finished_emitted";
    talk_steps = max_int (pos 0) talk_steps;
    evidence = to_objects (items_at d "evidence" []);
    rejected_finals = to_objects (items_at d "rejected_finals" []);
    input_tokens = max_int (pos 0) input_tokens;
    output_tokens = max_int (pos 0) output_tokens;
    error_stage = text_at py d "error_stage" "";
    error_code = text_at py d "error_code" "";
    error_retryable = bool_at py d "error_retryable";
    error_attempts = max_int (pos 0) error_attempts;
    stagnation_audit = to_objects (items_at d "stagnation_audit" []);
    review_audit = to_objects (items_at d "review_audit" []);
  })
