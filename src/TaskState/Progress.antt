-- ===== src/TaskState/Progress.antt =====
-- The operations of `TaskState`. `none` is an exception that leaves the object as it was or that
-- the caller lets end the run. Texts that the source makes by `uuid4` or from the clock, and
-- `sorted`, are arguments.
use Prim.Native.String.{◌++◌ as append_text}
use thread_forge.Prelude.{
  String, Bool, true, false, Option, none, some, List, [], ◌∷◌, ◌++◌, ◌&&◌, not, ◌==◌,
  if◌then◌else◌, contains,
}
use thread_forge.Prelude.Int.{ℤ, pos, max_int, ◌+ℤ◌}
use thread_forge.Prelude.Dict.{Dict, get}
use thread_forge.Json.{Json, Fields, Python, text, set_default, clip}
use thread_forge.TaskState.Fields.{
  TaskState, new_state, default_checklist, task_phases, gather_step, analyze_step, status_completed,
  status_stopped, status_failed, phase_analyze_context, phase_act_or_answer, phase_verify,
  phase_final,
}

-- The caller gives the run id: a missing one is made from the clock and `uuid4`.
unfoldable pub create : String → String → String → ℤ → ℤ → Option ℤ → String → String → TaskState
unfolding new_state
create run task request tools reads total session workspace =
    let tools' = max_int (pos 1) tools in
    let total' : ℤ = elim total [
      | none ↦ max_int (tools' +ℤ (tools' +ℤ tools')) (tools' +ℤ pos 4)
      | some n ↦ n
    ] in
    record (new_state run task request) {
      session_id = session;
      workspace_id = workspace;
      checklist = default_checklist;
      done_when =
          "A final answer is grounded in the collected evidence"
          ∷ "The requested work is verified or its blocker is explicit" ∷ [];
      max_tool_steps = tools';
      max_read_files = max_int (pos 0) reads;
      max_total_steps = max_int (pos 1) total';
    }

-- `if item not in items: items.append(item)`
abbrev pub add_item : String → List String → List String
add_item item items = if contains item items then items else items ++ item ∷ []

unfoldable pub set_phase : Python → String → String → String → TaskState → Option TaskState
set_phase py raw next item s =
    let phase = py.upper (py.strip raw) in
    if contains phase task_phases
    then some (record s {
      phase = phase;
      completed_items = if item == "" then s.completed_items else add_item item s.completed_items;
      next_step = if next == "" then s.next_step else next;
    })
    else none

unfoldable pub begin_post_tool_reasoning : Python → String → TaskState → Option TaskState
begin_post_tool_reasoning py tool s =
    set_phase py phase_analyze_context
      (append_text "Summarize the "
        (append_text tool " result and decide whether more evidence is needed"))
      "" (record s { requires_post_tool_reasoning = true })

unfoldable pub finish_post_tool_reasoning : Python → String → TaskState → Option TaskState
finish_post_tool_reasoning py decision s =
    let t : TaskState = record s {
      requires_post_tool_reasoning = false;
      completed_items = add_item analyze_step (add_item gather_step s.completed_items);
    } in
    if decision == "final"
    then set_phase py phase_verify "Verify the evidence before returning the final answer" "" t
    else set_phase py phase_act_or_answer "Choose the next tool or prepare the final answer" "" t

unfoldable pub record_read_file : TaskState → TaskState
record_read_file s = record s { read_files = s.read_files +ℤ pos 1 }

unfoldable pub record_attempt : TaskState → TaskState
record_attempt s = record s { attempts = s.attempts +ℤ pos 1 }

unfoldable pub record_tool : String → TaskState → TaskState
record_tool name s = record s { tool_steps = s.tool_steps +ℤ pos 1; last_tool = name }

unfoldable pub record_sandbox_violation : TaskState → TaskState
record_sandbox_violation s = record s { sandbox_violations = s.sandbox_violations +ℤ pos 1 }

unfoldable pub record_malformed_output_recovered : TaskState → TaskState
record_malformed_output_recovered s = record s {
  malformed_output_recovered = s.malformed_output_recovered +ℤ pos 1;
}

unfoldable pub record_talk : TaskState → TaskState
record_talk s = record s { talk_steps = s.talk_steps +ℤ pos 1 }

-- max(0, int(metadata.get(k) or 0))
unfoldable pub usage : Python → Dict Json → String → Option ℤ
usage py d k = elim (get d k) [
  | none ↦ some (pos 0)
  | some v ↦
      if py.to_bool v
      then elim (py.to_int v) [ none ↦ none | some n ↦ some (max_int (pos 0) n) ]
      else some (pos 0)
]

-- The flag tells whether an `int` raised; the input tokens are added before the output's are read.
unfoldable pub record_model_usage : Python → Dict Json → TaskState → TaskState × Bool
record_model_usage py d s = elim (usage py d "input_tokens") [
  | none ↦ (s, true)
  | some i ↦
      let t : TaskState = record s { input_tokens = s.input_tokens +ℤ i } in
      elim (usage py d "output_tokens") [
        | none ↦ (t, true)
        | some o ↦ (record t { output_tokens = s.output_tokens +ℤ o }, false)
      ]
]

unfoldable pub record_error : String → String → Bool → ℤ → TaskState → TaskState
record_error stage code retryable attempts s = record s {
  error_stage = clip 64 stage;
  error_code = clip 100 code;
  error_retryable = retryable;
  error_attempts = max_int (pos 0) attempts;
}

unfoldable pub record_evidence : Fields → String → String → TaskState → TaskState
record_evidence evidence fresh_id now s =
    let e = set_default evidence "evidence_id" (text fresh_id) in
    let e' = set_default (set_default e "run_id" (text s.run_id)) "task_id" (text s.task_id) in
    record s { evidence = s.evidence ++ set_default e' "created_at" (text now) ∷ [] }

unfoldable pub complete_item : Python → String → TaskState → TaskState
complete_item py raw s =
    let item = py.strip raw in
    if not (item == "") && (contains item s.checklist && not (contains item s.completed_items))
    then record s { completed_items = s.completed_items ++ item ∷ [] }
    else s

-- {str(path).strip() for path in paths if str(path).strip()}, joined to the set `known`
unfoldable pub join_paths : Python → List String → List String → List String
join_paths py [] known = known
join_paths py (p ∷ ps) known =
    join_paths py ps (if py.strip p == "" then known else add_item (py.strip p) known)

-- set(xs), joined to the set `known`
unfoldable pub as_set : List String → List String → List String
as_set [] known = known
as_set (x ∷ xs) known = as_set xs (add_item x known)

unfoldable pub record_affected_paths :
    Python → (List String → List String) → List String → TaskState → TaskState
unfolding join_paths as_set
record_affected_paths py sorted paths s = record s {
  affected_paths = sorted (join_paths py paths (as_set s.affected_paths []));
}

unfoldable pub stop : String → String → String → TaskState → TaskState
stop reason status answer s = record s {
  status = status;
  stop_reason = reason;
  final_answer = if answer == "" then s.final_answer else answer;
}

unfoldable pub stop_step_limit : String → TaskState → TaskState
unfolding stop
stop_step_limit answer = stop "step_limit_reached" status_stopped answer

unfoldable pub stop_convergence_guard : String → TaskState → TaskState
unfolding stop
stop_convergence_guard answer = stop "convergence_guard_triggered" status_stopped answer

unfoldable pub stop_retry_limit : String → TaskState → TaskState
unfolding stop
stop_retry_limit answer = stop "retry_limit_reached" status_stopped answer

unfoldable pub stop_user_cancelled : String → TaskState → TaskState
unfolding stop
stop_user_cancelled answer = stop "user_cancelled" status_stopped answer

unfoldable pub stop_model_error : String → TaskState → TaskState
unfolding stop
stop_model_error answer = stop "model_error" status_failed answer

unfoldable pub finish_success : Python → String → TaskState → Option TaskState
finish_success py answer s = set_phase py phase_final "Task complete" "" (record s {
  status = status_completed;
  stop_reason = "final_answer_returned";
  final_answer = answer;
  requires_post_tool_reasoning = false;
})
