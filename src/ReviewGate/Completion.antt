-- ===== src/ReviewGate/Completion.antt =====
-- The completion gate at the end of agent-orchestrator/src/langgraph_pico/native_runner.py, and what
-- the service publishes of a run that went through it.
use thread_forge.Prelude.{ℕ, String, Bool, true, false, List, ◌==◌, ◌&&◌, not, if◌then◌else◌}
use thread_forge.Prelude.Int.{ℤ, pos}
use thread_forge.Json.{Python, Items}
use thread_forge.TaskState.Fields.{TaskState, status_completed, status_stopped}
use thread_forge.TaskState.Progress.{record_error, stop}
use thread_forge.ReviewGate.{
  ReviewStatus, Review, pass, needs_fix, run_review_gate, has_write_evidence,
}

-- GATE_STEP_BUDGET_UNLIMITED, and the arguments that the runner calls the gate with.
abbrev pub gate_step_budget_unlimited : ℤ
gate_step_budget_unlimited = pos 100000

abbrev pub completion_review : String → TaskState → Review
completion_review intent s = record {
  intent = intent;
  step_budget = gate_step_budget_unlimited;
  coordinator_steps_used = s.tool_steps;
  step_budget_explicit = false;
  hard_cap = pos 0;
  fix_attempts = 0;
  previous_signature = "";
  previous_stagnation_rounds = 0;
}

-- A completed run with an answer, which is not a conversation.
unfoldable pub is_reviewed : String → TaskState → Bool
is_reviewed intent s =
    not (intent == "conversation") && (s.status == status_completed && not (s.final_answer == ""))

abbrev pub refusal : Python → TaskState → String
refusal py s =
    if has_write_evidence py s.evidence
    then "review_retry_limit_reached"
    else "no_changes_to_review"

unfoldable pub refuse : Python → TaskState → TaskState
unfolding stop record_error
refuse py s =
    let t =
      record_error "completion_gate" "completion_gate_failed" false (pos 0)
        (record s { review_status = "needs_fix" }) in
    stop (refusal py s) status_stopped s.final_answer t

abbrev is_pass : ReviewStatus → Bool
is_pass pass = true
is_pass needs_fix = false

module _ (py : Python) (render : ℕ → ℕ → List (String × Items) → String) where
  unfoldable pub completion_gate : String → TaskState → TaskState
  unfolding refuse
  completion_gate intent s =
      if is_reviewed intent s
      then if is_pass (run_review_gate py render s (completion_review intent s)).status
        then s
        else refuse py s
      else s
