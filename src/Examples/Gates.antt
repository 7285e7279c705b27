-- ===== src/Examples/Gates.antt =====
-- Concrete inputs: a finished run under review, a plan, an inbox and a report with a secret.
use thread_forge.Prelude.{
  ℕ, String, ◌≡◌, ◌==◌, ◌+◌, refl, true, false, none, some, List, [], ◌∷◌, as_set, if◌then◌else◌,
}
use thread_forge.Prelude.Int.{pos, max_int, ◌+ℤ◌}
use thread_forge.Prelude.Dict
use thread_forge.Json
use thread_forge.Json.{
  Json, Items, Fields, Python, num, text, bool, arr, obj, nil, cons, end, field,
}
use thread_forge.TaskState.Fields.{TaskState, new_state}
use thread_forge.TaskRunner.Outcome
use thread_forge.ReviewGate.{Review}
use thread_forge.ReviewGate.Verdict
use thread_forge.ReviewGate.Completion
use thread_forge.Inbox
use thread_forge.Inbox.{Call, append, pop, ask, count}
use thread_forge.Inbox.Refinement
use thread_forge.Plan
use thread_forge.Plan.{valid}
use thread_forge.Plan.Texts
use thread_forge.Plan.Steps
use thread_forge.Plan.Dag
use thread_forge.Plan.Dag.Turns
use thread_forge.Plan.Dag.Cycles
use thread_forge.Plan.Contract
use thread_forge.Plan.Contract.Promises
use thread_forge.Plan.Budgets.{plan_minimum_budgets, validate_budgets}
use thread_forge.Security
use thread_forge.Security.{Secrets}
use thread_forge.Security.Redaction
use thread_forge.Examples.Streams.{plain}

-- A run that wrote a file and answered.
abbrev pub written_run : TaskState
written_run = record (new_state "r1" "t1" "fix the build") {
  status = "completed";
  stop_reason = "final_answer_returned";
  final_answer = "done";
  tool_steps = pos 3;
  evidence = field "status" (text "ok") (field "read_only" (bool false) end) ∷ [];
}

abbrev render : ℕ → ℕ → List (String × Items) → String
render n m keys = "1:0"

abbrev review : Review
review = Completion.completion_review "code_change" written_run

abbrev messages : List Call
messages =
    append "first" true 0 ∷ append "note" false 0 ∷ append "second" true 0 ∷ pop ∷ ask ∷ count ∷ []

answers-view_example :
    Inbox.answers (λ s. s) messages []
    ≡ Refinement.promised_answers (λ s. s) messages (Refinement.view [])
answers-view_example = Refinement.answers-view (λ s. s) messages []

abbrev two_steps : Dict.Dict (List String)
two_steps = ("read", []) ∷ ("write", "read" ∷ []) ∷ []

visit_all-finished_example :
    ((Dag.visit_all two_steps).ready ≡ [])
    × ((Dag.visit_all two_steps).visited + Turns.waiting (Dag.visit_all two_steps).incoming ≡ 2)
visit_all-finished_example = Turns.visit_all-finished two_steps

accepted : Dag.validate_dag two_steps ≡ valid tt
unfolding Dag.validate_dag Dict.keys Dag.subset
accepted = refl

both_in : Cycles.any_in (λ s. true) (Dict.keys two_steps) ≡ true
unfolding Dict.keys
both_in = refl

validate_dag-acyclic_example : ¬ Cycles.Trapped (λ s. true) two_steps
validate_dag-acyclic_example = Cycles.validate_dag-acyclic two_steps (λ s. true) accepted both_in

abbrev one : String → Items
one s = cons (text s) nil

abbrev edit_step : Json
edit_step = obj (
    field "id" (text "s1") (
      field "goal" (text "edit") (
        field "dependencies" (arr nil) (
          field "required_tools" (arr (one "write_file")) (
            field "required_evidence" (arr nil)
              (field "done_when" (arr (one "tests pass")) end))))))

abbrev edit_plan : Json
edit_plan = obj (
    field "schema_version" (text "1") (
      field "plan_id" (text "p1") (
        field "revision" (num (pos 1)) (
          field "intent" (text "code_change") (
            field "summary" (text "edit a file") (
              field "steps" (arr (cons edit_step nil)) (
                field "acceptance" (arr (one "built")) (
                  field "risk_level" (text "low") (
                    field "budgets"
                      (obj (
                        field "model_rounds" (num (pos 5)) (
                          field "tool_calls" (num (pos 2)) (
                            field "input_tokens" (num (pos 30000)) (
                              field "output_tokens" (num (pos 3000))
                                (field "elapsed_seconds" (num (pos 200)) end))))))
                      end)))))))))

abbrev expected : Contract.Expected
expected = record {
  available = "read_file" ∷ "write_file" ∷ [];
  maximum = record {
    elapsed_seconds = pos 600;
    input_tokens = pos 90000;
    model_rounds = pos 20;
    output_tokens = pos 9000;
    tool_calls = pos 10;
  };
  minimum = plan_minimum_budgets;
  expected_revision = pos 1;
  expected_plan_id = "";
}

abbrev edited : Contract.Plan
edited = record {
  plan_id = "p1";
  revision = pos 1;
  intent = "code_change";
  summary = "edit a file";
  steps =
      record {
        id = "s1";
        goal = "edit";
        dependencies = [];
        required_tools = "write_file" ∷ [];
        required_evidence = [];
        done_when = "tests pass" ∷ [];
      }
      ∷ [];
  acceptance = "built" ∷ [];
  risk_level = "low";
  budgets = record {
    elapsed_seconds = pos 200;
    input_tokens = pos 30000;
    model_rounds = pos 5;
    output_tokens = pos 3000;
    tool_calls = pos 2;
  };
}

plan_accepted : Contract.parse_and_validate_plan plain expected (some edit_plan) ≡ valid edited
unfolding Contract.parse_and_validate_plan Plan.has_exactly Json.find_field Texts.is_plan_id
    Texts.bounded_text Texts.text_length Texts.string_list Steps.validate_steps validate_budgets
    max_int as_set ◌+ℤ◌
plan_accepted = refl

parse_and_validate_plan-IsPlan_example : Promises.IsPlan expected edited
parse_and_validate_plan-IsPlan_example =
    Promises.parse_and_validate_plan-IsPlan plain expected (some edit_plan) edited plan_accepted

abbrev pub secrets : Secrets
secrets = record {
  upper = λ s. s;
  replace = λ s v w. if s == v then w else s;
  configured = "DEPLOY_PIN" ∷ [];
  values = "hunter2" ∷ [];
}

abbrev leak : Json
leak = obj (field "API_KEY" (text "hunter2") (field "log" (arr (one "hunter2")) end))

redact_artifact-clean_example :
    Redaction.is_clean secrets (Security.redact_artifact secrets none leak) ≡ true
redact_artifact-clean_example = Redaction.redact_artifact-clean secrets leak
