-- ===== src/Plan/Contract.antt =====
-- `parse_and_validate_plan`. `available` are the available tools; the minimum budgets are those of the
-- runtime, with the caller's in their place.
pub mod Promises
use thread_forge.Prelude.{
  ℕ, ◌+◌, String, Bool, true, false, Option, none, some, List, [], ◌∷◌, ◌++◌, length, contains,
  as_set, leb, eqb, ◌==◌, ◌&&◌, ◌||◌, not, if◌then◌else◌,
}
use thread_forge.Prelude.Int.{ℤ, pos, negsuc, le_int, max_int, ◌+ℤ◌}
use thread_forge.Json.{Python, Json, Fields, bool, num, obj}
use thread_forge.Plan.{Checked, valid, invalid, ◌>>=◌, ◌>>◌, pure, require, has_exactly, at}
use thread_forge.Plan.Texts.{bounded_text, string_list, is_plan_id}
use thread_forge.Plan.Dag.{is_done}
use thread_forge.Plan.Steps.{Step, validate_steps}
use thread_forge.Plan.Budgets.{Budgets, validate_budgets}

pub record Plan : Type 0 where
  pub plan_id : String
  pub revision : ℤ
  pub intent : String
  pub summary : String
  pub steps : List Step
  pub acceptance : List String
  pub risk_level : String
  pub budgets : Budgets

-- What the caller expects.
pub record Expected : Type 0 where
  pub available : List String
  pub maximum : Budgets
  pub minimum : Budgets
  pub expected_revision : ℤ
  pub expected_plan_id : String

abbrev plan_fields : List String
plan_fields =
    "schema_version" ∷ "plan_id" ∷ "revision" ∷ "intent" ∷ "summary" ∷ "steps" ∷ "acceptance"
    ∷ "risk_level" ∷ "budgets" ∷ []

abbrev pub read_tools : List String
read_tools = "list_files" ∷ "read_file" ∷ "search" ∷ []

abbrev pub write_tools : List String
write_tools = "write_file" ∷ "patch_file" ∷ "run_shell" ∷ []

-- The two sets meet.
unfoldable pub meets : List String → List String → Bool
meets [] ys = false
meets (x ∷ xs) ys = contains x ys || meets xs ys

-- [tool for step in steps for tool in step["required_tools"]]
unfoldable pub tools_of : List Step → List String
tools_of [] = []
tools_of (s ∷ steps) = s.required_tools ++ tools_of steps

unfoldable pub needs_evidence : List Step → Bool
needs_evidence [] = false
needs_evidence (s ∷ steps) =
    not (is_done s.required_tools) || not (is_done s.required_evidence) || needs_evidence steps

unfoldable pub writes : List Step → Bool
unfolding meets
writes [] = false
writes (s ∷ steps) = meets s.required_tools write_tools || writes steps

unfoldable pub elevated_intent : String → List Step → String
unfolding tools_of meets
elevated_intent intent steps =
    if meets (tools_of steps) write_tools
    then "code_change"
    else if meets (tools_of steps) read_tools && intent == "conversation"
    then "read_only"
    else intent

-- `==` of a JSON value and an integer
abbrev eq_int : ℤ → ℤ → Bool
eq_int a b = le_int a b && le_int b a

abbrev equals : Json → ℤ → Bool
equals (num a) n = eq_int a n
equals (bool b) n = eq_int (if b then pos 1 else pos 0) n
equals _ n = false

abbrev is_bool : Json → Bool
is_bool (bool b) = true
is_bool _ = false

abbrev as_plan : Json → Checked Fields
as_plan (obj fs) = if has_exactly plan_fields fs then valid fs else invalid "plan_fields_invalid"
as_plan _ = invalid "plan_not_object"

abbrev parsed : Option Json → Checked Json
parsed none = invalid "plan_invalid_json"
parsed (some v) = valid v

-- The floors that the kinds of tools set, and the budgets raised to them.
unfoldable pub cover_tools : Expected → List Step → Budgets → Checked Budgets
unfolding tools_of
cover_tools e steps b =
    let kinds = pos (length (as_set (tools_of steps))) in
    let calls = max_int e.minimum.tool_calls kinds in
    let rounds = max_int e.minimum.model_rounds (pos 3 +ℤ kinds) in
    if le_int calls e.maximum.tool_calls
    then (if le_int rounds e.maximum.model_rounds
        then valid (record b {
          tool_calls = max_int b.tool_calls calls;
          model_rounds = max_int b.model_rounds rounds;
        })
        else invalid "plan_budget_exceeded")
    else invalid "plan_budget_exceeded"

abbrev valid_intents : List String
valid_intents = "conversation" ∷ "read_only" ∷ "code_change" ∷ []

abbrev risk_levels : List String
risk_levels = "low" ∷ "medium" ∷ "high" ∷ []

module _ (py : Python) (e : Expected) where
  abbrev text_at : Fields → String → String
  text_at fs k = py.strip (py.to_text (at fs k))

  -- The checks before the steps.
  unfoldable pub validate_head : Fields → Checked (Unit {0})
  validate_head fs = do
    require (not (is_bool (at fs "schema_version")) && py.to_text (at fs "schema_version") == "1")
        "plan_schema_unsupported"
    require (is_plan_id (text_at fs "plan_id")) "plan_id_invalid"
    require (equals (at fs "revision") e.expected_revision) "plan_revision_invalid"
    require (e.expected_plan_id == "" || text_at fs "plan_id" == e.expected_plan_id)
        "plan_id_changed"

  -- The checks of the steps against the intent, and of the budgets.
  unfoldable pub validate_work : Fields → List Step → Checked Budgets
  unfolding needs_evidence writes elevated_intent cover_tools
  validate_work fs steps = do
    require (not (text_at fs "intent" == "conversation" && needs_evidence steps))
        "plan_conversation_requires_no_tools"
    require (not (elevated_intent (text_at fs "intent") steps == "code_change") || writes steps)
        "plan_write_step_missing"
    budgets ← validate_budgets (at fs "budgets") e.maximum e.minimum
    raised ← cover_tools e steps budgets
    require (le_int (pos 3) raised.model_rounds) "plan_budget_too_small"
    pure raised

  unfoldable pub parse_and_validate_plan : Option Json → Checked Plan
  unfolding validate_head validate_work
  parse_and_validate_plan read = do
    v ← parsed read
    fs ← as_plan v
    validate_head fs
    summary ← bounded_text py.strip (at fs "summary") "summary" 500
    require (contains (text_at fs "intent") valid_intents) "plan_intent_invalid"
    require (contains (text_at fs "risk_level") risk_levels) "plan_risk_invalid"
    acceptance ← string_list py.strip (at fs "acceptance") "acceptance" 12
    require (not (is_done acceptance)) "plan_acceptance_missing"
    steps ← validate_steps py e.available (at fs "steps")
    budgets ← validate_work fs steps
    pure (record {
      plan_id = text_at fs "plan_id";
      revision = e.expected_revision;
      intent = elevated_intent (text_at fs "intent") steps;
      summary = summary;
      steps = steps;
      acceptance = acceptance;
      risk_level = text_at fs "risk_level";
      budgets = budgets;
    })
