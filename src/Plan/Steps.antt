-- ===== src/Plan/Steps.antt =====
-- `_validate_steps`, with a step's fields in a record.
use thread_forge.Prelude.{String, List, [], ◌∷◌, contains, leb, ◌&&◌, not, if◌then◌else◌}
use thread_forge.Prelude.Dict.{Dict}
use thread_forge.Json.{Python, Json, Items, Fields, obj, arr, nil, cons}
use thread_forge.Plan.{Checked, valid, invalid, ◌>>=◌, ◌>>◌, pure, require, has_exactly, at}
use thread_forge.Plan.Texts.{bounded_text, string_list, is_plan_id, items_count}
use thread_forge.Plan.Dag.{subset, validate_dag, is_done}

pub record Step : Type 0 where
  pub id : String
  pub goal : String
  pub dependencies : List String
  pub required_tools : List String
  pub required_evidence : List String
  pub done_when : List String

abbrev step_fields : List String
step_fields =
    "id" ∷ "goal" ∷ "dependencies" ∷ "required_tools" ∷ "required_evidence" ∷ "done_when" ∷ []

abbrev as_fields : Json → Checked Fields
as_fields (obj fs) =
    if has_exactly step_fields fs then valid fs else invalid "plan_step_fields_invalid"
as_fields _ = invalid "plan_step_fields_invalid"

-- {step["id"]: step["dependencies"]}, for steps with different ids
unfoldable pub incoming_of : List Step → Dict (List String)
incoming_of [] = []
incoming_of (s ∷ steps) = (s.id, s.dependencies) ∷ incoming_of steps

unfoldable pub ids_of : List Step → List String
ids_of [] = []
ids_of (s ∷ steps) = s.id ∷ ids_of steps

module _ (py : Python) (available : List String) where
  -- One turn of the loop, given the ids so far.
  unfoldable pub validate_step : List String → Json → Checked Step
  unfolding subset
  validate_step ids raw = do
    fs ← as_fields raw
    require
        (is_plan_id (py.strip (py.to_text (at fs "id")))
          && not (contains (py.strip (py.to_text (at fs "id"))) ids))
        "plan_step_id_invalid"
    tools ← string_list py.strip (at fs "required_tools") "required_tools" 12
    require (subset tools available) "plan_tool_unavailable"
    evidence ← string_list py.strip (at fs "required_evidence") "required_evidence" 12
    done ← string_list py.strip (at fs "done_when") "done_when" 12
    require (not (is_done done)) "plan_done_when_missing"
    goal ← bounded_text py.strip (at fs "goal") "goal" 300
    dependencies ← string_list py.strip (at fs "dependencies") "dependencies" 20
    pure (record {
      id = py.strip (py.to_text (at fs "id"));
      goal = goal;
      dependencies = dependencies;
      required_tools = tools;
      required_evidence = evidence;
      done_when = done;
    })

  -- The loop; `ids` are those of the steps so far.
  unfoldable pub validate_each : List String → Items → Checked (List Step)
  unfolding validate_step
  validate_each ids nil = valid []
  validate_each ids (cons raw raws) = do
    s ← validate_step ids raw
    rest ← validate_each (s.id ∷ ids) raws
    pure (s ∷ rest)

  unfoldable pub validate_steps : Json → Checked (List Step)
  unfolding validate_each validate_dag incoming_of
  validate_steps (arr raws) = do
    require (leb 1 (items_count raws) && leb (items_count raws) 20) "plan_steps_invalid"
    steps ← validate_each [] raws
    validate_dag (incoming_of steps)
    pure steps
  validate_steps _ = invalid "plan_steps_invalid"
