-- ===== src/Plan/Budgets.antt =====
-- `_validate_budgets`: the maximum and the minimum are integers for each of the five keys.
use thread_forge.Prelude.{String, ◌≡◌, true, List, [], ◌∷◌, if◌then◌else◌}
use thread_forge.Prelude.Int.{ℤ, pos, le_int, max_int, le_int-max_int, max_int-le}
use thread_forge.Json.{Json, Fields, num, obj}
use thread_forge.Plan.{
  Checked, valid, invalid, ◌>>=◌, ◌>>◌, pure, require, has_exactly, at, bind-valid, require-valid,
  test-valid, valid-injective,
}

pub record Budgets : Type 0 where
  pub elapsed_seconds : ℤ
  pub input_tokens : ℤ
  pub model_rounds : ℤ
  pub output_tokens : ℤ
  pub tool_calls : ℤ

abbrev pub plan_minimum_budgets : Budgets
plan_minimum_budgets = record {
  elapsed_seconds = pos 120;
  input_tokens = pos 20000;
  model_rounds = pos 3;
  output_tokens = pos 2000;
  tool_calls = pos 0;
}

abbrev budget_keys : List String
budget_keys =
    "model_rounds" ∷ "tool_calls" ∷ "input_tokens" ∷ "output_tokens" ∷ "elapsed_seconds" ∷ []

-- One turn of the loop; a Boolean is not a number here.
unfoldable pub validate_budget : Json → ℤ → ℤ → ℤ → Checked ℤ
validate_budget (num raw) least limit floor = do
  require (le_int least raw) "plan_budget_invalid"
  require (le_int raw limit) "plan_budget_exceeded"
  require (le_int (pos 0) floor) "plan_budget_invalid"
  require (le_int floor limit) "plan_budget_exceeded"
  pure (max_int raw floor)
validate_budget _ least limit floor = invalid "plan_budget_invalid"

unfoldable pub validate_each_budget : Fields → Budgets → Budgets → Checked Budgets
unfolding validate_budget
validate_each_budget fs most least = do
  elapsed ←
      validate_budget (at fs "elapsed_seconds") (pos 1) most.elapsed_seconds least.elapsed_seconds
  input ← validate_budget (at fs "input_tokens") (pos 1) most.input_tokens least.input_tokens
  rounds ← validate_budget (at fs "model_rounds") (pos 1) most.model_rounds least.model_rounds
  output ← validate_budget (at fs "output_tokens") (pos 1) most.output_tokens least.output_tokens
  calls ← validate_budget (at fs "tool_calls") (pos 0) most.tool_calls least.tool_calls
  pure (record {
    elapsed_seconds = elapsed;
    input_tokens = input;
    model_rounds = rounds;
    output_tokens = output;
    tool_calls = calls;
  })

unfoldable pub validate_budgets : Json → Budgets → Budgets → Checked Budgets
unfolding validate_each_budget
validate_budgets (obj fs) most least =
    if has_exactly budget_keys fs
    then validate_each_budget fs most least
    else invalid "plan_budgets_invalid"
validate_budgets _ most least = invalid "plan_budgets_invalid"

-- Between the two bounds.
abbrev pub Within : ℤ → ℤ → ℤ → Type 0
Within least most b = (le_int least b ≡ true) × (le_int b most ≡ true)

abbrev pub AllWithin : Budgets → Budgets → Budgets → Type 0
AllWithin least most b =
    Within least.elapsed_seconds most.elapsed_seconds b.elapsed_seconds
    × Within least.input_tokens most.input_tokens b.input_tokens
    × Within least.model_rounds most.model_rounds b.model_rounds
    × Within least.output_tokens most.output_tokens b.output_tokens
    × Within least.tool_calls most.tool_calls b.tool_calls

validate_budget-Within :
    (v : Json) (least limit floor b : ℤ)
    → validate_budget v least limit floor ≡ valid b
    → Within floor limit b
unfolding validate_budget
validate_budget-Within (num raw) least limit floor b h =
    let (a, h1) = require-valid _ _ _ b h in
    let (c, h2) = require-valid _ _ _ b h1 in
    let (d, h3) = require-valid _ _ _ b h2 in
    let (e, h4) = require-valid _ _ _ b h3 in
    rw (← valid-injective (max_int raw floor) b h4)
      (le_int-max_int raw floor, max_int-le raw floor limit c e)
validate_budget-Within _ least limit floor b h = cc

-- The budgets of an accepted plan lie between the runtime's minimum and the maximum, all five.
pub validate_budgets-AllWithin :
    (v : Json) (most least b : Budgets)
    → validate_budgets v most least ≡ valid b
    → AllWithin least most b
unfolding validate_budgets validate_each_budget
validate_budgets-AllWithin (obj fs) most least b h =
    let (known, h0) =
      test-valid (has_exactly budget_keys fs) "plan_budgets_invalid"
        (validate_each_budget fs most least) b h in
    let (x1, e1, h1) =
      bind-valid
        (validate_budget (at fs "elapsed_seconds") (pos 1) most.elapsed_seconds
          least.elapsed_seconds)
        _ b h0 in
    let (x2, e2, h2) =
      bind-valid
        (validate_budget (at fs "input_tokens") (pos 1) most.input_tokens least.input_tokens) _ b
        h1 in
    let (x3, e3, h3) =
      bind-valid
        (validate_budget (at fs "model_rounds") (pos 1) most.model_rounds least.model_rounds) _ b
        h2 in
    let (x4, e4, h4) =
      bind-valid
        (validate_budget (at fs "output_tokens") (pos 1) most.output_tokens least.output_tokens) _ b
        h3 in
    let (x5, e5, h5) =
      bind-valid (validate_budget (at fs "tool_calls") (pos 0) most.tool_calls least.tool_calls) _ b
        h4 in
    rw
      (← valid-injective
        (record {
          elapsed_seconds = x1;
          input_tokens = x2;
          model_rounds = x3;
          output_tokens = x4;
          tool_calls = x5;
        })
        b h5)
      (
        validate_budget-Within (at fs "elapsed_seconds") (pos 1) _ _ x1 e1,
        validate_budget-Within (at fs "input_tokens") (pos 1) _ _ x2 e2,
        validate_budget-Within (at fs "model_rounds") (pos 1) _ _ x3 e3,
        validate_budget-Within (at fs "output_tokens") (pos 1) _ _ x4 e4,
        validate_budget-Within (at fs "tool_calls") (pos 0) _ _ x5 e5,
      )
validate_budgets-AllWithin _ most least b h = cc
