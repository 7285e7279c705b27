-- ===== src/Plan/Contract/Promises.antt =====
-- What an accepted plan promises.
use thread_forge.Prelude.{
  String, ◌≡◌, true, Option, List, [], length, as_set, contains, ◌==◌, ◌&&◌, ◌||◌, not, leb,
}
use thread_forge.Prelude.Int.{
  le_int_trans, le-max_int, le_int-max_int, max_int-le, ℤ, pos, le_int, max_int, ◌+ℤ◌,
}
use thread_forge.Json.{Python, Json, Fields, arr}
use thread_forge.Plan.{valid, at, bind-valid, require-valid, test-valid, valid-injective}
use thread_forge.Plan.Texts.{items_count, bounded_text, string_list}
use thread_forge.Plan.Dag.{is_done, validate_dag}
use thread_forge.Plan.Steps.{Step, validate_steps, validate_each, incoming_of}
use thread_forge.Plan.Budgets.{Budgets, AllWithin, validate_budgets, validate_budgets-AllWithin}
use thread_forge.Plan.Contract.{
  Plan, Expected, parse_and_validate_plan, validate_work, cover_tools, tools_of, needs_evidence,
  writes, elevated_intent, text_at, parsed, as_plan, validate_head, valid_intents, risk_levels,
}

validate_steps-dag :
    (py : Python) (available : List String) (v : Json) (steps : List Step)
    → validate_steps py available v ≡ valid steps
    → validate_dag (incoming_of steps) ≡ valid tt
unfolding validate_steps
validate_steps-dag py available (arr raws) steps h =
    let (count, h1) =
      require-valid (leb 1 (items_count raws) && leb (items_count raws) 20) "plan_steps_invalid" _
        steps h in
    let (found, e, h2) = bind-valid (validate_each py available [] raws) _ steps h1 in
    let (acyclic, d, h3) = bind-valid (validate_dag (incoming_of found)) _ steps h2 in
    rw (← valid-injective found steps h3) d
validate_steps-dag py available _ steps h = cc

-- The larger of two numbers of which one is at least `c`.
max_int-above : (a b c : ℤ) → le_int c a ≡ true → le_int c (max_int a b) ≡ true
max_int-above a b c h = le_int_trans c a (max_int a b) h (le-max_int a b)

cover_tools-Within :
    (e : Expected) (steps : List Step) (b raised : Budgets)
    → AllWithin e.minimum e.maximum b
    → cover_tools e steps b ≡ valid raised
    → AllWithin e.minimum e.maximum raised
      × (le_int (pos (length (as_set (tools_of steps)))) raised.tool_calls ≡ true)
unfolding cover_tools
cover_tools-Within e steps b raised (elapsed, input, (low, high), output, (low', high')) h =
    let kinds : ℤ = pos (length (as_set (tools_of steps))) in
    let calls : ℤ = max_int e.minimum.tool_calls kinds in
    let rounds : ℤ = max_int e.minimum.model_rounds (pos 3 +ℤ kinds) in
    let (fits, h1) = test-valid _ _ _ raised h in
    let (fits', h2) = test-valid _ _ _ raised h1 in
    rw
      (← valid-injective
        (record b {
          tool_calls = max_int b.tool_calls calls;
          model_rounds = max_int b.model_rounds rounds;
        })
        raised h2)
      (
        (
          elapsed,
          input,
          (
            max_int-above b.model_rounds rounds _ low,
            max_int-le b.model_rounds rounds _ high fits',
          ),
          output,
          (max_int-above b.tool_calls calls _ low', max_int-le b.tool_calls calls _ high' fits),
        ),
        le_int_trans kinds calls _ (le_int-max_int e.minimum.tool_calls kinds)
            (le_int-max_int b.tool_calls calls),
      )

-- The promises of the steps, the intent and the budgets.
pub record IsPlan (e : Expected) (p : Plan) : Type 0 where
  pub acyclic : validate_dag (incoming_of p.steps) ≡ valid tt
  pub bounded : AllWithin e.minimum e.maximum p.budgets
  pub covered : le_int (pos (length (as_set (tools_of p.steps)))) p.budgets.tool_calls ≡ true
  pub enough_rounds : le_int (pos 3) p.budgets.model_rounds ≡ true
  pub changes_write : not (p.intent == "code_change") || writes p.steps ≡ true

validate_work-promises :
    (py : Python) (e : Expected) (fs : Fields) (steps : List Step) (b : Budgets)
    → validate_work py e fs steps ≡ valid b
    → AllWithin e.minimum e.maximum b
      × (le_int (pos (length (as_set (tools_of steps)))) b.tool_calls ≡ true)
      × (le_int (pos 3) b.model_rounds ≡ true)
      × (not (elevated_intent (text_at py e fs "intent") steps == "code_change") || writes steps
          ≡ true)
unfolding validate_work
validate_work-promises py e fs steps b h =
    let intent : String = text_at py e fs "intent" in
    let (talk, h1) =
      require-valid (not (intent == "conversation" && needs_evidence steps))
        "plan_conversation_requires_no_tools" _ b h in
    let (change, h2) =
      require-valid (not (elevated_intent intent steps == "code_change") || writes steps)
        "plan_write_step_missing" _ b h1 in
    let (budgets, asked, h3) =
      bind-valid (validate_budgets (at fs "budgets") e.maximum e.minimum) _ b h2 in
    let (raised, fits, h4) = bind-valid (cover_tools e steps budgets) _ b h3 in
    let (rounds, h5) =
      require-valid (le_int (pos 3) raised.model_rounds) "plan_budget_too_small" _ b h4 in
    let same = valid-injective raised b h5 in
    let (within, covered) =
      cover_tools-Within e steps budgets raised
        (validate_budgets-AllWithin (at fs "budgets") e.maximum e.minimum budgets asked) fits in
    rw (← same) (within, covered, rounds, change)

-- An accepted plan, whatever the model answered: its dependencies pass the check for cycles, its
-- budgets lie between the runtime's minimum and the maximum and pay for each kind of tool and for three
-- rounds, and a plan of a code change has a step that writes.
pub parse_and_validate_plan-IsPlan :
    (py : Python) (e : Expected) (read : Option Json) (p : Plan)
    → parse_and_validate_plan py e read ≡ valid p
    → IsPlan e p
unfolding parse_and_validate_plan
parse_and_validate_plan-IsPlan py e read p h =
    let (v, _, h1) = bind-valid (parsed read) _ p h in
    let (fs, _, h2) = bind-valid (as_plan v) _ p h1 in
    let (_, _, h3) = bind-valid (validate_head py e fs) _ p h2 in
    let (summary, _, h4) =
      bind-valid (bounded_text py.strip (at fs "summary") "summary" 500) _ p h3 in
    let (_, h5) =
      require-valid (contains (text_at py e fs "intent") valid_intents) "plan_intent_invalid" _ p
        h4 in
    let (_, h6) =
      require-valid (contains (text_at py e fs "risk_level") risk_levels) "plan_risk_invalid" _ p
        h5 in
    let (acceptance, _, h7) =
      bind-valid (string_list py.strip (at fs "acceptance") "acceptance" 12) _ p h6 in
    let (_, h8) = require-valid (not (is_done acceptance)) "plan_acceptance_missing" _ p h7 in
    let (steps, checked, h9) = bind-valid (validate_steps py e.available (at fs "steps")) _ p h8 in
    let (budgets, worked, h10) = bind-valid (validate_work py e fs steps) _ p h9 in
    let (within, covered, rounds, changes) = validate_work-promises py e fs steps budgets worked in
    rw
      (← valid-injective
        (record {
          plan_id = text_at py e fs "plan_id";
          revision = e.expected_revision;
          intent = elevated_intent (text_at py e fs "intent") steps;
          summary = summary;
          steps = steps;
          acceptance = acceptance;
          risk_level = text_at py e fs "risk_level";
          budgets = budgets;
        })
        p h10)
      (record {
        acyclic = validate_steps-dag py e.available (at fs "steps") steps checked;
        bounded = within;
        covered = covered;
        enough_rounds = rounds;
        changes_write = changes;
      })
