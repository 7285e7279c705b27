-- ===== src/ToolExecutor/Admitted.antt =====
-- Which calls run their tool.
use thread_forge.Prelude.{
  String, ◌≡◌, refl, Bool, true, false, Option, none, some, is_some, List, [], ◌∷◌, ◌++◌, ◌&&◌,
  ◌||◌, not, if◌then◌else◌, Bool-cases, inl, inr, arith,
}
use thread_forge.Prelude.Dict.{get}
use thread_forge.ApprovalPolicy.{ApprovalOutcome}
use thread_forge.ToolExecutor.{
  Agent, tell, report_run, start, after_approval, requested, looked_up, execute, is_allowed,
  approve_outcome, escape_violation, logged_violation,
}
use thread_forge.ToolExecutor.Calls.{
  Event, tool_run, tool_requested, before_tool, ToolExecutionResult, Ran, returned, failed,
  cleanup_failed, interrupted,
}
use thread_forge.ToolExecutor.Runtime.{repeated_tool_call}

abbrev is_run : Event → Bool
is_run (tool_run name args) = true
is_run _ = false

-- The tool's function is called.
abbrev pub runs : List Event → Bool
runs [] = false
runs (e ∷ es) = is_run e || runs es

runs-append : (l m : List Event) → runs (l ++ m) ≡ (runs l || runs m)
runs-append [] m = refl
runs-append (e ∷ l) m = ground (arith, runs-append l m)

pub runs-neither : (l m : List Event) → runs l ≡ false → runs m ≡ false → runs (l ++ m) ≡ false
runs-neither l m p q = ground (arith, runs-append l m)

abbrev pub is_approved : ApprovalOutcome → Bool
is_approved ApprovalOutcome.approved = true
is_approved _ = false

-- No hook stops the call, and the token is not cancelled.
abbrev pub goes_on : Agent → String → String → Bool
goes_on a name id =
    not (a.stops (tool_requested id name))
    && (not a.cancelled && not (a.stops (before_tool id name)))

-- The checks on a call of a tool that is there, and risky or not.
abbrev pub admits : Agent → String → String → String → Option Bool → Bool
admits a name args id none = false
admits a name args id (some risky) =
    not (is_some (a.validate name args))
    && (not (repeated_tool_call a.history name args)
        && ((not risky || is_approved (approve_outcome a name args id)) && goes_on a name id))

module _ (a : Agent) where
  pub violation-runs :
      (code event name : String) → runs (logged_violation a code event name) ≡ false
  violation-runs code event name = ground arith

  pub escape-runs :
      (code message name : String) → runs (escape_violation a code message name) ≡ false
  escape-runs code message name = ground arith

  tell-runs : (r : ToolExecutionResult) → runs (tell a r).1 ≡ false
  tell-runs r = ground arith

  report_run-runs :
      (risky : Bool) (name id : String) (x : Ran) → runs (report_run a risky name id x).1 ≡ false
  unfolding report_run
  report_run-runs risky name id (returned content) = tell-runs _
  report_run-runs risky name id (failed message) =
      runs-neither (escape_violation a "tool_failed" message name ++ _) _
        (runs-neither (escape_violation a "tool_failed" message name) _
          (escape-runs "tool_failed" message name) refl)
        (tell-runs _)
  report_run-runs risky name id cleanup_failed = refl
  report_run-runs risky name id interrupted = refl

  pub start-runs :
      (risky : Bool) (name args id : String)
      → runs (start a risky name args id).1
        ≡ (not a.cancelled && not (a.stops (before_tool id name)))
  unfolding start
  start-runs risky name args id = ground (arith, report_run-runs risky name id (a.run name args))

  after_approval-runs :
      (name args id : String) (o : ApprovalOutcome)
      → runs (after_approval a name args id o).1
        ≡ (is_approved o && (not a.cancelled && not (a.stops (before_tool id name))))
  unfolding after_approval
  after_approval-runs name args id ApprovalOutcome.approved = start-runs true name args id
  after_approval-runs name args id ApprovalOutcome.cancelled = refl
  after_approval-runs name args id ApprovalOutcome.expired = tell-runs _
  after_approval-runs name args id ApprovalOutcome.rejected =
      runs-neither
        (if a.read_only
          then logged_violation a "approval_denied"
              (if a.read_only then "read_only_block" else "approval_denied") name
          else [])
        _ (ground arith) (tell-runs _)

  requested-runs :
      (risky : Bool) (name args id : String) (x : Option String)
      → runs (requested a risky name args id x).1 ≡ (
          not (is_some x)
          && (not (repeated_tool_call a.history name args)
              && ((not risky || is_approved (approve_outcome a name args id))
                  && goes_on a name id)))
  unfolding requested
  requested-runs risky name args id (some message) = escape-runs "invalid_arguments" message name
  requested-runs true name args id none =
      ground (arith, after_approval-runs name args id (approve_outcome a name args id))
  requested-runs false name args id none = ground (arith, start-runs false name args id)

  looked_up-runs :
      (name args id : String) (x : Option Bool)
      → runs (looked_up a name args id x).1 ≡ admits a name args id x
  unfolding looked_up
  looked_up-runs name args id none = refl
  looked_up-runs name args id (some risky) =
      requested-runs risky name args id (a.validate name args)

-- A call runs its tool exactly when the tool is allowed and there, its arguments are valid, the call is not
-- repeated, the call is approved if the tool is risky, the token is not cancelled after that, and no hook stops it.
pub execute-runs :
    (a : Agent) (name args id : String)
    → runs (execute a name args id).1
      ≡ (is_allowed a.allowed_tools name && admits a name args id (get a.tools name))
unfolding execute
execute-runs a name args id = elim (Bool-cases (is_allowed a.allowed_tools name)) [
  | inl h ↦ rw h (looked_up-runs a name args id (get a.tools name))
  | inr h ↦ rw h (violation-runs a "tool_not_allowed" "tool_not_allowed" name)
]
