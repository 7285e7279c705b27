-- ===== src/ToolExecutor/Answers.antt =====
-- When a call of a tool raises.
use thread_forge.Prelude.{
  String, ◌≡◌, refl, Bool, true, false, Option, none, some, List, [], ◌∷◌, ◌++◌, ◌||◌,
  if◌then◌else◌, Bool-cases, Option-cases, inl, inr, arith,
}
use thread_forge.Prelude.Dict.{get}
use thread_forge.ApprovalPolicy.{ApprovalOutcome}
use thread_forge.ToolExecutor.{
  Agent, call_hook, tell, report_run, start, after_approval, requested, looked_up, execute,
  is_allowed, approve_outcome, success, failure, escape_violation, logged_violation,
}
use thread_forge.ToolExecutor.Calls.{
  Event, process_note, run_cancelled, before_tool, tool_run, tool_requested, after_tool,
  ToolExecutionResult, Ran, returned, failed, cleanup_failed, interrupted, Act, Answer, ok, raised,
  and_then,
}
use thread_forge.ToolExecutor.Runtime.{repeated_tool_call}

abbrev has_result : Answer ToolExecutionResult → Bool
has_result (ok r) = true
has_result (raised e) = false

-- One of the events is one whose hook raises.
abbrev any_stopped : (Event → Bool) → List Event → Bool
any_stopped stops [] = false
any_stopped stops (e ∷ es) = stops e || any_stopped stops es

-- The tool ended the run itself.
abbrev breaks_off : Ran → Bool
breaks_off (returned content) = false
breaks_off (failed message) = false
breaks_off cleanup_failed = true
breaks_off interrupted = true

abbrev is_cancelled : ApprovalOutcome → Bool
is_cancelled ApprovalOutcome.cancelled = true
is_cancelled _ = false

any-append :
    (stops : Event → Bool) (l m : List Event)
    → any_stopped stops (l ++ m) ≡ (any_stopped stops l || any_stopped stops m)
any-append stops [] m = refl
any-append stops (e ∷ l) m = ground (arith, any-append stops l m)

-- The call has a result, or one of its hooks has raised, or there is an excuse.
abbrev pub Explains : Agent → Bool → Answer ToolExecutionResult × List Event → Type 0
Explains a excuse x = (has_result x.0 || (any_stopped a.stops x.1 || excuse)) ≡ true

module _ (a : Agent) (excuse : Bool) where
  Explains-after :
      (l : List Event) (x : Act ToolExecutionResult)
      → Explains a excuse x
      → Explains a excuse (and_then {A = Unit {0}} (ok tt, l) (λ _. x))
  Explains-after l x h = ground (arith, any-append a.stops l x.1)

  Explains-hook :
      (e : Event) (x : Act ToolExecutionResult)
      → Explains a excuse x
      → Explains a excuse (and_then (call_hook a e) (λ _. x))
  Explains-hook e x h = elim (Bool-cases (a.stops e)) [
    | inl s ↦ rw (s, s) refl
    | inr s ↦ rw s (Explains-after (e ∷ []) x h)
  ]

  Explains-tell : (r : ToolExecutionResult) → Explains a excuse (tell a r)
  Explains-tell r = Explains-hook (after_tool r) (ok r, []) refl

  Explains-raised : (x : Act ToolExecutionResult) → excuse ≡ true → Explains a excuse x
  Explains-raised x h = ground arith

  Explains-if :
      (b : Bool) (x y : Act ToolExecutionResult)
      → Explains a excuse x
      → Explains a excuse y
      → Explains a excuse (if b then x else y)
  Explains-if true x y h k = h
  Explains-if false x y h k = k

  report_run-Explains :
      (risky : Bool) (name id : String) (x : Ran)
      → (breaks_off x ≡ true → excuse ≡ true)
      → Explains a excuse (report_run a risky name id x)
  unfolding report_run
  report_run-Explains risky name id (returned content) h =
      Explains-after (process_note name (success a risky name content id) ∷ []) _ (Explains-tell _)
  report_run-Explains risky name id (failed message) h =
      Explains-after
        (escape_violation a "tool_failed" message name
          ++ process_note name (failure a risky name message id) ∷ [])
        _ (Explains-tell _)
  report_run-Explains risky name id cleanup_failed h = h refl
  report_run-Explains risky name id interrupted h = h refl

-- The run is cancelled, the tool ends the run itself, or the approval ends as cancelled.
abbrev pub is_excused : Agent → String → String → String → Bool
is_excused a name args id =
    a.cancelled || (breaks_off (a.run name args) || is_cancelled (approve_outcome a name args id))

module _ (a : Agent) (name args id : String) where
  start-Explains :
      (risky : Bool) → Explains a (is_excused a name args id) (start a risky name args id)
  unfolding start
  start-Explains risky = go a.cancelled refl
    where
      go :
          (b : Bool)
          → a.cancelled ≡ b
          → Explains a (is_excused a name args id) (
              if b
              then (raised run_cancelled, [])
              else and_then (call_hook a (before_tool id name)) (λ _.
                and_then
                  (ok tt, tool_run name args ∷ [])
                  (λ _. report_run a risky name id (a.run name args))))
      go true h = rw h refl
      go false h = Explains-hook a (is_excused a name args id) (before_tool id name) _ (
          Explains-after a (is_excused a name args id) (tool_run name args ∷ []) _ (
            report_run-Explains a (is_excused a name args id) risky name id (a.run name args)
              (λ k. ground (arith, k))))

  after_approval-Explains :
      (o : ApprovalOutcome)
      → approve_outcome a name args id ≡ o
      → Explains a (is_excused a name args id) (after_approval a name args id o)
  unfolding after_approval
  after_approval-Explains ApprovalOutcome.approved h = start-Explains true
  after_approval-Explains ApprovalOutcome.cancelled h = rw h (ground arith)
  after_approval-Explains ApprovalOutcome.expired h = Explains-tell a (is_excused a name args id) _
  after_approval-Explains ApprovalOutcome.rejected h =
      Explains-after a (is_excused a name args id)
        (if a.read_only
          then logged_violation a "approval_denied"
              (if a.read_only then "read_only_block" else "approval_denied") name
          else [])
        _ (Explains-tell a (is_excused a name args id) _)

  requested-Explains :
      (risky : Bool) (x : Option String)
      → Explains a (is_excused a name args id) (requested a risky name args id x)
  unfolding requested
  requested-Explains risky (some message) = refl
  requested-Explains risky none = elim (Bool-cases (repeated_tool_call a.history name args)) [
    | inl r ↦ rw r refl
    | inr r ↦
        rw r (Explains-hook a (is_excused a name args id) (tool_requested id name) _ (go risky))
  ]
    where
      go :
          (b : Bool)
          → Explains a (is_excused a name args id) (
              if b
              then after_approval a name args id (approve_outcome a name args id)
              else start a false name args id)
      go true = after_approval-Explains (approve_outcome a name args id) refl
      go false = start-Explains false

  pub execute-Explains : Explains a (is_excused a name args id) (execute a name args id)
  unfolding execute looked_up
  execute-Explains = elim (Bool-cases (is_allowed a.allowed_tools name)) [
    | inr h ↦ rw h refl
    | inl h ↦ elim (Option-cases (get a.tools name)) [
      | inl g ↦ rw (h, g) refl
      | inr (risky, g) ↦ rw (h, g) (requested-Explains risky (a.validate name args))
    ]
  ]
