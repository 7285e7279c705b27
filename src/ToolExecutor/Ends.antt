-- ===== src/ToolExecutor/Ends.antt =====
-- The log of a call of a tool that came to its hooks and returns a result ends with the event that tells it.
use thread_forge.Prelude.{
  String, ◌≡◌, refl, ap, ◌∙◌, Bool, true, false, List, [], ◌∷◌, ◌++◌, if◌then◌else◌, Bool-cases,
  inl, inr,
}
use thread_forge.ApprovalPolicy.{ApprovalOutcome}
use thread_forge.ToolExecutor.{
  Agent, escape_violation, logged_violation, call_hook, tell, report_run, start, after_approval,
  success, failure,
}
use thread_forge.ToolExecutor.Calls.{
  Event, run_cancelled, process_note, tool_run, before_tool, after_tool, ToolExecutionResult, Ran,
  returned, failed, cleanup_failed, interrupted, Answer, ok, raised, and_then,
}

-- The log ends with the event that tells the result.
abbrev pub Ends : Answer ToolExecutionResult × List Event → Type 0
Ends (ok r, l) = (m : List Event) × (l ≡ m ++ after_tool r ∷ [])
Ends (raised e, l) = Unit {0}

append_after : (l m : List Event) (e : Event) → l ++ (m ++ e ∷ []) ≡ (l ++ m) ++ e ∷ []
append_after [] m e = refl
append_after (x ∷ l) m e = ap (λ (k : List Event). x ∷ k) (append_after l m e)

pub Ends-after :
    (l : List Event) (x : Answer ToolExecutionResult × List Event)
    → Ends x
    → Ends (and_then {A = Unit {0}} (ok tt, l) (λ _. x))
Ends-after l (ok r, k) (m, p) = (l ++ m, ap (λ (j : List Event). l ++ j) p ∙ append_after l m _)
Ends-after l (raised e, k) p = tt

Ends-if :
    (b : Bool) (x : Answer ToolExecutionResult × List Event)
    → Ends x
    → Ends (if b then (raised run_cancelled, []) else x)
Ends-if true x h = tt
Ends-if false x h = h

module _ (a : Agent) where
  Ends-hook :
      (e : Event) (x : Answer ToolExecutionResult × List Event)
      → Ends x
      → Ends (and_then (call_hook a e) (λ _. x))
  Ends-hook e x h = elim (Bool-cases (a.stops e)) [
    | inl s ↦ rw s tt
    | inr s ↦ rw s (Ends-after (e ∷ []) x h)
  ]

  Ends-tell : (r : ToolExecutionResult) → Ends (tell a r)
  Ends-tell r = elim (Bool-cases (a.stops (after_tool r))) [
    | inl s ↦ rw s tt
    | inr s ↦ rw s ([], refl)
  ]

  report_run-Ends :
      (risky : Bool) (name id : String) (x : Ran) → Ends (report_run a risky name id x)
  unfolding report_run
  report_run-Ends risky name id (returned content) =
      Ends-after (process_note name (success a risky name content id) ∷ []) (tell a _) (Ends-tell _)
  report_run-Ends risky name id (failed message) =
      Ends-after
        (escape_violation a "tool_failed" message name
          ++ process_note name (failure a risky name message id) ∷ [])
        (tell a _) (Ends-tell _)
  report_run-Ends risky name id cleanup_failed = tt
  report_run-Ends risky name id interrupted = tt

  pub start-Ends : (risky : Bool) (name args id : String) → Ends (start a risky name args id)
  unfolding start
  start-Ends risky name args id = Ends-if a.cancelled _ (
      Ends-hook (before_tool id name) _
        (Ends-after (tool_run name args ∷ []) _ (report_run-Ends risky name id (a.run name args))))

  pub after_approval-Ends :
      (name args id : String) (o : ApprovalOutcome) → Ends (after_approval a name args id o)
  unfolding after_approval
  after_approval-Ends name args id ApprovalOutcome.approved = start-Ends true name args id
  after_approval-Ends name args id ApprovalOutcome.cancelled = tt
  after_approval-Ends name args id ApprovalOutcome.expired = Ends-tell _
  after_approval-Ends name args id ApprovalOutcome.rejected =
      Ends-after
        (if a.read_only
          then logged_violation a "approval_denied"
              (if a.read_only then "read_only_block" else "approval_denied") name
          else [])
        (tell a _) (Ends-tell _)
