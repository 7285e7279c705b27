-- ===== src/ToolExecutor.antt =====
-- pico-legacy-runtime/pico/tool_executor.py, and what it uses of runtime.py: `approve_outcome`,
-- `repeated_tool_call` and `diff_workspace_snapshots`. A call of a tool returns or raises, and leaves a log of what
-- it did in order. The arguments of a call are a text, one for equal dictionaries; the tools, the
-- check of their arguments, the snapshots, the hooks and the search in a text are the runtime's, and enter as the
-- record `Agent`. The memory that is updated from a result is not modelled.
pub mod Calls
pub mod Runtime
pub mod Snapshots
pub mod Repeated
pub mod Admitted
pub mod Ends
pub mod Fits
pub mod Answers
pub mod Reported
use Prim.Native.String.{◌++◌ as append_text}
use thread_forge.Prelude.{
  ℕ, zero, suc, ◌-◌, String, Bool, true, false, Option, none, some, List, [], ◌∷◌, ◌++◌, ◌==◌, ◌&&◌,
  ◌||◌, not, if◌then◌else◌, contains, as_set, ltb, length, is_some,
}
use thread_forge.Prelude.Dict.{Dict, get, keys}
use thread_forge.ApprovalPolicy.{ApprovalOutcome, ApprovalRequest, Strategy, decide}
use thread_forge.ToolExecutor.Calls.{
  Metadata, ToolExecutionResult, Ran, returned, failed, cleanup_failed, interrupted, Raised,
  run_cancelled, process_cleanup_failed, Event, sandbox_violation, tool_requested, before_tool,
  tool_run, process_note, after_tool, Answer, ok, raised, Act, and_then,
}
use thread_forge.ToolExecutor.Runtime.{
  ToolEvent, same_file, path_summary, diff_paths, diff_workspace_snapshots, read_only_tools,
  only_reads, repeats, recent, repeated_tool_call,
}

-- `stops` tells which hooks raise, `exits_badly` whether the exit code in a text is not 0.
pub record Agent : Type 0 where
  pub allowed_tools : Option (List String)
  pub tools : Dict Bool
  pub has_task_state : Bool
  pub read_only : Bool
  pub cancelled : Bool
  pub approval_strategy : Strategy
  pub history : List ToolEvent
  pub validate : String → String → Option String
  pub example : String → String
  pub run : String → String → Ran
  pub before_snapshot : Dict String
  pub after_snapshot : Dict String
  pub fingerprint : String
  pub stops : Event → Bool
  pub sorted : List String → List String
  pub mentions : String → String → Bool
  pub exits_badly : String → Bool

-- A call of a hook, which may raise.
abbrev pub call_hook : Agent → Event → Act (Unit {0})
call_hook a e = if a.stops e then (raised run_cancelled, e ∷ []) else (ok tt, e ∷ [])

-- `_record_sandbox_violation`
abbrev pub logged_violation : Agent → String → String → String → List Event
logged_violation a code event name =
    if a.has_task_state then sandbox_violation code event name ∷ [] else []

abbrev pub risk : Bool → String
risk risky = if risky then "high" else "low"

-- `_metadata("rejected", …)`
abbrev pub rejected : String → String → Bool → String → Metadata
rejected code event risky id = record {
  tool_status = "rejected";
  tool_error_code = code;
  security_event_type = event;
  risk_level = risk risky;
  read_only = not risky;
  affected_paths = [];
  workspace_changed = false;
  workspace_fingerprint = "";
  diff_summary = [];
  tool_call_id = id;
}

abbrev pub refused : String → Metadata → ToolExecutionResult
refused content m = record { content = content; metadata = m }

unfoldable pub approve_outcome : Agent → String → String → String → ApprovalOutcome
approve_outcome a name args id =
    if a.read_only
    then ApprovalOutcome.rejected
    else decide a.approval_strategy (record { name = name; args = args; tool_call_id = id })

-- The metadata of a tool that has run.
abbrev pub ran : Agent → Bool → String → String → String → String → Metadata
ran a risky status code event id =
    let after = if risky then a.after_snapshot else [] in
    let before = if risky then a.before_snapshot else [] in
    let (changed, summaries) = diff_workspace_snapshots a.sorted before after in
    record {
      tool_status = status;
      tool_error_code = code;
      security_event_type = event;
      risk_level = risk risky;
      read_only = not risky;
      affected_paths = changed;
      workspace_changed = ltb 0 (length changed);
      workspace_fingerprint = a.fingerprint;
      diff_summary = summaries;
      tool_call_id = id;
    }

-- execution_hooks.after_tool, and the result.
abbrev pub tell : Agent → ToolExecutionResult → Act ToolExecutionResult
tell a r = and_then (call_hook a (after_tool r)) (λ _. (ok r, []))

abbrev pub escapes : Agent → String → String
escapes a message = if a.mentions "path escapes workspace" message then "path_escape" else ""

abbrev pub escape_violation : Agent → String → String → String → List Event
escape_violation a code message name =
    if a.mentions "path escapes workspace" message
    then logged_violation a code "path_escape" name
    else []

-- `tool_status` and `tool_error_code` of a tool that returned.
abbrev pub shell_status : Agent → Bool → String → String × String
shell_status a changed content =
    if a.mentions "[tool timed out" content
    then (if changed then "partial_success" else "error", "tool_timeout")
    else if a.exits_badly content && changed
    then ("partial_success", "tool_partial_success")
    else if a.exits_badly content
    then ("error", "tool_failed")
    else ("ok", "")

abbrev pub returned_status : Agent → String → Bool → String → String × String
returned_status a name changed content =
    if name == "run_shell" then shell_status a changed content else ("ok", "")

-- Whether the tool has changed a file.
abbrev pub changes : Agent → Bool → Bool
changes a risky = (ran a risky "" "" "" "").workspace_changed

abbrev pub failure : Agent → Bool → String → String → String → Metadata
failure a risky name message id =
    if changes a risky
    then ran a risky "partial_success" "tool_partial_success" (escapes a message) id
    else ran a risky "error" "tool_failed" (escapes a message) id

abbrev pub success : Agent → Bool → String → String → String → Metadata
success a risky name content id =
    let (status, code) = returned_status a name (changes a risky) content in
    ran a risky status code "" id

abbrev pub failure_text : String → String → String
failure_text name message =
    append_text "error: tool " (append_text name (append_text " failed: " message))

-- What follows the tool's run: the two last parts of `execute`.
unfoldable pub report_run : Agent → Bool → String → String → Ran → Act ToolExecutionResult
report_run a risky name id (returned content) =
    let m = success a risky name content id in
    and_then (ok tt, process_note name m ∷ [])
      (λ _. tell a (record { content = content; metadata = m }))
report_run a risky name id (failed message) =
    let m = failure a risky name message id in
    and_then (ok tt, escape_violation a "tool_failed" message name ++ process_note name m ∷ [])
      (λ _. tell a (refused (failure_text name message) m))
report_run a risky name id cleanup_failed = (raised process_cleanup_failed, [])
report_run a risky name id interrupted = (raised run_cancelled, [])

-- From the last check of the token on.
unfoldable pub start : Agent → Bool → String → String → String → Act ToolExecutionResult
start a risky name args id =
    if a.cancelled
    then (raised run_cancelled, [])
    else and_then (call_hook a (before_tool id name)) (λ _.
      and_then (ok tt, tool_run name args ∷ []) (λ _. report_run a risky name id (a.run name args)))

-- What follows the decision about a risky tool.
unfoldable pub after_approval :
    Agent → String → String → String → ApprovalOutcome → Act ToolExecutionResult
after_approval a name args id ApprovalOutcome.approved = start a true name args id
after_approval a name args id ApprovalOutcome.cancelled = (raised run_cancelled, [])
after_approval a name args id ApprovalOutcome.expired = tell a (
    refused (append_text "error: approval expired for " name)
      (rejected "approval_expired" "approval_denied" true id))
after_approval a name args id ApprovalOutcome.rejected =
    let event = if a.read_only then "read_only_block" else "approval_denied" in
    and_then (ok tt, if a.read_only then logged_violation a "approval_denied" event name else [])
      (λ _. tell a (
        refused (append_text "error: approval denied for " name)
          (rejected "approval_denied" event true id)))

abbrev pub with_example : String → String → String
with_example message example =
    if example == "" then message else append_text message (append_text "\nexample: " example)

-- The checks on the arguments and on the history, by what `validate_tool` raises.
unfoldable pub requested :
    Agent → Bool → String → String → String → Option String → Act ToolExecutionResult
requested a risky name args id (some message) = (
  ok (
      refused
        (with_example
          (append_text "error: invalid arguments for "
            (append_text name (append_text ": " message)))
          (a.example name))
        (rejected "invalid_arguments" (escapes a message) risky id)),
  escape_violation a "invalid_arguments" message name,
)
requested a risky name args id none =
    if repeated_tool_call a.history name args
    then (
      ok (
          refused
            (append_text "error: repeated identical tool call for "
              (append_text name "; choose a different tool or return a final answer"))
            (rejected "repeated_identical_call" "" risky id)),
      [],
    )
    else and_then (call_hook a (tool_requested id name)) (λ _.
      if risky
      then after_approval a name args id (approve_outcome a name args id)
      else start a false name args id)

unfoldable pub looked_up : Agent → String → String → String → Option Bool → Act ToolExecutionResult
unfolding requested
looked_up a name args id none = (
  ok (
      refused (append_text "error: unknown tool '" (append_text name "'"))
        (rejected "unknown_tool" "" true id)),
  [],
)
looked_up a name args id (some risky) = requested a risky name args id (a.validate name args)

abbrev pub is_allowed : Option (List String) → String → Bool
is_allowed none name = true
is_allowed (some names) name = contains name names

unfoldable pub execute : Agent → String → String → String → Act ToolExecutionResult
unfolding looked_up
execute a name args id =
    if is_allowed a.allowed_tools name then looked_up a name args id (get a.tools name) else (
      ok (
          refused (append_text "error: tool '" (append_text name "' is not allowed in this run"))
            (rejected "tool_not_allowed" "tool_not_allowed" true id)),
      logged_violation a "tool_not_allowed" "tool_not_allowed" name,
    )
