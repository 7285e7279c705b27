-- ===== src/ToolExecutor/Calls.antt =====
-- The results of pico-legacy-runtime/pico/tool_executor.py, and the log of what a call does. A call returns or
-- raises.
use thread_forge.Prelude.{String, Bool, List, ◌++◌}

pub record Metadata : Type 0 where
  pub tool_status : String
  pub tool_error_code : String
  pub security_event_type : String
  pub risk_level : String
  pub read_only : Bool
  pub affected_paths : List String
  pub workspace_changed : Bool
  pub workspace_fingerprint : String
  pub diff_summary : List String
  pub tool_call_id : String

pub record ToolExecutionResult : Type 0 where
  pub content : String
  pub metadata : Metadata

-- What `tool["run"]` does: it returns a text, raises an error, or is interrupted.
pub data Ran : Type 0 where
  returned : String → Ran
  failed : String → Ran
  cleanup_failed interrupted : Ran

pub data Raised : Type 0 where
  run_cancelled process_cleanup_failed : Raised

-- What a call does, in the log. The code and the event of a violation, and the tool, stand with it.
pub data Event : Type 0 where
  sandbox_violation : String → String → String → Event
  tool_requested : String → String → Event
  before_tool : String → String → Event
  tool_run : String → String → Event
  process_note : String → Metadata → Event
  after_tool : ToolExecutionResult → Event

pub data Answer (A : Type 0) : Type 0 where
  ok : A → Answer A
  raised : Raised → Answer A

abbrev pub Act : Type 0 → Type 0
Act A = Answer A × List Event

abbrev pub and_then : {A B : Type 0} → Act A → (A → Act B) → Act B
and_then (ok a, l) f = let (r, m) = f a in (r, l ++ m)
and_then (raised e, l) f = (raised e, l)
