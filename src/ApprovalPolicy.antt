-- ===== src/ApprovalPolicy.antt =====
-- pico-legacy-runtime/pico/approval.py: who decides about a tool call. What the terminal or the web
-- gate answers is the strategy's argument.
pub mod Modes
use thread_forge.Prelude.{
  String, Bool, true, false, Option, none, some, List, [], ◌∷◌, ◌||◌, if◌then◌else◌, ◌==◌, contains,
  map,
}

pub data ApprovalOutcome : Type 0 where
  approved rejected expired cancelled : ApprovalOutcome

pub record ApprovalRequest : Type 0 where
  pub name : String
  pub args : String
  pub tool_call_id : String

pub data PermissionMode : Type 0 where
  plan accept_edits default bypass : PermissionMode

-- PermissionMode.value
abbrev pub mode_value : PermissionMode → String
mode_value plan = "plan"
mode_value accept_edits = "acceptEdits"
mode_value default = "default"
mode_value bypass = "bypass"

abbrev pub edit_tools : List String
edit_tools = "write_file" ∷ "patch_file" ∷ []

-- The strategy classes; `other` is one that the caller injects. An `ask` strategy holds the line
-- that `input` returns, none at the end of the input, stripped and in lower case.
pub data Strategy : Type 0 where
  auto never : Strategy
  ask : (ApprovalRequest → Option String) → Strategy
  other : (ApprovalRequest → ApprovalOutcome) → Strategy
  accepting_edits : Strategy → Strategy

abbrev answered : Option String → ApprovalOutcome
answered none = rejected
answered (some line) = if line == "y" || line == "yes" then approved else rejected

unfoldable pub decide : Strategy → ApprovalRequest → ApprovalOutcome
decide auto q = approved
decide never q = rejected
decide (ask input) q = answered (input q)
decide (other f) q = f q
decide (accepting_edits fallback) q =
    let asked = decide fallback q in if contains q.name edit_tools then approved else asked

-- `value` is the mode's text with no blanks round it, the fallback the caller's or the terminal.
unfoldable pub strategy_for_mode : String → Strategy → Strategy
strategy_for_mode value fallback =
    if value == "bypass" || value == "auto"
    then auto
    else if value == "plan" || value == "never"
    then never
    else if value == "acceptEdits"
    then accepting_edits fallback
    else fallback

unfoldable pub strategy_for_policy : String → (ApprovalRequest → Option String) → Strategy
unfolding strategy_for_mode
strategy_for_policy policy input =
    if policy == "auto"
    then auto
    else if policy == "never"
    then never
    else if contains policy (map mode_value (plan ∷ accept_edits ∷ default ∷ bypass ∷ []))
    then strategy_for_mode policy (ask input)
    else ask input
