-- ===== src/ToolExecutor/Reported.antt =====
-- What a call of a tool reports: its result, and the event that tells the result.
use thread_forge.Prelude.{String, ◌≡◌, Bool, true, false, Option, none, some, List, [], ◌∷◌, ◌++◌}
use thread_forge.Prelude.Dict.{get}
use thread_forge.ToolExecutor.{Agent}
use thread_forge.ToolExecutor.Calls.{
  Event, tool_requested, after_tool, ToolExecutionResult, Answer, ok, raised,
}
use thread_forge.ToolExecutor.Admitted.{runs}
use thread_forge.ToolExecutor.Ends.{Ends}
use thread_forge.ToolExecutor.Fits.{fits, Fits}

-- The result fits whether the log holds the tool's run.
abbrev Judges : String → Bool → String → Answer ToolExecutionResult × List Event → Type 0
Judges path d id x = Fits path d id (runs x.1) x.0

abbrev asks : List Event → Bool
asks [] = false
asks (tool_requested id name ∷ es) = true
asks (e ∷ es) = asks es

abbrev Told : Bool → ToolExecutionResult → List Event → Type 0
Told false r l = Unit {0}
Told true r l = (m : List Event) × (l ≡ m ++ after_tool r ∷ [])

-- A result fits what happened, and if the call was announced, the log ends with the event that tells it.
abbrev pub IsReport : String → Bool → String → Answer ToolExecutionResult × List Event → Type 0
IsReport path d id (ok r, l) = (fits path d id (runs l) r ≡ true) × Told (asks l) r l
IsReport path d id (raised e, l) = Unit {0}

-- Whether the tool of this name is one that may change the workspace.
abbrev pub is_risky : Agent → String → Bool
is_risky a name = is_marked (get a.tools name)
  where
    is_marked : Option Bool → Bool
    is_marked none = false
    is_marked (some risky) = risky
