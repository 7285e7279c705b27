-- ===== src/ToolExecutor/Repeated.antt =====
-- When `repeated_tool_call` refuses a call.
use thread_forge.Prelude.{
  String, ◌≡◌, refl, Bool, false, Option, none, some, is_some, List, [], ◌∷◌, ◌==◌, ◌&&◌, not,
  if◌then◌else◌, Bool-cases, inl, inr, contains, ltb, length, arith, eq_iff,
}
use thread_forge.ToolExecutor.Runtime.{
  ToolEvent, only_reads, repeats, repeated_tool_call, recent, read_only_tools,
}

abbrev or_else : Option ToolEvent → Option ToolEvent → Option ToolEvent
or_else none e = e
or_else (some e) _ = some e

-- The last call of a tool that does not only read.
abbrev pub last_write : List ToolEvent → Option ToolEvent
last_write [] = none
last_write (e ∷ es) =
    or_else (last_write es) (if contains e.name read_only_tools then none else some e)

abbrev pub is_call : String → String → Option ToolEvent → Bool
is_call name args none = false
is_call name args (some e) = e.name == name && e.args == args

only_reads-last_write : (es : List ToolEvent) → only_reads es ≡ not (is_some (last_write es))
only_reads-last_write [] = refl
only_reads-last_write (e ∷ es) = ground (arith, only_reads-last_write es)

repeats-last_write :
    (name args : String)
    → contains name read_only_tools ≡ false
    → (es : List ToolEvent) → repeats name args es ≡ is_call name args (last_write es)
repeats-last_write name args h [] = refl
repeats-last_write name args h (e ∷ es) =
    ground (arith, only_reads-last_write es, repeats-last_write name args h es, eq_iff e.name name)

-- A call is refused as repeated exactly when its tool does not only read, there were two tool calls or more,
-- and the last call among the six latest whose tool does not only read was the same call.
pub repeated_tool_call-last_write :
    (history : List ToolEvent) (name args : String)
    → repeated_tool_call history name args ≡ (
        not (contains name read_only_tools)
        && (not (ltb (length history) 2) && is_call name args (last_write (recent history))))
unfolding repeated_tool_call
repeated_tool_call-last_write history name args =
    elim (Bool-cases (contains name read_only_tools)) [
      | inl h ↦ rw h refl
      | inr h ↦ rw (h, repeats-last_write name args h (recent history)) (ground arith)
    ]
