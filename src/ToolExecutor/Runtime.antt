-- ===== src/ToolExecutor/Runtime.antt =====
-- What the tool executor uses of pico-legacy-runtime/pico/runtime.py: `diff_workspace_snapshots` and
-- `repeated_tool_call`. The arguments of a call are a text, one for equal dictionaries.
use Prim.Native.String.{◌++◌ as append_text}
use thread_forge.Prelude.{
  ℕ, zero, suc, ◌-◌, String, Bool, true, false, Option, none, some, List, [], ◌∷◌, ◌++◌, ◌==◌, ◌&&◌,
  ◌||◌, not, if◌then◌else◌, contains, as_set, ltb, length, is_some,
}
use thread_forge.Prelude.Dict.{Dict, get, keys}

-- An item of the session's history whose role is `tool`.
pub record ToolEvent : Type 0 where
  pub name : String
  pub args : String

-- before.get(path) == after.get(path)
abbrev pub same_file : Option String → Option String → Bool
same_file none none = true
same_file none (some y) = false
same_file (some x) none = false
same_file (some x) (some y) = x == y

abbrev pub path_summary : Dict String → Dict String → String → String
path_summary before after path =
    if not (is_some (get before path))
    then append_text "created:" path
    else if not (is_some (get after path))
    then append_text "deleted:" path
    else append_text "modified:" path

-- The loop of `diff_workspace_snapshots`.
unfoldable pub diff_paths : Dict String → Dict String → List String → List String × List String
diff_paths before after [] = ([], [])
diff_paths before after (p ∷ ps) =
    let (changed, summaries) = diff_paths before after ps in
    if same_file (get before p) (get after p)
    then (changed, summaries)
    else (p ∷ changed, path_summary before after p ∷ summaries)

unfoldable pub diff_workspace_snapshots :
    (List String → List String) → Dict String → Dict String → List String × List String
unfolding diff_paths
diff_workspace_snapshots sorted before after =
    diff_paths before after (sorted (as_set (keys before ++ keys after)))

abbrev pub read_only_tools : List String
read_only_tools = "list_files" ∷ "read_file" ∷ "search" ∷ []

abbrev pub only_reads : List ToolEvent → Bool
only_reads [] = true
only_reads (e ∷ es) = contains e.name read_only_tools && only_reads es

-- The loop of `repeated_tool_call`.
abbrev pub repeats : String → String → List ToolEvent → Bool
repeats name args [] = false
repeats name args (e ∷ es) =
    (e.name == name && (e.args == args && only_reads es)) || repeats name args es

abbrev drop : ℕ → List ToolEvent → List ToolEvent
drop zero es = es
drop (suc n) [] = []
drop (suc n) (e ∷ es) = drop n es

-- tool_events[-6:]
abbrev pub recent : List ToolEvent → List ToolEvent
recent es = drop (length es - 6) es

-- The names of tools that only read are let through first, so `_normalize_tool_args` changes nothing.
unfoldable pub repeated_tool_call : List ToolEvent → String → String → Bool
repeated_tool_call history name args =
    if contains name read_only_tools
    then false
    else if ltb (length history) 2
    then false
    else repeats name args (recent history)
