-- ===== src/RunFiles.antt =====
-- What pico-legacy-runtime/pico/run_store.py keeps of a run: a folder with three files, of which each
-- may be missing.
use thread_forge.Prelude.{String, Option, none, some, List, [], ◌∷◌, ◌++◌}
use thread_forge.Prelude.Dict.{Dict, get}
use thread_forge.Json.{Json, Fields, end, field}

pub record RunFiles : Type 0 where
  pub task_state : Option (Dict Json)
  pub report : Option Fields
  pub trace : Option (List Fields)

abbrev pub no_files : RunFiles
no_files = record { task_state = none; report = none; trace = none }

abbrev or_no_files : Option RunFiles → RunFiles
or_no_files none = no_files
or_no_files (some f) = f

abbrev pub files_of : String → Dict RunFiles → RunFiles
files_of run d = or_no_files (get d run)

-- A dictionary as a JSON object.
abbrev pub to_fields : Dict Json → Fields
to_fields [] = end
to_fields ((k, v) ∷ d) = field k v (to_fields d)

abbrev or_none_yet : Option (List Fields) → List Fields
or_none_yet none = []
or_none_yet (some es) = es

abbrev pub add_event : Fields → RunFiles → RunFiles
add_event e f = record f { trace = some (or_none_yet f.trace ++ e ∷ []) }
