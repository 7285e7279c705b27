-- ===== src/RunStore.antt =====
-- The operations of pico-legacy-runtime/pico/run_store.py on the control plane's state, and the store
-- of api-server/src/threadforge_api/infrastructure/fenced_run_store.py that stands before it. A write
-- is atomic, by a temporary file and a replacement; its retries on Windows are part of the disk's one
-- answer.
use thread_forge.Prelude.{String, Option, none, some, if◌then◌else◌}
use thread_forge.Prelude.Dict.{Dict, put}
use thread_forge.Json.{Json, Fields}
use thread_forge.Domain.{record_not_found, stale_runner_write}
use thread_forge.TaskState.Fields.{TaskState}
use thread_forge.TaskState.Codec.{to_dict}
use thread_forge.RunFiles.{RunFiles, files_of, add_event}
use thread_forge.Control.{Control, Run, Exec, ◌>>=◌, ◌>>◌, pure, raise, gets, modify, disk}

abbrev pub with_files : String → (RunFiles → RunFiles) → Control → Control
with_files run f c = record c { run_files = put c.run_files run (f (files_of run c.run_files)) }

unfoldable pub write_task_state : TaskState → Exec (Unit {0})
write_task_state s = do
  disk
  modify (with_files s.run_id (λ f. record f { task_state = some (to_dict s) }))

unfoldable pub start_run : TaskState → Exec (Unit {0})
start_run s = write_task_state s

unfoldable pub append_trace : TaskState → Fields → Exec (Unit {0})
append_trace s e = do disk; modify (with_files s.run_id (add_event e))

unfoldable pub write_report : TaskState → Fields → Exec (Unit {0})
write_report s report = do
  disk
  modify (with_files s.run_id (λ f. record f { report = some report }))

abbrev found : {A : Type 0} → Option A → Exec A
found none = raise record_not_found
found (some a) = pure a

unfoldable pub load_task_state : String → Exec (Dict Json)
load_task_state run = do disk; d ← gets (λ c. (files_of run c.run_files).task_state); found d

unfoldable pub load_report : String → Exec Fields
load_report run = do disk; r ← gets (λ c. (files_of run c.run_files).report); found r

-- FencedRunStore: each write of the runtime stands behind `_guarded`.
unfoldable pub guarded : Run → Exec (Unit {0}) → Exec (Unit {0})
guarded r write = if r.closed then raise stale_runner_write else write
