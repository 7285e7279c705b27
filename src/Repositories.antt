-- ===== src/Repositories.antt =====
-- api-server/src/threadforge_api/infrastructure/json_repositories.py: the task and the approval
-- repository. A record's JSON form is read back as the record; a file that is corrupted or cannot be
-- read or written is a `Fault`. `canonical_owner_id` (`uuid.UUID`) is an argument, and so is the order in
-- which `list_stable` finds the records (the files' times).
pub mod Steps
pub mod Deleting
pub mod Listing
use thread_forge.Prelude.{
  ℕ, String, Bool, true, false, Option, none, some, List, [], ◌∷◌, ◌++◌, if◌then◌else◌, ◌==◌, ◌&&◌,
  not, eqb, is_some,
}
use thread_forge.Prelude.Dict.{Dict, get, put, remove}
use thread_forge.Domain.{
  Task, Approval, Error, task_not_found, approval_not_found, record_not_found, record_corrupted,
  stale_generation, active_task_exists, terminal, is_pending,
}
use thread_forge.Control.{
  Control, Exec, Result, ok, err, ◌>>=◌, ◌>>◌, pure, raise, gets, modify, attempt, disk,
}

abbrev pub found : {A : Type 0} → Option A → Exec A
found none = raise record_not_found
found (some a) = pure a

-- `except RecordNotFoundError: raise missing`
abbrev pub not_found_as : Error → Error → Error
not_found_as missing record_not_found = missing
not_found_as missing e = e

abbrev pub or_missing : {A : Type 0} → Error → Result A → Exec A
or_missing missing (ok a) = pure a
or_missing missing (err e) = raise (not_found_as missing e)

-- _read_record
unfoldable pub read_task : String → Exec Task
read_task id = do disk; t ← gets (λ c. get c.tasks id); found t

-- _write_record
unfoldable pub write_task : String → Task → Exec (Unit {0})
write_task id t = do disk; modify (λ c. record c { tasks = put c.tasks id t })

unfoldable pub get_task : String → Exec Task
get_task id = do r ← attempt (read_task id); or_missing task_not_found r

-- A write may fail after the file was replaced, as the mode is set and the directory is synced last: then
-- `landed` holds, and the record is there all the same.
abbrev created : Bool → Task → Result (Unit {0}) → Exec Task
created landed t (ok _) = pure t
created landed t (err e) = do
  if landed then modify (λ c. record c { tasks = put c.tasks t.task_id t }) else pure tt
  raise e

unfoldable pub create_task : Bool → Task → Exec Task
create_task landed t = do
  old ← gets (λ c. get c.tasks t.task_id)
  if is_some old
      then raise record_corrupted
      else do written ← attempt (write_task t.task_id t); created landed t written

unfoldable pub get_task_for_owner : (String → String) → String → String → Exec Task
get_task_for_owner canonical id owner = do
  t ← get_task id
  if t.owner_id == canonical owner then pure t else raise task_not_found

-- `expected_generation` is `none` where the caller passes none.
abbrev pub is_stale : Option ℕ → Task → Bool
is_stale none t = false
is_stale (some g) t = not (eqb t.generation g)

unfoldable pub update_task : String → (Task → Task) → Option ℕ → Exec Task
update_task id f expected = do
  t ← read_task id
  now ← gets (λ c. c.clock)
  let t' = f t
  let updated = record t' { updated_at = now }
  if is_stale expected t then raise stale_generation else do write_task id updated; pure updated

-- `except TaskNotFoundError: continue`
abbrev pub skip_absent : {A : Type 0} → Exec A → Error → Exec A
skip_absent skip task_not_found = skip
skip_absent skip e = raise e

-- The first loop of `delete_many`: every task that the owner has, all of them terminal.
unfoldable pub deletable : (String → String) → List String → String → Exec (List Task)
deletable canonical [] owner = pure []
deletable canonical (id ∷ ids) owner = do
  r ← attempt (get_task_for_owner canonical id owner)
  elim r [
    | err e ↦ skip_absent (deletable canonical ids owner) e
    | ok t ↦
        if not (terminal t.status)
        then raise active_task_exists
        else do ts ← deletable canonical ids owner; pure (t ∷ ts)
  ]

-- The second loop, with `unlink(missing_ok=True)`.
unfoldable pub unlink_tasks : List Task → Exec (List String)
unlink_tasks [] = pure []
unlink_tasks (t ∷ ts) = do
  disk
  modify (λ c. record c { tasks = remove c.tasks t.task_id })
  ids ← unlink_tasks ts
  pure (t.task_id ∷ ids)

unfoldable pub delete_many : (String → String) → List String → String → Exec (List String)
delete_many canonical ids owner = do ts ← deletable canonical ids owner; unlink_tasks ts

unfoldable pub read_approval : String → Exec Approval
read_approval id = do disk; a ← gets (λ c. get c.approvals id); found a

unfoldable pub write_approval : String → Approval → Exec (Unit {0})
write_approval id a = do disk; modify (λ c. record c { approvals = put c.approvals id a })

unfoldable pub get_approval : String → Exec Approval
get_approval id = do r ← attempt (read_approval id); or_missing approval_not_found r

unfoldable pub create_approval : Approval → Exec Approval
create_approval a = do
  old ← gets (λ c. get c.approvals a.approval_id)
  if is_some old then raise record_corrupted else do write_approval a.approval_id a; pure a

unfoldable pub get_approval_for_owner : (String → String) → String → String → Exec Approval
get_approval_for_owner canonical id owner = do
  a ← get_approval id
  if a.owner_id == canonical owner then pure a else raise approval_not_found

unfoldable pub update_approval : String → (Approval → Approval) → Exec Approval
update_approval id f = do a ← read_approval id; write_approval id (f a); pure (f a)

-- `except RecordNotFoundError: continue`
abbrev pub skip_missing : {A : Type 0} → Exec A → Error → Exec A
skip_missing skip record_not_found = skip
skip_missing skip e = raise e

-- The records that `list_stable` names are read in turn; one that is gone is skipped.
unfoldable pub list_pending_for_task : List String → String → Exec (List Approval)
list_pending_for_task [] task = pure []
list_pending_for_task (id ∷ ids) task = do
  r ← attempt (read_approval id)
  elim r [
    | err e ↦ skip_missing (list_pending_for_task ids task) e
    | ok a ↦ do
      rest ← list_pending_for_task ids task
      pure (if a.task_id == task && is_pending a.status then a ∷ rest else rest)
  ]
