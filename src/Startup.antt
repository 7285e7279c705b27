-- ===== src/Startup.antt =====
-- `AppContainer.reconcile` of api-server/src/threadforge_api/lifespan.py, which runs before the service is
-- ready. The checks that come first (workspaces, sessions, the import of old records, the isolated
-- workspaces, the providers) are an argument: whether each of them raises. So are the ids that `list_stable`
-- finds, where it does not raise, and the time of a trace event.
pub mod Loops
pub mod Untouched
pub mod Restoring
pub mod Tasks
pub mod Approvals
pub mod Transitions
pub mod JournalKept
pub mod Closing
pub mod Reconciled
use thread_forge.Prelude.{
  ℕ, String, Bool, true, false, Option, none, some, List, [], ◌∷◌, if◌then◌else◌, ◌==◌, ◌&&◌, not,
}
use thread_forge.Json.{Python}
use thread_forge.Security.{Secrets}
use thread_forge.Domain.{
  TaskStatus, ApprovalStatus, Task, Approval, Error, approval_not_found, record_corrupted,
  record_unavailable, terminal, is_pending, or_empty,
}
use thread_forge.TaskState.Fields.{TaskState}
use thread_forge.Journal
use thread_forge.Journal.{Intent}
use thread_forge.Control.{
  Control, Exec, Result, ok, err, ◌>>=◌, ◌>>◌, pure, raise, gets, modify, attempt, succeeded, disk,
  mark_degraded,
}
use thread_forge.Repositories.{get_task, update_task, get_approval, update_approval}
use thread_forge.ApprovalGate.{journal_commit}
use thread_forge.TaskRunner.{set_terminal}
use thread_forge.TaskRunner.Outcome.{Outcome, terminal_task_from_run}
use thread_forge.Reconciliation.{
  load_state, converge_run_artifacts, run_artifacts_match, repair_terminal_run_artifacts,
}

-- _RECONCILE_ACTIVE
abbrev pub is_active : TaskStatus → Bool
is_active TaskStatus.queued = true
is_active TaskStatus.running = true
is_active TaskStatus.waiting_for_approval = true
is_active TaskStatus.cancel_requested = true
is_active _ = false

abbrev pub set_failed_restarted : Task → Task
set_failed_restarted t = record t {
  status = TaskStatus.interrupted;
  stop_reason = some "service_restarted";
  pending_approval = none;
}

abbrev pub set_approval_status : ApprovalStatus → String → ℕ → Approval → Approval
set_approval_status status decision now a = record a {
  status = status;
  decision = some decision;
  decided_at = some now;
}

-- `except Exception: ok = False`
abbrev pub tried : {A : Type 0} → Exec A → Exec Bool
tried m = do r ← attempt m; pure (succeeded r)

-- A `for` loop whose body tells if all went well.
abbrev pub each : {A : Type 0} → (A → Exec Bool) → List A → Exec Bool
each step [] = pure true
each step (x ∷ xs) = do a ← step x; b ← each step xs; pure (a && b)

abbrev pub readable : Result TaskState → Option TaskState
readable (ok s) = some s
readable (err e) = none

-- `terminal_task_from_run`, with its reading of the disk.
unfoldable pub saved_outcome : Python → Task → Exec (Option Outcome)
saved_outcome py t =
    if t.run_id == ""
    then pure none
    else do r ← attempt (load_state py t.run_id); pure (terminal_task_from_run (readable r) t)

unfoldable pub fail_service_restarted : Python → Secrets → String → Task → Exec Task
fail_service_restarted py z now t = do
  converge_run_artifacts py z now t TaskStatus.interrupted "service_restarted"
      "agent run interrupted by service restart"
  update_task t.task_id set_failed_restarted none

abbrev pub restore : Python → Secrets → String → Task → Option Outcome → Exec Task
restore py z now t none = fail_service_restarted py z now t
restore py z now t (some o) = do
  repair_terminal_run_artifacts py z now t o.stop_reason o.final_answer
  update_task t.task_id (set_terminal o.status o.stop_reason o.final_answer) none

-- The `try` of a task that was active.
unfoldable pub recover_active : Python → Secrets → String → Task → Exec Task
recover_active py z now t =
    if t.execution_environment == "local_worker"
    then update_task t.task_id set_failed_restarted none
    else do o ← saved_outcome py t; restore py z now t o

-- `task.stop_reason or "runtime_error"`
abbrev pub reason_or_error : Option String → String
reason_or_error none = "runtime_error"
reason_or_error (some s) = if s == "" then "runtime_error" else s

abbrev pub converge_unless : Python → Secrets → String → Task → Bool → Exec Bool
converge_unless py z now t true = pure true
converge_unless py z now t false = tried (
    converge_run_artifacts py z now t t.status (reason_or_error t.stop_reason)
      (or_empty t.final_answer))

unfoldable pub check_ended : Python → Secrets → String → Task → Exec Bool
check_ended py z now t =
    if not (t.execution_environment == "local_worker") && terminal t.status
    then run_artifacts_match py t >>= converge_unless py z now t
    else pure true

-- The body of the loop over the tasks.
unfoldable pub reconcile_task : Python → Secrets → String → String → Exec Bool
unfolding recover_active check_ended
reconcile_task py z now id = do
  r ← attempt (get_task id)
  elim r [
    | err e ↦ pure false
    | ok t ↦
        if is_active t.status then tried (recover_active py z now t) else check_ended py z now t
  ]

-- The body of the loop over the approvals.
unfoldable pub reconcile_approval : String → Exec Bool
reconcile_approval id = do
  r ← attempt (get_approval id)
  now ← gets (λ c. c.clock)
  elim r [
    | err e ↦ pure false
    | ok a ↦
        if is_pending a.status
        then tried (update_approval id (set_approval_status ApprovalStatus.expired "expired" now))
        else pure true
  ]

abbrev read_journal : Option (List Intent) → Exec (List Intent)
read_journal none = raise record_corrupted
read_journal (some rs) = pure rs

-- RecoveryJournal.incomplete, on the control plane's journal.
unfoldable pub load_incomplete : Exec (List Intent)
load_incomplete = do
  disk
  found ← gets (λ c. (Journal.incomplete c.journal).0)
  modify (λ c. record c { journal = (Journal.incomplete c.journal).1 })
  read_journal found

-- PENDING or APPROVED
abbrev pub is_live : ApprovalStatus → Bool
is_live ApprovalStatus.pending = true
is_live ApprovalStatus.approved = true
is_live _ = false

-- The first `try` of the loop over the open transitions.
unfoldable pub withdraw_approval : String → Exec (Unit {0})
withdraw_approval id = do
  a ← get_approval id
  now ← gets (λ c. c.clock)
  if is_live a.status
      then update_approval id (set_approval_status ApprovalStatus.expired "service_restarted" now)
        >> pure tt
      else pure tt

-- `except ApprovalNotFoundError: pass`, and `except Exception: ok = False; continue`.
abbrev pub then_commit : Exec (Unit {0}) → Result (Unit {0}) → Exec Bool
then_commit commit (ok _) = tried commit
then_commit commit (err approval_not_found) = tried commit
then_commit commit (err _) = pure false

unfoldable pub reconcile_transition : Intent → Exec Bool
reconcile_transition r = do
  withdrawn ← attempt (withdraw_approval r.approval_id)
  then_commit (journal_commit r.transition_id) withdrawn

abbrev pub reconcile_journal : Result (List Intent) → Exec Bool
reconcile_journal (ok rs) = each reconcile_transition rs
reconcile_journal (err e) = pure false

abbrev pub all_passed : List Bool → Bool
all_passed [] = true
all_passed (b ∷ bs) = b && all_passed bs

abbrev listed : List String → Result (Unit {0}) → Exec (List String)
listed ids (ok _) = pure ids
listed ids (err _) = raise record_unavailable

-- `list_stable`: the ids that it finds, unless one of the files cannot be looked at.
unfoldable pub list_stable : List String → Exec (List String)
list_stable ids = do looked ← attempt disk; listed ids looked

unfoldable pub reconcile :
    Python → Secrets → String → List Bool → List String → List String → Exec Bool
reconcile py z now checks tasks approvals = do
  task_ids ← list_stable tasks
  a ← each (reconcile_task py z now) task_ids
  approval_ids ← list_stable approvals
  b ← each reconcile_approval approval_ids
  found ← attempt load_incomplete
  d ← reconcile_journal found
  pure (all_passed checks && (a && (b && d)))

-- The part of `build_lifespan` that decides whether the service is ready.
unfoldable pub start_service :
    Python → Secrets → String → List Bool → List String → List String → Exec Bool
start_service py z now checks tasks approvals = do
  ready ← reconcile py z now checks tasks approvals
  if ready then pure true else do mark_degraded; pure false
