-- ===== src/ApprovalGate.antt =====
-- api-server/src/threadforge_api/infrastructure/approval_gate.py. `request` waits, so it is three
-- actions: `open_request` up to the wait, `poll` for one turn of the loop in `_wait`, `settle` for
-- what follows it; other actions may come between them. The HMAC digest and the redacted preview of
-- the arguments, and the ids made by `uuid4`, are arguments. A wait is decided by the stored status
-- alone, so the conditions that wake it up are left out.
mod Records
pub mod Request
pub mod Withdrawal
pub mod Requesting
pub mod Settling
pub mod Waking
pub mod Decide
pub mod Rollback
pub mod Resolution
pub mod Decision
unfoldable pub use Records.{
  set_pending_approval, clear_pending_approval, set_decided, restore_pending_approval,
  restore_waiting_task,
}
use thread_forge.Prelude.{
  ℕ, ◌+◌, String, Bool, true, false, Option, none, some, List, [], ◌∷◌, if◌then◌else◌, ◌==◌, ◌&&◌,
  ◌||◌, not, leb, ltb,
}
use thread_forge.Prelude.Dict.{Dict, get, put, remove}
use thread_forge.Domain.{
  TaskStatus, ApprovalStatus, PendingApproval, Task, Approval, Error, is_pending, value,
  persistence_unavailable, run_cancelled, approval_already_resolved, approval_expired,
  approval_stale, approval_not_found,
}
use thread_forge.ApprovalPolicy.{ApprovalOutcome}
use thread_forge.Journal
use thread_forge.Journal.{Intent}
use thread_forge.Publisher.{no_envelope}
use thread_forge.Control.{
  Control, Run, Exec, Result, ok, err, ◌>>=◌, ◌>>◌, pure, raise, gets, modify, attempt, succeeded,
  disk, mark_degraded, publish,
}
use thread_forge.Repositories.{
  get_task, update_task, get_approval, create_approval, update_approval, list_pending_for_task,
}

-- RecoveryJournal.begin and commit, on the control plane's journal.
unfoldable pub journal_begin : String → String → String → String → Exec (Unit {0})
journal_begin txn kind task approval = do
  disk
  modify (λ c. record c {
    journal =
        Journal.append
          (Journal.begin
            (record { transition_id = txn; kind = kind; task_id = task; approval_id = approval }))
          c.journal;
  })

unfoldable pub journal_commit : String → Exec (Unit {0})
journal_commit txn = do
  disk
  modify (λ c. record c { journal = Journal.append (Journal.commit txn) c.journal })

-- `_rollback_resolution`
unfoldable pub rollback_resolution : Run → String → Option PendingApproval → Exec Bool
rollback_resolution r id prior = do
  a ← attempt (update_approval id restore_pending_approval)
  t ← attempt (update_task r.task_id (restore_waiting_task prior) (some r.generation))
  pure (succeeded a && succeeded t)

-- The `except` clauses: the journal is closed only if the rollback went through, and the service is
-- degraded unless both did.
unfoldable pub close_failed : Option String → Bool → Exec Bool
close_failed none rolled_back = pure rolled_back
close_failed (some txn) false = pure false
close_failed (some txn) true = do r ← attempt (journal_commit txn); pure (succeeded r)

unfoldable pub give_up : Option String → Bool → Exec (Unit {0})
give_up txn rolled_back = do
  safe ← close_failed txn rolled_back
  if safe then pure tt else mark_degraded
  raise persistence_unavailable

-- The writes of `_resolve_locked`, after the journal's `begin`.
unfoldable pub write_resolution : Run → String → ApprovalStatus → String → String → Exec (Unit {0})
write_resolution r id status decision txn = do
  update_task r.task_id (clear_pending_approval TaskStatus.running (some txn)) (some r.generation)
  now ← gets (λ c. c.clock)
  update_approval id (set_decided status decision now (some txn))
  journal_commit txn

unfoldable pub announce : Run → String → String → String → Exec (Unit {0})
announce r id status decision =
    publish r.task_id r.run_id "approval.resolved"
      (("approval_id", id) ∷ ("status", status) ∷ ("decision", decision) ∷ []) no_envelope

-- `_resolve_locked`
unfoldable pub resolve_locked : Run → String → ApprovalStatus → String → String → Exec (Unit {0})
resolve_locked r id status decision txn = do
  t ← get_task r.task_id
  let prior = t.pending_approval
  begun ← attempt (journal_begin txn "approval_resolution" r.task_id id)
  elim begun [
    | err e ↦ do rolled_back ← rollback_resolution r id prior; give_up none rolled_back
    | ok _ ↦ do
      written ← attempt (write_resolution r id status decision txn)
      elim written [
        | err e ↦ do rolled_back ← rollback_resolution r id prior; give_up (some txn) rolled_back
        | ok _ ↦ announce r id (value status) decision
      ]
  ]
