-- ===== src/ApprovalGate/Records.antt =====
-- The module-level helpers of approval_gate.py that change one record.
use thread_forge.Prelude.{ℕ, String, Option, none, some}
use thread_forge.Domain.{TaskStatus, ApprovalStatus, PendingApproval, Task, Approval}

unfoldable pub set_pending_approval : PendingApproval → Option String → Task → Task
set_pending_approval p txn t = record t {
  status = TaskStatus.waiting_for_approval;
  pending_approval = some p;
  transition_id = txn;
}

unfoldable pub clear_pending_approval : TaskStatus → Option String → Task → Task
clear_pending_approval next txn t = record t {
  status = next;
  pending_approval = none;
  transition_id = txn;
}

unfoldable pub set_decided : ApprovalStatus → String → ℕ → Option String → Approval → Approval
set_decided status decision at txn a = record a {
  status = status;
  decision = some decision;
  decided_at = some at;
  transition_id = txn;
}

unfoldable pub restore_pending_approval : Approval → Approval
restore_pending_approval a = record a {
  status = ApprovalStatus.pending;
  decision = none;
  decided_at = none;
  transition_id = none;
}

unfoldable pub restore_waiting_task : Option PendingApproval → Task → Task
restore_waiting_task p t = record t {
  status = TaskStatus.waiting_for_approval;
  pending_approval = p;
  transition_id = none;
}
