-- ===== src/ApprovalGate/Decide.antt =====
-- `apply_decision` and `cancel_pending` of approval_gate.py: the control plane ends a wait.
use thread_forge.Prelude.{
  not, String, Bool, true, false, Option, none, some, List, [], ◌∷◌, if◌then◌else◌, ◌==◌, not, ltb,
}
use thread_forge.Prelude.Dict.{get, remove}
use thread_forge.Domain.{
  TaskStatus, ApprovalStatus, Approval, is_pending, value, approval_already_resolved,
  approval_expired, approval_stale,
}
use thread_forge.Control.{Control, Run, Exec, ◌>>=◌, ◌>>◌, pure, raise, gets, modify}
use thread_forge.Repositories.{get_task, get_approval, update_approval, list_pending_for_task}
use thread_forge.ApprovalGate.{set_decided, resolve_locked, announce}

-- The statuses in which a decision comes too late.
abbrev pub refuses_decision : TaskStatus → Bool
refuses_decision TaskStatus.cancel_requested = true
refuses_decision TaskStatus.cancelled = true
refuses_decision TaskStatus.failed = true
refuses_decision TaskStatus.completed = true
refuses_decision _ = false

abbrev pub decided_status : String → ApprovalStatus
decided_status decision =
    if decision == "approved" then ApprovalStatus.approved else ApprovalStatus.rejected

-- The approval is decided already: the same decision again is answered with the record.
abbrev pub already : Approval → String → Exec Approval → Exec Approval
already a decision again =
    if value a.status == decision then again else raise approval_already_resolved

-- `apply_decision` under the gate.
unfoldable pub decide_locked : Run → String → String → String → Exec Approval
decide_locked r id decision txn = do
  a ← get_approval id
  if not (is_pending a.status) then already a decision (get_approval id) else do
    t ← get_task r.task_id
    if refuses_decision t.status
        then raise approval_stale
        else do resolve_locked r id (decided_status decision) decision txn; get_approval id

-- The run that stands for the gate of a task; a gate in the table is an object that exists.
abbrev pub gate_for : String → Control → Option Run
gate_for task c = elim (get c.task_gates task) [ none ↦ none | some run ↦ get c.runs run ]

-- The gate's run, as `apply_decision` builds a context for it from the approval.
abbrev pub under_gate : Option Run → Approval → (Run → Exec Approval) → Exec Approval
under_gate none a k = raise approval_stale
under_gate (some g) a k =
    k (record g { task_id = a.task_id; run_id = a.run_id; owner_id = a.owner_id })

unfoldable pub apply_decision : String → String → String → Exec Approval
unfolding decide_locked
apply_decision id decision txn = do
  a ← get_approval id
  if not (is_pending a.status) then already a decision (pure a) else do
    now ← gets (λ c. c.clock)
    if ltb a.expires_at now then raise approval_expired else do
      gate ← gets (gate_for a.task_id)
      under_gate gate a (λ r. decide_locked r id decision txn)

unfoldable pub cancel_each : Run → List Approval → Exec (Unit {0})
unfolding announce
cancel_each r [] = pure tt
cancel_each r (a ∷ rest) = do
  now ← gets (λ c. c.clock)
  update_approval a.approval_id (set_decided ApprovalStatus.cancelled "cancelled" now none)
  announce r a.approval_id "cancelled" "cancelled"
  cancel_each r rest

-- `ids` is the order of `list_stable`.
unfoldable pub cancel_pending : Run → List String → Exec (Unit {0})
unfolding cancel_each
cancel_pending r ids = do found ← list_pending_for_task ids r.task_id; cancel_each r found

-- `release_gate`
abbrev pub release_gate : String → Exec (Unit {0})
release_gate task = modify (λ c. record c { task_gates = remove c.task_gates task })
