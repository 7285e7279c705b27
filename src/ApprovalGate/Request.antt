-- ===== src/ApprovalGate/Request.antt =====
-- `request` and `_wait` of approval_gate.py: a tool call asks for an approval and uses its outcome.
use thread_forge.Prelude.{
  ℕ, ◌+◌, String, Bool, true, false, Option, none, some, [], ◌∷◌, if◌then◌else◌, ◌==◌, ◌&&◌, not,
  leb,
}
use thread_forge.Prelude.Dict.{put}
use thread_forge.Domain.{
  TaskStatus, ApprovalStatus, PendingApproval, Approval, is_pending, run_cancelled,
  approval_not_found,
}
use thread_forge.ApprovalPolicy.{ApprovalOutcome}
use thread_forge.Publisher.{no_envelope}
use thread_forge.Control.{
  Run, Exec, Result, ok, err, ◌>>=◌, ◌>>◌, pure, raise, gets, modify, attempt, succeeded, publish,
}
use thread_forge.Repositories.{update_task, get_approval, create_approval, update_approval}
use thread_forge.ApprovalGate.{
  set_pending_approval, clear_pending_approval, set_decided, journal_begin, journal_commit, give_up,
  resolve_locked,
}

-- `_rollback_request`: the approval, if it was created, is cancelled.
unfoldable pub withdraw : String → Result Approval → Exec Bool
withdraw id (err approval_not_found) = pure true
withdraw id (err e) = pure false
withdraw id (ok a) = do
  now ← gets (λ c. c.clock)
  w ←
      attempt
        (update_approval id (set_decided ApprovalStatus.cancelled "persistence_error" now none))
  pure (succeeded w)

unfoldable pub rollback_request : Run → String → Exec Bool
unfolding withdraw
rollback_request r id = do
  found ← attempt (get_approval id)
  a ← withdraw id found
  t ←
      attempt
        (update_task r.task_id (clear_pending_approval TaskStatus.running none) (some r.generation))
  pure (a && succeeded t)

pub record ToolCall : Type 0 where
  pub tool_call_id : String
  pub tool_name : String
  pub digest : String
  pub preview : String

unfoldable pub new_approval : Run → String → ToolCall → ℕ → ℕ → Option String → Approval
new_approval r id q now timeout txn = record {
  approval_id = id;
  task_id = r.task_id;
  run_id = r.run_id;
  owner_id = r.owner_id;
  tool_call_id = q.tool_call_id;
  tool_name = q.tool_name;
  args_digest = q.digest;
  args_preview = q.preview;
  request_digest = "";
  status = ApprovalStatus.pending;
  decision = none;
  created_at = now;
  expires_at = now + timeout;
  decided_at = none;
  transition_id = txn;
  schema_version = 5;
}

unfoldable pub pending_of : Approval → PendingApproval
pending_of a = record {
  approval_id = a.approval_id;
  tool_call_id = a.tool_call_id;
  tool_name = a.tool_name;
  args_preview = a.args_preview;
  created_at = a.created_at;
  expires_at = a.expires_at;
}

-- The approval is created before the task shows that it waits for it.
unfoldable pub write_request : Run → Approval → String → Exec (Unit {0})
unfolding pending_of
write_request r a txn = do
  create_approval a
  update_task r.task_id (set_pending_approval (pending_of a) (some txn)) (some r.generation)
  journal_commit txn

-- `request` up to the wait. The run is as its gate's holder sees it.
unfoldable pub open_request : Run → String → ToolCall → ℕ → String → Exec (Unit {0})
unfolding new_approval
open_request r id q timeout txn = do
  modify (λ c. record c { task_gates = put c.task_gates r.task_id r.run_id })
  if r.cancelled then raise run_cancelled else do
    begun ← attempt (journal_begin txn "approval_request" r.task_id id)
    elim begun [
      | err e ↦ do rolled_back ← rollback_request r id; give_up none rolled_back
      | ok _ ↦ do
        now ← gets (λ c. c.clock)
        written ← attempt (write_request r (new_approval r id q now timeout (some txn)) txn)
        elim written [
          | err e ↦ do rolled_back ← rollback_request r id; give_up (some txn) rolled_back
          | ok _ ↦
              publish r.task_id r.run_id "approval.required"
                (("approval_id", id)
                  ∷ ("tool_call_id", q.tool_call_id)
                  ∷ ("tool_name", q.tool_name)
                  ∷ ("args_preview", q.preview)
                  ∷ [])
                no_envelope
        ]
    ]

-- ApprovalOutcome(status.value), which `pending` has not.
abbrev pub outcome_of : ApprovalStatus → Option ApprovalOutcome
outcome_of ApprovalStatus.pending = none
outcome_of ApprovalStatus.approved = some ApprovalOutcome.approved
outcome_of ApprovalStatus.rejected = some ApprovalOutcome.rejected
outcome_of ApprovalStatus.expired = some ApprovalOutcome.expired
outcome_of ApprovalStatus.cancelled = some ApprovalOutcome.cancelled

-- One turn of the loop in `_wait`; `none` waits on.
unfoldable pub poll : Run → String → ℕ → Exec (Option ApprovalOutcome)
poll r id expires_at = do
  a ← get_approval id
  now ← gets (λ c. c.clock)
  elim (outcome_of a.status) [
    | some o ↦ pure (some o)
    | none ↦
        if r.cancelled
        then pure (some ApprovalOutcome.cancelled)
        else if leb expires_at now
        then pure (some ApprovalOutcome.expired)
        else pure none
  ]

abbrev pub or_outcome : Option ApprovalOutcome → ApprovalOutcome → ApprovalOutcome
or_outcome none o = o
or_outcome (some p) o = p

-- `request` after the wait, with the digest of the arguments that are about to be used.
unfoldable pub settle : Run → String → String → String → ApprovalOutcome → Exec ApprovalOutcome
settle r id digest txn ApprovalOutcome.approved =
    if r.cancelled then pure ApprovalOutcome.cancelled else do
      a ← get_approval id
      if a.args_digest == digest then pure ApprovalOutcome.approved else do
        resolve_locked r id ApprovalStatus.rejected "digest_mismatch" txn
        pure ApprovalOutcome.rejected
settle r id digest txn ApprovalOutcome.expired =
    if r.cancelled then pure ApprovalOutcome.cancelled else do
      a ← get_approval id
      if not (is_pending a.status)
          then pure (or_outcome (outcome_of a.status) ApprovalOutcome.expired)
          else do
            resolve_locked r id ApprovalStatus.expired "expired" txn
            pure ApprovalOutcome.expired
settle r id digest txn o = pure o
