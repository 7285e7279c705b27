-- ===== src/Domain.antt =====
-- api-server/src/threadforge_api/domain/enums.py and entities.py, and the errors of
-- domain/errors.py, infrastructure/json_repositories.py and pico/execution_hooks.py that the
-- control plane raises. Times are numbers on one clock; the source's ISO texts stand for them.
use thread_forge.Prelude.{
  ℕ, String, Bool, true, false, Option, none, some, List, if◌then◌else◌, ◌==◌,
}
use thread_forge.Json.{Fields}

pub data TaskStatus : Type 0 where
  queued running waiting_for_approval cancel_requested cancelled completed failed interrupted
        blocked :
      TaskStatus

abbrev pub terminal : TaskStatus → Bool
terminal TaskStatus.cancelled = true
terminal TaskStatus.completed = true
terminal TaskStatus.failed = true
terminal TaskStatus.interrupted = true
terminal TaskStatus.blocked = true
terminal _ = false

pub data ApprovalStatus : Type 0 where
  pending approved rejected expired cancelled : ApprovalStatus

abbrev pub is_pending : ApprovalStatus → Bool
is_pending ApprovalStatus.pending = true
is_pending _ = false

-- ApprovalStatus.value
abbrev pub value : ApprovalStatus → String
value ApprovalStatus.pending = "pending"
value ApprovalStatus.approved = "approved"
value ApprovalStatus.rejected = "rejected"
value ApprovalStatus.expired = "expired"
value ApprovalStatus.cancelled = "cancelled"

-- TaskStatus.value
abbrev pub status_value : TaskStatus → String
status_value TaskStatus.queued = "queued"
status_value TaskStatus.running = "running"
status_value TaskStatus.waiting_for_approval = "waiting_for_approval"
status_value TaskStatus.cancel_requested = "cancel_requested"
status_value TaskStatus.cancelled = "cancelled"
status_value TaskStatus.completed = "completed"
status_value TaskStatus.failed = "failed"
status_value TaskStatus.interrupted = "interrupted"
status_value TaskStatus.blocked = "blocked"

-- The dictionary in `Task.pending_approval`.
pub record PendingApproval : Type 0 where
  pub approval_id : String
  pub tool_call_id : String
  pub tool_name : String
  pub args_preview : String
  pub created_at : ℕ
  pub expires_at : ℕ

pub record Task : Type 0 where
  pub task_id : String
  pub session_id : String
  pub workspace_id : String
  pub owner_id : String
  pub run_id : String
  pub input : String
  pub execution_environment : String
  pub device_id : String
  pub status : TaskStatus
  pub max_steps : ℕ
  pub permission_mode : String
  pub model_id : String
  pub reasoning_effort : String
  pub provider_id : String
  pub review_provider_id : String
  pub review_model_id : String
  pub review_reasoning_effort : String
  pub run_index : List Fields
  pub final_answer : Option String
  pub stop_reason : Option String
  pub error_stage : String
  pub error_code : String
  pub error_retryable : Bool
  pub error_attempts : ℕ
  pub pending_approval : Option PendingApproval
  pub created_at : ℕ
  pub updated_at : ℕ
  pub generation : ℕ
  pub transition_id : Option String
  pub schema_version : ℕ

pub record Approval : Type 0 where
  pub approval_id : String
  pub task_id : String
  pub run_id : String
  pub owner_id : String
  pub tool_call_id : String
  pub tool_name : String
  pub args_digest : String
  pub args_preview : String
  pub request_digest : String
  pub status : ApprovalStatus
  pub decision : Option String
  pub created_at : ℕ
  pub expires_at : ℕ
  pub decided_at : Option ℕ
  pub transition_id : Option String
  pub schema_version : ℕ

pub data Error : Type 0 where
  session_not_found task_not_found approval_not_found run_not_found record_not_found : Error
  record_corrupted record_unavailable stale_generation persistence_unavailable : Error
  run_cancelled approval_already_resolved approval_expired approval_stale : Error
  active_task_exists task_runner_unavailable stale_runner_write : Error

-- x or None
abbrev pub or_none : String → Option String
or_none s = if s == "" then none else some s

-- x or ""
abbrev pub or_empty : Option String → String
or_empty none = ""
or_empty (some s) = s
