-- ===== src/Examples/Starting.antt =====
-- Concrete inputs: a start after a crash, and calls of tools.
use thread_forge.Prelude.{
  ◌⊎◌, ◌≡◌, refl, true, false, none, some, List, [], ◌∷◌, ◌&&◌, not, contains, map, ltb, length,
}
use thread_forge.Prelude.Dict.{get}
use thread_forge.Domain.{approval_not_found, ApprovalStatus}
use thread_forge.Journal
use thread_forge.Control.{Control, pure, raise}
use thread_forge.ApprovalPolicy.{auto}
use thread_forge.Startup
use thread_forge.DeviceStore
use thread_forge.DeviceStore.{Device, System, Presence}
use thread_forge.DeviceStore.Pairing
use thread_forge.DeviceStore.Naming
use thread_forge.Json.{clip}
use thread_forge.Prelude.Dict.{Dict}
use thread_forge.TaskService
use thread_forge.TaskService.Queueing
use thread_forge.TaskService.Owned
use thread_forge.Repositories.Steps.{Fails}
use thread_forge.Startup.Restoring
use thread_forge.Startup.Reconciled
use thread_forge.ToolExecutor
use thread_forge.ToolExecutor.{Agent}
use thread_forge.ToolExecutor.Calls
use thread_forge.ToolExecutor.Runtime
use thread_forge.ToolExecutor.Runtime.{ToolEvent}
use thread_forge.ToolExecutor.Admitted
use thread_forge.ToolExecutor.Reported
use thread_forge.ToolExecutor.Answers
use thread_forge.ToolExecutor.Repeated
use thread_forge.ToolExecutor.Snapshots
use thread_forge.Examples.{plane, approval_with}
use thread_forge.Examples.Streams.{plain}
use thread_forge.Examples.Gates.{secrets}
use thread_forge.Examples.Runner.{running}

-- A running task, a pending approval, and a transition that was begun before the crash.
abbrev crashed : Control
crashed = record (plane running (("a1", approval_with ApprovalStatus.pending) ∷ []) []) {
  journal = record {
    lines =
        Journal.begin (record {
          transition_id = "x1";
          kind = "approval_request";
          task_id = "t1";
          approval_id = "a1";
        })
        ∷ [];
    torn = true;
  };
}

abbrev agent : Agent
agent = record {
  allowed_tools = none;
  tools = ("read_file", false) ∷ ("run_shell", true) ∷ [];
  has_task_state = true;
  read_only = false;
  cancelled = false;
  approval_strategy = auto;
  history = [];
  validate = λ name args. none;
  example = λ name. "";
  run = λ name args. Calls.returned "exit_code: 1";
  before_snapshot = ("a.py", "h1") ∷ [];
  after_snapshot = ("a.py", "h2") ∷ ("b.py", "h1") ∷ [];
  fingerprint = "f1";
  stops = λ e. false;
  sorted = λ paths. paths;
  mentions = λ part whole. false;
  exits_badly = λ content. true;
}

execute-runs_example : Admitted.runs (ToolExecutor.execute agent "run_shell" "make" "c1").1 ≡ (
    ToolExecutor.is_allowed agent.allowed_tools "run_shell"
    && Admitted.admits agent "run_shell" "make" "c1" (get agent.tools "run_shell"))
execute-runs_example = Admitted.execute-runs agent "run_shell" "make" "c1"

abbrev past : List ToolEvent
past =
    record { name = "run_shell"; args = "make" } ∷ record { name = "read_file"; args = "a.py" } ∷ []

repeated_tool_call-last_write_example : Runtime.repeated_tool_call past "run_shell" "make" ≡ (
    not (contains "run_shell" Runtime.read_only_tools)
    && (not (ltb (length past) 2)
        && Repeated.is_call "run_shell" "make" (Repeated.last_write (Runtime.recent past))))
repeated_tool_call-last_write_example =
    Repeated.repeated_tool_call-last_write past "run_shell" "make"

diff_workspace_snapshots-differs_example :
    (contains "b.py"
        (Runtime.diff_workspace_snapshots agent.sorted agent.before_snapshot agent.after_snapshot).0
      ≡ Snapshots.differs agent.before_snapshot agent.after_snapshot "b.py")
    × ((Runtime.diff_workspace_snapshots agent.sorted agent.before_snapshot agent.after_snapshot).1
        ≡ map
            (Runtime.path_summary agent.before_snapshot agent.after_snapshot)
            (Runtime.diff_workspace_snapshots agent.sorted agent.before_snapshot
              agent.after_snapshot).0)
diff_workspace_snapshots-differs_example =
    Snapshots.diff_workspace_snapshots-differs agent.sorted agent.before_snapshot
      agent.after_snapshot "b.py" (λ x l. refl)

abbrev idle_plane : Control
idle_plane = record (plane running [] []) { tasks = []; active_task = none }

queue_task-Queued_example :
    Queueing.Queued false running idle_plane
      (TaskService.queue_task plain secrets "now" running false false idle_plane)
queue_task-Queued_example =
    Queueing.queue_task-Queued plain secrets "now" running false false idle_plane

not_owned :
    (Owned.owns_task "u2" (get crashed.tasks "t1")
      && Owned.owns_approval "u2" "t1" (get crashed.approvals "a1"))
    ≡ false
unfolding get
not_owned = refl

requests-refused_example :
    Fails
      (TaskService.resolve_approval
        (λ o. o)
        (λ id decision. raise approval_not_found)
        "x1"
        "t1"
        "a1"
        "approved"
        "u2")
      crashed
    × (Owned.owns_task "u2" (get crashed.tasks "t1") ≡ true
        ⊎ Fails (TaskService.cancel_task (λ o. o) (λ task. pure true) [] none "t1" "u2") crashed)
requests-refused_example =
    Owned.requests-refused (λ o. o) (λ task. pure true) (λ id decision. raise approval_not_found) []
      none "x1" "t1" "a1" "approved" "u2" crashed not_owned

abbrev system : System
system = record {
  token_digest = λ token. token;
  canonical_owner_id = λ owner. owner;
  strip = λ text. text;
  is_ascii = λ s. true;
  is_device_id = λ id. true;
  size = λ text. 9;
}

abbrev laptop : Device
laptop = record (DeviceStore.new_device system "dev_1" "old" "t0" "u1" "laptop" "m1") {
  workspaces =
      record {
        workspace_id = "w1";
        name = "repo";
        is_git = true;
        display_name_source = "auto";
        display_name_updated_at = "t0";
      }
      ∷ [];
}

abbrev devices : Dict Device
devices = ("dev_1", laptop) ∷ []

abbrev presence : Presence
presence = record {
  model = "m";
  model_provider = "";
  model_configured = true;
  version = "1";
  protocol_version = 1;
  platform = "linux";
  architecture = "x86";
  capabilities = [];
  workspaces = laptop.workspaces;
  orchestration_backend = none;
  model_capabilities = none;
  update_status = none;
}

pair_or_reuse-revoke_example :
    let (v, e) = DeviceStore.pair_or_reuse system "dev_2" "fresh" "t1" "u1" "laptop" "m1" devices in
    (DeviceStore.authenticate system "fresh" e ≡ DeviceStore.ok v)
    × (Pairing.let_in (
          DeviceStore.authenticate system "fresh"
            (Pairing.update_all system (("dev_1", "t2", presence) ∷ []) e))
        ≡ some v.device_id)
    × ((DeviceStore.revoke system v.device_id "u1" e).0 ≡ DeviceStore.ok tt)
    × (DeviceStore.authenticate system "fresh" (DeviceStore.revoke system v.device_id "u1" e).1
        ≡ DeviceStore.refused DeviceStore.authorization_denied)
pair_or_reuse-revoke_example =
    Pairing.pair_or_reuse-revoke system "dev_2" "fresh" "t1" "u1" "laptop" "m1" devices
      (("dev_1", "t2", presence) ∷ []) refl refl refl refl

name_accepted :
    Naming.is_ok
      (DeviceStore.set_workspace_display_name system "t1" "dev_1" "u1" "w1" "mine" devices).0
    ≡ true
unfolding DeviceStore.set_workspace_display_name DeviceStore.get_for_owner DeviceStore.get_device
    get
name_accepted = refl

update_presence-name_example :
    Naming.holds_name system "w1" (clip 200 (system.strip "mine")) (
      get
        (Naming.update_presences system "dev_1"
          (("t2", presence) ∷ ("t3", presence) ∷ [])
          (DeviceStore.set_workspace_display_name system "t1" "dev_1" "u1" "w1" "mine" devices).1)
        "dev_1")
    ≡ true
update_presence-name_example =
    Naming.update_presence-name system "t1" "dev_1" "u1" "w1" "mine"
      (("t2", presence) ∷ ("t3", presence) ∷ []) devices name_accepted refl
