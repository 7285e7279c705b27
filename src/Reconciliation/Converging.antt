-- ===== src/Reconciliation/Converging.antt =====
-- A restart converges a run's artifacts, then checks them.
use thread_forge.Prelude.{
  String, ◌≡◌, refl, sym, ap, ◌∙◌, Bool, true, false, Option, none, some, is_some, [], ◌==◌, ◌&&◌,
  Bool-cases, Option-cases, inl, inr, eq_refl, eq_iff, arith,
}
use mathlib.Core.Path.{subst}
use thread_forge.Prelude.Dict.{Dict, get-put_self}
use thread_forge.Json.{Python, IsPython, Json, Fields, text, find_field}
use thread_forge.Security.{
  Secrets, redact_fields, redact_artifact, is_secret, is_secret_key, redact_text,
}
use thread_forge.Domain.{TaskStatus, Task, terminal, or_none, or_empty}
use thread_forge.TaskState.Fields.{TaskState, new_state}
use thread_forge.TaskState.Codec.{to_dict, from_dict}
use thread_forge.TaskState.RoundTrip.{Identified, from_dict-Identified}
use thread_forge.RunFiles.{RunFiles, files_of}
use thread_forge.RunStore.{
  start_run, write_task_state, append_trace, write_report, load_task_state, load_report,
}
use thread_forge.Control.{Control, ok, disk}
use thread_forge.Repositories.Steps.{drawn}
use thread_forge.TaskRunner.{set_terminal}
use thread_forge.Reconciliation.{
  load_state, load_or_new, or_new, ended, run_status, run_report, write_artifacts,
  converge_run_artifacts, run_artifacts_match, expected_status, agrees, reports,
}

-- The three files that hold `s` as the run's end.
record Holds (z : Secrets) (s : TaskState) (f : RunFiles) : Type 0 where
  state_held : f.task_state ≡ some (to_dict s)
  report_held : f.report ≡ some (run_report z s s.stop_reason s.final_answer)
  trace_held : is_some f.trace ≡ true

write_artifacts-Holds :
    (z : Secrets) (now : String) (s : TaskState) (c : Control)
    → (d : Dict RunFiles) × (write_artifacts z now s (drawn [] c)
        ≡ (ok tt, record c { faults = []; run_files = d }))
      × Holds z s (files_of s.run_id d)
unfolding write_artifacts start_run write_task_state append_trace write_report disk
write_artifacts-Holds z now s c = (
  _,
  refl,
  record {
    state_held = simp get-put_self;
    report_held = simp get-put_self;
    trace_held = simp get-put_self;
  },
)

-- The redaction leaves the report's own words alone.
pub record Keeps (z : Secrets) (status reason : String) : Type 0 where
  pub status_key : is_secret z "status" ≡ false
  pub reason_key : is_secret z "stop_reason" ≡ false
  pub status_text : redact_text z status ≡ status
  pub reason_text : redact_text z reason ≡ reason

report-status :
    (z : Secrets) (s : TaskState) (answer : String)
    → Keeps z s.status s.stop_reason
    → (find_field (run_report z s s.stop_reason answer) "status" ≡ some (text s.status))
      × (find_field (run_report z s s.stop_reason answer) "stop_reason" ≡ some (text s.stop_reason))
unfolding redact_fields redact_artifact is_secret_key find_field
report-status z s answer k =
    (rw (k.status_key, k.status_text) refl, rw (k.reason_key, k.reason_text) refl)

or_empty-or_none : (x : String) → or_empty (or_none x) ≡ x
or_empty-or_none x = elim (Bool-cases (x == "")) [
  | inl e ↦ rw e (sym ((eq_iff x "").0 e))
  | inr e ↦ rw e refl
]

expected-run_status : (t : TaskStatus) → terminal t ≡ true → expected_status t ≡ some (run_status t)
unfolding expected_status run_status
expected-run_status TaskStatus.queued h = cc
expected-run_status TaskStatus.running h = cc
expected-run_status TaskStatus.waiting_for_approval h = cc
expected-run_status TaskStatus.cancel_requested h = cc
expected-run_status TaskStatus.cancelled h = refl
expected-run_status TaskStatus.completed h = refl
expected-run_status TaskStatus.failed h = refl
expected-run_status TaskStatus.interrupted h = refl
expected-run_status TaskStatus.blocked h = refl

load_state-held :
    (py : Python) (run : String) (s : TaskState) (t : TaskState) (c : Control)
    → (files_of run c.run_files).task_state ≡ some (to_dict s)
    → from_dict py (to_dict s) ≡ some t
    → load_state py run (drawn [] c) ≡ (ok t, drawn [] c)
unfolding load_state load_task_state disk
load_state-held py run s t c h e = rw (h, e) refl

load_report-held :
    (run : String) (r : Fields) (c : Control)
    → (files_of run c.run_files).report ≡ some r
    → load_report run (drawn [] c) ≡ (ok r, drawn [] c)
unfolding load_report disk
load_report-held run r c h = rw h refl

same : (x y : String) → x ≡ y → (x == y) ≡ true
same x y p = rw p (eq_refl y)

agrees-held :
    (z : Secrets) (t : Task) (s u : TaskState) (answer : String)
    → Identified s u
    → Keeps z s.status s.stop_reason
    → s.run_id ≡ t.run_id
    → s.task_id ≡ t.task_id
    → or_empty t.stop_reason ≡ s.stop_reason
    → or_empty t.final_answer ≡ s.final_answer
    → agrees t u (run_report z s s.stop_reason answer) true s.status ≡ true
unfolding agrees
agrees-held z t s u answer i k run task reason final =
    let (a, b) = report-status z s answer k in
    let run' = same u.run_id t.run_id (i.run_id ∙ run) in
    let task' = same u.task_id t.task_id (i.task_id ∙ task) in
    let status' = same u.status s.status i.status in
    let reason' = same u.stop_reason (or_empty t.stop_reason) (i.stop_reason ∙ sym reason) in
    let final' = same u.final_answer (or_empty t.final_answer) (i.final_answer ∙ sym final) in
    rw
      (
        run',
        task',
        status',
        reason',
        final',
        reports,
        a,
        b,
        eq_refl s.status,
        same s.stop_reason (or_empty t.stop_reason) (sym reason),
      )
      refl

match-Holds :
    (py : Python) (z : Secrets) (t : Task) (s : TaskState) (c : Control)
    → IsPython py
    → Keeps z s.status s.stop_reason
    → Holds z s (files_of t.run_id c.run_files)
    → s.run_id ≡ t.run_id
    → s.task_id ≡ t.task_id
    → expected_status t.status ≡ some s.status
    → or_empty t.stop_reason ≡ s.stop_reason
    → or_empty t.final_answer ≡ s.final_answer
    → (t.run_id == "") ≡ false
    → run_artifacts_match py t (drawn [] c) ≡ (ok true, drawn [] c)
unfolding run_artifacts_match
match-Holds py z t s c h k held run task status reason final named =
    let (u, e, i) = from_dict-Identified py s h in
    rw
      (
        named,
        load_state-held py t.run_id s u c held.state_held e,
        load_report-held t.run_id (run_report z s s.stop_reason s.final_answer) c held.report_held,
      )
      (rw (status, held.trace_held)
        (ap (λ b. (ok b, drawn [] c))
          (agrees-held z t s u s.final_answer i k run task reason final)))

abbrev is_own : Task → Option TaskState → Bool
is_own t none = true
is_own t (some u) = u.run_id == t.run_id && u.task_id == t.task_id

-- What the disk holds for the task's run is nothing, no task state, or one of this task.
abbrev pub owned : Python → Task → Option (Dict Json) → Bool
owned py t none = true
owned py t (some d) = is_own t (from_dict py d)

own-ids :
    (t : Task) (u : TaskState)
    → is_own t (some u) ≡ true
    → (u.run_id ≡ t.run_id) × (u.task_id ≡ t.task_id)
own-ids t u h =
    ((eq_iff u.run_id t.run_id).0 (ground arith), (eq_iff u.task_id t.task_id).0 (ground arith))

load_or_new-own :
    (py : Python) (t : Task) (c : Control)
    → owned py t (files_of t.run_id c.run_files).task_state ≡ true
    → (u : TaskState) × (load_or_new py t (drawn [] c) ≡ (ok u, drawn [] c))
      × (u.run_id ≡ t.run_id)
      × (u.task_id ≡ t.task_id)
unfolding load_or_new load_state load_task_state disk or_new new_state
load_or_new-own py t c h = elim (Option-cases (files_of t.run_id c.run_files).task_state) [
  | inl gone ↦ (new_state t.run_id t.task_id t.input, rw gone refl, refl, refl)
  | inr (d, held) ↦ elim (Option-cases (from_dict py d)) [
    | inl bad ↦ (new_state t.run_id t.task_id t.input, rw (held, bad) refl, refl, refl)
    | inr (u, read) ↦
        let (run, task) = own-ids t u (rw (held, read) at h) in (u, rw (held, read) refl, run, task)
  ]
]

-- After the artifacts of a task's run are converged to a terminal status, they match the task that has
-- this status, reason and answer, as long as the disk works, the task state that was there, if any,
-- was this task's, the redaction leaves the status and the reason as they are, and the interpreter's
-- conversions leave a value alone that has the type already.
pub converge_run_artifacts-match :
    (py : Python) (z : Secrets) (now : String) (t : Task) (status : TaskStatus)
    (reason answer : String) (c : Control)
    → IsPython py
    → Keeps z (run_status status) reason
    → (t.run_id == "") ≡ false
    → terminal status ≡ true
    → owned py t (files_of t.run_id c.run_files).task_state ≡ true
    → (d : Dict RunFiles) × (converge_run_artifacts py z now t status reason answer (drawn [] c)
        ≡ (ok tt, record c { faults = []; run_files = d }))
      × (run_artifacts_match py
            (set_terminal status reason answer t)
            (record c { faults = []; run_files = d })
          ≡ (ok true, record c { faults = []; run_files = d }))
unfolding converge_run_artifacts ended
converge_run_artifacts-match py z now t status reason answer c h k named over own =
    let (u, loaded, run, task) = load_or_new-own py t c own in
    let s : TaskState = ended status reason answer u in
    let (d, written, held) = write_artifacts-Holds z now s c in
    (
      d,
      rw (named, loaded) written,
      match-Holds py z (set_terminal status reason answer t) s (record c { run_files = d }) h k
          (subst (λ r. Holds z s (files_of r d)) run held) run task
          (expected-run_status status over) (or_empty-or_none reason) (or_empty-or_none answer)
          named,
    )
