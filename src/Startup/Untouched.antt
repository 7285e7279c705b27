-- ===== src/Startup/Untouched.antt =====
-- run_reconciliation.py writes the artifacts of a run and touches nothing else.
use thread_forge.Prelude.{
  arith, Option, none, some, String, if◌then◌else◌, ◌≡◌, refl, ◌∙◌, Bool, true, false, Bool-cases,
  Option-cases, List, ◌==◌, inl, inr,
}
use thread_forge.Prelude.Dict.{Dict}
use thread_forge.Json.{Python, Fields}
use thread_forge.Security.{Secrets}
use thread_forge.Domain.{TaskStatus, Task}
use thread_forge.TaskState.Fields.{TaskState}
use thread_forge.RunStore.{
  start_run, write_task_state, append_trace, write_report, load_task_state, load_report,
}
use thread_forge.RunFiles.{RunFiles, files_of}
use thread_forge.Control.{Control, Exec, Fault, Result, continue, ok, err, ◌>>=◌, attempt, pure}
use thread_forge.Repositories.Steps.{disk-cases}
use thread_forge.Reconciliation

-- The action leaves what `π` shows of the state as it was.
abbrev pub Keeps : {A X : Type 0} → (Control → X) → Exec A → Type 0
Keeps π m = (c : Control) → π (m c).1 ≡ π c

pub Keeps-bind :
    {A B X : Type 0} (π : Control → X) (m : Exec A) (f : A → Exec B)
    → Keeps π m
    → ((a : A) → Keeps π (f a))
    → Keeps π (m >>= f)
Keeps-bind {A} {B} {X} π m f h k c = go (m c) (h c)
  where
    go : (x : Result A × Control) → π x.1 ≡ π c → π (continue x.0 f x.1).1 ≡ π c
    go (ok a, d) p = k a d ∙ p
    go (err e, d) p = p

-- `π` does not show the artifacts of the runs and the answers of the disk.
module _ {X : Type 0} (π : Control → X)
    (h : (c : Control) (r : Dict RunFiles) (fs : List Fault)
      → π (record c { run_files = r; faults = fs }) ≡ π c) where
  start_run-Keeps : (s : TaskState) → Keeps π (start_run s)
  unfolding start_run write_task_state
  start_run-Keeps s c = elim (disk-cases c) [
    | inl (fs, p) ↦ rw p (h c _ fs)
    | inr (e, fs, p) ↦ rw p (h c c.run_files fs)
  ]

  append_trace-Keeps : (s : TaskState) (e : Fields) → Keeps π (append_trace s e)
  unfolding append_trace
  append_trace-Keeps s e c = elim (disk-cases c) [
    | inl (fs, p) ↦ rw p (h c _ fs)
    | inr (e', fs, p) ↦ rw p (h c c.run_files fs)
  ]

  write_report-Keeps : (s : TaskState) (r : Fields) → Keeps π (write_report s r)
  unfolding write_report
  write_report-Keeps s r c = elim (disk-cases c) [
    | inl (fs, p) ↦ rw p (h c _ fs)
    | inr (e, fs, p) ↦ rw p (h c c.run_files fs)
  ]

  load_task_state-Keeps : (run : String) → Keeps π (load_task_state run)
  unfolding load_task_state
  load_task_state-Keeps run c = elim (disk-cases c) [
    | inl (fs, p) ↦ elim (Option-cases (files_of run c.run_files).task_state) [
      | inl n ↦ rw (p, n) (h c c.run_files fs)
      | inr (d, n) ↦ rw (p, n) (h c c.run_files fs)
    ]
    | inr (e, fs, p) ↦ rw p (h c c.run_files fs)
  ]

  load_report-Keeps : (run : String) → Keeps π (load_report run)
  unfolding load_report
  load_report-Keeps run c = elim (disk-cases c) [
    | inl (fs, p) ↦ elim (Option-cases (files_of run c.run_files).report) [
      | inl n ↦ rw (p, n) (h c c.run_files fs)
      | inr (d, n) ↦ rw (p, n) (h c c.run_files fs)
    ]
    | inr (e, fs, p) ↦ rw p (h c c.run_files fs)
  ]

  write_artifacts-Keeps :
      (z : Secrets) (now : String) (s : TaskState)
      → Keeps π (Reconciliation.write_artifacts z now s)
  unfolding Reconciliation.write_artifacts
  write_artifacts-Keeps z now s = Keeps-bind π (start_run s) _ (start_run-Keeps s) (λ _.
      Keeps-bind π (append_trace s _) _ (append_trace-Keeps s _) (λ _. write_report-Keeps s _))

  decoded-Keeps : (s : Option TaskState) → Keeps π (Reconciliation.decoded s)
  decoded-Keeps none c = refl
  decoded-Keeps (some s) c = refl

  pub load_state-Keeps : (py : Python) (run : String) → Keeps π (Reconciliation.load_state py run)
  unfolding Reconciliation.load_state
  load_state-Keeps py run =
      Keeps-bind π (load_task_state run) _ (load_task_state-Keeps run) (λ d. decoded-Keeps _)

  or_new-Keeps : (t : Task) (r : Result TaskState) → Keeps π (Reconciliation.or_new t r)
  unfolding Reconciliation.or_new
  or_new-Keeps t r c = ground arith

  load_or_new-Keeps : (py : Python) (t : Task) → Keeps π (Reconciliation.load_or_new py t)
  unfolding Reconciliation.load_or_new
  load_or_new-Keeps py t =
      Keeps-bind π (attempt (Reconciliation.load_state py t.run_id)) (Reconciliation.or_new t)
        (load_state-Keeps py t.run_id) (or_new-Keeps t)

  pub converge_run_artifacts-Keeps :
      (py : Python) (z : Secrets) (now : String) (t : Task) (status : TaskStatus)
      (reason answer : String)
      → Keeps π (Reconciliation.converge_run_artifacts py z now t status reason answer)
  unfolding Reconciliation.converge_run_artifacts
  converge_run_artifacts-Keeps py z now t status reason answer c =
      elim (Bool-cases (t.run_id == "")) [
        | inl e ↦ rw e refl
        | inr e ↦ rw e (
            Keeps-bind π (Reconciliation.load_or_new py t) _ (load_or_new-Keeps py t)
              (λ s. write_artifacts-Keeps z now _) c)
      ]

  both-Keeps : (py : Python) (run : String) → Keeps π (Reconciliation.both py run)
  both-Keeps py run =
      Keeps-bind π (Reconciliation.load_state py run) _ (load_state-Keeps py run)
        (λ s. Keeps-bind π (load_report run) _ (load_report-Keeps run) (λ r c. refl))

  pub run_artifacts_match-Keeps :
      (py : Python) (t : Task) → Keeps π (Reconciliation.run_artifacts_match py t)
  unfolding Reconciliation.run_artifacts_match
  run_artifacts_match-Keeps py t c = elim (Bool-cases (t.run_id == "")) [
    | inl e ↦ rw e refl
    | inr e ↦ rw e (both-Keeps py t.run_id c)
  ]

  repair_trace-Keeps :
      (traced : Bool) (now : String) (s : TaskState) (reason : String)
      → Keeps π (if traced then pure tt else Reconciliation.repair_trace now s reason)
  repair_trace-Keeps true now s reason c = refl
  repair_trace-Keeps false now s reason c = append_trace-Keeps s _ c

  repair_report-Keeps :
      (z : Secrets) (s : TaskState) (reason answer : String) (r : Result Fields)
      → Keeps π (Reconciliation.repair_report z s reason answer r)
  repair_report-Keeps z s reason answer r c =
      elim (Bool-cases (Reconciliation.recorded s reason r)) [
        | inl e ↦ rw e refl
        | inr e ↦ rw e (write_report-Keeps s _ c)
      ]

  pub repair-Keeps :
      (py : Python) (z : Secrets) (now : String) (t : Task) (reason answer : String)
      → Keeps π (Reconciliation.repair_terminal_run_artifacts py z now t reason answer)
  unfolding Reconciliation.repair_terminal_run_artifacts
  repair-Keeps py z now t reason answer =
      Keeps-bind π (Reconciliation.load_state py t.run_id) _ (load_state-Keeps py t.run_id) (λ s c.
        let traced = Reconciliation.has_trace t.run_id c in
        Keeps-bind π (if traced then pure tt else Reconciliation.repair_trace now s reason) _
          (repair_trace-Keeps traced now s reason)
          (λ _.
            Keeps-bind π (attempt (load_report t.run_id))
              (Reconciliation.repair_report z s reason answer) (load_report-Keeps t.run_id)
              (repair_report-Keeps z s reason answer))
          c)
