-- ===== src/TaskRunner/SameTasks.antt =====
-- `cancel_pending` of approval_gate.py touches neither a task nor a run, nor a run's place.
use thread_forge.Prelude.{
  String, ◌≡◌, refl, ◌∙◌, Option, none, Option-cases, List, [], ◌∷◌, inl, inr, if◌then◌else◌, ◌&&◌,
  ◌==◌,
}
use thread_forge.Domain.{ApprovalStatus, Approval, Error, is_pending, record_not_found}
use thread_forge.Control.{Control, Run, Exec, Result, Fault, continue, pure, ok, err, set_run}
use thread_forge.Prelude.Dict.{Dict, get}
use thread_forge.Repositories.{list_pending_for_task, skip_missing}
use thread_forge.Repositories.Steps.{
  drawn, put_approval, read_approval-cases, update_approval-cases,
}
use thread_forge.ApprovalGate.{set_decided, announce}
use thread_forge.ApprovalGate.Decide.{cancel_each, cancel_pending}

-- The task that is active, and the run of each task: what a run gives up at its end.
abbrev pub place : Control → Option String × Dict String
place c = (c.active_task, c.contexts)

-- The tasks, the runs and their places are as they were.
pub record SameTasks (c c' : Control) : Type 0 where
  pub tasks : c'.tasks ≡ c.tasks
  pub runs : c'.runs ≡ c.runs
  pub place_kept : place c' ≡ place c

pub SameTasks-refl : (c : Control) → SameTasks c c
SameTasks-refl c = record { tasks = refl; runs = refl; place_kept = refl }

SameTasks-trans : {c d e : Control} → SameTasks c d → SameTasks d e → SameTasks c e
SameTasks-trans s u = record {
  tasks = u.tasks ∙ s.tasks;
  runs = u.runs ∙ s.runs;
  place_kept = u.place_kept ∙ s.place_kept;
}

skip_missing-SameTasks :
    {A : Type 0} (m : Exec A) (c d : Control)
    → SameTasks c (m d).1
    → SameTasks c d
    → (e : Error) → SameTasks c (skip_missing m e d).1
skip_missing-SameTasks m c d s u record_not_found = s
skip_missing-SameTasks m c d s u e = u

list_pending-SameTasks :
    (ids : List String) (task : String) (c : Control)
    → SameTasks c (list_pending_for_task ids task c).1
unfolding list_pending_for_task
list_pending-SameTasks [] task c = SameTasks-refl c
list_pending-SameTasks (id ∷ ids) task c = elim (read_approval-cases id c) [
  | inr (e, fs, p) ↦ rw p (
      skip_missing-SameTasks (list_pending_for_task ids task) c (drawn fs c)
        (SameTasks-trans (calm fs) (list_pending-SameTasks ids task (drawn fs c))) (calm fs) e)
  | inl (a, q, (fs, p)) ↦ rw p (
      rest (list_pending_for_task ids task (drawn fs c)) a
        (SameTasks-trans (calm fs) (list_pending-SameTasks ids task (drawn fs c))))
]
  where
    calm : (fs : List Fault) → SameTasks c (drawn fs c)
    calm fs = record { tasks = refl; runs = refl; place_kept = refl }

    rest :
        (r : Result (List Approval) × Control) (a : Approval)
        → SameTasks c r.1
        → SameTasks c
            (continue r.0
              (λ as'. pure (if a.task_id == task && is_pending a.status then a ∷ as' else as'))
              r.1).1
    rest (ok l, d) a s = s
    rest (err e, d) a s = s

cancel_each-SameTasks :
    (r : Run) (l : List Approval) (c : Control) → SameTasks c (cancel_each r l c).1
unfolding cancel_each
cancel_each-SameTasks r [] c = SameTasks-refl c
cancel_each-SameTasks r (a ∷ rest) c =
    let cancelled = set_decided ApprovalStatus.cancelled "cancelled" c.clock none in
    elim (update_approval-cases a.approval_id cancelled c) [
      | inr (e, fs, p) ↦ rw p (record { tasks = refl; runs = refl; place_kept = refl })
      | inl (b, q, (fs, p)) ↦ rw p (
          SameTasks-trans (record { tasks = refl; runs = refl; place_kept = refl })
            (cancel_each-SameTasks r rest
              (announce r a.approval_id "cancelled" "cancelled"
                (drawn fs (put_approval a.approval_id (cancelled b) c))).1))
    ]

pub cancel_pending-SameTasks :
    (r : Run) (ids : List String) (c : Control) → SameTasks c (cancel_pending r ids c).1
unfolding cancel_pending
cancel_pending-SameTasks r ids c =
    rest (list_pending_for_task ids r.task_id c) (list_pending-SameTasks ids r.task_id c)
  where
    rest :
        (res : Result (List Approval) × Control)
        → SameTasks c res.1
        → SameTasks c (continue res.0 (cancel_each r) res.1).1
    rest (ok l, d) s = SameTasks-trans s (cancel_each-SameTasks r l d)
    rest (err e, d) s = s

pub set_run-tasks : (run : String) (f : Run → Run) (c : Control) → (set_run run f c).tasks ≡ c.tasks
unfolding set_run
set_run-tasks run f c = elim (Option-cases (get c.runs run)) [
  | inl q ↦ rw (set_run, q) refl
  | inr (r, q) ↦ rw (set_run, q) refl
]
