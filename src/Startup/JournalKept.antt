-- ===== src/Startup/JournalKept.antt =====
-- The loops over the tasks and over the approvals in `reconcile` leave the journal alone.
use thread_forge.Prelude.{
  String, refl, ◌==◌, ◌&&◌, not, Bool, true, false, Bool-cases, Option, none, some, List, [], ◌∷◌,
  inl, inr, ℕ,
}
use thread_forge.Json.{Python}
use thread_forge.Security.{Secrets}
use thread_forge.Domain.{ApprovalStatus, Task, terminal, is_pending}
use thread_forge.Journal.{JournalFile}
use thread_forge.TaskRunner.Outcome.{Outcome, terminal_task_from_run}
use thread_forge.Reconciliation.{load_state, run_artifacts_match}
use thread_forge.Control.{Control, Exec, attempt}
use thread_forge.Repositories.{update_task}
use thread_forge.Repositories.Steps.{
  drawn, get_task-cases, update_task-cases, get_approval-cases, update_approval-cases,
}
use thread_forge.Startup.{
  is_active, each, restore, recover_active, check_ended, converge_unless, reconcile_task,
  reconcile_approval, saved_outcome, fail_service_restarted, readable, set_approval_status,
}
use thread_forge.Startup.Untouched.{
  Keeps, Keeps-bind, converge_run_artifacts-Keeps, run_artifacts_match-Keeps, load_state-Keeps,
  repair-Keeps,
}

abbrev journal_of : Control → JournalFile
journal_of c = c.journal

update_task-Keeps :
    (id : String) (f : Task → Task) (g : Option ℕ) → Keeps journal_of (update_task id f g)
update_task-Keeps id f g c = elim (update_task-cases id f g c) [
  | inl (t, q, s, (fs, p)) ↦ rw p refl
  | inr (e, fs, p) ↦ rw p refl
]

each-Keeps :
    {A : Type 0} (step : A → Exec Bool)
    → ((x : A) → Keeps journal_of (step x))
    → (xs : List A) → Keeps journal_of (each step xs)
each-Keeps step h [] c = refl
each-Keeps step h (x ∷ xs) c =
    Keeps-bind journal_of (step x) _ (h x)
      (λ a. Keeps-bind journal_of (each step xs) _ (each-Keeps step h xs) (λ b d. refl)) c

module _ (py : Python) (z : Secrets) (now : String) (t : Task) where
  restore-Keeps : (o : Option Outcome) → Keeps journal_of (restore py z now t o)
  unfolding fail_service_restarted
  restore-Keeps none =
      Keeps-bind journal_of _ _
        (converge_run_artifacts-Keeps journal_of (λ c r fs. refl) py z now t _ _ _)
        (λ _. update_task-Keeps t.task_id _ none)
  restore-Keeps (some o) =
      Keeps-bind journal_of _ _
        (repair-Keeps journal_of (λ c r fs. refl) py z now t o.stop_reason o.final_answer)
        (λ _. update_task-Keeps t.task_id _ none)

  recover_active-Keeps : Keeps journal_of (recover_active py z now t)
  unfolding recover_active saved_outcome
  recover_active-Keeps c = elim (Bool-cases (t.execution_environment == "local_worker")) [
    | inl e ↦ rw e (update_task-Keeps t.task_id _ none c)
    | inr e ↦ elim (Bool-cases (t.run_id == "")) [
      | inl unnamed ↦ rw (e, unnamed) (restore-Keeps none c)
      | inr named ↦
          rw (e, named)
            (Keeps-bind journal_of (attempt (load_state py t.run_id))
              (λ r. restore py z now t (terminal_task_from_run (readable r) t))
              (load_state-Keeps journal_of (λ c r fs. refl) py t.run_id)
              (λ r. restore-Keeps (terminal_task_from_run (readable r) t)) c)
    ]
  ]

  converge_unless-Keeps : (b : Bool) → Keeps journal_of (converge_unless py z now t b)
  converge_unless-Keeps true c = refl
  converge_unless-Keeps false c =
      converge_run_artifacts-Keeps journal_of (λ c r fs. refl) py z now t t.status _ _ c

  check_ended-Keeps : Keeps journal_of (check_ended py z now t)
  unfolding check_ended
  check_ended-Keeps c =
      elim (Bool-cases (not (t.execution_environment == "local_worker") && terminal t.status)) [
        | inr other ↦ rw other refl
        | inl ended ↦ rw ended (
            Keeps-bind journal_of (run_artifacts_match py t) (converge_unless py z now t)
              (run_artifacts_match-Keeps journal_of (λ c r fs. refl) py t) converge_unless-Keeps c)
      ]

reconcile_task-Keeps :
    (py : Python) (z : Secrets) (now id : String) → Keeps journal_of (reconcile_task py z now id)
unfolding reconcile_task
reconcile_task-Keeps py z now id c = elim (get_task-cases id c) [
  | inr (e, fs, p) ↦ rw p refl
  | inl (t, q, (fs, p)) ↦ elim (Bool-cases (is_active t.status)) [
    | inl active ↦ rw (p, active) (recover_active-Keeps py z now t (drawn fs c))
    | inr ended ↦ rw (p, ended) (check_ended-Keeps py z now t (drawn fs c))
  ]
]

reconcile_approval-Keeps : (id : String) → Keeps journal_of (reconcile_approval id)
unfolding reconcile_approval
reconcile_approval-Keeps id c = elim (get_approval-cases id c) [
  | inr (e, fs, p) ↦ rw p refl
  | inl (a, q, (fs, p)) ↦ elim (Bool-cases (is_pending a.status)) [
    | inr over ↦ rw (p, over) refl
    | inl open' ↦
        let f = set_approval_status ApprovalStatus.expired "expired" c.clock in
        elim (update_approval-cases id f (drawn fs c)) [
          | inr (e, fs', w) ↦ rw (p, open', w) refl
          | inl (b, q', (fs', w)) ↦ rw (p, open', w) refl
        ]
  ]
]

pub each_task-Keeps :
    (py : Python) (z : Secrets) (now : String) (ids : List String)
    → Keeps journal_of (each (reconcile_task py z now) ids)
each_task-Keeps py z now = each-Keeps (reconcile_task py z now) (reconcile_task-Keeps py z now)

pub each_approval-Keeps : (ids : List String) → Keeps journal_of (each reconcile_approval ids)
each_approval-Keeps = each-Keeps reconcile_approval reconcile_approval-Keeps
