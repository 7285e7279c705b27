-- ===== src/Startup/Restoring.antt =====
-- What the recovery of a task that was active leaves behind.
use thread_forge.Prelude.{
  if◌then◌else◌, String, ◌≡◌, refl, sym, ◌∙◌, Bool, true, false, Option, none, some, List, ◌==◌,
  Bool-cases, inl, inr, arith, eq_iff,
}
use mathlib.Core.Path.{subst}
use thread_forge.Prelude.Dict.{Dict, get, put, get-put}
use thread_forge.Json.{Python}
use thread_forge.Security.{Secrets}
use thread_forge.Domain.{Task}
use thread_forge.TaskState.Fields.{TaskState}
use thread_forge.TaskRunner.{set_terminal}
use thread_forge.TaskRunner.Outcome.{Outcome, terminal_task_from_run, failure_status}
use thread_forge.Reconciliation.{load_state}
use thread_forge.Control.{Control, Exec, Result, continue, ok, err, ◌>>=◌, attempt}
use thread_forge.Repositories.{update_task}
use thread_forge.Repositories.Steps.{update_task-cases, updated}
use thread_forge.Startup.{
  is_active, set_failed_restarted, recover_active, restore, readable, saved_outcome,
  fail_service_restarted,
}
use thread_forge.Startup.Loops.{All}
use thread_forge.Startup.Untouched.{
  Keeps, converge_run_artifacts-Keeps, load_state-Keeps, repair-Keeps,
}

-- Each stored task is under its own id.
abbrev pub Keyed : Dict Task → Type 0
Keyed d = (id : String) (t : Task) → get d id ≡ some t → t.task_id ≡ id

-- The task is stored and is not active.
abbrev pub is_settled : Option Task → Bool
is_settled none = false
is_settled (some t) = if is_active t.status then false else true

abbrev pub AllSettled : List String → Dict Task → Type 0
AllSettled ids d = All (λ id. is_settled (get d id) ≡ true) ids

-- What a body that went well leaves behind: `id` is settled, and so is what was settled before.
abbrev pub Settles : String → Dict Task → Dict Task → Type 0
Settles id d e =
    Keyed e
    × (is_settled (get e id) ≡ true)
    × ((j : String) → is_settled (get d j) ≡ true → is_settled (get e j) ≡ true)

pub put-Settles :
    (d : Dict Task) (id : String) (t : Task)
    → Keyed d
    → t.task_id ≡ id
    → is_active t.status ≡ false
    → Settles id d (put d id t)
put-Settles d id t k p h = (
  λ j u q. ground (arith, get-put d id j t, eq_iff id j, k j u),
  ground (arith, get-put d id id t, eq_iff id id),
  λ j q. ground (arith, get-put d id j t),
)

abbrev pub ends : Option Outcome → Bool
ends none = true
ends (some o) = if is_active o.status then false else true

pub failure_status-ends : (reason : String) → is_active (failure_status reason) ≡ false
unfolding failure_status
failure_status-ends reason = ground arith

pub terminal_task_from_run-ends :
    (s : Option TaskState) (t : Task) → ends (terminal_task_from_run s t) ≡ true
unfolding terminal_task_from_run
terminal_task_from_run-ends none t = refl
terminal_task_from_run-ends (some s) t = ground (arith, failure_status-ends s.stop_reason)

-- An action that returns has settled the task.
abbrev pub Left : {A : Type 0} → String → Dict Task → Result A × Control → Type 0
Left id d (ok a, c) = Settles id d c.tasks
Left id d (err e, c) = Unit {0}

abbrev pub tasks_of : Control → Dict Task
tasks_of c = c.tasks

abbrev pub Restores : {A : Type 0} → String → Exec A → Type 0
Restores id m = (c : Control) → Keyed c.tasks → Left id c.tasks (m c)

pub after_kept :
    {A B : Type 0} (id : String) (m : Exec A) (f : A → Exec B)
    → Keeps tasks_of m
    → ((a : A) → Restores id (f a))
    → Restores id (m >>= f)
after_kept {A} {B} id m f h k c keyed = go (m c) (h c)
  where
    go : (x : Result A × Control) → x.1.tasks ≡ c.tasks → Left id c.tasks (continue x.0 f x.1)
    go (ok a, d) p = subst (λ e. Left id e (f a d)) p (k a d (subst Keyed (sym p) keyed))
    go (err e, d) p = tt

pub update_task-Restores :
    (id : String) (f : Task → Task)
    → ((t : Task) → ((f t).task_id ≡ t.task_id) × (is_active (f t).status ≡ false))
    → Restores id (update_task id f none)
update_task-Restores id f h c keyed = elim (update_task-cases id f none c) [
  | inr (e, fs, p) ↦ rw p tt
  | inl (t, q, fresh, (fs, p)) ↦
      rw p (put-Settles c.tasks id (updated f t c) keyed ((h t).0 ∙ keyed id t q) (h t).1)
]

pub failed_restarted-Restores :
    (id : String) → Restores id (update_task id set_failed_restarted none)
failed_restarted-Restores id = update_task-Restores id set_failed_restarted (λ t. (refl, refl))

module _ (py : Python) (z : Secrets) (now : String) (t : Task) where
  pub restore-Restores :
      (o : Option Outcome) → ends o ≡ true → Restores t.task_id (restore py z now t o)
  unfolding fail_service_restarted
  restore-Restores none h =
      after_kept t.task_id _ _
        (converge_run_artifacts-Keeps tasks_of (λ c r fs. refl) py z now t _ _ _)
        (λ _. failed_restarted-Restores t.task_id)
  restore-Restores (some o) h =
      after_kept t.task_id _ _
        (repair-Keeps tasks_of (λ c r fs. refl) py z now t o.stop_reason o.final_answer)
        (λ _.
          update_task-Restores t.task_id (set_terminal o.status o.stop_reason o.final_answer)
            (λ u. (refl, ground arith)))

  pub recover_active-Restores : Restores t.task_id (recover_active py z now t)
  unfolding recover_active saved_outcome
  recover_active-Restores c keyed = elim (Bool-cases (t.execution_environment == "local_worker")) [
    | inl e ↦ rw e (failed_restarted-Restores t.task_id c keyed)
    | inr e ↦ elim (Bool-cases (t.run_id == "")) [
      | inl unnamed ↦ rw (e, unnamed) (restore-Restores none refl c keyed)
      | inr named ↦
          rw (e, named)
            (after_kept t.task_id (attempt (load_state py t.run_id)) _
              (load_state-Keeps tasks_of (λ c r fs. refl) py t.run_id)
              (λ r.
                restore-Restores (terminal_task_from_run (readable r) t)
                  (terminal_task_from_run-ends (readable r) t))
              c keyed)
    ]
  ]
