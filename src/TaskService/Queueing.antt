-- ===== src/TaskService/Queueing.antt =====
-- What a request for a new task leaves behind.
use thread_forge.Prelude.{
  if◌then◌else◌, not, is_some, String, ◌≡◌, refl, sym, ◌∙◌, ◌⊎◌, Bool, true, false, Option, none,
  some, List, Bool-cases, [], ◌∷◌, Option-cases, inl, inr,
}
use thread_forge.Prelude.Dict.{get, put, get-put_self}
use thread_forge.Json.{Python}
use thread_forge.Security.{Secrets}
use thread_forge.Domain.{
  TaskStatus, Task, Error, active_task_exists, task_runner_unavailable, record_corrupted,
}
use thread_forge.Control.{
  Control, Fault, Exec, raise, Result, continue, attempt, ok, err, ◌>>=◌, ◌>>◌, publish,
}
use thread_forge.Publisher.{no_envelope}
use thread_forge.Repositories.{create_task, update_task}
use thread_forge.Repositories.Steps.{
  Does, Fails, drawn, put_task, write_task-cases, update_task-cases,
}
use thread_forge.Startup.Untouched.{converge_run_artifacts-Keeps}
use thread_forge.Reconciliation.{converge_run_artifacts}
use thread_forge.TaskRunner.{register, is_available, set_terminal, claim, unclaim}
use thread_forge.TaskRunner.Registering.{registered, unstarted}
use thread_forge.TaskService.{
  request_for, record_refusal, refuse_task, or_refused, store_and_register, queue_task,
}

-- The new record is there, although its write has failed after the file was replaced.
abbrev Lands : Bool → Task → Control → Type 0
Lands landed t c =
    (landed ≡ true)
    × ((e : Error) × (fs : List Fault) × (create_task landed t c
          ≡ (err e, drawn fs (put_task t.task_id t c))))

create_task-cases :
    (landed : Bool) (t : Task) (c : Control)
    → Does (create_task landed t) c t (put_task t.task_id t)
      ⊎ (Fails (create_task landed t) c ⊎ Lands landed t c)
unfolding create_task
create_task-cases landed t c = elim (Option-cases (get c.tasks t.task_id)) [
  | inr (old, q) ↦ inr (inl (record_corrupted, c.faults, rw q refl))
  | inl q ↦ elim (write_task-cases t.task_id t c) [
    | inl (fs, p) ↦ inl (fs, rw (q, p) refl)
    | inr (e, fs, p) ↦ elim (Bool-cases landed) [
      | inr clean ↦ inr (inl (e, fs, rw (q, p, clean) refl))
      | inl late ↦ inr (inr (late, (e, fs, rw (q, p, late) refl)))
    ]
  ]
]

-- The task is stored as failed.
abbrev pub IsFailed : String → Control → Type 0
IsFailed id c = (u : Task) × (get c.tasks id ≡ some u) × (u.status ≡ TaskStatus.failed)

-- A request that succeeds has stored the task and its run is the active one; one that fails has stored nothing, or
-- the task ended as failed, or the service is degraded, or the write of the task has landed although
-- it failed, and the active run is what it was.
abbrev pub Queued : Bool → Task → Control → Result Task × Control → Type 0
Queued landed t c (ok u, d) =
    (u ≡ t) × (get d.tasks t.task_id ≡ some t) × (d.active_task ≡ some t.task_id)
Queued landed t c (err e, d) =
    (d.active_task ≡ c.active_task)
    × ((d.tasks ≡ c.tasks)
        ⊎ (IsFailed t.task_id d
            ⊎ ((d.degraded ≡ true) ⊎ ((landed ≡ true) × (d.tasks ≡ put c.tasks t.task_id t)))))

abbrev Refused : Task → Result (Unit {0}) × Control → Type 0
Refused t (ok _, d) = IsFailed t.task_id d × (d.active_task ≡ none)
Refused t (err e, d) = d.active_task ≡ none

module _ (py : Python) (z : Secrets) (now : String) (t : Task) (landed : Bool) where
  abbrev store_failed : Exec (Unit {0})
  store_failed = do
    update_task t.task_id (set_terminal TaskStatus.failed "task_runner_unavailable" "") none
    publish t.task_id t.run_id "task.failed" (("stop_reason", "task_runner_unavailable") ∷ [])
        no_envelope

  store_failed-Refused : (c : Control) → c.active_task ≡ none → Refused t (store_failed c)
  store_failed-Refused c idle =
      elim (update_task-cases t.task_id
        (set_terminal TaskStatus.failed "task_runner_unavailable" "") none c) [
          | inl (u, q, s, (fs, p)) ↦ rw p ((_, get-put_self c.tasks t.task_id _, refl), idle)
          | inr (e, fs, p) ↦ rw p idle
        ]

  record_refusal-Refused :
      (c : Control) → c.active_task ≡ none → Refused t (record_refusal py z now t c)
  unfolding record_refusal
  record_refusal-Refused c idle =
      go (converge_run_artifacts py z now t TaskStatus.failed "task_runner_unavailable" "" c) (
        converge_run_artifacts-Keeps (λ (s : Control). s.active_task) (λ s r fs. refl) py z now t
          TaskStatus.failed "task_runner_unavailable" "" c
        ∙ idle)
    where
      go :
          (x : Result (Unit {0}) × Control)
          → x.1.active_task ≡ none
          → Refused t (continue x.0 (λ _. store_failed) x.1)
      go (ok u, d) p = store_failed-Refused d p
      go (err e, d) p = p

  refusal-Queued :
      (c d : Control)
      → c.active_task ≡ none
      → d.active_task ≡ none
      → Queued landed t c (or_refused py z now t (err task_runner_unavailable) d)
  refusal-Queued c d idle idle' = go (record_refusal py z now t d) (record_refusal-Refused d idle')
    where
      go : (x : Result (Unit {0}) × Control) → Refused t x → Queued landed t c (refuse_task x.0 x.1)
      go (ok u, e) (f, p) = (p ∙ sym idle, inr (inl f))
      go (err x, e) p = (p ∙ sym idle, inr (inr (inl refl)))

  register-Queued :
      (starts : Bool) (c d : Control)
      → c.active_task ≡ none
      → is_available d ≡ true
      → d.active_task ≡ none
      → get d.tasks t.task_id ≡ some t
      → Queued landed t c ((attempt (register (request_for t) starts) >>= or_refused py z now t) d)
  register-Queued true c d idle free idle' stored =
      rw (registered (request_for t) d free idle') (refl, stored, refl)
  register-Queued false c d idle free idle' stored =
      rw (unstarted (request_for t) d free idle')
        (refusal-Queued c (unclaim (request_for t) (claim (request_for t) d)) idle refl)

  store_and_register-Queued :
      (starts : Bool) (c : Control)
      → is_available c ≡ true
      → c.active_task ≡ none
      → Queued landed t c (store_and_register py z now t landed starts c)
  unfolding store_and_register is_available
  store_and_register-Queued starts c free idle = elim (create_task-cases landed t c) [
    | inr (inl (e, fs, p)) ↦ rw p (refl, inl refl)
    | inr (inr (late, (e, fs, p))) ↦ rw p (refl, inr (inr (inr (late, refl))))
    | inl (fs, p) ↦
        rw p (register-Queued starts c _ idle free idle (get-put_self c.tasks t.task_id t))
  ]

-- A request for a new task that succeeds has stored the task, and its run is the active one. One that fails
-- leaves the active run as it was, and has stored nothing, or the task ended as failed, or the service is degraded, or
-- the write of the new task is the one that failed, after it had replaced the file: then the task is stored as queued.
pub queue_task-Queued :
    (py : Python) (z : Secrets) (now : String) (t : Task) (landed starts : Bool) (c : Control)
    → Queued landed t c (queue_task py z now t landed starts c)
unfolding queue_task
queue_task-Queued py z now t landed starts c = go (is_available c) c.active_task refl refl
  where
    go :
        (b : Bool) (x : Option String)
        → is_available c ≡ b
        → c.active_task ≡ x
        → Queued landed t c (
            (if not b
                then raise task_runner_unavailable
                else (if is_some x
                    then raise active_task_exists
                    else store_and_register py z now t landed starts))
              c)
    go false x p q = (refl, inl refl)
    go true (some other) p q = (refl, inl refl)
    go true none p q = store_and_register-Queued py z now t landed starts c p q
