-- ===== src/TaskRunner/Ending/Durable.antt =====
-- What a run's end leaves on the disk.
use thread_forge.Prelude.{
  ℕ, String, ◌≡◌, refl, sym, ap, ◌∙◌, Bool, true, false, Option, none, some, List, ◌⊎◌, inl, inr,
  if◌then◌else◌, arith, [], ◌∷◌,
}
use mathlib.Core.Path.{subst}
use thread_forge.Prelude.Dict.{get, get-put_self, get-remove_self}
use thread_forge.Json.{Python}
use thread_forge.Security.{Secrets, redact_text}
use thread_forge.Domain.{Task, or_none, stale_generation}
use thread_forge.TaskState.Fields.{TaskState}
use thread_forge.Control.{
  Control, Run, Exec, raise, publish, Result, ok, err, continue, ◌>>=◌, ◌>>◌, pure, set_run, close,
}
use thread_forge.Repositories.{update_task}
use thread_forge.Repositories.Steps.{update_task-cases}
use thread_forge.TaskRunner.{RunRequest, set_terminal, release_active, is_task}
use thread_forge.TaskRunner.SameTasks.{set_run-tasks, place}
use thread_forge.TaskRunner.Ending.Place.{converge_terminal-place}
use thread_forge.TaskRunner.Outcome.{Outcome, converged}
use thread_forge.TaskRunner.Ending.{
  persist_artifacts, persist_open, persist_terminal, current, converge_terminal, announce_end,
  finish, release_or_degrade, note_cleanup, withdraw_pending, is_completed, announce_message,
  end_event, end_envelope, or_same, unchecked,
}

-- The stored task has ended as the outcome says.
abbrev pub EndsAs : Outcome → Option Task → Type 0
EndsAs o none = ⊥
EndsAs o (some t) =
    (t.status ≡ o.status)
    × (t.stop_reason ≡ or_none o.stop_reason)
    × (t.final_answer ≡ or_none o.final_answer)
    × (t.pending_approval ≡ none)

-- The action returns only where the task is stored as ended.
abbrev pub Ends : Outcome → String → Result (Unit {0}) × Control → Type 0
Ends o task (ok _, d) = EndsAs o (get d.tasks task)
Ends o task (err e, d) = Unit {0}

pub update-Ends :
    (task : String) (g : Option ℕ) (o : Outcome) (c : Control)
    → Ends o task
        ((do update_task task (set_terminal o.status o.stop_reason o.final_answer) g; pure tt) c)
update-Ends task g o c =
    elim (update_task-cases task (set_terminal o.status o.stop_reason o.final_answer) g c) [
      | inl (t, found, current, (fs, p)) ↦ rw (p, get-put_self) (refl, refl, refl, refl)
      | inr (e, fs, p) ↦ rw p tt
    ]

Ends-continue :
    {A : Type 0} (o : Outcome) (task : String) (x : Result A) (k : A → Exec (Unit {0}))
    (d : Control)
    → ((a : A) (e : Control) → Ends o task (k a e))
    → Ends o task (continue x k d)
Ends-continue o task (ok a) k d f = f a d
Ends-continue o task (err e) k d f = tt

pub Ends-bind :
    {A : Type 0} (o : Outcome) (task : String) (m : Exec A) (k : A → Exec (Unit {0})) (c : Control)
    → ((a : A) (e : Control) → Ends o task (k a e))
    → Ends o task ((m >>= k) c)
Ends-bind o task m k c f = Ends-continue o task (m c).0 k (m c).1 f

Ends-then_continue :
    (o : Outcome) (task : String) (x : Result (Unit {0})) (d : Control) (k : Exec (Unit {0}))
    → Ends o task (x, d)
    → ((e : Control) → (k e).1.tasks ≡ e.tasks)
    → Ends o task (continue x (λ _. k) d)
Ends-then_continue o task (err e) d k h f = tt
Ends-then_continue o task (ok u) d k h f = kept (k d) (f d)
  where
    kept : (y : Result (Unit {0}) × Control) → y.1.tasks ≡ d.tasks → Ends o task y
    kept (ok u, e) p = subst (λ ts. EndsAs o (get ts task)) (sym p) h
    kept (err e, e') p = tt

pub Ends-then :
    (o : Outcome) (task : String) (m k : Exec (Unit {0})) (c : Control)
    → Ends o task (m c)
    → ((e : Control) → (k e).1.tasks ≡ e.tasks)
    → Ends o task ((m >> k) c)
Ends-then o task m k c h f = Ends-then_continue o task (m c).0 (m c).1 k h f

Ends-if :
    (o : Outcome) (task : String) (b : Bool) (m k : Exec (Unit {0})) (c : Control)
    → Ends o task (m c)
    → Ends o task (k c)
    → Ends o task ((if b then m else k) c)
Ends-if o task true m k c h h' = h
Ends-if o task false m k c h h' = h'

persist_open-Ends :
    (py : Python) (z : Secrets) (now : String) (q : RunRequest) (r : Run) (o : Outcome)
    (c : Control)
    → Ends o q.task_id (persist_open py z now q r o c)
unfolding persist_open
persist_open-Ends py z now q r o c = Ends-if o q.task_id r.closed (raise stale_generation) _ c tt (
    Ends-bind o q.task_id (persist_artifacts py z now q o) _ c
      (λ _ d. update-Ends q.task_id (some r.generation) o d))

pub persist_terminal-Ends :
    (py : Python) (z : Secrets) (now : String) (q : RunRequest) (r : Run) (o : Outcome)
    (c : Control)
    → Ends o q.task_id (persist_terminal py z now q r o c)
unfolding persist_terminal
persist_terminal-Ends py z now q r o c =
    Ends-bind o q.task_id (current r) _ c (λ r' d. persist_open-Ends py z now q r' o d)

announce_end-tasks :
    (z : Secrets) (q : RunRequest) (r : Run) (o : Outcome) (c : Control)
    → (announce_end z q r o c).1.tasks ≡ c.tasks
unfolding announce_end
announce_end-tasks z q r o c =
    go (is_completed o.status) (set_run r.run_id close c) ∙ set_run-tasks r.run_id close c
  where
    go :
        (b : Bool) (d : Control)
        → (((if b then announce_message z q o else pure tt)
              >> publish q.task_id q.run_id
                  (end_event o)
                  (("final_answer", redact_text z o.final_answer) ∷ [])
                  (end_envelope o))
            d).1.tasks
          ≡ d.tasks
    go true d = refl
    go false d = refl

converge_terminal-Ends :
    (py : Python) (z : Secrets) (now : String) (q : RunRequest) (r : Run) (ids : List String)
    (final : Option TaskState) (c : Control)
    → let r' = or_same (get c.runs r.run_id) r in
      Ends
        (converged r'.cancelled r'.process_cleanup_succeeded final)
        q.task_id
        (converge_terminal py z now q r ids final c)
unfolding converge_terminal
converge_terminal-Ends py z now q r ids final c =
    let r' = or_same (get c.runs r.run_id) r in
    let o = converged r'.cancelled r'.process_cleanup_succeeded final in
    Ends-bind o q.task_id (note_cleanup r (unchecked r'.cancelled final)) _ c (λ _ d.
      Ends-bind o q.task_id (withdraw_pending q r ids) _ d (λ _ e.
        Ends-then o q.task_id (persist_terminal py z now q r o) (announce_end z q r o) e
          (persist_terminal-Ends py z now q r o e) (announce_end-tasks z q r o)))

-- The run has given up its place, and its task has ended on the disk.
abbrev pub Released : RunRequest → Outcome → Control → Type 0
Released q o d =
    EndsAs o (get d.tasks q.task_id)
    × (get d.contexts q.task_id ≡ none)
    × (is_task d.active_task q.task_id ≡ false)

pub given_up :
    (active : Option String) (task : String)
    → is_task (if is_task active task then none else active) task ≡ false
given_up active task = ground arith

pub release_or_degrade-cases :
    (q : RunRequest) (o : Outcome) (x : Result (Unit {0})) (c : Control)
    → Ends o q.task_id (x, c)
    → (d : Control) × (release_or_degrade q x c ≡ (ok tt, d))
      × (Released q o d ⊎ (d.degraded ≡ true))
unfolding release_or_degrade release_active
release_or_degrade-cases q o (ok u) c h =
    (_, refl, inl (h, get-remove_self c.contexts q.task_id, given_up c.active_task q.task_id))
release_or_degrade-cases q o (err e) c h = (record c { degraded = true }, refl, inr refl)

-- The run keeps its place, and the service is marked as degraded.
abbrev pub Withheld : Control → Control → Type 0
Withheld c d = (d.degraded ≡ true) × (d.active_task ≡ c.active_task) × (d.contexts ≡ c.contexts)

release_or_degrade-kept :
    (q : RunRequest) (o : Outcome) (x : Result (Unit {0})) (c d : Control)
    → Ends o q.task_id (x, d)
    → place d ≡ place c
    → (e : Control) × (release_or_degrade q x d ≡ (ok tt, e)) × (Released q o e ⊎ Withheld c e)
unfolding release_or_degrade release_active
release_or_degrade-kept q o (ok u) c d h k =
    (_, refl, inl (h, get-remove_self d.contexts q.task_id, given_up d.active_task q.task_id))
release_or_degrade-kept q o (err e) c d h k =
    (record d { degraded = true }, refl, inr (refl, ap (λ x. x.0) k, ap (λ x. x.1) k))

-- The worker's last step always comes to its end, whatever the disk and the runtime did before: either
-- the run gives up its place and its task is stored as ended, with the status, the reason and the
-- answer of the run's outcome and no pending approval, or the service is marked as degraded and the
-- run keeps its place: the active task and the runs of the tasks are what they were before.
pub finish-Released :
    (py : Python) (z : Secrets) (now : String) (q : RunRequest) (r : Run) (ids : List String)
    (final : Option TaskState) (c : Control)
    → let r' = or_same (get c.runs r.run_id) r in
      (d : Control) × (finish py z now q r ids final c ≡ (ok tt, d))
      × (Released q (converged r'.cancelled r'.process_cleanup_succeeded final) d ⊎ Withheld c d)
unfolding finish
finish-Released py z now q r ids final c =
    let r' = or_same (get c.runs r.run_id) r in
    release_or_degrade-kept q (converged r'.cancelled r'.process_cleanup_succeeded final)
      (converge_terminal py z now q r ids final c).0 c
      (converge_terminal py z now q r ids final c).1
      (converge_terminal-Ends py z now q r ids final c)
      (converge_terminal-place py z now q r ids final c)
