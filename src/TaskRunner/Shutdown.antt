-- ===== src/TaskRunner/Shutdown.antt =====
-- `shutdown`, in the two parts between which the worker may still come to its end: the request to
-- cancel, and what is done to a run that is still there when the time is over. `ids` and `shell` are
-- what `cancel` takes for each task.
use thread_forge.Prelude.{
  String, ◌≡◌, refl, Bool, true, false, Option, none, some, List, [], ◌∷◌, ◌⊎◌, inl, inr,
}
use thread_forge.Prelude.Dict.{get, keys, get-remove_self}
use thread_forge.Json.{Python}
use thread_forge.Security.{Secrets}
use thread_forge.Domain.{TaskStatus}
use thread_forge.Control.{
  Control, Run, Exec, Result, ok, err, continue, ◌>>=◌, ◌>>◌, pure, gets, modify, attempt,
  mark_degraded, publish, set_run, close,
}
use thread_forge.Repositories.{get_task, update_task}
use thread_forge.Reconciliation.{converge_run_artifacts}
use thread_forge.TaskRunner.{cancel, get_context, set_terminal, release_active, is_task}
use thread_forge.TaskRunner.Outcome.{Outcome}
use thread_forge.TaskRunner.Ending.{end_envelope}
use thread_forge.TaskRunner.Ending.Durable.{EndsAs, Ends, Ends-bind, update-Ends, given_up}

unfoldable pub cancel_all :
    (String → List String) → (String → Option Bool) → List String → Exec (Unit {0})
cancel_all ids shell [] = pure tt
cancel_all ids shell (task ∷ tasks) = do
  attempt (cancel task (ids task) (shell task))
  cancel_all ids shell tasks

unfoldable pub begin_shutdown : (String → List String) → (String → Option Bool) → Exec (Unit {0})
unfolding cancel_all
begin_shutdown ids shell = do
  modify (λ c. record c { shutting_down = true })
  tasks ← gets (λ c. keys c.contexts)
  cancel_all ids shell tasks

abbrev pub shutdown_end : Outcome
shutdown_end = record {
  status = TaskStatus.interrupted;
  stop_reason = "service_shutdown_timeout";
  final_answer = "";
}

-- The body of the last `try`, up to the update of the record.
unfoldable pub record_interrupted : Python → Secrets → String → String → Exec (Unit {0})
record_interrupted py z now task = do
  t ← get_task task
  converge_run_artifacts py z now t shutdown_end.status shutdown_end.stop_reason
      shutdown_end.final_answer
  update_task task
      (set_terminal shutdown_end.status shutdown_end.stop_reason shutdown_end.final_answer) none
  pure tt

abbrev tell_interrupted : String → Run → Exec (Unit {0})
tell_interrupted task r =
    publish task r.run_id "task.interrupted" (("stop_reason", "service_shutdown_timeout") ∷ [])
      (end_envelope shutdown_end)

unfoldable pub or_degraded : Result (Unit {0}) → Exec (Unit {0})
or_degraded (ok _) = pure tt
or_degraded (err e) = mark_degraded

unfoldable pub expire_run : Python → Secrets → String → String → Run → Exec (Unit {0})
unfolding or_degraded
expire_run py z now task r = do
  modify (set_run r.run_id close)
  ended ←
      attempt (do record_interrupted py z now task; tell_interrupted task r; release_active task)
  or_degraded ended

abbrev expire_found : Python → Secrets → String → String → Option Run → Exec (Unit {0})
expire_found py z now task none = pure tt
expire_found py z now task (some r) = expire_run py z now task r

unfoldable pub expire_all : Python → Secrets → String → List String → Exec (Unit {0})
unfolding expire_run
expire_all py z now [] = pure tt
expire_all py z now (task ∷ tasks) = do
  found ← gets (get_context task)
  expire_found py z now task found
  expire_all py z now tasks

-- The last loop, over the contexts that are still there.
unfoldable pub end_shutdown : Python → Secrets → String → Exec (Unit {0})
unfolding expire_all
end_shutdown py z now = do tasks ← gets (λ c. keys c.contexts); expire_all py z now tasks

record_interrupted-Ends :
    (py : Python) (z : Secrets) (now : String) (task : String) (c : Control)
    → Ends shutdown_end task (record_interrupted py z now task c)
unfolding record_interrupted
record_interrupted-Ends py z now task c = Ends-bind shutdown_end task (get_task task) _ c (λ t d.
    Ends-bind shutdown_end task
      (converge_run_artifacts py z now t shutdown_end.status shutdown_end.stop_reason
        shutdown_end.final_answer)
      _ d (λ _ e. update-Ends task none shutdown_end e))

abbrev pub Interrupted : String → Control → Type 0
Interrupted task d =
    EndsAs shutdown_end (get d.tasks task)
    × (get d.contexts task ≡ none)
    × (is_task d.active_task task ≡ false)

-- The end of a run's shutdown, on the outcome of the record.
settled :
    (task : String) (r : Run) (x : Result (Unit {0})) (c : Control)
    → Ends shutdown_end task (x, c)
    → (d : Control) × (((attempt (continue x (λ _. tell_interrupted task r >> release_active task)))
            >>= or_degraded)
          c
        ≡ (ok tt, d))
      × (Interrupted task d ⊎ (d.degraded ≡ true))
unfolding or_degraded release_active
settled task r (ok u) c h =
    (_, refl, inl (h, get-remove_self c.contexts task, given_up c.active_task task))
settled task r (err e) c h = (record c { degraded = true }, refl, inr refl)

-- A run that is still there when the time for the shutdown is over gives up its place with its task
-- stored as interrupted by the shutdown, or the service is marked as degraded, whatever the disk
-- answers.
pub expire_run-Interrupted :
    (py : Python) (z : Secrets) (now task : String) (r : Run) (c : Control)
    → (d : Control) × (expire_run py z now task r c ≡ (ok tt, d))
      × (Interrupted task d ⊎ (d.degraded ≡ true))
unfolding expire_run
expire_run-Interrupted py z now task r c =
    let e = set_run r.run_id close c in
    settled task r (record_interrupted py z now task e).0 (record_interrupted py z now task e).1
      (record_interrupted-Ends py z now task e)
