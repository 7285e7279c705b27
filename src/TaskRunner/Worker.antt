-- ===== src/TaskRunner/Worker.antt =====
-- `_worker` up to the call of the adapter, in the two parts between which other actions may come: the
-- start, which tells whether the run goes on, and the case that the runtime cannot be set up.
use thread_forge.Prelude.{
  String, ◌≡◌, refl, Bool, true, false, Option, none, some, [], ◌∷◌, ◌⊎◌, inl, inr, if◌then◌else◌,
}
use thread_forge.Prelude.Dict.{Dict, get, get-put_self, get-remove_self}
use thread_forge.Json.{Python}
use thread_forge.Security.{Secrets}
use thread_forge.Domain.{TaskStatus, Task, stale_generation}
use thread_forge.Publisher.{no_envelope}
use thread_forge.Control.{
  Control, Run, Exec, Result, ok, err, ◌>>=◌, ◌>>◌, pure, modify, attempt, mark_degraded, publish,
  succeeded, set_run, close,
}
use thread_forge.Repositories.{update_task}
use thread_forge.Repositories.Steps.{update_task-cases}
use thread_forge.TaskRunner.{RunRequest, set_status, release_active, is_task}
use thread_forge.TaskRunner.SameTasks.{set_run-tasks}
use thread_forge.TaskRunner.Outcome.{Outcome}
use thread_forge.TaskRunner.Ending.{
  persist_terminal, current, end_envelope, end_event, release_or_degrade, or_same,
}
use thread_forge.TaskRunner.Ending.Durable.{
  Released, Ends, persist_terminal-Ends, Ends-then, release_or_degrade-cases, given_up,
}

abbrev cancelled_end : Outcome
cancelled_end = record {
  status = TaskStatus.cancelled;
  stop_reason = "user_cancelled";
  final_answer = "";
}

abbrev failed_end : String → Outcome
failed_end reason = record { status = TaskStatus.failed; stop_reason = reason; final_answer = "" }

-- Closes the run's gate and sends the terminal event.
abbrev close_and_tell : RunRequest → Run → Dict String → Outcome → Exec (Unit {0})
close_and_tell q r payload o = do
  modify (set_run r.run_id close)
  publish q.task_id q.run_id (end_event o) payload (end_envelope o)

-- The `except` clauses of a run that was cancelled before its start.
unfoldable pub passed_over : Result (Unit {0}) → Exec (Unit {0})
passed_over (ok _) = pure tt
passed_over (err stale_generation) = pure tt
passed_over (err e) = mark_degraded

unfoldable pub end_cancelled : Python → Secrets → String → RunRequest → Run → Exec (Unit {0})
unfolding passed_over
end_cancelled py z now q r = do
  ended ← attempt (do
    persist_terminal py z now q r cancelled_end
    close_and_tell q r (("final_answer", "") ∷ []) cancelled_end)
  passed_over ended
  release_active q.task_id

-- The record as running could not be written.
unfoldable pub fail_start : Python → Secrets → String → RunRequest → Run → Exec (Unit {0})
fail_start py z now q r = do
  ended ← attempt (do
    persist_terminal py z now q r (failed_end "persistence_error")
    close_and_tell q r (("stop_reason", "persistence_error") ∷ []) (failed_end "persistence_error"))
  release_or_degrade q ended

-- What follows the attempt to record the run as running: does it go on?
unfoldable pub started :
    Python → Secrets → String → RunRequest → Run → Result (Unit {0}) → Exec Bool
unfolding fail_start
started py z now q r (ok _) = pure true
started py z now q r (err stale_generation) = release_active q.task_id >> pure false
started py z now q r (err e) = fail_start py z now q r >> pure false

unfoldable pub record_start : RunRequest → Run → Exec (Unit {0})
record_start q r = do
  update_task q.task_id (set_status TaskStatus.running) (some r.generation)
  publish q.task_id q.run_id "task.started" []
      (record no_envelope { phase = "system"; status = "running" })

unfoldable pub begin_run : Python → Secrets → String → RunRequest → Run → Exec Bool
unfolding end_cancelled record_start started
begin_run py z now q r = do
  r' ← current r
  if r'.cancelled
      then end_cancelled py z now q r >> pure false
      else do recorded ← attempt (record_start q r'); started py z now q r recorded

abbrev set_up_end : Bool → Bool → Outcome
set_up_end cancelled sandbox =
    if cancelled
    then cancelled_end
    else failed_end (if sandbox then "sandbox_unavailable" else "task_runner_unavailable")

-- `sandbox` tells whether it was the sandbox that raised.
unfoldable pub fail_set_up : Python → Secrets → String → RunRequest → Run → Bool → Exec (Unit {0})
fail_set_up py z now q r sandbox = do
  r' ← current r
  ended ← attempt (do
    persist_terminal py z now q r (set_up_end r'.cancelled sandbox)
    close_and_tell q r (("final_answer", "") ∷ []) (set_up_end r'.cancelled sandbox))
  release_or_degrade q ended

-- The run has given up its place.
abbrev GaveUp : RunRequest → Control → Type 0
GaveUp q d = (get d.contexts q.task_id ≡ none) × (is_task d.active_task q.task_id ≡ false)

abbrev IsRunning : Option Task → Type 0
IsRunning none = ⊥
IsRunning (some t) = t.status ≡ TaskStatus.running

abbrev pub Begun : RunRequest → Bool → Control → Type 0
Begun q true d = IsRunning (get d.tasks q.task_id)
Begun q false d = GaveUp q d ⊎ (d.degraded ≡ true)

close_and_tell-tasks :
    (q : RunRequest) (r : Run) (payload : Dict String) (o : Outcome) (c : Control)
    → (close_and_tell q r payload o c).1.tasks ≡ c.tasks
close_and_tell-tasks q r payload o c = set_run-tasks r.run_id close c

told-Ends :
    (py : Python) (z : Secrets) (now : String) (q : RunRequest) (r : Run) (o : Outcome)
    (payload : Dict String) (c : Control)
    → Ends o q.task_id ((persist_terminal py z now q r o >> close_and_tell q r payload o) c)
told-Ends py z now q r o payload c =
    Ends-then o q.task_id (persist_terminal py z now q r o) (close_and_tell q r payload o) c
      (persist_terminal-Ends py z now q r o c) (close_and_tell-tasks q r payload o)

-- A run that cannot be set up gives up its place with its task stored as ended, as cancelled if it was
-- cancelled meanwhile and as failed if not, or the service is marked as degraded.
pub fail_set_up-Released :
    (py : Python) (z : Secrets) (now : String) (q : RunRequest) (r : Run) (sandbox : Bool)
    (c : Control)
    → let r' = or_same (get c.runs r.run_id) r in
      (d : Control) × (fail_set_up py z now q r sandbox c ≡ (ok tt, d))
      × (Released q (set_up_end r'.cancelled sandbox) d ⊎ (d.degraded ≡ true))
unfolding fail_set_up
fail_set_up-Released py z now q r sandbox c =
    let r' = or_same (get c.runs r.run_id) r in
    let o = set_up_end r'.cancelled sandbox in
    release_or_degrade-cases q o _ _ (told-Ends py z now q r o (("final_answer", "") ∷ []) c)

fail_start-Released :
    (py : Python) (z : Secrets) (now : String) (q : RunRequest) (r : Run) (c : Control)
    → (d : Control) × (fail_start py z now q r c ≡ (ok tt, d))
      × (Released q (failed_end "persistence_error") d ⊎ (d.degraded ≡ true))
unfolding fail_start
fail_start-Released py z now q r c =
    release_or_degrade-cases q (failed_end "persistence_error") _ _ (
      told-Ends py z now q r (failed_end "persistence_error")
        (("stop_reason", "persistence_error") ∷ []) c)

Settles : RunRequest → Exec Bool → Control → Type 0
Settles q m c = (go : Bool) × (d : Control) × (m c ≡ (ok go, d)) × Begun q go d

give_up :
    (q : RunRequest) (o : Outcome) (d : Control)
    → Released q o d ⊎ (d.degraded ≡ true)
    → Begun q false d
give_up q o d (inl (ended, gone, free)) = inl (gone, free)
give_up q o d (inr bad) = inr bad

started-Settles :
    (py : Python) (z : Secrets) (now : String) (q : RunRequest) (r : Run) (x : Result (Unit {0}))
    (c : Control)
    → (succeeded x ≡ true → IsRunning (get c.tasks q.task_id))
    → Settles q (started py z now q r x) c
unfolding Settles started release_active
started-Settles py z now q r (ok u) c h = (true, c, refl, h refl)
started-Settles py z now q r (err stale_generation) c h =
    (false, _, refl, inl (get-remove_self c.contexts q.task_id, given_up c.active_task q.task_id))
started-Settles py z now q r (err e) c h =
    let (d, p, s) = fail_start-Released py z now q r c in
    (false, d, rw p refl, give_up q (failed_end "persistence_error") d s)

Settles-if :
    (q : RunRequest) (b : Bool) (m k : Exec Bool) (c : Control)
    → Settles q m c
    → Settles q k c
    → Settles q (if b then m else k) c
Settles-if q true m k c h h' = h
Settles-if q false m k c h h' = h'

record_start-IsRunning :
    (q : RunRequest) (r : Run) (c : Control)
    → succeeded (record_start q r c).0 ≡ true
    → IsRunning (get (record_start q r c).1.tasks q.task_id)
unfolding record_start
record_start-IsRunning q r c h =
    elim (update_task-cases q.task_id (set_status TaskStatus.running) (some r.generation) c) [
      | inl (t, found, live, (fs, p)) ↦ rw (p, get-put_self) refl
      | inr (e, fs, p) ↦ let h' = rw p at h in cc
    ]

passed_over-gave_up :
    (q : RunRequest) (x : Result (Unit {0})) (c : Control)
    → Settles q ((passed_over x >> release_active q.task_id) >> pure false) c
unfolding Settles passed_over release_active
passed_over-gave_up q (ok u) c =
    (false, _, refl, inl (get-remove_self c.contexts q.task_id, given_up c.active_task q.task_id))
passed_over-gave_up q (err stale_generation) c =
    (false, _, refl, inl (get-remove_self c.contexts q.task_id, given_up c.active_task q.task_id))
passed_over-gave_up q (err e) c =
    (false, _, refl, inl (get-remove_self c.contexts q.task_id, given_up c.active_task q.task_id))

-- The start of a run always settles, whatever the disk answers: the run goes on, and only with its
-- task stored as running, or it does not, and then it has given up its place or the service is marked
-- as degraded.
pub begin_run-Settles :
    (py : Python) (z : Secrets) (now : String) (q : RunRequest) (r : Run) (c : Control)
    → (go : Bool) × (d : Control) × (begin_run py z now q r c ≡ (ok go, d)) × Begun q go d
unfolding begin_run end_cancelled Settles
begin_run-Settles py z now q r c =
    let r' = or_same (get c.runs r.run_id) r in
    Settles-if q r'.cancelled (end_cancelled py z now q r >> pure false)
      (do recorded ← attempt (record_start q r'); started py z now q r recorded) c
      (passed_over-gave_up q _ _)
      (started-Settles py z now q r (record_start q r' c).0 (record_start q r' c).1
        (record_start-IsRunning q r' c))
