-- ===== src/TaskRunner/Ending/Place.antt =====
-- A run keeps its place until the end of `_converge_terminal`.
use thread_forge.Prelude.{
  ℕ, String, ◌≡◌, refl, ◌∙◌, Bool, true, false, Option, some, is_some, List, [], ◌∷◌, inl, inr,
  if◌then◌else◌, Option-cases, ◌==◌,
}
use thread_forge.Prelude.Dict.{get}
use thread_forge.Json.{Python}
use thread_forge.Security.{Secrets, redact_text}
use thread_forge.Domain.{Task}
use thread_forge.TaskState.Fields.{TaskState}
use thread_forge.Control.{
  Control, Run, Exec, ◌>>◌, pure, publish, set_run, close, modify, mark_degraded,
}
use thread_forge.Repositories.{get_task, update_task}
use thread_forge.Repositories.Steps.{get_task-cases, update_task-cases}
use thread_forge.Reconciliation.{run_artifacts_match, converge_run_artifacts}
use thread_forge.Startup.Untouched.{
  Keeps, Keeps-bind, run_artifacts_match-Keeps, converge_run_artifacts-Keeps,
}
use thread_forge.ApprovalGate.Decide.{cancel_pending}
use thread_forge.TaskRunner.{RunRequest, set_terminal}
use thread_forge.TaskRunner.SameTasks.{place, cancel_pending-SameTasks}
use thread_forge.TaskRunner.Outcome.{Outcome, converged}
use thread_forge.TaskRunner.Ending.{
  persist_artifacts, persist_open, persist_terminal, current, converge_terminal, announce_end,
  note_cleanup, withdraw_pending, is_completed, announce_message, end_event, end_envelope, or_same,
  unchecked, not_cleaned,
}

set_run-place : (run : String) (f : Run → Run) (c : Control) → place (set_run run f c) ≡ place c
unfolding set_run
set_run-place run f c = elim (Option-cases (get c.runs run)) [
  | inl q ↦ rw (set_run, q) refl
  | inr (r, q) ↦ rw (set_run, q) refl
]

get_task-place : (id : String) → Keeps place (get_task id)
get_task-place id c = elim (get_task-cases id c) [
  | inl (t, q, (fs, p)) ↦ rw p refl
  | inr (e, fs, p) ↦ rw p refl
]

update_task-place :
    (id : String) (f : Task → Task) (g : Option ℕ) → Keeps place (update_task id f g)
update_task-place id f g c = elim (update_task-cases id f g c) [
  | inl (t, q, s, (fs, p)) ↦ rw p refl
  | inr (e, fs, p) ↦ rw p refl
]

if-place :
    {A : Type 0} (b : Bool) (m k : Exec A)
    → Keeps place m
    → Keeps place k
    → Keeps place (if b then m else k)
if-place true m k h h' = h
if-place false m k h h' = h'

note_cleanup-place : (r : Run) (o : Outcome) → Keeps place (note_cleanup r o)
unfolding note_cleanup
note_cleanup-place r o =
    if-place (o.stop_reason == "process_cleanup_failed")
      (modify (set_run r.run_id not_cleaned) >> mark_degraded) (pure tt)
      (λ c. set_run-place r.run_id not_cleaned c) (λ c. refl)

withdraw_pending-place :
    (q : RunRequest) (r : Run) (ids : List String) → Keeps place (withdraw_pending q r ids)
unfolding withdraw_pending
withdraw_pending-place q r ids =
    Keeps-bind place (get_task q.task_id) _ (get_task-place q.task_id) (λ t.
      if-place (is_some t.pending_approval) (cancel_pending r ids) (pure tt)
        (λ c. (cancel_pending-SameTasks r ids c).place_kept) (λ c. refl))

module _ (py : Python) (z : Secrets) (now : String) (q : RunRequest) (o : Outcome) where
  persist_artifacts-place : Keeps place (persist_artifacts py z now q o)
  unfolding persist_artifacts
  persist_artifacts-place = Keeps-bind place (get_task q.task_id) _ (get_task-place q.task_id) (λ t.
      Keeps-bind place
        (run_artifacts_match py (set_terminal o.status o.stop_reason o.final_answer t)) _
        (run_artifacts_match-Keeps place (λ c r fs. refl) py _)
        (λ same.
          if-place same (pure tt)
            (converge_run_artifacts py z now t o.status o.stop_reason o.final_answer) (λ c. refl)
            (converge_run_artifacts-Keeps place (λ c r fs. refl) py z now t o.status o.stop_reason
              o.final_answer)))

  persist_open-place : (r : Run) → Keeps place (persist_open py z now q r o)
  unfolding persist_open
  persist_open-place r =
      if-place r.closed _ _ (λ c. refl)
        (Keeps-bind place (persist_artifacts py z now q o) _ persist_artifacts-place (λ _.
          Keeps-bind place
            (update_task q.task_id (set_terminal o.status o.stop_reason o.final_answer)
              (some r.generation))
            _ (update_task-place q.task_id _ _) (λ _ c. refl)))

  persist_terminal-place : (r : Run) → Keeps place (persist_terminal py z now q r o)
  unfolding persist_terminal
  persist_terminal-place r =
      Keeps-bind place (current r) (λ r'. persist_open py z now q r' o) (λ c. refl)
        (λ r'. persist_open-place r')

announce_end-place :
    (z : Secrets) (q : RunRequest) (r : Run) (o : Outcome) → Keeps place (announce_end z q r o)
unfolding announce_end
announce_end-place z q r o c =
    go (is_completed o.status) (set_run r.run_id close c) ∙ set_run-place r.run_id close c
  where
    go :
        (b : Bool) (d : Control)
        → place
            (((if b then announce_message z q o else pure tt)
                >> publish q.task_id q.run_id
                    (end_event o)
                    (("final_answer", redact_text z o.final_answer) ∷ [])
                    (end_envelope o))
              d).1
          ≡ place d
    go true d = refl
    go false d = refl

persisted-place :
    (py : Python) (z : Secrets) (now : String) (q : RunRequest) (r : Run) (o : Outcome)
    → Keeps place (persist_terminal py z now q r o >> announce_end z q r o)
persisted-place py z now q r o =
    Keeps-bind place (persist_terminal py z now q r o) (λ _. announce_end z q r o)
      (persist_terminal-place py z now q o r) (λ _. announce_end-place z q r o)

withdrawn-place :
    (py : Python) (z : Secrets) (now : String) (q : RunRequest) (r : Run) (ids : List String)
    (o : Outcome)
    → Keeps place
        (withdraw_pending q r ids >> (persist_terminal py z now q r o >> announce_end z q r o))
withdrawn-place py z now q r ids o =
    Keeps-bind place (withdraw_pending q r ids)
      (λ _. persist_terminal py z now q r o >> announce_end z q r o)
      (withdraw_pending-place q r ids) (λ _. persisted-place py z now q r o)

-- The end of a run, whatever fails in it, leaves the places as they were.
pub converge_terminal-place :
    (py : Python) (z : Secrets) (now : String) (q : RunRequest) (r : Run) (ids : List String)
    (final : Option TaskState)
    → Keeps place (converge_terminal py z now q r ids final)
unfolding converge_terminal
converge_terminal-place py z now q r ids final c =
    let r' = or_same (get c.runs r.run_id) r in
    let o = converged r'.cancelled r'.process_cleanup_succeeded final in
    Keeps-bind place (note_cleanup r (unchecked r'.cancelled final))
      (λ _. withdraw_pending q r ids >> (persist_terminal py z now q r o >> announce_end z q r o))
      (note_cleanup-place r (unchecked r'.cancelled final))
      (λ _. withdrawn-place py z now q r ids o) c
