-- ===== src/Finalization/Told.antt =====
-- What the files tell of a run that was finalized.
use thread_forge.Prelude.{
  String, ◌≡◌, refl, ap, ◌∙◌, Bool, true, false, some, ◌⊎◌, inl, inr, Bool-cases, if◌then◌else◌,
}
use thread_forge.Prelude.Dict.{get-put_self}
use thread_forge.Json.{Fields}
use thread_forge.Domain.{Error, stale_runner_write}
use thread_forge.TaskState.Fields.{TaskState, status_failed}
use thread_forge.TaskState.Codec.{to_dict}
use thread_forge.TaskState.Progress.{stop}
use thread_forge.RunFiles.{RunFiles, files_of, add_event}
use thread_forge.RunStore.{guarded, with_files, write_task_state, append_trace, write_report}
use thread_forge.Control.{
  Control, Run, Exec, Result, ok, err, ◌>>=◌, ◌>>◌, pure, attempt, succeeded, modify, raise, disk,
}
use thread_forge.Repositories.Steps.{disk-cases, drawn}
use thread_forge.Finalization.{finalize_run, emit_finished, store_report, fail_to_persist, finished}

-- A write of the store: it is there, or it raises and the files are as they were.
abbrev Writes : Exec (Unit {0}) → String → (RunFiles → RunFiles) → Control → Type 0
Writes m run f c =
    (d : Control) × (((m c ≡ (ok tt, d))
        × (files_of run d.run_files ≡ f (files_of run c.run_files)))
      ⊎ ((e : Error) × (m c ≡ (err e, d)) × (files_of run d.run_files ≡ files_of run c.run_files)))

write-Writes :
    (run : String) (f : RunFiles → RunFiles) (c : Control)
    → Writes (do disk; modify (with_files run f)) run f c
write-Writes run f c = elim (disk-cases c) [
  | inl (fs, p) ↦ (with_files run f (drawn fs c), inl (rw p refl, simp get-put_self))
  | inr (e, fs, p) ↦ (drawn fs c, inr (e, rw p refl, refl))
]

guarded-Writes :
    (r : Run) (m : Exec (Unit {0})) (run : String) (f : RunFiles → RunFiles) (c : Control)
    → Writes m run f c
    → Writes (guarded r m) run f c
unfolding guarded
guarded-Writes r m run f c w = go r.closed
  where
    go : (b : Bool) → Writes (if b then raise stale_runner_write else m) run f c
    go true = (c, inr (stale_runner_write, refl, refl))
    go false = w

emit_finished-keeps :
    (event report : TaskState → Fields) (r : Run) (s : TaskState) (c : Control)
    → (sent : Bool) × (d : Control) × (emit_finished event report r s c ≡ (ok sent, d))
      × ((files_of s.run_id d.run_files).task_state ≡ (files_of s.run_id c.run_files).task_state)
unfolding emit_finished append_trace
emit_finished-keeps event report r s c = go s.run_finished_emitted
  where
    m : Exec (Unit {0})
    m = guarded r (append_trace s (event s))

    go :
        (b : Bool)
        → (sent : Bool) × (d : Control) × ((if b
                then pure true
                else (do sent ← attempt m; pure (succeeded sent)))
              c
            ≡ (ok sent, d))
          × ((files_of s.run_id d.run_files).task_state
              ≡ (files_of s.run_id c.run_files).task_state)
    go true = (true, c, refl, refl)
    go false =
        let (d, w) =
          guarded-Writes r (append_trace s (event s)) s.run_id (add_event (event s)) c
            (write-Writes s.run_id (add_event (event s)) c) in
        elim w [
          | inl (p, same) ↦ (true, d, rw p refl, ap (λ (f : RunFiles). f.task_state) same)
          | inr (e, p, same) ↦ (false, d, rw p refl, ap (λ (f : RunFiles). f.task_state) same)
        ]

abbrev pub IsFailed : TaskState → Type 0
IsFailed s = (s.status ≡ status_failed) × (s.stop_reason ≡ "persistence_error")

-- The state and the report that tell of it are on the disk.
abbrev pub IsTold : (TaskState → Fields) → TaskState → TaskState → RunFiles → Type 0
IsTold report s t f =
    (t ≡ finished s) × (f.task_state ≡ some (to_dict s)) × (f.report ≡ some (report t))

fail_to_persist-IsFailed : (s : TaskState) → IsFailed (fail_to_persist s)
unfolding fail_to_persist stop
fail_to_persist-IsFailed s = (refl, refl)

abbrev Ends : (TaskState → Fields) → TaskState → Result TaskState × Control → Type 0
Ends report s x =
    (t : TaskState) × (d : Control) × (x ≡ (ok t, d))
    × (IsFailed t ⊎ IsTold report s t (files_of s.run_id d.run_files))

store_report-err :
    (r : Run) (report : TaskState → Fields) (s t : TaskState) (e : Error) (c : Control)
    → Ends report s (store_report r report t (err e) c)
unfolding store_report
store_report-err r report s t e c = (fail_to_persist t, _, refl, inl (fail_to_persist-IsFailed t))

store_report-failed :
    (r : Run) (report : TaskState → Fields) (s t : TaskState) (x : Result (Unit {0})) (c : Control)
    → IsFailed t
    → Ends report s (store_report r report t x c)
unfolding store_report
store_report-failed r report s t (ok u) c h = (t, c, refl, inl h)
store_report-failed r report s t (err e) c h = store_report-err r report s t e c

-- The report of a run whose state was stored and whose event was sent.
report-Ends :
    (r : Run) (report : TaskState → Fields) (s : TaskState) (c : Control)
    → (files_of s.run_id c.run_files).task_state ≡ some (to_dict s)
    → Ends report s (
        (do
          reported ← attempt (guarded r (write_report (finished s) (report (finished s))))
          store_report r report (finished s) reported)
          c)
unfolding write_report store_report
report-Ends r report s c held =
    let f : RunFiles → RunFiles = λ f. record f { report = some (report (finished s)) } in
    let (d, w) =
      guarded-Writes r (write_report (finished s) (report (finished s))) s.run_id f c
        (write-Writes s.run_id f c) in
    elim w [
      | inl (p, same) ↦ (
        finished s,
        d,
        rw p refl,
        inr (
          refl,
          ap (λ (f : RunFiles). f.task_state) same ∙ held,
          ap (λ (f : RunFiles). f.report) same,
        ),
      )
      | inr (e, p, same) ↦ rw p (store_report-err r report s (finished s) e d)
    ]

-- Finalizing a run always returns: with the state marked as failed by the persistence, or with the
-- state that it was given and its end told, and then the disk holds that state and the report of it,
-- whatever the disk answers and whether the run is fenced.
pub finalize_run-IsTold :
    (event report : TaskState → Fields) (r : Run) (s : TaskState) (c : Control)
    → (t : TaskState) × (d : Control) × (finalize_run event report r s c ≡ (ok t, d))
      × (IsFailed t ⊎ IsTold report s t (files_of s.run_id d.run_files))
unfolding finalize_run write_task_state
finalize_run-IsTold event report r s c =
    let f : RunFiles → RunFiles = λ f. record f { task_state = some (to_dict s) } in
    let (d, w) = guarded-Writes r (write_task_state s) s.run_id f c (write-Writes s.run_id f c) in
    let (sent, d', p', same') = emit_finished-keeps event report r s d in
    elim w [
      | inl (p, same) ↦ elim (Bool-cases sent) [
        | inl told ↦
            rw (p, p', told)
              (report-Ends r report s d' (same' ∙ ap (λ (f : RunFiles). f.task_state) same))
        | inr lost ↦
            rw (p, p', lost)
              (store_report-failed r report s (fail_to_persist s) _ _ (fail_to_persist-IsFailed s))
      ]
      | inr (e, p, same) ↦
          rw (p, p')
            (store_report-failed r report s (fail_to_persist (if sent then finished s else s)) _ _
              (fail_to_persist-IsFailed _))
    ]
