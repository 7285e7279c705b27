-- ===== src/TaskRunner/Registering.antt =====
-- `register` and `_release_active`: one run at a time.
use thread_forge.Prelude.{
  arith, ap, sym, ◌∙◌, String, ◌≡◌, refl, Bool, true, false, none, some, inl, inr, Bool-cases,
  Option-cases,
}
use thread_forge.Prelude.Dict.{get-put_self}
use thread_forge.Domain.{Error, active_task_exists, task_runner_unavailable}
use thread_forge.Control.{Control, Run, ok, err}
use thread_forge.TaskRunner.{
  RunRequest, is_available, context_for, register, get_context, claim, unclaim,
}

pub registered :
    (q : RunRequest) (c : Control)
    → is_available c ≡ true
    → c.active_task ≡ none
    → register q true c ≡ (ok (context_for q), claim q c)
unfolding register
registered q c free idle = ground arith

pub unstarted :
    (q : RunRequest) (c : Control)
    → is_available c ≡ true
    → c.active_task ≡ none
    → register q false c ≡ (err task_runner_unavailable, unclaim q (claim q c))
unfolding register
unstarted q c free idle = ground arith

refused :
    (q : RunRequest) (starts : Bool) (c : Control) (task : String)
    → is_available c ≡ true
    → c.active_task ≡ some task
    → register q starts c ≡ (err active_task_exists, c)
unfolding register
refused q starts c task free busy = ground arith

claimed : (q : RunRequest) (c : Control) → get_context q.task_id (claim q c) ≡ some (context_for q)
unfolding get_context
claimed q c =
    rw (get_context, get-put_self c.contexts q.task_id q.run_id)
      (get-put_self c.runs q.run_id (context_for q))

busy_refused :
    (q : RunRequest) (starts : Bool) (d : Control) (task : String)
    → d.active_task ≡ some task
    → (e : Error) × (register q starts d ≡ (err e, d))
unfolding register
busy_refused q starts d task busy = elim (Bool-cases (is_available d)) [
  | inl free ↦ (active_task_exists, refused q starts d task free busy)
  | inr closed ↦ (task_runner_unavailable, rw closed refl)
]

-- A run is registered only while none is active and the service is neither degraded nor shutting
-- down. Then its task is the active one, its context is found under its task, and any further
-- registration in that state is refused as the conflict with an active task. In every state whatever
-- in which that task is still the active one, a registration is refused and changes nothing.
pub register-exclusive :
    (q q' : RunRequest) (starts starts' : Bool) (c d : Control) (r : Run)
    → (register q starts c).0 ≡ ok r
    → d.active_task ≡ (register q starts c).1.active_task
    → (is_available c ≡ true)
      × (c.active_task ≡ none)
      × ((register q starts c).1.active_task ≡ some q.task_id)
      × (get_context q.task_id (register q starts c).1 ≡ some r)
      × (register q' starts' (register q starts c).1
          ≡ (err active_task_exists, (register q starts c).1))
      × ((e : Error) × (register q' starts' d ≡ (err e, d)))
unfolding register is_available
register-exclusive q q' false starts' c d r h later = ground arith
register-exclusive q q' true starts' c d r h later = elim (Bool-cases (is_available c)) [
  | inr closed ↦ let h' = rw closed at h in cc
  | inl free ↦ elim (Option-cases c.active_task) [
    | inr (task, busy) ↦ let h' = rw (free, busy) at h in cc
    | inl idle ↦
        let p = registered q c free idle in
        let k : ok (context_for q) ≡ ok r = sym (ap (λ x. x.0) p) ∙ h in
        let e : context_for q ≡ r = cc in
        let active : (register q true c).1.active_task ≡ some q.task_id =
          ap (λ x. x.1.active_task) p in
        (
          free,
          idle,
          active,
          ap (λ x. get_context q.task_id x.1) p ∙ claimed q c ∙ ap some e,
          ap (λ x. register q' starts' x.1) p
              ∙ refused q' starts' (claim q c) q.task_id free refl
              ∙ ap (λ x. (err active_task_exists, x.1)) (sym p),
          busy_refused q' starts' d q.task_id (later ∙ active),
        )
  ]
]
