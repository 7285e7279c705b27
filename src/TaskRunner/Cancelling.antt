-- ===== src/TaskRunner/Cancelling.antt =====
-- What a cancellation leaves behind, and that no decision takes effect after it.
use thread_forge.Prelude.{
  String, ◌≡◌, refl, ap, sym, ◌∙◌, Bool, true, false, Option, none, some, List, ◌⊎◌, inl, inr,
  Bool-cases, ◌&&◌, ◌||◌,
}
use mathlib.Core.Path.{subst}
use thread_forge.Prelude.Dict.{Dict, get, get-put_self}
use thread_forge.Domain.{TaskStatus, Task, Error, terminal, stale_generation}
use thread_forge.Control.{Control, Run, Result, ok, err, succeeded, set_run}
use thread_forge.Repositories.{is_stale}
use thread_forge.Repositories.Steps.{
  drawn, put_task, updated, update_task-stale, stale_record, get_task-stale, get_task-cases,
  update_task-cases,
}
use thread_forge.ApprovalGate.Decide.{cancel_pending}
use thread_forge.TaskRunner.{
  cancel, cancel_run, conclude, request_cancel, excused, get_context, announce_cancel, cancel_token,
  terminate_shell, is_cancel_requested, set_status,
}
use thread_forge.TaskRunner.SameTasks.{
  set_run-tasks, SameTasks, SameTasks-refl, cancel_pending-SameTasks,
}

-- The task is ended or about to be, or belongs to another generation of the run.
abbrev pub Stopped : Run → Option Task → Type 0
Stopped r none = ⊥
Stopped r (some t) =
    ((terminal t.status || is_cancel_requested t.status) ≡ true)
    ⊎ (is_stale (some r.generation) t ≡ true)

-- The error is none, or one that `cancel` passes over.
abbrev excusable : Result (Unit {0}) → Bool
excusable (ok _) = true
excusable (err stale_generation) = true
excusable (err e) = false

excused-cases :
    (res : Result (Unit {0})) (c : Control)
    → (d : Control) × (excused res c ≡ (ok (excusable res), d)) × SameTasks c d
unfolding excused
excused-cases (ok _) c = (c, refl, SameTasks-refl c)
excused-cases (err stale_generation) c = (c, refl, SameTasks-refl c)
excused-cases (err e) c =
    (record c { degraded = true }, refl, record { tasks = refl; runs = refl; place_kept = refl })

is_excusable : (e : Error) → excusable (err e) ≡ true → e ≡ stale_generation
is_excusable stale_generation h = refl
is_excusable e h = cc

later : (r : Run) (o : Option Task) → stale_record (some r.generation) o ≡ true → Stopped r o
later r none h = cc
later r (some t) h = inr h

request_cancel-cases :
    (r : Run) (task : String) (c : Control)
    → (res : Result (Unit {0})) × (d : Control) × (request_cancel r task c ≡ (res, d))
      × (d.runs ≡ c.runs)
      × (excusable res ≡ true → Stopped r (get d.tasks task))
unfolding request_cancel
request_cancel-cases r task c = elim (get_task-cases task c) [
  | inr (e, fs, p) ↦ (
    err e,
    drawn fs c,
    rw p refl,
    refl,
    λ x. absurd (get_task-stale task c (ap (λ x. x.0) p ∙ ap err (is_excusable e x))),
  )
  | inl (t, q, (fs, p)) ↦ elim (Bool-cases (terminal t.status || is_cancel_requested t.status)) [
    | inl over ↦ (ok tt, drawn fs c, rw (p, over) refl, refl, λ _. rw q (inl over))
    | inr live ↦
        let ask = set_status TaskStatus.cancel_requested in
        let c₁ = drawn fs c in
        elim (update_task-cases task ask (some r.generation) c₁) [
          | inr (e, fs', p') ↦ (
            err e,
            drawn fs' c₁,
            rw (p, live, p') refl,
            refl,
            λ x. later r (get c.tasks task) (
                update_task-stale task ask (some r.generation) c₁
                  (ap (λ x. x.0) p' ∙ ap err (is_excusable e x))),
          )
          | inl (u, g, s, (fs', p')) ↦
              let u' = updated ask u c₁ in
              (
                ok tt,
                (announce_cancel r (drawn fs' (put_task task u' c₁))).1,
                rw (p, live, p') refl,
                refl,
                λ _. rw (get-put_self c₁.tasks task u') (inl refl),
              )
        ]
  ]
]

set_run-get :
    (run : String) (f : Run → Run) (c : Control) {r : Run}
    → get c.runs run ≡ some r
    → get (set_run run f c).runs run ≡ some (f r)
unfolding set_run
set_run-get run f c {r} q = rw (set_run, q) (get-put_self c.runs run (f r))

terminate_shell-cancelled :
    (shell : Option Bool) (r : Run)
    → r.cancelled ≡ true
    → (terminate_shell shell r).cancelled ≡ true
unfolding terminate_shell
terminate_shell-cancelled none r h = h
terminate_shell-cancelled (some gone) r h = h

abbrev pub IsCancelled : Option Run → Type 0
IsCancelled none = ⊥
IsCancelled (some r) = r.cancelled ≡ true

conclude-effective :
    (r x : Run) (task : String) (shell : Option Bool) (written : Bool) (res : Result (Unit {0}))
    (d : Control)
    → get d.runs r.run_id ≡ some x
    → x.cancelled ≡ true
    → (written ≡ true → Stopped r (get d.tasks task))
    → (conclude r shell written res d).0 ≡ ok true
    → IsCancelled (get (conclude r shell written res d).1.runs r.run_id)
      × Stopped r (get (conclude r shell written res d).1.tasks task)
unfolding conclude
conclude-effective r x task shell written res d live token stop h =
    elim (Bool-cases (succeeded res && written)) [
      | inr bad ↦ let h' = rw bad at h in cc
      | inl good ↦ rw good (
        subst IsCancelled (sym (set_run-get r.run_id (terminate_shell shell) d live))
            (terminate_shell-cancelled shell x token),
        subst (λ (l : Dict Task). Stopped r (get l task))
            (sym (set_run-tasks r.run_id (terminate_shell shell) d))
            (stop (both (succeeded res) written good)),
      )
    ]
  where
    both : (a b : Bool) → a && b ≡ true → b ≡ true
    both true b h = h
    both false b h = cc

cancel_run-effective :
    (r : Run) (task : String) (ids : List String) (shell : Option Bool) (c : Control)
    → get c.runs r.run_id ≡ some r
    → (cancel_run r task ids shell c).0 ≡ ok true
    → IsCancelled (get (cancel_run r task ids shell c).1.runs r.run_id)
      × Stopped r (get (cancel_run r task ids shell c).1.tasks task)
unfolding cancel_run
cancel_run-effective r task ids shell c live h =
    let (res, d, p, runs, stop) = request_cancel-cases r task c in
    let (e, q, same) = excused-cases res d in
    let c₁ = set_run r.run_id cancel_token e in
    let alive : get e.runs r.run_id ≡ some r =
      ap (λ (l : Dict Run). get l r.run_id) (same.runs ∙ runs) ∙ live in
    let token : get c₁.runs r.run_id ≡ some (cancel_token r) =
      set_run-get r.run_id cancel_token e alive in
    let kept = cancel_pending-SameTasks r ids c₁ in
    rw (p, q)
      (conclude-effective r (cancel_token r) task shell (excusable res) (cancel_pending r ids c₁).0
        (cancel_pending r ids c₁).1 (ap (λ (l : Dict Run). get l r.run_id) kept.runs ∙ token) refl
        (λ x.
          subst (λ (l : Dict Task). Stopped r (get l task))
            (sym (kept.tasks ∙ set_run-tasks r.run_id cancel_token e ∙ same.tasks)) (stop x))
        (rw (p, q) at h))

-- A cancellation that reports success has reached the run: its token is cancelled, and its task has
-- ended, waits for its end, or belongs to another generation, whatever the disk answered on the way.
pub cancel-effective :
    (task : String) (ids : List String) (shell : Option Bool) (c : Control) (r : Run)
    → get_context task c ≡ some r
    → get c.runs r.run_id ≡ some r
    → (cancel task ids shell c).0 ≡ ok true
    → IsCancelled (get (cancel task ids shell c).1.runs r.run_id)
      × Stopped r (get (cancel task ids shell c).1.tasks task)
unfolding cancel
cancel-effective task ids shell c r context live h =
    rw context (cancel_run-effective r task ids shell c live (rw context at h))
