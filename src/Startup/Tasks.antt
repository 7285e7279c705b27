-- ===== src/Startup/Tasks.antt =====
-- The loop over the tasks in `reconcile`.
use thread_forge.Prelude.{
  String, ◌≡◌, refl, sym, ap, ◌∙◌, Bool, true, false, List, ◌∷◌, ◌==◌, ◌&&◌, not, Bool-cases, inl,
  inr,
}
use mathlib.Core.Path.{subst}
use thread_forge.Prelude.Dict.{Dict, get}
use thread_forge.Json.{Python}
use thread_forge.Security.{Secrets}
use thread_forge.Domain.{Task, terminal, or_empty}
use thread_forge.Reconciliation.{
  both, matched, has_trace, run_artifacts_match, converge_run_artifacts,
}
use thread_forge.Control.{Control, Exec, Result, succeeded, ok, err}
use thread_forge.Repositories.Steps.{drawn, get_task-cases}
use thread_forge.Startup.{
  is_active, tried, recover_active, check_ended, reconcile_task, converge_unless, reason_or_error,
}
use thread_forge.Startup.Loops.{If, Moves, All-map}
use thread_forge.Startup.Untouched.{Keeps, converge_run_artifacts-Keeps, run_artifacts_match-Keeps}
use thread_forge.Startup.Restoring.{
  Keyed, is_settled, AllSettled, Settles, Left, tasks_of, recover_active-Restores,
}

-- The body of the loop returns a flag, and if it is set the task is settled.
abbrev Checks : String → Exec Bool → Control → Type 0
Checks id m c =
    (b : Bool) × (d : Control) × (m c ≡ (ok b, d))
    × (Keyed c.tasks → If b (Settles id c.tasks d.tasks))

tried-Checks :
    {A : Type 0} (id : String) (m : Exec A) (c : Control)
    → (Keyed c.tasks → Left id c.tasks (m c))
    → Checks id (tried m) c
tried-Checks {A} id m c h = go (m c) h
  where
    go :
        (x : Result A × Control)
        → (Keyed c.tasks → Left id c.tasks x)
        → (b : Bool) × (d : Control) × (◌≡◌ {A = Result Bool × Control}
            (ok (succeeded x.0), x.1)
            (ok b, d))
          × (Keyed c.tasks → If b (Settles id c.tasks d.tasks))
    go (ok a, d) g = (true, d, refl, g)
    go (err e, d) g = (false, d, refl, λ k. tt)

Settles-refl :
    (id : String) (d e : Dict Task)
    → Keyed d
    → is_settled (get d id) ≡ true
    → e ≡ d
    → Settles id d e
Settles-refl id d e k h p = subst (Settles id d) (sym p) (k, h, λ j q. q)

kept-Left :
    {A : Type 0} (id : String) (m : Exec A) (c : Control)
    → Keeps tasks_of m
    → Keyed c.tasks
    → is_settled (get c.tasks id) ≡ true
    → Left id c.tasks (m c)
kept-Left {A} id m c h keyed settled = go (m c) (h c)
  where
    go : (x : Result A × Control) → x.1.tasks ≡ c.tasks → Left id c.tasks x
    go (ok a, d) p = Settles-refl id c.tasks d.tasks keyed settled p
    go (err e, d) p = tt

-- `run_artifacts_match` catches what it raises.
run_artifacts_match-returns :
    (py : Python) (t : Task) (c : Control)
    → (b : Bool) × (d : Control) × (run_artifacts_match py t c ≡ (ok b, d))
unfolding run_artifacts_match
run_artifacts_match-returns py t c = elim (Bool-cases (t.run_id == "")) [
  | inl e ↦ (true, c, rw e refl)
  | inr e ↦ let x = both py t.run_id c in (matched t (has_trace t.run_id x.1) x.0, x.1, rw e refl)
]

converge_unless-Checks :
    (py : Python) (z : Secrets) (now id : String) (t : Task) (matched : Bool) (c : Control)
    → is_settled (get c.tasks id) ≡ true
    → Checks id (converge_unless py z now t matched) c
converge_unless-Checks py z now id t true c h =
    (true, c, refl, λ k. Settles-refl id c.tasks c.tasks k h refl)
converge_unless-Checks py z now id t false c h =
    let m =
      converge_run_artifacts py z now t t.status (reason_or_error t.stop_reason)
        (or_empty t.final_answer) in
    tried-Checks id m c (λ k.
      kept-Left id m c (converge_run_artifacts-Keeps tasks_of (λ c r fs. refl) py z now t _ _ _) k
        h)

check_ended-Checks :
    (py : Python) (z : Secrets) (now id : String) (t : Task) (c : Control)
    → is_settled (get c.tasks id) ≡ true
    → Checks id (check_ended py z now t) c
unfolding check_ended
check_ended-Checks py z now id t c h =
    elim (Bool-cases (not (t.execution_environment == "local_worker") && terminal t.status)) [
      | inr other ↦ (true, c, rw other refl, λ k. Settles-refl id c.tasks c.tasks k h refl)
      | inl ended ↦
          let (b, d, e) = run_artifacts_match-returns py t c in
          let same : d.tasks ≡ c.tasks =
            ap (λ (x : Result Bool × Control). x.1.tasks) (sym e)
            ∙ run_artifacts_match-Keeps tasks_of (λ c r fs. refl) py t c in
          let (b', d', e', g) =
            converge_unless-Checks py z now id t b d
              (ap (λ (x : Dict Task). is_settled (get x id)) same ∙ h) in
          (
            b',
            d',
            rw (ended, e) e',
            λ k. subst (λ x. If b' (Settles id x d'.tasks)) same (g (subst Keyed (sym same) k)),
          )
    ]

reconcile_task-Checks :
    (py : Python) (z : Secrets) (now id : String) (c : Control)
    → Checks id (reconcile_task py z now id) c
unfolding reconcile_task
reconcile_task-Checks py z now id c = elim (get_task-cases id c) [
  | inr (e, fs, p) ↦ (false, drawn fs c, rw p refl, λ k. tt)
  | inl (t, q, (fs, p)) ↦ elim (Bool-cases (is_active t.status)) [
    | inl active ↦
        let (b, d, e, h) = tried-Checks id (recover_active py z now t) (drawn fs c) (λ k.
          subst (λ j. Left j c.tasks (recover_active py z now t (drawn fs c))) (k id t q)
            (recover_active-Restores py z now t (drawn fs c) k)) in
        (b, d, rw (p, active) e, h)
    | inr ended ↦
        let (b, d, e, h) = check_ended-Checks py z now id t (drawn fs c) (rw (q, ended) refl) in
        (b, d, rw (p, ended) e, h)
  ]
]

-- What is kept up: the tasks are under their ids, and those that were looked at are settled.
abbrev pub TasksDone : List String → Control → Type 0
TasksDone ids c = Keyed c.tasks × AllSettled ids c.tasks

pub reconcile_task-Moves :
    (py : Python) (z : Secrets) (now id : String)
    → Moves TasksDone (λ ids. id ∷ ids) (reconcile_task py z now id)
reconcile_task-Moves py z now id c =
    let (b, d, p, h) = reconcile_task-Checks py z now id c in (b, d, p, go b d h)
  where
    go :
        (b : Bool) (d : Control)
        → (Keyed c.tasks → If b (Settles id c.tasks d.tasks))
        → (s : List String) → TasksDone s c
        → If b (TasksDone (id ∷ s) d)
    go false d h s i = tt
    go true d h s (k, a) = let g = h k in (g.0, (g.1, All-map _ _ g.2 s a))
