-- ===== src/TaskService/Owned.antt =====
-- A request about another owner's task or approval changes nothing.
use thread_forge.Prelude.{
  String, ◌≡◌, refl, ◌⊎◌, Bool, true, false, Option, none, some, List, ◌==◌, ◌&&◌, Bool-cases, inl,
  inr,
}
use thread_forge.Prelude.Dict.{get}
use thread_forge.Domain.{Task, Approval, task_not_found, approval_not_found}
use thread_forge.Control.{Control, Exec}
use thread_forge.Repositories.{get_task_for_owner, get_approval_for_owner}
use thread_forge.Repositories.Steps.{Fails, drawn, Does, get_task-cases, get_approval-cases}
use thread_forge.TaskService.{cancel_task, resolve_approval}

-- The stored task is the owner's.
abbrev pub owns_task : String → Option Task → Bool
owns_task owner none = false
owns_task owner (some t) = t.owner_id == owner

-- The stored approval is the owner's, and of this task.
abbrev pub owns_approval : String → String → Option Approval → Bool
owns_approval owner task none = false
owns_approval owner task (some a) = a.owner_id == owner && a.task_id == task

module _ (canonical : String → String) (owner : String) where
  other_owner :
      (id : String) (c : Control)
      → owns_task (canonical owner) (get c.tasks id) ≡ false
      → Fails (get_task_for_owner canonical id owner) c
  unfolding get_task_for_owner
  other_owner id c h = elim (get_task-cases id c) [
    | inr (e, fs, p) ↦ (e, fs, rw p refl)
    | inl (t, q, (fs, p)) ↦ (task_not_found, fs, rw (p, rw q at h) refl)
  ]

  own_task :
      (id : String) (c : Control)
      → owns_task (canonical owner) (get c.tasks id) ≡ true
      → ((t : Task) × Does (get_task_for_owner canonical id owner) c t (λ s. s))
        ⊎ Fails (get_task_for_owner canonical id owner) c
  unfolding get_task_for_owner
  own_task id c h = elim (get_task-cases id c) [
    | inr (e, fs, p) ↦ inr (e, fs, rw p refl)
    | inl (t, q, (fs, p)) ↦ inl (t, (fs, rw (p, rw q at h) refl))
  ]

  other_approval :
      (id task : String) (c : Control)
      → owns_approval (canonical owner) task (get c.approvals id) ≡ false
      → ((a : Approval) × Does (get_approval_for_owner canonical id owner) c a (λ s. s)
          × ((a.task_id == task) ≡ false))
        ⊎ Fails (get_approval_for_owner canonical id owner) c
  unfolding get_approval_for_owner
  other_approval id task c h = elim (get_approval-cases id c) [
    | inr (e, fs, p) ↦ inr (e, fs, rw p refl)
    | inl (a, q, (fs, p)) ↦ elim (Bool-cases (a.owner_id == canonical owner)) [
      | inr o ↦ inr (approval_not_found, fs, rw (p, o) refl)
      | inl o ↦ inl (a, (fs, rw (p, o) refl), (rw (q, o) at h))
    ]
  ]

-- A request to cancel a task of another owner, or to decide an approval when the task or the approval is another
-- owner's or the approval is another task's, is refused and writes nothing.
pub requests-refused :
    (canonical : String → String) (cancel_worker : String → Exec Bool)
    (resolve_worker : String → String → Exec Approval) (ids : List String) (shell : Option Bool)
    (txn task id decision owner : String) (c : Control)
    → (owns_task (canonical (canonical owner)) (get c.tasks task)
        && owns_approval (canonical (canonical owner)) task (get c.approvals id))
      ≡ false
    → Fails (resolve_approval canonical resolve_worker txn task id decision owner) c
      × (owns_task (canonical (canonical owner)) (get c.tasks task) ≡ true
          ⊎ Fails (cancel_task canonical cancel_worker ids shell task owner) c)
unfolding resolve_approval cancel_task
requests-refused canonical cancel_worker resolve_worker ids shell txn task id decision owner c h =
    elim (Bool-cases (owns_task (canonical (canonical owner)) (get c.tasks task))) [
      | inr other ↦
          let (e, fs, p) = other_owner canonical (canonical owner) task c other in
          ((e, fs, rw p refl), inr (e, fs, rw p refl))
      | inl own ↦ (
        elim (own_task canonical (canonical owner) task c own) [
          | inr (e, fs, p) ↦ (e, fs, rw p refl)
          | inl (t, (fs, p)) ↦
              elim (other_approval canonical (canonical owner) id task (drawn fs c) (rw own at h)) [
                | inr (e, fs', q) ↦ (e, fs', rw (p, q) refl)
                | inl (a, (fs', q), m) ↦ (approval_not_found, fs', rw (p, q, m) refl)
              ]
        ],
        inl own,
      )
    ]
