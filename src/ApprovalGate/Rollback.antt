-- ===== src/ApprovalGate/Rollback.antt =====
-- The `except` clauses of approval_gate.py: the journal, the rollback of the two records, and what
-- is left behind when it fails.
use thread_forge.Prelude.{
  String, ◌≡◌, refl, ap, Bool, true, false, Option, none, some, [], ◌∷◌, ◌⊎◌, inl, inr,
}
use thread_forge.Prelude.Dict.{get, get-put_self}
use thread_forge.Domain.{
  TaskStatus, ApprovalStatus, PendingApproval, Task, Approval, persistence_unavailable,
}
use thread_forge.Journal
use thread_forge.Publisher
use thread_forge.Publisher.{Publisher, no_envelope}
use thread_forge.Control.{Control, Run, ok, err}
use thread_forge.Repositories.Steps.{
  Does, Fails, drawn, put_task, put_approval, updated, disk-cases, update_task-cases,
  update_approval-cases,
}
use thread_forge.ApprovalGate.{
  rollback_resolution, give_up, journal_begin, journal_commit, close_failed,
  restore_pending_approval, restore_waiting_task,
}

-- What a client sees of an approval and of a task.
abbrev pub status_of : Option Approval → Option ApprovalStatus
status_of none = none
status_of (some a) = some a.status

abbrev pub view_of : Option Task → Option (TaskStatus × Option PendingApproval)
view_of none = none
view_of (some t) = some (t.status, t.pending_approval)

abbrev pub approval_status : String → Control → Option ApprovalStatus
approval_status id c = status_of (get c.approvals id)

abbrev pub task_view : String → Control → Option (TaskStatus × Option PendingApproval)
task_view id c = view_of (get c.tasks id)

abbrev pub opened : String → String → String → String → Control → Control
opened txn kind task id c = record c {
  journal =
      Journal.append
        (Journal.begin
          (record { transition_id = txn; kind = kind; task_id = task; approval_id = id }))
        c.journal;
}

abbrev pub closed : String → Control → Control
closed txn c = record c { journal = Journal.append (Journal.commit txn) c.journal }

pub journal_begin-cases :
    (txn kind task id : String) (c : Control)
    → Does (journal_begin txn kind task id) c tt (opened txn kind task id)
      ⊎ Fails (journal_begin txn kind task id) c
unfolding journal_begin
journal_begin-cases txn kind task id c = elim (disk-cases c) [
  | inl (fs, p) ↦ inl (fs, rw p refl)
  | inr (e, fs, p) ↦ inr (e, fs, rw p refl)
]

pub journal_commit-cases :
    (txn : String) (c : Control)
    → Does (journal_commit txn) c tt (closed txn) ⊎ Fails (journal_commit txn) c
unfolding journal_commit
journal_commit-cases txn c = elim (disk-cases c) [
  | inl (fs, p) ↦ inl (fs, rw p refl)
  | inr (e, fs, p) ↦ inr (e, fs, rw p refl)
]

-- The event that tells the subscribers of a decision.
abbrev pub told : Run → String → String → String → Publisher → Publisher
told r id status decision =
    Publisher.publish r.task_id r.run_id "approval.resolved"
      (("approval_id", id) ∷ ("status", status) ∷ ("decision", decision) ∷ []) no_envelope

module _ (r : Run) (id : String) where
  -- The approval is pending again and the task waits for it.
  abbrev pub Restored : Option PendingApproval → Control → Type 0
  Restored prior c =
      (approval_status id c ≡ some ApprovalStatus.pending)
      × (task_view r.task_id c ≡ some (TaskStatus.waiting_for_approval, prior))

  pub rollback-cases :
      (prior : Option PendingApproval) (c : Control)
      → (b : Bool) × (c' : Control) × (rollback_resolution r id prior c ≡ (ok b, c'))
        × (b ≡ true → Restored prior c')
  unfolding rollback_resolution restore_pending_approval restore_waiting_task
  rollback-cases prior c = elim (update_approval-cases id restore_pending_approval c) [
    | inl (a, q, (fs, p)) ↦
        let a' = restore_pending_approval a in
        let c₁ = drawn fs (put_approval id a' c) in
        elim (update_task-cases r.task_id (restore_waiting_task prior) (some r.generation) c₁) [
          | inl (t, q', s, (fs', p')) ↦
              let t' = updated (restore_waiting_task prior) t c₁ in
              (
                true,
                drawn fs' (put_task r.task_id t' c₁),
                rw (p, p') refl,
                λ _. (
                  ap status_of (get-put_self c.approvals id a'),
                  ap view_of (get-put_self c.tasks r.task_id t'),
                ),
              )
          | inr (e, fs', p') ↦ (false, drawn fs' c₁, rw (p, p') refl, λ h. cc)
        ]
    | inr (e, fs, p) ↦
        let c₁ = drawn fs c in
        elim (update_task-cases r.task_id (restore_waiting_task prior) (some r.generation) c₁) [
          | inl (t, q', s, (fs', p')) ↦ (
            false,
            drawn fs' (put_task r.task_id (updated (restore_waiting_task prior) t c₁) c₁),
            rw (p, p') refl,
            λ h. cc,
          )
          | inr (e', fs', p') ↦ (false, drawn fs' c₁, rw (p, p') refl, λ h. cc)
        ]
  ]

-- After a failure the call raises, and either the service is degraded or the rollback went through
-- and the records are as it left them.
pub give_up-cases :
    (txn : Option String) (b : Bool) (c : Control)
    → (c' : Control) × (give_up txn b c ≡ (err persistence_unavailable, c'))
      × ((c'.degraded ≡ true) ⊎ ((b ≡ true) × (c'.tasks ≡ c.tasks) × (c'.approvals ≡ c.approvals)))
unfolding give_up close_failed
give_up-cases none true c = (c, refl, inr (refl, refl, refl))
give_up-cases none false c = (record c { degraded = true }, refl, inl refl)
give_up-cases (some txn) false c = (record c { degraded = true }, refl, inl refl)
give_up-cases (some txn) true c = elim (journal_commit-cases txn c) [
  | inl (fs, p) ↦ (drawn fs (closed txn c), rw p refl, inr (refl, refl, refl))
  | inr (e, fs, p) ↦ (record c { degraded = true; faults = fs }, rw p refl, inl refl)
]
