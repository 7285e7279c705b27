-- ===== src/ApprovalGate/Withdrawal.antt =====
-- `_rollback_request` of approval_gate.py: what it leaves behind when a request fails.
use thread_forge.Prelude.{
  String, ◌≡◌, refl, ap, ◌∙◌, Bool, true, false, Option, none, some, ◌⊎◌, inl, inr, ◌&&◌, arith,
}
use thread_forge.Prelude.Dict.{Dict, get, get-put_self}
use thread_forge.Domain.{
  TaskStatus, ApprovalStatus, Task, Approval, approval_not_found, persistence_unavailable,
}
use thread_forge.Control.{Control, Run, Exec, Result, ok, err, ◌>>=◌, pure, attempt, succeeded}
use thread_forge.Repositories.{update_task}
use thread_forge.Repositories.Steps.{
  drawn, put_task, put_approval, updated, update_task-cases, update_approval-cases,
  get_approval-cases, get_approval-absent,
}
use thread_forge.ApprovalGate.{clear_pending_approval, set_decided, give_up}
use thread_forge.ApprovalGate.Request.{withdraw, rollback_request}
use thread_forge.ApprovalGate.Rollback.{
  status_of, view_of, approval_status, task_view, give_up-cases,
}

-- The approval was never stored, or is cancelled.
abbrev pub NotPending : Option ApprovalStatus → Type 0
NotPending s = (s ≡ none) ⊎ (s ≡ some ApprovalStatus.cancelled)

withdraw-cases :
    (id : String) (c d : Control)
    → d.approvals ≡ c.approvals
    → (res : Result Approval) → (res ≡ err approval_not_found → get c.approvals id ≡ none)
    → (b : Bool) × (c' : Control) × (withdraw id res d ≡ (ok b, c'))
      × (b ≡ true → NotPending (approval_status id c'))
unfolding withdraw set_decided
withdraw-cases id c d same (err approval_not_found) absent = (
  true,
  d,
  refl,
  λ _. inl (ap (λ (l : Dict Approval). status_of (get l id)) same ∙ ap status_of (absent refl)),
)
withdraw-cases id c d same (err e) absent = (false, d, refl, λ h. cc)
withdraw-cases id c d same (ok a) absent =
    let cancel = set_decided ApprovalStatus.cancelled "persistence_error" d.clock none in
    elim (update_approval-cases id cancel d) [
      | inl (b, q, (fs, p)) ↦ (
        true,
        drawn fs (put_approval id (cancel b) d),
        rw p refl,
        λ _. inr (ap status_of (get-put_self d.approvals id (cancel b))),
      )
      | inr (e, fs, p) ↦ (false, drawn fs d, rw p refl, λ h. cc)
    ]

module _ (r : Run) (id : String) where
  -- No approval is pending, and the task runs on and waits for nothing.
  abbrev pub Withdrawn : Control → Type 0
  Withdrawn c =
      NotPending (approval_status id c) × (task_view r.task_id c ≡ some (TaskStatus.running, none))

  -- The part of the rollback that follows the read.
  abbrev undo : Result Approval → Exec Bool
  undo found = do
    a ← withdraw id found
    t ←
        attempt (
          update_task r.task_id (clear_pending_approval TaskStatus.running none)
            (some r.generation))
    pure (a && succeeded t)

  undo-cases :
      (c d : Control)
      → d.approvals ≡ c.approvals
      → (res : Result Approval) → (res ≡ err approval_not_found → get c.approvals id ≡ none)
      → (b : Bool) × (c' : Control) × (undo res d ≡ (ok b, c')) × (b ≡ true → Withdrawn c')
  unfolding clear_pending_approval
  undo-cases c d same res absent =
      let clear = clear_pending_approval TaskStatus.running none in
      let (b, c₁, p, gone) = withdraw-cases id c d same res absent in
      elim (update_task-cases r.task_id clear (some r.generation) c₁) [
        | inl (t, q, s, (fs, p')) ↦
            let t' = updated clear t c₁ in
            (
              b && true,
              drawn fs (put_task r.task_id t' c₁),
              rw (p, p') refl,
              λ h. (gone (and_true b h), ap view_of (get-put_self c₁.tasks r.task_id t')),
            )
        | inr (e, fs, p') ↦ (b && false, drawn fs c₁, rw (p, p') refl, λ h. ground arith)
      ]
    where
      and_true : (x : Bool) → x && true ≡ true → x ≡ true
      and_true true h = refl
      and_true false h = h

  rollback_request-cases :
      (c : Control)
      → (b : Bool) × (c' : Control) × (rollback_request r id c ≡ (ok b, c'))
        × (b ≡ true → Withdrawn c')
  unfolding rollback_request
  rollback_request-cases c = elim (get_approval-cases id c) [
    | inl (a, q, (fs, p)) ↦
        let (b, c', u, back) = undo-cases c (drawn fs c) refl (ok a) (λ h. cc) in
        (b, c', rw (p, u) refl, back)
    | inr (e, fs, p) ↦
        let absent : err e ≡ err approval_not_found → get c.approvals id ≡ none =
          λ h. get_approval-absent id c (ap (λ x. x.0) p ∙ h) in
        let (b, c', u, back) = undo-cases c (drawn fs c) refl (err e) absent in
        (b, c', rw (p, u) refl, back)
  ]

  -- The handler of the `except` clause, from any state.
  abbrev pub handler : Option String → Exec (Unit {0})
  handler t = do rolled_back ← rollback_request r id; give_up t rolled_back

  pub handler-cases :
      (t : Option String) (c : Control)
      → (c' : Control) × (handler t c ≡ (err persistence_unavailable, c'))
        × ((c'.degraded ≡ true) ⊎ Withdrawn c')
  handler-cases t c =
      let (b, c₁, p, back) = rollback_request-cases c in
      let (c₂, q, how) = give_up-cases t b c₁ in
      (
        c₂,
        rw (p, q) refl,
        elim how [
          | inl d ↦ inl d
          | inr (went, ts, us) ↦
              let (gone, runs) = back went in
              let s = ap (λ (d : Dict Approval). status_of (get d id)) us in
              inr (
                elim gone [ inl n ↦ inl (s ∙ n) | inr x ↦ inr (s ∙ x) ],
                ap (λ (d : Dict Task). view_of (get d r.task_id)) ts ∙ runs,
              )
        ],
      )
