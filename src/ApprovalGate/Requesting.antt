-- ===== src/ApprovalGate/Requesting.antt =====
-- `request` of approval_gate.py: what it leaves behind up to the wait, whichever disk operations fail.
use thread_forge.Prelude.{
  true, false, ℕ, String, ◌≡◌, refl, ap, sym, ◌∙◌, true, none, some, ◌⊎◌, inl, inr, Bool-cases, [],
  ◌∷◌,
}
use thread_forge.Prelude.Dict.{get, put, get-put_self}
use thread_forge.Domain.{TaskStatus, Approval, Error, persistence_unavailable, run_cancelled}
use thread_forge.Publisher
use thread_forge.Publisher.{no_envelope}
use thread_forge.Control.{Control, Run, Result, ok, err}
use thread_forge.Repositories.Steps.{
  drawn, put_task, put_approval, updated, update_task-cases, create_approval-cases,
}
use thread_forge.ApprovalGate.{set_pending_approval}
use thread_forge.ApprovalGate.Request.{
  ToolCall, rollback_request, new_approval, pending_of, write_request, open_request,
}
use thread_forge.ApprovalGate.Rollback.{
  view_of, task_view, opened, closed, journal_begin-cases, journal_commit-cases,
}
use thread_forge.ApprovalGate.Withdrawal.{Withdrawn, handler, handler-cases}

module _ (r : Run) (id : String) (q : ToolCall) (timeout : ℕ) (txn : String) where
  -- The approval is stored as pending with the digest of the arguments, and the task waits for it.
  pub record Requested (c c' : Control) : Type 0 where
    pub live : r.cancelled ≡ false
    pub approval : get c'.approvals id ≡ some (new_approval r id q c.clock timeout (some txn))
    pub task :
        task_view r.task_id c'
        ≡ some (
          TaskStatus.waiting_for_approval,
          some (pending_of (new_approval r id q c.clock timeout (some txn))),
        )
    pub journal : c'.journal ≡ (closed txn (opened txn "approval_request" r.task_id id c)).journal

  write_request-cases :
      (a : Approval) (c : Control)
      → a.approval_id ≡ id
      → ((c' : Control) × (write_request r a txn c ≡ (ok tt, c'))
          × (get c'.approvals id ≡ some a)
          × (task_view r.task_id c' ≡ some (TaskStatus.waiting_for_approval, some (pending_of a)))
          × (c'.journal ≡ (closed txn c).journal))
        ⊎ ((e : Error) × (c' : Control) × (write_request r a txn c ≡ (err e, c')))
  unfolding write_request set_pending_approval
  write_request-cases a c named =
      let set = set_pending_approval (pending_of a) (some txn) in
      elim (create_approval-cases a c) [
        | inr (e, fs, p) ↦ inr (e, drawn fs c, rw p refl)
        | inl (fs, p) ↦
            let c₁ = drawn fs (put_approval a.approval_id a c) in
            elim (update_task-cases r.task_id set (some r.generation) c₁) [
              | inr (e, fs', p') ↦ inr (e, drawn fs' c₁, rw (p, p') refl)
              | inl (t, g, s, (fs', p')) ↦
                  let t' = updated set t c₁ in
                  let c₂ = drawn fs' (put_task r.task_id t' c₁) in
                  elim (journal_commit-cases txn c₂) [
                    | inr (e, fs'', p'') ↦ inr (e, drawn fs'' c₂, rw (p, p', p'') refl)
                    | inl (fs'', p'') ↦ inl (
                      drawn fs'' (closed txn c₂),
                      rw (p, p', p'') refl,
                      ap (λ k. get (put c.approvals a.approval_id a) k) (sym named)
                          ∙ get-put_self c.approvals a.approval_id a,
                      ap view_of (get-put_self c₁.tasks r.task_id t'),
                      refl,
                    )
                  ]
            ]
      ]

  -- The event that asks the user.
  abbrev shown : Control → Control
  shown c = record c {
    publisher =
        Publisher.publish r.task_id r.run_id "approval.required"
          (("approval_id", id)
            ∷ ("tool_call_id", q.tool_call_id)
            ∷ ("tool_name", q.tool_name)
            ∷ ("args_preview", q.preview)
            ∷ [])
          no_envelope c.publisher;
  }

  -- What a call leaves behind.
  abbrev pub Opened : Result (Unit {0}) → Control → Control → Type 0
  Opened (ok _) c c' = Requested c c'
  Opened (err e) c c' =
      ((e ≡ run_cancelled) × (c'.tasks ≡ c.tasks) × (c'.approvals ≡ c.approvals))
      ⊎ ((c'.degraded ≡ true) ⊎ Withdrawn r id c')

  open_request-cases :
      (c : Control)
      → (res : Result (Unit {0})) × (c' : Control) × (open_request r id q timeout txn c ≡ (res, c'))
        × Opened res c c'
  unfolding open_request new_approval rollback_request
  open_request-cases c =
      let c₀ = record c { task_gates = put c.task_gates r.task_id r.run_id } in
      elim (Bool-cases r.cancelled) [
        | inl stop ↦ (err run_cancelled, c₀, rw stop refl, inl (refl, refl, refl))
        | inr go ↦ elim (journal_begin-cases txn "approval_request" r.task_id id c₀) [
          | inr (e, fs, p) ↦
              let step : open_request r id q timeout txn c ≡ handler r id none (drawn fs c₀) =
                rw (go, p) refl in
              let (c₁, h, how) = handler-cases r id none (drawn fs c₀) in
              (err persistence_unavailable, c₁, step ∙ h, inr how)
          | inl (fs, p) ↦
              let c₁ = drawn fs (opened txn "approval_request" r.task_id id c₀) in
              let a = new_approval r id q c.clock timeout (some txn) in
              elim (write_request-cases a c₁ refl) [
                | inr (e, c₂, w) ↦
                    let step : open_request r id q timeout txn c ≡ handler r id (some txn) c₂ =
                      rw (go, p, w) refl in
                    let (c₃, h, how) = handler-cases r id (some txn) c₂ in
                    (err persistence_unavailable, c₃, step ∙ h, inr how)
                | inl (c₂, w, g, v, j) ↦ (
                  ok tt,
                  shown c₂,
                  rw (go, p, w) refl,
                  record { live = go; approval = g; task = v; journal = j },
                )
              ]
        ]
      ]

  -- Asking for an approval is all or nothing, whichever of the disk operations fail, those of the
  -- rollback included: if the call returns, the run is not cancelled, the approval is stored as pending with the digest of the
  -- arguments, the task waits for just that approval, and the journal has one whole transition more;
  -- if it raises, the run was cancelled and both records are as they were, or no approval is pending
  -- and the task runs on, or the service is marked as degraded.
  pub open_request-Opened :
      (c : Control)
      → Opened (open_request r id q timeout txn c).0 c (open_request r id q timeout txn c).1
  open_request-Opened c = let (res, c', p, o) = open_request-cases c in rw p o
