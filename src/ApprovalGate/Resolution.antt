-- ===== src/ApprovalGate/Resolution.antt =====
-- `_resolve_locked` writes a task, an approval and two journal records, and any of the writes, or
-- of the writes that take them back, may fail.
use thread_forge.Prelude.{String, ◌≡◌, refl, ap, ◌∙◌, true, Option, none, some, ◌⊎◌, inl, inr}
use thread_forge.Prelude.Dict.{Dict, get, get-put_self}
use thread_forge.Domain.{
  TaskStatus, ApprovalStatus, PendingApproval, Task, Approval, Error, value,
  persistence_unavailable,
}
use thread_forge.Control.{Control, Run, Exec, Result, ok, err, ◌>>=◌}
use thread_forge.Repositories.Steps.{
  drawn, put_task, put_approval, updated, get_task-cases, update_task-cases, update_approval-cases,
}
use thread_forge.ApprovalGate.{
  rollback_resolution, give_up, write_resolution, resolve_locked, announce, clear_pending_approval,
  set_decided,
}
use thread_forge.ApprovalGate.Rollback.{
  status_of, view_of, opened, closed, told, Restored, rollback-cases, give_up-cases,
  journal_begin-cases, journal_commit-cases, approval_status, task_view,
}

module _ (r : Run) (id : String) (status : ApprovalStatus) (decision txn : String) where
  -- The approval has its status, the task runs again and waits for nothing, the journal has a whole
  -- transition more, and one event is sent.
  pub record Settled (c c' : Control) : Type 0 where
    pub approval : approval_status id c' ≡ some status
    pub task : task_view r.task_id c' ≡ some (TaskStatus.running, none)
    pub journal :
        c'.journal ≡ (closed txn (opened txn "approval_resolution" r.task_id id c)).journal
    pub announced : c'.publisher ≡ told r id (value status) decision c.publisher

  write_resolution-cases :
      (c : Control)
      → ((c' : Control) × (write_resolution r id status decision txn c ≡ (ok tt, c'))
          × (approval_status id c' ≡ some status)
          × (task_view r.task_id c' ≡ some (TaskStatus.running, none))
          × (c'.journal ≡ (closed txn c).journal)
          × (c'.publisher ≡ c.publisher))
        ⊎ ((e : Error) × (c' : Control) × (write_resolution r id status decision txn c
              ≡ (err e, c')))
  unfolding write_resolution clear_pending_approval set_decided
  write_resolution-cases c =
      let clear = clear_pending_approval TaskStatus.running (some txn) in
      elim (update_task-cases r.task_id clear (some r.generation) c) [
        | inr (e, fs, p) ↦ inr (e, drawn fs c, rw p refl)
        | inl (t, q, s, (fs, p)) ↦
            let t' = updated clear t c in
            let c₁ = drawn fs (put_task r.task_id t' c) in
            let decide = set_decided status decision c.clock (some txn) in
            elim (update_approval-cases id decide c₁) [
              | inr (e, fs', p') ↦ inr (e, drawn fs' c₁, rw (p, p') refl)
              | inl (a, q', (fs', p')) ↦
                  let c₂ = drawn fs' (put_approval id (decide a) c₁) in
                  elim (journal_commit-cases txn c₂) [
                    | inr (e, fs'', p'') ↦ inr (e, drawn fs'' c₂, rw (p, p', p'') refl)
                    | inl (fs'', p'') ↦ inl (
                      drawn fs'' (closed txn c₂),
                      rw (p, p', p'') refl,
                      ap status_of (get-put_self c.approvals id (decide a)),
                      ap view_of (get-put_self c.tasks r.task_id t'),
                      refl,
                      refl,
                    )
                  ]
            ]
      ]

  -- What a call leaves behind: on success the decision is there in full. On a raise the records are
  -- untouched, or both are back where the wait was, or the service is degraded.
  abbrev pub Atomic : Result (Unit {0}) → Control → Control → Type 0
  Atomic (ok _) c c' = Settled c c'
  Atomic (err e) c c' =
      ((c'.tasks ≡ c.tasks) × (c'.approvals ≡ c.approvals))
      ⊎ ((c'.degraded ≡ true)
          ⊎ ((t : Task) × (get c.tasks r.task_id ≡ some t) × Restored r id t.pending_approval c'))

  -- The handler of the `except` clause, from any state.
  abbrev handler : Option String → Option PendingApproval → Exec (Unit {0})
  handler t prior = do rolled_back ← rollback_resolution r id prior; give_up t rolled_back

  handler-cases :
      (t : Option String) (prior : Option PendingApproval) (c : Control)
      → (c' : Control) × (handler t prior c ≡ (err persistence_unavailable, c'))
        × ((c'.degraded ≡ true) ⊎ Restored r id prior c')
  handler-cases t prior c =
      let (b, c₁, p, back) = rollback-cases r id prior c in
      let (c₂, q, how) = give_up-cases t b c₁ in
      (
        c₂,
        rw (p, q) refl,
        elim how [
          | inl d ↦ inl d
          | inr (went, ts, us) ↦ inr (
            ap (λ (d : Dict Approval). status_of (get d id)) us ∙ (back went).0,
            ap (λ (d : Dict Task). view_of (get d r.task_id)) ts ∙ (back went).1,
          )
        ],
      )

  resolve_locked-cases :
      (c : Control)
      → (res : Result (Unit {0})) × (c' : Control) × (resolve_locked r id status decision txn c
          ≡ (res, c'))
        × Atomic res c c'
  unfolding resolve_locked announce
  resolve_locked-cases c = elim (get_task-cases r.task_id c) [
    | inr (e, fs, p) ↦ (err e, drawn fs c, rw p refl, inl (refl, refl))
    | inl (t, q, (fs, p)) ↦
        let c₁ = drawn fs c in
        elim (journal_begin-cases txn "approval_resolution" r.task_id id c₁) [
          | inr (e, fs', p') ↦
              let (c₂, h, how) = handler-cases none t.pending_approval (drawn fs' c₁) in
              (err persistence_unavailable, c₂, rw (p, p') h, inr (after t q c₂ how))
          | inl (fs', p') ↦
              let c₂ = drawn fs' (opened txn "approval_resolution" r.task_id id c₁) in
              elim (write_resolution-cases c₂) [
                | inr (e, c₃, w) ↦
                    let (c₄, h, how) = handler-cases (some txn) t.pending_approval c₃ in
                    (err persistence_unavailable, c₄, rw (p, p', w) h, inr (after t q c₄ how))
                | inl (c₃, w, a, v, j, u) ↦ (
                  ok tt,
                  (announce r id (value status) decision c₃).1,
                  rw (p, p', w) refl,
                  record {
                    approval = a;
                    task = v;
                    journal = j;
                    announced = ap (told r id (value status) decision) u;
                  },
                )
              ]
        ]
  ]
    where
      after :
          (t : Task)
          → get c.tasks r.task_id ≡ some t
          → (c' : Control) → (c'.degraded ≡ true) ⊎ Restored r id t.pending_approval c'
          → (c'.degraded ≡ true)
            ⊎ ((u : Task) × (get c.tasks r.task_id ≡ some u) × Restored r id u.pending_approval c')
      after t q c' (inl d) = inl d
      after t q c' (inr b) = inr (t, q, b)

  -- Resolving an approval is atomic over the two records and the journal, whichever of the disk
  -- operations fail, those of the rollback included: if it returns, the approval has its status, the
  -- task runs again with no pending approval, the journal has one whole transition more and the event is sent; if it
  -- raises, both records are as they were, or both are back in the wait that they were in, or the
  -- service is marked as degraded.
  pub resolve_locked-Atomic :
      (c : Control)
      → Atomic
          (resolve_locked r id status decision txn c).0
          c
          (resolve_locked r id status decision txn c).1
  resolve_locked-Atomic c = let (res, c', p, a) = resolve_locked-cases c in rw p a
