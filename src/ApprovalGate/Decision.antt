-- ===== src/ApprovalGate/Decision.antt =====
-- When a decision about an approval takes effect, and when it is refused.
use thread_forge.Prelude.{
  ◌⊎◌, String, ◌≡◌, refl, true, false, Option, some, List, [], sym, ◌∙◌, inl, inr, if◌then◌else◌,
  ◌==◌, ltb, Bool-cases, Option-cases,
}
use mathlib.Core.Option.{some-injective}
use mathlib.Core.Path.{subst}
use thread_forge.Prelude.Dict.{get}
use thread_forge.Domain.{TaskStatus, Task, Approval, is_pending, value, approval_already_resolved}
use thread_forge.Control.{Control, Run, Exec, Fault, ok, err, disk}
use thread_forge.Repositories.{get_approval, read_approval}
use thread_forge.Repositories.Steps.{drawn, get_task-cases, get_approval-cases}
use thread_forge.ApprovalGate.Decide.{
  refuses_decision, decide_locked, apply_decision, already, gate_for,
}

pub get_approval-calm :
    (id : String) (c : Control) (a : Approval)
    → get c.approvals id ≡ some a
    → c.faults ≡ []
    → get_approval id c ≡ (ok a, drawn [] c)
unfolding get_approval read_approval disk
get_approval-calm id c a q calm = rw (calm, q) refl

-- The records, the journal and the events are as they were.
pub record SameRecords (c c' : Control) : Type 0 where
  pub tasks : c'.tasks ≡ c.tasks
  pub approvals : c'.approvals ≡ c.approvals
  pub journal : c'.journal ≡ c.journal
  pub publisher : c'.publisher ≡ c.publisher

SameRecords-drawn : (c : Control) (fs : List Fault) → SameRecords c (drawn fs c)
SameRecords-drawn c fs = record { tasks = refl; approvals = refl; journal = refl; publisher = refl }

SameRecords-trans : {c d e : Control} → SameRecords c d → SameRecords d e → SameRecords c e
SameRecords-trans s u = record {
  tasks = u.tasks ∙ s.tasks;
  approvals = u.approvals ∙ s.approvals;
  journal = u.journal ∙ s.journal;
  publisher = u.publisher ∙ s.publisher;
}

-- Whatever the action returns or raises, it changes no record.
abbrev pub Harmless : {A : Type 0} → Exec A → Control → Type 0
Harmless m c = SameRecords c (m c).1

same_value : {A : Type 0} {o : Option A} {t u : A} → o ≡ some t → o ≡ some u → t ≡ u
same_value {t = t} {u = u} p q = some-injective t u (sym p ∙ q)

-- An approval that is decided is only read again.
already-Harmless :
    (id decision : String) (a : Approval) (c : Control)
    → Harmless (already a decision (get_approval id)) c
already-Harmless id decision a c = elim (Bool-cases (value a.status == decision)) [
  | inr other ↦
      rw other (record { tasks = refl; approvals = refl; journal = refl; publisher = refl })
  | inl same ↦ rw same (elim (get_approval-cases id c) [
    | inr (e, fs, p) ↦ rw p (SameRecords-drawn c fs)
    | inl (b, q, (fs, p)) ↦ rw p (SameRecords-drawn c fs)
  ])
]

decide_locked-refused :
    (r : Run) (id decision txn : String) (c : Control) {t : Task}
    → get c.tasks r.task_id ≡ some t
    → refuses_decision t.status ≡ true
    → Harmless (decide_locked r id decision txn) c
unfolding decide_locked
decide_locked-refused r id decision txn c {t} found late = elim (get_approval-cases id c) [
  | inr (e, fs, p) ↦ rw p (SameRecords-drawn c fs)
  | inl (a, q, (fs, p)) ↦ elim (Bool-cases (is_pending a.status)) [
    | inl pending ↦ elim (get_task-cases r.task_id (drawn fs c)) [
      | inr (e, fs', p') ↦ rw (p, pending, p') (SameRecords-drawn c fs')
      | inl (u, q', (fs', p')) ↦
          let late' : refuses_decision u.status ≡ true =
            subst (λ v. refuses_decision v.status ≡ true) (same_value found q') late in
          rw (p, pending, p', late') (SameRecords-drawn c fs')
    ]
    | inr decided ↦
        rw (p, decided)
          (SameRecords-trans (SameRecords-drawn c fs) (already-Harmless id decision a (drawn fs c)))
  ]
]

-- The statuses in which a decision comes too late.
abbrev pub TooLate : TaskStatus → Type 0
TooLate s =
    (s ≡ TaskStatus.cancel_requested)
    ⊎ ((s ≡ TaskStatus.cancelled) ⊎ ((s ≡ TaskStatus.failed) ⊎ (s ≡ TaskStatus.completed)))

TooLate-refused : (s : TaskStatus) → TooLate s → refuses_decision s ≡ true
TooLate-refused s (inl h) = rw h refl
TooLate-refused s (inr (inl h)) = rw h refl
TooLate-refused s (inr (inr (inl h))) = rw h refl
TooLate-refused s (inr (inr (inr h))) = rw h refl

-- A decision about an approval whose task is already being cancelled, or is cancelled, failed or
-- completed, changes nothing: no record, no journal entry, no event, whatever the disk answers.
pub apply_decision-refused :
    (id decision txn : String) (c : Control) (a : Approval) (t : Task)
    → get c.approvals id ≡ some a
    → get c.tasks a.task_id ≡ some t
    → TooLate t.status
    → Harmless (apply_decision id decision txn) c
unfolding apply_decision
apply_decision-refused id decision txn c a t fa ft late = elim (get_approval-cases id c) [
  | inr (e, fs, p) ↦ rw p (SameRecords-drawn c fs)
  | inl (b, q, (fs, p)) ↦ elim (Bool-cases (is_pending b.status)) [
    | inr decided ↦ elim (Bool-cases (value b.status == decision)) [
      | inl same ↦ rw (p, decided, same) (SameRecords-drawn c fs)
      | inr other ↦ rw (p, decided, other) (SameRecords-drawn c fs)
    ]
    | inl pending ↦ elim (Bool-cases (ltb b.expires_at c.clock)) [
      | inl over ↦ rw (p, pending, over) (SameRecords-drawn c fs)
      | inr time ↦ elim (Option-cases (gate_for b.task_id c)) [
        | inl gone ↦ rw (p, pending, time, gone) (SameRecords-drawn c fs)
        | inr (g, gate) ↦
            rw (p, pending, time, gate)
              (SameRecords-trans (SameRecords-drawn c fs) (
                decide_locked-refused _ id decision txn (drawn fs c)
                  (subst (λ (x : Approval). get c.tasks x.task_id ≡ some t) (same_value fa q) ft)
                  (TooLate-refused t.status late)))
      ]
    ]
  ]
]

-- A decided approval keeps its decision: whatever a further one says and whatever the disk answers,
-- it changes no record, journal entry or event.
pub apply_decision-decided :
    (id decision txn : String) (c : Control) (a : Approval)
    → get c.approvals id ≡ some a
    → is_pending a.status ≡ false
    → Harmless (apply_decision id decision txn) c
unfolding apply_decision
apply_decision-decided id decision txn c a fa decided = elim (get_approval-cases id c) [
  | inr (e, fs, p) ↦ rw p (SameRecords-drawn c fs)
  | inl (b, q, (fs, p)) ↦
      let d : is_pending b.status ≡ false =
        subst (λ (x : Approval). is_pending x.status ≡ false) (same_value fa q) decided in
      elim (Bool-cases (value b.status == decision)) [
        | inl same ↦ rw (p, d, same) (SameRecords-drawn c fs)
        | inr other ↦ rw (p, d, other) (SameRecords-drawn c fs)
      ]
]

-- Where the disk answers, a further decision about a decided approval is answered with the record if
-- it says the same again, and is refused as already resolved if it does not.
pub apply_decision-answer :
    (id decision txn : String) (c : Control) (a : Approval)
    → get c.approvals id ≡ some a
    → is_pending a.status ≡ false
    → c.faults ≡ []
    → (apply_decision id decision txn c).0
      ≡ (if value a.status == decision then ok a else err approval_already_resolved)
unfolding apply_decision
apply_decision-answer id decision txn c a fa decided calm =
    rw (get_approval-calm id c a fa calm, decided)
      (elim (Bool-cases (value a.status == decision)) [
        | inl same ↦ rw same refl
        | inr other ↦ rw other refl
      ])
