-- ===== src/ApprovalGate/Settling.antt =====
-- `request` of approval_gate.py after the wait: what an approved outcome rests on.
use thread_forge.Prelude.{
  String, ◌≡◌, ◌≢◌, refl, true, false, some, ◌⊎◌, inl, inr, Bool-cases, ◌==◌,
}
use thread_forge.Prelude.Dict.{get}
use thread_forge.Domain.{ApprovalStatus, Approval, is_pending}
use thread_forge.ApprovalPolicy.{ApprovalOutcome}
use thread_forge.Control.{Control, Run, Exec, Result, continue, ok, err, ◌>>=◌, pure}
use thread_forge.Repositories.Steps.{drawn, get_approval-cases}
use thread_forge.ApprovalGate.{resolve_locked}
use thread_forge.ApprovalGate.Request.{settle, outcome_of, or_outcome}

abbrev uncancelled : Run → Run
uncancelled r = record r { cancelled = false }

no_approval :
    (o : ApprovalOutcome)
    → o ≢ ApprovalOutcome.approved
    → (m : Exec (Unit {0})) (d : Control) → ((m >>= λ _. pure o) d).0 ≢ ok ApprovalOutcome.approved
no_approval o other m d h = go (m d).0 h
  where
    go :
        (res : Result (Unit {0}))
        → (continue res (λ _. pure o) (m d).1).0 ≢ ok ApprovalOutcome.approved
    go (ok _) h = other cc
    go (err e) h = cc

was_approved :
    (s : ApprovalStatus)
    → ok (or_outcome (outcome_of s) ApprovalOutcome.expired) ≡ ok ApprovalOutcome.approved
    → s ≡ ApprovalStatus.approved
was_approved ApprovalStatus.pending h = cc
was_approved ApprovalStatus.approved h = refl
was_approved ApprovalStatus.rejected h = cc
was_approved ApprovalStatus.expired h = cc
was_approved ApprovalStatus.cancelled h = cc

-- A tool call is let through only if the run is not cancelled and the stored approval either has the
-- digest of the arguments that are about to be used, or was found to be approved after the wait
-- had run out.
pub settle-approved :
    (r : Run) (id digest txn : String) (o : ApprovalOutcome) (c : Control)
    → (settle r id digest txn o c).0 ≡ ok ApprovalOutcome.approved
    → (r.cancelled ≡ false)
      × ((a : Approval) × (get c.approvals id ≡ some a)
          × (((o ≡ ApprovalOutcome.approved) × ((a.args_digest == digest) ≡ true))
              ⊎ ((o ≡ ApprovalOutcome.expired) × (a.status ≡ ApprovalStatus.approved))))
unfolding settle
settle-approved r id digest txn ApprovalOutcome.rejected c h = cc
settle-approved r id digest txn ApprovalOutcome.cancelled c h = cc
settle-approved r id digest txn ApprovalOutcome.approved c h = elim (Bool-cases r.cancelled) [
  | inl stop ↦ let h' = rw stop at h in cc
  | inr go ↦ elim (get_approval-cases id c) [
    | inr (e, fs, p) ↦ let h' = rw (go, p) at h in cc
    | inl (a, q, (fs, p)) ↦ elim (Bool-cases (a.args_digest == digest)) [
      | inl same ↦ (go, (a, q, inl (refl, same)))
      | inr differs ↦ absurd (
          no_approval ApprovalOutcome.rejected (λ e. cc)
            (resolve_locked (uncancelled r) id ApprovalStatus.rejected "digest_mismatch" txn)
            (drawn fs c) (rw (go, p, differs) at h))
    ]
  ]
]
settle-approved r id digest txn ApprovalOutcome.expired c h = elim (Bool-cases r.cancelled) [
  | inl stop ↦ let h' = rw stop at h in cc
  | inr go ↦ elim (get_approval-cases id c) [
    | inr (e, fs, p) ↦ let h' = rw (go, p) at h in cc
    | inl (a, q, (fs, p)) ↦ elim (Bool-cases (is_pending a.status)) [
      | inr decided ↦ (go, (a, q, inr (refl, was_approved a.status (rw (go, p, decided) at h))))
      | inl waits ↦ absurd (
          no_approval ApprovalOutcome.expired (λ e. cc)
            (resolve_locked (uncancelled r) id ApprovalStatus.expired "expired" txn) (drawn fs c)
            (rw (go, p, waits) at h))
    ]
  ]
]
