-- ===== src/ApprovalGate/Waking.antt =====
-- `_wait` of approval_gate.py and the resolution that ends it.
use thread_forge.Prelude.{
  ℕ, String, ◌≡◌, refl, ap, ◌∙◌, sym, false, none, some, [], inl, inr, Option-cases,
}
use mathlib.Core.Option.{some-injective}
use mathlib.Core.Path.{subst}
use thread_forge.Prelude.Dict.{get}
use thread_forge.Domain.{ApprovalStatus, Approval, is_pending}
use thread_forge.Control.{Control, Run, ok}
use thread_forge.ApprovalGate.{resolve_locked}
use thread_forge.ApprovalGate.Request.{poll, outcome_of}
use thread_forge.ApprovalGate.Rollback.{status_of}
use thread_forge.ApprovalGate.Resolution.{Atomic, Settled, resolve_locked-Atomic}
use thread_forge.ApprovalGate.Decision.{get_approval-calm}

poll-decided :
    (r : Run) (id : String) (expires_at : ℕ) (c : Control) (a : Approval) (status : ApprovalStatus)
    → get c.approvals id ≡ some a
    → a.status ≡ status
    → c.faults ≡ []
    → is_pending status ≡ false
    → (poll r id expires_at c).0 ≡ ok (outcome_of status)
unfolding poll
poll-decided r id expires_at c a ApprovalStatus.pending q s calm over = cc
poll-decided r id expires_at c a ApprovalStatus.approved q s calm over =
    rw (get_approval-calm id c a q calm, s) refl
poll-decided r id expires_at c a ApprovalStatus.rejected q s calm over =
    rw (get_approval-calm id c a q calm, s) refl
poll-decided r id expires_at c a ApprovalStatus.expired q s calm over =
    rw (get_approval-calm id c a q calm, s) refl
poll-decided r id expires_at c a ApprovalStatus.cancelled q s calm over =
    rw (get_approval-calm id c a q calm, s) refl

-- Once a resolution has returned, the next turn of the wait for that approval ends with its status,
-- whoever waits and however long the wait was to last, where the disk answers the read.
pub resolve_locked-poll :
    (r waiter : Run) (id : String) (status : ApprovalStatus) (decision txn : String)
    (expires_at : ℕ) (c : Control)
    → (resolve_locked r id status decision txn c).0 ≡ ok tt
    → (resolve_locked r id status decision txn c).1.faults ≡ []
    → is_pending status ≡ false
    → (poll waiter id expires_at (resolve_locked r id status decision txn c).1).0
      ≡ ok (outcome_of status)
resolve_locked-poll r waiter id status decision txn expires_at c done calm over =
    let d = (resolve_locked r id status decision txn c).1 in
    let s : Settled r id status decision txn c d =
      subst (λ x. Atomic r id status decision txn x c d) done
        (resolve_locked-Atomic r id status decision txn c) in
    elim (Option-cases (get d.approvals id)) [
      | inl q ↦ absurd (cc_none (sym s.approval ∙ ap status_of q))
      | inr (a, q) ↦
          poll-decided waiter id expires_at d a status q
            (some-injective a.status status (sym (ap status_of q) ∙ s.approval)) calm over
    ]
  where
    cc_none : some status ≡ none → ⊥
    cc_none h = cc
