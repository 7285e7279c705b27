-- ===== src/Startup/Transitions.antt =====
-- The loop over the open transitions in `reconcile`.
use thread_forge.Prelude.{
  ◌≢◌, String, ◌≡◌, refl, sym, ap, ◌∙◌, Bool, true, false, Option, List, [], ◌∷◌, Bool-cases, inl,
  inr, arith,
}
use mathlib.Core.Path.{subst}
use thread_forge.Prelude.Dict.{Dict, get}
use thread_forge.Domain.{ApprovalStatus, Approval, Error, approval_not_found}
use thread_forge.Journal.{Intent, JournalFile, commit, scan, append}
use thread_forge.Journal.Recovery.{and_then, scan-append}
use thread_forge.ApprovalGate.{journal_commit}
use thread_forge.ApprovalGate.Rollback.{journal_commit-cases, closed}
use thread_forge.Control.{Control, Result, ok, err, disk}
use thread_forge.Repositories.{update_approval, read_approval, write_approval}
use thread_forge.Repositories.Steps.{
  drawn, get_approval-cases, get_approval-absent, update_approval-cases,
}
use thread_forge.Startup.{
  tried, is_live, set_approval_status, withdraw_approval, then_commit, reconcile_transition,
}
use thread_forge.Startup.Loops.{If, Moves}
use thread_forge.Startup.Restoring.{Keyed, AllSettled}
use thread_forge.Startup.Tasks.{TasksDone}
use thread_forge.Startup.Approvals.{
  AllDecided, is_withdrawn, AllWithdrawn, expired_decided, expired_withdrawn, expired_self,
}

-- What the first `try` leaves behind when the commit follows.
record Withdraws (id : String) (c d : Control) : Type 0 where
  tasks_kept : d.tasks ≡ c.tasks
  journal_kept : d.journal ≡ c.journal
  withdrawn : is_withdrawn (get d.approvals id) ≡ true
  decided_kept : (ids : List String) → AllDecided ids c.approvals → AllDecided ids d.approvals
  withdrawn_kept : (rs : List Intent) → AllWithdrawn rs c.approvals → AllWithdrawn rs d.approvals

abbrev Commits : String → Control → Result (Unit {0}) × Control → Type 0
Commits id c (ok _, d) = Withdraws id c d
Commits id c (err approval_not_found, d) = Withdraws id c d
Commits id c (err _, d) = Unit {0}

update_approval-present :
    (id : String) (f : Approval → Approval) (c : Control)
    → (update_approval id f c).0 ≢ err approval_not_found
unfolding update_approval read_approval write_approval disk
update_approval-present id f c h = ground arith

err-Commits :
    (id : String) (c d : Control) (e : Error)
    → (e ≡ approval_not_found → Withdraws id c d)
    → Commits id c (err e, d)
err-Commits id c d approval_not_found h = h refl
err-Commits id c d e h = tt

withdraw_approval-Commits : (id : String) (c : Control) → Commits id c (withdraw_approval id c)
unfolding withdraw_approval
withdraw_approval-Commits id c = elim (get_approval-cases id c) [
  | inr (e, fs, p) ↦ rw p (
      err-Commits id c (drawn fs c) e (λ q. record {
        tasks_kept = refl;
        journal_kept = refl;
        withdrawn = rw (get_approval-absent id c (ap (λ x. x.0) p ∙ ap err q)) refl;
        decided_kept = λ ids h. h;
        withdrawn_kept = λ rs h. h;
      }))
  | inl (a, q, (fs, p)) ↦ elim (Bool-cases (is_live a.status)) [
    | inr over ↦
        rw (p, over)
          (record {
            tasks_kept = refl;
            journal_kept = refl;
            withdrawn = rw (q, over) refl;
            decided_kept = λ ids h. h;
            withdrawn_kept = λ rs h. h;
          })
    | inl live ↦
        let f = set_approval_status ApprovalStatus.expired "service_restarted" c.clock in
        elim (update_approval-cases id f (drawn fs c)) [
          | inr (e, fs', w) ↦
              rw (p, live, w)
                (err-Commits id c (drawn fs' c) e (λ q.
                  absurd (update_approval-present id f (drawn fs c) (ap (λ x. x.0) w ∙ ap err q))))
          | inl (b, q', (fs', w)) ↦
              rw (p, live, w)
                (record {
                  tasks_kept = refl;
                  journal_kept = refl;
                  withdrawn = rw (expired_self c.approvals id (f b) refl) refl;
                  decided_kept = expired_decided c.approvals id (f b) refl;
                  withdrawn_kept = expired_withdrawn c.approvals id (f b) refl;
                })
        ]
  ]
]

abbrev pub committed : String → Option (Dict Intent) → Option (Dict Intent)
committed id s = and_then s (λ e. scan e (commit id ∷ []))

-- What is kept up over the open transitions: what the journal leaves open, and whose approvals are withdrawn.
abbrev pub TransitionsDone :
    List String → List String → Option (Dict Intent) × List Intent → Control → Type 0
TransitionsDone tasks ids s c =
    TasksDone tasks c
    × AllDecided ids c.approvals
    × (c.journal.torn ≡ false)
    × (scan [] c.journal.lines ≡ s.0)
    × AllWithdrawn s.1 c.approvals

append-scan :
    (f : JournalFile) (id : String) (s : Option (Dict Intent))
    → f.torn ≡ false
    → scan [] f.lines ≡ s
    → ((append (commit id) f).torn ≡ false)
      × (scan [] (append (commit id) f).lines ≡ committed id s)
unfolding append
append-scan f id s h p = (rw h refl, rw (h, scan-append [] f.lines (commit id ∷ []), p) refl)

abbrev pub done_with :
    Intent → Option (Dict Intent) × List Intent → Option (Dict Intent) × List Intent
done_with r s = (committed r.transition_id s.0, r ∷ s.1)

commit_step :
    (tasks ids : List String) (r : Intent) (c d : Control)
    → Withdraws r.approval_id c d
    → (b : Bool) × (e : Control) × (tried (journal_commit r.transition_id) d ≡ (ok b, e))
      × ((s : Option (Dict Intent) × List Intent)
          → TransitionsDone tasks ids s c
          → If b (TransitionsDone tasks ids (done_with r s) e))
commit_step tasks ids r c d w = elim (journal_commit-cases r.transition_id d) [
  | inr (x, fs, p) ↦ (false, drawn fs d, rw p refl, λ s h. tt)
  | inl (fs, p) ↦ (
    true,
    drawn fs (closed r.transition_id d),
    rw p refl,
    λ s h.
        let g =
          append-scan d.journal r.transition_id s.0
            (ap (λ (f : JournalFile). f.torn) w.journal_kept ∙ h.2)
            (ap (λ (f : JournalFile). scan [] f.lines) w.journal_kept ∙ h.3) in
        (
          subst (λ x. Keyed x × AllSettled tasks x) (sym w.tasks_kept) h.0,
          w.decided_kept ids h.1,
          g.0,
          g.1,
          (w.withdrawn, w.withdrawn_kept s.1 h.4),
        ),
  )
]

pub reconcile_transition-Moves :
    (tasks ids : List String) (r : Intent)
    → Moves (TransitionsDone tasks ids) (done_with r) (reconcile_transition r)
unfolding reconcile_transition
reconcile_transition-Moves tasks ids r c =
    go (withdraw_approval r.approval_id c) (withdraw_approval-Commits r.approval_id c)
  where
    go :
        (x : Result (Unit {0}) × Control)
        → Commits r.approval_id c x
        → (b : Bool) × (e : Control) × (then_commit (journal_commit r.transition_id) x.0 x.1
            ≡ (ok b, e))
          × ((s : Option (Dict Intent) × List Intent)
              → TransitionsDone tasks ids s c
              → If b (TransitionsDone tasks ids (done_with r s) e))
    go (ok u, d) w = commit_step tasks ids r c d w
    go (err approval_not_found, d) w = commit_step tasks ids r c d w
    go (err e, d) w = (false, d, refl, λ s h. tt)
