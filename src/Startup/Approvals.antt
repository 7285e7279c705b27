-- ===== src/Startup/Approvals.antt =====
-- The loop over the approvals in `reconcile`.
use thread_forge.Prelude.{
  String, if◌then◌else◌, ◌≡◌, refl, Bool, true, false, Option, none, some, List, ◌∷◌, Bool-cases,
  inl, inr, arith, eq_iff,
}
use thread_forge.Prelude.Dict.{Dict, get, put, get-put}
use thread_forge.Domain.{ApprovalStatus, Approval, is_pending}
use thread_forge.Journal.{Intent}
use thread_forge.Control.{Control}
use thread_forge.Repositories.Steps.{drawn, put_approval, get_approval-cases, update_approval-cases}
use thread_forge.Startup.{is_live, reconcile_approval, set_approval_status}
use thread_forge.Startup.Loops.{Moves, All, All-map}
use thread_forge.Startup.Tasks.{TasksDone}

-- The approval is stored and has been decided.
abbrev pub is_decided : Option Approval → Bool
is_decided none = false
is_decided (some a) = if is_pending a.status then false else true

abbrev pub AllDecided : List String → Dict Approval → Type 0
AllDecided ids d = All (λ id. is_decided (get d id) ≡ true) ids

-- No call can be let through on the approval: there is none, or it is neither pending nor approved.
abbrev pub is_withdrawn : Option Approval → Bool
is_withdrawn none = true
is_withdrawn (some a) = if is_live a.status then false else true

abbrev pub AllWithdrawn : List Intent → Dict Approval → Type 0
AllWithdrawn rs d = All (λ (r : Intent). is_withdrawn (get d r.approval_id) ≡ true) rs

-- An approval that expires is decided and withdrawn, and the others stay as they are.
module _ (d : Dict Approval) (id : String) (a : Approval) where
  pub expired_decided :
      a.status ≡ ApprovalStatus.expired
      → (ids : List String) → AllDecided ids d
      → AllDecided ids (put d id a)
  expired_decided h ids all =
      All-map (λ j. is_decided (get d j) ≡ true) (λ j. is_decided (get (put d id a) j) ≡ true)
        (λ j p. rw (get-put d id j a) (ground (arith, h))) ids all

  pub expired_withdrawn :
      a.status ≡ ApprovalStatus.expired
      → (rs : List Intent) → AllWithdrawn rs d
      → AllWithdrawn rs (put d id a)
  expired_withdrawn h rs all =
      All-map (λ (r : Intent). is_withdrawn (get d r.approval_id) ≡ true)
        (λ (r : Intent). is_withdrawn (get (put d id a) r.approval_id) ≡ true)
        (λ r p. rw (get-put d id r.approval_id a) (ground (arith, h))) rs all

  pub expired_self : a.status ≡ ApprovalStatus.expired → get (put d id a) id ≡ some a
  expired_self h = ground (arith, get-put d id id a, eq_iff id id)

abbrev pub ApprovalsDone : List String → List String → Control → Type 0
ApprovalsDone tasks ids c = TasksDone tasks c × AllDecided ids c.approvals

pub reconcile_approval-Moves :
    (tasks : List String) (id : String)
    → Moves (ApprovalsDone tasks) (λ ids. id ∷ ids) (reconcile_approval id)
unfolding reconcile_approval
reconcile_approval-Moves tasks id c = elim (get_approval-cases id c) [
  | inr (e, fs, p) ↦ (false, drawn fs c, rw p refl, λ s h. tt)
  | inl (a, q, (fs, p)) ↦ elim (Bool-cases (is_pending a.status)) [
    | inr over ↦ (true, drawn fs c, rw (p, over) refl, λ s h. (h.0, (rw (q, over) refl, h.1)))
    | inl open' ↦
        elim (update_approval-cases id
          (set_approval_status ApprovalStatus.expired "expired" c.clock) (drawn fs c)) [
            | inr (e, fs', w) ↦ (false, drawn fs' c, rw (p, open', w) refl, λ s h. tt)
            | inl (b, q', (fs', w)) ↦
                let b' = set_approval_status ApprovalStatus.expired "expired" c.clock b in
                (
                  true,
                  drawn fs' (put_approval id b' c),
                  rw (p, open', w) refl,
                  λ s h. (
                    h.0,
                    (
                      rw (expired_self c.approvals id b' refl) refl,
                      expired_decided c.approvals id b' refl s h.1,
                    ),
                  ),
                )
          ]
  ]
]
