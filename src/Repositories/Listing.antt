-- ===== src/Repositories/Listing.antt =====
-- The listings of json_repositories.py, and the deletion of the approvals of a batch of tasks.
-- Records that are gone by the time they are read are skipped.
use thread_forge.Prelude.{
  ℕ, zero, suc, ◌+◌, ◌-◌, String, ◌≡◌, Bool, true, false, List, [], ◌∷◌, if◌then◌else◌, ◌==◌, ◌&&◌,
  length, not, contains, arith, Bool-cases, inl, inr, Option, none, some, Option-cases, ap, ◌∙◌,
  sym, refl,
}
use native.Mathlib.Numerals.{unary_clauses}
use thread_forge.Prelude.Dict.{Dict, get, remove}
use thread_forge.Domain.{Task, Error, run_not_found}
use thread_forge.Control.{
  Control, Exec, Result, continue, ok, err, ◌>>=◌, pure, raise, attempt, modify, disk, draw, gets,
  Fault, ◌>>◌,
}
use thread_forge.Repositories.{found, read_task, skip_missing, get_approval_for_owner}
use thread_forge.Repositories.Steps.{drawn, read_task-cases}

abbrev in_session : String → String → Task → Bool
in_session session owner t = t.session_id == session && t.owner_id == owner

-- len(tasks) < limit
abbrev with_room : ℕ → Task → List Task → List Task
with_room zero t ts = ts
with_room (suc room) t ts = t ∷ ts

abbrev turn_page : ℕ → Bool → Task → List Task × ℕ → List Task × ℕ
turn_page room true t (ts, total) = (with_room room t ts, total + 1)
turn_page room false t page = page

-- The loop of `list_for_session`, with the room that is left on the page.
unfoldable pub page_of : String → String → ℕ → List String → Exec (List Task × ℕ)
page_of session owner room [] = pure ([], 0)
page_of session owner room (id ∷ ids) = do
  r ← attempt (read_task id)
  elim r [
    | err e ↦ skip_missing (page_of session owner room ids) e
    | ok t ↦ do
      let hit = in_session session owner t
      page ← page_of session owner (if hit then room - 1 else room) ids
      pure (turn_page room hit t page)
  ]

unfoldable pub list_for_session :
    (String → String) → List String → String → String → ℕ → Exec (List Task × ℕ)
list_for_session canonical ids session owner limit = page_of session (canonical owner) limit ids

abbrev or_keep : Bool → Task → List Task → List Task
or_keep true t ts = t ∷ ts
or_keep false t ts = ts

unfoldable pub list_for_sessions :
    (String → String) → List String → List String → String → Exec (List Task)
list_for_sessions canonical [] sessions owner = pure []
list_for_sessions canonical (id ∷ ids) sessions owner = do
  r ← attempt (read_task id)
  elim r [
    | err e ↦ skip_missing (list_for_sessions canonical ids sessions owner) e
    | ok t ↦ do
      rest ← list_for_sessions canonical ids sessions owner
      pure (or_keep (contains t.session_id sessions && t.owner_id == canonical owner) t rest)
  ]

unfoldable pub get_by_run_for_owner : (String → String) → List String → String → String → Exec Task
get_by_run_for_owner canonical [] run owner = raise run_not_found
get_by_run_for_owner canonical (id ∷ ids) run owner = do
  r ← attempt (read_task id)
  elim r [
    | err e ↦ skip_missing (get_by_run_for_owner canonical ids run owner) e
    | ok t ↦
        if t.run_id == run && t.owner_id == canonical owner
        then pure t
        else get_by_run_for_owner canonical ids run owner
  ]

-- ids[offset : offset + limit]
unfoldable pub page_ids : ℕ → ℕ → List String → List String
page_ids offset limit [] = []
page_ids (suc offset) limit (id ∷ ids) = page_ids offset limit ids
page_ids zero zero (id ∷ ids) = []
page_ids zero (suc limit) (id ∷ ids) = id ∷ page_ids zero limit ids

-- The loop of `list`.
unfoldable pub read_each : List String → Exec (List Task)
read_each [] = pure []
read_each (id ∷ ids) = do
  r ← attempt (read_task id)
  elim r [ err e ↦ skip_missing (read_each ids) e | ok t ↦ do ts ← read_each ids; pure (t ∷ ts) ]

-- `list`
unfoldable pub list_tasks : ℕ → ℕ → List String → Exec (List Task × ℕ)
list_tasks limit offset ids = do ts ← read_each (page_ids offset limit ids); pure (ts, length ids)

-- `except ApprovalNotFoundError: continue`
abbrev skip_unknown : {A : Type 0} → Exec A → Error → Exec A
skip_unknown skip Error.approval_not_found = skip
skip_unknown skip e = raise e

-- `delete_for_tasks` of the approval repository, with `unlink(missing_ok=True)`.
unfoldable pub delete_for_tasks :
    (String → String) → List String → List String → String → Exec (List String)
delete_for_tasks canonical [] tasks owner = pure []
delete_for_tasks canonical (id ∷ ids) tasks owner = do
  r ← attempt (get_approval_for_owner canonical id owner)
  elim r [
    | err e ↦ skip_unknown (delete_for_tasks canonical ids tasks owner) e
    | ok a ↦
        if not (contains a.task_id tasks) then delete_for_tasks canonical ids tasks owner else do
          disk
          modify (λ c. record c { approvals = remove c.approvals a.approval_id })
          removed ← delete_for_tasks canonical ids tasks owner
          pure (a.approval_id ∷ removed)
  ]

abbrev when_in_session : String → String → Option Task → List Task → List Task
when_in_session session owner none ts = ts
when_in_session session owner (some t) ts = or_keep (in_session session owner t) t ts

-- The stored tasks of the session and of the owner, in the order of the listing.
abbrev pub matching : String → String → List String → Dict Task → List Task
matching session owner [] d = []
matching session owner (id ∷ ids) d =
    when_in_session session owner (get d id) (matching session owner ids d)

abbrev pub first : ℕ → List Task → List Task
first zero ts = []
first (suc n) [] = []
first (suc n) (t ∷ ts) = t ∷ first n ts

-- A page of these tasks: the first of them, up to the limit, and the number of all of them.
abbrev pub IsPage : List Task → ℕ → Result (List Task × ℕ) → Type 0
IsPage all limit (err e) = Unit {0}
IsPage all limit (ok (ts, total)) = (ts ≡ first limit all) × (total ≡ length all)

skip_missing-IsPage :
    (all rest : List Task) (limit : ℕ) (m : Exec (List Task × ℕ)) (d : Control) (e : Error)
    → IsPage rest limit (m d).0
    → (e ≡ Error.record_not_found → all ≡ rest)
    → IsPage all limit (skip_missing m e d).0
skip_missing-IsPage all rest limit m d Error.record_not_found h same = rw (same refl) h
skip_missing-IsPage all rest limit m d e h same = tt

-- A record is reported as absent only if it is.
read_task-absent :
    (id : String) (c : Control)
    → (read_task id c).0 ≡ err Error.record_not_found
    → get c.tasks id ≡ none
unfolding read_task disk
read_task-absent id c h = elim (Option-cases (get c.tasks id)) [
  | inl n ↦ n
  | inr (t, s) ↦ go c.faults t s h
]
  where
    go :
        (l : List Fault) (t : Task)
        → get c.tasks id ≡ some t
        → ((do draw l; x ← gets (λ (s : Control). get s.tasks id); found x) c).0
          ≡ err Error.record_not_found
        → get c.tasks id ≡ none
    go [] t s h = let h' = rw s at h in cc
    go (Fault.fine ∷ fs) t s h = let h' = rw s at h in cc
    go (Fault.unavailable ∷ fs) t s h = cc
    go (Fault.corrupted ∷ fs) t s h = cc

first_nil : (n : ℕ) → first n [] ≡ []
first_nil zero = refl
first_nil (suc n) = refl

turned :
    (room : ℕ) (t : Task) (all : List Task) (x : Result (List Task × ℕ) × Control)
    → IsPage all (room - 1) x.0
    → IsPage (t ∷ all) room (continue x.0 (λ page. pure (turn_page room true t page)) x.1).0
turned room t all (err e, d) h = tt
turned zero t all (ok (ts, total), d) (p, n) = (p, ground arith)
turned (suc room) t all (ok (ts, total), d) (p, n) =
    (ap (λ l. t ∷ l) (simp unary_clauses at p), ground arith)

passed :
    (room : ℕ) (t : Task) (all : List Task) (x : Result (List Task × ℕ) × Control)
    → IsPage all room x.0
    → IsPage all room (continue x.0 (λ page. pure (turn_page room false t page)) x.1).0
passed room t all (err e, d) h = tt
passed room t all (ok page, d) h = h

full :
    (n : ℕ) (t : Task) (all : List Task)
    → turn_page n true t (first (n - 1) all, length all) ≡ (first n (t ∷ all), length (t ∷ all))
full zero t all = ground arith
full (suc n) t all = simp unary_clauses refl

module _ (session owner : String) where
  page_of-IsPage :
      (room : ℕ) (ids : List String) (c : Control)
      → IsPage (matching session owner ids c.tasks) room (page_of session owner room ids c).0
  unfolding page_of
  page_of-IsPage room [] c = (sym (first_nil room), refl)
  page_of-IsPage room (id ∷ ids) c = elim (read_task-cases id c) [
    | inr (e, fs, p) ↦ rw p (
        skip_missing-IsPage (matching session owner (id ∷ ids) c.tasks)
          (matching session owner ids c.tasks) room (page_of session owner room ids) (drawn fs c) e
          (page_of-IsPage room ids (drawn fs c))
          (λ q.
            ap (λ x. when_in_session session owner x (matching session owner ids c.tasks))
              (read_task-absent id c (ap (λ x. x.0) p ∙ ap err q))))
    | inl (t, q, (fs, p)) ↦ elim (Bool-cases (in_session session owner t)) [
      | inl hit ↦
          rw (p, q, hit)
            (turned room t (matching session owner ids c.tasks)
              (page_of session owner (room - 1) ids (drawn fs c))
              (page_of-IsPage (room - 1) ids (drawn fs c)))
      | inr miss ↦
          rw (p, q, miss)
            (passed room t (matching session owner ids c.tasks)
              (page_of session owner room ids (drawn fs c)) (page_of-IsPage room ids (drawn fs c)))
    ]
  ]

  -- On a disk that does not fail, the page is read.
  page_of-calm :
      (room : ℕ) (ids : List String) (c : Control)
      → let all = matching session owner ids c.tasks in
        page_of session owner room ids (drawn [] c) ≡ (ok (first room all, length all), drawn [] c)
  unfolding page_of read_task disk
  page_of-calm room [] c = rw (first_nil room) refl
  page_of-calm room (id ∷ ids) c = elim (Option-cases (get c.tasks id)) [
    | inl n ↦ rw n (page_of-calm room ids c)
    | inr (t, q) ↦ elim (Bool-cases (in_session session owner t)) [
      | inr miss ↦ rw (q, miss, page_of-calm room ids c) refl
      | inl hit ↦
          rw (q, hit, page_of-calm (room - 1) ids c)
            (ap (λ (x : List Task × ℕ). (ok x, drawn [] c))
              (full room t (matching session owner ids c.tasks)))
    ]
  ]

-- A listing that succeeds holds, of the stored tasks of the session and of the owner in the order of the files,
-- the first up to the limit, and counts all of them. It succeeds wherever the disk answers.
pub list_for_session-IsPage :
    (canonical : String → String) (ids : List String) (session owner : String) (limit : ℕ)
    (c : Control)
    → let all = matching session (canonical owner) ids c.tasks in
      IsPage all limit (list_for_session canonical ids session owner limit c).0
      × (list_for_session canonical ids session owner limit (drawn [] c)
          ≡ (ok (first limit all, length all), drawn [] c))
unfolding list_for_session
list_for_session-IsPage canonical ids session owner limit c = (
  page_of-IsPage session (canonical owner) limit ids c,
  page_of-calm session (canonical owner) limit ids c,
)
