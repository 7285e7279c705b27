-- ===== src/Repositories/Deleting.antt =====
-- `delete_many`: no task of a batch is deleted while one of them is active.
use thread_forge.Prelude.{
  String, ◌≡◌, refl, ap, sym, ◌++◌, ◌∙◌, true, false, none, some, List, [], ◌∷◌, inl, inr,
  Bool-cases, not, ◌==◌, arith,
}
use mathlib.Core.Option.{some-injective}
use thread_forge.Prelude.Dict.{get}
use thread_forge.Domain.{Task, Error, terminal, task_not_found, active_task_exists}
use thread_forge.Control.{Control, Result, Fault, continue, pure, ok, err, disk}
use thread_forge.Repositories.{
  get_task, read_task, get_task_for_owner, deletable, delete_many, skip_absent,
}
use thread_forge.Repositories.Steps.{drawn, get_task-cases}

get_task-absent :
    (id : String) (c : Control) → (get_task id c).0 ≡ err task_not_found → get c.tasks id ≡ none
unfolding get_task read_task disk
get_task-absent id c h = ground arith

deletable-tasks :
    (canonical : String → String) (ids : List String) (owner : String) (c : Control)
    → (deletable canonical ids owner c).1.tasks ≡ c.tasks
unfolding deletable get_task_for_owner
deletable-tasks canonical [] owner c = refl
deletable-tasks canonical (id ∷ ids) owner c = elim (get_task-cases id c) [
  | inr (e, fs, p) ↦
      rw p (skipped e (drawn fs c) refl (deletable-tasks canonical ids owner (drawn fs c)))
  | inl (t, q, (fs, p)) ↦ elim (Bool-cases (t.owner_id == canonical owner)) [
    | inr other ↦ rw (p, other) (deletable-tasks canonical ids owner (drawn fs c))
    | inl own ↦ elim (Bool-cases (not (terminal t.status))) [
      | inl active ↦ rw (p, own, active) refl
      | inr ended ↦
          rw (p, own, ended)
            (rest t (deletable canonical ids owner (drawn fs c))
              (deletable-tasks canonical ids owner (drawn fs c)))
    ]
  ]
]
  where
    skipped :
        (e : Error) (d : Control)
        → d.tasks ≡ c.tasks
        → (deletable canonical ids owner d).1.tasks ≡ d.tasks
        → (skip_absent (deletable canonical ids owner) e d).1.tasks ≡ c.tasks
    skipped task_not_found d s h = h ∙ s
    skipped e d s h = s

    rest :
        (t : Task) (x : Result (List Task) × Control)
        → x.1.tasks ≡ c.tasks
        → (continue x.0 (λ ts. pure (t ∷ ts)) x.1).1.tasks ≡ c.tasks
    rest t (ok ts, d) h = h
    rest t (err e, d) h = h

deletable-active :
    (canonical : String → String) (before after : List String) (id owner : String) (c : Control)
    (t : Task)
    → get c.tasks id ≡ some t
    → (t.owner_id == canonical owner) ≡ true
    → terminal t.status ≡ false
    → (e : Error) × ((deletable canonical (before ++ (id ∷ after)) owner c).0 ≡ err e)
unfolding deletable get_task_for_owner
deletable-active canonical [] after id owner c t stored own active = elim (get_task-cases id c) [
  | inr (e, fs, p) ↦
      (e, rw p (raised e (λ h. get_task-absent id c (ap (λ x. x.0) p ∙ ap err h)) (drawn fs c)))
  | inl (u, q, (fs, p)) ↦
      let s : u ≡ t = some-injective u t (sym q ∙ stored) in
      (active_task_exists, rw (p, s, own, active) refl)
]
  where
    raised :
        (e : Error)
        → (e ≡ task_not_found → get c.tasks id ≡ none)
        → (d : Control) → (skip_absent (deletable canonical after owner) e d).0 ≡ err e
    raised task_not_found absent d = let n = absent refl in cc
    raised e absent d = refl
deletable-active canonical (x ∷ before) after id owner c t stored own active =
    let again : (fs : List Fault)
        → (e : Error) × ((deletable canonical (before ++ (id ∷ after)) owner (drawn fs c)).0
            ≡ err e) =
      λ fs. deletable-active canonical before after id owner (drawn fs c) t stored own active in
    elim (get_task-cases x c) [
      | inr (e, fs, p) ↦ rw p (skipped e (drawn fs c) (again fs))
      | inl (u, q, (fs, p)) ↦ elim (Bool-cases (u.owner_id == canonical owner)) [
        | inr other ↦ rw (p, other) (again fs)
        | inl mine ↦ elim (Bool-cases (not (terminal u.status))) [
          | inl open_one ↦ rw (p, mine, open_one) (active_task_exists, refl)
          | inr ended ↦ let (e, h) = again fs in (e, rw (p, mine, ended, h) refl)
        ]
      ]
    ]
  where
    skipped :
        (e : Error) (d : Control)
        → (f : Error) × ((deletable canonical (before ++ (id ∷ after)) owner d).0 ≡ err f)
        → (f : Error) × ((skip_absent (deletable canonical (before ++ (id ∷ after)) owner) e d).0
            ≡ err f)
    skipped task_not_found d h = h
    skipped e d h = (e, refl)

-- A batch that names an active task of the owner, wherever in the batch it stands and whatever the
-- disk answers, is refused, and no task at all is deleted.
pub delete_many-active :
    (canonical : String → String) (before after : List String) (id owner : String) (c : Control)
    (t : Task)
    → get c.tasks id ≡ some t
    → (t.owner_id == canonical owner) ≡ true
    → terminal t.status ≡ false
    → (e : Error) × ((delete_many canonical (before ++ (id ∷ after)) owner c).0 ≡ err e)
      × ((delete_many canonical (before ++ (id ∷ after)) owner c).1.tasks ≡ c.tasks)
unfolding delete_many
delete_many-active canonical before after id owner c t stored own active =
    let ids = before ++ (id ∷ after) in
    let (e, p) = deletable-active canonical before after id owner c t stored own active in
    (e, rw p refl, rw p (deletable-tasks canonical ids owner c))
