-- ===== src/Repositories/Steps.antt =====
-- What each repository operation does to the state, case by case: it succeeds and writes its one
-- record, or raises and changes nothing but the pending answers of the disk.
use thread_forge.Prelude.{
  ℕ, String, Bool, ◌≡◌, ◌≢◌, refl, false, Option, some, List, none, [], true, ◌∷◌, ◌⊎◌, inl, inr,
  Bool-cases, Option-cases, arith,
}
use thread_forge.Prelude.Dict.{get, put}
use thread_forge.Domain.{
  Task, Approval, Error, task_not_found, approval_not_found, record_not_found, record_unavailable,
  record_corrupted, stale_generation,
}
use thread_forge.Control.{Control, Exec, Fault, fine, unavailable, corrupted, ok, err, disk, draw}
use thread_forge.Repositories
use thread_forge.Repositories.{
  get_approval, read_approval, get_task, update_task, read_task, write_task,
}

abbrev pub drawn : List Fault → Control → Control
drawn fs c = record c { faults = fs }

-- The action raises, and only the answers of the disk are used up.
abbrev pub Fails : {A : Type 0} → Exec A → Control → Type 0
Fails m c = (e : Error) × (fs : List Fault) × (m c ≡ (err e, record c { faults = fs }))

-- The action returns `a` in the state `f c`, but for the answers of the disk.
abbrev pub Does : {A : Type 0} → Exec A → Control → A → (Control → Control) → Type 0
Does m c a f = (fs : List Fault) × (m c ≡ (ok a, record (f c) { faults = fs }))

pub disk-cases : (c : Control) → Does disk c tt (λ s. s) ⊎ Fails disk c
unfolding disk
disk-cases c = go c.faults
  where
    go : (l : List Fault) → Does (draw l) c tt (λ s. s) ⊎ Fails (draw l) c
    go [] = inl ([], refl)
    go (fine ∷ fs) = inl (fs, refl)
    go (unavailable ∷ fs) = inr (record_unavailable, fs, refl)
    go (corrupted ∷ fs) = inr (record_corrupted, fs, refl)

pub read_task-cases :
    (id : String) (c : Control)
    → ((t : Task) × (get c.tasks id ≡ some t) × Does (Repositories.read_task id) c t (λ s. s))
      ⊎ Fails (Repositories.read_task id) c
unfolding Repositories.read_task
read_task-cases id c = elim (disk-cases c) [
  | inr (e, fs, p) ↦ inr (e, fs, rw p)
  | inl (fs, p) ↦ elim (Option-cases (get c.tasks id)) [
    | inl n ↦ inr (record_not_found, fs, rw (p, n) refl)
    | inr (t, s) ↦ inl (t, s, (fs, rw (p, s) refl))
  ]
]

abbrev pub put_task : String → Task → Control → Control
put_task id t c = record c { tasks = put c.tasks id t }

abbrev pub put_approval : String → Approval → Control → Control
put_approval id a c = record c { approvals = put c.approvals id a }

pub write_task-cases :
    (id : String) (t : Task) (c : Control)
    → Does (Repositories.write_task id t) c tt (put_task id t)
      ⊎ Fails (Repositories.write_task id t) c
unfolding Repositories.write_task
write_task-cases id t c = elim (disk-cases c) [
  | inl (fs, p) ↦ inl (fs, rw p refl)
  | inr (e, fs, p) ↦ inr (e, fs, rw p refl)
]

pub get_task-cases :
    (id : String) (c : Control)
    → ((t : Task) × (get c.tasks id ≡ some t) × Does (Repositories.get_task id) c t (λ s. s))
      ⊎ Fails (Repositories.get_task id) c
unfolding Repositories.get_task
get_task-cases id c = elim (read_task-cases id c) [
  | inl (t, g, (fs, p)) ↦ inl (t, g, (fs, rw p refl))
  | inr (e, fs, p) ↦ inr (Repositories.not_found_as task_not_found e, fs, rw p refl)
]

-- The record that `update` writes.
abbrev pub updated : (Task → Task) → Task → Control → Task
updated f t c = let t' = f t in record t' { updated_at = c.clock }

pub update_task-cases :
    (id : String) (f : Task → Task) (g : Option ℕ) (c : Control)
    → ((t : Task) × (get c.tasks id ≡ some t)
        × (Repositories.is_stale g t ≡ false)
        × Does (Repositories.update_task id f g) c (updated f t c) (put_task id (updated f t c)))
      ⊎ Fails (Repositories.update_task id f g) c
unfolding Repositories.update_task
update_task-cases id f g c = elim (read_task-cases id c) [
  | inr (e, fs, p) ↦ inr (e, fs, rw p refl)
  | inl (t, q, (fs, p)) ↦ elim (Bool-cases (Repositories.is_stale g t)) [
    | inl s ↦ inr (stale_generation, fs, rw (p, s) refl)
    | inr s ↦ elim (write_task-cases id (updated f t c) (record c { faults = fs })) [
      | inl (fs', w) ↦ inl (t, q, s, (fs', rw (p, s, w) refl))
      | inr (e, fs', w) ↦ inr (e, fs', rw (p, s, w) refl)
    ]
  ]
]

pub read_approval-cases :
    (id : String) (c : Control)
    → ((a : Approval) × (get c.approvals id ≡ some a)
        × Does (Repositories.read_approval id) c a (λ s. s))
      ⊎ Fails (Repositories.read_approval id) c
unfolding Repositories.read_approval
read_approval-cases id c = elim (disk-cases c) [
  | inr (e, fs, p) ↦ inr (e, fs, rw p)
  | inl (fs, p) ↦ elim (Option-cases (get c.approvals id)) [
    | inl n ↦ inr (record_not_found, fs, rw (p, n) refl)
    | inr (a, s) ↦ inl (a, s, (fs, rw (p, s) refl))
  ]
]

pub write_approval-cases :
    (id : String) (a : Approval) (c : Control)
    → Does (Repositories.write_approval id a) c tt (put_approval id a)
      ⊎ Fails (Repositories.write_approval id a) c
unfolding Repositories.write_approval
write_approval-cases id a c = elim (disk-cases c) [
  | inl (fs, p) ↦ inl (fs, rw p refl)
  | inr (e, fs, p) ↦ inr (e, fs, rw p refl)
]

pub get_approval-cases :
    (id : String) (c : Control)
    → ((a : Approval) × (get c.approvals id ≡ some a)
        × Does (Repositories.get_approval id) c a (λ s. s))
      ⊎ Fails (Repositories.get_approval id) c
unfolding Repositories.get_approval
get_approval-cases id c = elim (read_approval-cases id c) [
  | inl (a, g, (fs, p)) ↦ inl (a, g, (fs, rw p refl))
  | inr (e, fs, p) ↦ inr (Repositories.not_found_as approval_not_found e, fs, rw p refl)
]

pub update_approval-cases :
    (id : String) (f : Approval → Approval) (c : Control)
    → ((a : Approval) × (get c.approvals id ≡ some a)
        × Does (Repositories.update_approval id f) c (f a) (put_approval id (f a)))
      ⊎ Fails (Repositories.update_approval id f) c
unfolding Repositories.update_approval
update_approval-cases id f c = elim (read_approval-cases id c) [
  | inr (e, fs, p) ↦ inr (e, fs, rw p refl)
  | inl (a, q, (fs, p)) ↦ elim (write_approval-cases id (f a) (record c { faults = fs })) [
    | inl (fs', w) ↦ inl (a, q, (fs', rw (p, w) refl))
    | inr (e, fs', w) ↦ inr (e, fs', rw (p, w) refl)
  ]
]

-- An approval is reported as absent only if it is.
pub get_approval-absent :
    (id : String) (c : Control)
    → (get_approval id c).0 ≡ err approval_not_found
    → get c.approvals id ≡ none
unfolding get_approval read_approval disk
get_approval-absent id c h = ground arith

pub create_approval-cases :
    (a : Approval) (c : Control)
    → Does (Repositories.create_approval a) c a (put_approval a.approval_id a)
      ⊎ Fails (Repositories.create_approval a) c
unfolding Repositories.create_approval
create_approval-cases a c = elim (Option-cases (get c.approvals a.approval_id)) [
  | inr (old, q) ↦ inr (record_corrupted, c.faults, rw q refl)
  | inl q ↦ elim (write_approval-cases a.approval_id a c) [
    | inl (fs, p) ↦ inl (fs, rw (q, p) refl)
    | inr (e, fs, p) ↦ inr (e, fs, rw (q, p) refl)
  ]
]

abbrev pub stale_record : Option ℕ → Option Task → Bool
stale_record g none = false
stale_record g (some t) = Repositories.is_stale g t

-- An update is refused as stale only if the stored task has another generation.
pub update_task-stale :
    (id : String) (f : Task → Task) (g : Option ℕ) (c : Control)
    → (update_task id f g c).0 ≡ err stale_generation
    → stale_record g (get c.tasks id) ≡ true
unfolding update_task read_task write_task disk
update_task-stale id f g c h = ground arith

pub get_task-stale : (id : String) (c : Control) → (get_task id c).0 ≢ err stale_generation
unfolding get_task read_task disk
get_task-stale id c h = ground arith
