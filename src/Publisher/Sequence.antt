-- ===== src/Publisher/Sequence.antt =====
-- The sequence numbers that a subscriber of one task sees.
use thread_forge.Prelude.{
  ℕ, ◌+◌, String, ◌≡◌, refl, ap, sym, ◌∙◌, List, [], ◌∷◌, ◌++◌, if◌then◌else◌, ◌==◌, arith, eq_iff,
  Bool-cases, inl, inr,
}
use thread_forge.Prelude.Dict.{Dict, get, get-put, get-remove}
use mathlib.Core.List.{append-nil, append_assoc}
use thread_forge.Publisher.{
  complete, Publisher, PublicEvent, Envelope, is_terminal_type, next_sequence, publish,
}

-- A call of `publish`.
pub record Call : Type 0 where
  pub task : String
  pub run : String
  pub kind : String
  pub payload : Dict String
  pub envelope : Envelope

unfoldable pub publish_all : List Call → Publisher → Publisher
publish_all [] p = p
publish_all (c ∷ cs) p = publish_all cs (publish c.task c.run c.kind c.payload c.envelope p)

-- The numbers of one task's events, in the order of sending.
unfoldable pub numbers : String → List PublicEvent → List ℕ
numbers task [] = []
numbers task (e ∷ es) =
    let rest = numbers task es in if e.task_id == task then e.sequence ∷ rest else rest

-- What they should be: each event's number is the count of the task's events since the start or
-- since its last terminal event.
unfoldable pub expected : String → ℕ → List Call → List ℕ
expected task n [] = []
expected task n (c ∷ cs) =
    let same = n ∷ expected task (if is_terminal_type c.kind then 0 else n + 1) cs in
    let other = expected task n cs in if c.task == task then same else other

numbers-append :
    (task : String) (xs ys : List PublicEvent)
    → numbers task (xs ++ ys) ≡ numbers task xs ++ numbers task ys
unfolding numbers
numbers-append task [] ys = refl
numbers-append task (e ∷ xs) ys = elim (Bool-cases (e.task_id == task)) [
  | inl h ↦ rw h (ap (λ (l : List ℕ). e.sequence ∷ l) (numbers-append task xs ys))
  | inr h ↦ rw h (numbers-append task xs ys)
]

abbrev pub next_of : String → Publisher → ℕ
next_of task p = next_sequence (get p.sequences task)

module _ (task : String) (c : Call) (p : Publisher) where
  abbrev after : Publisher
  after = publish c.task c.run c.kind c.payload c.envelope p

  next_of-publish : next_of task after ≡ (
      if c.task == task
      then (if is_terminal_type c.kind then 0 else next_of task p + 1)
      else next_of task p)
  unfolding publish
  next_of-publish = elim (Bool-cases (is_terminal_type c.kind)) [
    | inl h ↦ rw h (simp (get-remove, get-put) (ground (arith, eq_iff c.task task)))
    | inr h ↦ rw h (simp get-put (ground (arith, eq_iff c.task task)))
  ]

  numbers-publish :
      numbers task after.sent
      ≡ (if c.task == task then numbers task p.sent ++ next_of task p ∷ [] else numbers task p.sent)
  unfolding publish complete numbers
  numbers-publish = rw (numbers-append task p.sent) (elim (Bool-cases (c.task == task)) [
    | inl h ↦ rw (h, (eq_iff c.task task).0 h) refl
    | inr h ↦ rw h (append-nil (numbers task p.sent))
  ])

-- Whatever is published, the events of a task are numbered from its next number upwards without
-- gaps, and from 0 again after each of its terminal events; the other tasks' events do not matter.
pub publish_all-numbers :
    (task : String) (cs : List Call) (p : Publisher)
    → numbers task (publish_all cs p).sent
      ≡ numbers task p.sent ++ expected task (next_of task p) cs
unfolding publish_all expected
publish_all-numbers task [] p = sym (append-nil (numbers task p.sent))
publish_all-numbers task (c ∷ cs) p =
    publish_all-numbers task cs (publish c.task c.run c.kind c.payload c.envelope p)
    ∙ elim (Bool-cases (c.task == task)) [
      | inl h ↦ rw (numbers-publish task c p, next_of-publish task c p, h, append_assoc) refl
      | inr h ↦ rw (numbers-publish task c p, next_of-publish task c p, h) refl
    ]
