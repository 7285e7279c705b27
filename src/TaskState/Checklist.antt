-- ===== src/TaskState/Checklist.antt =====
-- The completed items of a run's checklist, over any operations.
use thread_forge.Prelude.{
  String, ◌≡◌, refl, true, false, some, List, [], ◌∷◌, ◌++◌, ◌==◌, contains, arith, eq_iff, ◌||◌,
  Bool-cases, inl, inr,
}
use thread_forge.Json.{Python, Json}
use thread_forge.Prelude.Dict.{Dict}
use thread_forge.TaskState.Fields.{
  TaskState, gather_step, analyze_step, task_phases, status_completed, phase_final,
}
use thread_forge.TaskState.Progress
use thread_forge.TaskState.Progress.{add_item}
use thread_forge.TaskState.History.{
  Op, set_phase, begin_post_tool, finish_post_tool, model_usage, item, success, or_same, apply, run,
}

-- No text stands twice in the list.
abbrev pub Distinct : List String → Type 0
Distinct [] = Unit {0}
Distinct (x ∷ xs) = (contains x xs ≡ false) × Distinct xs

contains-append :
    (x : String) (xs ys : List String) → contains x (xs ++ ys) ≡ (contains x xs || contains x ys)
contains-append x [] ys = refl
contains-append x (y ∷ xs) ys = ground (arith, contains-append x xs ys)

Distinct-snoc :
    (x : String) (xs : List String) → contains x xs ≡ false → Distinct xs → Distinct (xs ++ x ∷ [])
Distinct-snoc x [] n d = (refl, tt)
Distinct-snoc x (y ∷ xs) n d = (
  ground (arith, contains-append y xs (x ∷ []), eq_iff y x, eq_iff x y),
  Distinct-snoc x xs (ground arith) d.1,
)

-- `ys` holds every item of `xs`, and none twice if `xs` holds none twice.
record Extends (xs ys : List String) : Type 0 where
  kept : (x : String) → contains x xs ≡ true → contains x ys ≡ true
  distinct : Distinct xs → Distinct ys

Extends-refl : (xs : List String) → Extends xs xs
Extends-refl xs = record { kept = λ x h. h; distinct = λ d. d }

Extends-trans : (xs ys zs : List String) → Extends xs ys → Extends ys zs → Extends xs zs
Extends-trans xs ys zs a b = record {
  kept = λ x h. b.kept x (a.kept x h);
  distinct = λ d. b.distinct (a.distinct d);
}

Extends-snoc : (x : String) (xs : List String) → contains x xs ≡ false → Extends xs (xs ++ x ∷ [])
Extends-snoc x xs n = record {
  kept = λ y h. rw (contains-append y xs (x ∷ []), h) refl;
  distinct = Distinct-snoc x xs n;
}

Extends-add_item : (x : String) (xs : List String) → Extends xs (add_item x xs)
Extends-add_item x xs = elim (Bool-cases (contains x xs)) [
  | inl e ↦ rw e (Extends-refl xs)
  | inr e ↦ rw e (Extends-snoc x xs e)
]

set_phase-Extends :
    (py : Python) (p n i : String) (t s : TaskState)
    → Extends s.completed_items t.completed_items
    → Extends s.completed_items (or_same (Progress.set_phase py p n i t) s).completed_items
unfolding Progress.set_phase
set_phase-Extends py p n i t s e =
    elim (Bool-cases (contains (py.upper (py.strip p)) task_phases)) [
      | inl ok ↦ rw ok (elim (Bool-cases (i == "")) [
        | inl b ↦ rw b e
        | inr b ↦ rw b (Extends-trans _ _ _ e (Extends-add_item i t.completed_items))
      ])
      | inr bad ↦ rw bad (Extends-refl _)
    ]

complete_item-Extends :
    (py : Python) (i : String) (s : TaskState)
    → Extends s.completed_items (Progress.complete_item py i s).completed_items
unfolding Progress.complete_item
complete_item-Extends py i s = elim (Bool-cases (contains (py.strip i) s.completed_items)) [
  | inl old ↦ elim (Bool-cases (py.strip i == "")) [
    | inl b ↦ rw b (Extends-refl _)
    | inr b ↦ elim (Bool-cases (contains (py.strip i) s.checklist)) [
      | inl c ↦ rw (b, c, old) (Extends-refl _)
      | inr c ↦ rw (b, c) (Extends-refl _)
    ]
  ]
  | inr new ↦ elim (Bool-cases (py.strip i == "")) [
    | inl b ↦ rw b (Extends-refl _)
    | inr b ↦ elim (Bool-cases (contains (py.strip i) s.checklist)) [
      | inl c ↦ rw (b, c, new) (Extends-snoc (py.strip i) s.completed_items new)
      | inr c ↦ rw (b, c) (Extends-refl _)
    ]
  ]
]

finish_post_tool-Extends :
    (py : Python) (d : String) (s : TaskState)
    → Extends s.completed_items
        (or_same (Progress.finish_post_tool_reasoning py d s) s).completed_items
unfolding Progress.finish_post_tool_reasoning
finish_post_tool-Extends py d s =
    let both =
      Extends-trans _ _ _ (Extends-add_item gather_step s.completed_items)
        (Extends-add_item analyze_step (add_item gather_step s.completed_items)) in
    elim (Bool-cases (d == "final")) [
      | inl e ↦ rw e (set_phase-Extends py _ _ _ _ s both)
      | inr e ↦ rw e (set_phase-Extends py _ _ _ _ s both)
    ]

model_usage-items :
    (py : Python) (d : Dict Json) (s : TaskState)
    → (Progress.record_model_usage py d s).0.completed_items ≡ s.completed_items
unfolding Progress.record_model_usage
model_usage-items py d s = ground arith

module _ (py : Python) (sorted : List String → List String) where
  apply-Extends :
      (o : Op) (s : TaskState) → Extends s.completed_items (apply py sorted o s).completed_items
  unfolding apply Progress.begin_post_tool_reasoning Progress.record_read_file
      Progress.record_attempt Progress.record_sandbox_violation
      Progress.record_malformed_output_recovered Progress.record_talk Progress.record_tool
      Progress.record_error Progress.record_evidence Progress.record_affected_paths Progress.stop
      Progress.finish_success
  apply-Extends (set_phase p n i) s = set_phase-Extends py p n i s s (Extends-refl _)
  apply-Extends (begin_post_tool t) s = set_phase-Extends py _ _ _ _ s (Extends-refl _)
  apply-Extends (finish_post_tool d) s = finish_post_tool-Extends py d s
  apply-Extends (model_usage d) s = rw (model_usage-items py d s) (Extends-refl _)
  apply-Extends (item i) s = complete_item-Extends py i s
  apply-Extends (success a) s = set_phase-Extends py _ _ _ _ s (Extends-refl _)
  apply-Extends o s = Extends-refl _

  run-Extends :
      (os : List Op) (s : TaskState)
      → Extends s.completed_items (run py sorted os s).completed_items
  unfolding run
  run-Extends [] s = Extends-refl _
  run-Extends (o ∷ os) s =
      Extends-trans _ _ _ (apply-Extends o s) (run-Extends os (apply py sorted o s))

-- Whatever the operations, no completed item is taken back.
pub run-completed_items :
    (py : Python) (sorted : List String → List String) (os : List Op) (s : TaskState) (x : String)
    → contains x s.completed_items ≡ true
    → contains x (run py sorted os s).completed_items ≡ true
run-completed_items py sorted os s x h = (run-Extends py sorted os s).kept x h

-- Whatever the operations, from a list without repetitions no completed item is recorded twice.
pub run-Distinct :
    (py : Python) (sorted : List String → List String) (os : List Op) (s : TaskState)
    → Distinct s.completed_items
    → Distinct (run py sorted os s).completed_items
run-Distinct py sorted os s h = (run-Extends py sorted os s).distinct h

-- A successful finish, where the interpreter leaves the phase's name as it is: the run is completed
-- with its answer, in the last phase, and owes no reasoning about a tool; the counters, the limits
-- and the completed items stay.
pub finish_success_lem :
    (py : Python) (answer : String) (s : TaskState)
    → py.upper (py.strip phase_final) ≡ phase_final
    → (t : TaskState) × (Progress.finish_success py answer s ≡ some t)
      × (t.status ≡ status_completed)
      × (t.stop_reason ≡ "final_answer_returned")
      × (t.final_answer ≡ answer)
      × (t.phase ≡ phase_final)
      × (t.requires_post_tool_reasoning ≡ false)
      × (t.tool_steps ≡ s.tool_steps)
      × (t.max_total_steps ≡ s.max_total_steps)
      × (t.completed_items ≡ s.completed_items)
unfolding Progress.finish_success Progress.set_phase
finish_success_lem py answer s h = (
  record s {
    status = status_completed;
    stop_reason = "final_answer_returned";
    final_answer = answer;
    phase = phase_final;
    requires_post_tool_reasoning = false;
    next_step = "Task complete";
  },
  rw h refl,
  refl,
  refl,
  refl,
  refl,
  refl,
  refl,
  refl,
  refl,
)
