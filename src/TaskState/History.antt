-- ===== src/TaskState/History.antt =====
-- Every state that a run can reach: `create`, then any operations in any order.
use thread_forge.Prelude.{
  String, ◌≡◌, refl, Bool, true, Option, none, some, List, [], ◌∷◌, ◌==◌, ◌&&◌, not, contains,
  arith, Bool-cases, Option-cases, inl, inr,
}
use thread_forge.Prelude.Int.{ℤ, pos, le_int, le-max_int, nonneg-+ℤ}
use thread_forge.Prelude.Dict.{Dict}
use thread_forge.Json.{Json, Fields, Python, IsPython}
use thread_forge.TaskState.Fields.{TaskState, new_state, task_phases}
use thread_forge.TaskState.Codec.{to_dict, from_dict}
use thread_forge.TaskState.RoundTrip.{IsNormal, from_dict-to_dict}
use thread_forge.TaskState.Progress

pub data Op : Type 0 where
  set_phase : String → String → String → Op
  begin_post_tool finish_post_tool : String → Op
  read_file attempt sandbox_violation malformed talk : Op
  tool : String → Op
  model_usage : Dict Json → Op
  error : String → String → Bool → ℤ → Op
  evidence : Fields → String → String → Op
  item : String → Op
  affected_paths : List String → Op
  stop : String → String → String → Op
  success : String → Op

-- A call that raises before it assigns anything leaves the object alone.
abbrev pub or_same : Option TaskState → TaskState → TaskState
or_same none s = s
or_same (some t) s = t

module _ (py : Python) (sorted : List String → List String) where
  unfoldable pub apply : Op → TaskState → TaskState
  apply (set_phase p n i) s = or_same (Progress.set_phase py p n i s) s
  apply (begin_post_tool t) s = or_same (Progress.begin_post_tool_reasoning py t s) s
  apply (finish_post_tool d) s = or_same (Progress.finish_post_tool_reasoning py d s) s
  apply read_file s = Progress.record_read_file s
  apply attempt s = Progress.record_attempt s
  apply sandbox_violation s = Progress.record_sandbox_violation s
  apply malformed s = Progress.record_malformed_output_recovered s
  apply talk s = Progress.record_talk s
  apply (tool n) s = Progress.record_tool n s
  apply (model_usage d) s = (Progress.record_model_usage py d s).0
  apply (error st c r a) s = Progress.record_error st c r a s
  apply (evidence e i n) s = Progress.record_evidence e i n s
  apply (item i) s = Progress.complete_item py i s
  apply (affected_paths ps) s = Progress.record_affected_paths py sorted ps s
  apply (stop r st a) s = Progress.stop r st a s
  apply (success a) s = or_same (Progress.finish_success py a s) s

  unfoldable pub run : List Op → TaskState → TaskState
  run [] s = s
  run (o ∷ os) s = run os (apply o s)

create-IsNormal :
    (py : Python) (id task request : String) (tools reads : ℤ) (total : Option ℤ)
    (session workspace : String)
    → IsNormal py (Progress.create id task request tools reads total session workspace)
unfolding Progress.create new_state
create-IsNormal py id task request tools reads total session workspace = record {
  tool_limit = le-max_int (pos 1) tools;
  read_limit = le-max_int (pos 0) reads;
  total_limit = le-max_int (pos 1) _;
  plan_revision = refl;
  talk_steps = refl;
  input_tokens = refl;
  output_tokens = refl;
  error_attempts = refl;
  replan_reasons = tt;
}

set_phase-IsNormal :
    (py : Python) (p n i : String) (t s : TaskState)
    → IsNormal py t
    → IsNormal py s
    → IsNormal py (or_same (Progress.set_phase py p n i t) s)
unfolding Progress.set_phase
set_phase-IsNormal py p n i t s ht hs =
    elim (Bool-cases (contains (py.upper (py.strip p)) task_phases)) [
      | inl e ↦ rw e ht
      | inr e ↦ rw e hs
    ]

usage-nonneg :
    (py : Python) (d : Dict Json) (k : String) (n : ℤ)
    → Progress.usage py d k ≡ some n
    → le_int (pos 0) n ≡ true
unfolding Progress.usage
usage-nonneg py d k n h = grind (arith, le-max_int)

finish_post_tool-IsNormal :
    (py : Python) (d : String) (s : TaskState)
    → IsNormal py s
    → IsNormal py (or_same (Progress.finish_post_tool_reasoning py d s) s)
unfolding Progress.finish_post_tool_reasoning
finish_post_tool-IsNormal py d s h = elim (Bool-cases (d == "final")) [
  | inl e ↦ rw e (set_phase-IsNormal py _ _ _ _ s h h)
  | inr e ↦ rw e (set_phase-IsNormal py _ _ _ _ s h h)
]

module _ (py : Python) (s : TaskState) (h : IsNormal py s) where
  with_tokens :
      {i o : ℤ}
      → le_int (pos 0) i ≡ true
      → le_int (pos 0) o ≡ true
      → IsNormal py (record s { input_tokens = i; output_tokens = o })
  with_tokens hi ho = record {
    tool_limit = h.tool_limit;
    read_limit = h.read_limit;
    total_limit = h.total_limit;
    plan_revision = h.plan_revision;
    talk_steps = h.talk_steps;
    input_tokens = hi;
    output_tokens = ho;
    error_attempts = h.error_attempts;
    replan_reasons = h.replan_reasons;
  }

  with_talk_errors :
      {t e : ℤ}
      → le_int (pos 0) t ≡ true
      → le_int (pos 0) e ≡ true
      → IsNormal py (record s { talk_steps = t; error_attempts = e })
  with_talk_errors ht he = record {
    tool_limit = h.tool_limit;
    read_limit = h.read_limit;
    total_limit = h.total_limit;
    plan_revision = h.plan_revision;
    talk_steps = ht;
    input_tokens = h.input_tokens;
    output_tokens = h.output_tokens;
    error_attempts = he;
    replan_reasons = h.replan_reasons;
  }

  model_usage-IsNormal : (d : Dict Json) → IsNormal py (Progress.record_model_usage py d s).0
  unfolding Progress.record_model_usage
  model_usage-IsNormal d = elim (Option-cases (Progress.usage py d "input_tokens")) [
    | inl e ↦ rw (e, Progress.record_model_usage) h
    | inr (i, e) ↦
        let hi = nonneg-+ℤ s.input_tokens i h.input_tokens (usage-nonneg py d _ i e) in
        elim (Option-cases (Progress.usage py d "output_tokens")) [
          | inl e' ↦ rw (e, e', Progress.record_model_usage) (with_tokens hi h.output_tokens)
          | inr (o, e') ↦
              rw (e, e', Progress.record_model_usage)
                (with_tokens hi
                  (nonneg-+ℤ s.output_tokens o h.output_tokens (usage-nonneg py d _ o e')))
        ]
  ]

  complete_item-IsNormal : (i : String) → IsNormal py (Progress.complete_item py i s)
  unfolding Progress.complete_item
  complete_item-IsNormal i =
      elim (Bool-cases (
        not (py.strip i == "")
        && (contains (py.strip i) s.checklist && not (contains (py.strip i) s.completed_items)))) [
          | inl e ↦ rw e h
          | inr e ↦ rw e h
        ]

module _ (py : Python) (sorted : List String → List String) where
  apply-IsNormal : (o : Op) (s : TaskState) → IsNormal py s → IsNormal py (apply py sorted o s)
  unfolding apply Progress.begin_post_tool_reasoning Progress.record_read_file
      Progress.record_attempt Progress.record_sandbox_violation
      Progress.record_malformed_output_recovered Progress.record_talk Progress.record_tool
      Progress.record_error Progress.record_evidence Progress.record_affected_paths Progress.stop
      Progress.finish_success
  apply-IsNormal (set_phase p x i) s n = set_phase-IsNormal py p x i s s n n
  apply-IsNormal (begin_post_tool t) s n = set_phase-IsNormal py _ _ _ _ s n n
  apply-IsNormal (finish_post_tool d) s n = finish_post_tool-IsNormal py d s n
  apply-IsNormal (model_usage d) s n = model_usage-IsNormal py s n d
  apply-IsNormal talk s n =
      with_talk_errors py s n (nonneg-+ℤ s.talk_steps (pos 1) n.talk_steps refl) n.error_attempts
  apply-IsNormal (error st c r a) s n = with_talk_errors py s n n.talk_steps (le-max_int (pos 0) a)
  apply-IsNormal (item i) s n = complete_item-IsNormal py s n i
  apply-IsNormal (success a) s n = set_phase-IsNormal py _ _ _ _ s n n
  apply-IsNormal o s n = n

  run-IsNormal : (os : List Op) (s : TaskState) → IsNormal py s → IsNormal py (run py sorted os s)
  unfolding run
  run-IsNormal [] s n = n
  run-IsNormal (o ∷ os) s n = run-IsNormal os (apply py sorted o s) (apply-IsNormal o s n)

-- After `create` and any sequence of the operations of TaskState, the state is read back from its
-- dictionary, every field of it. An assignment to a field from outside of the class is no such operation.
pub run-recoverable :
    (py : Python) (sorted : List String → List String) (id task request : String) (tools reads : ℤ)
    (total : Option ℤ) (session workspace : String) (os : List Op)
    → IsPython py
    → let s =
        run py sorted os (Progress.create id task request tools reads total session workspace) in
      from_dict py (to_dict s) ≡ some s
run-recoverable py sorted id task request tools reads total session workspace os h =
    from_dict-to_dict py _ h (
      run-IsNormal py sorted os _
        (create-IsNormal py id task request tools reads total session workspace))
