-- ===== src/TaskState/RoundTrip.antt =====
-- What `from_dict` reads back from the output of `to_dict`.
use thread_forge.Prelude.{
  String, ◌≡◌, refl, ap, Option, none, Option-cases, true, false, some, List, [], ◌∷◌, ◌==◌,
  if◌then◌else◌, Bool-cases, inl, inr,
}
use mathlib.Core.Option.{some-injective}
use thread_forge.Prelude.Int.{ℤ, pos, le_int, max_int-eq_right}
use thread_forge.Prelude.Dict.{get}
use thread_forge.Json.{
  Python, IsPython, num, texts, to_texts-texts, to_objects-objects, to_text_lists-text_lists,
}
use thread_forge.TaskState.Fields.{TaskState}
use thread_forge.TaskState.Codec.{to_dict, from_dict, not_blank}

-- No text of the list is blank.
abbrev pub NoBlank : Python → List String → Type 0
NoBlank py [] = Unit {0}
NoBlank py (x ∷ xs) = (py.strip x == "" ≡ false) × NoBlank py xs

-- The ranges that `from_dict` enforces, of the nine fields that have one.
pub record InRange (py : Python) (tools reads total revision talk input output errors : ℤ)
    (reasons : List String) : Type 0 where
  pub tool_limit : le_int (pos 1) tools ≡ true
  pub read_limit : le_int (pos 0) reads ≡ true
  pub total_limit : le_int (pos 1) total ≡ true
  pub plan_revision : le_int (pos 0) revision ≡ true
  pub talk_steps : le_int (pos 0) talk ≡ true
  pub input_tokens : le_int (pos 0) input ≡ true
  pub output_tokens : le_int (pos 0) output ≡ true
  pub error_attempts : le_int (pos 0) errors ≡ true
  pub replan_reasons : NoBlank py reasons

abbrev pub IsNormal : Python → TaskState → Type 0
IsNormal py s =
    InRange py s.max_tool_steps s.max_read_files s.max_total_steps s.plan_revision s.talk_steps
      s.input_tokens s.output_tokens s.error_attempts s.replan_reasons

not_blank-texts :
    (py : Python) → IsPython py → (xs : List String) → NoBlank py xs → not_blank py (texts xs) ≡ xs
unfolding not_blank texts
not_blank-texts py h [] b = refl
not_blank-texts py h (x ∷ xs) b = rw (h.text_of_text x, b.0, not_blank-texts py h xs b.1)

-- `int(x or 0)` is `x`, also where `x` is falsy.
pub or_zero :
    (py : Python)
    → IsPython py
    → (n : ℤ) → (if py.to_bool (num n) then some n else some (pos 0)) ≡ some n
or_zero py h n = elim (Bool-cases (py.to_bool (num n))) [
  | inl t ↦ rw t
  | inr f ↦ rw (f, h.zero_of_falsy n f)
]

-- A state in range is read back from its own dictionary, every field of it.
pub from_dict-to_dict :
    (py : Python) (s : TaskState) → IsPython py → IsNormal py s → from_dict py (to_dict s) ≡ some s
unfolding from_dict to_dict get
from_dict-to_dict py s h n = simp (
  h.int_of_num,
  h.text_of_text,
  h.bool_of_bool,
  or_zero py h,
  to_texts-texts py h,
  to_objects-objects,
  to_text_lists-text_lists py h,
  not_blank-texts py h s.replan_reasons n.replan_reasons,
  max_int-eq_right (pos 1) s.max_tool_steps n.tool_limit,
  max_int-eq_right (pos 0) s.max_read_files n.read_limit,
  max_int-eq_right (pos 1) s.max_total_steps n.total_limit,
  max_int-eq_right (pos 0) s.plan_revision n.plan_revision,
  max_int-eq_right (pos 0) s.talk_steps n.talk_steps,
  max_int-eq_right (pos 0) s.input_tokens n.input_tokens,
  max_int-eq_right (pos 0) s.output_tokens n.output_tokens,
  max_int-eq_right (pos 0) s.error_attempts n.error_attempts,
)

-- What identifies a run and its end is read back from the dictionary of any state.
pub record Identified (s t : TaskState) : Type 0 where
  pub run_id : t.run_id ≡ s.run_id
  pub task_id : t.task_id ≡ s.task_id
  pub status : t.status ≡ s.status
  pub stop_reason : t.stop_reason ≡ s.stop_reason
  pub final_answer : t.final_answer ≡ s.final_answer

abbrev identity_of : TaskState → String × String × String × String × String
identity_of s = (s.run_id, s.task_id, s.status, s.stop_reason, s.final_answer)

abbrev identity : Option TaskState → Option (String × String × String × String × String)
identity none = none
identity (some s) = some (identity_of s)

from_dict-identity :
    (py : Python) (s : TaskState)
    → IsPython py
    → identity (from_dict py (to_dict s)) ≡ some (identity_of s)
unfolding from_dict to_dict get
from_dict-identity py s h = simp (h.int_of_num, or_zero py h, h.text_of_text)

pub from_dict-Identified :
    (py : Python) (s : TaskState)
    → IsPython py
    → (t : TaskState) × (from_dict py (to_dict s) ≡ some t) × Identified s t
from_dict-Identified py s h = elim (Option-cases (from_dict py (to_dict s))) [
  | inl gone ↦ let e = rw gone at (from_dict-identity py s h) in cc
  | inr (t, e) ↦
      let same = some-injective _ _ (rw e at (from_dict-identity py s h)) in
      (
        t,
        e,
        record {
          run_id = ap (λ x. x.0) same;
          task_id = ap (λ x. x.1) same;
          status = ap (λ x. x.2) same;
          stop_reason = ap (λ x. x.3) same;
          final_answer = ap (λ x. x.4) same;
        },
      )
]
