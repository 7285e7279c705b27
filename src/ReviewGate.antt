-- ===== src/ReviewGate.antt =====
-- pico-legacy-runtime/pico/evaluation/review_gate.py: the deterministic gate that a finished run
-- passes. The budgets are Python's integers. `render` is the text of a round's signature, with the
-- digest of the sorted tool keys in it: hashing, JSON text and sorting are the interpreter's.
pub mod Budget
pub mod Verdict
pub mod Completion
use thread_forge.Prelude.{
  ℕ, zero, suc, ◌-◌, ◌*◌, String, Bool, true, false, Option, none, some, List, [], ◌∷◌, length,
  ◌||◌, ◌&&◌, not, if◌then◌else◌, ◌==◌, contains, as_set, ltb, leb, eqb,
}
use thread_forge.Prelude.Int.{ℤ, pos, ◌+ℤ◌, le_int, min_int, lt_int}
use thread_forge.Json.{Python, Json, Items, Fields, text, bool, arr, nil, find_field}
use thread_forge.TaskState.Fields.{TaskState, default_checklist}

pub data ReviewStatus : Type 0 where
  pass : ReviewStatus
  needs_fix : ReviewStatus

pub record ReviewDecision : Type 0 where
  pub status : ReviewStatus
  pub reason : String
  pub budget_exhausted_convergence : Bool
  pub extended_budget : ℤ
  pub stagnation_rounds : ℕ
  pub last_round_signature : String

-- The caller's keyword arguments.
pub record Review : Type 0 where
  pub intent : String
  pub step_budget : ℤ
  pub coordinator_steps_used : ℤ
  pub step_budget_explicit : Bool
  pub hard_cap : ℤ
  pub fix_attempts : ℕ
  pub previous_signature : String
  pub previous_stagnation_rounds : ℕ

unfoldable pub checklist_remaining : TaskState → ℕ
unfolding as_set
checklist_remaining s = length s.checklist - length (as_set s.completed_items)

abbrev is_success : Option Json → Bool
is_success (some (text s)) = s == "ok" || s == "partial_success"
is_success _ = false

abbrev is_written : Python → Option Json → Bool
is_written py none = false
is_written py (some v) = not (py.to_bool v)

unfoldable pub has_evidence : List Fields → Bool
has_evidence [] = false
has_evidence (e ∷ es) = is_success (find_field e "status") || has_evidence es

unfoldable pub has_write_evidence : Python → List Fields → Bool
has_write_evidence py [] = false
has_write_evidence py (e ∷ es) =
    (is_success (find_field e "status") && is_written py (find_field e "read_only"))
    || has_write_evidence py es

unfoldable pub all_default : List String → Bool
all_default [] = true
all_default (x ∷ xs) = contains x default_checklist && all_default xs

abbrev is_empty : List String → Bool
is_empty [] = true
is_empty (x ∷ xs) = false

unfoldable pub checklist_is_explicit : TaskState → Bool
unfolding all_default
checklist_is_explicit s = not (is_empty s.checklist) && not (all_default s.checklist)

abbrev or_empty_text : Python → Option Json → String
or_empty_text py none = ""
or_empty_text py (some v) = py.to_text v

abbrev or_nil : Option Json → Items
or_nil (some (arr xs)) = xs
or_nil _ = nil

unfoldable pub tool_keys : Python → List Fields → List (String × Items)
tool_keys py [] = []
tool_keys py (e ∷ es) =
    (or_empty_text py (find_field e "tool_name"), or_nil (find_field e "relative_paths"))
    ∷ tool_keys py es

-- REVIEW_EXTENSION_FACTORS.get(fix_attempts + 1, 0)
abbrev pub extension_factor : ℕ → ℕ
extension_factor zero = 3
extension_factor (suc zero) = 2
extension_factor (suc (suc zero)) = 1
extension_factor (suc (suc (suc n))) = 0

abbrev pub stagnation_rounds_limit : ℕ
stagnation_rounds_limit = 2

abbrev pub mutating : List String
mutating = "write_file" ∷ "patch_file" ∷ "run_shell" ∷ []

-- The decision that the gate starts from.
abbrev fresh : Review → ReviewDecision
fresh q = record {
  status = needs_fix;
  reason = "";
  budget_exhausted_convergence = false;
  extended_budget = q.step_budget;
  stagnation_rounds = q.previous_stagnation_rounds;
  last_round_signature = q.previous_signature;
}

abbrev pub passed : String → ReviewDecision → ReviewDecision
passed reason d = record d { status = pass; reason = reason }

abbrev pub unfixed : String → ReviewDecision → ReviewDecision
unfixed reason d = record d { status = needs_fix; reason = reason }

abbrev pub converge : String → ReviewDecision → ReviewDecision
converge reason d = record d { status = pass; reason = reason; budget_exhausted_convergence = true }

-- `remaining_budget < 1`
unfoldable pub is_exhausted : Review → Bool
is_exhausted q = le_int q.step_budget q.coordinator_steps_used

unfoldable pub can_extend : TaskState → Review → Bool
can_extend s q =
    ltb 0 (extension_factor q.fix_attempts)
    && (ltb 0 (checklist_remaining s)
        && (lt_int (pos 0) q.hard_cap && lt_int q.step_budget q.hard_cap))

unfoldable pub exhausted : TaskState → Review → ReviewDecision
unfolding can_extend
exhausted s q =
    if q.step_budget_explicit
    then converge "explicit step budget exhausted; converged" (fresh q)
    else if can_extend s q
    then record (unfixed "budget extended for review fix" (fresh q)) {
      extended_budget =
          min_int q.hard_cap
            (q.step_budget +ℤ pos (checklist_remaining s * extension_factor q.fix_attempts));
    }
    else converge "review budget exhausted; converged" (fresh q)

unfoldable pub review_read_only : Python → TaskState → ReviewDecision → ReviewDecision
review_read_only py s d =
    if has_evidence s.evidence
    then passed "read-only evidence sufficient; converged" d
    else if not (py.strip s.final_answer == "")
    then passed "read-only answered directly without workspace evidence" d
    else unfixed "read-only task lacks current-run evidence" d

unfoldable pub checklist_ok : TaskState → Bool
checklist_ok s = not (checklist_is_explicit s) || eqb (checklist_remaining s) 0

unfoldable pub review_code_change : Python → TaskState → ReviewDecision → ReviewDecision
unfolding checklist_ok
review_code_change py s d =
    if has_write_evidence py s.evidence && checklist_ok s
    then passed "write evidence present and checklist complete" d
    else unfixed "change not verified; write evidence or checklist incomplete" d

-- An automatic task without write evidence.
unfoldable pub review_unwritten : Python → TaskState → ReviewDecision → ReviewDecision
review_unwritten py s d =
    if contains s.last_tool mutating
    then unfixed "write/shell attempted but no successful write evidence" d
    else if not (py.strip s.final_answer == "")
    then passed "auto task answered without workspace changes" d
    else unfixed "auto task lacks a final answer" d

-- The checks by intent.
unfoldable pub review_intent : Python → TaskState → String → ReviewDecision → ReviewDecision
unfolding review_read_only review_code_change review_unwritten
review_intent py s intent d =
    if intent == "read_only"
    then review_read_only py s d
    else if intent == "conversation"
    then passed "conversation has no workspace completion gate" d
    else if intent == "auto" && not (has_write_evidence py s.evidence)
    then review_unwritten py s d
    else review_code_change py s d

module _ (py : Python) (render : ℕ → ℕ → List (String × Items) → String) where
  unfoldable pub round_signature : TaskState → String
  unfolding tool_keys
  round_signature s =
      render (length s.evidence) (length s.completed_items) (tool_keys py s.evidence)

  unfoldable pub next_stagnation : TaskState → Review → ℕ
  unfolding round_signature
  next_stagnation s q =
      if round_signature s == q.previous_signature then suc q.previous_stagnation_rounds else 0

  -- The decision that holds the round's signature.
  abbrev pub observed_round : TaskState → Review → ReviewDecision
  observed_round s q = record (fresh q) {
    stagnation_rounds = next_stagnation s q;
    last_round_signature = round_signature s;
  }

  unfoldable pub run_review_gate : TaskState → Review → ReviewDecision
  unfolding is_exhausted exhausted next_stagnation review_intent
  run_review_gate s q =
      if is_exhausted q
      then exhausted s q
      else if leb stagnation_rounds_limit (next_stagnation s q)
      then converge "stagnation detected; converged" (observed_round s q)
      else review_intent py s q.intent (observed_round s q)
