-- ===== src/ReviewGate/Budget.antt =====
-- How far the gate lets a run's budget grow.
use thread_forge.Prelude.{
  ℕ, suc, ◌*◌, String, ◌≡◌, refl, true, false, List, zero, leb, ltb, arith, Bool-cases, inl, inr,
  ◌⊎◌,
}
use thread_forge.Prelude.Int.{ℤ, pos, negsuc, le_int, min_int, lt_int, ◌+ℤ◌}
use thread_forge.Json.{Python, Items}
use thread_forge.TaskState.Fields.{TaskState}
use thread_forge.ReviewGate.{
  ReviewDecision, Review, needs_fix, run_review_gate, review_intent, review_code_change,
  review_unwritten, review_read_only, exhausted, is_exhausted, next_stagnation, observed_round,
  stagnation_rounds_limit, can_extend, checklist_remaining, extension_factor,
}

le_int_refl : (a : ℤ) → le_int a a ≡ true
le_int_refl (pos n) = ground arith
le_int_refl (negsuc n) = ground arith

le-+ℤ : (a : ℤ) (n : ℕ) → le_int a (a +ℤ pos n) ≡ true
unfolding ◌+ℤ◌
le-+ℤ (pos m) n = ground arith
le-+ℤ (negsuc m) n = ground arith

min_int-le_left : (a b : ℤ) → le_int (min_int a b) a ≡ true
unfolding min_int
min_int-le_left (pos a) (pos b) = ground arith
min_int-le_left (pos a) (negsuc b) = ground arith
min_int-le_left (negsuc a) (pos b) = ground arith
min_int-le_left (negsuc a) (negsuc b) = ground arith

lt_int-le : (a b : ℤ) → lt_int a b ≡ true → le_int a b ≡ true
lt_int-le (pos a) (pos b) h = ground arith
lt_int-le (pos a) (negsuc b) h = cc
lt_int-le (negsuc a) (pos b) h = refl
lt_int-le (negsuc a) (negsuc b) h = ground arith

le-min_int : (a b c : ℤ) → le_int c a ≡ true → le_int c b ≡ true → le_int c (min_int a b) ≡ true
unfolding min_int
le-min_int a b c h k = ground arith

-- The budget that a decision leaves: the one the review had, or an extension of it.
abbrev pub Grown : TaskState → Review → ReviewDecision → Type 0
Grown s q d =
    (d.extended_budget ≡ q.step_budget)
    ⊎ ((le_int q.step_budget d.extended_budget ≡ true)
        × (le_int d.extended_budget q.hard_cap ≡ true)
        × (q.step_budget_explicit ≡ false)
        × (ltb q.fix_attempts 3 ≡ true)
        × (ltb 0 (checklist_remaining s) ≡ true)
        × (d.status ≡ needs_fix))

factor-bound : (n : ℕ) → ltb 0 (extension_factor n) ≡ true → ltb n 3 ≡ true
factor-bound zero h = refl
factor-bound (suc zero) h = refl
factor-bound (suc (suc zero)) h = refl
factor-bound (suc (suc (suc n))) h = cc

exhausted-Grown : (s : TaskState) (q : Review) → Grown s q (exhausted s q)
unfolding exhausted can_extend
exhausted-Grown s q = elim (Bool-cases q.step_budget_explicit) [
  | inl explicit ↦ inl (rw explicit refl)
  | inr soft ↦ elim (Bool-cases (can_extend s q)) [
    | inl more ↦
        rw (soft, more)
          (inr (
            le-min_int q.hard_cap
                (q.step_budget +ℤ pos (checklist_remaining s * extension_factor q.fix_attempts))
                q.step_budget (lt_int-le q.step_budget q.hard_cap (ground arith))
                (le-+ℤ q.step_budget _),
            min_int-le_left q.hard_cap _,
            refl,
            factor-bound q.fix_attempts (ground arith),
            ground arith,
            refl,
          ))
    | inr never ↦ inl (rw (soft, never) refl)
  ]
]

intent-keeps :
    (py : Python) (s : TaskState) (i : String) (d : ReviewDecision)
    → (review_intent py s i d).extended_budget ≡ d.extended_budget
unfolding review_intent review_read_only review_unwritten review_code_change
intent-keeps py s i d = ground arith

-- A review leaves the step budget as it is, or extends it up to the hard cap at most. It extends
-- only a soft budget, for a run with goals left, on the first three reviews, and then asks for a fix.
pub run_review_gate-Grown :
    (py : Python) (render : ℕ → ℕ → List (String × Items) → String) (s : TaskState) (q : Review)
    → Grown s q (run_review_gate py render s q)
unfolding run_review_gate
run_review_gate-Grown py render s q = elim (Bool-cases (is_exhausted q)) [
  | inl out ↦ rw out (exhausted-Grown s q)
  | inr left ↦ elim (Bool-cases (leb stagnation_rounds_limit (next_stagnation py render s q))) [
    | inl still ↦ inl (rw (left, still) refl)
    | inr moving ↦
        inl (rw (left, moving) (intent-keeps py s q.intent (observed_round py render s q)))
  ]
]
