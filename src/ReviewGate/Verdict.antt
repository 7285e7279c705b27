-- ===== src/ReviewGate/Verdict.antt =====
-- What a pass of the gate stands for, and when it comes.
use thread_forge.Prelude.{
  ℕ, suc, String, ◌≡◌, refl, true, false, List, leb, arith, eq_refl, Bool-cases, inl, inr, ◌==◌,
  ◌&&◌, ◌⊎◌, contains, not, ◌||◌, length, as_set,
}
use thread_forge.Json.{Python, Items}
use thread_forge.TaskState.Fields.{TaskState}
use thread_forge.ReviewGate.{
  ReviewDecision, Review, observed_round, pass, run_review_gate, review_intent, review_code_change,
  review_unwritten, review_read_only, exhausted, is_exhausted, has_write_evidence, checklist_ok,
  checklist_is_explicit, checklist_remaining, next_stagnation, round_signature, mutating,
  stagnation_rounds_limit,
}

-- The evidence has a successful write, and a checklist that is not the default one has no more items than there
-- are different completed ones.
abbrev pub Verified : Python → TaskState → Type 0
Verified py s =
    (has_write_evidence py s.evidence ≡ true)
    × ((not (checklist_is_explicit s)
          || leb (length s.checklist) (length (as_set s.completed_items)))
        ≡ true)

-- The run answered, and its last tool changed nothing.
abbrev pub Answered : Python → TaskState → Type 0
Answered py s = (contains s.last_tool mutating ≡ false) × ((py.strip s.final_answer == "") ≡ false)

pub code_change-pass :
    (py : Python) (s : TaskState) (d : ReviewDecision)
    → (review_code_change py s d).status ≡ pass
    → Verified py s
unfolding review_code_change checklist_ok checklist_remaining
code_change-pass py s d h = ground arith

pub unwritten-pass :
    (py : Python) (s : TaskState) (d : ReviewDecision)
    → (review_unwritten py s d).status ≡ pass
    → Answered py s
unfolding review_unwritten
unwritten-pass py s d h = ground arith

intent-pass :
    (py : Python) (s : TaskState) (intent : String) (d : ReviewDecision)
    → (intent == "read_only") ≡ false
    → (intent == "conversation") ≡ false
    → (review_intent py s intent d).status ≡ pass
    → Verified py s ⊎ ((intent == "auto" ≡ true) × Answered py s)
unfolding review_intent
intent-pass py s intent d r c h =
    elim (Bool-cases (intent == "auto" && not (has_write_evidence py s.evidence))) [
      | inl auto ↦ inr (ground arith, unwritten-pass py s d (rw (r, c, auto) at h))
      | inr other ↦ inl (code_change-pass py s d (rw (r, c, other) at h))
    ]

-- The steps of the gate: its budget is used up, or its rounds stand still, or the intent decides.
exhausted-shape :
    (s : TaskState) (q : Review)
    → ((exhausted s q).status ≡ pass → (exhausted s q).budget_exhausted_convergence ≡ true)
unfolding exhausted
exhausted-shape s q h = ground arith

module _ (py : Python) (render : ℕ → ℕ → List (String × Items) → String) where
  -- A pass that is not a convergence, for an intent other than `read_only` and `conversation`, is
  -- earned: there is evidence of a successful write and the explicit goals are all completed, or,
  -- for the intent `auto`, no tool that writes came last and there is an answer.
  pub run_review_gate-earned :
      (s : TaskState) (q : Review)
      → (q.intent == "read_only") ≡ false
      → (q.intent == "conversation") ≡ false
      → (run_review_gate py render s q).status ≡ pass
      → (run_review_gate py render s q).budget_exhausted_convergence ≡ false
      → Verified py s ⊎ ((q.intent == "auto" ≡ true) × Answered py s)
  unfolding run_review_gate
  run_review_gate-earned s q r c h earned = elim (Bool-cases (is_exhausted q)) [
    | inl out ↦
        let converged = exhausted-shape s q (rw out at h) in let earned' = rw out at earned in cc
    | inr left ↦ elim (Bool-cases (leb stagnation_rounds_limit (next_stagnation py render s q))) [
      | inl still ↦ let earned' = rw (left, still) at earned in cc
      | inr moving ↦
          intent-pass py s q.intent (observed_round py render s q) r c (rw (left, moving) at h)
    ]
  ]

  -- The review that follows a decision: it is handed the signature and the rounds.
  abbrev pub Follows : ReviewDecision → Review → Type 0
  Follows d q =
      (q.previous_signature ≡ d.last_round_signature)
      × (q.previous_stagnation_rounds ≡ d.stagnation_rounds)

  kept-intent :
      (s : TaskState) (i : String) (d : ReviewDecision)
      → ((review_intent py s i d).last_round_signature ≡ d.last_round_signature)
        × ((review_intent py s i d).stagnation_rounds ≡ d.stagnation_rounds)
  unfolding review_intent review_read_only review_unwritten review_code_change
  kept-intent s i d = (ground arith, ground arith)

  kept-convergence :
      (s : TaskState) (i : String) (d : ReviewDecision)
      → (review_intent py s i d).budget_exhausted_convergence ≡ d.budget_exhausted_convergence
  unfolding review_intent review_read_only review_unwritten review_code_change
  kept-convergence s i d = ground arith

  -- With budget left and rounds that do not stand still, nothing converges.
  pub run_review_gate-unconverged :
      (s : TaskState) (q : Review)
      → is_exhausted q ≡ false
      → leb stagnation_rounds_limit (next_stagnation py render s q) ≡ false
      → (run_review_gate py render s q).budget_exhausted_convergence ≡ false
  unfolding run_review_gate
  run_review_gate-unconverged s q left moving =
      rw (left, moving) (kept-convergence s q.intent (observed_round py render s q))

  round-kept :
      (s : TaskState) (q : Review)
      → is_exhausted q ≡ false
      → ((run_review_gate py render s q).last_round_signature ≡ round_signature py render s)
        × ((run_review_gate py render s q).stagnation_rounds ≡ next_stagnation py render s q)
  unfolding run_review_gate
  round-kept s q left =
      elim (Bool-cases (leb stagnation_rounds_limit (next_stagnation py render s q))) [
        | inl still ↦ (rw (left, still) refl, rw (left, still) refl)
        | inr moving ↦
            let (a, b) = kept-intent s q.intent (observed_round py render s q) in
            (rw (left, moving) a, rw (left, moving) b)
      ]

  stagnation-Follows :
      (s : TaskState) (q q' : Review)
      → is_exhausted q ≡ false
      → Follows (run_review_gate py render s q) q'
      → next_stagnation py render s q' ≡ suc (next_stagnation py render s q)
  unfolding next_stagnation
  stagnation-Follows s q q' left f =
      let (a, b) = round-kept s q left in
      let (c, d) = f in ground (arith, a, b, c, d, eq_refl (round_signature py render s))

  -- Three reviews in a row of a run that makes no progress, each handed the signature and the
  -- stagnation rounds of the one before it and none of them out of its budget, end in a pass, whatever
  -- the intent and whatever went before.
  pub run_review_gate-stagnates :
      (s : TaskState) (q q' q'' : Review)
      → is_exhausted q ≡ false
      → is_exhausted q' ≡ false
      → is_exhausted q'' ≡ false
      → Follows (run_review_gate py render s q) q'
      → Follows (run_review_gate py render s q') q''
      → (run_review_gate py render s q'').status ≡ pass
  unfolding run_review_gate
  run_review_gate-stagnates s q q' q'' l l' l'' f f' =
      let n = stagnation-Follows s q q' l f in
      let n' = stagnation-Follows s q' q'' l' f' in
      let limit : leb stagnation_rounds_limit (next_stagnation py render s q'') ≡ true =
        ground (arith, n, n') in
      rw (l'', limit) refl
