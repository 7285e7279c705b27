-- ===== src/Broker/Routing.antt =====
-- Which queues a published event reaches.
use thread_forge.Prelude.{
  if◌then◌else◌, inl, inr, Bool-cases, ℕ, String, ◌≡◌, refl, ap, ◌∙◌, true, false, List, [], ◌∷◌,
  arith, eqb, Bool-cases, inl, inr, if◌then◌else◌,
}
use thread_forge.Prelude.Dict
use thread_forge.Prelude.Dict.{get-put_self, get-remove_self}
use thread_forge.Broker.{
  Item, event, Broker, group_of, member, discard, regroup, enqueue, schedule, publish, run_calls,
  run_loop, unsubscribe,
}
use thread_forge.Broker.Queue.{enqueue_all}

-- A subscriber group is a set.
abbrev pub IsGroup : List ℕ → Type 0
IsGroup [] = Unit {0}
IsGroup (q ∷ qs) = (member q qs ≡ false) × IsGroup qs

member-discard : (q : ℕ) (qs : List ℕ) → member q (discard q qs) ≡ false
unfolding discard
member-discard q [] = refl
member-discard q (x ∷ qs) = ground (arith, member-discard q qs)

group-regroup :
    (d : Dict.Dict (List ℕ)) (task : String) (qs : List ℕ)
    → group_of (Dict.get (regroup d task qs) task) ≡ qs
unfolding regroup
group-regroup d task [] = rw (get-remove_self d task) refl
group-regroup d task (q ∷ qs) = rw (get-put_self d task (q ∷ qs)) refl

module _ {E : Type 0} where
  abbrev calls_for : ℕ → List (ℕ × Item E) → List (Item E)
  calls_for j [] = []
  calls_for j ((q, x) ∷ cs) = let rest = calls_for j cs in if eqb q j then x ∷ rest else rest

  run_calls_lem :
      (size : ℕ) (cs : List (ℕ × Item E)) (queues : ℕ → List (Item E)) (j : ℕ)
      → run_calls size cs queues j ≡ enqueue_all size (calls_for j cs) (queues j)
  unfolding run_calls enqueue_all
  run_calls_lem size [] queues j = refl
  run_calls_lem size ((q, x) ∷ cs) queues j =
      run_calls_lem size cs _ j ∙ elim (Bool-cases (eqb q j)) [
        | inl h ↦ let e : q ≡ j = ground arith in rw (h, e) refl
        | inr h ↦ rw h refl
      ]

  calls_for-others :
      (j : ℕ) (qs : List ℕ) (x : Item E) → member j qs ≡ false → calls_for j (schedule qs x) ≡ []
  unfolding schedule
  calls_for-others j [] x h = refl
  calls_for-others j (q ∷ qs) x h = ground (arith, calls_for-others j qs x)

  calls_for-member :
      (j : ℕ) (qs : List ℕ) (x : Item E)
      → IsGroup qs
      → member j qs ≡ true
      → calls_for j (schedule qs x) ≡ x ∷ []
  unfolding schedule
  calls_for-member j [] x g h = cc
  calls_for-member j (q ∷ qs) x g h = elim (Bool-cases (eqb q j)) [
    | inl e ↦
        let same : q ≡ j = ground arith in
        rw e (ap (λ (l : List (Item E)). x ∷ l) (calls_for-others j qs x (rw same at g.0)))
    | inr e ↦ rw e (calls_for-member j qs x g.1 (ground arith))
  ]

  abbrev pub subscribers_of : String → Broker E → List ℕ
  subscribers_of task b = group_of (Dict.get b.subscribers task)

  -- Once the loop has run, an event published to a task stands once in the queue of each subscriber
  -- of the task, as that queue takes it, and every other queue is as it was.
  pub publish-delivers :
      (task : String) (e : E) (b : Broker E) (j : ℕ)
      → b.running ≡ true
      → b.scheduled ≡ []
      → IsGroup (subscribers_of task b)
      → (run_loop (publish task e b)).queues j ≡ (
          if member j (subscribers_of task b)
          then enqueue b.queue_size (event e) (b.queues j)
          else b.queues j)
  unfolding run_loop publish enqueue_all
  publish-delivers task e b j r s g =
      let qs = subscribers_of task b in
      let ran = run_calls_lem b.queue_size (schedule qs (event e)) b.queues j in
      elim (Bool-cases (member j qs)) [
        | inl m ↦ rw (r, s, m) (ran ∙ rw (calls_for-member j qs (event e) g m) refl)
        | inr m ↦ rw (r, s, m) (ran ∙ rw (calls_for-others j qs (event e) m) refl)
      ]

  -- After unsubscribing, an event published to the task does not change the queue.
  pub unsubscribe-silent :
      (task : String) (e : E) (b : Broker E) (q : ℕ)
      → b.running ≡ true
      → b.scheduled ≡ []
      → (run_loop (publish task e (unsubscribe task q b))).queues q ≡ b.queues q
  unfolding run_loop publish unsubscribe enqueue_all
  unsubscribe-silent task e b q r s =
      let qs = discard q (subscribers_of task b) in
      rw (r, s, group-regroup b.subscribers task qs)
        (run_calls_lem b.queue_size (schedule qs (event e)) b.queues q
          ∙ rw (calls_for-others q qs (event e) (member-discard q (subscribers_of task b))) refl)
