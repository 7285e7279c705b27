-- ===== src/Plan/Dag/Turns.antt =====
-- The loop's count of turns.
use thread_forge.Prelude.{
  ℕ, zero, suc, ◌+◌, ◌≤◌, String, ◌≡◌, refl, ap, true, false, List, [], ◌∷◌, length, contains,
  if◌then◌else◌, arith, Bool-cases, inl, inr,
}
use thread_forge.Prelude.Dict.{Dict}
use thread_forge.Plan.Dag.{Walk, is_done, discard, relax, release, walk, roots, visit_all}

-- The number of the steps that wait for others.
unfoldable pub waiting : Dict (List String) → ℕ
waiting [] = 0
waiting ((id, needs) ∷ rest) = if is_done needs then waiting rest else suc (waiting rest)

abbrev pub owed : Walk → ℕ
owed w = length w.ready + waiting w.incoming

waits-contains :
    (c : String) (needs : List String) → contains c needs ≡ true → is_done needs ≡ false
waits-contains c [] h = cc
waits-contains c (x ∷ needs) h = refl

release-waiting :
    (c : String) (d : Dict (List String)) (ready : List String)
    → length (release c d ready) + waiting (relax c d) ≡ length ready + waiting d
unfolding release relax waiting
release-waiting c [] ready = refl
release-waiting c ((id, needs) ∷ rest) ready = elim (Bool-cases (contains c needs)) [
  | inl here ↦ elim (Bool-cases (is_done (discard c needs))) [
    | inl last ↦
        let known = waits-contains c needs here in
        rw (here, last, known) (omega (arith, release-waiting c rest (id ∷ ready)))
    | inr more ↦
        let known = waits-contains c needs here in
        rw (here, more, known) (omega (arith, release-waiting c rest ready))
  ]
  | inr gone ↦ rw gone (ground (arith, release-waiting c rest ready))
]

roots-waiting :
    (d : Dict (List String)) (ready : List String)
    → length (roots d ready) + waiting d ≡ length ready + length d
unfolding roots waiting
roots-waiting [] ready = refl
roots-waiting ((id, needs) ∷ rest) ready = elim (Bool-cases (is_done needs)) [
  | inl free ↦ rw free (omega (arith, roots-waiting rest (id ∷ ready)))
  | inr held ↦ rw held (omega (arith, roots-waiting rest ready))
]

-- What has come and what is owed stay the same together.
walk-owed :
    (n : ℕ) (d : Dict (List String)) (ready : List String) (v : ℕ)
    → (walk n d ready v).visited + owed (walk n d ready v) ≡ v + (length ready + waiting d)
unfolding walk
walk-owed zero d ready v = refl
walk-owed (suc n) d [] v = refl
walk-owed (suc n) d (c ∷ ready) v =
    omega (arith, release-waiting c d ready, walk-owed n (relax c d) (release c d ready) (suc v))

walk-finished :
    (n : ℕ) (d : Dict (List String)) (ready : List String) (v : ℕ)
    → length ready + waiting d ≤ n
    → (walk n d ready v).ready ≡ []
unfolding walk
walk-finished zero d [] v h = refl
walk-finished zero d (c ∷ ready) v h = absurd (omega (arith, h))
walk-finished (suc n) d [] v h = refl
walk-finished (suc n) d (c ∷ ready) v h =
    walk-finished n (relax c d) (release c d ready) (suc v)
      (omega (arith, h, release-waiting c d ready))

-- One turn for each step is enough for the loop of `_validate_dag`, whatever the dependencies are:
-- then nothing is ready, and the steps that have not come are those that still wait.
pub visit_all-finished :
    (d : Dict (List String))
    → ((visit_all d).ready ≡ [])
      × ((visit_all d).visited + waiting (visit_all d).incoming ≡ length d)
unfolding visit_all
visit_all-finished d =
    let all = roots-waiting d [] in
    let over = walk-finished (length d) d (roots d []) 0 (omega (arith, all)) in
    let kept = walk-owed (length d) d (roots d []) 0 in
    (over, omega (arith, all, kept, ap length over))
