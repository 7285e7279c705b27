-- ===== src/Plan/Dag/Cycles.antt =====
-- What the acceptance of a plan's dependencies rules out.
use thread_forge.Prelude.{
  ℕ, zero, suc, ◌≤◌, String, ◌≡◌, refl, ap, sym, ◌∙◌, Bool, true, false, List, [], ◌∷◌, length,
  contains, ◌||◌, not, if◌then◌else◌, arith, eq_iff, Bool-cases, inl, inr, ◌==◌,
}
use thread_forge.Prelude.Dict.{Dict, keys}
use thread_forge.Plan.{valid}
use thread_forge.Plan.Dag.{is_done, discard, relax, release, walk, roots, visit_all, validate_dag}
use thread_forge.Plan.Dag.Turns.{waiting, visit_all-finished}

abbrev pub any_in : (String → Bool) → List String → Bool
any_in s [] = false
any_in s (x ∷ xs) = s x || any_in s xs

-- Each step in the set depends on a step in the set.
abbrev pub Trapped : (String → Bool) → Dict (List String) → Type 0
Trapped s [] = Unit {0}
Trapped s ((id, needs) ∷ rest) = (not (s id) || any_in s needs ≡ true) × Trapped s rest

any_in-discard :
    (s : String → Bool) (c : String) (xs : List String)
    → s c ≡ false
    → any_in s (discard c xs) ≡ any_in s xs
unfolding discard
any_in-discard s c [] h = refl
any_in-discard s c (x ∷ xs) h = elim (Bool-cases (c == x)) [
  | inl e ↦ let same = ap s ((eq_iff c x).0 e) in rw (e, ← same, h) (any_in-discard s c xs h)
  | inr e ↦ rw e (ap (λ b. s x || b) (any_in-discard s c xs h))
]

relax-Trapped :
    (s : String → Bool) (c : String) (d : Dict (List String))
    → s c ≡ false
    → Trapped s d
    → Trapped s (relax c d)
unfolding relax
relax-Trapped s c [] h t = tt
relax-Trapped s c ((id, needs) ∷ rest) h (t, ts) = elim (Bool-cases (contains c needs)) [
  | inl e ↦ rw (e, any_in-discard s c needs h) (t, relax-Trapped s c rest h ts)
  | inr e ↦ rw e (t, relax-Trapped s c rest h ts)
]

abbrev Outside : (String → Bool) → List String → Type 0
Outside s xs = any_in s xs ≡ false

done-empty : (s : String → Bool) (xs : List String) → is_done xs ≡ true → any_in s xs ≡ false
done-empty s [] h = refl
done-empty s (x ∷ xs) h = cc

push-Outside :
    (s : String → Bool) (b : Bool) (id : String) (ready : List String)
    → (b ≡ true → s id ≡ false)
    → Outside s ready
    → Outside s (if b then id ∷ ready else ready)
push-Outside s true id ready f o = rw (f refl) o
push-Outside s false id ready f o = o

-- A step whose dependencies are empty is not in the set.
free :
    (s : String → Bool) (id : String) (needs : List String)
    → not (s id) || any_in s needs ≡ true
    → any_in s needs ≡ false
    → s id ≡ false
free s id needs t e = elim (Bool-cases (s id)) [ inl y ↦ let z = rw (y, e) at t in cc | inr n ↦ n ]

release-Outside :
    (s : String → Bool) (c : String) (d : Dict (List String)) (ready : List String)
    → s c ≡ false
    → Trapped s d
    → Outside s ready
    → Outside s (release c d ready)
unfolding release
release-Outside s c [] ready h t o = o
release-Outside s c ((id, needs) ∷ rest) ready h (t, ts) o = release-Outside s c rest _ h ts (
    push-Outside s _ id ready
      (λ e.
        free s id needs t
          (sym (any_in-discard s c needs h) ∙ done-empty s (discard c needs) (ground arith)))
      o)

roots-Outside :
    (s : String → Bool) (d : Dict (List String)) (ready : List String)
    → Trapped s d
    → Outside s ready
    → Outside s (roots d ready)
unfolding roots
roots-Outside s [] ready t o = o
roots-Outside s ((id, needs) ∷ rest) ready (t, ts) o =
    roots-Outside s rest _ ts
      (push-Outside s _ id ready (λ e. free s id needs t (done-empty s needs e)) o)

keys-relax : (c : String) (d : Dict (List String)) → keys (relax c d) ≡ keys d
unfolding keys relax
keys-relax c [] = refl
keys-relax c ((id, needs) ∷ rest) = ap (λ ks. id ∷ ks) (keys-relax c rest)

-- At the end of the loop the set still waits.
walk-Trapped :
    (s : String → Bool) (n : ℕ) (d : Dict (List String)) (ready : List String) (v : ℕ)
    → Trapped s d
    → Outside s ready
    → Trapped s (walk n d ready v).incoming × (keys (walk n d ready v).incoming ≡ keys d)
unfolding walk
walk-Trapped s zero d ready v t o = (t, refl)
walk-Trapped s (suc n) d [] v t o = (t, refl)
walk-Trapped s (suc n) d (c ∷ ready) v t o =
    let out : s c ≡ false = ground (arith, o) in
    let (a, b) =
      walk-Trapped s n (relax c d) (release c d ready) (suc v) (relax-Trapped s c d out t)
        (release-Outside s c d ready out t (ground (arith, o))) in
    (a, b ∙ keys-relax c d)

held : (s : String → Bool) (xs : List String) → any_in s xs ≡ true → is_done xs ≡ false
held s [] h = cc
held s (x ∷ xs) h = refl

Trapped-waiting :
    (s : String → Bool) (d : Dict (List String))
    → Trapped s d
    → any_in s (keys d) ≡ true
    → 1 ≤ waiting d
unfolding keys waiting
Trapped-waiting s [] t h = cc
Trapped-waiting s ((id, needs) ∷ rest) (t, ts) h = elim (Bool-cases (s id)) [
  | inl y ↦ rw (held s needs (rw y at t)) (omega arith)
  | inr n ↦ ground (arith, Trapped-waiting s rest ts (rw n at h))
]

visit_all-waiting :
    (s : String → Bool) (d : Dict (List String))
    → Trapped s d
    → any_in s (keys d) ≡ true
    → 1 ≤ waiting (visit_all d).incoming
unfolding visit_all
visit_all-waiting s d t h =
    let (a, b) = walk-Trapped s (length d) d (roots d []) 0 t (roots-Outside s d [] t refl) in
    Trapped-waiting s _ a (ap (any_in s) b ∙ h)

visited-all :
    (d : Dict (List String)) → validate_dag d ≡ valid tt → (visit_all d).visited ≡ length d
unfolding validate_dag
visited-all d h = ground arith

-- Accepted dependencies are acyclic: no set of steps that has a step has, for each of its steps, a
-- dependency of it in the set.
pub validate_dag-acyclic :
    (d : Dict (List String)) (s : String → Bool)
    → validate_dag d ≡ valid tt
    → any_in s (keys d) ≡ true
    → ¬ Trapped s d
validate_dag-acyclic d s h some t =
    let (over, sum) = visit_all-finished d in
    omega (arith, visited-all d h, sum, visit_all-waiting s d t some)
