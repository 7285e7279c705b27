-- ===== src/Startup/Closing.antt =====
-- A journal is closed by a commit for each transition that it leaves open.
use thread_forge.Prelude.{
  String, ◌≡◌, refl, sym, Bool, true, false, some, List, [], ◌∷◌, ◌==◌, ◌&&◌, ◌||◌, not, Bool-cases,
  inl, inr, arith, eq_iff, eq_refl,
}
use mathlib.Core.Path.{subst}
use mathlib.Core.Option.{some-injective}
use thread_forge.Prelude.Dict.{Dict, put, remove}
use thread_forge.Journal.{Intent, Line, blank, broken, begin, commit, scan, values}
use thread_forge.Startup.Loops.{act_all}
use thread_forge.Startup.Transitions.{committed, done_with}

-- The records stand under their own ids, which are not empty.
abbrev named : Dict Intent → Bool
named [] = true
named ((k, r) ∷ d) = (r.transition_id == k && not (k == "")) && named d

put-named :
    (d : Dict Intent) (r : Intent)
    → (r.transition_id == "") ≡ false
    → named d ≡ true
    → named (put d r.transition_id r) ≡ true
unfolding put
put-named [] r h n = ground (arith, eq_refl r.transition_id)
put-named ((j, w) ∷ d) r h n = ground (arith, eq_refl r.transition_id, put-named d r h)

remove-named : (d : Dict Intent) (k : String) → named d ≡ true → named (remove d k) ≡ true
unfolding remove
remove-named [] k n = refl
remove-named ((j, w) ∷ d) k n = ground (arith, remove-named d k)

scan-named :
    (d e : Dict Intent) (ls : List Line) → scan d ls ≡ some e → named d ≡ true → named e ≡ true
unfolding scan
scan-named d e [] h n = subst (λ x. named x ≡ true) (some-injective _ _ h) n
scan-named d e (blank ∷ ls) h n = scan-named d e ls h n
scan-named d e (broken ∷ ls) h n = cc
scan-named d e (begin r ∷ ls) h n = elim (Bool-cases (r.transition_id == "")) [
  | inl u ↦ let h' = rw u at h in cc
  | inr u ↦ scan-named (put d r.transition_id r) e ls (rw u at h) (put-named d r u n)
]
scan-named d e (commit t ∷ ls) h n = elim (Bool-cases (t == "")) [
  | inl u ↦ let h' = rw u at h in cc
  | inr u ↦ scan-named (remove d t) e ls (rw u at h) (remove-named d t n)
]

abbrev has_id : String → List Intent → Bool
has_id k [] = false
has_id k (r ∷ rs) = k == r.transition_id || has_id k rs

-- Each key is the id of one of the records, whose ids are not empty.
abbrev covers : List Intent → Dict Intent → Bool
covers rs [] = true
covers rs ((k, v) ∷ d) = has_id k rs && covers rs d

abbrev all_named : List Intent → Bool
all_named [] = true
all_named (r ∷ rs) = not (r.transition_id == "") && all_named rs

remove-covers :
    (d : Dict Intent) (r : Intent) (rs : List Intent)
    → covers (r ∷ rs) d ≡ true
    → covers rs (remove d r.transition_id) ≡ true
unfolding remove
remove-covers [] r rs h = refl
remove-covers ((k, v) ∷ d) r rs h = ground (arith, remove-covers d r rs)

more-covers :
    (d : Dict Intent) (r : Intent) (rs : List Intent)
    → covers rs d ≡ true
    → covers (r ∷ rs) d ≡ true
more-covers [] r rs h = refl
more-covers ((k, v) ∷ d) r rs h = ground (arith, more-covers d r rs)

values-covers : (d : Dict Intent) → named d ≡ true → covers (values d) d ≡ true
values-covers [] n = refl
values-covers ((k, r) ∷ d) n =
    ground (arith, eq_iff r.transition_id k, eq_refl k, values-covers d, more-covers d r (values d))

values-all_named : (d : Dict Intent) → named d ≡ true → all_named (values d) ≡ true
values-all_named [] n = refl
values-all_named ((k, r) ∷ d) n = ground (arith, eq_iff r.transition_id k, values-all_named d)

commit_lem :
    (d : Dict Intent) (id : String)
    → (id == "") ≡ false
    → committed id (some d) ≡ some (remove d id)
unfolding scan
commit_lem d id u = rw u refl

committing :
    (rs : List Intent) (d : Dict Intent) (ws : List Intent)
    → all_named rs ≡ true
    → covers rs d ≡ true
    → (act_all done_with rs (some d, ws)).0 ≡ some []
committing [] [] ws n h = refl
committing [] ((k, v) ∷ d) ws n h = cc
committing (r ∷ rs) d ws n h = elim (Bool-cases (r.transition_id == "")) [
  | inl u ↦ let n' = rw u at n in cc
  | inr u ↦
      subst (λ s. (act_all done_with rs (s, r ∷ ws)).0 ≡ some [])
        (sym (commit_lem d r.transition_id u))
        (committing rs (remove d r.transition_id) (r ∷ ws) (rw u at n) (remove-covers d r rs h))
]

-- After a commit for each transition that a journal leaves open, it leaves none open.
pub closing :
    (ls : List Line) (d : Dict Intent)
    → scan [] ls ≡ some d
    → (act_all done_with (values d) (some d, [])).0 ≡ some []
closing ls d h =
    let n = scan-named [] d ls h refl in
    committing (values d) d [] (values-all_named d n) (values-covers d n)
