-- ===== src/Journal/Recovery.antt =====
-- What recovery finds in the journal after complete and interrupted transitions.
use thread_forge.Prelude.{
  ◌∙◌, String, ◌≡◌, refl, sym, ap, true, false, Option, none, some, List, [], ◌∷◌, ◌++◌, ◌==◌,
  arith, eq_iff, inl, inr, Bool-cases,
}
use thread_forge.Prelude.Dict.{Dict, put, remove, get}
use thread_forge.Journal.{
  Intent, Line, blank, broken, begin, commit, JournalFile, append, scan, incomplete, values,
  torn_after, map_values,
}

abbrev pub and_then : {A B : Type 0} → Option A → (A → Option B) → Option B
and_then none f = none
and_then (some a) f = f a

pub scan-append :
    (d : Dict Intent) (ls ms : List Line)
    → scan d (ls ++ ms) ≡ and_then (scan d ls) (λ e. scan e ms)
unfolding scan
scan-append d [] ms = refl
scan-append d (blank ∷ ls) ms = scan-append d ls ms
scan-append d (broken ∷ ls) ms = refl
scan-append d (begin r ∷ ls) ms = elim (Bool-cases (r.transition_id == "")) [
  | inl e ↦ rw e refl
  | inr e ↦ rw e (scan-append (put d r.transition_id r) ls ms)
]
scan-append d (commit t ∷ ls) ms = elim (Bool-cases (t == "")) [
  | inl e ↦ rw e refl
  | inr e ↦ rw e (scan-append (remove d t) ls ms)
]

remove-absent : (d : Dict Intent) (k : String) → get d k ≡ none → remove d k ≡ d
unfolding remove get
remove-absent [] k h = refl
remove-absent ((j, w) ∷ d) k h = ground (arith, eq_iff j k, remove-absent d k)

remove-put : (d : Dict Intent) (k : String) (r : Intent) → get d k ≡ none → remove (put d k r) k ≡ d
unfolding remove put get
remove-put [] k r h = ground (arith, eq_iff k k)
remove-put ((j, w) ∷ d) k r h = ground (arith, eq_iff j k, eq_iff k k, remove-put d k r)

put-absent :
    (d : Dict Intent) (k : String) (r : Intent) → get d k ≡ none → put d k r ≡ d ++ (k, r) ∷ []
unfolding put get
put-absent [] k r h = refl
put-absent ((j, w) ∷ d) k r h = ground (arith, eq_iff j k, put-absent d k r)

values-append : (d e : Dict Intent) → values (d ++ e) ≡ values d ++ values e
values-append [] e = refl
values-append ((k, r) ∷ d) e = ap (λ (l : List Intent). r ∷ l) (values-append d e)

-- The journal can be read, and `d` is what it leaves open.
pub record Reads (f : JournalFile) (d : Dict Intent) : Type 0 where
  pub whole : f.torn ≡ false
  pub open_at : scan [] f.lines ≡ some d

append-Reads :
    (f : JournalFile) (d e : Dict Intent) (l : Line)
    → Reads f d
    → scan d (l ∷ []) ≡ some e
    → Reads (append l f) e
unfolding append
append-Reads f d e l h s = record {
  whole = rw h.whole refl;
  open_at = rw (h.whole, scan-append [] f.lines (l ∷ []), h.open_at) s;
}

module _ (f : JournalFile) (d : Dict Intent) (r : Intent) where
  begin-Reads :
      Reads f d
      → get d r.transition_id ≡ none
      → (r.transition_id == "") ≡ false
      → Reads (append (begin r) f) (put d r.transition_id r)
  unfolding scan
  begin-Reads h n e = append-Reads f d _ (begin r) h (rw e refl)

  transition-Reads :
      Reads f d
      → get d r.transition_id ≡ none
      → (r.transition_id == "") ≡ false
      → Reads (append (commit r.transition_id) (append (begin r) f)) d
  unfolding scan
  transition-Reads h n e =
      append-Reads (append (begin r) f) _ d (commit r.transition_id) (begin-Reads h n e)
        (rw (e, remove-put d r.transition_id r n) refl)

incomplete-Reads :
    (f : JournalFile) (d : Dict Intent) → Reads f d → incomplete f ≡ (some (values d), f)
unfolding incomplete
incomplete-Reads f d h =
    (λ i. (
      map_values (h.open_at i),
      record { lines = f.lines; torn = torn_after f.torn (h.open_at i) },
    ))
    ∙ (λ i. (some (values d), record { lines = f.lines; torn = sym h.whole i }))

-- A transition with a new id that is begun and committed leaves no trace in what recovery finds,
-- and one that is only begun is found, after those that were open before.
pub incomplete-transition :
    (f : JournalFile) (d : Dict Intent) (r : Intent)
    → Reads f d
    → get d r.transition_id ≡ none
    → (r.transition_id == "") ≡ false
    → ((incomplete (append (commit r.transition_id) (append (begin r) f))).0 ≡ (incomplete f).0)
      × ((incomplete (append (begin r) f)).0 ≡ some (values d ++ r ∷ []))
incomplete-transition f d r h n e = (
  rw (incomplete-Reads _ d (transition-Reads f d r h n e), incomplete-Reads f d h) refl,
  rw (incomplete-Reads _ _ (begin-Reads f d r h n e), put-absent d r.transition_id r n)
      (ap some (values-append d ((r.transition_id, r) ∷ []))),
)

-- After a crash in the middle of an append, recovery finds what the journal held before it, and
-- the next record is readable; without recovery that record is lost in the torn line, and the
-- journal is unreadable from then on.
pub torn_tail_recovered :
    (f : JournalFile) (d : Dict Intent) (r : Intent)
    → Reads f d
    → get d r.transition_id ≡ none
    → (r.transition_id == "") ≡ false
    → let crashed = record f { torn = true } in
      (incomplete crashed ≡ (some (values d), f))
      × ((incomplete (append (begin r) (incomplete crashed).1)).0 ≡ some (values d ++ r ∷ []))
      × ((incomplete (append (begin r) crashed)).0 ≡ none)
unfolding incomplete append scan
torn_tail_recovered f d r h n e = (
  (λ i. (
    map_values (h.open_at i),
    record { lines = f.lines; torn = torn_after true (h.open_at i) },
  ))
      ∙ (λ i. (some (values d), record { lines = f.lines; torn = sym h.whole i })),
  rw h.open_at (
      rw (scan-append [] f.lines (begin r ∷ []), h.open_at, e)
        (rw (put-absent d r.transition_id r n)
          (ap some (values-append d ((r.transition_id, r) ∷ []))))),
  rw (scan-append [] f.lines (broken ∷ []), h.open_at) refl,
)
