-- ===== src/ToolExecutor/Snapshots.antt =====
-- What `diff_workspace_snapshots` reports.
use thread_forge.Prelude.{
  map, String, ◌≡◌, refl, ap, ◌∙◌, Bool, true, false, List, [], ◌∷◌, ◌++◌, ◌==◌, ◌&&◌, ◌||◌, not,
  Bool-cases, inl, inr, contains, as_set, is_some, arith, eq_iff,
}
use thread_forge.Prelude.Dict.{Dict, get, keys}
use thread_forge.ToolExecutor.Runtime.{
  same_file, path_summary, diff_paths, diff_workspace_snapshots,
}

contains-append :
    (x : String) (xs ys : List String) → contains x (xs ++ ys) ≡ (contains x xs || contains x ys)
contains-append x [] ys = refl
contains-append x (y ∷ xs) ys = ground (arith, contains-append x xs ys)

contains-as_set : (x : String) (xs : List String) → contains x (as_set xs) ≡ contains x xs
unfolding as_set
contains-as_set x [] = refl
contains-as_set x (y ∷ xs) = ground (arith, contains-as_set x xs, eq_iff x y)

contains-keys : (d : Dict String) (k : String) → contains k (keys d) ≡ is_some (get d k)
unfolding keys get
contains-keys [] k = refl
contains-keys ((j, w) ∷ d) k = ground (arith, contains-keys d k, eq_iff j k, eq_iff k j)

abbrev pub differs : Dict String → Dict String → String → Bool
differs before after p = not (same_file (get before p) (get after p))

same_at :
    (before after : Dict String) (p q : String)
    → (p == q) ≡ true
    → same_file (get before p) (get after p) ≡ same_file (get before q) (get after q)
same_at before after p q e =
    ap (λ (x : String). same_file (get before x) (get after x)) ((eq_iff p q).0 e)

diff_paths-differs :
    (before after : Dict String) (p : String) (ps : List String)
    → contains p (diff_paths before after ps).0 ≡ (contains p ps && differs before after p)
unfolding diff_paths
diff_paths-differs before after p [] = refl
diff_paths-differs before after p (q ∷ ps) =
    let ih = diff_paths-differs before after p ps in
    elim (Bool-cases (same_file (get before q) (get after q))) [
      | inl e ↦ rw e (ground (arith, ih, same_at before after p q))
      | inr e ↦ rw e (ground (arith, ih, same_at before after p q))
    ]

diff_paths-summaries :
    (before after : Dict String) (ps : List String)
    → (diff_paths before after ps).1
      ≡ map (path_summary before after) (diff_paths before after ps).0
unfolding diff_paths
diff_paths-summaries before after [] = refl
diff_paths-summaries before after (q ∷ ps) =
    elim (Bool-cases (same_file (get before q) (get after q))) [
      | inl e ↦ rw e (diff_paths-summaries before after ps)
      | inr e ↦ rw e (
          ap (λ (l : List String). path_summary before after q ∷ l)
            (diff_paths-summaries before after ps))
    ]

outside :
    (before after : Dict String) (p : String)
    → (contains p (keys before) || contains p (keys after)) ≡ false
    → differs before after p ≡ false
outside before after p h = ground (arith, contains-keys before p, contains-keys after p)

-- The affected paths are exactly those whose content is not the same before and after, as a file that is there
-- only once differs, and each of them has its summary; sorting keeps the elements of a list.
pub diff_workspace_snapshots-differs :
    (sorted : List String → List String) (before after : Dict String) (p : String)
    → ((x : String) (l : List String) → contains x (sorted l) ≡ contains x l)
    → (contains p (diff_workspace_snapshots sorted before after).0 ≡ differs before after p)
      × ((diff_workspace_snapshots sorted before after).1
          ≡ map (path_summary before after) (diff_workspace_snapshots sorted before after).0)
unfolding diff_workspace_snapshots
diff_workspace_snapshots-differs sorted before after p h =
    let paths = sorted (as_set (keys before ++ keys after)) in
    let here : contains p paths ≡ (contains p (keys before) || contains p (keys after)) =
      h p _ ∙ contains-as_set p _ ∙ contains-append p (keys before) (keys after) in
    (
      diff_paths-differs before after p paths ∙ rw here (ground (arith, outside before after p)),
      diff_paths-summaries before after paths,
    )
