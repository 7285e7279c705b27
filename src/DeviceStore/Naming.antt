-- ===== src/DeviceStore/Naming.antt =====
-- The names that a user gives to workspaces.
use thread_forge.Prelude.{
  String, ◌≡◌, refl, sym, ◌∙◌, Bool, true, false, Option, none, some, is_some, List, [], ◌∷◌, ◌==◌,
  ◌&&◌, ◌||◌, not, ltb, Bool-cases, Option-cases, inl, inr, eq_iff, eq_refl, arith, map, as_set,
  eqb, length,
}
use mathlib.Core.Path.{subst}
use thread_forge.Prelude.Dict.{Dict, get, get-put_self}
use thread_forge.Json.{clip}
use thread_forge.DeviceStore.{
  WorkerWorkspace, Device, Presence, System, workspace_of, merged, named, Answer, ok, refused,
  store_name, set_workspace_display_name, update_presence, get_device, get_for_owner, ids_of,
}

abbrev or_named : String → Option WorkerWorkspace → Bool
or_named name none = true
or_named name (some v) = v.display_name_source == "user" && v.name == name

module _ (y : System) (now id name : String) where
  named_found :
      (ws : List WorkerWorkspace)
      → is_some (workspace_of y id (map (named y now id name) ws)) ≡ is_some (workspace_of y id ws)
  named_found [] = refl
  named_found (w ∷ ws) = ground (arith, named_found ws)

  named_kept :
      (ws : List WorkerWorkspace)
      → or_named (clip 200 (y.strip name)) (workspace_of y id (map (named y now id name) ws)) ≡ true
  named_kept [] = refl
  named_kept (w ∷ ws) = elim (Option-cases (workspace_of y id (map (named y now id name) ws))) [
    | inr (v, q) ↦ rw q (rw q at (named_kept ws))
    | inl q ↦ elim (Bool-cases (w.workspace_id == id)) [
      | inl e ↦ rw (q, e, e) (rw (eq_refl (clip 200 (y.strip name))) refl)
      | inr e ↦ rw (q, e, e) refl
    ]
  ]

-- The stored workspace has the name, as the user's.
abbrev pub is_named : String → Option WorkerWorkspace → Bool
is_named name none = false
is_named name (some v) = v.display_name_source == "user" && v.name == name

found_named :
    (name : String) (x : Option WorkerWorkspace)
    → is_some x ≡ true
    → or_named name x ≡ true
    → is_named name x ≡ true
found_named name none h n = cc
found_named name (some v) h n = n

named_or :
    (name : String) (x : Option WorkerWorkspace) → is_named name x ≡ true → or_named name x ≡ true
named_or name none n = cc
named_or name (some v) n = n

named_is_some :
    (name : String) (x : Option WorkerWorkspace) → is_named name x ≡ true → is_some x ≡ true
named_is_some name none n = cc
named_is_some name (some v) n = refl

merged_one :
    (y : System) (now name : String) (w : WorkerWorkspace) (x : Option WorkerWorkspace)
    → is_named name x ≡ true
    → is_named name (some (merged y now w x)) ≡ true
merged_one y now name w none n = cc
merged_one y now name w (some v) n = ground arith

merged_id :
    (y : System) (now : String) (w : WorkerWorkspace) (x : Option WorkerWorkspace)
    → (merged y now w x).workspace_id ≡ w.workspace_id
merged_id y now w none = refl
merged_id y now w (some v) = refl

module _ (y : System) (now id name : String) (ws : List WorkerWorkspace) where
  abbrev merged_all : List WorkerWorkspace → List WorkerWorkspace
  merged_all ps = map (λ w. merged y now w (workspace_of y w.workspace_id ws)) ps

  merged_found :
      (ps : List WorkerWorkspace)
      → is_some (workspace_of y id (merged_all ps)) ≡ is_some (workspace_of y id ps)
  merged_found [] = refl
  merged_found (w ∷ ps) =
      ground (arith, merged_id y now w (workspace_of y w.workspace_id ws), merged_found ps)

  merged_kept :
      is_named name (workspace_of y id ws) ≡ true
      → (ps : List WorkerWorkspace) → or_named name (workspace_of y id (merged_all ps)) ≡ true
  merged_kept n [] = refl
  merged_kept n (w ∷ ps) = elim (Option-cases (workspace_of y id (merged_all ps))) [
    | inr (v, q) ↦ rw q (rw q at (merged_kept n ps))
    | inl q ↦ elim (Bool-cases (w.workspace_id == id)) [
      | inr e ↦ rw (q, merged_id y now w (workspace_of y w.workspace_id ws), e) refl
      | inl e ↦
          let p : id ≡ w.workspace_id = sym ((eq_iff w.workspace_id id).0 e) in
          rw (q, merged_id y now w (workspace_of y w.workspace_id ws), e)
            (merged_one y now name w (workspace_of y w.workspace_id ws)
              (subst (λ j. is_named name (workspace_of y j ws) ≡ true) p n))
    ]
  ]

abbrev pub is_ok : Answer Device → Bool
is_ok (refused e) = false
is_ok (ok v) = true

-- The device is stored with a workspace of this id that has the name, as the user's.
abbrev pub holds_name : System → String → String → Option Device → Bool
holds_name y id name none = false
holds_name y id name (some v) = is_named name (workspace_of y id v.workspaces)

-- What the workers report, in order, each with its time.
abbrev pub update_presences : System → String → List (String × Presence) → Dict Device → Dict Device
update_presences y device [] d = d
update_presences y device ((now, p) ∷ ps) d =
    update_presences y device ps (update_presence y now device p d).1

-- Each report lists a workspace with the id.
abbrev pub lists_workspace : System → String → List (String × Presence) → Bool
lists_workspace y id [] = true
lists_workspace y id ((now, p) ∷ ps) =
    is_some (workspace_of y id p.workspaces) && lists_workspace y id ps

module _ (y : System) (device id name : String) where
  presence_kept :
      (now : String) (p : Presence) (d : Dict Device)
      → is_some (workspace_of y id p.workspaces) ≡ true
      → holds_name y id name (get d device) ≡ true
      → holds_name y id name (get (update_presence y now device p d).1 device) ≡ true
  unfolding update_presence get_device
  presence_kept now p d l n =
      elim (Bool-cases (
        ltb 100 (length p.workspaces)
        || not (eqb (length (as_set (ids_of y p.workspaces))) (length p.workspaces)))) [
          | inl bad ↦ rw bad n
          | inr good ↦ elim (Bool-cases (y.is_device_id device)) [
            | inr other ↦ rw (good, other) n
            | inl form ↦ elim (Option-cases (get d device)) [
              | inl gone ↦ let n' = rw gone at n in cc
              | inr (v, stored) ↦
                  let n' : is_named name (workspace_of y id v.workspaces) ≡ true = rw stored at n in
                  rw (good, form, stored, get-put_self d device)
                    (found_named name _ (merged_found y now id name v.workspaces p.workspaces ∙ l)
                      (merged_kept y now id name v.workspaces n' p.workspaces))
            ]
          ]
        ]

  presences_kept :
      (ps : List (String × Presence)) (d : Dict Device)
      → lists_workspace y id ps ≡ true
      → holds_name y id name (get d device) ≡ true
      → holds_name y id name (get (update_presences y device ps d) device) ≡ true
  presences_kept [] d l n = n
  presences_kept ((now, p) ∷ ps) d l n =
      let (h, t) = split (is_some (workspace_of y id p.workspaces)) (lists_workspace y id ps) l in
      presences_kept ps (update_presence y now device p d).1 t (presence_kept now p d h n)
    where
      split : (a b : Bool) → a && b ≡ true → (a ≡ true) × (b ≡ true)
      split true b h = (refl, h)
      split false b h = cc

-- A name that the user has given to a workspace stays: after any number of reports of the worker,
-- whatever they call the workspace, the stored workspace still has it, cut to its length, as a name of
-- the user. Each of the reports lists the workspace.
pub update_presence-name :
    (y : System) (now device owner id name : String) (ps : List (String × Presence))
    (d : Dict Device)
    → is_ok (set_workspace_display_name y now device owner id name d).0 ≡ true
    → lists_workspace y id ps ≡ true
    → holds_name y id (clip 200 (y.strip name)) (
        get
          (update_presences y device ps (set_workspace_display_name y now device owner id name d).1)
          device)
      ≡ true
unfolding set_workspace_display_name
update_presence-name y now device owner id name ps d h l =
    presences_kept y device id (clip 200 (y.strip name)) ps _ l
      (go (get_for_owner y device owner d) h)
  where
    go :
        (x : Answer Device)
        → is_ok (store_name y now device id name x d).0 ≡ true
        → holds_name y id
            (clip 200 (y.strip name))
            (get (store_name y now device id name x d).1 device)
          ≡ true
    go (refused e) g = cc
    go (ok v) g = elim (Bool-cases (is_some (workspace_of y id v.workspaces))) [
      | inr n ↦ let g' = rw n at g in cc
      | inl s ↦
          rw (s, get-put_self d device)
            (found_named (clip 200 (y.strip name)) _ (named_found y now id name v.workspaces ∙ s)
              (named_kept y now id name v.workspaces))
    ]
