-- ===== src/Startup/Loops.antt =====
-- The `for` loops of `reconcile`: each body catches what it raises, and what the bodies keep up as long as
-- all goes well, the loop keeps up.
use thread_forge.Prelude.{◌≡◌, refl, Bool, true, false, List, [], ◌∷◌, ◌&&◌}
use thread_forge.Control.{Control, Exec, ok}
use thread_forge.Startup.{each}

-- A claim that is made only if all went well.
abbrev pub If : Bool → Type 0 → Type 0
If true P = P
If false P = Unit {0}

pub If-map : {P Q : Type 0} (b : Bool) → (P → Q) → If b P → If b Q
If-map true f p = f p
If-map false f p = tt

pub If-also : (P : Type 0) (a b : Bool) → If b P → If (a && b) P
If-also P true b p = p
If-also P false b p = tt

-- The action returns a flag, and moves a claim on one index to the claim on the next.
abbrev pub Moves : {S : Type 0} → (S → Control → Type 0) → (S → S) → Exec Bool → Type 0
Moves {S} Inv act m =
    (c : Control)
    → (b : Bool) × (d : Control) × (m c ≡ (ok b, d)) × ((s : S) → Inv s c → If b (Inv (act s) d))

abbrev pub act_all : {A S : Type 0} → (A → S → S) → List A → S → S
act_all act [] s = s
act_all act (x ∷ xs) s = act_all act xs (act x s)

pub combine : (a b : Bool) (P Q : Type 0) → If a P → (P → If b Q) → If (a && b) Q
combine true b P Q h k = k h
combine false b P Q h k = tt

module _ {A S : Type 0} (step : A → Exec Bool) (act : A → S → S) (Inv : S → Control → Type 0) where
  pub each-Moves :
      ((x : A) → Moves Inv (act x) (step x))
      → (xs : List A) → Moves Inv (act_all act xs) (each step xs)
  each-Moves h [] c = (true, c, refl, λ s i. i)
  each-Moves h (x ∷ xs) c =
      let (a, d, p, i) = h x c in
      let (b, e, q, j) = each-Moves h xs d in
      (a && b, e, rw (p, q) refl, λ s g. combine a b _ _ (i s g) (j (act x s)))

abbrev pub All : {A : Type 0} → (A → Type 0) → List A → Type 0
All P [] = Unit {0}
All P (x ∷ xs) = P x × All P xs

pub All-map :
    {A : Type 0} (P Q : A → Type 0) → ((x : A) → P x → Q x) → (xs : List A) → All P xs → All Q xs
All-map P Q h [] a = tt
All-map P Q h (x ∷ xs) (p, a) = (h x p, All-map P Q h xs a)

-- What holds of each element that a loop has pushed holds of each that it went through.
pub All-pushed :
    {A : Type 0} (P : A → Type 0) (xs s : List A)
    → All P (act_all (λ x ys. x ∷ ys) xs s)
    → All P xs × All P s
All-pushed P [] s a = (tt, a)
All-pushed P (x ∷ xs) s a = let (b, (p, c)) = All-pushed P xs (x ∷ s) a in ((p, b), c)
