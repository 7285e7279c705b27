-- ===== src/Plan/Dag.antt =====
-- `_validate_dag`: Kahn's algorithm. A set of dependencies is a list, `ready` a list whose head is
-- the end that `pop` takes, and the loop runs on fuel: one turn for each step.
pub mod Turns
pub mod Cycles
use thread_forge.Prelude.{
  ℕ, zero, suc, String, ◌≡◌, Bool, true, false, Option, none, some, List, [], ◌∷◌, length, ◌==◌,
  ◌||◌, ◌&&◌, not, if◌then◌else◌, contains, eqb,
}
use thread_forge.Prelude.Dict.{Dict, keys}
use thread_forge.Plan.{Checked, valid, invalid}

-- The state of the loop: what each step waits for, the steps that may come next, and the number of
-- the steps that have come.
pub record Walk : Type 0 where
  pub incoming : Dict (List String)
  pub ready : List String
  pub visited : ℕ

abbrev pub is_done : List String → Bool
is_done [] = true
is_done (x ∷ xs) = false

-- dependencies.remove(current)
unfoldable pub discard : String → List String → List String
discard x [] = []
discard x (y ∷ ys) = let rest = discard x ys in if x == y then rest else y ∷ rest

-- The dependencies once `current` has come.
unfoldable pub relax : String → Dict (List String) → Dict (List String)
unfolding discard
relax current [] = []
relax current ((id, needs) ∷ rest) =
    (id, if contains current needs then discard current needs else needs) ∷ relax current rest

-- The steps that only waited for it, put on the stack in their order.
unfoldable pub release : String → Dict (List String) → List String → List String
unfolding discard
release current [] ready = ready
release current ((id, needs) ∷ rest) ready =
    release current rest
      (if contains current needs && is_done (discard current needs) then id ∷ ready else ready)

-- The `while` loop.
unfoldable pub walk : ℕ → Dict (List String) → List String → ℕ → Walk
unfolding relax release
walk zero d ready visited = record { incoming = d; ready = ready; visited = visited }
walk (suc n) d [] visited = record { incoming = d; ready = []; visited = visited }
walk (suc n) d (current ∷ ready) visited =
    walk n (relax current d) (release current d ready) (suc visited)

-- [step_id for step_id, dependencies in incoming.items() if not dependencies], the last at the head
unfoldable pub roots : Dict (List String) → List String → List String
roots [] ready = ready
roots ((id, needs) ∷ rest) ready = roots rest (if is_done needs then id ∷ ready else ready)

unfoldable pub visit_all : Dict (List String) → Walk
unfolding roots walk
visit_all d = walk (length d) d (roots d []) 0

unfoldable pub subset : List String → List String → Bool
subset [] ys = true
subset (x ∷ xs) ys = contains x ys && subset xs ys

unfoldable pub all_known : List String → Dict (List String) → Bool
unfolding subset
all_known ids [] = true
all_known ids ((id, needs) ∷ rest) = subset needs ids && all_known ids rest

unfoldable pub depends_on_itself : Dict (List String) → Bool
depends_on_itself [] = false
depends_on_itself ((id, needs) ∷ rest) = contains id needs || depends_on_itself rest

unfoldable pub validate_dag : Dict (List String) → Checked (Unit {0})
unfolding visit_all all_known depends_on_itself
validate_dag incoming =
    if not (all_known (keys incoming) incoming)
    then invalid "plan_dependency_missing"
    else if depends_on_itself incoming
    then invalid "plan_dependency_cycle"
    else if eqb (visit_all incoming).visited (length incoming)
    then valid tt
    else invalid "plan_dependency_cycle"
