-- ===== src/Plan.antt =====
-- agent-orchestrator/src/langgraph_pico/planning.py: the contract of a plan. The text has been read by
-- `json.loads`, which is the interpreter's; an object's keys are distinct, as it leaves them. A
-- validation returns the value or the code of its PlanValidationError.
pub mod Texts
pub mod Dag
pub mod Steps
pub mod Budgets
pub mod Contract
use thread_forge.Prelude.{
  ◌≡◌, refl, String, Bool, true, false, Option, none, some, List, [], ◌∷◌, contains, ◌&&◌,
  if◌then◌else◌,
}
use thread_forge.Json.{Json, Fields, null, end, field, find_field}

pub data Checked (A : Type 0) : Type 0 where
  valid : A → Checked A
  invalid : String → Checked A

infixl 5 ◌>>=◌
abbrev pub ◌>>=◌ : {A B : Type 0} → Checked A → (A → Checked B) → Checked B
valid a >>= f = f a
invalid code >>= f = invalid code

infixl 5 ◌>>◌
abbrev pub ◌>>◌ : {A B : Type 0} → Checked A → Checked B → Checked B
c >> d = c >>= λ _. d

abbrev pub pure : {A : Type 0} → A → Checked A
pure a = valid a

-- Raises the code if the test fails.
abbrev pub require : Bool → String → Checked (Unit {0})
require b code = if b then valid tt else invalid code

abbrev has_all : List String → Fields → Bool
has_all [] fs = true
has_all (k ∷ ks) fs = elim (find_field fs k) [ none ↦ false | some _ ↦ has_all ks fs ]

abbrev only : List String → Fields → Bool
only ks end = true
only ks (field k v fs) = contains k ks && only ks fs

-- set(value) == required
unfoldable pub has_exactly : List String → Fields → Bool
has_exactly ks fs = only ks fs && has_all ks fs

-- value[k], for a key that has been checked
abbrev pub at : Fields → String → Json
at fs k = elim (find_field fs k) [ none ↦ null | some v ↦ v ]

-- A value comes only from a value.
pub bind-valid :
    {A B : Type 0} (c : Checked A) (f : A → Checked B) (b : B)
    → c >>= f ≡ valid b
    → (a : A) × (c ≡ valid a) × (f a ≡ valid b)
bind-valid (valid a) f b h = (a, refl, h)
bind-valid (invalid code) f b h = cc

pub require-valid :
    {B : Type 0} (t : Bool) (code : String) (c : Checked B) (b : B)
    → require t code >> c ≡ valid b
    → (t ≡ true) × (c ≡ valid b)
require-valid true code c b h = (refl, h)
require-valid false code c b h = cc

pub test-valid :
    {B : Type 0} (t : Bool) (code : String) (c : Checked B) (b : B)
    → (if t then c else invalid code) ≡ valid b
    → (t ≡ true) × (c ≡ valid b)
test-valid true code c b h = (refl, h)
test-valid false code c b h = cc

pub valid-injective : {A : Type 0} (a b : A) → valid a ≡ valid b → a ≡ b
valid-injective a b h = cc
