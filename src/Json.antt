-- ===== src/Json.antt =====
-- The values that `json.loads` returns, and Python's conversions of them: `str`, `int`, `bool` and
-- the text methods are the interpreter's, and enter as the record `Python` of what the code relies
-- on. A JSON object is a list of fields in the order of insertion.
use thread_forge.Prelude.{
  ℕ, zero, suc, String, ◌≡◌, refl, Bool, false, Option, none, some, List, [], ◌∷◌, if◌then◌else◌,
  ◌==◌,
}
use thread_forge.Prelude.Int.{ℤ, pos}
use thread_forge.Prelude.Dict.{Dict}

mutual
  pub data Json : Type 0 where
    null : Json
    bool : Bool → Json
    num : ℤ → Json
    text : String → Json
    arr : Items → Json
    obj : Fields → Json

  pub data Items : Type 0 where
    nil : Items
    cons : Json → Items → Items

  pub data Fields : Type 0 where
    end : Fields
    field : String → Json → Fields → Fields

-- What the code uses of the interpreter. `to_int` gives `none` where `int(x)` raises.
pub record Python : Type 0 where
  pub to_text : Json → String
  pub to_int : Json → Option ℤ
  pub to_bool : Json → Bool
  pub strip : String → String
  pub upper : String → String

-- `str`, `int` and `bool` leave a value alone that has the type already, and only 0 is falsy.
pub record IsPython (py : Python) : Type 0 where
  pub text_of_text : (s : String) → py.to_text (text s) ≡ s
  pub int_of_num : (n : ℤ) → py.to_int (num n) ≡ some n
  pub bool_of_bool : (b : Bool) → py.to_bool (bool b) ≡ b
  pub zero_of_falsy : (n : ℤ) → py.to_bool (num n) ≡ false → n ≡ pos 0

-- [text(s) for s in xs]
unfoldable pub texts : List String → Items
texts [] = nil
texts (s ∷ xs) = cons (text s) (texts xs)

-- [dict(d) for d in xs]
unfoldable pub objects : List Fields → Items
objects [] = nil
objects (d ∷ xs) = cons (obj d) (objects xs)

-- [str(x) for x in xs]
unfoldable pub to_texts : Python → Items → List String
to_texts py nil = []
to_texts py (cons x xs) = py.to_text x ∷ to_texts py xs

-- [dict(x) for x in xs if isinstance(x, dict)]
unfoldable pub to_objects : Items → List Fields
to_objects nil = []
to_objects (cons (obj d) xs) = d ∷ to_objects xs
to_objects (cons _ xs) = to_objects xs

-- d.setdefault(k, v)
unfoldable pub set_default : Fields → String → Json → Fields
set_default end k v = field k v end
set_default (field j w d) k v = if j == k then field j w d else field j w (set_default d k v)

unfoldable pub find_field : Fields → String → Option Json
find_field end k = none
find_field (field j w d) k = if j == k then some w else find_field d k

-- s[:n]
unfoldable pub clip : ℕ → String → String
clip zero s = String.[]
clip (suc n) String.[] = String.[]
clip (suc n) (String.◌∷◌ c s) = String.◌∷◌ c (clip n s)

pub to_texts-texts : (py : Python) → IsPython py → (xs : List String) → to_texts py (texts xs) ≡ xs
unfolding to_texts texts
to_texts-texts py h [] = refl
to_texts-texts py h (s ∷ xs) = λ i. h.text_of_text s i ∷ to_texts-texts py h xs i

pub to_objects-objects : (xs : List Fields) → to_objects (objects xs) ≡ xs
unfolding to_objects objects
to_objects-objects [] = refl
to_objects-objects (d ∷ xs) = λ i. d ∷ to_objects-objects xs i

-- A dictionary of lists of texts, {str(goal): [str(item) ...]}.
unfoldable pub text_lists : Dict (List String) → Fields
text_lists [] = end
text_lists ((k, xs) ∷ d) = field k (arr (texts xs)) (text_lists d)

-- What iterating over a value yields: a list's items; the other cases the code does not meet.
abbrev pub items_of : Json → Items
items_of (arr xs) = xs
items_of _ = nil

unfoldable pub to_text_lists : Python → Fields → Dict (List String)
to_text_lists py end = []
to_text_lists py (field k v d) = (k, to_texts py (items_of v)) ∷ to_text_lists py d

pub to_text_lists-text_lists :
    (py : Python) → IsPython py → (d : Dict (List String)) → to_text_lists py (text_lists d) ≡ d
unfolding to_text_lists text_lists
to_text_lists-text_lists py h [] = refl
to_text_lists-text_lists py h ((k, xs) ∷ d) =
    λ i. (k, to_texts-texts py h xs i) ∷ to_text_lists-text_lists py h d i
